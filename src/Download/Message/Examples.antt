-- ===== src/Download/Message/Examples.antt =====
-- The theorems on src/download/message.cpp at concrete inputs, and runs of the definitions.
use furrent.Prelude.{◌≡◌, refl, [], ◌∷◌, ok, returns, throws, invalid_argument, undefined, arith}
use furrent.Prelude.Int.{pos, negsuc}
use furrent.Download.Util.{decode_integer}
use furrent.Download.Bitfield.{get, over_storage}
use furrent.Download.Message.{
  choke, have, bitfield, request, piece, encode, decode, decode_by_id, unknown_message_id,
}
use furrent.Download.Message.RoundTrip.{decode-encode, encode-refuses, Frames}
use furrent.Download.Message.Decoding.{encode-decode, decode-Reason, Reason}

-- A bitfield message of one byte for a torrent of 100 pieces is accepted, and a bit of it is then
-- read behind its storage.
short_bitfield :
    decode (pos 100) (0 ∷ 0 ∷ 0 ∷ 2 ∷ 5 ∷ 255 ∷ [])
    ≡ ok (bitfield (over_storage (255 ∷ []) (pos 100)))
unfolding decode decode_by_id
short_bitfield = refl

short_bitfield_read : get (over_storage (255 ∷ []) (pos 100)) (pos 50) ≡ undefined
unfolding get over_storage
short_bitfield_read = refl

decode-encode_example : Frames (pos 10) (piece (pos 7) (pos 16384) (1 ∷ 2 ∷ 3 ∷ []))
decode-encode_example =
    decode-encode (pos 10) (piece (pos 7) (pos 16384) (1 ∷ 2 ∷ 3 ∷ []))
      (omega arith, omega arith, omega arith)

encode-refuses_example : encode (request (pos 1) (negsuc 0) (pos 5)) ≡ throws invalid_argument
encode-refuses_example = encode-refuses (request (pos 1) (negsuc 0) (pos 5)) (λ h. h.1)

encode-decode_example :
    encode (have (decode_integer 0 0 1 0)) ≡ returns (0 ∷ 0 ∷ 0 ∷ 5 ∷ 4 ∷ 0 ∷ 0 ∷ 1 ∷ 0 ∷ [])
encode-decode_example =
    encode-decode (pos 10) 0 0 0 5 4 (0 ∷ 0 ∷ 1 ∷ 0 ∷ []) (have (decode_integer 0 0 1 0))
      (omega arith) (unfold decode_integer in refl) (λ h. absurd (omega arith))
      (unfold decode decode_by_id in refl)

decode-Reason_example : Reason (0 ∷ 0 ∷ 0 ∷ 1 ∷ 9 ∷ []) unknown_message_id
decode-Reason_example =
    decode-Reason (pos 10) (0 ∷ 0 ∷ 0 ∷ 1 ∷ 9 ∷ []) unknown_message_id
      (unfold decode decode_by_id in refl)

-- A choke message with a payload is accepted as a choke message.
choke_with_payload : decode (pos 10) (0 ∷ 0 ∷ 0 ∷ 2 ∷ 0 ∷ 9 ∷ []) ≡ ok choke
unfolding decode decode_by_id
choke_with_payload = refl
