-- ===== src/Download/Message.antt =====
-- src/download/message.hpp and message.cpp: the messages of the peer protocol and their wire format,
-- `<length><id><payload>`. The subclasses of Message are the constructors, and a virtual method is a
-- function by clauses. A buffer is a list of bytes, numbers below 256.
pub mod RoundTrip
pub mod Decoding
mod Examples
use furrent.Prelude.{
  ℕ, suc, ◌+◌, ◌-◌, ◌^◌, ◌==◌, List, [], ◌∷◌, ◌++◌, Bool, true, false, ◌&&◌, if◌then◌else◌, ltb,
  length, get_elem?, drop, Option, none, some, Result, ok, error, Exec, returns, throws,
  invalid_argument, ◌>>=◌,
}
use furrent.Prelude.Int.{ℤ, pos}
use furrent.Download.Util.{encode_integer, decode_integer}
use furrent.Download.Bitfield.{Bitfield, over_storage, get_bytes}

pub data MessageKind : Type 0 where
  keep_alive choke unchoke interested not_interested have bitfield request piece : MessageKind

pub data DecodeError : Type 0 where
  unexpected_payload invalid_header unknown_message_id invalid_payload_length : DecodeError

-- A subclass is its fields: an index, a begin and a length are int64_t.
pub data Message : Type 0 where
  keep_alive choke unchoke interested not_interested : Message
  have : ℤ → Message
  bitfield : Bitfield → Message
  request : ℤ → ℤ → ℤ → Message
  piece : ℤ → ℤ → List ℕ → Message

unfoldable pub kind : Message → MessageKind
kind keep_alive = MessageKind.keep_alive
kind choke = MessageKind.choke
kind unchoke = MessageKind.unchoke
kind interested = MessageKind.interested
kind not_interested = MessageKind.not_interested
kind (have index) = MessageKind.have
kind (bitfield bf) = MessageKind.bitfield
kind (request index begin len) = MessageKind.request
kind (piece index begin block) = MessageKind.piece

unfoldable pub message_id : Message → ℕ
message_id keep_alive = 0
message_id choke = 0
message_id unchoke = 1
message_id interested = 2
message_id not_interested = 3
message_id (have index) = 4
message_id (bitfield bf) = 5
message_id (request index begin len) = 6
message_id (piece index begin block) = 7

unfoldable pub encode_payload : Message → Exec (List ℕ)
unfolding get_bytes
encode_payload (have index) = encode_integer index
encode_payload (bitfield bf) = returns (get_bytes bf)
encode_payload (request index begin len) = do
  index_encoded ← encode_integer index
  begin_encoded ← encode_integer begin
  length_encoded ← encode_integer len
  returns (index_encoded ++ (begin_encoded ++ length_encoded))
encode_payload (piece index begin block) = do
  index_encoded ← encode_integer index
  begin_encoded ← encode_integer begin
  returns (index_encoded ++ (begin_encoded ++ block))
encode_payload _ = returns []

-- Message::encode, which KeepAliveMessage overrides.
unfoldable pub encode_framed : Message → Exec (List ℕ)
unfolding encode_payload message_id
encode_framed m = encode_payload m >>= λ payload.
    if ltb (2 ^ 63 - 1) (length payload)
    then throws invalid_argument
    else encode_integer (pos (1 + length payload)) >>= λ len.
        returns (len ++ message_id m ∷ payload)

abbrev keep_alive_bytes : List ℕ
keep_alive_bytes = 0 ∷ 0 ∷ 0 ∷ 0 ∷ []

unfoldable pub encode : Message → Exec (List ℕ)
unfolding encode_framed
encode keep_alive = returns keep_alive_bytes
encode m = encode_framed m

-- HaveMessage::decode: exactly four bytes.
have_decode : List ℕ → Result Message DecodeError
have_decode (b₀ ∷ b₁ ∷ b₂ ∷ b₃ ∷ []) = ok (have (decode_integer b₀ b₁ b₂ b₃))
have_decode _ = error invalid_payload_length

-- BitfieldMessage::decode, which takes the length from the torrent and does not look at the payload's.
bitfield_decode : ℤ → List ℕ → Message
unfolding over_storage
bitfield_decode pieces_count buf = bitfield (over_storage buf pieces_count)

-- RequestMessage::decode: exactly three integers.
request_decode : List ℕ → Result Message DecodeError
request_decode (b₀ ∷ b₁ ∷ b₂ ∷ b₃ ∷ b₄ ∷ b₅ ∷ b₆ ∷ b₇ ∷ b₈ ∷ b₉ ∷ b₁₀ ∷ b₁₁ ∷ []) = ok (
    request (decode_integer b₀ b₁ b₂ b₃) (decode_integer b₄ b₅ b₆ b₇)
      (decode_integer b₈ b₉ b₁₀ b₁₁))
request_decode _ = error invalid_payload_length

-- PieceMessage::decode: two integers, and the block behind them.
piece_decode : List ℕ → Result Message DecodeError
piece_decode (b₀ ∷ b₁ ∷ b₂ ∷ b₃ ∷ b₄ ∷ b₅ ∷ b₆ ∷ b₇ ∷ block) =
    ok (piece (decode_integer b₀ b₁ b₂ b₃) (decode_integer b₄ b₅ b₆ b₇) block)
piece_decode _ = error invalid_payload_length

-- The ids below 4. Their non-empty payload makes an error value that is not returned.
simple_decode : ℕ → Message
simple_decode id =
    if id == 0
    then choke
    else if id == 1
    then unchoke
    else if id == 2
    then interested
    else not_interested

-- The switch on the id, with the payload behind it.
pub decode_by_id : ℤ → ℕ → List ℕ → Result Message DecodeError
unfolding have_decode bitfield_decode request_decode piece_decode simple_decode
decode_by_id pieces_count id payload =
    if ltb id 4
    then ok (simple_decode id)
    else if ltb id 8
    then (if id == 4
        then have_decode payload
        else if id == 5
        then ok (bitfield_decode pieces_count payload)
        else if id == 6
        then request_decode payload
        else piece_decode payload)
    else error unknown_message_id

-- `==` of two buffers.
bytes_eq : List ℕ → List ℕ → Bool
bytes_eq [] [] = true
bytes_eq (x ∷ xs) (y ∷ ys) = (x == y) && bytes_eq xs ys
bytes_eq _ _ = false

-- buf[4] and what is behind it, where the buffer has five bytes.
abbrev id_of : List ℕ → ℕ
id_of buf = elim (get_elem? buf 4) [ none ↦ 0 | some id ↦ id ]

-- Message::decode. Of the torrent it reads the number of pieces.
unfoldable pub decode : ℤ → List ℕ → Result Message DecodeError
unfolding bytes_eq
decode pieces_count buf =
    if bytes_eq buf keep_alive_bytes
    then ok keep_alive
    else if ltb (length buf) 5
    then error invalid_header
    else decode_by_id pieces_count (id_of buf) (drop 5 buf)
