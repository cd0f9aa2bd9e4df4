-- ===== src/Download/Downloader/Ended.antt =====
-- src/download: the calls of the Downloader that have no loop to run out of.
use furrent.Prelude.{
  ℕ, ◌+◌, ◌-◌, ◌*◌, ◌^◌, List, [], ◌∷◌, Bool, true, false, if◌then◌else◌, ltb, leb, length,
  get_elem?, Option, none, some, Exec, returns, throws, undefined, out_of_fuel, ◌>>=◌,
}
use furrent.Prelude.Int.{
  ℤ, pos, negsuc, pos_part, neg_part, ltb_ℤ, eq_ℤ, sub_int64, mul_int64, difference, in_int64,
}
use furrent.Hash.{verify_piece}
use furrent.Torrent.Reading.{TorrentFile}
use furrent.Download.Util.{encode_integer}
use furrent.Download.Bitfield.{
  Bitfield, get, set_bit, set_to, byte_at, byte_index, assert_within_bounds,
}
use furrent.Download.Message.{
  Message, keep_alive, choke, unchoke, interested, not_interested, have, bitfield, request, piece,
  encode, encode_framed, encode_payload,
}
use furrent.Download.Downloader.{response_hash, message_length}
use furrent.Download.Downloader.Calls.Finish.{IsOver, returned, threw, broke, not-IsOver}
use furrent.Download.Downloader.Blocks.{copy_block, piece_length_at, hash_at}
use furrent.Download.Downloader.Transfer.{held}

IsOver-if :
    {A : Type 0} (b : Bool) (x y : Exec A) → IsOver x → IsOver y → IsOver (if b then x else y)
IsOver-if true x y h k = h
IsOver-if false x y h k = k

IsOver-bind :
    {A B : Type 0} (e : Exec A) (f : A → Exec B)
    → IsOver e
    → ((a : A) → IsOver (f a))
    → IsOver (e >>= f)
IsOver-bind (returns a) f h k = k a
IsOver-bind (throws x) f h k = threw x
IsOver-bind undefined f h k = broke
IsOver-bind out_of_fuel f h k = absurd (not-IsOver h)

encode_integer-IsOver : (n : ℤ) → IsOver (encode_integer n)
unfolding encode_integer
encode_integer-IsOver (negsuc n) = threw _
encode_integer-IsOver (pos n) = IsOver-if (ltb (2 ^ 32 - 1) n) _ _ (threw _) (returned _)

payload-IsOver : (m : Message) → IsOver (encode_payload m)
unfolding encode_payload
payload-IsOver keep_alive = returned _
payload-IsOver choke = returned _
payload-IsOver unchoke = returned _
payload-IsOver interested = returned _
payload-IsOver not_interested = returned _
payload-IsOver (have i) = encode_integer-IsOver i
payload-IsOver (bitfield bf) = returned _
payload-IsOver (request i b l) = IsOver-bind (encode_integer i) _ (encode_integer-IsOver i) (λ _.
    IsOver-bind (encode_integer b) _ (encode_integer-IsOver b)
      (λ _. IsOver-bind (encode_integer l) _ (encode_integer-IsOver l) (λ _. returned _)))
payload-IsOver (piece i b x) =
    IsOver-bind (encode_integer i) _ (encode_integer-IsOver i)
      (λ _. IsOver-bind (encode_integer b) _ (encode_integer-IsOver b) (λ _. returned _))

framed-IsOver : (m : Message) → IsOver (encode_framed m)
unfolding encode_framed
framed-IsOver m = IsOver-bind (encode_payload m) _ (payload-IsOver m) (λ payload.
    IsOver-if (ltb (2 ^ 63 - 1) (length payload)) _ _ (threw _) (
      IsOver-bind (encode_integer (pos (1 + length payload))) _
        (encode_integer-IsOver (pos (1 + length payload))) (λ _. returned _)))

pub encode-IsOver : (m : Message) → IsOver (encode m)
unfolding encode
encode-IsOver keep_alive = returned _
encode-IsOver choke = framed-IsOver choke
encode-IsOver unchoke = framed-IsOver unchoke
encode-IsOver interested = framed-IsOver interested
encode-IsOver not_interested = framed-IsOver not_interested
encode-IsOver (have i) = framed-IsOver (have i)
encode-IsOver (bitfield bf) = framed-IsOver (bitfield bf)
encode-IsOver (request i b l) = framed-IsOver (request i b l)
encode-IsOver (piece i b x) = framed-IsOver (piece i b x)

pub message_length-IsOver : (bytes : List ℕ) → IsOver (message_length bytes)
unfolding message_length
message_length-IsOver [] = broke
message_length-IsOver (a ∷ []) = broke
message_length-IsOver (a ∷ b ∷ []) = broke
message_length-IsOver (a ∷ b ∷ c ∷ []) = broke
message_length-IsOver (a ∷ b ∷ c ∷ d ∷ rest) = returned _

pub response_hash-IsOver : (bytes : List ℕ) → IsOver (response_hash bytes)
unfolding response_hash
response_hash-IsOver bytes = IsOver-if (ltb (length bytes) 48) _ _ broke (returned _)

pub copy_block-IsOver :
    (content : List ℕ) (begin : ℤ) (block : List ℕ) → IsOver (copy_block content begin block)
unfolding copy_block
copy_block-IsOver content (negsuc n) block = broke
copy_block-IsOver content (pos b) block =
    IsOver-if (leb (b + length block) (length content)) _ _ (returned _) broke

sub_int64-IsOver : (a b : ℤ) → IsOver (sub_int64 a b)
sub_int64-IsOver a b =
    IsOver-if (in_int64 (difference (pos_part a + neg_part b) (neg_part a + pos_part b))) _ _
      (returned _) broke

mul_int64-IsOver : (a b : ℤ) → IsOver (mul_int64 a b)
mul_int64-IsOver a b =
    IsOver-if
      (in_int64 (
        difference (pos_part a * pos_part b + neg_part a * neg_part b)
          (pos_part a * neg_part b + neg_part a * pos_part b)))
      _ _ (returned _) broke

pub piece_length_at-IsOver : (torrent : TorrentFile) (i : ℤ) → IsOver (piece_length_at torrent i)
unfolding piece_length_at
piece_length_at-IsOver torrent i =
    IsOver-bind (sub_int64 torrent.pieces_count (pos 1)) _
      (sub_int64-IsOver torrent.pieces_count (pos 1))
      (λ last.
        IsOver-if (eq_ℤ i last) _ _
          (IsOver-bind (mul_int64 last torrent.piece_length) _
            (mul_int64-IsOver last torrent.piece_length)
            (λ before. sub_int64-IsOver torrent.length before))
          (returned _))

pub hash_at-IsOver : (hashes : List (List ℕ)) (i : ℤ) → IsOver (hash_at hashes i)
unfolding hash_at
hash_at-IsOver hashes (negsuc n) = broke
hash_at-IsOver hashes (pos i) = found (get_elem? hashes i)
  where
    found : (o : Option (List ℕ)) → IsOver (elim o [ none ↦ undefined | some h ↦ returns h ])
    found none = broke
    found (some h) = returned h

pub held-IsOver : (o : Option Bitfield) → IsOver (held o)
unfolding held
held-IsOver none = broke
held-IsOver (some bf) = returned bf

pub verify_piece-IsOver :
    (calc : List ℕ → List ℕ) (content hash : List ℕ) → IsOver (verify_piece calc content hash)
unfolding verify_piece
verify_piece-IsOver calc content hash =
    IsOver-if (ltb (2 ^ 31 - 1) (length content)) _ _ (threw _) (returned _)

byte_at-IsOver : (storage : List ℕ) (i : ℕ) → IsOver (byte_at storage i)
byte_at-IsOver storage i = found (get_elem? storage i)
  where
    found : (o : Option ℕ) → IsOver (elim o [ none ↦ undefined | some b ↦ returns b ])
    found none = broke
    found (some b) = returned b

bounds-IsOver : (len i : ℤ) → IsOver (assert_within_bounds len i)
unfolding assert_within_bounds
bounds-IsOver len (negsuc i) = threw _
bounds-IsOver len (pos i) = IsOver-if (ltb_ℤ (pos i) len) _ _ (returned _) (threw _)

pub set_bit-IsOver : (bf : Bitfield) (i : ℤ) → IsOver (set_bit bf i)
unfolding set_bit set_to
set_bit-IsOver bf i = IsOver-bind (assert_within_bounds bf.len i) _ (bounds-IsOver bf.len i) (λ k.
    IsOver-bind (byte_at bf.storage (byte_index k)) _ (byte_at-IsOver bf.storage (byte_index k))
      (λ _. returned _))

pub get-IsOver : (bf : Bitfield) (i : ℤ) → IsOver (get bf i)
unfolding get
get-IsOver bf i = IsOver-bind (assert_within_bounds bf.len i) _ (bounds-IsOver bf.len i) (λ k.
    IsOver-bind (byte_at bf.storage (byte_index k)) _ (byte_at-IsOver bf.storage (byte_index k))
      (λ _. returned _))
