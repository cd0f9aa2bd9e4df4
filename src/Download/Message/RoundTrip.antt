-- ===== src/Download/Message/RoundTrip.antt =====
-- Encoding a message of src/download/message.cpp and decoding the bytes again.
use furrent.Prelude.{
  if-false, if-same, ℕ, ◌+◌, ◌-◌, ◌^◌, ◌<◌, ◌≡◌, refl, sym, ◌∙◌, ap, List, [], ◌∷◌, false, ltb,
  length, ◌⊎◌, inl, inr, ok, returns, throws, invalid_argument, arith,
}
use furrent.Prelude.Int.{ℤ, pos}
use furrent.Download.Util.{encode_integer, decode_integer}
use furrent.Download.Util.RoundTrip.{IsUint32, decode_integer-encode_integer}
use furrent.Download.Bitfield.{over_storage}
use furrent.Download.Message.{
  Message, keep_alive, choke, unchoke, interested, not_interested, have, bitfield, request, piece,
  encode_payload, encode_framed, encode, message_id, decode, decode_by_id,
}

-- The messages that fit the wire format, for a torrent with so many pieces: integers of 32 bits, a
-- length prefix of 32 bits, and a bitfield of the torrent's length.
abbrev pub IsSendable : ℤ → Message → Type 0
IsSendable count (have index) = IsUint32 index
IsSendable count (bitfield bf) = (bf.len ≡ count) × (length bf.storage + 1 < 2 ^ 32)
IsSendable count (request index begin len) = IsUint32 index × IsUint32 begin × IsUint32 len
IsSendable count (piece index begin block) =
    IsUint32 index × IsUint32 begin × (length block + 9 < 2 ^ 32)
IsSendable count _ = Unit {0}

-- The four bytes of an integer that fits.
integer_bytes :
    (n : ℤ)
    → IsUint32 n
    → (b₀ b₁ b₂ b₃ : ℕ) × (encode_integer n ≡ returns (b₀ ∷ b₁ ∷ b₂ ∷ b₃ ∷ []))
      × (decode_integer b₀ b₁ b₂ b₃ ≡ n)
integer_bytes n h = elim (decode_integer-encode_integer n) [
  | inl (_, found) ↦ found
  | inr (large, _) ↦ absurd (large h)
]

-- Bytes that decode to the message, with a length prefix that counts what is behind it.
abbrev pub Frames : ℤ → Message → Type 0
Frames count m =
    (b₀ b₁ b₂ b₃ : ℕ) × (rest : List ℕ) × (encode m ≡ returns (b₀ ∷ b₁ ∷ b₂ ∷ b₃ ∷ rest))
    × (decode_integer b₀ b₁ b₂ b₃ ≡ pos (length rest))
    × (decode count (b₀ ∷ b₁ ∷ b₂ ∷ b₃ ∷ rest) ≡ ok m)

not_too_big : (n : ℕ) → n + 1 < 2 ^ 32 → ltb (2 ^ 63 - 1) n ≡ false
not_too_big n h = ground arith

-- What is written as an integer fits 32 bits.
written-lt :
    (n : ℕ) (bytes : List ℕ) → encode_integer (pos (1 + n)) ≡ returns bytes → n + 1 < 2 ^ 32
unfolding encode_integer
written-lt n bytes e = ground arith

-- The frame of a payload whose length prefix is written.
pub encode_framed-prefix :
    (m : Message) (payload : List ℕ) (b₀ b₁ b₂ b₃ : ℕ)
    → encode_payload m ≡ returns payload
    → encode_integer (pos (1 + length payload)) ≡ returns (b₀ ∷ b₁ ∷ b₂ ∷ b₃ ∷ [])
    → encode_framed m ≡ returns (b₀ ∷ b₁ ∷ b₂ ∷ b₃ ∷ message_id m ∷ payload)
unfolding encode_framed
encode_framed-prefix m payload b₀ b₁ b₂ b₃ p e =
    rw (p, e)
      (if-false _ _
        (not_too_big (length payload) (written-lt (length payload) (b₀ ∷ b₁ ∷ b₂ ∷ b₃ ∷ []) e)))

encode_framed-payload :
    (m : Message) (payload : List ℕ)
    → encode_payload m ≡ returns payload
    → length payload + 1 < 2 ^ 32
    → (b₀ b₁ b₂ b₃ : ℕ) × (encode_framed m ≡ returns (b₀ ∷ b₁ ∷ b₂ ∷ b₃ ∷ message_id m ∷ payload))
      × (decode_integer b₀ b₁ b₂ b₃ ≡ pos (1 + length payload))
encode_framed-payload m payload e h =
    let (b₀, b₁, b₂, b₃, written, read) = integer_bytes (pos (1 + length payload)) (omega arith) in
    (b₀, b₁, b₂, b₃, encode_framed-prefix m payload b₀ b₁ b₂ b₃ e written, read)

-- Where there are five bytes, the fifth is the id.
pub decode_framed :
    (count : ℤ) (b₀ b₁ b₂ b₃ id : ℕ) (payload : List ℕ)
    → decode count (b₀ ∷ b₁ ∷ b₂ ∷ b₃ ∷ id ∷ payload) ≡ decode_by_id count id payload
unfolding decode
decode_framed count b₀ b₁ b₂ b₃ id payload = ground arith

-- A message but the keep-alive is its payload in a frame, and the switch on the id reads it.
framed :
    (count : ℤ) (m : Message) (payload : List ℕ)
    → encode m ≡ encode_framed m
    → encode_payload m ≡ returns payload
    → length payload + 1 < 2 ^ 32
    → decode_by_id count (message_id m) payload ≡ ok m
    → Frames count m
framed count m payload e p h d =
    let (b₀, b₁, b₂, b₃, written, read) = encode_framed-payload m payload p h in
    (
      b₀,
      b₁,
      b₂,
      b₃,
      message_id m ∷ payload,
      e ∙ written,
      read ∙ ap pos (omega arith),
      decode_framed count b₀ b₁ b₂ b₃ (message_id m) payload ∙ d,
    )

Frames-total : (count : ℤ) (m : Message) → IsSendable count m → Frames count m
unfolding encode encode_payload message_id decode_by_id
Frames-total count keep_alive h =
    (0, 0, 0, 0, [], refl, unfold decode_integer in refl, unfold decode in refl)
Frames-total count choke h = framed count choke [] refl refl (omega arith) refl
Frames-total count unchoke h = framed count unchoke [] refl refl (omega arith) refl
Frames-total count interested h = framed count interested [] refl refl (omega arith) refl
Frames-total count not_interested h = framed count not_interested [] refl refl (omega arith) refl
Frames-total count (have index) h =
    let (a₀, a₁, a₂, a₃, w, r) = integer_bytes index h in
    framed count (have index) (a₀ ∷ a₁ ∷ a₂ ∷ a₃ ∷ []) refl w (omega arith) (rw r)
Frames-total count (bitfield bf) h =
    framed count (bitfield bf) bf.storage refl refl h.1
      (ap (λ (c : ℤ). ok (bitfield (over_storage bf.storage c))) (sym h.0))
Frames-total count (request index begin len) h =
    let (a₀, a₁, a₂, a₃, w, r) = integer_bytes index h.0 in
    let (b₀, b₁, b₂, b₃, x, s) = integer_bytes begin h.1 in
    let (c₀, c₁, c₂, c₃, y, t) = integer_bytes len h.2 in
    framed count (request index begin len)
      (a₀ ∷ a₁ ∷ a₂ ∷ a₃ ∷ b₀ ∷ b₁ ∷ b₂ ∷ b₃ ∷ c₀ ∷ c₁ ∷ c₂ ∷ c₃ ∷ []) refl (rw (w, x, y))
      (omega arith) (rw (r, s, t))
Frames-total count (piece index begin block) h =
    let (a₀, a₁, a₂, a₃, w, r) = integer_bytes index h.0 in
    let (b₀, b₁, b₂, b₃, x, s) = integer_bytes begin h.1 in
    framed count (piece index begin block) (a₀ ∷ a₁ ∷ a₂ ∷ a₃ ∷ b₀ ∷ b₁ ∷ b₂ ∷ b₃ ∷ block) refl
      (rw (w, x)) (omega arith) (rw (r, s))

-- Every message that fits the wire format encodes to bytes whose first four count the rest, as the
-- receiver needs to find the message's end, and that decode to the same message.
pub decode-encode : (count : ℤ) (m : Message) → IsSendable count m → Frames count m
decode-encode = Frames-total

-- An integer that does not fit is refused.
pub encode_integer-refuses : (n : ℤ) → ¬ IsUint32 n → encode_integer n ≡ throws invalid_argument
encode_integer-refuses n h = elim (decode_integer-encode_integer n) [
  | inl (small, _) ↦ absurd (h small)
  | inr (_, refused) ↦ refused
]

-- The messages whose integers and length prefix fit 32 bits.
abbrev pub Fits : Message → Type 0
Fits (have index) = IsUint32 index
Fits (bitfield bf) = length bf.storage + 1 < 2 ^ 32
Fits (request index begin len) = IsUint32 index × IsUint32 begin × IsUint32 len
Fits (piece index begin block) = IsUint32 index × IsUint32 begin × (length block + 9 < 2 ^ 32)
Fits _ = Unit {0}

IsUint32-cases : (n : ℤ) → IsUint32 n ⊎ (encode_integer n ≡ throws invalid_argument)
IsUint32-cases n = elim (decode_integer-encode_integer n) [
  | inl (small, _) ↦ inl small
  | inr (_, refused) ↦ inr refused
]

-- A payload too long for the length prefix is refused, by the first test or by the integer codec.
encode_framed-too_long :
    (m : Message) (payload : List ℕ)
    → encode_payload m ≡ returns payload
    → ¬ (length payload + 1 < 2 ^ 32)
    → encode_framed m ≡ throws invalid_argument
unfolding encode_framed
encode_framed-too_long m payload e h =
    let refused : encode_integer (pos (1 + length payload)) ≡ throws invalid_argument =
      encode_integer-refuses (pos (1 + length payload)) (λ k. h (omega arith)) in
    rw (e, refused) (if-same (ltb (2 ^ 63 - 1) (length payload)) _)

refused_payload :
    (m : Message)
    → encode_payload m ≡ throws invalid_argument
    → encode_framed m ≡ throws invalid_argument
unfolding encode_framed
refused_payload m e = rw e

-- A message that does not fit is refused with invalid_argument: nothing is cut down on the wire.
pub encode-refuses : (m : Message) → ¬ Fits m → encode m ≡ throws invalid_argument
unfolding encode encode_payload
encode-refuses (have index) h = refused_payload (have index) (encode_integer-refuses index h)
encode-refuses (bitfield bf) h = encode_framed-too_long (bitfield bf) bf.storage refl h
encode-refuses (request index begin len) h = elim (IsUint32-cases index) [
  | inr e ↦ refused_payload (request index begin len) (rw e)
  | inl i ↦
      let (_, _, _, _, w, _) = integer_bytes index i in
      elim (IsUint32-cases begin) [
        | inr e ↦ refused_payload (request index begin len) (rw (w, e))
        | inl b ↦
            let (_, _, _, _, x, _) = integer_bytes begin b in
            refused_payload (request index begin len)
              (rw (w, x, encode_integer-refuses len (λ l. h (i, b, l))))
      ]
]
encode-refuses (piece index begin block) h = elim (IsUint32-cases index) [
  | inr e ↦ refused_payload (piece index begin block) (rw e)
  | inl i ↦
      let (a₀, a₁, a₂, a₃, w, _) = integer_bytes index i in
      elim (IsUint32-cases begin) [
        | inr e ↦ refused_payload (piece index begin block) (rw (w, e))
        | inl b ↦
            let (b₀, b₁, b₂, b₃, x, _) = integer_bytes begin b in
            encode_framed-too_long (piece index begin block)
              (a₀ ∷ a₁ ∷ a₂ ∷ a₃ ∷ b₀ ∷ b₁ ∷ b₂ ∷ b₃ ∷ block) (rw (w, x))
              (λ k. h (i, b, omega arith))
      ]
]
encode-refuses _ h = absurd (h tt)
