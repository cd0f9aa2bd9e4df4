-- ===== src/Download/Message/Decoding.antt =====
-- Decoding a buffer of src/download/message.cpp and encoding the message again.
use furrent.Prelude.{
  Bool-cases, ltb→lt, ◌⊎◌, inl, inr, get_elem?, some, ℕ, zero, suc, ◌+◌, ◌<◌, ◌≤◌, ◌≡◌, refl, sym,
  ◌∙◌, ap, subst, ◌≢◌, List, [], ◌∷◌, ltb, length, All, Result, ok, error, returns, arith,
}
use furrent.Prelude.Int.{ℤ, pos}
use furrent.Download.Util.{encode_integer, decode_integer}
use furrent.Download.Util.RoundTrip.{encode_integer-decode_integer}
use furrent.Download.Message.RoundTrip.{decode_framed, encode_framed-prefix}
use furrent.Download.Message.{
  Message, have, encode_payload, encode_framed, encode, message_id, decode, decode_by_id,
  have_decode, request_decode, piece_decode, simple_decode, DecodeError, unexpected_payload,
  invalid_header, unknown_message_id, invalid_payload_length,
}

abbrev pub IsByte : ℕ → Type 0
IsByte b = b < 256

-- A message that is written with this payload and id.
abbrev WrittenAs : List ℕ → ℕ → Message → Type 0
WrittenAs payload id m =
    (encode_payload m ≡ returns payload) × (message_id m ≡ id) × (encode m ≡ encode_framed m)

-- What a payload decoder makes of its input is written back as the same bytes.
abbrev WritesBack : (List ℕ → Result Message DecodeError) → ℕ → Type 0
WritesBack d id =
    (payload : List ℕ) (m : Message)
    → All IsByte payload
    → d payload ≡ ok m
    → WrittenAs payload id m

written_as :
    (payload : List ℕ) (id : ℕ) (v m : Message)
    → ◌≡◌ {A = Result Message DecodeError} (ok v) (ok m)
    → WrittenAs payload id v
    → WrittenAs payload id m
written_as payload id v m e w = let q : v ≡ m = cc in subst (WrittenAs payload id) q w

have_decode-WritesBack : WritesBack have_decode 4
unfolding have_decode encode encode_payload message_id
have_decode-WritesBack (b₀ ∷ b₁ ∷ b₂ ∷ b₃ ∷ []) m h e =
    written_as _ 4 (have (decode_integer b₀ b₁ b₂ b₃)) m e
      (encode_integer-decode_integer b₀ b₁ b₂ b₃ h.0 h.1.0 h.1.1.0 h.1.1.1.0, refl, refl)
have_decode-WritesBack _ m h e = cc

request_decode-WritesBack : WritesBack request_decode 6
unfolding request_decode encode encode_payload message_id
request_decode-WritesBack (b₀ ∷ b₁ ∷ b₂ ∷ b₃ ∷ b₄ ∷ b₅ ∷ b₆ ∷ b₇ ∷ b₈ ∷ b₉ ∷ b₁₀ ∷ b₁₁ ∷ []) m
      (h₀, (h₁, (h₂, (h₃, (h₄, (h₅, (h₆, (h₇, (h₈, (h₉, (h₁₀, (h₁₁, _)))))))))))) e =
    written_as _ 6 _ m e (
      rw (
        encode_integer-decode_integer b₀ b₁ b₂ b₃ h₀ h₁ h₂ h₃,
        encode_integer-decode_integer b₄ b₅ b₆ b₇ h₄ h₅ h₆ h₇,
        encode_integer-decode_integer b₈ b₉ b₁₀ b₁₁ h₈ h₉ h₁₀ h₁₁,
      ),
      refl,
      refl,
    )
request_decode-WritesBack _ m h e = cc

piece_decode-WritesBack : WritesBack piece_decode 7
unfolding piece_decode encode encode_payload message_id
piece_decode-WritesBack (b₀ ∷ b₁ ∷ b₂ ∷ b₃ ∷ b₄ ∷ b₅ ∷ b₆ ∷ b₇ ∷ block) m
      (h₀, (h₁, (h₂, (h₃, (h₄, (h₅, (h₆, (h₇, _)))))))) e =
    written_as _ 7 _ m e (
      rw (
        encode_integer-decode_integer b₀ b₁ b₂ b₃ h₀ h₁ h₂ h₃,
        encode_integer-decode_integer b₄ b₅ b₆ b₇ h₄ h₅ h₆ h₇,
      ),
      refl,
      refl,
    )
piece_decode-WritesBack _ m h e = cc

decode_by_id-WritesBack :
    (count : ℤ) (id : ℕ) → (id < 4 → ⊥) → WritesBack (decode_by_id count id) id
unfolding decode_by_id encode encode_payload message_id
decode_by_id-WritesBack count (suc (suc (suc (suc zero)))) h p m b e =
    have_decode-WritesBack p m b e
decode_by_id-WritesBack count (suc (suc (suc (suc (suc zero))))) h p m b e =
    written_as p 5 _ m e (refl, refl, refl)
decode_by_id-WritesBack count (suc (suc (suc (suc (suc (suc zero)))))) h p m b e =
    request_decode-WritesBack p m b e
decode_by_id-WritesBack count (suc (suc (suc (suc (suc (suc (suc zero))))))) h p m b e =
    piece_decode-WritesBack p m b e
decode_by_id-WritesBack count (suc (suc (suc (suc (suc (suc (suc (suc n)))))))) h p m b e =
    absurd (ground arith)
decode_by_id-WritesBack count _ h p m b e = absurd (h (omega arith))

-- The ids below 4 have no payload.
simple_decode-WrittenAs : (id : ℕ) → id < 4 → WrittenAs [] id (simple_decode id)
unfolding simple_decode encode encode_payload message_id
simple_decode-WrittenAs zero h = (refl, refl, refl)
simple_decode-WrittenAs (suc zero) h = (refl, refl, refl)
simple_decode-WrittenAs (suc (suc zero)) h = (refl, refl, refl)
simple_decode-WrittenAs (suc (suc (suc zero))) h = (refl, refl, refl)
simple_decode-WrittenAs (suc (suc (suc (suc n)))) h = absurd (omega arith)

decode_by_id-WrittenAs :
    (count : ℤ) (id : ℕ) (payload : List ℕ) (m : Message)
    → All IsByte payload
    → (id < 4 → payload ≡ [])
    → decode_by_id count id payload ≡ ok m
    → WrittenAs payload id m
decode_by_id-WrittenAs count id payload m b h e = elim (Bool-cases (ltb id 4)) [
  | inl small ↦ rw (h (ltb→lt _ _ small)) (
      written_as [] id (simple_decode id) m (sym (simple_by_id (ltb→lt _ _ small)) ∙ e)
        (simple_decode-WrittenAs id (ltb→lt _ _ small)))
  | inr large ↦ decode_by_id-WritesBack count id (λ s. ground arith) payload m b e
]
  where
    simple_by_id : id < 4 → decode_by_id count id payload ≡ ok (simple_decode id)
    simple_by_id s = unfold decode_by_id in ground arith

-- A buffer of bytes with a true length prefix that decodes to a message is what the message encodes
-- to, if a message id below 4 comes without a payload.
pub encode-decode :
    (count : ℤ) (b₀ b₁ b₂ b₃ id : ℕ) (payload : List ℕ) (m : Message)
    → All IsByte (b₀ ∷ b₁ ∷ b₂ ∷ b₃ ∷ payload)
    → decode_integer b₀ b₁ b₂ b₃ ≡ pos (1 + length payload)
    → (id < 4 → payload ≡ [])
    → decode count (b₀ ∷ b₁ ∷ b₂ ∷ b₃ ∷ id ∷ payload) ≡ ok m
    → encode m ≡ returns (b₀ ∷ b₁ ∷ b₂ ∷ b₃ ∷ id ∷ payload)
encode-decode count b₀ b₁ b₂ b₃ id payload m (h₀, (h₁, (h₂, (h₃, h)))) prefix simple e =
    let (p, i, f) =
      decode_by_id-WrittenAs count id payload m h simple
        (sym (decode_framed count b₀ b₁ b₂ b₃ id payload) ∙ e) in
    f
    ∙ encode_framed-prefix m payload b₀ b₁ b₂ b₃ p
        (ap encode_integer (sym prefix) ∙ encode_integer-decode_integer b₀ b₁ b₂ b₃ h₀ h₁ h₂ h₃)
    ∙ ap (λ (k : ℕ). returns (b₀ ∷ b₁ ∷ b₂ ∷ b₃ ∷ k ∷ payload)) i

-- Why a buffer is refused with an error.
abbrev pub Reason : List ℕ → DecodeError → Type 0
Reason buf unexpected_payload = ⊥
Reason buf invalid_header = length buf < 5
Reason buf unknown_message_id = (id : ℕ) × (get_elem? buf 4 ≡ some id) × (8 ≤ id)
Reason buf invalid_payload_length =
    (id : ℕ) × (get_elem? buf 4 ≡ some id)
    × (((id ≡ 4) × (length buf ≢ 9))
        ⊎ ((id ≡ 6) × (length buf ≢ 17))
        ⊎ ((id ≡ 7) × (length buf < 13)))

have_decode-error :
    (payload : List ℕ) (e : DecodeError)
    → have_decode payload ≡ error e
    → (invalid_payload_length ≡ e) × (length payload ≢ 4)
unfolding have_decode
have_decode-error (b₀ ∷ b₁ ∷ b₂ ∷ b₃ ∷ []) e h = absurd (cc)
have_decode-error _ e h = (cc, omega arith)

request_decode-error :
    (payload : List ℕ) (e : DecodeError)
    → request_decode payload ≡ error e
    → (invalid_payload_length ≡ e) × (length payload ≢ 12)
unfolding request_decode
request_decode-error (b₀ ∷ b₁ ∷ b₂ ∷ b₃ ∷ b₄ ∷ b₅ ∷ b₆ ∷ b₇ ∷ b₈ ∷ b₉ ∷ b₁₀ ∷ b₁₁ ∷ []) e h =
    absurd (cc)
request_decode-error _ e h = (cc, omega arith)

piece_decode-error :
    (payload : List ℕ) (e : DecodeError)
    → piece_decode payload ≡ error e
    → (invalid_payload_length ≡ e) × (length payload < 8)
unfolding piece_decode
piece_decode-error (b₀ ∷ b₁ ∷ b₂ ∷ b₃ ∷ b₄ ∷ b₅ ∷ b₆ ∷ b₇ ∷ block) e h = absurd (cc)
piece_decode-error _ e h = (cc, omega arith)

module _ (count : ℤ) (b₀ b₁ b₂ b₃ : ℕ) where
  decode_by_id-Reason :
      (id : ℕ) (payload : List ℕ) (e : DecodeError)
      → decode_by_id count id payload ≡ error e
      → Reason (b₀ ∷ b₁ ∷ b₂ ∷ b₃ ∷ id ∷ payload) e
  unfolding decode_by_id
  decode_by_id-Reason (suc (suc (suc (suc zero)))) p e h =
      let (q, l) = have_decode-error p e h in
      subst (Reason (b₀ ∷ b₁ ∷ b₂ ∷ b₃ ∷ 4 ∷ p)) q (4, refl, inl (refl, omega arith))
  decode_by_id-Reason (suc (suc (suc (suc (suc (suc zero)))))) p e h =
      let (q, l) = request_decode-error p e h in
      subst (Reason (b₀ ∷ b₁ ∷ b₂ ∷ b₃ ∷ 6 ∷ p)) q (6, refl, inr (inl (refl, omega arith)))
  decode_by_id-Reason (suc (suc (suc (suc (suc (suc (suc zero))))))) p e h =
      let (q, l) = piece_decode-error p e h in
      subst (Reason (b₀ ∷ b₁ ∷ b₂ ∷ b₃ ∷ 7 ∷ p)) q (7, refl, inr (inr (refl, omega arith)))
  decode_by_id-Reason (suc (suc (suc (suc (suc (suc (suc (suc n)))))))) p e h =
      let q : unknown_message_id ≡ e = ground arith in
      subst (Reason (b₀ ∷ b₁ ∷ b₂ ∷ b₃ ∷ (suc (suc (suc (suc (suc (suc (suc (suc n)))))))) ∷ p)) q
        (_, refl, omega arith)
  decode_by_id-Reason _ p e h = absurd (cc)

short-Reason :
    (count : ℤ) (buf : List ℕ) (e : DecodeError)
    → length buf < 5
    → decode count buf ≡ error e
    → Reason buf e
unfolding decode
short-Reason count buf e s h = let q : invalid_header ≡ e = ground arith in subst (Reason buf) q s

-- A buffer that is refused is too short for a header, has an id from 8 on, or is a have, request or
-- piece message of the wrong length: no buffer is refused for an unexpected payload.
pub decode-Reason :
    (count : ℤ) (buf : List ℕ) (e : DecodeError) → decode count buf ≡ error e → Reason buf e
decode-Reason count (b₀ ∷ b₁ ∷ b₂ ∷ b₃ ∷ id ∷ payload) e h =
    decode_by_id-Reason count b₀ b₁ b₂ b₃ id payload e
      (sym (decode_framed count b₀ b₁ b₂ b₃ id payload) ∙ h)
decode-Reason count [] e h = short-Reason count [] e (omega arith) h
decode-Reason count buf e h = short-Reason count buf e (omega arith) h
