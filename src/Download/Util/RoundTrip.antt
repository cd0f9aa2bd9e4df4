-- ===== src/Download/Util/RoundTrip.antt =====
-- The two directions of the integer codec of src/download/util.cpp.
use furrent.Prelude.{
  ◌⊎◌, inl, inr, Bool-cases, ltb→lt, ℕ, ◌+◌, ◌*◌, ◌/◌, ◌%◌, ◌^◌, ◌<◌, ◌≡◌, refl, [], ◌∷◌,
  bit_or_apart, returns, throws, invalid_argument, arith, ltb,
}
use furrent.Prelude.Int.{ℤ, pos, negsuc}
use furrent.Download.Util.{encode_integer, decode_integer}

-- The value of four bytes, the first the highest.
abbrev pub big_endian : ℕ → ℕ → ℕ → ℕ → ℕ
big_endian b₀ b₁ b₂ b₃ = b₀ * 16777216 + b₁ * 65536 + b₂ * 256 + b₃

pub decode_integer-big_endian :
    (b₀ b₁ b₂ b₃ : ℕ)
    → b₀ < 256
    → b₁ < 256
    → b₂ < 256
    → b₃ < 256
    → decode_integer b₀ b₁ b₂ b₃ ≡ pos (big_endian b₀ b₁ b₂ b₃)
unfolding decode_integer
decode_integer-big_endian b₀ b₁ b₂ b₃ h₀ h₁ h₂ h₃ = ground (
  arith,
  bit_or_apart 32 0 (b₀ * 16777216) (omega arith),
  bit_or_apart 24 b₀ (b₁ * 65536) (omega arith),
  bit_or_apart 16 (b₀ * 256 + b₁) (b₂ * 256) (omega arith),
  bit_or_apart 8 (b₀ * 65536 + b₁ * 256 + b₂) b₃ (omega arith),
)

pub encode_integer-bytes :
    (n : ℕ)
    → n < 2 ^ 32
    → encode_integer (pos n)
      ≡ returns (n / 16777216 ∷ n / 65536 % 256 ∷ n / 256 % 256 ∷ n % 256 ∷ [])
unfolding encode_integer
encode_integer-bytes n h = ground arith

-- An integer outside 0 to 2 ^ 32 - 1 is refused.
abbrev pub IsUint32 : ℤ → Type 0
IsUint32 (pos n) = n < 2 ^ 32
IsUint32 (negsuc n) = ⊥

-- The bytes of an integer that fits decode to it, and any other integer is refused with
-- invalid_argument: no integer is cut down to 32 bits on its way to the wire.
pub decode_integer-encode_integer :
    (n : ℤ)
    → (IsUint32 n
        × ((b₀ b₁ b₂ b₃ : ℕ) × (encode_integer n ≡ returns (b₀ ∷ b₁ ∷ b₂ ∷ b₃ ∷ []))
            × (decode_integer b₀ b₁ b₂ b₃ ≡ n)))
      ⊎ ((¬ IsUint32 n) × (encode_integer n ≡ throws invalid_argument))
decode_integer-encode_integer (negsuc n) = inr ((λ h. h), unfold encode_integer in refl)
decode_integer-encode_integer (pos n) = elim (Bool-cases (ltb n (2 ^ 32))) [
  | inl small ↦
      let h : n < 2 ^ 32 = ltb→lt _ _ small in
      inl (
        h,
        (
          n / 16777216,
          n / 65536 % 256,
          n / 256 % 256,
          n % 256,
          encode_integer-bytes n h,
          ground (
            arith,
            decode_integer-big_endian (n / 16777216) (n / 65536 % 256) (n / 256 % 256) (n % 256)
                (omega arith) (omega arith) (omega arith) (omega arith),
          ),
        ),
      )
  | inr large ↦ inr (ground arith, unfold encode_integer in ground arith)
]

-- Any four bytes decode to an integer that encodes to the same four bytes.
pub encode_integer-decode_integer :
    (b₀ b₁ b₂ b₃ : ℕ)
    → b₀ < 256
    → b₁ < 256
    → b₂ < 256
    → b₃ < 256
    → encode_integer (decode_integer b₀ b₁ b₂ b₃) ≡ returns (b₀ ∷ b₁ ∷ b₂ ∷ b₃ ∷ [])
encode_integer-decode_integer b₀ b₁ b₂ b₃ h₀ h₁ h₂ h₃ =
    rw (decode_integer-big_endian b₀ b₁ b₂ b₃ h₀ h₁ h₂ h₃)
      (ground (arith, encode_integer-bytes (big_endian b₀ b₁ b₂ b₃) (omega arith)))
