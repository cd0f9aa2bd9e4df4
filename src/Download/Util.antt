-- ===== src/Download/Util.antt =====
-- src/download/util.cpp: big-endian 32-bit integers on the wire. A byte is a number below 256;
-- `encode_me & 0xFF` is the remainder by 2 ^ 8, and `encode_me >>= 8` the quotient.
pub mod RoundTrip
use furrent.Prelude.{
  ℕ, zero, suc, ◌-◌, ◌*◌, ◌/◌, ◌%◌, ◌^◌, List, [], ◌∷◌, bit_or, if◌then◌else◌, ltb, Exec, returns,
  throws, invalid_argument,
}
use furrent.Prelude.Int.{ℤ, pos, negsuc}

-- `for (int i = 3; i >= 0; i--)`, with the rounds left; `result` holds the bytes from `i` on.
encode_bytes : ℕ → ℕ → List ℕ → List ℕ
encode_bytes zero encode_me result = result
encode_bytes (suc i) encode_me result =
    encode_bytes i (encode_me / 2 ^ 8) ((encode_me % 2 ^ 8) ∷ result)

unfoldable pub encode_integer : ℤ → Exec (List ℕ)
unfolding encode_bytes
encode_integer (negsuc n) = throws invalid_argument
encode_integer (pos n) =
    if ltb (2 ^ 32 - 1) n then throws invalid_argument else returns (encode_bytes 4 n [])

-- `for (int i = 0; i <= 3; i++)` over the bytes left, with 3 - i of them behind the first. The
-- shift is in `int`, and `|=` keeps its 32 low bits.
decode_bytes : List ℕ → ℕ → ℕ → ℕ
decode_bytes [] left result = result
decode_bytes (b ∷ buf) left result =
    decode_bytes buf (left - 1) (bit_or result (b * 2 ^ (8 * left) % 2 ^ 32))

-- The `std::array` is given by its four bytes.
unfoldable pub decode_integer : ℕ → ℕ → ℕ → ℕ → ℤ
unfolding decode_bytes
decode_integer b₀ b₁ b₂ b₃ = pos (decode_bytes (b₀ ∷ b₁ ∷ b₂ ∷ b₃ ∷ []) 3 0)
