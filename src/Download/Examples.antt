-- ===== src/Download/Examples.antt =====
-- The theorems on src/download/util.cpp and bitfield.cpp at concrete inputs, and runs of the definitions.
use furrent.Prelude.{
  ◌<◌, ◌≡◌, refl, ◌==◌, ◌⊎◌, List, [], ◌∷◌, Bool, true, false, ℕ, if◌then◌else◌, returns, throws,
  invalid_argument, ◌>>=◌, arith,
}
use furrent.Prelude.Int.{pos, negsuc}
use furrent.Download.Util.{encode_integer, decode_integer}
use furrent.Download.Util.RoundTrip.{
  IsUint32, decode_integer-encode_integer, encode_integer-decode_integer,
}
use furrent.Download.Bitfield.{Bitfield, zeroed, set_to, get, lines_from, print}
use furrent.Download.Bitfield.Writes.{IsValid, set_all, get-set_to, zeroed-last_write}

decode_integer_run : decode_integer 1 2 3 4 ≡ pos 0x01020304
unfolding decode_integer
decode_integer_run = refl

decode_integer-encode_integer_example :
    (IsUint32 (negsuc 4)
      × ((b₀ b₁ b₂ b₃ : ℕ) × (encode_integer (negsuc 4) ≡ returns (b₀ ∷ b₁ ∷ b₂ ∷ b₃ ∷ []))
          × (decode_integer b₀ b₁ b₂ b₃ ≡ negsuc 4)))
    ⊎ ((¬ IsUint32 (negsuc 4)) × (encode_integer (negsuc 4) ≡ throws invalid_argument))
decode_integer-encode_integer_example = decode_integer-encode_integer (negsuc 4)

encode_integer-decode_integer_example :
    encode_integer (decode_integer 255 0 128 7) ≡ returns (255 ∷ 0 ∷ 128 ∷ 7 ∷ [])
encode_integer-decode_integer_example =
    encode_integer-decode_integer 255 0 128 7 (omega arith) (omega arith) (omega arith)
      (omega arith)

-- Ten bits, of which bits 0 and 9 are set.
abbrev two_bytes : Bitfield
two_bytes = record { len = pos 10; storage = 128 ∷ 64 ∷ [] }

two_bytes-IsValid : IsValid 10 two_bytes
two_bytes-IsValid = record { counted = refl; room = refl; bytes = (omega arith, (omega arith, tt)) }

get-set_to_example :
    (bf' : Bitfield) × (set_to two_bytes (pos 3) true ≡ returns bf')
    × IsValid 10 bf'
    × ((j : ℕ)
        → j < 10
        → get bf' (pos j) ≡ (if 3 == j then returns true else get two_bytes (pos j)))
get-set_to_example = get-set_to 10 3 two_bytes true two_bytes-IsValid (omega arith)

abbrev writes : List (ℕ × Bool)
writes = (3, true) ∷ (9, true) ∷ (3, false) ∷ (0, true) ∷ []

zeroed-last_write_example :
    (zeroed (pos 10) >>= λ bf. set_all bf writes >>= λ bf'. get bf' (pos 9)) ≡ returns true
zeroed-last_write_example = zeroed-last_write 10 writes 9 (omega arith) (omega arith)

outside :
    (get two_bytes (pos 10) ≡ throws invalid_argument)
    × (set_to two_bytes (pos 10) true ≡ throws invalid_argument)
unfolding get set_to
outside = (refl, refl)

print-nine :
    print (record { len = pos 9; storage = 129 ∷ 0 ∷ [] })
    ≡ returns (b'#' ∷ b'.' ∷ b'.' ∷ b'.' ∷ b'.' ∷ b'.' ∷ b'.' ∷ b'#' ∷ b'\n' ∷ b'.' ∷ b'\n' ∷ [])
unfolding print lines_from get
print-nine = refl
