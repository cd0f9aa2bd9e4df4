-- ===== src/Download/Bitfield.antt =====
-- src/download/bitfield.hpp and bitfield.cpp: an array of bits over a vector of bytes, the lowest
-- index in the highest bit. A byte is a number below 256. The vector's `operator[]` has undefined
-- behaviour behind its end.
pub mod Bytes
pub mod Writes
use furrent.Prelude.{
  ℕ, zero, suc, ◌+◌, ◌-◌, ◌*◌, ◌/◌, ◌%◌, ◌^◌, ◌==◌, List, [], ◌∷◌, Bool, true, false, not, bit_and,
  bit_or, if◌then◌else◌, length, get_elem?, set, replicate, Option, none, some, Exec, returns,
  throws, undefined, invalid_argument, ◌>>=◌,
}
use furrent.Prelude.Int.{ℤ, pos, negsuc, pos_part, ltb_ℤ}

pub record Bitfield : Type 0 where
  pub len : ℤ
  pub storage : List ℕ

pub byte_index : ℕ → ℕ
byte_index bit_index = bit_index / 8

pub byte_offset : ℕ → ℕ
byte_offset bit_index = bit_index % 8

-- The index that passes both tests, which is not negative.
unfoldable pub assert_within_bounds : ℤ → ℤ → Exec ℕ
assert_within_bounds len (negsuc i) = throws invalid_argument
assert_within_bounds len (pos i) = if ltb_ℤ (pos i) len then returns i else throws invalid_argument

abbrev index_zero : ℕ
index_zero = 128

-- INDEX_ZERO >> offset
abbrev pub mask : ℕ → ℕ
mask offset = index_zero / 2 ^ offset

-- Bitfield(int64_t len)
unfoldable pub zeroed : ℤ → Exec Bitfield
zeroed (negsuc n) = throws invalid_argument
zeroed (pos n) = returns (record { len = pos n; storage = replicate ((n + 7) / 8) 0 })

-- Bitfield(std::vector<uint8_t> storage, int64_t len), which makes no check.
unfoldable pub over_storage : List ℕ → ℤ → Bitfield
over_storage storage len = record { len = len; storage = storage }

-- The byte at an index of the vector.
abbrev pub byte_at : List ℕ → ℕ → Exec ℕ
byte_at storage i = elim (get_elem? storage i) [ none ↦ undefined | some b ↦ returns b ]

-- The new byte: `b | mask`, or `b & ~mask`, whose bits above the eighth are those of `b`, so 0.
abbrev pub put_bit : ℕ → ℕ → Bool → ℕ
put_bit b offset true = bit_or b (mask offset)
put_bit b offset false = bit_and b (255 - mask offset)

unfoldable pub set_to : Bitfield → ℤ → Bool → Exec Bitfield
unfolding assert_within_bounds byte_index byte_offset
set_to bf index value = do
  i ← assert_within_bounds bf.len index
  b ← byte_at bf.storage (byte_index i)
  returns (record bf { storage = set bf.storage (byte_index i) (put_bit b (byte_offset i) value) })

-- set(int64_t index)
unfoldable pub set_bit : Bitfield → ℤ → Exec Bitfield
set_bit bf index = set_to bf index true

pub unset : Bitfield → ℤ → Exec Bitfield
unset bf index = set_to bf index false

-- The bit of a byte at an offset: the masked byte, converted to bool.
abbrev pub bit_of : ℕ → ℕ → Bool
bit_of b offset = not (bit_and b (mask offset) == 0)

unfoldable pub get : Bitfield → ℤ → Exec Bool
unfolding assert_within_bounds byte_index byte_offset
get bf index = do
  i ← assert_within_bounds bf.len index
  b ← byte_at bf.storage (byte_index i)
  returns (bit_of b (byte_offset i))

unfoldable pub get_bytes : Bitfield → List ℕ
get_bytes bf = bf.storage

-- The loop of operator<<, with the bits left and the next index: a line for eight bits.
unfoldable pub lines_from : Bitfield → ℕ → ℕ → Exec (List ℕ)
lines_from bf zero i = returns (b'\n' ∷ [])
lines_from bf (suc left) i = do
  bit ← get bf (pos i)
  rest ← lines_from bf left (i + 1)
  returns ((if bit then b'#' else b'.') ∷ (if (i + 1) % 8 == 0 then b'\n' ∷ rest else rest))

-- operator<<
unfoldable pub print : Bitfield → Exec (List ℕ)
unfolding lines_from
print bf = lines_from bf (pos_part bf.len) 0
