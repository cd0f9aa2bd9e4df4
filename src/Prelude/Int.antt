-- ===== src/Prelude/Int.antt =====
-- Signed integers over the native numbers: the values of an int64_t.
use Prim.Native.Nat.{ℕ, zero, suc, ◌+◌, ◌-◌, ◌*◌, ◌/◌, ◌%◌, ◌<◌, ◌^◌}
use mathlib.Core.Bool.{Bool, ◌&&◌}
use furrent.Prelude.Tests.{ltb, leb, if◌then◌else◌}
use furrent.Prelude.Call.{Exec, returns, undefined}

-- `negsuc n` is -(n + 1).
pub data ℤ : Type 0 where
  pos : ℕ → ℤ
  negsuc : ℕ → ℤ

-- The range of an int64_t.
abbrev pub IsInt64 : ℤ → Type 0
IsInt64 (pos n) = n < 2 ^ 63
IsInt64 (negsuc n) = n < 2 ^ 63

abbrev pub pos_part : ℤ → ℕ
pos_part (pos n) = n
pos_part (negsuc n) = 0

abbrev pub neg_part : ℤ → ℕ
neg_part (pos n) = 0
neg_part (negsuc n) = suc n

-- a < b
abbrev pub ltb_ℤ : ℤ → ℤ → Bool
ltb_ℤ a b = ltb (pos_part a + neg_part b) (pos_part b + neg_part a)

-- a ≤ b
abbrev pub leb_ℤ : ℤ → ℤ → Bool
leb_ℤ a b = leb (pos_part a + neg_part b) (pos_part b + neg_part a)

-- a - b of numbers
abbrev pub difference : ℕ → ℕ → ℤ
difference a b = if leb b a then pos (a - b) else negsuc (b - a - 1)

abbrev pub in_int64 : ℤ → Bool
in_int64 (pos n) = ltb n (2 ^ 63)
in_int64 (negsuc n) = ltb n (2 ^ 63)

-- The sum of two int64_t, undefined where it overflows.
abbrev pub add_int64 : ℤ → ℤ → Exec ℤ
add_int64 a b =
    let sum = difference (pos_part a + pos_part b) (neg_part a + neg_part b) in
    if in_int64 sum then returns sum else undefined

-- The difference of two int64_t, undefined where it overflows.
abbrev pub sub_int64 : ℤ → ℤ → Exec ℤ
sub_int64 a b =
    let rest = difference (pos_part a + neg_part b) (neg_part a + pos_part b) in
    if in_int64 rest then returns rest else undefined

-- The product of two int64_t, undefined where it overflows.
abbrev pub mul_int64 : ℤ → ℤ → Exec ℤ
mul_int64 a b =
    let product =
      difference (pos_part a * pos_part b + neg_part a * neg_part b)
        (pos_part a * neg_part b + neg_part a * pos_part b) in
    if in_int64 product then returns product else undefined

-- The quotient of two int64_t, rounded towards 0, undefined for a divisor 0 and for an overflow.
abbrev pub div_int64 : ℤ → ℤ → Exec ℤ
div_int64 a (pos zero) = undefined
div_int64 a (pos (suc n)) = returns (difference (pos_part a / suc n) (neg_part a / suc n))
div_int64 a (negsuc n) =
    let quotient = difference (neg_part a / suc n) (pos_part a / suc n) in
    if in_int64 quotient then returns quotient else undefined

-- static_cast<int> of an int64_t, which keeps the low 32 bits.
abbrev pub to_int32 : ℤ → ℤ
to_int32 z =
    let bits = (pos_part z % 2 ^ 32 + (2 ^ 32 - neg_part z % 2 ^ 32)) % 2 ^ 32 in
    if ltb bits (2 ^ 31) then pos bits else negsuc (2 ^ 32 - bits - 1)

abbrev pub eq_ℤ : ℤ → ℤ → Bool
eq_ℤ a b = leb_ℤ a b && leb_ℤ b a
