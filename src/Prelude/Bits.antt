-- ===== src/Prelude/Bits.antt =====
-- `|` of values whose bits are apart, as a sum.
use Prim.Native.Nat.{ℕ, zero, suc, ◌+◌, ◌*◌, ◌/◌, ◌%◌, ◌^◌, ◌≤◌, ◌<◌, min, max}
use Prim.Native.Nat.{bit_or, bit_or-bitwise, digits}
use mathlib.Core.Path.{◌≡◌, refl, ap}
use mathlib.Core.Bool.{Bool, true, ◌&&◌}
use native.Mathlib.Nat.{pow-suc}
use native.Mathlib.Omega.{arith}

-- The digit recursion that the operation stands for, with its fuel.
abbrev or_digits : ℕ → ℕ → ℕ → ℕ
or_digits n a b = digits (λ y. y) max n a b

-- Fuel beyond the first operand is not used.
same_digits : (a b n m : ℕ) → a ≤ min n m → or_digits n a b ≡ or_digits m a b
same_digits zero b zero zero h = refl
same_digits zero b (suc n) zero h = refl
same_digits zero b zero (suc m) h = refl
same_digits zero b (suc n) (suc m) h = refl
same_digits (suc a) b zero m h = absurd (omega arith)
same_digits (suc a) b (suc n) zero h = absurd (omega arith)
same_digits (suc a) b (suc n) (suc m) h =
    omega (arith, same_digits (suc a / 2) (b / 2) n m (omega arith))

-- The lowest bit, and the others.
bit_or_low : (a b : ℕ) → bit_or a b ≡ max (a % 2) (b % 2) + bit_or (a / 2) (b / 2) * 2
bit_or_low zero b = omega (arith, bit_or-bitwise 0 b, bit_or-bitwise 0 (b / 2))
bit_or_low (suc a) b =
    let halves = same_digits (suc a / 2) (b / 2) a (suc a / 2) (omega arith) in
    omega (arith, halves, bit_or-bitwise (suc a) b, bit_or-bitwise (suc a / 2) (b / 2))

bit_or-zero_below : (n a : ℕ) → a ≤ n → bit_or a 0 ≡ a
bit_or-zero_below n zero h = refl
bit_or-zero_below zero (suc a) h = absurd (omega arith)
bit_or-zero_below (suc n) (suc a) h =
    omega (arith, bit_or_low (suc a) 0, bit_or-zero_below n (suc a / 2) (omega arith))

-- A value above bit k and one below it share no bit.
pub bit_or_apart : (k q r : ℕ) → r < 2 ^ k → bit_or (q * 2 ^ k) r ≡ q * 2 ^ k + r
bit_or_apart zero q r h = ground (arith, bit_or-zero_below q q (omega arith))
bit_or_apart (suc k) q r h = ground (
  arith,
  bit_or_low (q * 2 ^ suc k) r,
  ap (λ (t : ℕ). q * t) (pow-suc 2 k),
  pow-suc 2 k,
  bit_or_apart k q (r / 2) (omega arith),
)

-- A test that passes at each number below a bound, by evaluation.
unfoldable pub every_below : (ℕ → Bool) → ℕ → Bool
every_below test zero = true
every_below test (suc bound) = every_below test bound && test bound

pub every_below-at :
    (test : ℕ → Bool) (bound i : ℕ) → i < bound → every_below test bound ≡ true → test i ≡ true
unfolding every_below
every_below-at test zero i h e = absurd (omega arith)
every_below-at test (suc bound) i h e = ground (arith, every_below-at test bound i)
