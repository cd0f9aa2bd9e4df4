-- ===== src/Bencode/Number.antt =====
-- Decimal numbers as src/bencode prints and reads them.
use furrent.Prelude.{
  ℕ, zero, suc, ◌+◌, ◌-◌, ◌*◌, ◌/◌, ◌%◌, ◌^◌, ◌≤◌, ◌<◌, ◌≡◌, ltb, refl, ap, ◌∙◌, List, [], ◌∷◌,
  ◌++◌, true, false, length, length-append, Bool-cases, ltb→lt, inl, inr, returns, arith,
}
use furrent.Prelude.Int.{ℤ, pos, negsuc, IsInt64}
use furrent.Bencode.Value.{decimal_from, decimal, decimal_ℤ}
use furrent.Bencode.Parser.{
  until, is_digit, all_digits, is_number, is_integer, is_minus_zero, digits_value, to_long, stol,
}

digits_value-append :
    (xs : List ℕ) (c acc : ℕ)
    → digits_value acc (xs ++ c ∷ []) ≡ digits_value acc xs * 10 + (c - b'0')
unfolding digits_value
digits_value-append [] c acc = refl
digits_value-append (x ∷ xs) c acc = digits_value-append xs c (acc * 10 + (x - b'0'))

all_digits-append :
    (xs ys : List ℕ) → all_digits xs ≡ true → all_digits ys ≡ true → all_digits (xs ++ ys) ≡ true
unfolding all_digits
all_digits-append [] ys h k = k
all_digits-append (x ∷ xs) ys h k = ground (arith, all_digits-append xs ys)

-- A list of digits that has a value.
abbrev Digits : List ℕ → ℕ → Type 0
Digits cs n = (all_digits cs ≡ true) × (digits_value 0 cs ≡ n) × (0 < length cs)

decimal_from_small : (fuel n : ℕ) → ltb n 10 ≡ true → decimal_from (suc fuel) n ≡ (b'0' + n) ∷ []
unfolding decimal_from
decimal_from_small fuel n e = rw (e, decimal_from)

decimal_from_large :
    (fuel n : ℕ)
    → ltb n 10 ≡ false
    → decimal_from (suc fuel) n ≡ decimal_from fuel (n / 10) ++ (b'0' + n % 10) ∷ []
unfolding decimal_from
decimal_from_large fuel n e = rw (e, decimal_from)

one_digit : (n : ℕ) → n < 10 → Digits ((b'0' + n) ∷ []) n
unfolding all_digits is_digit digits_value
one_digit n h = (ground arith, omega arith, omega arith)

decimal_from-Digits : (fuel n : ℕ) → n ≤ fuel → Digits (decimal_from fuel n) n
decimal_from-Digits zero n h = unfold decimal_from in one_digit n (omega arith)
decimal_from-Digits (suc fuel) n h = elim (Bool-cases (ltb n 10)) [
  | inl small ↦ rw (decimal_from_small fuel n small) (one_digit n (ltb→lt _ _ small))
  | inr large ↦
      let (d, v, l) = decimal_from-Digits fuel (n / 10) (ground arith) in
      let (d', _, _) = one_digit (n % 10) (omega arith) in
      rw (decimal_from_large fuel n large) (
        all_digits-append (decimal_from fuel (n / 10)) _ d d',
        digits_value-append (decimal_from fuel (n / 10)) (b'0' + n % 10) 0 ∙ omega (arith, v),
        omega (arith, length-append (decimal_from fuel (n / 10)) ((b'0' + n % 10) ∷ [])),
      )
]

pub decimal-Digits : (n : ℕ) → Digits (decimal n) n
unfolding decimal
decimal-Digits n = decimal_from-Digits n n (omega arith)

-- The loop up to a stop that is no digit takes the digits.
pub until-digits :
    (cs rest : List ℕ) (stop : ℕ)
    → all_digits cs ≡ true
    → is_digit stop ≡ false
    → until stop (cs ++ stop ∷ rest) ≡ cs
unfolding until all_digits is_digit
until-digits [] rest stop h k = ground arith
until-digits (c ∷ cs) rest stop h k = ground (arith, until-digits cs rest stop)

-- A number of digits is one to the parser.
digits-is_number : (cs : List ℕ) → all_digits cs ≡ true → 0 < length cs → is_number cs ≡ true
unfolding is_number
digits-is_number [] h k = absurd (omega arith)
digits-is_number (c ∷ cs) h k = h

pub decimal-is_number : (n : ℕ) → is_number (decimal n) ≡ true
decimal-is_number n = let (d, _, l) = decimal-Digits n in digits-is_number (decimal n) d l

-- Digits do not begin with a sign.
unsigned_lem :
    (cs : List ℕ)
    → all_digits cs ≡ true
    → 0 < length cs
    → (is_integer cs ≡ is_number cs)
      × (is_minus_zero cs ≡ false)
      × (stol cs ≡ to_long false (digits_value 0 cs))
unfolding is_integer is_minus_zero stol all_digits is_digit
unsigned_lem [] h k = absurd (omega arith)
unsigned_lem (c ∷ []) h k = (ground arith, ground arith, ground arith)
unsigned_lem (c ∷ b ∷ []) h k = (ground arith, ground arith, ground arith)
unsigned_lem (c ∷ b ∷ d ∷ cs) h k = (ground arith, ground arith, ground arith)

pub stol-decimal : (n : ℕ) → n < 2 ^ 63 → stol (decimal n) ≡ returns (pos n)
unfolding to_long
stol-decimal n h =
    let (d, v, l) = decimal-Digits n in
    let (_, _, s) = unsigned_lem (decimal n) d l in s ∙ rw v (ground arith)

not_minus_zero :
    (cs : List ℕ) (n : ℕ)
    → digits_value 0 cs ≡ suc n
    → 0 < length cs
    → is_minus_zero (b'-' ∷ cs) ≡ false
unfolding is_minus_zero digits_value
not_minus_zero [] n v l = absurd (omega arith)
not_minus_zero (c ∷ []) n v l = ground arith
not_minus_zero (c ∷ d ∷ cs) n v l = refl

-- The text of a negative number: a sign, and the digits of a number that is not 0.
signed_lem :
    (cs : List ℕ) (n : ℕ)
    → Digits cs (suc n)
    → (is_minus_zero (b'-' ∷ cs) ≡ false)
      × (is_integer (b'-' ∷ cs) ≡ true)
      × (stol (b'-' ∷ cs) ≡ to_long true (suc n))
unfolding is_integer is_minus_zero stol
signed_lem cs n (d, v, l) = (not_minus_zero cs n v l, digits-is_number cs d l, rw v)

-- What the parser makes of the text of an int64_t.
pub decimal_ℤ-read :
    (n : ℤ)
    → IsInt64 n
    → (is_minus_zero (decimal_ℤ n) ≡ false)
      × (is_integer (decimal_ℤ n) ≡ true)
      × (stol (decimal_ℤ n) ≡ returns n)
unfolding decimal_ℤ
decimal_ℤ-read (pos n) h =
    let (d, v, l) = decimal-Digits n in
    let (i, z, _) = unsigned_lem (decimal n) d l in (z, i ∙ decimal-is_number n, stol-decimal n h)
decimal_ℤ-read (negsuc n) h =
    let (z, i, s) = signed_lem (decimal (suc n)) n (decimal-Digits (suc n)) in
    (z, i, s ∙ unfold to_long in ground arith)

-- The loop up to the 'e' takes the text of an integer.
pub until-decimal_ℤ :
    (n : ℤ) (rest : List ℕ) → until b'e' (decimal_ℤ n ++ b'e' ∷ rest) ≡ decimal_ℤ n
unfolding decimal_ℤ is_digit
until-decimal_ℤ (pos n) rest = until-digits (decimal n) rest b'e' (decimal-Digits n).0 refl
until-decimal_ℤ (negsuc n) rest =
    unfold until in
    ap (λ cs. b'-' ∷ cs) (until-digits (decimal (suc n)) rest b'e' (decimal-Digits (suc n)).0 refl)

pub length-decimal_ℤ_pos : (n : ℤ) → 0 < length (decimal_ℤ n)
unfolding decimal_ℤ
length-decimal_ℤ_pos (pos n) = (decimal-Digits n).2
length-decimal_ℤ_pos (negsuc n) = omega arith
