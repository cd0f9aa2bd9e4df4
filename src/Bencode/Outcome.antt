-- ===== src/Bencode/Outcome.antt =====
-- What the parser of src/bencode/bencode_parser.cpp ends with on any text.
use furrent.Prelude.{
  ℕ, zero, suc, ◌+◌, ◌-◌, ◌^◌, ◌<◌, ◌≤◌, ◌≡◌, ◌==◌, ltb, leb, refl, List, [], ◌∷◌, Bool, true,
  false, not, if◌then◌else◌, ◌||◌, inl, inr, Bool-cases, ltb→lt, length, ok, error, Exception,
  returns, throws, out_of_range, undefined, out_of_fuel, ◌>>=◌, arith, and_then, take, drop,
}
use furrent.Prelude.Int.{ℤ, pos, negsuc, IsInt64}
use furrent.Bencode.Value.{BencodeValue, Entries, integer, string, end, entry}
use furrent.Bencode.Parser.{
  Decoded, BencodeParserError, before, until, to_long, stol, int_from, is_integer, is_minus_zero,
  is_number, decode_int, string_from, decode_string, close, insert, insert_all, lex_lt,
}
use furrent.Bencode.Order.{Increasing}
use furrent.Bencode.Steps.{IsWellFormed, EntriesWellFormed}

-- A call that has enough fuel, and whose result, where it has one, is as it should be.
unfoldable pub Ends : {A : Type 0} → (A → ℕ → Type 0) → Decoded A → Type 0
Ends P (returns (ok (a, index))) = P a index
Ends P (returns (error e)) = Unit {0}
Ends P (throws e) = Unit {0}
Ends P undefined = Unit {0}
Ends P out_of_fuel = ⊥

pub Ends-ok :
    {A : Type 0} (P : A → ℕ → Type 0) (a : A) (index : ℕ)
    → P a index
    → Ends P (returns (ok (a, index)))
unfolding Ends
Ends-ok P a index h = h

pub Ends-fail :
    {A : Type 0} (P : A → ℕ → Type 0) (e : BencodeParserError) → Ends P (returns (error e))
unfolding Ends
Ends-fail P e = tt

Ends-throws : {A : Type 0} (P : A → ℕ → Type 0) (e : Exception) → Ends P (throws e)
unfolding Ends
Ends-throws P e = tt

pub Ends-undefined : {A : Type 0} (P : A → ℕ → Type 0) → Ends P undefined
unfolding Ends
Ends-undefined P = tt

pub Ends-and_then :
    {A B : Type 0} (P : A → ℕ → Type 0) (Q : B → ℕ → Type 0) (m : Decoded A) (k : A × ℕ → Decoded B)
    → Ends P m
    → ((a : A) (index : ℕ) → P a index → Ends Q (k (a, index)))
    → Ends Q (and_then m k)
unfolding Ends
Ends-and_then P Q (returns (ok (a, index))) k h step = step a index h
Ends-and_then P Q (returns (error e)) k h step = tt
Ends-and_then P Q (throws e) k h step = tt
Ends-and_then P Q undefined k h step = tt
Ends-and_then P Q out_of_fuel k h step = absurd h

pub Ends-if :
    {A : Type 0} (P : A → ℕ → Type 0) (b : Bool) (x y : Decoded A)
    → (b ≡ true → Ends P x)
    → (b ≡ false → Ends P y)
    → Ends P (if b then x else y)
Ends-if P true x y h k = h refl
Ends-if P false x y h k = k refl

-- A read of a number, and what is done with an int64_t.
Ends-to_long :
    {A : Type 0} (P : A → ℕ → Type 0) (signed : Bool) (n : ℕ) (k : ℤ → Decoded A)
    → ((z : ℤ) → IsInt64 z → Ends P (k z))
    → Ends P (to_long signed n >>= k)
unfolding to_long
Ends-to_long P true zero k h = h (pos 0) (ground arith)
Ends-to_long P true (suc n) k h = elim (Bool-cases (ltb n (2 ^ 63))) [
  | inl fits ↦ rw fits (h (negsuc n) (ltb→lt _ _ fits))
  | inr large ↦ rw large (Ends-throws P out_of_range)
]
Ends-to_long P false n k h = elim (Bool-cases (ltb n (2 ^ 63))) [
  | inl fits ↦ rw fits (h (pos n) (ltb→lt _ _ fits))
  | inr large ↦ rw large (Ends-throws P out_of_range)
]

Ends-stol :
    {A : Type 0} (P : A → ℕ → Type 0) (cs : List ℕ) (k : ℤ → Decoded A)
    → ((z : ℤ) → IsInt64 z → Ends P (k z))
    → Ends P (stol cs >>= k)
unfolding stol
Ends-stol P [] k h = Ends-throws P _
Ends-stol P (c ∷ cs) k h = elim (Bool-cases (c == b'-')) [
  | inl sign ↦ rw sign (Ends-to_long P true _ k h)
  | inr digit ↦ rw digit (Ends-to_long P false _ k h)
]

-- A value of the program, and an index behind the one that the call was given.
abbrev pub Behind : ℕ → BencodeValue → ℕ → Type 0
Behind i v index = (i < index) × IsWellFormed v

int_from-Ends :
    (tokens : List ℕ) (i j : ℕ) (text : List ℕ) → i ≤ j → Ends (Behind i) (int_from tokens j text)
unfolding int_from IsWellFormed
int_from-Ends tokens i j text h =
    let further : i < j + 1 = omega arith in
    Ends-if _ (j == length tokens) _ _ (λ _. Ends-fail _ _)
      λ _.
        Ends-if _ (before b'e' tokens j) _ _ (λ _. Ends-fail _ _)
          λ _.
            Ends-if _ (is_minus_zero text) _ _ (λ _. Ends-fail _ _)
              λ _.
                Ends-if _ (not (is_integer text)) _ _ (λ _. Ends-fail _ _)
                  λ _. Ends-stol _ text _ λ z range. Ends-ok _ (integer z) (j + 1) (further, range)

pub decode_int-Ends : (tokens : List ℕ) (i : ℕ) → Ends (Behind i) (decode_int tokens i)
unfolding decode_int
decode_int-Ends tokens i =
    let text = until b'e' (drop (i + 1) tokens) in
    Ends-if _ (ltb (length tokens - i) 3) _ _ (λ _. Ends-fail _ _)
      λ _. int_from-Ends tokens i (i + 1 + length text) text (omega arith)

string_from-Ends :
    (tokens : List ℕ) (i j : ℕ) (z : ℤ) → i < j → Ends (Behind i) (string_from tokens j z)
unfolding string_from IsWellFormed
string_from-Ends tokens i j (negsuc n) h = Ends-fail _ _
string_from-Ends tokens i j (pos n) h =
    let str = take n (drop j tokens) in
    Ends-if _ (ltb (2 ^ 63 - 1) (length str) || not (length str == n)) _ _ (λ _. Ends-fail _ _)
      λ fits. Ends-ok _ (string str) (j + length str) (omega arith, in_range (length str) n fits)
  where
    in_range : (n m : ℕ) → (ltb (2 ^ 63 - 1) n || not (n == m)) ≡ false → n < 2 ^ 63
    in_range n m k = ground arith

pub decode_string-Ends : (tokens : List ℕ) (i : ℕ) → Ends (Behind i) (decode_string tokens i)
unfolding decode_string
decode_string-Ends tokens i =
    let len = until b':' (drop i tokens) in
    Ends-if _ (ltb (length tokens - i) 3) _ _ (λ _. Ends-fail _ _)
      λ _.
        Ends-if _ (not (is_number len)) _ _ (λ _. Ends-fail _ _)
          λ _. Ends-stol _ _ _ λ z _. string_from-Ends tokens i (i + length len + 1) z (omega arith)

pub close-Ends :
    {A : Type 0} (Q : A → ℕ → Type 0) (e : BencodeParserError) (tokens : List ℕ) (a : A) (i : ℕ)
    → Q a (i + 1)
    → Ends Q (close e tokens (a, i))
unfolding close
close-Ends Q e tokens a i h =
    Ends-if _ (leb (length tokens) i) _ _ (λ _. Ends-fail _ _)
      λ _. Ends-if _ (before b'e' tokens i) _ _ (λ _. Ends-fail _ _) λ _. Ends-ok _ a (i + 1) h

insert-WellFormed :
    (key : List ℕ) (v : BencodeValue) (es : Entries)
    → length key < 2 ^ 63
    → IsWellFormed v
    → EntriesWellFormed es
    → EntriesWellFormed (insert key v es)
unfolding insert EntriesWellFormed
insert-WellFormed key v end k w h = (k, w, tt)
insert-WellFormed key v (entry j u es) k w h = elim (Bool-cases (lex_lt key j)) [
  | inl below ↦ rw below (k, w, h)
  | inr not_below ↦ elim (Bool-cases (lex_lt j key)) [
    | inl above ↦ rw (not_below, above) (h.0, h.1, insert-WellFormed key v es k w h.2)
    | inr same ↦ rw (not_below, same) h
  ]
]

pub insert_all-WellFormed :
    (map es : Entries)
    → EntriesWellFormed map
    → EntriesWellFormed es
    → EntriesWellFormed (insert_all map es)
unfolding insert_all EntriesWellFormed
insert_all-WellFormed map end m h = m
insert_all-WellFormed map (entry k v es) m h =
    insert_all-WellFormed (insert k v map) es (insert-WellFormed k v map h.0 h.1 m) h.2

-- An entry in front of entries in order, below the first of them.
FirstAbove : List ℕ → Entries → Type 0
FirstAbove k end = Unit {0}
FirstAbove k (entry j v es) = lex_lt k j ≡ true

cons-Increasing :
    (k : List ℕ) (w : BencodeValue) (es : Entries)
    → FirstAbove k es
    → Increasing es
    → Increasing (entry k w es)
unfolding FirstAbove
cons-Increasing k w end h r = tt
cons-Increasing k w (entry j u es) h r = (h, r)

FirstAbove-tail :
    (k : List ℕ) (w : BencodeValue) (es : Entries)
    → Increasing (entry k w es)
    → FirstAbove k es × Increasing es
unfolding FirstAbove
FirstAbove-tail k w end h = (tt, tt)
FirstAbove-tail k w (entry j u es) h = h

insert-FirstAbove :
    (k key : List ℕ) (v : BencodeValue) (es : Entries)
    → lex_lt k key ≡ true
    → FirstAbove k es
    → FirstAbove k (insert key v es)
unfolding FirstAbove insert
insert-FirstAbove k key v end h f = h
insert-FirstAbove k key v (entry j u es) h f = elim (Bool-cases (lex_lt key j)) [
  | inl below ↦ rw below h
  | inr not_below ↦ elim (Bool-cases (lex_lt j key)) [
    | inl above ↦ rw (not_below, above) f
    | inr same ↦ rw (not_below, same) f
  ]
]

insert-Increasing :
    (key : List ℕ) (v : BencodeValue) (es : Entries) → Increasing es → Increasing (insert key v es)
unfolding insert
insert-Increasing key v end h = tt
insert-Increasing key v (entry k w es) h = elim (Bool-cases (lex_lt key k)) [
  | inl below ↦ rw below (below, h)
  | inr not_below ↦ elim (Bool-cases (lex_lt k key)) [
    | inl above ↦
        let (f, r) = FirstAbove-tail k w es h in
        rw (not_below, above)
          (cons-Increasing k w (insert key v es) (insert-FirstAbove k key v es above f)
            (insert-Increasing key v es r))
    | inr same ↦ rw (not_below, same) h
  ]
]

pub insert_all-Increasing : (map es : Entries) → Increasing map → Increasing (insert_all map es)
unfolding insert_all
insert_all-Increasing map end h = h
insert_all-Increasing map (entry k v es) h =
    insert_all-Increasing (insert k v map) es (insert-Increasing k v map h)
