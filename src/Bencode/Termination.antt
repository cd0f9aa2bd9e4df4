-- ===== src/Bencode/Termination.antt =====
-- The recursion of src/bencode/bencode_parser.cpp: its fuel, and the values that it makes.
use furrent.Prelude.{
  ℕ, zero, suc, ◌+◌, ◌-◌, ◌*◌, ◌^◌, ◌<◌, ◌≤◌, ◌≡◌, ◌==◌, ltb, refl, sym, ◌∙◌, List, true, false,
  if◌then◌else◌, inl, inr, Bool-cases, get_elem?, get_elem?-inside, none, some, Option-cases,
  length, Result, ok, error, Exec, returns, throws, undefined, out_of_fuel, ◌>>=◌, arith, and_then,
  ◌≢◌, subst,
}
use furrent.Bencode.Value.{
  BencodeValue, Items, Entries, integer, string, list, dict, nil, cons, end, entry,
}
use furrent.Bencode.Parser.{
  Decoded, BencodeParserError, list_format, dict_format, invalid_string, token_at, before, is_digit,
  decode, decode_items, decode_entries, close, to_dict, key_of, parse, fuel_for, insert_all,
  descends,
}
use furrent.Bencode.Steps.{IsWellFormed, ItemsWellFormed, EntriesWellFormed}
use furrent.Bencode.Outcome.{
  Ends, Ends-ok, Ends-fail, Ends-undefined, Ends-and_then, Ends-if, Behind, decode_int-Ends,
  decode_string-Ends, close-Ends, insert_all-WellFormed, insert_all-Increasing,
}

before-inside :
    (stop : ℕ) (tokens : List ℕ) (i : ℕ) → before stop tokens i ≡ true → i < length tokens
unfolding before
before-inside stop tokens i h = elim (Option-cases (get_elem? tokens i)) [
  | inl outside ↦ absurd (true_is_not_false (sym h ∙ rw (outside, before) refl))
  | inr (t, inside) ↦ get_elem?-inside tokens i t inside
]
  where
    true_is_not_false : true ≡ false → ⊥
    true_is_not_false e = cc

pub token_at-none :
    (tokens : List ℕ) (i : ℕ)
    → get_elem? tokens i ≡ none
    → token_at tokens i ≡ (if i == length tokens then returns 0 else undefined)
unfolding token_at
token_at-none tokens i e = rw (e, token_at) refl

token_at-some :
    (tokens : List ℕ) (i t : ℕ) → get_elem? tokens i ≡ some t → token_at tokens i ≡ returns t
unfolding token_at
token_at-some tokens i t e = rw (e, token_at) refl

-- A read at the end is of a null character; one inside is of a token.
Ends-token_at :
    {A : Type 0} (P : A → ℕ → Type 0) (tokens : List ℕ) (i : ℕ) (k : ℕ → Decoded A)
    → Ends P (k 0)
    → ((t : ℕ) → i < length tokens → Ends P (k t))
    → Ends P (token_at tokens i >>= k)
Ends-token_at P tokens i k h step = elim (Option-cases (get_elem? tokens i)) [
  | inl outside ↦ rw (token_at-none tokens i outside) (elim (Bool-cases (i == length tokens)) [
    | inl at_end ↦ rw at_end h
    | inr behind ↦ rw behind (Ends-undefined P)
  ])
  | inr (t, inside) ↦
      rw (token_at-some tokens i t inside) (step t (get_elem?-inside tokens i t inside))
]

-- What the loops leave: values of the program, and an index that did not go back.
abbrev ItemsFrom : ℕ → Items → ℕ → Type 0
ItemsFrom i xs index = (i ≤ index) × ItemsWellFormed xs

abbrev EntriesFrom : ℕ → Entries → ℕ → Type 0
EntriesFrom i es index = (i ≤ index) × EntriesWellFormed es

abbrev KeyBehind : ℕ → List ℕ → ℕ → Type 0
KeyBehind i key index = (i < index) × (length key < 2 ^ 63)

key_of-Ends :
    (i : ℕ) (v : BencodeValue) (j : ℕ) → i < j → IsWellFormed v → Ends (KeyBehind i) (key_of (v, j))
unfolding key_of IsWellFormed
key_of-Ends i (string s) j h w = Ends-ok (KeyBehind i) s j (h, w)
key_of-Ends i (integer n) j h w = Ends-fail _ _
key_of-Ends i (list xs) j h w = Ends-fail _ _
key_of-Ends i (dict es) j h w = Ends-fail _ _

to_dict-Ends :
    (i j : ℕ) (es : Entries) → i < j → EntriesWellFormed es → Ends (Behind i) (to_dict (es, j))
unfolding to_dict IsWellFormed
to_dict-Ends i j es h w =
    Ends-if _ (descends es) _ _ (λ _. Ends-fail _ _)
      λ _.
        Ends-ok _ (dict (insert_all end es)) j
          (h, (insert_all-WellFormed end es tt w, insert_all-Increasing end es tt))

list-Ends :
    (f : ℕ) (tokens : List ℕ) (i : ℕ)
    → Ends (ItemsFrom (i + 1)) (decode_items f tokens (i + 1))
    → Ends (Behind i) (
        and_then (decode_items f tokens (i + 1)) λ read.
          and_then (close list_format tokens read) λ (xs, index'). returns (ok (list xs, index')))
unfolding IsWellFormed
list-Ends f tokens i items = Ends-and_then (ItemsFrom (i + 1)) (Behind i) _ _ items λ xs j (h, w).
    Ends-and_then (ItemsFrom (i + 1)) (Behind i) _ _
      (close-Ends (ItemsFrom (i + 1)) list_format tokens xs j (omega arith, w))
      λ xs' j' (h', w'). Ends-ok (Behind i) (list xs') j' (omega arith, w')

dict-Ends :
    (f : ℕ) (tokens : List ℕ) (i : ℕ)
    → Ends (EntriesFrom (i + 1)) (decode_entries f tokens (i + 1))
    → Ends (Behind i) (
        and_then
          (decode_entries f tokens (i + 1))
          λ read. and_then (close dict_format tokens read) to_dict)
dict-Ends f tokens i entries =
    Ends-and_then (EntriesFrom (i + 1)) (Behind i) _ _ entries λ es j (h, w).
      Ends-and_then (EntriesFrom (i + 1)) (Behind i) _ _
        (close-Ends (EntriesFrom (i + 1)) dict_format tokens es j (omega arith, w))
        λ es' j' (h', w'). to_dict-Ends i j' es' (omega arith) w'

-- The body of decode, given what its loops do.
dispatch-Ends :
    (f : ℕ) (tokens : List ℕ) (i : ℕ)
    → (i < length tokens → Ends (ItemsFrom (i + 1)) (decode_items f tokens (i + 1)))
    → (i < length tokens → Ends (EntriesFrom (i + 1)) (decode_entries f tokens (i + 1)))
    → Ends (Behind i) (decode (suc f) tokens i)
unfolding decode is_digit
dispatch-Ends f tokens i items entries =
    Ends-if _ (length tokens == 0) _ _ (λ _. Ends-fail _ _)
      λ _. Ends-token_at _ tokens i _ (Ends-fail _ _) λ token inside.
        Ends-if _ (token == b'i') _ _ (λ _. decode_int-Ends tokens i)
          λ _.
            Ends-if _ (is_digit token) _ _ (λ _. decode_string-Ends tokens i)
              λ _.
                Ends-if _ (token == b'l') _ _
                  (λ _.
                    Ends-if _ (ltb (length tokens - i) 2) _ _ (λ _. Ends-fail _ _)
                      λ _. list-Ends f tokens i (items inside))
                  λ _.
                    Ends-if _ (token == b'd') _ _
                      (λ _.
                        Ends-if _ (ltb (length tokens - i) 2) _ _ (λ _. Ends-fail _ _)
                          λ _. dict-Ends f tokens i (entries inside))
                      λ _. Ends-fail _ _

-- A round of each loop, given what the calls in it do.
items_round-Ends :
    (f : ℕ) (tokens : List ℕ) (i : ℕ)
    → Ends (Behind i) (decode f tokens i)
    → ((j : ℕ) → i < length tokens → i < j → Ends (ItemsFrom j) (decode_items f tokens j))
    → Ends (ItemsFrom i) (decode_items (suc f) tokens i)
unfolding decode_items ItemsWellFormed
items_round-Ends f tokens i first others =
    Ends-if (ItemsFrom i) (before b'e' tokens i) _ _
      (λ more. Ends-and_then (Behind i) (ItemsFrom i) _ _ first λ v j (h, w).
        Ends-and_then (ItemsFrom j) (ItemsFrom i) _ _
          (others j (before-inside b'e' tokens i more) h)
          λ xs k (h', w'). Ends-ok (ItemsFrom i) (cons v xs) k (omega arith, (w, w')))
      λ _. Ends-ok (ItemsFrom i) nil i (omega arith, tt)

entries_round-Ends :
    (f : ℕ) (tokens : List ℕ) (i : ℕ)
    → Ends (Behind i) (decode f tokens i)
    → ((j : ℕ) → i < length tokens → i < j → Ends (Behind j) (decode f tokens j))
    → ((j : ℕ) → i < length tokens → i < j → Ends (EntriesFrom j) (decode_entries f tokens j))
    → Ends (EntriesFrom i) (decode_entries (suc f) tokens i)
unfolding decode_entries EntriesWellFormed
entries_round-Ends f tokens i first second others =
    Ends-if (EntriesFrom i) (before b'e' tokens i) _ _
      (λ more.
        let inside = before-inside b'e' tokens i more in
        Ends-and_then (Behind i) (EntriesFrom i) _ _ first λ key j (h, w).
          Ends-and_then (KeyBehind i) (EntriesFrom i) _ _ (key_of-Ends i key j h w) λ s j' (h', w').
            Ends-and_then (Behind j') (EntriesFrom i) _ _ (second j' inside h') λ v k (h₂, w₂).
              Ends-and_then (EntriesFrom k) (EntriesFrom i) _ _ (others k inside (omega arith))
                λ es l (h₃, w₃).
                  Ends-ok (EntriesFrom i) (entry s v es) l (omega arith, (w', w₂, w₃)))
      λ _. Ends-ok (EntriesFrom i) end i (omega arith, tt)

mutual
  decode-Ends :
      (f : ℕ) (tokens : List ℕ) (i : ℕ)
      → 2 * (length tokens - i) < f
      → Ends (Behind i) (decode f tokens i)
  decode-Ends zero tokens i h = absurd (omega arith)
  decode-Ends (suc f) tokens i h =
      dispatch-Ends f tokens i (λ inside. decode_items-Ends f tokens (i + 1) (omega arith))
        (λ inside. decode_entries-Ends f tokens (i + 1) (omega arith))

  decode_items-Ends :
      (f : ℕ) (tokens : List ℕ) (i : ℕ)
      → 2 * (length tokens - i) + 1 < f
      → Ends (ItemsFrom i) (decode_items f tokens i)
  decode_items-Ends zero tokens i h = absurd (omega arith)
  decode_items-Ends (suc f) tokens i h =
      items_round-Ends f tokens i (decode-Ends f tokens i (omega arith))
        λ j inside further. decode_items-Ends f tokens j (omega arith)

  decode_entries-Ends :
      (f : ℕ) (tokens : List ℕ) (i : ℕ)
      → 2 * (length tokens - i) + 1 < f
      → Ends (EntriesFrom i) (decode_entries f tokens i)
  decode_entries-Ends zero tokens i h = absurd (omega arith)
  decode_entries-Ends (suc f) tokens i h =
      entries_round-Ends f tokens i (decode-Ends f tokens i (omega arith))
        (λ j inside further. decode-Ends f tokens j (omega arith))
        λ j inside further. decode_entries-Ends f tokens j (omega arith)

abbrev Sound : Exec (Result BencodeValue BencodeParserError) → Type 0
Sound (returns (ok v)) = IsWellFormed v
Sound out_of_fuel = ⊥
Sound _ = Unit {0}

whole-Sound :
    (n : ℕ) (m : Decoded BencodeValue)
    → Ends (Behind 0) m
    → Sound (
        and_then m
          λ (v, index). if index == n then returns (ok v) else returns (error invalid_string))
unfolding Ends
whole-Sound n (returns (ok (v, index))) h = elim (Bool-cases (index == n)) [
  | inl all ↦ rw all h.1
  | inr some_left ↦ rw some_left tt
]
whole-Sound n (returns (error e)) h = tt
whole-Sound n (throws x) h = tt
whole-Sound n undefined h = tt
whole-Sound n out_of_fuel h = absurd h

parse-Sound : (tokens : List ℕ) → Sound (parse tokens)
unfolding parse
parse-Sound tokens = elim (Bool-cases (ltb (2 ^ 63 - 1) (length tokens))) [
  | inl large ↦ rw large tt
  | inr fits ↦ rw fits (
      whole-Sound (length tokens) (decode (fuel_for tokens) tokens 0)
        (decode-Ends (fuel_for tokens) tokens 0 (omega arith)))
]

-- On any text the recursion of the parser ends: fuel of two calls for a character is enough.
pub parse-ends : (tokens : List ℕ) → parse tokens ≢ out_of_fuel
parse-ends tokens e = subst Sound e (parse-Sound tokens)

-- What the parser makes of a text is a value of the program: its integers and the lengths of its
-- strings fit an int64_t, and the keys of its dictionaries are in order.
pub parse-IsWellFormed :
    (tokens : List ℕ) (v : BencodeValue) → parse tokens ≡ returns (ok v) → IsWellFormed v
parse-IsWellFormed tokens v e = subst Sound e (parse-Sound tokens)
