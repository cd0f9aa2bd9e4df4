-- ===== src/Bencode/Cursor.antt =====
-- Reads of the parser of src/bencode/bencode_parser.cpp, by the text that is left at its index.
use furrent.Prelude.{
  ℕ, suc, ◌+◌, ◌-◌, ◌^◌, ◌<◌, ◌≡◌, ◌==◌, ltb, refl, sym, ap, ◌∙◌, List, [], ◌∷◌, ◌++◌, append_assoc,
  false, not, ◌||◌, length, length-append, length-drop, drop, take, take-append, drop-advance,
  get_elem?-drop, ok, returns, if-false, arith,
}
use furrent.Prelude.Int.{ℤ, pos, IsInt64}
use furrent.Bencode.Value.{integer, string, decimal, decimal_ℤ, string_text, to_string}
use furrent.Bencode.Parser.{
  Decoded, token_at, before, until, is_digit, int_from, decode_int, string_from, decode_string,
}
use furrent.Bencode.Number.{
  decimal-Digits, decimal-is_number, until-digits, stol-decimal, decimal_ℤ-read, until-decimal_ℤ,
  length-decimal_ℤ_pos,
}

module _ (tokens : List ℕ) (i c : ℕ) (rest : List ℕ) (e : drop i tokens ≡ c ∷ rest) where
  pub token_at-at : token_at tokens i ≡ returns c
  unfolding token_at
  token_at-at = rw (get_elem?-drop tokens i c rest e, token_at)

  pub before-at : (stop : ℕ) → before stop tokens i ≡ not (c == stop)
  unfolding before
  before-at stop = rw (get_elem?-drop tokens i c rest e, before)

  pub left-at : length tokens - i ≡ suc (length rest)
  left-at = sym (length-drop i tokens) ∙ ap length e

-- A decoding function that reads a text as a value, wherever it stands.
abbrev pub Reads : {A : Type 0} → (List ℕ → ℕ → Decoded A) → List ℕ → A → Type 0
Reads p text a =
    (tokens : List ℕ) (i : ℕ) (rest : List ℕ)
    → drop i tokens ≡ text ++ rest
    → p tokens i ≡ returns (ok (a, i + length text))

int_from-read :
    (tokens : List ℕ) (i : ℕ) (n : ℤ) (rest : List ℕ)
    → drop i tokens ≡ b'e' ∷ rest
    → IsInt64 n
    → int_from tokens i (decimal_ℤ n) ≡ returns (ok (integer n, i + 1))
unfolding int_from
int_from-read tokens i n rest e h =
    let (z, m, s) = decimal_ℤ-read n h in
    let inside : (i == length tokens) ≡ false = ground (arith, left-at tokens i b'e' rest e) in
    rw (inside, before-at tokens i b'e' rest e b'e', z, m, s)

pub decode_int-Reads : (n : ℤ) → IsInt64 n → Reads decode_int (to_string (integer n)) (integer n)
unfolding decode_int to_string
decode_int-Reads n h tokens i rest e =
    let text = decimal_ℤ n in
    let e₁ : drop i tokens ≡ b'i' ∷ (text ++ b'e' ∷ rest) =
      e ∙ ap (λ cs. b'i' ∷ cs) (append_assoc text (b'e' ∷ []) rest) in
    let e₂ : drop (i + 1) tokens ≡ text ++ b'e' ∷ rest =
      drop-advance tokens (b'i' ∷ []) (text ++ b'e' ∷ rest) i e₁ in
    let taken : until b'e' (drop (i + 1) tokens) ≡ text =
      ap (until b'e') e₂ ∙ until-decimal_ℤ n rest in
    let long_enough : ltb (length tokens - i) 3 ≡ false = ground (
      arith,
      left-at tokens i b'i' (text ++ b'e' ∷ rest) e₁,
      length-append text (b'e' ∷ rest),
      length-decimal_ℤ_pos n,
    ) in
    rw (long_enough, taken)
      (int_from-read tokens (i + 1 + length text) n rest
          (drop-advance tokens text (b'e' ∷ rest) (i + 1) e₂) h
        ∙ ap (λ (k : ℕ). returns (ok (integer n, k)))
            (omega (arith, length-append text (b'e' ∷ []))))

string_from-read :
    (tokens : List ℕ) (i : ℕ) (s rest : List ℕ)
    → drop i tokens ≡ s ++ rest
    → length s < 2 ^ 63
    → string_from tokens i (pos (length s)) ≡ returns (ok (string s, i + length s))
unfolding string_from
string_from-read tokens i s rest e h =
    let taken : take (length s) (drop i tokens) ≡ s = ap (take (length s)) e ∙ take-append s rest in
    rw taken (if-false _ _ (in_range (length s) h))
  where
    in_range : (n : ℕ) → n < 2 ^ 63 → (ltb (2 ^ 63 - 1) n || not (n == n)) ≡ false
    in_range n k = ground arith

-- A string is read where a character stands in it or behind it: the parser wants three characters.
pub decode_string-read :
    (s : List ℕ) (tokens : List ℕ) (i : ℕ) (rest : List ℕ)
    → length s < 2 ^ 63
    → 0 < length s + length rest
    → drop i tokens ≡ string_text s ++ rest
    → decode_string tokens i ≡ returns (ok (string s, i + length (string_text s)))
unfolding decode_string string_text is_digit
decode_string-read s tokens i rest h room e =
    let size = decimal (length s) in
    let e₁ : drop i tokens ≡ size ++ b':' ∷ (s ++ rest) = e ∙ append_assoc size (b':' ∷ s) rest in
    let e₂ : drop (i + length size) tokens ≡ b':' ∷ (s ++ rest) =
      drop-advance tokens size (b':' ∷ (s ++ rest)) i e₁ in
    let e₃ : drop (i + length size + 1) tokens ≡ s ++ rest =
      drop-advance tokens (b':' ∷ []) (s ++ rest) (i + length size) e₂ in
    let (digits, _, some_digits) = decimal-Digits (length s) in
    let taken : until b':' (drop i tokens) ≡ size =
      ap (until b':') e₁ ∙ until-digits size (s ++ rest) b':' digits refl in
    let long_enough : ltb (length tokens - i) 3 ≡ false = ground (
      arith,
      length-drop i tokens,
      ap length e₁,
      length-append size (b':' ∷ (s ++ rest)),
      length-append s rest,
    ) in
    rw (long_enough, taken, decimal-is_number (length s), stol-decimal (length s) h)
      (string_from-read tokens (i + length size + 1) s rest e₃ h
        ∙ ap (λ (k : ℕ). returns (ok (string s, k))) (omega (arith, length-append size (b':' ∷ s))))
