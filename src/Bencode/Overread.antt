-- ===== src/Bencode/Overread.antt =====
-- The index that decode_string of src/bencode/bencode_parser.cpp leaves where a text ends with a
-- number, and what decode_dict does there.
use furrent.Prelude.{
  ℕ, zero, suc, ◌+◌, ◌-◌, ◌*◌, ◌^◌, ◌<◌, ◌≤◌, ◌≡◌, ◌==◌, ltb, refl, ap, ◌∙◌, List, [], ◌∷◌, true,
  false, length, length-replicate, replicate, drop, ok, returns, undefined, arith, get_elem?-none,
}
use furrent.Prelude.Int.{pos}
use furrent.Bencode.Value.{string}
use furrent.Bencode.Parser.{
  until, to_long, stol, is_digit, is_number, all_digits, digits_value, string_from, decode_string,
  decode, decode_entries, key_of, parse, fuel_for,
}
use furrent.Bencode.Cursor.{token_at-at, before-at, left-at}
use furrent.Bencode.Steps.{decode-string, some_tokens}
use furrent.Bencode.Termination.{token_at-none}

abbrev zeros : ℕ → List ℕ
zeros n = replicate n b'0'

until-zeros : (n : ℕ) → until b':' (zeros n) ≡ zeros n
unfolding until
until-zeros zero = refl
until-zeros (suc n) = ap (λ cs. b'0' ∷ cs) (until-zeros n)

all_digits-zeros : (n : ℕ) → all_digits (zeros n) ≡ true
unfolding all_digits is_digit
all_digits-zeros zero = refl
all_digits-zeros (suc n) = all_digits-zeros n

digits_value-zeros : (n : ℕ) → digits_value 0 (zeros n) ≡ 0
unfolding digits_value
digits_value-zeros zero = refl
digits_value-zeros (suc n) = digits_value-zeros n

is_number-zeros : (n : ℕ) → is_number (zeros (suc n)) ≡ true
unfolding is_number
is_number-zeros n = all_digits-zeros (suc n)

stol-zeros : (n : ℕ) → stol (zeros (suc n)) ≡ returns (pos 0)
unfolding stol to_long
stol-zeros n = rw (digits_value-zeros (suc n)) refl

module _ (tokens : List ℕ) (i n : ℕ) (e : drop i tokens ≡ zeros (suc (suc (suc n)))) where
  -- A text that ends with zeros is read as an empty string, up to the place behind its end.
  decode_string-zeros : decode_string tokens i ≡ returns (ok (string [], i + (3 + n) + 1))
  unfolding decode_string string_from
  decode_string-zeros =
      let size : length (zeros (suc (suc (suc n)))) ≡ 3 + n =
        omega (arith, length-replicate {A = ℕ} (suc (suc (suc n))) b'0') in
      let taken : until b':' (drop i tokens) ≡ zeros (suc (suc (suc n))) =
        ap (until b':') e ∙ until-zeros (suc (suc (suc n))) in
      let long_enough : ltb (length tokens - i) 3 ≡ false =
        ground (arith, left-at tokens i b'0' _ e) in
      rw (long_enough, taken, is_number-zeros (suc (suc n)), stol-zeros (suc (suc n)))
        (ap (λ (k : ℕ). returns (ok (string [], k))) (omega (arith, size)))

decode-behind :
    (f : ℕ) (tokens : List ℕ) (i : ℕ)
    → 0 < length tokens
    → length tokens < i
    → decode (suc f) tokens i ≡ undefined
unfolding decode
decode-behind f tokens i h k =
    let some_text : (length tokens == 0) ≡ false = ground arith in
    let not_end : (i == length tokens) ≡ false = ground arith in
    rw (some_text, token_at-none tokens i (get_elem?-none tokens i (omega arith)), not_end) refl

-- decode_dict with such a key, at the end of the text.
decode_entries-overread :
    (f : ℕ) (tokens : List ℕ) (i n : ℕ)
    → drop i tokens ≡ zeros (suc (suc (suc n)))
    → length tokens ≡ i + (3 + n)
    → decode_entries (suc (suc f)) tokens i ≡ undefined
unfolding decode_entries key_of is_digit
decode_entries-overread f tokens i n e l =
    rw
      (
        before-at tokens i b'0' (zeros (suc (suc n))) e b'e',
        decode-string tokens i f b'0' (zeros (suc (suc n))) e refl
            ∙ decode_string-zeros tokens i n e,
        decode-behind f tokens (i + (3 + n) + 1) (omega arith) (omega arith),
      )
      refl

decode_dict-overread :
    (f : ℕ) (tokens : List ℕ) (rest : List ℕ)
    → drop 0 tokens ≡ b'd' ∷ rest
    → 0 < length rest
    → decode_entries f tokens 1 ≡ undefined
    → decode (suc f) tokens 0 ≡ undefined
unfolding decode is_digit
decode_dict-overread f tokens rest e l read =
    let long_enough : ltb (length tokens - 0) 2 ≡ false =
      ground (arith, left-at tokens 0 b'd' rest e) in
    rw (some_tokens tokens 0 b'd' rest e, token_at-at tokens 0 b'd' rest e, long_enough, read) refl

-- The parser reads behind the end of a text that is a 'd' and three or more zeros, if the text
-- is not longer than an int64_t counts.
pub parse-overread : (n : ℕ) → 3 ≤ n → n + 1 < 2 ^ 63 → parse (b'd' ∷ replicate n b'0') ≡ undefined
unfolding parse
parse-overread (suc (suc (suc n))) l h =
    let size = length-replicate {A = ℕ} (suc (suc (suc n))) b'0' in
    let tokens = b'd' ∷ zeros (suc (suc (suc n))) in
    let fits : ltb (2 ^ 63 - 1) (length tokens) ≡ false = ground (arith, size) in
    let fuel : fuel_for tokens ≡ suc (suc (suc (2 * n + 9))) = omega (arith, size) in
    let read =
      decode_dict-overread (suc (suc (2 * n + 9))) tokens (zeros (suc (suc (suc n)))) refl
        (omega arith) (decode_entries-overread (2 * n + 9) tokens 1 n refl (omega (arith, size))) in
    rw (fits, fuel, read) refl
parse-overread (suc (suc zero)) l h = absurd (omega arith)
parse-overread (suc zero) l h = absurd (omega arith)
parse-overread zero l h = absurd (omega arith)
