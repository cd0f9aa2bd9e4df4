-- ===== src/Bencode/Examples.antt =====
-- The theorems on src/bencode at concrete inputs, and runs of the definitions.
use furrent.Prelude.{
  ◌≡◌, refl, ◌<◌, ◌^◌, [], ◌∷◌, ok, error, returns, undefined, out_of_fuel, arith, length, ◌≢◌,
  replicate,
}
use furrent.Prelude.Int.{pos, negsuc}
use furrent.Bencode.Value.{
  BencodeValue, integer, string, list, dict, nil, cons, end, entry, to_string, decimal,
  decimal_from, decimal_ℤ, string_text,
}
use furrent.Bencode.Parser.{
  parse, decode, token_at, before, until, is_digit, all_digits, is_number, is_integer,
  is_minus_zero, digits_value, to_long, stol, int_from, decode_int, string_from, decode_string,
  lex_lt, insert, insert_all, descends, close, to_dict, key_of, string_format, dict_key_order,
}
use furrent.Bencode.Steps.{IsWellFormed}
use furrent.Bencode.Termination.{parse-ends, parse-IsWellFormed}
use furrent.Bencode.Overread.{parse-overread}
use furrent.Bencode.RoundTrip.{parse-to_string}

-- {"a": [-12, "xyz"], "b": 0}
abbrev sample : BencodeValue
sample = dict (
    entry (b'a' ∷ [])
      (list (cons (integer (negsuc 11)) (cons (string (b'x' ∷ b'y' ∷ b'z' ∷ [])) nil)))
      (entry (b'b' ∷ []) (integer (pos 0)) end))

sample-IsWellFormed : IsWellFormed sample
unfolding IsWellFormed lex_lt
sample-IsWellFormed =
    ((omega arith, (omega arith, (omega arith, tt)), (omega arith, omega arith, tt)), (refl, tt))

sample_fits : length (to_string sample) < 2 ^ 63
unfolding to_string string_text decimal decimal_from decimal_ℤ
sample_fits = omega arith

parse-to_string_example : parse (to_string sample) ≡ returns (ok sample)
parse-to_string_example = parse-to_string sample sample-IsWellFormed not_empty sample_fits
  where
    not_empty : sample ≢ string []
    not_empty e = cc

sample_text : parse (to_string sample) ≡ returns (ok sample)
unfolding parse decode token_at before until is_digit all_digits is_number is_integer is_minus_zero
    digits_value to_long stol int_from decode_int string_from decode_string lex_lt insert insert_all
    descends close to_dict key_of to_string decimal decimal_from decimal_ℤ string_text
sample_text = refl

parse-ends_example : parse (b'd' ∷ b'd' ∷ b'l' ∷ []) ≢ out_of_fuel
parse-ends_example = parse-ends (b'd' ∷ b'd' ∷ b'l' ∷ [])

-- d1:b0:1:a0:e is refused, and d1:a0:1:b0:e is a dictionary.
keys_out_of_order :
    parse (b'd' ∷ b'1' ∷ b':' ∷ b'b' ∷ b'0' ∷ b':' ∷ b'1' ∷ b':' ∷ b'a' ∷ b'0' ∷ b':' ∷ b'e' ∷ [])
    ≡ returns (error dict_key_order)
unfolding parse decode token_at before until is_digit all_digits is_number is_integer is_minus_zero
    digits_value to_long stol int_from decode_int string_from decode_string lex_lt insert insert_all
    descends close to_dict key_of to_string decimal decimal_from decimal_ℤ string_text
keys_out_of_order = refl

-- i-3e
minus_three_text : parse (b'i' ∷ b'-' ∷ b'3' ∷ b'e' ∷ []) ≡ returns (ok (integer (negsuc 2)))
unfolding parse decode token_at before until is_digit all_digits is_number is_integer is_minus_zero
    digits_value to_long stol int_from decode_int string_from decode_string lex_lt insert insert_all
    descends close to_dict key_of to_string decimal decimal_from decimal_ℤ string_text
minus_three_text = refl

parse-IsWellFormed_example : IsWellFormed (integer (negsuc 2))
parse-IsWellFormed_example =
    parse-IsWellFormed (b'i' ∷ b'-' ∷ b'3' ∷ b'e' ∷ []) (integer (negsuc 2)) minus_three_text

parse-overread_example : parse (b'd' ∷ replicate 3 b'0') ≡ undefined
parse-overread_example = parse-overread 3 (omega arith) (omega arith)

-- An empty string prints as 0: but that text alone is refused.
empty_string_text : parse (to_string (string [])) ≡ returns (error string_format)
unfolding parse decode token_at before until is_digit all_digits is_number is_integer is_minus_zero
    digits_value to_long stol int_from decode_int string_from decode_string lex_lt insert insert_all
    descends close to_dict key_of to_string decimal decimal_from decimal_ℤ string_text
empty_string_text = refl
