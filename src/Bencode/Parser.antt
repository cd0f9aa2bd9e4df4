-- ===== src/Bencode/Parser.antt =====
-- src/bencode/bencode_parser.cpp. The parser's state is the text `tokens` and an index into it: a
-- decoding function takes both, and returns the value with the index that it leaves. A read of the
-- text at its length gives a null character, and one behind it has undefined behaviour. A call of
-- `decode`, and a round of the loops of decode_list and decode_dict, costs a unit of fuel.
use furrent.Prelude.{
  ℕ, zero, suc, ◌+◌, ◌-◌, ◌*◌, ◌^◌, ◌==◌, ltb, leb, List, [], ◌∷◌, Bool, true, false, not, ◌&&◌,
  ◌||◌, if◌then◌else◌, length, get_elem?, take, drop, none, some, Result, ok, error, Exec, returns,
  throws, undefined, out_of_fuel, out_of_range, invalid_argument, ◌>>=◌, and_then,
}
use furrent.Prelude.Int.{ℤ, pos, negsuc}
use furrent.Bencode.Value.{
  BencodeValue, Items, Entries, integer, string, list, dict, nil, cons, end, entry,
}

pub data BencodeParserError : Type 0 where
  invalid_string int_format int_value string_format list_format : BencodeParserError
  dict_format dict_key dict_key_order : BencodeParserError

abbrev pub Decoded : Type 0 → Type 0
Decoded A = Exec (Result (A × ℕ) BencodeParserError)

abbrev pub fail : {A : Type 0} → BencodeParserError → Decoded A
fail e = returns (error e)

-- _tokens[_index]
unfoldable pub token_at : List ℕ → ℕ → Exec ℕ
token_at tokens index = elim (get_elem? tokens index) [
  | none ↦ if index == length tokens then returns 0 else undefined
  | some token ↦ returns token
]

-- `_index < _tokens.size() && _tokens[_index] != stop`
unfoldable pub before : ℕ → List ℕ → ℕ → Bool
before stop tokens index = elim (get_elem? tokens index) [
  | none ↦ false
  | some token ↦ not (token == stop)
]

-- What the loop under that test appends to its string, from the tokens at the index on.
unfoldable pub until : ℕ → List ℕ → List ℕ
until stop [] = []
until stop (token ∷ tokens) = if token == stop then [] else token ∷ until stop tokens

unfoldable pub is_digit : ℕ → Bool
is_digit c = leb b'0' c && leb c b'9'

unfoldable pub all_digits : List ℕ → Bool
all_digits [] = true
all_digits (c ∷ cs) = is_digit c && all_digits cs

-- std::regex_match with ^\d+$
unfoldable pub is_number : List ℕ → Bool
is_number [] = false
is_number (c ∷ cs) = all_digits (c ∷ cs)

-- std::regex_match with ^-?\d+$
unfoldable pub is_integer : List ℕ → Bool
is_integer [] = false
is_integer (c ∷ cs) = if c == b'-' then is_number cs else is_number (c ∷ cs)

unfoldable pub is_minus_zero : List ℕ → Bool
is_minus_zero (a ∷ b ∷ []) = (a == b'-') && (b == b'0')
is_minus_zero _ = false

unfoldable pub digits_value : ℕ → List ℕ → ℕ
digits_value acc [] = acc
digits_value acc (c ∷ cs) = digits_value (acc * 10 + (c - b'0')) cs

-- std::stol of digits, and of digits behind a sign: a value outside the int64_t is out of range.
unfoldable pub to_long : Bool → ℕ → Exec ℤ
to_long true zero = returns (pos 0)
to_long true (suc n) = if ltb n (2 ^ 63) then returns (negsuc n) else throws out_of_range
to_long false n = if ltb n (2 ^ 63) then returns (pos n) else throws out_of_range

unfoldable pub stol : List ℕ → Exec ℤ
stol [] = throws invalid_argument
stol (c ∷ cs) =
    if c == b'-' then to_long true (digits_value 0 cs) else to_long false (digits_value 0 (c ∷ cs))

-- decode_int, behind the test of the length: `text` is what the loop collected.
unfoldable pub int_from : List ℕ → ℕ → List ℕ → Decoded BencodeValue
int_from tokens index text =
    if index == length tokens
    then fail int_format
    else if before b'e' tokens index
    then fail int_format
    else if is_minus_zero text
    then fail int_value
    else if not (is_integer text)
    then fail int_value
    else (stol text >>= λ n. returns (ok (integer n, index + 1)))

unfoldable pub decode_int : List ℕ → ℕ → Decoded BencodeValue
decode_int tokens index =
    let text = until b'e' (drop (index + 1) tokens) in
    if ltb (length tokens - index) 3
    then fail int_format
    else int_from tokens (index + 1 + length text) text

-- decode_string, behind the number's end; a length is not negative.
unfoldable pub string_from : List ℕ → ℕ → ℤ → Decoded BencodeValue
string_from tokens index (negsuc n) = fail invalid_string
string_from tokens index (pos length_str) =
    let str = take length_str (drop index tokens) in
    if ltb (2 ^ 63 - 1) (length str) || not (length str == length_str)
    then fail invalid_string
    else returns (ok (string str, index + length str))

unfoldable pub decode_string : List ℕ → ℕ → Decoded BencodeValue
decode_string tokens index =
    let len = until b':' (drop index tokens) in
    if ltb (length tokens - index) 3
    then fail string_format
    else if not (is_number len)
    then fail invalid_string
    else (stol len >>= string_from tokens (index + length len + 1))

-- The order of std::string.
unfoldable pub lex_lt : List ℕ → List ℕ → Bool
lex_lt xs [] = false
lex_lt [] (y ∷ ys) = true
lex_lt (x ∷ xs) (y ∷ ys) = if ltb x y then true else if x == y then lex_lt xs ys else false

-- std::map::insert, which leaves an entry that is there.
unfoldable pub insert : List ℕ → BencodeValue → Entries → Entries
insert key v end = entry key v end
insert key v (entry k w es) =
    if lex_lt key k
    then entry key v (entry k w es)
    else if lex_lt k key
    then entry k w (insert key v es)
    else entry k w es

-- The entries read, in turn, into the map.
unfoldable pub insert_all : Entries → Entries → Entries
insert_all map end = map
insert_all map (entry key v es) = insert_all (insert key v map) es

-- The loop that compares each key with the next: is any above it?
unfoldable pub descends : Entries → Bool
descends (entry k v (entry k' v' es)) = lex_lt k' k || descends (entry k' v' es)
descends _ = false

-- The end of a list or a dictionary: the index must stand at an 'e'.
unfoldable pub close : {A : Type 0} → BencodeParserError → List ℕ → A × ℕ → Decoded A
close e tokens (a, index) =
    if leb (length tokens) index
    then fail e
    else if before b'e' tokens index
    then fail e
    else returns (ok (a, index + 1))

-- What decode_dict makes of the entries that it read, once the dictionary is closed.
unfoldable pub to_dict : Entries × ℕ → Decoded BencodeValue
to_dict (es, index) =
    if descends es then fail dict_key_order else returns (ok (dict (insert_all end es), index))

-- A key must be a string.
unfoldable pub key_of : BencodeValue × ℕ → Decoded (List ℕ)
key_of (string s, index) = returns (ok (s, index))
key_of (_, index) = fail dict_key

unfoldable mutual
  -- BencodeParser::decode(), with decode_list and decode_dict.
  pub decode : ℕ → List ℕ → ℕ → Decoded BencodeValue
  decode zero tokens index = out_of_fuel
  decode (suc fuel) tokens index =
      let items = and_then (decode_items fuel tokens (index + 1)) λ read.
        and_then (close list_format tokens read) λ (xs, index'). returns (ok (list xs, index')) in
      let entries =
        and_then (decode_entries fuel tokens (index + 1))
          λ read. and_then (close dict_format tokens read) to_dict in
      let short = ltb (length tokens - index) 2 in
      if length tokens == 0
      then fail invalid_string
      else (token_at tokens index >>= λ token.
          if token == b'i'
          then decode_int tokens index
          else if is_digit token
          then decode_string tokens index
          else if token == b'l'
          then (if short then fail list_format else items)
          else if token == b'd'
          then (if short then fail dict_format else entries)
          else fail invalid_string)

  -- The loop of decode_list.
  pub decode_items : ℕ → List ℕ → ℕ → Decoded Items
  decode_items zero tokens index = out_of_fuel
  decode_items (suc fuel) tokens index =
      let more = and_then (decode fuel tokens index) λ (v, index').
        and_then (decode_items fuel tokens index')
          λ (xs, index''). returns (ok (cons v xs, index'')) in
      if before b'e' tokens index then more else returns (ok (nil, index))

  -- The loop of decode_dict, which keeps each key with its value.
  pub decode_entries : ℕ → List ℕ → ℕ → Decoded Entries
  decode_entries zero tokens index = out_of_fuel
  decode_entries (suc fuel) tokens index =
      let more = and_then (decode fuel tokens index) λ read. and_then (key_of read) λ (key, index').
        and_then (decode fuel tokens index') λ (v, index'').
          and_then (decode_entries fuel tokens index'')
            λ (es, index₃). returns (ok (entry key v es, index₃)) in
      if before b'e' tokens index then more else returns (ok (end, index))

abbrev pub fuel_for : List ℕ → ℕ
fuel_for tokens = 2 * length tokens + 4

-- decode(std::string const&): the whole text must be read.
unfoldable pub parse : List ℕ → Exec (Result BencodeValue BencodeParserError)
parse tokens =
    if ltb (2 ^ 63 - 1) (length tokens)
    then throws invalid_argument
    else and_then (decode (fuel_for tokens) tokens 0) λ (v, index).
      if index == length tokens then returns (ok v) else returns (error invalid_string)
