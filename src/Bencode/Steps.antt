-- ===== src/Bencode/Steps.antt =====
-- Values of src/bencode, their printed texts, and single steps of the parser on them.
use furrent.Prelude.{
  ℕ, suc, ◌+◌, ◌-◌, ◌^◌, ◌<◌, ◌≡◌, ◌==◌, ltb, leb, refl, sym, ap, ◌∙◌, List, [], ◌∷◌, ◌++◌,
  append_assoc, true, false, not, length, length-append, drop, ok, returns, arith, subst,
}
use furrent.Prelude.Int.{IsInt64}
use furrent.Bencode.Value.{
  BencodeValue, Items, Entries, integer, string, list, dict, nil, cons, end, entry, decimal,
  string_text, to_string,
}
use furrent.Bencode.Parser.{
  BencodeParserError, all_digits, list_format, dict_format, before, is_digit, decode_int,
  decode_string, decode, decode_items, decode_entries, close, to_dict, key_of,
}
use furrent.Bencode.Number.{decimal-Digits}
use furrent.Bencode.Order.{Increasing, descends_not, insert_all-end}
use furrent.Bencode.Cursor.{token_at-at, before-at, left-at}

-- What a value of the program meets: integers and lengths of strings fit an int64_t, and the keys of
-- a dictionary are in order.
unfoldable mutual
  pub IsWellFormed : BencodeValue → Type 0
  IsWellFormed (integer n) = IsInt64 n
  IsWellFormed (string s) = length s < 2 ^ 63
  IsWellFormed (list xs) = ItemsWellFormed xs
  IsWellFormed (dict es) = EntriesWellFormed es × Increasing es

  pub ItemsWellFormed : Items → Type 0
  ItemsWellFormed nil = Unit {0}
  ItemsWellFormed (cons v xs) = IsWellFormed v × ItemsWellFormed xs

  pub EntriesWellFormed : Entries → Type 0
  EntriesWellFormed end = Unit {0}
  EntriesWellFormed (entry key v es) = (length key < 2 ^ 63) × IsWellFormed v × EntriesWellFormed es

-- An empty string is read only where something follows it.
abbrev pub Room : BencodeValue → List ℕ → Type 0
Room (string s) rest = 0 < length s + length rest
Room _ rest = Unit {0}

pub Room-rest : (v : BencodeValue) (rest : List ℕ) → 0 < length rest → Room v rest
Room-rest (string s) rest h = omega arith
Room-rest (integer n) rest h = tt
Room-rest _ rest h = tt

-- A printed value does not begin with an 'e'.
abbrev pub NotEnd : List ℕ → Type 0
NotEnd [] = ⊥
NotEnd (c ∷ cs) = (c == b'e') ≡ false

-- Digits and a text begin with a digit.
digits-head :
    (cs rest : List ℕ)
    → all_digits cs ≡ true
    → 0 < length cs
    → (c : ℕ) × (t : List ℕ) × (cs ++ rest ≡ c ∷ t) × (is_digit c ≡ true)
unfolding all_digits
digits-head [] rest h k = absurd (omega arith)
digits-head (c ∷ cs) rest h k = (c, cs ++ rest, refl, ground arith)

pub string_text-head :
    (s rest : List ℕ)
    → (c : ℕ) × (t : List ℕ) × (string_text s ++ rest ≡ c ∷ t) × (is_digit c ≡ true)
unfolding string_text
string_text-head s rest =
    let (d, _, l) = decimal-Digits (length s) in
    let (c, t, e, h) = digits-head (decimal (length s)) (b':' ∷ (s ++ rest)) d l in
    (c, t, append_assoc (decimal (length s)) (b':' ∷ s) rest ∙ e, h)

digit-NotEnd : (c : ℕ) → is_digit c ≡ true → (c == b'e') ≡ false
unfolding is_digit
digit-NotEnd c h = ground arith

pub string_text-NotEnd : (s rest : List ℕ) → NotEnd (string_text s ++ rest)
string_text-NotEnd s rest =
    let (c, t, e, h) = string_text-head s rest in subst NotEnd (sym e) (digit-NotEnd c h)

pub to_string-NotEnd : (v : BencodeValue) (rest : List ℕ) → NotEnd (to_string v ++ rest)
unfolding to_string
to_string-NotEnd (integer n) rest = refl
to_string-NotEnd (string s) rest = string_text-NotEnd s rest
to_string-NotEnd (list xs) rest = refl
to_string-NotEnd (dict es) rest = refl

length-string_text_pos : (s : List ℕ) → 0 < length (string_text s)
unfolding string_text
length-string_text_pos s = omega (arith, length-append (decimal (length s)) (b':' ∷ s))

pub length-to_string_pos : (v : BencodeValue) → 0 < length (to_string v)
unfolding to_string
length-to_string_pos (integer n) = omega arith
length-to_string_pos (string s) = length-string_text_pos s
length-to_string_pos (list xs) = omega arith
length-to_string_pos (dict es) = omega arith

module _ (tokens : List ℕ) (i : ℕ) where
  pub before-NotEnd :
      (text : List ℕ) → drop i tokens ≡ text → NotEnd text → before b'e' tokens i ≡ true
  before-NotEnd [] e h = absurd h
  before-NotEnd (c ∷ cs) e h = before-at tokens i c cs e b'e' ∙ ap not h

  pub close-at :
      {A : Type 0} (err : BencodeParserError) (a : A) (rest : List ℕ)
      → drop i tokens ≡ b'e' ∷ rest
      → close err tokens (a, i) ≡ returns (ok (a, i + 1))
  unfolding close
  close-at err a rest e =
      let inside : leb (length tokens) i ≡ false = ground (arith, left-at tokens i b'e' rest e) in
      rw (inside, before-at tokens i b'e' rest e b'e') refl

  pub some_tokens :
      (c : ℕ) (rest : List ℕ) → drop i tokens ≡ c ∷ rest → (length tokens == 0) ≡ false
  some_tokens c rest e = ground (arith, left-at tokens i c rest e)

  pub decode-int :
      (f : ℕ) (rest : List ℕ)
      → drop i tokens ≡ b'i' ∷ rest
      → decode (suc f) tokens i ≡ decode_int tokens i
  unfolding decode
  decode-int f rest e = rw (some_tokens b'i' rest e, token_at-at tokens i b'i' rest e) refl

  pub decode-string :
      (f c : ℕ) (rest : List ℕ)
      → drop i tokens ≡ c ∷ rest
      → is_digit c ≡ true
      → decode (suc f) tokens i ≡ decode_string tokens i
  unfolding decode
  decode-string f c rest e h =
      let other : (c == b'i') ≡ false = unfold is_digit in ground arith in
      rw (some_tokens c rest e, token_at-at tokens i c rest e, other, h) refl

  pub decode-list :
      (f : ℕ) (xs : Items) (k : ℕ) (text rest : List ℕ)
      → drop i tokens ≡ b'l' ∷ (text ++ b'e' ∷ rest)
      → decode_items f tokens (i + 1) ≡ returns (ok (xs, k))
      → close list_format tokens (xs, k) ≡ returns (ok (xs, k + 1))
      → decode (suc f) tokens i ≡ returns (ok (list xs, k + 1))
  unfolding decode is_digit
  decode-list f xs k text rest e read closed =
      let long_enough : ltb (length tokens - i) 2 ≡ false =
        ground (arith, left-at tokens i b'l' _ e, length-append text (b'e' ∷ rest)) in
      rw (some_tokens b'l' _ e, token_at-at tokens i b'l' _ e, long_enough, read, closed) refl

  pub decode-dict :
      (f : ℕ) (es : Entries) (k : ℕ) (text rest : List ℕ)
      → drop i tokens ≡ b'd' ∷ (text ++ b'e' ∷ rest)
      → decode_entries f tokens (i + 1) ≡ returns (ok (es, k))
      → close dict_format tokens (es, k) ≡ returns (ok (es, k + 1))
      → Increasing es
      → decode (suc f) tokens i ≡ returns (ok (dict es, k + 1))
  unfolding decode is_digit to_dict
  decode-dict f es k text rest e read closed sorted =
      let long_enough : ltb (length tokens - i) 2 ≡ false =
        ground (arith, left-at tokens i b'd' _ e, length-append text (b'e' ∷ rest)) in
      rw
        (
          some_tokens b'd' _ e,
          token_at-at tokens i b'd' _ e,
          long_enough,
          read,
          closed,
          descends_not es sorted,
          insert_all-end es sorted,
        )
        refl

  pub decode_entries-entry :
      (f : ℕ) (key : List ℕ) (v : BencodeValue) (es : Entries) (j k l : ℕ)
      → before b'e' tokens i ≡ true
      → decode f tokens i ≡ returns (ok (string key, j))
      → decode f tokens j ≡ returns (ok (v, k))
      → decode_entries f tokens k ≡ returns (ok (es, l))
      → decode_entries (suc f) tokens i ≡ returns (ok (entry key v es, l))
  unfolding decode_entries key_of
  decode_entries-entry f key v es j k l inside first second others =
      rw (inside, first, second, others) refl
