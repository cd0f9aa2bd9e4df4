-- ===== src/Bencode/RoundTrip.antt =====
-- From the printed text of a value of src/bencode to the value.
use furrent.Prelude.{
  ℕ, zero, suc, ◌+◌, ◌-◌, ◌*◌, ◌^◌, ◌<◌, ◌≤◌, ◌≡◌, ◌==◌, ltb, refl, sym, ap, ◌∙◌, List, [], ◌∷◌,
  ◌++◌, append_assoc, append-nil, true, false, length, length-append, drop, drop-advance, ok,
  returns, if-true, arith, ◌≢◌,
}
use furrent.Bencode.Value.{
  BencodeValue, Items, Entries, integer, string, list, dict, nil, cons, end, entry, string_text,
  to_string, items_text, entries_text,
}
use furrent.Bencode.Parser.{
  list_format, dict_format, decode, decode_items, decode_entries, parse, fuel_for,
}
use furrent.Bencode.Cursor.{before-at, decode_int-Reads, decode_string-read}
use furrent.Bencode.Steps.{
  IsWellFormed, ItemsWellFormed, EntriesWellFormed, Room, Room-rest, string_text-head,
  string_text-NotEnd, to_string-NotEnd, length-to_string_pos, before-NotEnd, close-at, decode-int,
  decode-string, decode-list, decode-dict, decode_entries-entry,
}

-- Texts are read where they stand, with fuel for two calls a character.
mutual
  unfolding to_string items_text entries_text IsWellFormed ItemsWellFormed EntriesWellFormed
      decode_items decode_entries

  decode-read :
      (f : ℕ) (v : BencodeValue) (tokens : List ℕ) (i : ℕ) (rest : List ℕ)
      → IsWellFormed v
      → Room v rest
      → 2 * length (to_string v) ≤ f
      → drop i tokens ≡ to_string v ++ rest
      → decode f tokens i ≡ returns (ok (v, i + length (to_string v)))
  decode-read zero v tokens i rest w r l e = absurd (omega (arith, length-to_string_pos v))
  decode-read (suc f) (integer n) tokens i rest w r l e =
      decode-int tokens i f _ e ∙ decode_int-Reads n w tokens i rest e
  decode-read (suc f) (string s) tokens i rest w r l e =
      let (c, t, e', d) = string_text-head s rest in
      decode-string tokens i f c t (e ∙ e') d ∙ decode_string-read s tokens i rest w r e
  decode-read (suc f) (list xs) tokens i rest w r l e =
      let text = items_text xs in
      let size = length-append text (b'e' ∷ []) in
      let e₁ : drop i tokens ≡ b'l' ∷ (text ++ b'e' ∷ rest) =
        e ∙ ap (λ cs. b'l' ∷ cs) (append_assoc text (b'e' ∷ []) rest) in
      let e₂ = drop-advance tokens (b'l' ∷ []) (text ++ b'e' ∷ rest) i e₁ in
      let e₃ = drop-advance tokens text (b'e' ∷ rest) (i + 1) e₂ in
      decode-list tokens i f xs (i + 1 + length text) text rest e₁
        (decode_items-read f xs tokens (i + 1) rest w (omega (arith, size)) e₂)
        (close-at tokens (i + 1 + length text) list_format xs rest e₃)
      ∙ ap (λ (k : ℕ). returns (ok (list xs, k))) (omega (arith, size))
  decode-read (suc f) (dict es) tokens i rest w r l e =
      let text = entries_text es in
      let size = length-append text (b'e' ∷ []) in
      let e₁ : drop i tokens ≡ b'd' ∷ (text ++ b'e' ∷ rest) =
        e ∙ ap (λ cs. b'd' ∷ cs) (append_assoc text (b'e' ∷ []) rest) in
      let e₂ = drop-advance tokens (b'd' ∷ []) (text ++ b'e' ∷ rest) i e₁ in
      let e₃ = drop-advance tokens text (b'e' ∷ rest) (i + 1) e₂ in
      decode-dict tokens i f es (i + 1 + length text) text rest e₁
        (decode_entries-read f es tokens (i + 1) rest w.0 (omega (arith, size)) e₂)
        (close-at tokens (i + 1 + length text) dict_format es rest e₃) w.1
      ∙ ap (λ (k : ℕ). returns (ok (dict es, k))) (omega (arith, size))

  decode_items-read :
      (f : ℕ) (xs : Items) (tokens : List ℕ) (i : ℕ) (rest : List ℕ)
      → ItemsWellFormed xs
      → 2 * length (items_text xs) < f
      → drop i tokens ≡ items_text xs ++ b'e' ∷ rest
      → decode_items f tokens i ≡ returns (ok (xs, i + length (items_text xs)))
  decode_items-read zero xs tokens i rest w l e = absurd (omega arith)
  decode_items-read (suc f) nil tokens i rest w l e =
      rw (before-at tokens i b'e' rest e b'e') (ap (λ (k : ℕ). returns (ok (nil, k))) (omega arith))
  decode_items-read (suc f) (cons v xs) tokens i rest w l e =
      let text = to_string v in
      let behind = items_text xs ++ b'e' ∷ rest in
      let size = length-append text (items_text xs) in
      let e₁ : drop i tokens ≡ text ++ behind =
        e ∙ append_assoc text (items_text xs) (b'e' ∷ rest) in
      let room = Room-rest v behind (omega (arith, length-append (items_text xs) (b'e' ∷ rest))) in
      let first = decode-read f v tokens i behind w.0 room (omega (arith, size)) e₁ in
      let others =
        decode_items-read f xs tokens (i + length text) rest w.1
          (omega (arith, size, length-to_string_pos v)) (drop-advance tokens text behind i e₁) in
      rw (before-NotEnd tokens i _ e₁ (to_string-NotEnd v behind), first, others)
        (ap (λ (k : ℕ). returns (ok (cons v xs, k))) (omega (arith, size)))

  decode_entries-read :
      (f : ℕ) (es : Entries) (tokens : List ℕ) (i : ℕ) (rest : List ℕ)
      → EntriesWellFormed es
      → 2 * length (entries_text es) < f
      → drop i tokens ≡ entries_text es ++ b'e' ∷ rest
      → decode_entries f tokens i ≡ returns (ok (es, i + length (entries_text es)))
  decode_entries-read zero es tokens i rest w l e = absurd (omega arith)
  decode_entries-read (suc f) end tokens i rest w l e =
      rw (before-at tokens i b'e' rest e b'e') (ap (λ (k : ℕ). returns (ok (end, k))) (omega arith))
  decode_entries-read (suc f) (entry key v es) tokens i rest w l e =
      let name = string_text key in
      let text = to_string v in
      let behind = entries_text es ++ b'e' ∷ rest in
      let size = length-append text (entries_text es) in
      let all_size = length-append name (text ++ entries_text es) in
      let e₁ : drop i tokens ≡ name ++ (text ++ behind) =
        e
        ∙ append_assoc name (text ++ entries_text es) (b'e' ∷ rest)
        ∙ ap (λ cs. name ++ cs) (append_assoc text (entries_text es) (b'e' ∷ rest)) in
      let e₂ = drop-advance tokens name (text ++ behind) i e₁ in
      let some_behind = length-append (entries_text es) (b'e' ∷ rest) in
      let key_read =
        decode-read f (string key) tokens i (text ++ behind) w.0
          (omega (arith, length-append text behind, some_behind))
          (omega (arith, size, all_size, length-to_string_pos v)) e₁ in
      let value_read =
        decode-read f v tokens (i + length name) behind w.1
          (Room-rest v behind (omega (arith, some_behind))) (omega (arith, size, all_size)) e₂ in
      let others =
        decode_entries-read f es tokens (i + length name + length text) rest w.2
          (omega (arith, size, all_size, length-to_string_pos v))
          (drop-advance tokens text behind (i + length name) e₂) in
      decode_entries-entry tokens i f key v es (i + length name) (i + length name + length text) _
        (before-NotEnd tokens i _ e₁ (string_text-NotEnd key (text ++ behind))) key_read value_read
        others
      ∙ ap (λ (k : ℕ). returns (ok (entry key v es, k))) (omega (arith, size, all_size))

-- A value whose integers and lengths of strings fit an int64_t, and whose dictionaries have
-- their keys in order, is what the parser makes of its text, unless it is the empty string or its
-- text is longer than an int64_t counts.
pub parse-to_string :
    (v : BencodeValue)
    → IsWellFormed v
    → v ≢ string []
    → length (to_string v) < 2 ^ 63
    → parse (to_string v) ≡ returns (ok v)
unfolding parse
parse-to_string v w h l =
    let text = to_string v in
    let read =
      decode-read (fuel_for text) v text 0 [] w (alone v h) (omega arith) (sym (append-nil text)) in
    let fits : ltb (2 ^ 63 - 1) (length text) ≡ false = ground arith in
    let whole : (0 + length text == length text) ≡ true = ground arith in
    rw (fits, read) (if-true _ _ whole)
  where
    alone : (v : BencodeValue) → v ≢ string [] → Room v []
    alone (integer n) h = tt
    alone (string []) h = absurd (h refl)
    alone (string (c ∷ cs)) h = omega arith
    alone (list xs) h = tt
    alone (dict es) h = tt
