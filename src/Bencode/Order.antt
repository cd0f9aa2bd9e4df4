-- ===== src/Bencode/Order.antt =====
-- The keys of a dictionary in src/bencode: their order, and a std::map made from entries in order.
use furrent.Prelude.{ℕ, ◌≡◌, refl, sym, ap, ◌∙◌, List, [], ◌∷◌, true, false, arith}
use furrent.Bencode.Value.{BencodeValue, Entries, end, entry}
use furrent.Bencode.Parser.{lex_lt, insert, insert_all, descends}

pub lex_lt_asymm : (xs ys : List ℕ) → lex_lt xs ys ≡ true → lex_lt ys xs ≡ false
unfolding lex_lt
lex_lt_asymm [] [] h = cc
lex_lt_asymm (x ∷ xs) [] h = cc
lex_lt_asymm [] (y ∷ ys) h = refl
lex_lt_asymm (x ∷ xs) (y ∷ ys) h = ground (arith, lex_lt_asymm xs ys)

pub lex_lt_trans :
    (xs ys zs : List ℕ) → lex_lt xs ys ≡ true → lex_lt ys zs ≡ true → lex_lt xs zs ≡ true
unfolding lex_lt
lex_lt_trans xs ys [] h k = absurd (cc)
lex_lt_trans xs [] (z ∷ zs) h k = absurd (cc)
lex_lt_trans [] (y ∷ ys) (z ∷ zs) h k = refl
lex_lt_trans (x ∷ xs) (y ∷ ys) (z ∷ zs) h k = ground (arith, lex_lt_trans xs ys zs)

-- Each key is below the next.
abbrev pub Increasing : Entries → Type 0
Increasing (entry k v (entry k' v' es)) = (lex_lt k k' ≡ true) × Increasing (entry k' v' es)
Increasing _ = Unit {0}

pub descends_not : (es : Entries) → Increasing es → descends es ≡ false
unfolding descends
descends_not end h = refl
descends_not (entry k v end) h = refl
descends_not (entry k v (entry k' v' es)) (h, r) =
    ground (arith, lex_lt_asymm k k' h, descends_not (entry k' v' es) r)

append : Entries → Entries → Entries
append end es = es
append (entry k v fs) es = entry k v (append fs es)

-- All keys are below one.
abbrev Below : List ℕ → Entries → Type 0
Below key end = Unit {0}
Below key (entry k v es) = (lex_lt k key ≡ true) × Below key es

Below-trans : (j k : List ℕ) (es : Entries) → lex_lt j k ≡ true → Below j es → Below k es
Below-trans j k end h b = tt
Below-trans j k (entry i v es) h b = (lex_lt_trans i j k b.0 h, Below-trans j k es h b.1)

insert_last :
    (key : List ℕ) (v : BencodeValue) (es : Entries)
    → Below key es
    → insert key v es ≡ append es (entry key v end)
unfolding insert append
insert_last key v end b = refl
insert_last key v (entry k w es) b =
    rw (lex_lt_asymm k key b.0, b.0) (ap (entry k w) (insert_last key v es b.1))

append_one :
    (es fs : Entries) (k : List ℕ) (v : BencodeValue)
    → append (append es (entry k v end)) fs ≡ append es (entry k v fs)
unfolding append
append_one end fs k v = refl
append_one (entry j w es) fs k v = ap (entry j w) (append_one es fs k v)

append-Below :
    (key k : List ℕ) (v : BencodeValue) (es : Entries)
    → Below key es
    → lex_lt k key ≡ true
    → Below key (append es (entry k v end))
unfolding append
append-Below key k v end b h = (h, tt)
append-Below key k v (entry j w es) b h = (b.0, append-Below key k v es b.1 h)

-- The entries come behind those of the map, which are in order.
abbrev BelowFirst : Entries → Entries → Type 0
BelowFirst map end = Unit {0}
BelowFirst map (entry k v es) = Below k map

append_end : (es : Entries) → append es end ≡ es
unfolding append
append_end end = refl
append_end (entry k v es) = ap (entry k v) (append_end es)

tail-Increasing :
    (k : List ℕ) (v : BencodeValue) (es : Entries) → Increasing (entry k v es) → Increasing es
tail-Increasing k v end h = tt
tail-Increasing k v (entry k' v' es) h = h.1

next-BelowFirst :
    (map : Entries) (k : List ℕ) (v : BencodeValue) (es : Entries)
    → Below k map
    → Increasing (entry k v es)
    → BelowFirst (append map (entry k v end)) es
next-BelowFirst map k v end b h = tt
next-BelowFirst map k v (entry k' v' es) b h =
    append-Below k' k v map (Below-trans k k' map h.0 b) h.0

insert_all-append :
    (map es : Entries) → BelowFirst map es → Increasing es → insert_all map es ≡ append map es
unfolding insert_all
insert_all-append map end b h = sym (append_end map)
insert_all-append map (entry k v es) b h =
    ap (λ m. insert_all m es) (insert_last k v map b)
    ∙ insert_all-append (append map (entry k v end)) es (next-BelowFirst map k v es b h)
        (tail-Increasing k v es h)
    ∙ append_one map es k v

-- Entries in order are the map made from them.
pub insert_all-end : (es : Entries) → Increasing es → insert_all end es ≡ es
unfolding append
insert_all-end es h = insert_all-append end es (below_none es) h
  where
    below_none : (es : Entries) → BelowFirst end es
    below_none end = tt
    below_none (entry k v es) = tt
