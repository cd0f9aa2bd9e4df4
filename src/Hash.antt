-- ===== src/Hash.antt =====
-- src/hash.hpp and hash.cpp. SHA-1 is third-party: its function `calc` is a parameter.
mod Examples
use furrent.Prelude.{
  ℕ, zero, suc, ◌+◌, ◌-◌, ◌*◌, ◌^◌, ◌%◌, ◌/◌, ◌⊎◌, inl, inr, Bool-cases, ◌<◌, ◌≤◌, ◌≡◌, ◌==◌, ltb,
  refl, sym, ap, ◌∙◌, List, [], ◌∷◌, ◌++◌, Bool, true, false, if◌then◌else◌, ◌&&◌, length,
  length-append, length-drop, length-take, take-drop, take-append, drop-advance, length-replicate,
  replicate, take, drop, drop-drop, All, append-nil, Result, ok, error, Exec, returns, throws,
  invalid_argument, out_of_fuel, ◌>>=◌, if-true, if-false, arith, and_then, ◌≢◌, subst,
}

pub data HashError : Type 0 where
  malformed_piece_hashes_string piece_hashes_string_too_large : HashError

-- An array of 20 zeros, with the characters from `i` on copied over it.
unfoldable pub copied : List ℕ → ℕ → List ℕ
copied str i = take 20 (drop i str) ++ replicate (20 - length (take 20 (drop i str))) 0

-- The loop of split_piece_hashes.
unfoldable pub hashes_from : ℕ → List ℕ → ℕ → Exec (List (List ℕ))
hashes_from zero str i = out_of_fuel
hashes_from (suc fuel) str i =
    let rest = hashes_from fuel str (i + 20) in
    if ltb i (length str) then (rest >>= λ hashes. returns (copied str i ∷ hashes)) else returns []

-- A round moves on by 20 characters, so the text's length is fuel enough.
unfoldable pub split_piece_hashes : List ℕ → Exec (Result (List (List ℕ)) HashError)
split_piece_hashes str =
    if ltb (2 ^ 63 - 1) (length str)
    then returns (error piece_hashes_string_too_large)
    else if ltb 0 (length str % 20)
    then returns (error malformed_piece_hashes_string)
    else (hashes_from (length str + 1) str 0 >>= λ hashes. returns (ok hashes))

-- `==` of two hashes.
unfoldable pub hash_eq : List ℕ → List ℕ → Bool
hash_eq [] [] = true
hash_eq (x ∷ xs) (y ∷ ys) = (x == y) && hash_eq xs ys
hash_eq _ _ = false

unfoldable pub compute_info_hash : (List ℕ → List ℕ) → List ℕ → Exec (List ℕ)
compute_info_hash calc bencoded_info_dict =
    if ltb (2 ^ 31 - 1) (length bencoded_info_dict)
    then throws invalid_argument
    else returns (calc bencoded_info_dict)

unfoldable pub verify_piece : (List ℕ → List ℕ) → List ℕ → List ℕ → Exec Bool
verify_piece calc piece hash =
    if ltb (2 ^ 31 - 1) (length piece)
    then throws invalid_argument
    else returns (hash_eq (calc piece) hash)

abbrev pub concat : List (List ℕ) → List ℕ
concat [] = []
concat (hash ∷ hashes) = hash ++ concat hashes

abbrev pub count : List (List ℕ) → ℕ
count [] = 0
count (hash ∷ hashes) = suc (count hashes)

-- Hashes of 20 bytes.
abbrev pub AreHashes : List (List ℕ) → Type 0
AreHashes [] = Unit {0}
AreHashes (hash ∷ hashes) = (length hash ≡ 20) × AreHashes hashes

length-concat :
    (hashes : List (List ℕ)) → AreHashes hashes → length (concat hashes) ≡ 20 * count hashes
length-concat [] h = refl
length-concat (hash ∷ hashes) (l, h) =
    omega (arith, length-append hash (concat hashes), length-concat hashes h)

copied-at :
    (str : List ℕ) (i : ℕ) (hash rest : List ℕ)
    → length hash ≡ 20
    → drop i str ≡ hash ++ rest
    → copied str i ≡ hash
unfolding copied
copied-at str i hash rest l e =
    let taken : take 20 (drop i str) ≡ hash =
      ap (take 20) e ∙ subst (λ n. take n (hash ++ rest) ≡ hash) l (take-append hash rest) in
    let filled : 20 - length hash ≡ 0 = omega arith in rw (taken, filled) (append-nil hash)

hashes_from-concat :
    (hashes : List (List ℕ)) (fuel : ℕ) (str : List ℕ) (i : ℕ)
    → AreHashes hashes
    → drop i str ≡ concat hashes
    → count hashes < fuel
    → hashes_from fuel str i ≡ returns hashes
unfolding hashes_from
hashes_from-concat hashes zero str i h e l = absurd (omega arith)
hashes_from-concat [] (suc fuel) str i h e l =
    let done : ltb i (length str) ≡ false = ground (arith, length-drop i str, ap length e) in
    rw done refl
hashes_from-concat (hash ∷ hashes) (suc fuel) str i (l₂₀, h) e l =
    let more : ltb i (length str) ≡ true =
      ground (arith, length-drop i str, ap length e, length-append hash (concat hashes)) in
    let e' : drop (i + 20) str ≡ concat hashes =
      subst (λ n. drop (i + n) str ≡ concat hashes) l₂₀
        (drop-advance str hash (concat hashes) i e) in
    rw
      (
        more,
        hashes_from-concat hashes fuel str (i + 20) h e' (omega arith),
        copied-at str i hash (concat hashes) l₂₀ e,
      )
      refl

-- Characters whose number is a multiple of 20 are those of hashes in turn.
in_hashes :
    (n : ℕ) (str : List ℕ)
    → length str ≡ 20 * n
    → (hashes : List (List ℕ)) × AreHashes hashes × (concat hashes ≡ str) × (count hashes ≡ n)
in_hashes zero [] l = ([], tt, refl, refl)
in_hashes zero (c ∷ str) l = absurd (omega arith)
in_hashes (suc n) str l =
    let (hashes, h, e, c) = in_hashes n (drop 20 str) (omega (arith, length-drop 20 str)) in
    (
      take 20 str ∷ hashes,
      (omega (arith, length-take 20 str), h),
      ap (λ cs. take 20 str ++ cs) e ∙ take-drop 20 str,
      ap suc c,
    )

-- The characters of hashes in turn are split into those hashes.
pub split_piece_hashes-concat :
    (hashes : List (List ℕ))
    → AreHashes hashes
    → 20 * count hashes < 2 ^ 63
    → split_piece_hashes (concat hashes) ≡ returns (ok hashes)
unfolding split_piece_hashes
split_piece_hashes-concat hashes h fits =
    let size = length-concat hashes h in
    let small : ltb (2 ^ 63 - 1) (length (concat hashes)) ≡ false = ground (arith, size) in
    let whole : ltb 0 (length (concat hashes) % 20) ≡ false = ground (arith, size) in
    rw
      (
        small,
        whole,
        hashes_from-concat hashes (length (concat hashes) + 1) (concat hashes) 0 h refl
            (omega (arith, size)),
      )
      refl

-- A text of characters is refused unless their number is a multiple of 20; then it is split into
-- that many hashes of 20 bytes, which in turn are the text.
pub split_piece_hashes-total :
    (str : List ℕ)
    → length str < 2 ^ 63
    → ((length str % 20 ≢ 0)
        × (split_piece_hashes str ≡ returns (error malformed_piece_hashes_string)))
      ⊎ ((hashes : List (List ℕ)) × (split_piece_hashes str ≡ returns (ok hashes))
          × AreHashes hashes
          × (concat hashes ≡ str)
          × (20 * count hashes ≡ length str))
split_piece_hashes-total str fits = elim (Bool-cases (ltb 0 (length str % 20))) [
  | inl odd ↦ inl (λ e. absurd (ground arith), unfold split_piece_hashes in rw (small, odd) refl)
  | inr even ↦
      let (hashes, h, e, c) = in_hashes (length str / 20) str (ground arith) in
      let split = split_piece_hashes-concat hashes h (omega (arith, c)) in
      inr (
        hashes,
        subst (λ cs. split_piece_hashes cs ≡ returns (ok hashes)) e split,
        h,
        e,
        ground arith,
      )
]
  where
    small : ltb (2 ^ 63 - 1) (length str) ≡ false
    small = ground arith
