-- ===== src/Download/Downloader/Blocks/Assembly.antt =====
-- src/download/downloader.cpp: what a piece holds once blocks of it are copied in.
use furrent.Prelude.{
  ℕ, ◌+◌, ◌-◌, ◌/◌, ◌≤◌, ◌<◌, ◌≡◌, ◌⊎◌, inl, inr, subst, ap, ◌∙◌, List, ◌++◌, length, take, drop,
  get_elem?, length-append, length-take, length-drop, get_elem?-append_before,
  get_elem?-append_behind, get_elem?-take, get_elem?-dropped, returns, arith, leb, if-true,
}
use furrent.Prelude.Int.{pos}
use furrent.Download.Downloader.Blocks.{blocks_total, block_offset, block_length, copy_block}
use furrent.Download.Downloader.Blocks.Tiling.{block_end, in_block}

-- The bytes of a block in the whole piece.
unfoldable pub block_of : List ℕ → ℕ → List ℕ
block_of whole k = take (block_length (length whole) k) (drop (block_offset k) whole)

pub length-block_of :
    (whole : List ℕ) (k : ℕ)
    → k < blocks_total (length whole)
    → length (block_of whole k) ≡ block_length (length whole) k
unfolding block_of
length-block_of whole k h =
    let (p, q, r) = block_end (length whole) k h in
    omega (
      arith,
      length-take (block_length (length whole) k) (drop (block_offset k) whole),
      length-drop (block_offset k) whole,
      r,
    )

get_elem?-block_of :
    (whole : List ℕ) (k j : ℕ)
    → block_offset k ≤ j
    → j < block_offset k + block_length (length whole) k
    → get_elem? (block_of whole k) (j - block_offset k) ≡ get_elem? whole j
unfolding block_of
get_elem?-block_of whole k j lo hi =
    get_elem?-take (block_length (length whole) k) (drop (block_offset k) whole)
      (j - block_offset k) (omega (arith, lo, hi))
    ∙ get_elem?-dropped (block_offset k) whole (j - block_offset k)
    ∙ ap (get_elem? whole) (omega (arith, lo))

abbrev spliced : List ℕ → ℕ → List ℕ → List ℕ
spliced content b block = take b content ++ (block ++ drop (b + length block) content)

module _ (content : List ℕ) (b : ℕ) (block : List ℕ)
    (fits : b + length block ≤ length content) where
  front : length (take b content) ≡ b
  front = omega (arith, length-take b content, fits)

  get_elem?-spliced_outside :
      (j : ℕ)
      → (j < b) ⊎ (b + length block ≤ j)
      → get_elem? (spliced content b block) j ≡ get_elem? content j
  get_elem?-spliced_outside j (inl h) =
      get_elem?-append_before (take b content) (block ++ drop (b + length block) content) j
        (omega (arith, front, h))
      ∙ get_elem?-take b content j h
  get_elem?-spliced_outside j (inr h) =
      get_elem?-append_behind (take b content) (block ++ drop (b + length block) content) j
        (omega (arith, front, h))
      ∙ get_elem?-append_behind block (drop (b + length block) content)
          (j - length (take b content)) (omega (arith, front, h))
      ∙ get_elem?-dropped (b + length block) content (j - length (take b content) - length block)
      ∙ ap (get_elem? content) (omega (arith, front, h))

  get_elem?-spliced_inside :
      (j : ℕ)
      → b ≤ j
      → j < b + length block
      → get_elem? (spliced content b block) j ≡ get_elem? block (j - b)
  get_elem?-spliced_inside j h k =
      get_elem?-append_behind (take b content) (block ++ drop (b + length block) content) j
        (omega (arith, front, h))
      ∙ get_elem?-append_before block (drop (b + length block) content)
          (j - length (take b content)) (omega (arith, front, h, k))
      ∙ ap (λ (n : ℕ). get_elem? block (j - n)) front

-- Copying a block of the whole piece makes its bytes those of the whole, and spoils no other.
pub copy_block-block_of :
    (whole content : List ℕ) (k : ℕ)
    → length content ≡ length whole
    → k < blocks_total (length whole)
    → (new : List ℕ) × (copy_block content (pos (block_offset k)) (block_of whole k) ≡ returns new)
      × (length new ≡ length whole)
      × ((j : ℕ)
          → j < length whole
          → (j / 16384 ≡ k) ⊎ (get_elem? content j ≡ get_elem? whole j)
          → get_elem? new j ≡ get_elem? whole j)
unfolding copy_block
copy_block-block_of whole content k l h =
    let (p, q, r) = block_end (length whole) k h in
    let e = length-block_of whole k h in
    let fits : block_offset k + length (block_of whole k) ≤ length content =
      omega (arith, e, r, l) in
    (
      spliced content (block_offset k) (block_of whole k),
      if-true {b = leb (block_offset k + length (block_of whole k)) (length content)} _ _
          (ground (arith, fits)),
      omega (
        arith,
        fits,
        l,
        length-append (take (block_offset k) content)
            (block_of whole k ++ drop (block_offset k + length (block_of whole k)) content),
        length-append (block_of whole k)
            (drop (block_offset k + length (block_of whole k)) content),
        length-take (block_offset k) content,
        length-drop (block_offset k + length (block_of whole k)) content,
      ),
      λ j j_in good. elim (place j) [
        | inl (lo, hi) ↦
            get_elem?-spliced_inside content (block_offset k) (block_of whole k) fits j lo hi
            ∙ get_elem?-block_of whole k j lo (omega (arith, hi, e))
        | inr out ↦
            get_elem?-spliced_outside content (block_offset k) (block_of whole k) fits j out
            ∙ elim good [ inl own ↦ absurd (missed j j_in own out) | inr old ↦ old ]
      ],
    )
  where
    place :
        (j : ℕ)
        → ((block_offset k ≤ j) × (j < block_offset k + length (block_of whole k)))
          ⊎ ((j < block_offset k) ⊎ (block_offset k + length (block_of whole k) ≤ j))
    place j = ground arith

    missed :
        (j : ℕ)
        → j < length whole
        → j / 16384 ≡ k
        → ¬ ((j < block_offset k) ⊎ (block_offset k + length (block_of whole k) ≤ j))
    missed j j_in own out =
        let (a, b, c) = in_block (length whole) j j_in in
        let b' : block_offset k ≤ j = subst (λ q. block_offset q ≤ j) own b in
        let c' : j < block_offset k + block_length (length whole) k =
          subst (λ q. j < block_offset q + block_length (length whole) q) own c in
        ground (arith, b', c', length-block_of whole k h)
