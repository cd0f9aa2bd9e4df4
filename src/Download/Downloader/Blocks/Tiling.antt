-- ===== src/Download/Downloader/Blocks/Tiling.antt =====
-- src/download/downloader.cpp: how the requested blocks lie in the piece.
use furrent.Prelude.{ℕ, ◌+◌, ◌-◌, ◌*◌, ◌/◌, ◌==◌, ◌≤◌, ◌<◌, ◌≡◌, sym, arith, Bool-cases, inl, inr}
use furrent.Download.Downloader.Blocks.{blocks_total, block_offset, block_length}

pub blocks_total_covers :
    (n : ℕ) → (n ≤ blocks_total n * 16384) × (blocks_total n * 16384 < n + 16384)
unfolding blocks_total
blocks_total_covers n = (omega arith, omega arith)

-- A block ends inside the piece, and the last one with it.
pub block_end :
    (n k : ℕ)
    → k < blocks_total n
    → (0 < block_length n k) × (block_length n k ≤ 16384) × (block_offset k + block_length n k ≤ n)
unfolding block_length block_offset
block_end n k h =
    let (lo, hi) = blocks_total_covers n in
    elim (Bool-cases (k == blocks_total n - 1)) [
      | inl e ↦ ground (arith, lo, hi)
      | inr e ↦ ground (arith, lo, hi)
    ]

-- A byte that a block holds lies in the block of its quotient.
pub block-of :
    (n k j : ℕ)
    → k < blocks_total n
    → block_offset k ≤ j
    → j < block_offset k + block_length n k
    → j / 16384 ≡ k
block-of n k j h lo hi =
    let (p, q, r) = block_end n k h in unfold block_offset in omega (arith, lo, hi, q)

pub in_block :
    (n j : ℕ)
    → j < n
    → (j / 16384 < blocks_total n)
      × (block_offset (j / 16384) ≤ j)
      × (j < block_offset (j / 16384) + block_length n (j / 16384))
unfolding block_offset block_length
in_block n j h =
    let (lo, hi) = blocks_total_covers n in
    elim (Bool-cases (j / 16384 == blocks_total n - 1)) [
      | inl e ↦ ground (arith, lo, hi)
      | inr e ↦ ground (arith, lo, hi)
    ]

-- The requests for a piece of n bytes ask for 1 to 16384 bytes each, none behind the end of the piece,
-- and every byte of the piece is asked for by exactly one of them.
pub blocks-partition :
    (n : ℕ)
    → ((k : ℕ)
        → k < blocks_total n
        → (0 < block_length n k)
          × (block_length n k ≤ 16384)
          × (block_offset k + block_length n k ≤ n))
      × ((j : ℕ)
          → j < n
          → (k : ℕ) × (k < blocks_total n)
            × (block_offset k ≤ j)
            × (j < block_offset k + block_length n k)
            × ((i : ℕ)
                → i < blocks_total n
                → block_offset i ≤ j
                → j < block_offset i + block_length n i
                → i ≡ k))
blocks-partition n = (
  block_end n,
  λ j h.
      let (a, b, c) = in_block n j h in
      (j / 16384, a, b, c, λ i h' lo hi. sym (block-of n i j h' lo hi)),
)
