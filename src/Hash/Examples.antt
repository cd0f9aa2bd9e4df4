-- ===== src/Hash/Examples.antt =====
-- The theorems on src/hash.cpp at concrete inputs.
use furrent.Prelude.{◌≡◌, ◌≢◌, ◌%◌, ◌*◌, ◌⊎◌, List, ℕ, arith, returns, ok, error, length, replicate}
use furrent.Hash.{
  split_piece_hashes, split_piece_hashes-total, malformed_piece_hashes_string, AreHashes, concat,
  count,
}

abbrev forty : List ℕ
forty = replicate 40 b'x'

split_piece_hashes-total_example :
    ((length forty % 20 ≢ 0)
      × (split_piece_hashes forty ≡ returns (error malformed_piece_hashes_string)))
    ⊎ ((hashes : List (List ℕ)) × (split_piece_hashes forty ≡ returns (ok hashes))
        × AreHashes hashes
        × (concat hashes ≡ forty)
        × (20 * count hashes ≡ length forty))
split_piece_hashes-total_example = split_piece_hashes-total forty (omega arith)
