-- ===== src/Torrent/Metainfo/Examples.antt =====
-- The theorems on reading a .torrent file at concrete inputs.
use furrent.Prelude.{
  ◌≡◌, refl, List, [], ◌∷◌, ℕ, ◌<◌, ◌^◌, arith, returns, undefined, length, replicate,
}
use furrent.Prelude.Int.{ℤ, pos}
use furrent.Bencode.Value.{to_string, string_text, decimal, decimal_from, decimal_ℤ}
use furrent.Torrent.{File}
use furrent.Torrent.Reading.{read}
use furrent.Torrent.Metainfo.{info, tree, described, Fits, read-tree, read-zero_piece_length}

-- Two files of 3 and 9 bytes in pieces of 8 bytes.
abbrev two_files : List File
two_files =
    record { filepath = (b'a' ∷ []) ∷ []; length = 3 }
    ∷ record { filepath = (b'b' ∷ []) ∷ (b'c' ∷ []) ∷ []; length = 9 }
    ∷ []

abbrev two_hashes : List (List ℕ)
two_hashes = replicate 20 1 ∷ replicate 20 2 ∷ []

abbrev no_digest : List ℕ → List ℕ
no_digest text = replicate 20 (length text)

two_files-Fits :
    (wide : ℤ)
    → length (to_string (info (b'u' ∷ []) (b'n' ∷ []) two_files wide two_hashes)) < 2 ^ 31
    → Fits (b'u' ∷ []) (b'n' ∷ []) two_files wide two_hashes
two_files-Fits wide h = ((refl, (refl, tt)), omega arith, omega arith, h)

read-tree_example :
    read no_digest (tree (b'u' ∷ []) (b'n' ∷ []) two_files (pos 8) two_hashes)
    ≡ returns (described (b'u' ∷ []) (b'n' ∷ []) two_files (pos 8) two_hashes no_digest (pos 2))
read-tree_example =
    read-tree (b'u' ∷ []) (b'n' ∷ []) two_files (pos 8) two_hashes no_digest 8
      (two_files-Fits (pos 8) info_fits) refl (omega arith) (omega arith) (omega arith)
  where
    info_fits :
        length (to_string (info (b'u' ∷ []) (b'n' ∷ []) two_files (pos 8) two_hashes)) < 2 ^ 31
    info_fits =
        unfold to_string in
        unfold string_text in
        unfold decimal in unfold decimal_from in unfold decimal_ℤ in omega arith

read-zero_piece_length_example :
    read no_digest (tree (b'u' ∷ []) (b'n' ∷ []) two_files (pos 0) two_hashes) ≡ undefined
read-zero_piece_length_example =
    read-zero_piece_length (b'u' ∷ []) (b'n' ∷ []) two_files (pos 0) two_hashes no_digest
      (two_files-Fits (pos 0) info_fits) refl
  where
    info_fits :
        length (to_string (info (b'u' ∷ []) (b'n' ∷ []) two_files (pos 0) two_hashes)) < 2 ^ 31
    info_fits =
        unfold to_string in
        unfold string_text in
        unfold decimal in unfold decimal_from in unfold decimal_ℤ in omega arith
