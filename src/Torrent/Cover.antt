-- ===== src/Torrent/Cover.antt =====
-- What the subpieces of src/torrent.cpp are to be: consecutive ranges of the files.
use furrent.Prelude.{ℕ, suc, ◌+◌, ◌-◌, ◌*◌, ◌≤◌, ◌≡◌, List, [], ◌∷◌, get_elem?, some, min, take}
use furrent.Torrent.{File, filename, Descriptor, Subpiece, Piece}

-- From byte `off` of file `k` the subpieces take each byte in turn, and end before byte `off'` of
-- file `k'`.
pub data Covers (files : List File) : ℕ → ℕ → List Subpiece → ℕ → ℕ → Type 0 where
  stop : {k off : ℕ} → Covers files k off [] k off
  range :
      {k off k' off' : ℕ} {subpieces : List Subpiece} (file : File) (n : ℕ)
      → get_elem? files k ≡ some file
      → off + n ≤ file.length
      → Covers files k (off + n) subpieces k' off'
      → Covers files k off
          (record { filepath = filename file; file_offset = off; len = n } ∷ subpieces)
          k'
          off'
  next :
      {k off k' off' : ℕ} {subpieces : List Subpiece} (file : File)
      → get_elem? files k ≡ some file
      → off ≡ file.length
      → Covers files (suc k) 0 subpieces k' off'
      → Covers files k off subpieces k' off'

abbrev pub size : List Subpiece → ℕ
size [] = 0
size (s ∷ subpieces) = s.len + size subpieces

abbrev pub total : List File → ℕ
total [] = 0
total (file ∷ files) = file.length + total files

-- The pieces from `index` on, of which the first begins at byte `off` of file `k`: piece i has the
-- bytes from i * piece_length on, up to its length or the end, and the last piece ends at the end.
abbrev pub Tiles : Descriptor → ℕ → ℕ → ℕ → List Piece → Type 0
Tiles d index k off [] = (total (take k d.files) + off ≡ d.length) × (d.pieces_count ≡ index)
Tiles d index k off (p ∷ pieces) =
    (p.index ≡ index)
    × (total (take k d.files) + off ≡ index * d.piece_length)
    × (size p.subpieces ≡ min d.piece_length (d.length - index * d.piece_length))
    × (k' : ℕ) × (off' : ℕ) × Covers d.files k off p.subpieces k' off'
    × Tiles d (suc index) k' off' pieces
