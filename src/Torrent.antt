-- ===== src/Torrent.antt =====
-- src/torrent.hpp and torrent.cpp: how the pieces of a torrent lie over its files. Names are lists of
-- bytes. The lengths of a descriptor are numbers, so a descriptor with a negative length has no model
-- here. `files[i]` behind the end of the vector has undefined behaviour.
pub mod Cover
pub mod Fill
pub mod Rounds
pub mod Layout
pub mod Reading
pub mod Metainfo
mod Examples
use furrent.Prelude.{
  ℕ, zero, suc, ◌+◌, ◌-◌, ◌*◌, ◌==◌, leb, ltb, List, [], ◌∷◌, ◌++◌, if◌then◌else◌, length,
  get_elem?, none, some, Exec, returns, undefined, out_of_fuel, ◌>>=◌,
}

pub record File : Type 0 where
  pub filepath : List (List ℕ)
  pub length : ℕ

-- The loop of File::filename: sections joined by slashes. The test in front of it, for a path of more
-- than 2 ^ 63 - 1 sections, is left out: no vector has that many. `i` counts the sections before.
unfoldable pub join : ℕ → ℕ → List (List ℕ) → List ℕ
join size i [] = []
join size i (section ∷ rest) =
    section ++ ((if i == size - 1 then [] else b'/' ∷ []) ++ join size (i + 1) rest)

unfoldable pub filename : File → List ℕ
unfolding join
filename file = join (length file.filepath) 0 file.filepath

-- What Torrent::pieces reads of a TorrentFile.
pub record Descriptor : Type 0 where
  pub piece_length : ℕ
  pub length : ℕ
  pub pieces_count : ℕ
  pub files : List File

pub record Subpiece : Type 0 where
  pub filepath : List ℕ
  pub file_offset : ℕ
  pub len : ℕ

pub record Piece : Type 0 where
  pub index : ℕ
  pub subpieces : List Subpiece

-- The variables that the loops of Torrent::pieces carry.
pub record Cursor : Type 0 where
  pub cur_file : ℕ
  pub cur_file_tot_size : ℕ
  pub cur_file_rem_size : ℕ

-- files[i]
unfoldable pub file_at : List File → ℕ → Exec File
file_at files i = elim (get_elem? files i) [ none ↦ undefined | some file ↦ returns file ]

-- The cursor at the first byte of a file.
abbrev pub at_start : ℕ → File → Cursor
at_start i file = record {
  cur_file = i;
  cur_file_tot_size = file.length;
  cur_file_rem_size = file.length;
}

-- The next `n` bytes of the cursor's file.
abbrev pub subpiece : File → Cursor → ℕ → Subpiece
subpiece file c n = record {
  filepath = filename file;
  file_offset = c.cur_file_tot_size - c.cur_file_rem_size;
  len = n;
}

abbrev pub advance : Cursor → ℕ → Cursor
advance c n = record c { cur_file_rem_size = c.cur_file_rem_size - n }

-- `while (piece_rem_len > 0)`: each round but the last moves on to the next file.
pub fill : ℕ → List File → Cursor → ℕ → Exec (List Subpiece × Cursor)
fill zero files c piece_rem_len = out_of_fuel
fill (suc fuel) files c piece_rem_len =
    let entire = do
      file ← file_at files c.cur_file
      next ← file_at files (suc c.cur_file)
      (subpieces, c') ←
          fill fuel files (at_start (suc c.cur_file) next) (piece_rem_len - c.cur_file_rem_size)
      returns (subpiece file c c.cur_file_rem_size ∷ subpieces, c')
    in let part = do
      file ← file_at files c.cur_file
      returns (subpiece file c piece_rem_len ∷ [], advance c piece_rem_len)
      in if piece_rem_len == 0
        then returns ([], c)
        else if leb c.cur_file_rem_size piece_rem_len
        then entire
        else part

-- The length of a piece; the last one is what is left.
pub length_of_piece : Descriptor → ℕ → ℕ
length_of_piece d index =
    if index == d.pieces_count - 1
    then d.length - (d.pieces_count - 1) * d.piece_length
    else d.piece_length

-- The subpieces of one piece: several, or the single one. Each round of `fill` moves on by a file.
pub subpieces_of : List File → Cursor → ℕ → Exec (List Subpiece × Cursor)
subpieces_of files c piece_length =
    if ltb c.cur_file_rem_size piece_length then fill (length files) files c piece_length else (do
      file ← file_at files c.cur_file
      returns (subpiece file c piece_length ∷ [], advance c piece_length))

-- `for (index = 0; index < PIECES_COUNT; index++)`, with the rounds left.
pub pieces_from : Descriptor → ℕ → ℕ → Cursor → Exec (List Piece)
pieces_from d zero index c = returns []
pieces_from d (suc rounds) index c = do
  (subpieces, c') ← subpieces_of d.files c (length_of_piece d index)
  rest ← pieces_from d rounds (suc index) c'
  returns (record { index = index; subpieces = subpieces } ∷ rest)

-- Torrent::pieces
pub pieces : Descriptor → Exec (List Piece)
pieces d = do file ← file_at d.files 0; pieces_from d d.pieces_count 0 (at_start 0 file)
