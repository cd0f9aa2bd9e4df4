-- ===== src/Torrent/Examples.antt =====
-- The theorems on src/torrent.cpp at concrete inputs, and runs of the definitions.
use furrent.Prelude.{◌≡◌, refl, inr, List, [], ◌∷◌, returns, undefined, arith}
use furrent.Torrent.{
  File, filename, Descriptor, Piece, pieces, pieces_from, subpieces_of, fill, length_of_piece,
  file_at,
}
use furrent.Torrent.Cover.{Tiles}
use furrent.Torrent.Rounds.{IsConsistent}
use furrent.Torrent.Layout.{pieces-Tiles, pieces_behind_end}

-- a/b and c, of 3 and 9 bytes.
abbrev first : File
first = record { filepath = (b'a' ∷ []) ∷ (b'b' ∷ []) ∷ []; length = 3 }

abbrev second : File
second = record { filepath = (b'c' ∷ []) ∷ []; length = 9 }

abbrev two_files : Descriptor
two_files = record { piece_length = 5; length = 12; pieces_count = 3; files = first ∷ second ∷ [] }

filename_run : filename first ≡ b'a' ∷ b'/' ∷ b'b' ∷ []
unfolding filename
filename_run = refl

two_files-IsConsistent : IsConsistent two_files
two_files-IsConsistent = record {
  some_piece = omega arith;
  some_bytes = omega arith;
  sum = refl;
  count = refl;
}

pieces-Tiles_example :
    (ps : List Piece) × (pieces two_files ≡ returns ps) × Tiles two_files 0 0 0 ps
pieces-Tiles_example = pieces-Tiles two_files second two_files-IsConsistent refl (inr (omega arith))

-- One piece over both files.
abbrev one_piece : Descriptor
one_piece = record { piece_length = 16; length = 12; pieces_count = 1; files = first ∷ second ∷ [] }

one_piece-IsConsistent : IsConsistent one_piece
one_piece-IsConsistent = record {
  some_piece = omega arith;
  some_bytes = omega arith;
  sum = refl;
  count = refl;
}

pieces_behind_end_example : pieces one_piece ≡ undefined
pieces_behind_end_example =
    pieces_behind_end one_piece second one_piece-IsConsistent refl (omega arith, (omega arith, tt))
      (omega arith)

-- A last piece that is exactly the last file, behind a piece that ends with the file before: the
-- cursor stands at the end of that file still, and the last file is ended in the inner loop.
abbrev file_each : Descriptor
file_each = record {
  piece_length = 5;
  length = 8;
  pieces_count = 2;
  files =
      record { filepath = (b'a' ∷ []) ∷ []; length = 5 }
      ∷ record { filepath = (b'b' ∷ []) ∷ []; length = 3 }
      ∷ [];
}

file_each_behind_end : pieces file_each ≡ undefined
unfolding pieces pieces_from subpieces_of fill length_of_piece file_at
file_each_behind_end = refl
