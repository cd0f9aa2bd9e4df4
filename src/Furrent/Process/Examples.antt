-- ===== src/Furrent/Process/Examples.antt =====
-- src/furrent.cpp, PieceTask::process at work: a peer that sends the piece, and one file.
use furrent.Prelude.{ℕ, ◌≡◌, refl, List, [], ◌∷◌, true, returns}
use furrent.Prelude.Int.{pos}
use furrent.Torrent.{Piece}
use furrent.Furrent.Saving.{Write, save, save_piece, IsWritten}
use furrent.Furrent.Process.{process, process-completed}
use furrent.Download.Downloader.Transfer.{Downloaded}
use furrent.Download.Downloader.Transfer.Safety.{IsPiece}
use furrent.Download.Downloader.Script.{script, script_reads, torrent, calc, peer, piece_zero}
use furrent.Download.Downloader.Examples.{from_scratch, enough_fuel, greeting}

-- The files are the list of what was written to them.
abbrev log_write : Write (List (List ℕ × ℕ))
log_write path bytes offset files = ((bytes, offset) ∷ files, true)

abbrev whole_piece : Piece
whole_piece = record {
  index = 0;
  subpieces = record { filepath = b'f' ∷ []; file_offset = 0; len = 3 } ∷ [];
}

abbrev saved_files : List (List ℕ × ℕ)
saved_files = (piece_zero.content, 0) ∷ []

processed :
    process script torrent calc enough_fuel log_write whole_piece peer greeting []
    ≡ (returns true, saved_files)
unfolding process save_piece save
processed = rw (from_scratch.1) refl

process-completed_example :
    (d : Downloaded) × IsPiece torrent calc (pos 0) d
    × IsWritten log_write [] d.content whole_piece.subpieces [] saved_files
process-completed_example =
    process-completed script torrent calc enough_fuel log_write whole_piece peer greeting []
      saved_files script_reads processed
