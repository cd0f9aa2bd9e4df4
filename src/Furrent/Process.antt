-- ===== src/Furrent/Process.antt =====
-- src/furrent.cpp, PieceTask::process: a piece is downloaded from a peer, by a Downloader of its own, and
-- saved. The network and the files are states, and SHA-1 is the parameter `calc`.
mod Examples
use furrent.Prelude.{
  ℕ, ◌≡◌, refl, ap, List, Bool, true, false, Option, none, Result, ok, error, Exec, returns, throws,
  undefined, out_of_fuel, inl,
}
use furrent.Prelude.Int.{ℤ, pos}
use furrent.Peer.{Peer}
use furrent.Torrent.{Piece, Subpiece}
use furrent.Torrent.Reading.{TorrentFile}
use furrent.Furrent.Saving.{Write, save_piece, IsWritten, save_piece-IsWritten}
use furrent.Download.Downloader.{Sockets, Downloader, new_downloader}
use furrent.Download.Downloader.Calls.{DownloaderError}
use furrent.Download.Downloader.Connection.{ReadsWhole}
use furrent.Download.Downloader.Transfer.{Downloaded, try_download}
use furrent.Download.Downloader.Transfer.Safety.{IsPiece}
use furrent.Download.Downloader.Contract.{try_download-IsPiece}

module _ {W F : Type 0} (net : Sockets W) (descriptor : TorrentFile) (calc : List ℕ → List ℕ)
    (fuel : ℕ) (write_bytes : Write F) where
  -- save(), behind the download: whether the task is completed, and the files.
  abbrev saved : List Subpiece → Exec (Result Downloaded DownloaderError) → F → Exec Bool × F
  saved subpieces (returns (ok d)) files =
      save_piece write_bytes descriptor.folder_name d.content subpieces files
  saved subpieces (returns (error e)) files = (returns false, files)
  saved subpieces (throws x) files = (throws x, files)
  saved subpieces undefined files = (undefined, files)
  saved subpieces out_of_fuel files = (out_of_fuel, files)

  unfoldable pub process : Piece → Peer → W → F → Exec Bool × F
  process piece peer w files =
      saved piece.subpieces
        (try_download net descriptor calc fuel peer (pos piece.index) (new_downloader w)).0 files

  saved-true :
      (subpieces : List Subpiece) (r : Exec (Result Downloaded DownloaderError)) (files files' : F)
      → saved subpieces r files ≡ (returns true, files')
      → (d : Downloaded) × (r ≡ returns (ok d))
        × IsWritten write_bytes descriptor.folder_name d.content subpieces files files'
  saved-true subpieces (returns (ok d)) files files' e = (
    d,
    refl,
    save_piece-IsWritten write_bytes descriptor.folder_name d.content subpieces files files' e,
  )
  saved-true subpieces (returns (error x)) files files' e =
      absurd (let f : returns false ≡ returns true = ap (λ p. p.0) e in cc)
  saved-true subpieces (throws x) files files' e =
      absurd (let f : throws x ≡ returns true = ap (λ p. p.0) e in cc)
  saved-true subpieces undefined files files' e =
      absurd (let f : undefined ≡ returns true = ap (λ p. p.0) e in cc)
  saved-true subpieces out_of_fuel files files' e =
      absurd (let f : out_of_fuel ≡ returns true = ap (λ p. p.0) e in cc)

  -- If reads answer whole or with an error, then whatever the peer has sent, for a task that is completed
  -- there is content of the piece's length and of the hash that the torrent lists for it, and the whole
  -- of it was written without an error for every subpiece in turn, to the subpiece's file in the folder
  -- of the torrent at the subpiece's offset, and nothing else was written.
  pub process-completed :
      (piece : Piece) (peer : Peer) (w : W) (files files' : F)
      → ReadsWhole net
      → process piece peer w files ≡ (returns true, files')
      → (d : Downloaded) × IsPiece descriptor calc (pos piece.index) d
        × IsWritten write_bytes descriptor.folder_name d.content piece.subpieces files files'
  unfolding process new_downloader
  process-completed piece peer w files files' reads e =
      let download =
        try_download net descriptor calc fuel peer (pos piece.index) (new_downloader w) in
      let (d, f, s) = saved-true piece.subpieces download.0 files files' e in
      let p =
        try_download-IsPiece net descriptor calc fuel peer (pos piece.index) (new_downloader w)
          reads (inl refl) d download.1 (ap (λ r. (r, download.1)) f) in
      (d, p, s)
