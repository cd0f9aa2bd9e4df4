-- ===== src/Download/Downloader/Asio.antt =====
-- src/download/downloader.cpp over src/download/socket.cpp: the socket that a Downloader is given. The
-- construction of an engine and the clock are third-party.
mod Examples
use furrent.Prelude.{
  ℕ, ◌≡◌, refl, sym, subst, List, length, Result, ok, error, Exec, returns, inl, inr, ◌⊎◌,
}
use furrent.Prelude.Int.{ℤ, pos}
use furrent.Peer.{Peer}
use furrent.Torrent.Reading.{TorrentFile}
use furrent.Download.Socket.{Asio, SocketError, connect, write, read, close_socket}
use furrent.Download.Socket.Reads.{read-returns}
use furrent.Download.Downloader.{Sockets, Downloader}
use furrent.Download.Downloader.Connection.{Answers, ReadsWhole}
use furrent.Download.Downloader.Health.{IsHealthy}
use furrent.Download.Downloader.Transfer.{Downloaded, try_download}
use furrent.Download.Downloader.Transfer.Safety.{IsPiece}
use furrent.Download.Downloader.Contract.{try_download-IsPiece}

module _ {W : Type 0} (asio : Asio W) (create : W → W) (now : W → ℕ) where
  unfoldable pub sockets : Sockets W
  unfolding connect write read close_socket
  sockets = record {
    create = create;
    is_open = asio.is_open;
    connect = connect asio;
    write = write asio;
    read = read asio;
    close = λ w. (close_socket asio w).1;
    now = now;
  }

  answers :
      {P : List ℕ → Type 0} (r : Exec (Result (List ℕ) SocketError))
      → ((buf : List ℕ) × (r ≡ returns (ok buf)) × P buf)
        ⊎ ((err : SocketError) × (r ≡ returns (error err)))
      → Answers P r
  unfolding Answers
  answers {P = P} r (inl (buf, e, p)) = subst (Answers P) (sym e) p
  answers {P = P} r (inr (err, e)) = subst (Answers P) (sym e) tt

  reads_whole : ReadsWhole sockets
  unfolding sockets
  reads_whole n t w = answers (read asio (pos n) t w).0 (elim (read-returns asio n t w) [
    | inl (buf, e, l, _) ↦ inl (buf, e, l)
    | inr found ↦ inr found
  ])

  -- Over the socket of socket.cpp, whatever asio does, what try_download returns without an error has the
  -- index that was asked for, exactly the piece's length and the hash that the torrent lists for it, if
  -- the Downloader held a bitfield in case it had a socket.
  pub try_download-over_asio :
      (torrent : TorrentFile) (calc : List ℕ → List ℕ) (fuel : ℕ) (peer : Peer) (index : ℤ)
      (s : Downloader W)
      → IsHealthy s
      → (d : Downloaded) (t : Downloader W)
      → try_download sockets torrent calc fuel peer index s ≡ (returns (ok d), t)
      → IsPiece torrent calc index d
  try_download-over_asio torrent calc fuel peer index s h d t e =
      try_download-IsPiece sockets torrent calc fuel peer index s reads_whole h d t e
