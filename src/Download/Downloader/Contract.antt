-- ===== src/Download/Downloader/Contract.antt =====
-- src/download/downloader.hpp: what try_download promises its caller.
use furrent.Prelude.{ℕ, ◌<◌, ◌≡◌, ◌≢◌, inr, List, ok, returns, out_of_fuel}
use furrent.Prelude.Int.{ℤ}
use furrent.Peer.{Peer}
use furrent.Torrent.Reading.{TorrentFile}
use furrent.Download.Downloader.{Sockets, Downloader}
use furrent.Download.Downloader.Calls.Post.{Post_end, Post-value}
use furrent.Download.Downloader.Calls.Finish.{Finishes-not_out}
use furrent.Download.Downloader.Connection.{ReadsWhole}
use furrent.Download.Downloader.Announced.{HoldsAnnounced}
use furrent.Download.Downloader.Transfer.Announcing.{try_download-Holding}
use furrent.Download.Downloader.Health.{IsHealthy}
use furrent.Download.Downloader.Supply.{IsFinite}
use furrent.Download.Downloader.Transfer.{Downloaded, try_download}
use furrent.Download.Downloader.Transfer.Safety.{IsPiece, try_download-Post}
use furrent.Download.Downloader.Transfer.Termination.{try_download-Finishes}

module _ {W : Type 0} (net : Sockets W) (torrent : TorrentFile) (calc : List ℕ → List ℕ) (fuel : ℕ)
    (peer : Peer) (index : ℤ) (s : Downloader W) where
  -- If a read of n bytes answers n bytes or an error, and the Downloader holds a bitfield whenever it has
  -- a socket, then what try_download returns without an error,
  -- whatever the peer has sent, has the index that was asked for, exactly the piece's length, which is
  -- shorter for the last piece, and the hash that the torrent lists for it.
  pub try_download-IsPiece :
      ReadsWhole net
      → IsHealthy s
      → (d : Downloaded) (t : Downloader W)
      → try_download net torrent calc fuel peer index s ≡ (returns (ok d), t)
      → IsPiece torrent calc index d
  try_download-IsPiece reads h d t e =
      let (c, p) = Post-value (try_download-Post net reads torrent calc fuel peer index s h) e in p

  -- If the peer sends finitely many bytes, fewer than the fuel, both loops of try_download end: the
  -- call returns, throws or is undefined.
  pub try_download-ends :
      (supply : W → ℕ)
      → IsFinite net supply
      → supply s.world < fuel
      → (try_download net torrent calc fuel peer index s).0 ≢ out_of_fuel
  try_download-ends supply finite l =
      Finishes-not_out (try_download-Finishes net supply finite torrent calc fuel peer index s l)

  -- With such reads and such a peer, however the call of try_download ends, exceptions included: a
  -- Downloader that holds a bitfield whenever it has a socket is one again, and if the bitfield that it
  -- holds, if any, is one that a call of recv_message returns, with the pieces of Have messages that
  -- calls of recv_message return, then so is the bitfield that it holds then.
  pub try_download-IsHealthy :
      (supply : W → ℕ)
      → ReadsWhole net
      → IsFinite net supply
      → supply s.world < fuel
      → IsHealthy s
      → HoldsAnnounced net torrent s
      → IsHealthy (try_download net torrent calc fuel peer index s).1
        × HoldsAnnounced net torrent (try_download net torrent calc fuel peer index s).1
  try_download-IsHealthy supply reads finite l h announced =
      let ends = try_download-ends supply finite l in
      (
        Post_end (λ d u (c, p). inr c) ends
            (try_download-Post net reads torrent calc fuel peer index s h),
        Post_end (λ d u k. k) ends
            (try_download-Holding net torrent calc fuel peer index s announced),
      )
