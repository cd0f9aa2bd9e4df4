-- ===== src/Download/Downloader/Transfer/Completion.antt =====
-- src/download/downloader.cpp, try_download on an open connection to a peer that answers every request.
use furrent.Prelude.{
  ℕ, zero, suc, ◌<◌, ◌^◌, ◌≡◌, inl, refl, List, Bool, true, false, length, length-replicate, All,
  Option, some, ok, returns, arith,
}
use furrent.Prelude.Int.{pos, ltb_ℤ, leb_ℤ}
use furrent.Peer.{Peer}
use furrent.Hash.{verify_piece}
use furrent.Torrent.Reading.{TorrentFile}
use furrent.Download.Bitfield.{Bitfield, get}
use furrent.Download.Message.{Message}
use furrent.Download.Downloader.{Sockets, Downloader, ensure_connected}
use furrent.Download.Downloader.Calls.{proceed}
use furrent.Download.Downloader.Delivery.{Delivers, holding}
use furrent.Download.Downloader.Blocks.{blocks_total, piece_length_at, hash_at}
use furrent.Download.Downloader.Transfer.{
  held, start, download_blocks, verified, download_piece, offers, download_from, try_download,
}
use furrent.Download.Downloader.Transfer.Messages.{IsServing, blocks_in, IsBrought, Spells}
use furrent.Download.Downloader.Transfer.Service.{download_blocks-delivered}

module _ (torrent : TorrentFile) (calc : List ℕ → List ℕ) (index : ℕ) (whole hash : List ℕ) where
  -- The torrent has the piece, with these bytes.
  pub record IsPieceOf : Type 0 where
    pub in_range : leb_ℤ torrent.pieces_count (pos index) ≡ false
    pub sized : piece_length_at torrent (pos index) ≡ returns (pos (length whole))
    pub not_empty : 0 < length whole
    pub small_index : index < 2 ^ 32
    pub small_piece : length whole < 2 ^ 32
    pub hashed : hash_at torrent.piece_hashes (pos index) ≡ returns hash
    pub verifies : verify_piece calc whole hash ≡ returns true

  -- The messages are those of a peer that answers the requests for the piece.
  pub record IsAnswer (ms : List Message) : Type 0 where
    pub serving : All (IsServing whole) ms
    pub as_many : blocks_in ms ≡ blocks_total (length whole)
    pub all_bytes : (j : ℕ) → j < length whole → IsBrought j ms

module _ {W : Type 0} (net : Sockets W) (coming : List ℕ → W → Type 0)
    (delivers : Delivers net coming) (torrent : TorrentFile) (calc : List ℕ → List ℕ) (index : ℕ)
    (whole hash : List ℕ) where
  download_piece-some :
      (fuel n : ℕ) (s : Downloader W)
      → 0 < n
      → download_piece net torrent calc fuel (pos index) (pos n) s
        ≡ proceed
            (download_blocks net torrent fuel n (pos index) (start n) s)
            (λ x. verified net torrent calc fuel (pos index) x.content)
  unfolding download_piece
  download_piece-some fuel zero s h = absurd (omega (arith, h))
  download_piece-some fuel (suc n) s h = refl

  started :
      (n : ℕ)
      → ((start n).received ≡ 0) × ((start n).requested ≡ 0) × (length (start n).content ≡ n)
  unfolding start
  started n = (refl, refl, length-replicate {A = ℕ} n 0)

  pub download_piece-delivered :
      (fuel : ℕ) (ms : List Message) (bytes : List ℕ) (choked : Bool) (bf : Option Bitfield) (w : W)
      → IsPieceOf torrent calc index whole hash
      → IsAnswer torrent calc index whole hash ms
      → length ms < fuel
      → Spells torrent.pieces_count ms bytes
      → coming bytes w
      → (choked' : Bool) × (v : W) × (download_piece net torrent calc fuel
            (pos index)
            (pos (length whole))
            (holding net coming delivers choked bf w)
          ≡ (
            returns (ok (record { index = pos index; content = whole })),
            holding net coming delivers choked' bf v,
          ))
  unfolding verified
  download_piece-delivered fuel ms bytes choked bf w p a f s c =
      let (none_received, none_requested, sized) = started (length whole) in
      let (y, choked', v, e, is_whole) =
        download_blocks-delivered net coming delivers torrent index whole p.small_index
          p.small_piece fuel ms bytes (start (length whole)) choked bf w f a.serving s c
          (omega (arith, a.as_many, none_received)) (omega (arith, none_requested)) sized
          (λ j h. inl (a.all_bytes j h)) in
      let first =
        download_piece-some fuel (length whole) (holding net coming delivers choked bf w)
          p.not_empty in
      (choked', v, rw (first, e, is_whole, p.hashed, p.verifies) refl)

  -- If the connection is open and the peer has announced the piece, and if it delivers, in any order and
  -- between messages that tell nothing of pieces, as many blocks as the piece has, with every byte of
  -- the piece in one of them, then try_download returns the piece's bytes, on the same connection.
  pub try_download-delivered :
      (fuel : ℕ) (peer : Peer) (ms : List Message) (bytes : List ℕ) (choked : Bool) (bf : Bitfield)
      (w : W)
      → IsPieceOf torrent calc index whole hash
      → IsAnswer torrent calc index whole hash ms
      → length ms < fuel
      → Spells torrent.pieces_count ms bytes
      → coming bytes w
      → net.is_open w ≡ true
      → get bf (pos index) ≡ returns true
      → (choked' : Bool) × (v : W) × (try_download net torrent calc fuel peer
            (pos index)
            (holding net coming delivers choked (some bf) w)
          ≡ (
            returns (ok (record { index = pos index; content = whole })),
            holding net coming delivers choked' (some bf) v,
          ))
  unfolding try_download download_from offers held ensure_connected
  try_download-delivered fuel peer ms bytes choked bf w p a f s c is_open has =
      let (choked', v, e) = download_piece-delivered fuel ms bytes choked (some bf) w p a f s c in
      let some_piece : leb_ℤ torrent.pieces_count (pos 0) ≡ false = ground (arith, p.in_range) in
      let not_negative : ltb_ℤ (pos index) (pos 0) ≡ false = ground arith in
      (choked', v, rw (some_piece, not_negative, p.in_range, is_open, has, p.sized, e) refl)
