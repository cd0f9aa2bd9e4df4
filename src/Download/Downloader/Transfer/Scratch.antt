-- ===== src/Download/Downloader/Transfer/Scratch.antt =====
-- src/download/downloader.cpp, try_download of a new Downloader, from the connection to the piece.
use furrent.Prelude.{
  ℕ, suc, ◌<◌, ◌≡◌, inl, inr, refl, ap, ◌∙◌, List, [], ◌∷◌, ◌++◌, true, false, length, Option, none,
  some, ok, returns, arith,
}
use furrent.Prelude.Int.{pos, ltb_ℤ, leb_ℤ}
use furrent.Peer.{Peer}
use furrent.Torrent.Reading.{TorrentFile}
use furrent.Download.Util.{encode_integer}
use furrent.Download.Bitfield.{Bitfield, over_storage, get_bytes, get}
use furrent.Download.Message.{
  Message, unchoke, interested, bitfield, encode, encode_framed, encode_payload, message_id,
}
use furrent.Download.Message.RoundTrip.{IsSendable}
use furrent.Download.Socket.{empty}
use furrent.Download.Downloader.{
  Sockets, Downloader, new_downloader, seconds, milliseconds, written, handshake_message,
  keep_bitfield, note_unchoke, wait_unchoke, reset, connect_anew, ensure_connected,
}
use furrent.Download.Downloader.Health.{interested-bytes}
use furrent.Download.Downloader.Delivery.{
  Delivers, holding, attempt-returns, send_message-delivered, recv_message-encode,
}
use furrent.Download.Downloader.Handshake.{handshake_meets}
use furrent.Download.Downloader.Transfer.{held, offers, download_from, try_download}
use furrent.Download.Downloader.Transfer.Messages.{Spells}
use furrent.Download.Downloader.Transfer.Completion.{IsPieceOf, IsAnswer, download_piece-delivered}

abbrev pub unchoke_frame : List ℕ
unchoke_frame = 0 ∷ 0 ∷ 0 ∷ 1 ∷ 1 ∷ []

encode-unchoke : encode unchoke ≡ returns unchoke_frame
unfolding encode encode_framed encode_payload encode_integer message_id
encode-unchoke = refl

module _ {W : Type 0} (net : Sockets W) (coming : List ℕ → W → Type 0)
    (delivers : Delivers net coming) (torrent : TorrentFile) where
  -- What the peer sends in front of its pieces: handshake, bitfield and unchoke.
  abbrev pub opening : List ℕ → List ℕ → List ℕ → List ℕ
  opening bitfield_bytes unchoke_bytes rest =
      handshake_message torrent.info_hash ++ (bitfield_bytes ++ (unchoke_bytes ++ rest))

  -- The Downloader keeps a copy of the bitfield that it has received.
  abbrev pub copied : Bitfield → Bitfield
  copied f = over_storage (get_bytes f) f.len

  wait_unchoke-delivered :
      (fuel : ℕ) (bf : Option Bitfield) (rest : List ℕ) (w : W)
      → coming (unchoke_frame ++ rest) w
      → (v : W) × (wait_unchoke net (suc (suc fuel)) torrent (holding net coming delivers true bf w)
          ≡ (returns (ok empty), holding net coming delivers false bf v))
        × coming rest v
  unfolding wait_unchoke note_unchoke
  wait_unchoke-delivered fuel bf rest w c =
      let (v, e, d) =
        recv_message-encode net coming delivers true bf torrent unchoke unchoke_frame rest
          (milliseconds 50) w tt encode-unchoke c in
      (v, rw e refl, d)

  connect_anew-delivered :
      (fuel : ℕ) (peer : Peer) (f : Bitfield) (out rest : List ℕ) (w v : W)
      → length torrent.info_hash ≡ 20
      → IsSendable torrent.pieces_count (bitfield f)
      → encode (bitfield f) ≡ returns out
      → net.connect peer.ip peer.port (seconds 5) (net.create w) ≡ (ok empty, v)
      → coming (opening out unchoke_frame rest) v
      → (u : W) × (connect_anew net (suc (suc fuel)) torrent peer (new_downloader w)
          ≡ (returns (ok empty), holding net coming delivers false (some (copied f)) u))
        × coming rest u
  unfolding connect_anew reset new_downloader keep_bitfield
  connect_anew-delivered fuel peer f out rest w v l sendable e dial c =
      let dialled =
        attempt-returns net coming delivers true none
          (λ x. written net (net.connect peer.ip peer.port (seconds 5) x)) (net.create w) v empty
          (ap (written net) dial) in
      elim (handshake_meets net coming delivers torrent true none torrent.info_hash
        (out ++ (unchoke_frame ++ rest)) v l c) [
          | inr (other, _) ↦ absurd (other refl)
          | inl (_, (w₁, shaken, c₁)) ↦
              let (w₂, got, c₂) =
                recv_message-encode net coming delivers true none torrent (bitfield f) out
                  (unchoke_frame ++ rest) (seconds 5) w₁ sendable e c₁ in
              let (w₃, s₃, c₃) =
                send_message-delivered net coming delivers true (some (copied f)) unchoke
                  unchoke_frame (unchoke_frame ++ rest) (seconds 5) w₂ encode-unchoke c₂ in
              let (w₄, s₄, c₄) =
                send_message-delivered net coming delivers true (some (copied f)) interested
                  interested-bytes.0 (unchoke_frame ++ rest) (seconds 5) w₃ interested-bytes.1 c₃ in
              let (u, waited, c₅) = wait_unchoke-delivered fuel (some (copied f)) rest w₄ c₄ in
              (u, rw (dialled, shaken, got, s₃, s₄, waited) refl, c₅)
        ]

  ensured :
      (fuel : ℕ) (peer : Peer) (w : W)
      → ensure_connected net fuel torrent peer (new_downloader w)
        ≡ connect_anew net fuel torrent peer (new_downloader w)
  unfolding ensure_connected new_downloader
  ensured fuel peer w = refl

  -- If a new Downloader reaches the peer, and the peer shakes hands for the torrent, sends a bitfield
  -- with the piece, unchokes, and delivers, in any order and between messages that tell nothing of
  -- pieces, as many blocks as the piece has, with every byte of it in one of them, then with fuel for
  -- its messages try_download returns the piece's bytes.
  pub try_download-new :
      (calc : List ℕ → List ℕ) (index : ℕ) (whole hash : List ℕ) (fuel : ℕ) (peer : Peer)
      (f : Bitfield) (out : List ℕ) (ms : List Message) (bytes : List ℕ) (w v : W)
      → IsPieceOf torrent calc index whole hash
      → IsAnswer torrent calc index whole hash ms
      → length torrent.info_hash ≡ 20
      → IsSendable torrent.pieces_count (bitfield f)
      → encode (bitfield f) ≡ returns out
      → get (copied f) (pos index) ≡ returns true
      → length ms < suc (suc fuel)
      → Spells torrent.pieces_count ms bytes
      → net.connect peer.ip peer.port (seconds 5) (net.create w) ≡ (ok empty, v)
      → coming (opening out unchoke_frame bytes) v
      → (s : Downloader W) × (try_download net torrent calc
            (suc (suc fuel))
            peer
            (pos index)
            (new_downloader w)
          ≡ (returns (ok (record { index = pos index; content = whole })), s))
  unfolding try_download download_from offers held
  try_download-new calc index whole hash fuel peer f out ms bytes w v p a l sendable e has enough
        spelled dial c =
      let (u, connected, c₁) =
        connect_anew-delivered fuel peer f out bytes w v l sendable e dial c in
      let (choked, t, done) =
        download_piece-delivered net coming delivers torrent calc index whole hash (suc (suc fuel))
          ms bytes false (some (copied f)) u p a enough spelled c₁ in
      let some_piece : leb_ℤ torrent.pieces_count (pos 0) ≡ false = ground (arith, p.in_range) in
      let not_negative : ltb_ℤ (pos index) (pos 0) ≡ false = ground arith in
      (
        holding net coming delivers choked (some (copied f)) t,
        rw
            (
              some_piece,
              not_negative,
              p.in_range,
              ensured (suc (suc fuel)) peer w ∙ connected,
              has,
              p.sized,
              done,
            )
            refl,
      )
