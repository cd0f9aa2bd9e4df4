-- ===== src/Download/Downloader/Delivery.antt =====
-- src/download/downloader.cpp: the messages of a peer whose bytes arrive in time.
use furrent.Prelude.{
  ℕ, ◌≡◌, refl, ap, subst, List, [], ◌∷◌, ◌++◌, Bool, true, length, Option, Result, ok, Exec,
  returns,
}
use furrent.Prelude.Int.{ℤ, pos}
use furrent.Torrent.Reading.{TorrentFile}
use furrent.Download.Util.{decode_integer}
use furrent.Download.Bitfield.{Bitfield}
use furrent.Download.Message.{Message, encode, decode}
use furrent.Download.Message.RoundTrip.{IsSendable, decode-encode}
use furrent.Download.Socket.{SocketError, empty}
use furrent.Download.Downloader.{
  Sockets, Downloader, less_elapsed, attempted, attempt, written, clock, send_message,
  valid_message, recv_message, message_length,
}

-- `coming bytes w`: in the state w the peer has sent at least these bytes, which are not read yet. They
-- arrive in order before any timeout, and what is written is accepted.
pub record Delivers {W : Type 0} (net : Sockets W) (coming : List ℕ → W → Type 0) : Type 0 where
  pub reads :
      (bytes rest : List ℕ) (t : ℤ) (w : W)
      → coming (bytes ++ rest) w
      → (v : W) × (net.read (pos (length bytes)) t w ≡ (returns (ok bytes), v)) × coming rest v
  pub writes :
      (out bytes : List ℕ) (t : ℤ) (w : W)
      → coming bytes w
      → (v : W) × (net.write out t w ≡ (ok empty, v)) × coming bytes v

module _ {W : Type 0} (net : Sockets W) (coming : List ℕ → W → Type 0)
    (delivers : Delivers net coming) where
  -- A Downloader with a socket.
  abbrev pub holding : Bool → Option Bitfield → W → Downloader W
  holding choked bf w = record { world = w; socket = true; choked = choked; bitfield = bf }

  module _ (choked : Bool) (bf : Option Bitfield) where
    pub attempt-returns :
        {A : Type 0} (call : W → Exec (Result A SocketError) × W) (w v : W) (a : A)
        → call w ≡ (returns (ok a), v)
        → attempt net call (holding choked bf w) ≡ (returns (ok a), holding choked bf v)
    unfolding attempt
    attempt-returns call w v a e = ap (λ r. attempted net r (holding choked bf w)) e

    pub send_message-delivered :
        (m : Message) (out bytes : List ℕ) (t : ℤ) (w : W)
        → encode m ≡ returns out
        → coming bytes w
        → (v : W) × (send_message net m t (holding choked bf w)
            ≡ (returns (ok empty), holding choked bf v))
          × coming bytes v
    unfolding send_message
    send_message-delivered m out bytes t w e c =
        let (v, s, d) = delivers.writes out bytes t w c in
        (
          v,
          rw e (
              attempt-returns (λ x. written net (net.write out t x)) w v empty
                (ap (written net) s)),
          d,
        )

    recv_bytes :
        (torrent : TorrentFile) (m : Message) (b₀ b₁ b₂ b₃ : ℕ) (body rest : List ℕ) (t : ℤ) (w : W)
        → decode_integer b₀ b₁ b₂ b₃ ≡ pos (length body)
        → decode torrent.pieces_count (b₀ ∷ b₁ ∷ b₂ ∷ b₃ ∷ body) ≡ ok m
        → coming (b₀ ∷ b₁ ∷ b₂ ∷ b₃ ∷ (body ++ rest)) w
        → (v : W) × (recv_message net torrent t (holding choked bf w)
            ≡ (returns (ok m), holding choked bf v))
          × coming rest v
    unfolding recv_message clock message_length valid_message
    recv_bytes torrent m b₀ b₁ b₂ b₃ body rest t w l d c =
        let (u, e, c₁) = delivers.reads (b₀ ∷ b₁ ∷ b₂ ∷ b₃ ∷ []) (body ++ rest) t w c in
        let (v, f, c₂) = delivers.reads body rest (less_elapsed t (net.now w) (net.now u)) u c₁ in
        let first = attempt-returns (net.read (pos 4) t) w u (b₀ ∷ b₁ ∷ b₂ ∷ b₃ ∷ []) e in
        let second =
          attempt-returns (net.read (pos (length body)) (less_elapsed t (net.now w) (net.now u))) u
            v body f in
        (v, rw (first, l, second, d) refl, c₂)

    -- If the peer has sent the bytes of a message that fits the wire format, and they arrive,
    -- recv_message returns that message, has read its bytes and no others, and keeps the connection.
    pub recv_message-encode :
        (torrent : TorrentFile) (m : Message) (out rest : List ℕ) (t : ℤ) (w : W)
        → IsSendable torrent.pieces_count m
        → encode m ≡ returns out
        → coming (out ++ rest) w
        → (v : W) × (recv_message net torrent t (holding choked bf w)
            ≡ (returns (ok m), holding choked bf v))
          × coming rest v
    recv_message-encode torrent m out rest t w h e c =
        let (b₀, b₁, b₂, b₃, body, written_as, l, d) = decode-encode torrent.pieces_count m h in
        let same : out ≡ b₀ ∷ b₁ ∷ b₂ ∷ b₃ ∷ body = cc in
        recv_bytes torrent m b₀ b₁ b₂ b₃ body rest t w l d
          (subst (λ bytes. coming (bytes ++ rest) w) same c)
