-- ===== src/Download/Downloader/Health.antt =====
-- src/download/downloader.cpp, ensure_connected: what the object holds behind the call. "Should be reset
-- when a connection drops", says downloader.hpp of what the object keeps of a peer.
use furrent.Prelude.{
  ℕ, zero, suc, ◌≡◌, ◌⊎◌, inl, inr, refl, ◌∙◌, List, true, false, ◌&&◌, length, take, drop, some,
  returns, arith, Bool-cases,
}
use furrent.Prelude.Int.{pos}
use furrent.Peer.{Peer}
use furrent.Hash.{hash_eq}
use furrent.Torrent.Reading.{TorrentFile}
use furrent.Download.Util.{encode_integer}
use furrent.Download.Bitfield.{Bitfield}
use furrent.Download.Message.{
  Message, keep_alive, choke, unchoke, interested, not_interested, have, bitfield, request, piece,
  encode, encode_framed, encode_payload, message_id,
}
use furrent.Download.Socket.{Empty, empty}
use furrent.Download.Downloader.{
  Sockets, Downloader, seconds, milliseconds, same_hash, handshake, keep_bitfield, note_unchoke,
  wait_unchoke, reset, connect_anew, ensure_connected, handshake_message, info_hash_offset,
}
use furrent.Download.Downloader.Calls.{different_info_hash, no_bitfield}
use furrent.Download.Downloader.Calls.Post.{
  Post, valid, unfinished, Post-proceed, Post-mono, Post-if,
}
use furrent.Download.Downloader.Connection.{
  ReadsWhole, IsKept, IsDropped, attempt-Post, attempt-written, response_hash-long, destroyed-Post,
  recv_message-Post, send_message-Post,
}

-- A Downloader with a socket that holds a bitfield.
abbrev pub IsConnected : {W : Type 0} → Downloader W → Type 0
IsConnected s = (s.socket ≡ true) × ((bf : Bitfield) × (s.bitfield ≡ some bf))

abbrev pub IsHealthy : {W : Type 0} → Downloader W → Type 0
IsHealthy s = IsDropped s ⊎ IsConnected s

abbrev pub HasBytes : (m : Message) → Type 0
HasBytes m = (bytes : List ℕ) × (encode m ≡ returns bytes)

pub unchoke-bytes : HasBytes unchoke
unfolding encode encode_framed encode_payload message_id encode_integer
unchoke-bytes = (_, refl)

pub interested-bytes : HasBytes interested
unfolding encode encode_framed encode_payload message_id encode_integer
interested-bytes = (_, refl)

module _ {W : Type 0} (net : Sockets W) where
  same_hash-Post :
      (info_hash response : List ℕ) (s : Downloader W)
      → s.socket ≡ true
      → Post
          (λ (_ : Empty) u. IsKept s u × (hash_eq info_hash response ≡ true))
          IsDropped
          (same_hash net info_hash response s)
  unfolding same_hash
  same_hash-Post info_hash response s h = elim (Bool-cases (hash_eq info_hash response)) [
    | inl e ↦ rw e (valid empty s ((h, refl, refl), refl))
    | inr e ↦ rw e (destroyed-Post net s different_info_hash h)
  ]

  keep_bitfield-Post :
      (m : Message) (s : Downloader W)
      → s.socket ≡ true
      → Post (λ (_ : Empty) u. IsConnected u) IsDropped (keep_bitfield net m s)
  unfolding keep_bitfield
  keep_bitfield-Post (bitfield bf) s h = valid empty _ (h, (_, refl))
  keep_bitfield-Post keep_alive s h = destroyed-Post net s no_bitfield h
  keep_bitfield-Post choke s h = destroyed-Post net s no_bitfield h
  keep_bitfield-Post unchoke s h = destroyed-Post net s no_bitfield h
  keep_bitfield-Post interested s h = destroyed-Post net s no_bitfield h
  keep_bitfield-Post not_interested s h = destroyed-Post net s no_bitfield h
  keep_bitfield-Post (have i) s h = destroyed-Post net s no_bitfield h
  keep_bitfield-Post (request i b l) s h = destroyed-Post net s no_bitfield h
  keep_bitfield-Post (piece i b x) s h = destroyed-Post net s no_bitfield h

  note_unchoke-Post :
      (m : Message) (s : Downloader W)
      → IsConnected s
      → Post (λ (_ : Empty) u. IsConnected u) IsDropped (note_unchoke net m s)
  unfolding note_unchoke
  note_unchoke-Post unchoke s h = valid empty _ h
  note_unchoke-Post keep_alive s h = valid empty _ h
  note_unchoke-Post choke s h = valid empty _ h
  note_unchoke-Post interested s h = valid empty _ h
  note_unchoke-Post not_interested s h = valid empty _ h
  note_unchoke-Post (bitfield bf) s h = valid empty _ h
  note_unchoke-Post (have i) s h = valid empty _ h
  note_unchoke-Post (request i b l) s h = valid empty _ h
  note_unchoke-Post (piece i b x) s h = valid empty _ h

  pub kept : (s u : Downloader W) → IsConnected s → IsKept s u → IsConnected u
  kept s u (h, (bf, e)) k = (k.0, (bf, k.2 ∙ e))

  module _ (reads : ReadsWhole net) (torrent : TorrentFile) where
    wait_unchoke-Post :
        (fuel : ℕ) (s : Downloader W)
        → IsConnected s
        → Post
            (λ (_ : Empty) u. IsConnected u × (u.choked ≡ false))
            IsDropped
            (wait_unchoke net fuel torrent s)
    unfolding wait_unchoke
    wait_unchoke-Post zero s h = unfinished s
    wait_unchoke-Post (suc fuel) s h =
        Post-if s.choked
          (λ _.
            Post-proceed
              (Post-proceed (recv_message-Post net reads torrent (milliseconds 50) s h.0)
                (λ m u k. note_unchoke-Post m u (kept s u h k)))
              (λ _ u k. wait_unchoke-Post fuel u k))
          (λ e. valid empty s (h, e))

    pub handshake-Post :
        (s : Downloader W)
        → s.socket ≡ true
        → Post (λ (_ : Empty) u. IsKept s u) IsDropped (handshake net torrent s)
    unfolding handshake
    handshake-Post s h =
        Post-proceed
          (attempt-written net (net.write (handshake_message torrent.info_hash) (seconds 5)) s h)
          (λ _ s₁ k₁.
            Post-proceed
              (attempt-Post net {P = λ r. length r ≡ 68} (net.read (pos 68) (seconds 5)) s₁
                (reads 68 (seconds 5) s₁.world) k₁.0)
              (λ response s₂ (k₂, l). rw (response_hash-long response l) (
                Post-mono (λ _ u (k, _). (k.0, k.1 ∙ k₂.1 ∙ k₁.1, k.2 ∙ k₂.2 ∙ k₁.2)) (λ u d. d)
                  (same_hash-Post torrent.info_hash (take 20 (drop info_hash_offset response)) s₂
                    k₂.0))))

    connect_anew-Post :
        (fuel : ℕ) (peer : Peer) (s : Downloader W)
        → Post (λ (_ : Empty) u. IsConnected u) IsDropped (connect_anew net fuel torrent peer s)
    unfolding connect_anew reset
    connect_anew-Post fuel peer s =
        Post-proceed (attempt-written net (net.connect peer.ip peer.port (seconds 5)) _ refl)
          (λ _ s₁ k₁. Post-proceed (handshake-Post s₁ k₁.0) (λ _ s₂ k₂.
            Post-proceed (recv_message-Post net reads torrent (seconds 5) s₂ k₂.0) (λ m s₃ k₃.
              Post-proceed (keep_bitfield-Post m s₃ k₃.0) (λ _ s₄ c₄.
                Post-proceed
                  (send_message-Post net reads torrent unchoke _ (seconds 5) s₄ unchoke-bytes.1
                    c₄.0)
                  (λ _ s₅ k₅.
                    Post-proceed
                      (send_message-Post net reads torrent interested _ (seconds 5) s₅
                        interested-bytes.1 k₅.0)
                      (λ _ s₆ k₆.
                        Post-mono (λ _ u c. c.0) (λ u d. d)
                          (wait_unchoke-Post fuel _ (kept s₅ s₆ (kept s₄ s₅ c₄ k₅) k₆))))))))

    pub ensure_connected-Post :
        (fuel : ℕ) (peer : Peer) (s : Downloader W)
        → IsHealthy s
        → Post (λ (_ : Empty) u. IsConnected u) IsDropped (ensure_connected net fuel torrent peer s)
    unfolding ensure_connected
    ensure_connected-Post fuel peer s h =
        Post-if (s.socket && net.is_open s.world)
          (λ e. valid empty s (elim h [ inl d ↦ absurd (ground (arith, d, e)) | inr c ↦ c ]))
          (λ _. connect_anew-Post fuel peer s)
