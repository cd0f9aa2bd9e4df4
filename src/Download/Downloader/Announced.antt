-- ===== src/Download/Downloader/Announced.antt =====
-- src/download/downloader.cpp, up to ensure_connected: where the bitfield of a Downloader comes from.
use furrent.Prelude.{
  ℕ, zero, suc, ◌≡◌, refl, List, ◌++◌, inl, inr, Bool-cases, ◌&&◌, Option, none, some, Result, ok,
  error, Exec, returns, throws, undefined, out_of_fuel,
}
use furrent.Prelude.Int.{ℤ, pos}
use furrent.Peer.{Peer}
use furrent.Hash.{hash_eq}
use furrent.Torrent.Reading.{TorrentFile}
use furrent.Download.Bitfield.{Bitfield, set_bit, over_storage, get_bytes}
use furrent.Download.Message.{
  Message, keep_alive, choke, unchoke, interested, not_interested, have, bitfield, request, piece,
  DecodeError, encode, decode,
}
use furrent.Download.Socket.{SocketError, empty}
use furrent.Download.Downloader.{
  Sockets, Downloader, seconds, milliseconds, destroy_socket, attempted, attempt, written, clock,
  send_message, valid_message, recv_message, message_length, response_hash, same_hash, handshake,
  handshake_message, handshake_length, keep_bitfield, note_unchoke, wait_unchoke, reset,
  connect_anew, ensure_connected,
}
use furrent.Download.Downloader.Calls.{
  DownloaderError, proceed, refuse, invalid_message, different_info_hash, no_bitfield,
}
use furrent.Download.Downloader.Calls.Post.{
  Post, valid, failed, thrown, broken, unfinished, Post-proceed, Post-mono, Post-after_lift,
  Post-if,
}

module _ {W : Type 0} (net : Sockets W) (torrent : TorrentFile) where
  -- Some call of recv_message returns the message.
  abbrev pub IsReceived : Message → Type 0
  IsReceived m =
      (t : ℤ) × (s : Downloader W) × (u : Downloader W) × (recv_message net torrent t s
        ≡ (returns (ok m), u))

  -- A bitfield that a peer has sent, with the pieces that it has announced since.
  pub data IsAnnounced : Bitfield → Type 0 where
    sent : (bf : Bitfield) → IsReceived (bitfield bf) → IsAnnounced bf
    noted :
        {bf : Bitfield} (index : ℤ) (new : Bitfield)
        → IsAnnounced bf
        → IsReceived (have index)
        → set_bit bf index ≡ returns new
        → IsAnnounced new

  abbrev IsNoneOr : Option Bitfield → Type 0
  IsNoneOr none = Unit {0}
  IsNoneOr (some bf) = IsAnnounced bf

  -- The bitfield of a Downloader, if it has one, is such a bitfield.
  abbrev pub HoldsAnnounced : Downloader W → Type 0
  HoldsAnnounced s = IsNoneOr s.bitfield

  -- A call that leaves it so, however it ends.
  abbrev pub Holding : {A : Type 0} → Exec (Result A DownloaderError) × Downloader W → Type 0
  Holding m = Post (λ a u. HoldsAnnounced u) HoldsAnnounced m

  -- A valid call with what it has returned.
  pub Holding-call :
      {A : Type 0} (m : Exec (Result A DownloaderError) × Downloader W)
      → Holding m
      → Post (λ a u. HoldsAnnounced u × (m ≡ (returns (ok a), u))) HoldsAnnounced m
  Holding-call (_, _) (valid a s h) = valid a s (h, refl)
  Holding-call (_, _) (failed e s h) = failed e s h
  Holding-call (_, _) (thrown x s h) = thrown x s h
  Holding-call (_, _) (broken s h) = broken s h
  Holding-call (_, _) (unfinished s) = unfinished s

  attempted-Holding :
      {A : Type 0} (r : Exec (Result A SocketError) × W) (s : Downloader W)
      → HoldsAnnounced s
      → Holding (attempted net r s)
  attempted-Holding (returns (ok a), w) s h = valid a _ h
  attempted-Holding (returns (error e), w) s h = failed _ _ h
  attempted-Holding (throws x, w) s h = thrown x _ h
  attempted-Holding (undefined, w) s h = broken _ h
  attempted-Holding (out_of_fuel, w) s h = unfinished _

  attempt-Holding :
      {A : Type 0} (call : W → Exec (Result A SocketError) × W) (s : Downloader W)
      → HoldsAnnounced s
      → Holding (attempt net call s)
  unfolding attempt
  attempt-Holding call s h =
      Post-if s.socket (λ _. attempted-Holding (call s.world) s h) (λ _. broken s h)

  destroyed-Holding :
      {A : Type 0} (e : DownloaderError) (s : Downloader W)
      → HoldsAnnounced s
      → Holding {A = A} (proceed (destroy_socket net s) (λ _. refuse e))
  unfolding destroy_socket
  destroyed-Holding e s h =
      Post-proceed {Q = λ _ u. HoldsAnnounced u}
        (Post-if s.socket (λ _. valid empty _ h) (λ _. broken s h)) (λ _ u k. failed e u k)

  pub send_message-Holding :
      (m : Message) (t : ℤ) (s : Downloader W) → HoldsAnnounced s → Holding (send_message net m t s)
  unfolding send_message
  send_message-Holding m t s h =
      Post-after_lift _ (encode m) s h
        (λ bytes _. attempt-Holding (λ w. written net (net.write bytes t w)) s h)

  valid_message-Holding :
      (r : Result Message DecodeError) (s : Downloader W)
      → HoldsAnnounced s
      → Holding (valid_message net r s)
  unfolding valid_message
  valid_message-Holding (ok m) s h = valid m s h
  valid_message-Holding (error e) s h = destroyed-Holding invalid_message s h

  recv_message-kept :
      (t : ℤ) (s : Downloader W) → HoldsAnnounced s → Holding (recv_message net torrent t s)
  unfolding recv_message clock
  recv_message-kept t s h = Post-proceed (attempt-Holding (net.read (pos 4) t) s h) (λ bytes s₁ h₁.
      Post-after_lift _ (message_length bytes) s₁ h₁ (λ n _.
        Post-proceed (attempt-Holding (net.read n _) s₁ h₁) (λ rest s₂ h₂.
          valid_message-Holding (decode torrent.pieces_count (bytes ++ rest)) s₂ h₂)))

  pub recv_message-Holding :
      (t : ℤ) (s : Downloader W)
      → HoldsAnnounced s
      → Post (λ m u. HoldsAnnounced u × IsReceived m) HoldsAnnounced (recv_message net torrent t s)
  recv_message-Holding t s h =
      Post-mono (λ m u (k, e). (k, (t, s, u, e))) (λ u k. k)
        (Holding-call (recv_message net torrent t s) (recv_message-kept t s h))

  same_hash-Holding :
      (info_hash found : List ℕ) (s : Downloader W)
      → HoldsAnnounced s
      → Holding (same_hash net info_hash found s)
  unfolding same_hash
  same_hash-Holding info_hash found s h = elim (Bool-cases (hash_eq info_hash found)) [
    | inl e ↦ rw e (valid empty s h)
    | inr e ↦ rw e (destroyed-Holding different_info_hash s h)
  ]

  handshake-Holding : (s : Downloader W) → HoldsAnnounced s → Holding (handshake net torrent s)
  unfolding handshake
  handshake-Holding s h =
      Post-proceed
        (attempt-Holding
          (λ w. written net (net.write (handshake_message torrent.info_hash) (seconds 5) w)) s h)
        (λ _ s₁ h₁.
          Post-proceed (attempt-Holding (net.read (pos handshake_length) (seconds 5)) s₁ h₁)
            (λ response s₂ h₂.
              Post-after_lift _ (response_hash response) s₂ h₂
                (λ found _. same_hash-Holding torrent.info_hash found s₂ h₂)))

  keep_bitfield-Holding :
      (m : Message) (s : Downloader W)
      → IsReceived m
      → HoldsAnnounced s
      → Holding (keep_bitfield net m s)
  unfolding keep_bitfield over_storage get_bytes
  keep_bitfield-Holding (bitfield bf) s r h = valid empty _ (sent bf r)
  keep_bitfield-Holding keep_alive s r h = destroyed-Holding no_bitfield s h
  keep_bitfield-Holding choke s r h = destroyed-Holding no_bitfield s h
  keep_bitfield-Holding unchoke s r h = destroyed-Holding no_bitfield s h
  keep_bitfield-Holding interested s r h = destroyed-Holding no_bitfield s h
  keep_bitfield-Holding not_interested s r h = destroyed-Holding no_bitfield s h
  keep_bitfield-Holding (have i) s r h = destroyed-Holding no_bitfield s h
  keep_bitfield-Holding (request i b l) s r h = destroyed-Holding no_bitfield s h
  keep_bitfield-Holding (piece i b x) s r h = destroyed-Holding no_bitfield s h

  note_unchoke-Holding :
      (m : Message) (s : Downloader W) → HoldsAnnounced s → Holding (note_unchoke net m s)
  unfolding note_unchoke
  note_unchoke-Holding unchoke s h = valid empty _ h
  note_unchoke-Holding keep_alive s h = valid empty _ h
  note_unchoke-Holding choke s h = valid empty _ h
  note_unchoke-Holding interested s h = valid empty _ h
  note_unchoke-Holding not_interested s h = valid empty _ h
  note_unchoke-Holding (bitfield bf) s h = valid empty _ h
  note_unchoke-Holding (have i) s h = valid empty _ h
  note_unchoke-Holding (request i b l) s h = valid empty _ h
  note_unchoke-Holding (piece i b x) s h = valid empty _ h

  wait_unchoke-Holding :
      (fuel : ℕ) (s : Downloader W) → HoldsAnnounced s → Holding (wait_unchoke net fuel torrent s)
  unfolding wait_unchoke
  wait_unchoke-Holding zero s h = unfinished s
  wait_unchoke-Holding (suc fuel) s h =
      Post-if s.choked
        (λ _.
          Post-proceed
            (Post-proceed (recv_message-Holding (milliseconds 50) s h)
              (λ m u (k, _). note_unchoke-Holding m u k))
            (λ _ u k. wait_unchoke-Holding fuel u k))
        (λ _. valid empty s h)

  connect_anew-Holding :
      (fuel : ℕ) (peer : Peer) (s : Downloader W)
      → HoldsAnnounced s
      → Holding (connect_anew net fuel torrent peer s)
  unfolding connect_anew reset
  connect_anew-Holding fuel peer s h =
      Post-proceed
        (attempt-Holding (λ w. written net (net.connect peer.ip peer.port (seconds 5) w)) _ h)
        (λ _ s₁ h₁. Post-proceed (handshake-Holding s₁ h₁) (λ _ s₂ h₂.
          Post-proceed (recv_message-Holding (seconds 5) s₂ h₂) (λ m s₃ (h₃, r).
            Post-proceed (keep_bitfield-Holding m s₃ r h₃) (λ _ s₄ h₄.
              Post-proceed (send_message-Holding unchoke (seconds 5) s₄ h₄) (λ _ s₅ h₅.
                Post-proceed (send_message-Holding interested (seconds 5) s₅ h₅)
                  (λ _ s₆ h₆. wait_unchoke-Holding fuel _ h₆))))))

  pub ensure_connected-Holding :
      (fuel : ℕ) (peer : Peer) (s : Downloader W)
      → HoldsAnnounced s
      → Holding (ensure_connected net fuel torrent peer s)
  unfolding ensure_connected
  ensure_connected-Holding fuel peer s h =
      Post-if (s.socket && net.is_open s.world) (λ _. valid empty s h)
        (λ _. connect_anew-Holding fuel peer s h)
