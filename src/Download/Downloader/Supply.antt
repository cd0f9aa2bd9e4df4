-- ===== src/Download/Downloader/Supply.antt =====
-- src/download/downloader.cpp: how far the loop of ensure_connected can go, with a peer that sends finitely many
-- bytes. Every message takes four of them at least.
use furrent.Prelude.{
  ℕ, zero, suc, ◌+◌, ◌≤◌, ◌<◌, inl, inr, List, ◌++◌, ◌&&◌, Result, ok, error, Exec, returns, throws,
  undefined, out_of_fuel, arith, Bool-cases,
}
use furrent.Prelude.Int.{ℤ, pos, pos_part}
use furrent.Peer.{Peer}
use furrent.Hash.{hash_eq}
use furrent.Torrent.Reading.{TorrentFile}
use furrent.Download.Message.{
  Message, DecodeError, keep_alive, choke, unchoke, interested, not_interested, have, bitfield,
  request, piece, encode, decode,
}
use furrent.Download.Socket.{SocketError, Empty, empty}
use furrent.Download.Downloader.{
  Sockets, Downloader, seconds, milliseconds, destroy_socket, attempted, attempt, written, clock,
  send_message, valid_message, recv_message, same_hash, handshake, keep_bitfield, note_unchoke,
  wait_unchoke, reset, connect_anew, ensure_connected, handshake_message, response_hash,
  message_length,
}
use furrent.Download.Downloader.Calls.{
  DownloaderError, different_info_hash, no_bitfield, invalid_message, proceed,
}
use furrent.Download.Downloader.Calls.Finish.{
  Finishes, valid, failed, thrown, broken, Finishes-proceed, Finishes-mono, Finishes-after_lift,
  Finishes-if,
}
use furrent.Download.Downloader.Ended.{encode-IsOver, message_length-IsOver, response_hash-IsOver}

module _ {W : Type 0} (net : Sockets W) (supply : W → ℕ) where
  -- A call of a socket that ends, and takes n bytes of a supply of b when it is valid.
  unfoldable pub Takes : {A : Type 0} → ℕ → ℕ → Exec (Result A SocketError) × W → Type 0
  Takes n b (returns (ok a), w) = supply w + n ≤ b
  Takes n b (out_of_fuel, w) = ⊥
  Takes n b _ = Unit {0}

  -- The peer sends no more than the supply of bytes, over all connections together.
  pub record IsFinite : Type 0 where
    pub creates : (w : W) → supply (net.create w) ≤ supply w
    pub connects :
        (ip port : ℕ) (t : ℤ) (w : W) → Takes 0 (supply w) (written net (net.connect ip port t w))
    pub writes :
        (bytes : List ℕ) (t : ℤ) (w : W) → Takes 0 (supply w) (written net (net.write bytes t w))
    pub reads : (n t : ℤ) (w : W) → Takes (pos_part n) (supply w) (net.read n t w)

  -- So many bytes are left at most.
  abbrev pub Leaves : {A : Type 0} → ℕ → A → Downloader W → Type 0
  Leaves b a s = supply s.world ≤ b

  attempted-Finishes :
      {A : Type 0} (n b : ℕ) (r : Exec (Result A SocketError) × W) (s : Downloader W)
      → Takes n b r
      → Finishes (λ _ u. supply u.world + n ≤ b) (attempted net r s)
  unfolding Takes
  attempted-Finishes n b (returns (ok a), w) s p = valid a _ p
  attempted-Finishes n b (returns (error e), w) s p = failed _ _
  attempted-Finishes n b (throws x, w) s p = thrown x _
  attempted-Finishes n b (undefined, w) s p = broken _
  attempted-Finishes n b (out_of_fuel, w) s p = absurd p

  attempt-Finishes :
      {A : Type 0} (n : ℕ) (call : W → Exec (Result A SocketError) × W) (s : Downloader W)
      → Takes n (supply s.world) (call s.world)
      → Finishes (λ _ u. supply u.world + n ≤ supply s.world) (attempt net call s)
  unfolding attempt
  attempt-Finishes n call s p =
      Finishes-if s.socket (λ _. attempted-Finishes n (supply s.world) (call s.world) s p)
        (λ _. broken s)

  -- An error behind the destruction of the socket.
  dropped-Finishes :
      {A : Type 0} {Q : A → Downloader W → Type 0} (s : Downloader W) (e : DownloaderError)
      → Finishes Q (proceed (destroy_socket net s) (λ _ t. (returns (error e), t)))
  unfolding destroy_socket
  dropped-Finishes s e =
      Finishes-proceed {Q = λ _ _. Unit {0}}
        (Finishes-if s.socket (λ _. valid _ _ tt) (λ _. broken s)) (λ _ u _. failed e u)

  valid_message-Finishes :
      (r : Result Message DecodeError) (s : Downloader W)
      → Finishes (Leaves (supply s.world)) (valid_message net r s)
  unfolding valid_message
  valid_message-Finishes (ok m) s = valid m s (omega arith)
  valid_message-Finishes (error e) s = dropped-Finishes s invalid_message

  module _ (finite : IsFinite) where
    pub send_message-Finishes :
        (m : Message) (t : ℤ) (s : Downloader W)
        → Finishes (λ (_ : Empty) u. supply u.world ≤ supply s.world) (send_message net m t s)
    unfolding send_message
    send_message-Finishes m t s = Finishes-after_lift _ (encode m) s (encode-IsOver m) (λ bytes.
        Finishes-mono (λ _ u l. omega (arith, l))
          (attempt-Finishes 0 (λ w. written net (net.write bytes t w)) s
            (finite.writes bytes t s.world)))

    module _ (torrent : TorrentFile) where
      pub recv_message-Finishes :
          (t : ℤ) (s : Downloader W)
          → Finishes
              (λ (_ : Message) u. supply u.world + 4 ≤ supply s.world)
              (recv_message net torrent t s)
      unfolding recv_message clock
      recv_message-Finishes t s =
          Finishes-proceed
            (attempt-Finishes 4 (net.read (pos 4) t) s (finite.reads (pos 4) t s.world))
            (λ bytes s₁ l₁.
              Finishes-after_lift _ (message_length bytes) s₁ (message_length-IsOver bytes) (λ n.
                Finishes-proceed
                  (attempt-Finishes (pos_part n) (net.read n _) s₁ (finite.reads n _ s₁.world))
                  (λ rest s₂ l₂.
                    Finishes-mono (λ _ u l₃. omega (arith, l₁, l₂, l₃))
                      (valid_message-Finishes (decode torrent.pieces_count (bytes ++ rest)) s₂))))

      handshake-Finishes :
          (s : Downloader W)
          → Finishes (λ (_ : Empty) u. supply u.world ≤ supply s.world) (handshake net torrent s)
      unfolding handshake same_hash
      handshake-Finishes s =
          Finishes-proceed
            (attempt-Finishes 0
              (λ w. written net (net.write (handshake_message torrent.info_hash) (seconds 5) w)) s
              (finite.writes _ _ s.world))
            (λ _ s₁ l₁.
              Finishes-proceed
                (attempt-Finishes 68 (net.read (pos 68) (seconds 5)) s₁
                  (finite.reads (pos 68) (seconds 5) s₁.world))
                (λ response s₂ l₂.
                  Finishes-after_lift _ (response_hash response) s₂ (response_hash-IsOver response)
                    (λ hash. elim (Bool-cases (hash_eq torrent.info_hash hash)) [
                      | inl e ↦ rw e (valid empty s₂ (omega (arith, l₁, l₂)))
                      | inr e ↦ rw e (dropped-Finishes s₂ different_info_hash)
                    ])))

      keep_bitfield-Finishes :
          (m : Message) (s : Downloader W)
          → Finishes (λ (_ : Empty) u. supply u.world ≤ supply s.world) (keep_bitfield net m s)
      unfolding keep_bitfield
      keep_bitfield-Finishes (bitfield bf) s = valid empty _ (omega arith)
      keep_bitfield-Finishes keep_alive s = dropped-Finishes s no_bitfield
      keep_bitfield-Finishes choke s = dropped-Finishes s no_bitfield
      keep_bitfield-Finishes unchoke s = dropped-Finishes s no_bitfield
      keep_bitfield-Finishes interested s = dropped-Finishes s no_bitfield
      keep_bitfield-Finishes not_interested s = dropped-Finishes s no_bitfield
      keep_bitfield-Finishes (have i) s = dropped-Finishes s no_bitfield
      keep_bitfield-Finishes (request i b l) s = dropped-Finishes s no_bitfield
      keep_bitfield-Finishes (piece i b x) s = dropped-Finishes s no_bitfield

      note_unchoke-Finishes :
          (m : Message) (s : Downloader W)
          → Finishes (λ (_ : Empty) u. supply u.world ≤ supply s.world) (note_unchoke net m s)
      unfolding note_unchoke
      note_unchoke-Finishes unchoke s = valid empty _ (omega arith)
      note_unchoke-Finishes keep_alive s = valid empty s (omega arith)
      note_unchoke-Finishes choke s = valid empty s (omega arith)
      note_unchoke-Finishes interested s = valid empty s (omega arith)
      note_unchoke-Finishes not_interested s = valid empty s (omega arith)
      note_unchoke-Finishes (bitfield bf) s = valid empty s (omega arith)
      note_unchoke-Finishes (have i) s = valid empty s (omega arith)
      note_unchoke-Finishes (request i b l) s = valid empty s (omega arith)
      note_unchoke-Finishes (piece i b x) s = valid empty s (omega arith)

      wait_unchoke-Finishes :
          (fuel : ℕ) (s : Downloader W)
          → supply s.world < fuel
          → Finishes
              (λ (_ : Empty) u. supply u.world ≤ supply s.world)
              (wait_unchoke net fuel torrent s)
      unfolding wait_unchoke
      wait_unchoke-Finishes zero s h = absurd (omega (arith, h))
      wait_unchoke-Finishes (suc fuel) s h =
          Finishes-if s.choked
            (λ _.
              Finishes-proceed {Q = λ _ v. supply v.world + 4 ≤ supply s.world}
                (Finishes-proceed (recv_message-Finishes (milliseconds 50) s) (λ m u l.
                  Finishes-mono (λ _ v k. omega (arith, k, l)) (note_unchoke-Finishes m u)))
                (λ _ u l.
                  Finishes-mono (λ _ v k. omega (arith, k, l))
                    (wait_unchoke-Finishes fuel u (omega (arith, h, l)))))
            (λ _. valid empty s (omega arith))

      connect_anew-Finishes :
          (fuel : ℕ) (peer : Peer) (s : Downloader W)
          → supply s.world < fuel
          → Finishes
              (λ (_ : Empty) u. supply u.world ≤ supply s.world)
              (connect_anew net fuel torrent peer s)
      unfolding connect_anew reset
      connect_anew-Finishes fuel peer s h =
          let l₀ = finite.creates s.world in
          Finishes-proceed
            (attempt-Finishes 0 (λ w. written net (net.connect peer.ip peer.port (seconds 5) w)) _
              (finite.connects peer.ip peer.port (seconds 5) (net.create s.world)))
            (λ _ s₁ l₁. Finishes-proceed (handshake-Finishes s₁) (λ _ s₂ l₂.
              Finishes-proceed (recv_message-Finishes (seconds 5) s₂) (λ m s₃ l₃.
                Finishes-proceed (keep_bitfield-Finishes m s₃) (λ _ s₄ l₄.
                  Finishes-proceed (send_message-Finishes unchoke (seconds 5) s₄) (λ _ s₅ l₅.
                    Finishes-proceed (send_message-Finishes interested (seconds 5) s₅) (λ _ s₆ l₆.
                      Finishes-mono (λ _ u l. omega (arith, l₀, l₁, l₂, l₃, l₄, l₅, l₆, l))
                        (wait_unchoke-Finishes fuel _
                          (omega (arith, h, l₀, l₁, l₂, l₃, l₄, l₅, l₆)))))))))

      pub ensure_connected-Finishes :
          (fuel : ℕ) (peer : Peer) (s : Downloader W)
          → supply s.world < fuel
          → Finishes
              (λ (_ : Empty) u. supply u.world ≤ supply s.world)
              (ensure_connected net fuel torrent peer s)
      unfolding ensure_connected
      ensure_connected-Finishes fuel peer s h =
          Finishes-if (s.socket && net.is_open s.world) (λ _. valid empty s (omega arith))
            (λ _. connect_anew-Finishes fuel peer s h)
