-- ===== src/Download/Downloader/Connection.antt =====
-- src/download/downloader.cpp: the calls of the socket up to ensure_connected, and what they leave of the
-- Downloader. A step either keeps the socket, or drops it.
use furrent.Prelude.{
  ℕ, ◌≡◌, refl, sym, ◌∙◌, subst, List, [], ◌∷◌, ◌++◌, true, false, length, ltb, Result, ok, error,
  Exec, returns, throws, undefined, out_of_fuel, arith, if-true, if-false, take, drop,
}
use furrent.Prelude.Int.{ℤ, pos}
use furrent.Torrent.Reading.{TorrentFile}
use furrent.Download.Util.{decode_integer}
use furrent.Download.Message.{Message, DecodeError, encode, decode}
use furrent.Download.Socket.{SocketError, Empty, empty}
use furrent.Download.Downloader.{
  Sockets, Downloader, destroy_socket, attempted, attempt, written, clock, send_message,
  valid_message, recv_message, response_hash, message_length, info_hash_offset,
}
use furrent.Download.Downloader.Calls.{DownloaderError, invalid_message, proceed}
use furrent.Download.Downloader.Calls.Post.{Post, valid, failed, Post-proceed, Post-mono, Post-if}

-- The call of a socket returns, with a value of which P holds or with an error.
unfoldable pub Answers : {A : Type 0} → (A → Type 0) → Exec (Result A SocketError) → Type 0
Answers P (returns (ok a)) = P a
Answers P (returns (error e)) = Unit {0}
Answers P _ = ⊥

-- A read of n bytes returns them all, or an error.
abbrev pub ReadsWhole : {W : Type 0} → Sockets W → Type 0
ReadsWhole {W} net =
    (n : ℕ) (t : ℤ) (w : W) → Answers (λ bytes. length bytes ≡ n) (net.read (pos n) t w).0

-- The socket is there still, and nothing else has changed.
abbrev pub IsKept : {W : Type 0} → Downloader W → Downloader W → Type 0
IsKept s t = (t.socket ≡ true) × (t.choked ≡ s.choked) × (t.bitfield ≡ s.bitfield)

abbrev pub IsDropped : {W : Type 0} → Downloader W → Type 0
IsDropped s = s.socket ≡ false

pub message_length-four :
    (bytes : List ℕ) → length bytes ≡ 4 → (n : ℕ) × (message_length bytes ≡ returns (pos n))
unfolding message_length decode_integer
message_length-four (b₀ ∷ b₁ ∷ b₂ ∷ b₃ ∷ rest) l = (_, refl)
message_length-four (b₀ ∷ b₁ ∷ b₂ ∷ []) l = absurd (omega (arith, l))
message_length-four (b₀ ∷ b₁ ∷ []) l = absurd (omega (arith, l))
message_length-four (b₀ ∷ []) l = absurd (omega (arith, l))
message_length-four [] l = absurd (omega (arith, l))

pub response_hash-long :
    (bytes : List ℕ)
    → length bytes ≡ 68
    → response_hash bytes ≡ returns (take 20 (drop info_hash_offset bytes))
unfolding response_hash
response_hash-long bytes l = if-false {b = ltb (length bytes) 48} _ _ (ground (arith, l))

module _ {W : Type 0} (net : Sockets W) where
  attempted-Post :
      {A : Type 0} {P : A → Type 0} (r : Exec (Result A SocketError) × W) (s : Downloader W)
      → Answers P r.0
      → s.socket ≡ true
      → Post (λ a t. IsKept s t × P a) IsDropped (attempted net r s)
  unfolding Answers
  attempted-Post (returns (ok a), w) s p h = valid a _ ((h, refl, refl), p)
  attempted-Post (returns (error e), w) s p h = failed _ _ refl
  attempted-Post (throws x, w) s p h = absurd p
  attempted-Post (undefined, w) s p h = absurd p
  attempted-Post (out_of_fuel, w) s p h = absurd p

  pub attempt-Post :
      {A : Type 0} {P : A → Type 0} (call : W → Exec (Result A SocketError) × W) (s : Downloader W)
      → Answers P (call s.world).0
      → s.socket ≡ true
      → Post (λ a t. IsKept s t × P a) IsDropped (attempt net call s)
  unfolding attempt
  attempt-Post {P = P} call s p h =
      subst (Post (λ a t. IsKept s t × P a) IsDropped)
        (sym (if-true (attempted net (call s.world) s) (undefined, s) h))
        (attempted-Post (call s.world) s p h)

  written-Answers :
      (r : Result Empty SocketError × W) → Answers (λ (a : Empty). Unit {0}) (written net r).0
  unfolding Answers
  written-Answers (ok a, w) = tt
  written-Answers (error e, w) = tt

  pub attempt-written :
      (call : W → Result Empty SocketError × W) (s : Downloader W)
      → s.socket ≡ true
      → Post (λ (_ : Empty) t. IsKept s t) IsDropped (attempt net (λ w. written net (call w)) s)
  attempt-written call s h =
      Post-mono (λ a u p. p.0) (λ u d. d)
        (attempt-Post (λ w. written net (call w)) s (written-Answers (call s.world)) h)

  -- Destroying the socket before an error.
  pub destroyed-Post :
      {A : Type 0} {Q : A → Downloader W → Type 0} (s : Downloader W) (e : DownloaderError)
      → s.socket ≡ true
      → Post Q IsDropped (proceed (destroy_socket net s) (λ _ t. (returns (error e), t)))
  unfolding destroy_socket
  destroyed-Post s e h =
      Post-proceed
        (Post-if {Q = λ _ t. IsDropped t} s.socket (λ _. valid empty _ refl)
          (λ f. absurd (ground arith)))
        (λ a t d. failed e t d)

  pub valid_message-Post :
      (r : Result Message DecodeError) (s : Downloader W)
      → s.socket ≡ true
      → Post (λ m t. t ≡ s) IsDropped (valid_message net r s)
  unfolding valid_message
  valid_message-Post (ok m) s h = valid m s refl
  valid_message-Post (error e) s h = destroyed-Post s invalid_message h

  module _ (reads : ReadsWhole net) (torrent : TorrentFile) where
    pub recv_message-Post :
        (t : ℤ) (s : Downloader W)
        → s.socket ≡ true
        → Post (λ m u. IsKept s u) IsDropped (recv_message net torrent t s)
    unfolding recv_message clock
    recv_message-Post t s h =
        Post-proceed
          (attempt-Post {P = λ bytes. length bytes ≡ 4} (net.read (pos 4) t) s (reads 4 t s.world)
            h)
          (λ bytes s₁ (k₁, l).
            let (n, e) = message_length-four bytes l in
            rw e (
              Post-proceed
                (attempt-Post {P = λ rest. length rest ≡ n} (net.read (pos n) _) s₁
                  (reads n _ s₁.world) k₁.0)
                (λ rest s₂ (k₂, _).
                  Post-mono
                    (λ m u (e' : u ≡ s₂).
                      subst (IsKept s) (sym e') (k₂.0, k₂.1 ∙ k₁.1, k₂.2 ∙ k₁.2))
                    (λ u d. d)
                    (valid_message-Post (decode torrent.pieces_count (bytes ++ rest)) s₂ k₂.0))))

    pub send_message-Post :
        (m : Message) (bytes : List ℕ) (t : ℤ) (s : Downloader W)
        → encode m ≡ returns bytes
        → s.socket ≡ true
        → Post (λ (_ : Empty) u. IsKept s u) IsDropped (send_message net m t s)
    unfolding send_message
    send_message-Post m bytes t s e h = rw e (attempt-written (net.write bytes t) s h)
