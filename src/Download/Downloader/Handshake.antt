-- ===== src/Download/Downloader/Handshake.antt =====
-- src/download/downloader.cpp, handshake: two peers that run this program.
use furrent.Prelude.{
  ℕ, ◌≡◌, ◌≢◌, ◌⊎◌, inl, inr, refl, ap, ap₂, ◌∙◌, subst, List, [], ◌∷◌, ◌++◌, Bool, true, false,
  length, length-append, take, take-append, Option, ok, error, returns, arith, Bool-cases, if-false,
  ltb,
}
use furrent.Prelude.Int.{pos}
use furrent.Hash.{hash_eq}
use furrent.Torrent.Reading.{TorrentFile}
use furrent.Download.Bitfield.{Bitfield}
use furrent.Download.Socket.{empty}
use furrent.Download.Downloader.{
  Sockets, Downloader, seconds, destroy_socket, written, same_hash, handshake, handshake_message,
  response_hash, peer_id, closed,
}
use furrent.Download.Downloader.Calls.{different_info_hash}
use furrent.Download.Downloader.Delivery.{Delivers, holding, attempt-returns}

hash_eq-true : (xs ys : List ℕ) → hash_eq xs ys ≡ true → xs ≡ ys
unfolding hash_eq
hash_eq-true [] [] h = refl
hash_eq-true [] (y ∷ ys) h = absurd (ground arith)
hash_eq-true (x ∷ xs) [] h = absurd (ground arith)
hash_eq-true (x ∷ xs) (y ∷ ys) h =
    let e : x ≡ y = ground (arith, h) in
    let rest : hash_eq xs ys ≡ true = ground (arith, h) in
    ap₂ (λ z zs. z ∷ zs) e (hash_eq-true xs ys rest)

hash_eq_refl : (xs : List ℕ) → hash_eq xs xs ≡ true
unfolding hash_eq
hash_eq_refl [] = refl
hash_eq_refl (x ∷ xs) = rw (hash_eq_refl xs) (ground arith)

length-handshake_message : (h : List ℕ) → length h ≡ 20 → length (handshake_message h) ≡ 68
unfolding handshake_message
length-handshake_message h l = omega (arith, length-append h peer_id, l)

-- The hash that a reader takes out of a handshake.
response_hash-handshake_message :
    (h : List ℕ) → length h ≡ 20 → response_hash (handshake_message h) ≡ returns h
unfolding response_hash handshake_message
response_hash-handshake_message h l =
    if-false {b = ltb (length (handshake_message h)) 48} _ _
      (ground (arith, length-handshake_message h l))
    ∙ ap returns (subst (λ n. take n (h ++ peer_id) ≡ h) l (take-append h peer_id))

module _ {W : Type 0} (net : Sockets W) (coming : List ℕ → W → Type 0)
    (delivers : Delivers net coming) (torrent : TorrentFile) (choked : Bool)
    (bf : Option Bitfield) where
  handshake_compares :
      (theirs rest : List ℕ) (w : W)
      → length theirs ≡ 20
      → coming (handshake_message theirs ++ rest) w
      → (v : W) × (handshake net torrent (holding net coming delivers choked bf w)
          ≡ same_hash net torrent.info_hash theirs (holding net coming delivers choked bf v))
        × coming rest v
  unfolding handshake
  handshake_compares theirs rest w l c =
      let (u, sent, c₁) =
        delivers.writes (handshake_message torrent.info_hash) (handshake_message theirs ++ rest)
          (seconds 5) w c in
      let (v, got, c₂) = delivers.reads (handshake_message theirs) rest (seconds 5) u c₁ in
      let first =
        attempt-returns net coming delivers choked bf
          (λ x. written net (net.write (handshake_message torrent.info_hash) (seconds 5) x)) w u
          empty (ap (written net) sent) in
      let got' : net.read (pos 68) (seconds 5) u ≡ (returns (ok (handshake_message theirs)), v) =
        subst (λ n. net.read (pos n) (seconds 5) u ≡ (returns (ok (handshake_message theirs)), v))
          (length-handshake_message theirs l) got in
      let second =
        attempt-returns net coming delivers choked bf (net.read (pos 68) (seconds 5)) u v
          (handshake_message theirs) got' in
      (v, rw (first, second, response_hash-handshake_message theirs l) refl, c₂)

  -- If the peer runs this program for a torrent with a hash of 20 bytes, the handshake succeeds, and has
  -- read nothing behind the peer's handshake, exactly when the hash is that of the own torrent. With
  -- another hash the answer is DifferentInfoHash, and the socket is destroyed.
  pub handshake_meets :
      (theirs rest : List ℕ) (w : W)
      → length theirs ≡ 20
      → coming (handshake_message theirs ++ rest) w
      → ((torrent.info_hash ≡ theirs)
          × ((v : W) × (handshake net torrent (holding net coming delivers choked bf w)
                ≡ (returns (ok empty), holding net coming delivers choked bf v))
              × coming rest v))
        ⊎ ((torrent.info_hash ≢ theirs)
            × ((s : Downloader W) × (handshake net torrent (holding net coming delivers choked bf w)
                  ≡ (returns (error different_info_hash), s))
                × (s.socket ≡ false)))
  unfolding same_hash destroy_socket
  handshake_meets theirs rest w l c =
      let (v, e, c₁) = handshake_compares theirs rest w l c in
      elim (Bool-cases (hash_eq torrent.info_hash theirs)) [
        | inl h ↦ inl (hash_eq-true torrent.info_hash theirs h, (v, e ∙ rw h refl, c₁))
        | inr h ↦ inr (
          λ q.
              let same : hash_eq torrent.info_hash theirs ≡ true =
                subst (λ xs. hash_eq torrent.info_hash xs ≡ true) q
                  (hash_eq_refl torrent.info_hash) in
              absurd (ground (arith, same, h)),
          (closed net (holding net coming delivers choked bf v), e ∙ rw h refl, refl),
        )
      ]
