-- ===== src/Download/Downloader/Transfer/Safety.antt =====
-- src/download/downloader.cpp, try_download: what is true behind the call, whatever the peer sends.
use furrent.Prelude.{
  ℕ, zero, suc, ◌≤◌, ◌≡◌, inl, inr, refl, sym, ap, ◌∙◌, subst, List, Bool, true, ◌||◌, ltb, length,
  length-replicate, returns, arith, Bool-cases,
}
use furrent.Prelude.Int.{ℤ, pos, negsuc, ltb_ℤ, leb_ℤ}
use furrent.Peer.{Peer}
use furrent.Hash.{verify_piece}
use furrent.Torrent.Reading.{TorrentFile}
use furrent.Download.Bitfield.{get}
use furrent.Download.Downloader.{Sockets, Downloader}
use furrent.Download.Downloader.Calls.{missing_piece, corrupt_piece}
use furrent.Download.Downloader.Calls.Post.{
  Post, valid, failed, thrown, unfinished, Post-proceed, Post-mono, Post-lift, Post-after_lift,
}
use furrent.Download.Downloader.Connection.{ReadsWhole, recv_message-Post}
use furrent.Download.Downloader.Health.{IsConnected, IsHealthy, kept, ensure_connected-Post}
use furrent.Download.Downloader.Blocks.{blocks_total, piece_length_at, hash_at}
use furrent.Download.Downloader.Transfer.{
  Downloaded, Transfer, held, download_blocks, verified, start, download_piece, offers,
  download_from, try_download,
}
use furrent.Download.Downloader.Transfer.Steps.{
  dropped-IsHealthy, request_unchoked-Post, on_message-Post,
}

-- The bytes of the piece: as many as it has, and of its hash.
abbrev pub IsPiece : TorrentFile → (List ℕ → List ℕ) → ℤ → Downloaded → Type 0
IsPiece torrent calc index d =
    (d.index ≡ index)
    × (piece_length_at torrent index ≡ returns (pos (length d.content)))
    × ((hash : List ℕ) × (hash_at torrent.piece_hashes index ≡ returns hash)
        × (verify_piece calc d.content hash ≡ returns true))

module _ {W : Type 0} (net : Sockets W) (reads : ReadsWhole net) (torrent : TorrentFile) where
  download_blocks-Post :
      (fuel n : ℕ) (index : ℤ) (x : Transfer) (s : Downloader W)
      → IsConnected s
      → length x.content ≡ n
      → Post
          (λ y u. IsConnected u × (length y.content ≡ n) × (blocks_total n ≤ y.received))
          IsHealthy
          (download_blocks net torrent fuel n index x s)
  unfolding download_blocks
  download_blocks-Post zero n index x s c l = unfinished s
  download_blocks-Post (suc fuel) n index x s c l =
      elim (Bool-cases (ltb x.received (blocks_total n))) [
        | inl e ↦ rw e (
            Post-proceed (request_unchoked-Post net torrent n index x s c) (λ y s₁ (c₁, e₁).
              Post-proceed
                (Post-mono (λ _ u k. kept net s₁ u c₁ k) dropped-IsHealthy
                  (recv_message-Post net reads torrent y.timeout s₁ c₁.0))
                (λ m s₂ c₂.
                  Post-proceed (on_message-Post net torrent n m y s₂ c₂ (ap length e₁ ∙ l))
                    (λ z s₃ (c₃, l₃). download_blocks-Post fuel n index z s₃ c₃ l₃))))
        | inr e ↦ rw e (valid x s (c, l, ground arith))
      ]

  module _ (calc : List ℕ → List ℕ) (fuel : ℕ) where
    verified-Post :
        (index : ℤ) (content : List ℕ) (s : Downloader W)
        → IsConnected s
        → piece_length_at torrent index ≡ returns (pos (length content))
        → Post
            (λ d u. IsConnected u × IsPiece torrent calc index d)
            IsHealthy
            (verified net torrent calc fuel index content s)
    unfolding verified
    verified-Post index content s c l =
        Post-after_lift _ (hash_at torrent.piece_hashes index) s (inr c) (λ hash h.
          Post-after_lift _ (verify_piece calc content hash) s (inr c) (λ same v.
            elim (Bool-cases same) [
              | inl e ↦ rw e (valid _ s (c, (refl, l, (hash, h, v ∙ ap returns e))))
              | inr e ↦ rw e (failed corrupt_piece s (inr c))
            ]))

    download_piece-Post :
        (index n : ℤ) (s : Downloader W)
        → IsConnected s
        → piece_length_at torrent index ≡ returns n
        → Post
            (λ d u. IsConnected u × IsPiece torrent calc index d)
            IsHealthy
            (download_piece net torrent calc fuel index n s)
    unfolding download_piece start
    download_piece-Post index (negsuc n) s c e = thrown _ s (inr c)
    download_piece-Post index (pos zero) s c e = thrown _ s (inr c)
    download_piece-Post index (pos (suc n)) s c e =
        Post-proceed
          (download_blocks-Post fuel (suc n) index (start (suc n)) s c
            (length-replicate {A = ℕ} (suc n) 0))
          (λ x u (d, l, _).
            verified-Post index x.content u d (e ∙ ap (λ k. returns (pos k)) (sym l)))

    offers-Post :
        (index : ℤ) (s : Downloader W)
        → IsConnected s
        → Post (λ (_ : Bool) u. IsConnected u) IsHealthy (offers net torrent calc fuel index s)
    unfolding offers
    offers-Post index s c = Post-after_lift _ (held s.bitfield) s (inr c) (λ bf _.
        Post-mono (λ b u (_, e). subst IsConnected (sym e) c) (λ u h. h)
          (Post-lift (get bf index) s (inr c)))

    pub try_download-Post :
        (peer : Peer) (index : ℤ) (s : Downloader W)
        → IsHealthy s
        → Post
            (λ d u. IsConnected u × IsPiece torrent calc index d)
            IsHealthy
            (try_download net torrent calc fuel peer index s)
    unfolding try_download download_from
    try_download-Post peer index s h = elim (Bool-cases (leb_ℤ torrent.pieces_count (pos 0))) [
      | inl e ↦ rw e (thrown _ s h)
      | inr e ↦ elim (Bool-cases (ltb_ℤ index (pos 0) || leb_ℤ torrent.pieces_count index)) [
        | inl f ↦ rw (e, f) (thrown _ s h)
        | inr f ↦
            rw (e, f)
              (Post-proceed
                (Post-mono (λ _ u c. c) dropped-IsHealthy
                  (ensure_connected-Post net reads torrent fuel peer s h))
                (λ _ s₁ c₁. Post-proceed (offers-Post index s₁ c₁) (λ has s₂ c₂.
                  elim (Bool-cases has) [
                    | inl g ↦ rw g (
                        Post-after_lift _ (piece_length_at torrent index) s₂ (inr c₂)
                          (λ n l. download_piece-Post index n s₂ c₂ l))
                    | inr g ↦ rw g (failed missing_piece s₂ (inr c₂))
                  ])))
      ]
    ]
