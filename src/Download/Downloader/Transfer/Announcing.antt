-- ===== src/Download/Downloader/Transfer/Announcing.antt =====
-- src/download/downloader.cpp, try_download: where the bitfield of a Downloader comes from.
use furrent.Prelude.{
  ℕ, zero, suc, ◌+◌, ◌-◌, ◌||◌, sym, subst, ltb, inl, inr, List, Bool-cases, Option, none, some,
}
use furrent.Prelude.Int.{ℤ, pos, negsuc, ltb_ℤ, leb_ℤ}
use furrent.Peer.{Peer}
use furrent.Hash.{verify_piece}
use furrent.Torrent.Reading.{TorrentFile}
use furrent.Download.Bitfield.{Bitfield, set_bit, get}
use furrent.Download.Message.{
  Message, keep_alive, choke, unchoke, interested, not_interested, have, bitfield, request, piece,
}
use furrent.Download.Socket.{empty}
use furrent.Download.Downloader.{Sockets, Downloader, seconds}
use furrent.Download.Downloader.Calls.{missing_piece, corrupt_piece}
use furrent.Download.Downloader.Calls.Post.{
  valid, failed, thrown, broken, unfinished, Post-proceed, Post-mono, Post-lift, Post-after_lift,
  Post-if,
}
use furrent.Download.Downloader.Announced.{
  IsReceived, noted, HoldsAnnounced, Holding, send_message-Holding, recv_message-Holding,
  ensure_connected-Holding,
}
use furrent.Download.Downloader.Blocks.{
  pipeline_size_max, blocks_total, block_offset, block_length, copy_block, piece_length_at, hash_at,
}
use furrent.Download.Downloader.Transfer.{
  Transfer, start, held, request_blocks, request_unchoked, note_piece, on_message, download_blocks,
  verified, download_piece, offers, download_from, try_download,
}

module _ {W : Type 0} (net : Sockets W) (torrent : TorrentFile) where
  abbrev Keeps : Downloader W → Type 0
  Keeps s = HoldsAnnounced net torrent s

  request_blocks-Holding :
      (left n : ℕ) (index : ℤ) (requested received : ℕ) (s : Downloader W)
      → Keeps s
      → Holding net torrent (request_blocks net torrent left n index requested received s)
  unfolding request_blocks
  request_blocks-Holding zero n index requested received s h = valid requested s h
  request_blocks-Holding (suc left) n index requested received s h =
      elim (Bool-cases (ltb requested (received + pipeline_size_max))) [
        | inl e ↦ rw e (
            Post-proceed
              (send_message-Holding net torrent
                (request index (pos (block_offset requested)) (pos (block_length n requested)))
                (seconds 5) s h)
              (λ _ u k. request_blocks-Holding left n index (requested + 1) received u k))
        | inr e ↦ rw e (valid requested s h)
      ]

  request_unchoked-Holding :
      (n : ℕ) (index : ℤ) (x : Transfer) (s : Downloader W)
      → Keeps s
      → Holding net torrent (request_unchoked net torrent n index x s)
  unfolding request_unchoked
  request_unchoked-Holding n index x s h =
      Post-if s.choked (λ _. valid x s h)
        (λ _.
          Post-proceed
            (request_blocks-Holding (blocks_total n - x.requested) n index x.requested x.received s
              h)
            (λ r u k. valid _ u k))

  -- A piece is noted in the bitfield that is held.
  note_piece-Holding :
      (index : ℤ) (s : Downloader W) (b : Option Bitfield)
      → IsReceived net torrent (have index)
      → Keeps (record s { bitfield = b })
      → Holding net torrent (note_piece net torrent index (record s { bitfield = b }))
  unfolding note_piece held
  note_piece-Holding index s none r h = broken _ h
  note_piece-Holding index s (some bf) r h =
      Post-after_lift _ (set_bit bf index) _ h (λ new e. valid empty _ (noted index new h r e))

  on_message-Holding :
      (m : Message) (x : Transfer) (s : Downloader W)
      → IsReceived net torrent m
      → Keeps s
      → Holding net torrent (on_message net torrent m x s)
  unfolding on_message
  on_message-Holding choke x s r h = valid _ _ h
  on_message-Holding unchoke x s r h = valid _ _ h
  on_message-Holding (have index) x s r h =
      Post-proceed (note_piece-Holding index s s.bitfield r h) (λ _ u k. valid x u k)
  on_message-Holding (piece index begin block) x s r h =
      Post-after_lift _ (copy_block x.content begin block) s h (λ new e. valid _ s h)
  on_message-Holding keep_alive x s r h = valid x s h
  on_message-Holding interested x s r h = valid x s h
  on_message-Holding not_interested x s r h = valid x s h
  on_message-Holding (bitfield bf) x s r h = valid x s h
  on_message-Holding (request i b k) x s r h = valid x s h

  download_blocks-Holding :
      (fuel n : ℕ) (index : ℤ) (x : Transfer) (s : Downloader W)
      → Keeps s
      → Holding net torrent (download_blocks net torrent fuel n index x s)
  unfolding download_blocks
  download_blocks-Holding zero n index x s h = unfinished s
  download_blocks-Holding (suc fuel) n index x s h =
      elim (Bool-cases (ltb x.received (blocks_total n))) [
        | inl e ↦ rw e (
            Post-proceed (request_unchoked-Holding n index x s h) (λ y s₁ h₁.
              Post-proceed (recv_message-Holding net torrent y.timeout s₁ h₁) (λ m s₂ (h₂, r).
                Post-proceed (on_message-Holding m y s₂ r h₂)
                  (λ z s₃ h₃. download_blocks-Holding fuel n index z s₃ h₃))))
        | inr e ↦ rw e (valid x s h)
      ]

  module _ (calc : List ℕ → List ℕ) (fuel : ℕ) where
    verified-Holding :
        (index : ℤ) (content : List ℕ) (s : Downloader W)
        → Keeps s
        → Holding net torrent (verified net torrent calc fuel index content s)
    unfolding verified
    verified-Holding index content s h =
        Post-after_lift _ (hash_at torrent.piece_hashes index) s h (λ hash _.
          Post-after_lift _ (verify_piece calc content hash) s h (λ same _. elim (Bool-cases same) [
            | inl e ↦ rw e (valid _ s h)
            | inr e ↦ rw e (failed corrupt_piece s h)
          ]))

    download_piece-Holding :
        (index n : ℤ) (s : Downloader W)
        → Keeps s
        → Holding net torrent (download_piece net torrent calc fuel index n s)
    unfolding download_piece
    download_piece-Holding index (negsuc n) s h = thrown _ s h
    download_piece-Holding index (pos zero) s h = thrown _ s h
    download_piece-Holding index (pos (suc n)) s h =
        Post-proceed (download_blocks-Holding fuel (suc n) index (start (suc n)) s h)
          (λ x u k. verified-Holding index x.content u k)

    offers-Holding :
        (index : ℤ) (s : Downloader W)
        → Keeps s
        → Holding net torrent (offers net torrent calc fuel index s)
    unfolding offers
    offers-Holding index s h = Post-after_lift _ (held s.bitfield) s h (λ bf _.
        Post-mono (λ b u (_, e). subst Keeps (sym e) h) (λ u k. k) (Post-lift (get bf index) s h))

    pub try_download-Holding :
        (peer : Peer) (index : ℤ) (s : Downloader W)
        → Keeps s
        → Holding net torrent (try_download net torrent calc fuel peer index s)
    unfolding try_download download_from
    try_download-Holding peer index s h = elim (Bool-cases (leb_ℤ torrent.pieces_count (pos 0))) [
      | inl e ↦ rw e (thrown _ s h)
      | inr e ↦ elim (Bool-cases (ltb_ℤ index (pos 0) || leb_ℤ torrent.pieces_count index)) [
        | inl f ↦ rw (e, f) (thrown _ s h)
        | inr f ↦
            rw (e, f)
              (Post-proceed (ensure_connected-Holding net torrent fuel peer s h) (λ _ s₁ h₁.
                Post-proceed (offers-Holding index s₁ h₁) (λ has s₂ h₂. elim (Bool-cases has) [
                  | inl g ↦ rw g (
                      Post-after_lift _ (piece_length_at torrent index) s₂ h₂
                        (λ n _. download_piece-Holding index n s₂ h₂))
                  | inr g ↦ rw g (failed missing_piece s₂ h₂)
                ])))
      ]
    ]
