-- ===== src/Download/Downloader/Transfer/Termination.antt =====
-- src/download/downloader.cpp: how far the loop of try_download can go, with a peer that sends finitely many
-- bytes.
use furrent.Prelude.{
  ℕ, zero, suc, ◌+◌, ◌-◌, ◌≤◌, ◌<◌, inl, inr, List, Bool, ◌||◌, ltb, Exec, returns, throws,
  undefined, out_of_fuel, arith, Bool-cases,
}
use furrent.Prelude.Int.{ℤ, pos, negsuc, ltb_ℤ, leb_ℤ}
use furrent.Peer.{Peer}
use furrent.Hash.{verify_piece}
use furrent.Torrent.Reading.{TorrentFile}
use furrent.Download.Bitfield.{get, set_bit}
use furrent.Download.Message.{
  Message, keep_alive, choke, unchoke, interested, not_interested, have, bitfield, request, piece,
}
use furrent.Download.Socket.{Empty, empty}
use furrent.Download.Downloader.{Sockets, Downloader, seconds}
use furrent.Download.Downloader.Calls.{missing_piece, corrupt_piece, lift}
use furrent.Download.Downloader.Calls.Finish.{
  Finishes, valid, failed, thrown, broken, Finishes-proceed, Finishes-mono, Finishes-after_lift,
  IsOver, not-IsOver, Finishes-if,
}
use furrent.Download.Downloader.Ended.{
  copy_block-IsOver, piece_length_at-IsOver, hash_at-IsOver, held-IsOver, verify_piece-IsOver,
  set_bit-IsOver, get-IsOver,
}
use furrent.Download.Downloader.Blocks.{
  pipeline_size_max, blocks_total, block_offset, block_length, copy_block, piece_length_at, hash_at,
}
use furrent.Download.Downloader.Transfer.{
  Transfer, held, request_blocks, request_unchoked, note_piece, on_message, download_blocks,
  verified, start, download_piece, offers, download_from, try_download,
}
use furrent.Download.Downloader.Supply.{
  IsFinite, send_message-Finishes, recv_message-Finishes, ensure_connected-Finishes,
}

module _ {W : Type 0} (net : Sockets W) (supply : W → ℕ) (finite : IsFinite net supply)
    (torrent : TorrentFile) where
  request_blocks-Finishes :
      (left n : ℕ) (index : ℤ) (requested received : ℕ) (s : Downloader W)
      → Finishes
          (λ (_ : ℕ) u. supply u.world ≤ supply s.world)
          (request_blocks net torrent left n index requested received s)
  unfolding request_blocks
  request_blocks-Finishes zero n index requested received s = valid requested s (omega arith)
  request_blocks-Finishes (suc left) n index requested received s =
      elim (Bool-cases (ltb requested (received + pipeline_size_max))) [
        | inl e ↦ rw e (
            Finishes-proceed
              (send_message-Finishes net supply finite
                (request index (pos (block_offset requested)) (pos (block_length n requested)))
                (seconds 5) s)
              (λ _ u l.
                Finishes-mono (λ _ v k. omega (arith, k, l))
                  (request_blocks-Finishes left n index (requested + 1) received u)))
        | inr e ↦ rw e (valid requested s (omega arith))
      ]

  request_unchoked-Finishes :
      (n : ℕ) (index : ℤ) (x : Transfer) (s : Downloader W)
      → Finishes
          (λ (_ : Transfer) u. supply u.world ≤ supply s.world)
          (request_unchoked net torrent n index x s)
  unfolding request_unchoked
  request_unchoked-Finishes n index x s =
      Finishes-if s.choked (λ _. valid x s (omega arith))
        (λ _.
          Finishes-proceed
            (request_blocks-Finishes (blocks_total n - x.requested) n index x.requested x.received
              s)
            (λ r u l. valid _ u l))

  note_piece-Finishes :
      (index : ℤ) (s : Downloader W)
      → Finishes (λ (_ : Empty) u. supply u.world ≤ supply s.world) (note_piece net torrent index s)
  unfolding note_piece
  note_piece-Finishes index s =
      Finishes-after_lift _ (held s.bitfield) s (held-IsOver s.bitfield) (λ bf.
        Finishes-after_lift _ (set_bit bf index) s (set_bit-IsOver bf index)
          (λ new. valid empty _ (omega arith)))

  on_message-Finishes :
      (m : Message) (x : Transfer) (s : Downloader W)
      → Finishes
          (λ (_ : Transfer) u. supply u.world ≤ supply s.world)
          (on_message net torrent m x s)
  unfolding on_message
  on_message-Finishes choke x s = valid _ _ (omega arith)
  on_message-Finishes unchoke x s = valid _ _ (omega arith)
  on_message-Finishes (have index) x s =
      Finishes-proceed (note_piece-Finishes index s) (λ _ u l. valid x u l)
  on_message-Finishes (piece index begin block) x s =
      Finishes-after_lift _ (copy_block x.content begin block) s
        (copy_block-IsOver x.content begin block) (λ new. valid _ s (omega arith))
  on_message-Finishes keep_alive x s = valid x s (omega arith)
  on_message-Finishes interested x s = valid x s (omega arith)
  on_message-Finishes not_interested x s = valid x s (omega arith)
  on_message-Finishes (bitfield bf) x s = valid x s (omega arith)
  on_message-Finishes (request i b k) x s = valid x s (omega arith)

  download_blocks-Finishes :
      (fuel n : ℕ) (index : ℤ) (x : Transfer) (s : Downloader W)
      → supply s.world < fuel
      → Finishes (λ (_ : Transfer) _. Unit {0}) (download_blocks net torrent fuel n index x s)
  unfolding download_blocks
  download_blocks-Finishes zero n index x s h = absurd (omega (arith, h))
  download_blocks-Finishes (suc fuel) n index x s h =
      elim (Bool-cases (ltb x.received (blocks_total n))) [
        | inl e ↦ rw e (
            Finishes-proceed (request_unchoked-Finishes n index x s) (λ y s₁ l₁.
              Finishes-proceed (recv_message-Finishes net supply finite torrent y.timeout s₁)
                (λ m s₂ l₂. Finishes-proceed (on_message-Finishes m y s₂) (λ z s₃ l₃.
                  download_blocks-Finishes fuel n index z s₃ (omega (arith, h, l₁, l₂, l₃))))))
        | inr e ↦ rw e (valid x s tt)
      ]

  lift-Finishes :
      {A : Type 0} (e : Exec A) (s : Downloader W)
      → IsOver e
      → Finishes (λ (_ : A) u. supply u.world ≤ supply s.world) (lift e s)
  lift-Finishes (returns a) s o = valid a s (omega arith)
  lift-Finishes (throws x) s o = thrown x s
  lift-Finishes undefined s o = broken s
  lift-Finishes out_of_fuel s o = absurd (not-IsOver o)

  module _ (calc : List ℕ → List ℕ) (fuel : ℕ) where
    verified-Finishes :
        (index : ℤ) (content : List ℕ) (s : Downloader W)
        → Finishes (λ _ _. Unit {0}) (verified net torrent calc fuel index content s)
    unfolding verified
    verified-Finishes index content s =
        Finishes-after_lift _ (hash_at torrent.piece_hashes index) s
          (hash_at-IsOver torrent.piece_hashes index)
          (λ hash.
            Finishes-after_lift _ (verify_piece calc content hash) s
              (verify_piece-IsOver calc content hash)
              (λ same. elim (Bool-cases same) [
                | inl e ↦ rw e (valid _ s tt)
                | inr e ↦ rw e (failed corrupt_piece s)
              ]))

    download_piece-Finishes :
        (index n : ℤ) (s : Downloader W)
        → supply s.world < fuel
        → Finishes (λ _ _. Unit {0}) (download_piece net torrent calc fuel index n s)
    unfolding download_piece
    download_piece-Finishes index (negsuc n) s h = thrown _ s
    download_piece-Finishes index (pos zero) s h = thrown _ s
    download_piece-Finishes index (pos (suc n)) s h =
        Finishes-proceed (download_blocks-Finishes fuel (suc n) index (start (suc n)) s h)
          (λ x u _. verified-Finishes index x.content u)

    offers-Finishes :
        (index : ℤ) (s : Downloader W)
        → Finishes
            (λ (_ : Bool) u. supply u.world ≤ supply s.world)
            (offers net torrent calc fuel index s)
    unfolding offers
    offers-Finishes index s =
        Finishes-after_lift _ (held s.bitfield) s (held-IsOver s.bitfield)
          (λ bf. lift-Finishes (get bf index) s (get-IsOver bf index))

    pub try_download-Finishes :
        (peer : Peer) (index : ℤ) (s : Downloader W)
        → supply s.world < fuel
        → Finishes (λ _ _. Unit {0}) (try_download net torrent calc fuel peer index s)
    unfolding try_download download_from
    try_download-Finishes peer index s h = elim (Bool-cases (leb_ℤ torrent.pieces_count (pos 0))) [
      | inl e ↦ rw e (thrown _ s)
      | inr e ↦ elim (Bool-cases (ltb_ℤ index (pos 0) || leb_ℤ torrent.pieces_count index)) [
        | inl f ↦ rw (e, f) (thrown _ s)
        | inr f ↦
            rw (e, f)
              (Finishes-proceed (ensure_connected-Finishes net supply finite torrent fuel peer s h)
                (λ _ s₁ l₁. Finishes-proceed (offers-Finishes index s₁) (λ has s₂ l₂.
                  elim (Bool-cases has) [
                    | inl g ↦ rw g (
                        Finishes-after_lift _ (piece_length_at torrent index) s₂
                          (piece_length_at-IsOver torrent index)
                          (λ n. download_piece-Finishes index n s₂ (omega (arith, h, l₁, l₂))))
                    | inr g ↦ rw g (failed missing_piece s₂)
                  ])))
      ]
    ]
