-- ===== src/Download/Downloader/Transfer/Steps.antt =====
-- src/download/downloader.cpp: what the steps of try_download leave of the object, whatever the peer sends.
use furrent.Prelude.{
  ℕ, zero, suc, ◌+◌, ◌-◌, ◌≡◌, inl, inr, refl, ◌∙◌, List, ◌++◌, ltb, leb, length, length-append,
  length-take, length-drop, take, drop, returns, arith, Bool-cases, leb→le,
}
use furrent.Prelude.Int.{ℤ, pos, negsuc}
use furrent.Torrent.Reading.{TorrentFile}
use furrent.Download.Bitfield.{set_bit}
use furrent.Download.Message.{
  Message, keep_alive, choke, unchoke, interested, not_interested, have, bitfield, request, piece,
  encode,
}
use furrent.Download.Socket.{Empty, empty}
use furrent.Download.Downloader.{Sockets, Downloader, seconds, send_message}
use furrent.Download.Downloader.Calls.Post.{
  Post, valid, Post-proceed, Post-mono, Post-after_lift, Post-if,
}
use furrent.Download.Downloader.Connection.{IsDropped, attempt-written}
use furrent.Download.Downloader.Health.{IsConnected, IsHealthy, kept}
use furrent.Download.Downloader.Blocks.{
  pipeline_size_max, blocks_total, block_offset, block_length, copy_block,
}
use furrent.Download.Downloader.Transfer.{
  Transfer, held, request_blocks, request_unchoked, note_piece, on_message,
}

pub copy_block-length :
    (content : List ℕ) (begin : ℤ) (block new : List ℕ)
    → copy_block content begin block ≡ returns new
    → length new ≡ length content
unfolding copy_block
copy_block-length content (negsuc n) block new e = absurd (ground (arith, e))
copy_block-length content (pos b) block new e =
    elim (Bool-cases (leb (b + length block) (length content))) [
      | inl h ↦ ground (
        arith,
        leb→le (b + length block) (length content) h,
        length-append (take b content) (block ++ drop (b + length block) content),
        length-append block (drop (b + length block) content),
        length-take b content,
        length-drop (b + length block) content,
      )
      | inr h ↦ absurd (ground arith)
    ]

pub dropped-IsHealthy : {W : Type 0} (s : Downloader W) → IsDropped s → IsHealthy s
dropped-IsHealthy s d = inl d

module _ {W : Type 0} (net : Sockets W) where
  pub send-Post :
      (m : Message) (t : ℤ) (s : Downloader W)
      → IsConnected s
      → Post (λ (_ : Empty) u. IsConnected u) IsHealthy (send_message net m t s)
  unfolding send_message
  send-Post m t s c = Post-after_lift _ (encode m) s (inr c) (λ bytes _.
      Post-mono (λ _ u k. kept net s u c k) dropped-IsHealthy
        (attempt-written net (net.write bytes t) s c.0))

  module _ (torrent : TorrentFile) where
    request_blocks-Post :
        (left n : ℕ) (index : ℤ) (requested received : ℕ) (s : Downloader W)
        → IsConnected s
        → Post
            (λ (r : ℕ) u. IsConnected u)
            IsHealthy
            (request_blocks net torrent left n index requested received s)
    unfolding request_blocks
    request_blocks-Post zero n index requested received s c = valid requested s c
    request_blocks-Post (suc left) n index requested received s c =
        elim (Bool-cases (ltb requested (received + pipeline_size_max))) [
          | inl e ↦ rw e (
              Post-proceed
                (send-Post
                  (request index (pos (block_offset requested)) (pos (block_length n requested)))
                  (seconds 5) s c)
                (λ _ u d. request_blocks-Post left n index (requested + 1) received u d))
          | inr e ↦ rw e (valid requested s c)
        ]

    pub request_unchoked-Post :
        (n : ℕ) (index : ℤ) (x : Transfer) (s : Downloader W)
        → IsConnected s
        → Post
            (λ y u. IsConnected u × (y.content ≡ x.content))
            IsHealthy
            (request_unchoked net torrent n index x s)
    unfolding request_unchoked
    request_unchoked-Post n index x s c =
        Post-if s.choked (λ _. valid x s (c, refl))
          (λ _.
            Post-proceed
              (request_blocks-Post (blocks_total n - x.requested) n index x.requested x.received s
                c)
              (λ r u d. valid _ u (d, refl)))

    note_piece-Post :
        (index : ℤ) (s : Downloader W)
        → IsConnected s
        → Post (λ (_ : Empty) u. IsConnected u) IsHealthy (note_piece net torrent index s)
    unfolding note_piece
    note_piece-Post index s c = Post-after_lift _ (held s.bitfield) s (inr c) (λ bf _.
        Post-after_lift _ (set_bit bf index) s (inr c) (λ new _. valid empty _ (c.0, (new, refl))))

    pub on_message-Post :
        (n : ℕ) (m : Message) (x : Transfer) (s : Downloader W)
        → IsConnected s
        → length x.content ≡ n
        → Post
            (λ y u. IsConnected u × (length y.content ≡ n))
            IsHealthy
            (on_message net torrent m x s)
    unfolding on_message
    on_message-Post n choke x s c l = valid _ _ (c, l)
    on_message-Post n unchoke x s c l = valid _ _ (c, l)
    on_message-Post n (have index) x s c l =
        Post-proceed (note_piece-Post index s c) (λ _ u d. valid x u (d, l))
    on_message-Post n (piece index begin block) x s c l =
        Post-after_lift _ (copy_block x.content begin block) s (inr c)
          (λ new e. valid _ s (c, copy_block-length x.content begin block new e ∙ l))
    on_message-Post n keep_alive x s c l = valid x s (c, l)
    on_message-Post n interested x s c l = valid x s (c, l)
    on_message-Post n not_interested x s c l = valid x s (c, l)
    on_message-Post n (bitfield bf) x s c l = valid x s (c, l)
    on_message-Post n (request i b k) x s c l = valid x s (c, l)
