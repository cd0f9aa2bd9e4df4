-- ===== src/Download/Downloader/Transfer/Service.antt =====
-- src/download/downloader.cpp, the loop of try_download: a peer that answers every request, in any order.
use furrent.Prelude.{
  ℕ, zero, suc, ◌+◌, ◌-◌, ◌≤◌, ◌<◌, ◌^◌, ◌/◌, ◌*◌, ◌≡◌, ◌⊎◌, inl, inr, refl, subst, List, [], ◌∷◌,
  Bool, true, false, ltb, length, get_elem?, All, Option, ok, returns, arith, Bool-cases, Bool,
}
use furrent.Prelude.Int.{ℤ, pos}
use furrent.Torrent.Reading.{TorrentFile}
use furrent.Download.Bitfield.{Bitfield}
use furrent.Download.Message.{
  Message, keep_alive, choke, unchoke, interested, not_interested, have, bitfield, request, piece,
  encode,
}
use furrent.Download.Message.RoundTrip.{decode-encode}
use furrent.Download.Downloader.{Sockets, seconds}
use furrent.Download.Downloader.Delivery.{
  Delivers, holding, send_message-delivered, recv_message-encode,
}
use furrent.Download.Downloader.Blocks.{pipeline_size_max, blocks_total, block_offset, block_length}
use furrent.Download.Downloader.Blocks.Tiling.{block_end}
use furrent.Download.Downloader.Blocks.Assembly.{copy_block-block_of}
use furrent.Download.Downloader.Transfer.{
  Transfer, request_blocks, request_unchoked, on_message, download_blocks,
}
use furrent.Download.Downloader.Transfer.Messages.{
  IsServing, blocks_in, IsBrought, Spells, blocks_in-cons, IsBrought-cons, all_there,
}

module _ {W : Type 0} (net : Sockets W) (coming : List ℕ → W → Type 0)
    (delivers : Delivers net coming) (torrent : TorrentFile) (index : ℕ) (whole : List ℕ)
    (small : index < 2 ^ 32) (short : length whole < 2 ^ 32) where
  request_bytes :
      (k : ℕ)
      → k < blocks_total (length whole)
      → (out : List ℕ) × (encode
            (request (pos index) (pos (block_offset k)) (pos (block_length (length whole) k)))
          ≡ returns out)
  request_bytes k h =
      let (p, q, r) = block_end (length whole) k h in
      let (_, _, _, _, _, e, _, _) =
        decode-encode torrent.pieces_count
          (request (pos index) (pos (block_offset k)) (pos (block_length (length whole) k)))
          (small, omega (arith, short, r), omega (arith, short, r)) in
      (_, e)

  request_blocks-delivered :
      (choked : Bool) (bf : Option Bitfield) (left requested received : ℕ) (bytes : List ℕ) (w : W)
      → requested + left ≡ blocks_total (length whole)
      → coming bytes w
      → (r : ℕ) × (v : W) × (request_blocks net torrent left
            (length whole)
            (pos index)
            requested
            received
            (holding net coming delivers choked bf w)
          ≡ (returns (ok r), holding net coming delivers choked bf v))
        × (r ≤ blocks_total (length whole))
        × coming bytes v
  unfolding request_blocks
  request_blocks-delivered choked bf zero requested received bytes w l c =
      (requested, w, refl, omega (arith, l), c)
  request_blocks-delivered choked bf (suc left) requested received bytes w l c =
      elim (Bool-cases (ltb requested (received + pipeline_size_max))) [
        | inl e ↦
            let (out, q) = request_bytes requested (omega (arith, l)) in
            let (u, sent, d) =
              send_message-delivered net coming delivers choked bf
                (request (pos index) (pos (block_offset requested))
                  (pos (block_length (length whole) requested)))
                out bytes (seconds 5) w q c in
            let (r, v, rest, b, d') =
              request_blocks-delivered choked bf left (requested + 1) received bytes u
                (omega (arith, l)) d in
            (r, v, rw (e, sent) rest, b, d')
        | inr e ↦ (requested, w, rw e refl, omega (arith, l), c)
      ]

  request_unchoked-delivered :
      (choked : Bool) (bf : Option Bitfield) (x : Transfer) (bytes : List ℕ) (w : W)
      → x.requested ≤ blocks_total (length whole)
      → coming bytes w
      → (r : ℕ) × (v : W) × (request_unchoked net torrent
            (length whole)
            (pos index)
            x
            (holding net coming delivers choked bf w)
          ≡ (returns (ok (record x { requested = r })), holding net coming delivers choked bf v))
        × (r ≤ blocks_total (length whole))
        × coming bytes v
  unfolding request_unchoked
  request_unchoked-delivered true bf x bytes w l c = (x.requested, w, refl, l, c)
  request_unchoked-delivered false bf x bytes w l c =
      let (r, v, e, b, d) =
        request_blocks-delivered false bf (blocks_total (length whole) - x.requested) x.requested
          x.received bytes w (omega (arith, l)) c in
      (r, v, rw e refl, b, d)

  -- What a message of such a peer does to the variables of the loop.
  abbrev Serves : Message → Transfer → Bool → Option Bitfield → W → Type 0
  Serves m y choked bf w =
      (z : Transfer) × (choked' : Bool) × (on_message net torrent m y
          (holding net coming delivers choked bf w)
        ≡ (returns (ok z), holding net coming delivers choked' bf w))
      × (z.requested ≡ y.requested)
      × (z.received ≡ y.received + blocks_in (m ∷ []))
      × (length z.content ≡ length whole)
      × ((j : ℕ)
          → j < length whole
          → IsBrought j (m ∷ []) ⊎ (get_elem? y.content j ≡ get_elem? whole j)
          → get_elem? z.content j ≡ get_elem? whole j)

  same_block : (b : ℤ) (k j : ℕ) → b ≡ pos (block_offset k) → b ≡ pos (block_offset j) → j ≡ k
  unfolding block_offset
  same_block b k j e f = let q : k * 16384 ≡ j * 16384 = cc in omega (arith, q)

  serves :
      (m : Message) (y : Transfer) (choked : Bool) (bf : Option Bitfield) (w : W)
      → IsServing whole m
      → length y.content ≡ length whole
      → Serves m y choked bf w
  unfolding IsServing on_message IsBrought blocks_in
  serves keep_alive y choked bf w h l =
      (y, choked, refl, refl, omega arith, l, λ j i g. elim g [ inl b ↦ absurd b | inr a ↦ a ])
  serves choke y choked bf w h l =
      (_, true, refl, refl, omega arith, l, λ j i g. elim g [ inl b ↦ absurd b | inr a ↦ a ])
  serves unchoke y choked bf w h l =
      (_, false, refl, refl, omega arith, l, λ j i g. elim g [ inl b ↦ absurd b | inr a ↦ a ])
  serves interested y choked bf w h l =
      (y, choked, refl, refl, omega arith, l, λ j i g. elim g [ inl b ↦ absurd b | inr a ↦ a ])
  serves not_interested y choked bf w h l =
      (y, choked, refl, refl, omega arith, l, λ j i g. elim g [ inl b ↦ absurd b | inr a ↦ a ])
  serves (have i) y choked bf w h l = absurd h
  serves (bitfield f) y choked bf w h l =
      (y, choked, refl, refl, omega arith, l, λ j i g. elim g [ inl b ↦ absurd b | inr a ↦ a ])
  serves (request r s t) y choked bf w h l =
      (y, choked, refl, refl, omega arith, l, λ j i g. elim g [ inl b ↦ absurd b | inr a ↦ a ])
  serves (piece i begin block) y choked bf w (k, lt, b, e) l =
      let (new, copied, len, good) = copy_block-block_of whole y.content k l lt in
      (
        record y { content = new; received = y.received + 1 },
        choked,
        rw (b, e, copied) refl,
        refl,
        refl,
        len,
        λ j j_in g. good j j_in (elim g [
          | inl (inl own) ↦ inl (same_block begin k (j / 16384) b own)
          | inl (inr none_else) ↦ absurd none_else
          | inr old ↦ inr old
        ]),
      )

  -- If a peer delivers, in any order and between messages that tell nothing of pieces, as many blocks as
  -- the piece has, with every byte of the piece in one of them, the loop ends with the whole piece.
  pub download_blocks-delivered :
      (fuel : ℕ) (ms : List Message) (bytes : List ℕ) (x : Transfer) (choked : Bool)
      (bf : Option Bitfield) (w : W)
      → length ms < fuel
      → All (IsServing whole) ms
      → Spells torrent.pieces_count ms bytes
      → coming bytes w
      → x.received + blocks_in ms ≡ blocks_total (length whole)
      → x.requested ≤ blocks_total (length whole)
      → length x.content ≡ length whole
      → ((j : ℕ) → j < length whole → IsBrought j ms ⊎ (get_elem? x.content j ≡ get_elem? whole j))
      → (y : Transfer) × (choked' : Bool) × (v : W) × (download_blocks net torrent fuel
            (length whole)
            (pos index)
            x
            (holding net coming delivers choked bf w)
          ≡ (returns (ok y), holding net coming delivers choked' bf v))
        × (y.content ≡ whole)
  unfolding download_blocks Spells
  download_blocks-delivered zero ms bytes x choked bf w f a p c n r l g = absurd (omega (arith, f))
  download_blocks-delivered (suc fuel) [] bytes x choked bf w f a p c n r l g =
      let none_left : blocks_in [] ≡ 0 = unfold blocks_in in refl in
      let over : ltb x.received (blocks_total (length whole)) ≡ false =
        ground (arith, n, none_left) in
      (x, choked, w, rw over refl, all_there whole x.content [] none_left l g)
  download_blocks-delivered (suc fuel) (m ∷ ms) bytes x choked bf w f a p c n r l g =
      elim (Bool-cases (ltb x.received (blocks_total (length whole)))) [
        | inr over ↦ (
          x,
          choked,
          w,
          rw over refl,
          all_there whole x.content (m ∷ ms) (ground (arith, n, over)) l g,
        )
        | inl more ↦
            let (out, rest, sendable, e, q, p') = p in
            let (k, u, asked, b, d) = request_unchoked-delivered choked bf x bytes w r c in
            let (v, got, d') =
              recv_message-encode net coming delivers choked bf torrent m out rest x.timeout u
                sendable e (subst (λ bs. coming bs u) q d) in
            let (z, choked', served, same, count, len, good) =
              serves m (record x { requested = k }) choked bf v a.0 l in
            let (y, choked'', t, done_with, is_whole) =
              download_blocks-delivered fuel ms rest z choked' bf v (omega (arith, f)) a.1 p' d'
                (omega (arith, n, count, blocks_in-cons m ms)) (omega (arith, same, b)) len
                (λ j h. elim (g j h) [
                  | inl later ↦ elim (IsBrought-cons j m ms later) [
                    | inl now ↦ inr (good j h (inl now))
                    | inr later' ↦ inl later'
                  ]
                  | inr already ↦ inr (good j h (inr already))
                ]) in
            (y, choked'', t, rw (more, asked, got, served) done_with, is_whole)
      ]
