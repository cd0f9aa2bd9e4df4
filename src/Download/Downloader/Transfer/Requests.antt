-- ===== src/Download/Downloader/Transfer/Requests.antt =====
-- src/download/downloader.cpp, the inner loop of try_download: which blocks a round asks for.
use furrent.Prelude.{
  ℕ, zero, suc, ◌+◌, ◌-◌, ◌*◌, ◌≤◌, ◌<◌, ◌≡◌, ◌==◌, ◌⊎◌, inl, inr, refl, sym, ap, ◌∙◌, subst, min,
  true, false, ltb, Result, ok, error, Exec, returns, throws, undefined, out_of_fuel, Bool-cases,
  arith, if-true, if-false,
}
use furrent.Prelude.Int.{ℤ, pos}
use furrent.Torrent.Reading.{TorrentFile}
use furrent.Download.Message.{Message, request}
use furrent.Download.Socket.{Empty}
use furrent.Download.Downloader.{Sockets, Downloader, seconds, send_message}
use furrent.Download.Downloader.Calls.{DownloaderError, Method, proceed, done}
use furrent.Download.Downloader.Blocks.{pipeline_size_max, blocks_total, block_offset, block_length}
use furrent.Download.Downloader.Blocks.Tiling.{blocks_total_covers}
use furrent.Download.Downloader.Transfer.{Transfer, request_blocks, request_unchoked}

-- The number of blocks requested behind a round of the inner loop: all there are, or five under way.
abbrev pub FillsPipeline : ℕ → ℕ → ℕ → ℕ → Type 0
FillsPipeline total requested received r =
    (requested ≤ r)
    × (r ≤ total)
    × ((r ≡ requested) ⊎ (r ≤ received + 5))
    × ((r ≡ total) ⊎ (received + 5 ≤ r))

-- The blocks from the k-th on and in front of the r-th of a piece of n bytes are asked for in turn, each
-- by one request that is sent without an error: block k is the 16384 bytes at k * 16384, or what the
-- piece has of them. Nothing else is sent.
pub data AreRequested {W : Type 0} (net : Sockets W) (n : ℕ) (index : ℤ)
    : ℕ → ℕ → Downloader W → Downloader W → Type 0 where
  no_more : {k : ℕ} {s : Downloader W} → AreRequested net n index k k s s
  sent :
      {k r : ℕ} {s u t : Downloader W} (a : Empty)
      → send_message net
          (request index (pos (k * 16384)) (pos (min 16384 (n - k * 16384))))
          (seconds 5)
          s
        ≡ (returns (ok a), u)
      → AreRequested net n index (suc k) r u t
      → AreRequested net n index k r s t

length_of_block : (n k : ℕ) → k < blocks_total n → block_length n k ≡ min 16384 (n - k * 16384)
unfolding block_length
length_of_block n k h =
    let (lo, hi) = blocks_total_covers n in
    elim (Bool-cases (k == blocks_total n - 1)) [
      | inl e ↦ rw e (ground arith)
      | inr e ↦ rw e (ground arith)
    ]

abbrev asked_by : ℤ → ℕ → ℕ → Message
asked_by index begin len = request index (pos begin) (pos len)

spelled :
    (n k : ℕ) (index : ℤ)
    → k < blocks_total n
    → asked_by index (block_offset k) (block_length n k)
      ≡ asked_by index (k * 16384) (min 16384 (n - k * 16384))
unfolding block_offset
spelled n k index h = ap (asked_by index (k * 16384)) (length_of_block n k h)

-- A call that goes on behind a call and is valid has a valid first part.
proceed-valid :
    {D A B : Type 0} (m : Exec (Result A DownloaderError) × D) (f : A → Method D B) (b : B) (t : D)
    → proceed m f ≡ (returns (ok b), t)
    → (a : A) × (u : D) × (m ≡ (returns (ok a), u)) × (f a u ≡ (returns (ok b), t))
proceed-valid (returns (ok a), s) f b t e = (a, s, refl, e)
proceed-valid (returns (error x), s) f b t e =
    absurd (let f : returns (error x) ≡ returns (ok b) = ap (λ p. p.0) e in cc)
proceed-valid (throws x, s) f b t e =
    absurd (let f : throws x ≡ returns (ok b) = ap (λ p. p.0) e in cc)
proceed-valid (undefined, s) f b t e =
    absurd (let f : undefined ≡ returns (ok b) = ap (λ p. p.0) e in cc)
proceed-valid (out_of_fuel, s) f b t e =
    absurd (let f : out_of_fuel ≡ returns (ok b) = ap (λ p. p.0) e in cc)

done-parts : {D A : Type 0} (a b : A) (s t : D) → done a s ≡ (returns (ok b), t) → (a ≡ b) × (s ≡ t)
done-parts a b s t e =
    let f : returns (ok a) ≡ returns (ok b) = ap (λ p. p.0) e in (cc, ap (λ p. p.1) e)

module _ {W : Type 0} (net : Sockets W) (torrent : TorrentFile) (n : ℕ) (index : ℤ) where
  none_requested :
      (received k r : ℕ) (s t : Downloader W)
      → done k s ≡ (returns (ok r), t)
      → (k ≡ blocks_total n) ⊎ (received + 5 ≤ k)
      → k ≤ blocks_total n
      → AreRequested net n index k r s t × FillsPipeline (blocks_total n) k received r
  none_requested received k r s t e full h =
      let (same_k, after) = done-parts k r s t e in
      subst (λ m. AreRequested net n index k m s t × FillsPipeline (blocks_total n) k received m)
        same_k
        (subst (AreRequested net n index k k s) after no_more, (omega arith, h, inl refl, full))

  request_blocks-requested :
      (left received k r : ℕ) (s t : Downloader W)
      → k + left ≡ blocks_total n
      → request_blocks net torrent left n index k received s ≡ (returns (ok r), t)
      → AreRequested net n index k r s t × FillsPipeline (blocks_total n) k received r
  unfolding request_blocks
  request_blocks-requested zero received k r s t l e =
      none_requested received k r s t e (inl (omega (arith, l))) (omega (arith, l))
  request_blocks-requested (suc left) received k r s t l e =
      let message : Message = request index (pos (block_offset k)) (pos (block_length n k)) in
      let later : Method (Downloader W) ℕ =
        request_blocks net torrent left n index (k + 1) received in
      let asks : Method (Downloader W) ℕ =
        λ v. proceed (send_message net message (seconds 5) v) (λ _. later) in
      let test = ltb k (received + pipeline_size_max) in
      let at_s : Method (Downloader W) ℕ → Exec (Result ℕ DownloaderError) × Downloader W =
        λ m. m s in
      elim (Bool-cases test) [
        | inl more ↦
            let (a, u, first, rest) =
              proceed-valid (send_message net message (seconds 5) s) (λ _. later) r t
                (sym (ap at_s (if-true {b = test} asks (done k) more)) ∙ e) in
            let (requests, fills) =
              request_blocks-requested left received (k + 1) r u t (omega (arith, l)) rest in
            let same = spelled n k index (omega (arith, l)) in
            (
              sent {u = u} a (ap (λ m. send_message net m (seconds 5) s) (sym same) ∙ first)
                  (subst (λ m. AreRequested net n index m r u t) (omega arith) requests),
              (ground arith, ground arith, ground arith, ground arith),
            )
        | inr full ↦
            none_requested received k r s t
              (sym (ap at_s (if-false {b = test} asks (done k) full)) ∙ e) (inr (ground arith))
              (omega (arith, l))
      ]

-- Where the peer chokes, a round sends nothing and changes nothing. Where it does not, and at most as
-- many blocks are requested as the piece of n bytes has, a round that succeeds asks for the next
-- blocks in turn, each at its place in the piece and at its length, and sends nothing else; it asks
-- for none behind the last one and for none where five or more are under way, and stops when five are
-- under way or all are requested.
pub request_unchoked-FillsPipeline :
    {W : Type 0} (net : Sockets W) (torrent : TorrentFile) (n : ℕ) (index : ℤ) (x y : Transfer)
    (s t : Downloader W)
    → x.requested ≤ blocks_total n
    → request_unchoked net torrent n index x s ≡ (returns (ok y), t)
    → ((s.choked ≡ true) × (y ≡ x) × (t ≡ s))
      ⊎ ((s.choked ≡ false)
          × (y ≡ record x { requested = y.requested })
          × AreRequested net n index x.requested y.requested s t
          × FillsPipeline (blocks_total n) x.requested x.received y.requested)
unfolding request_unchoked
request_unchoked-FillsPipeline {W} net torrent n index x y s t h e = elim (Bool-cases s.choked) [
  | inl choked ↦
      let (same, after) =
        done-parts x y s t (sym (if-true {b = s.choked} (done x s) _ choked) ∙ e) in
      inl (choked, sym same, sym after)
  | inr unchoked ↦
      let asked =
        request_blocks net torrent (blocks_total n - x.requested) n index x.requested x.received
          s in
      let more = λ (r : ℕ). done {D = Downloader W} (record x { requested = r }) in
      let (r, u, first, rest) =
        proceed-valid asked more y t (sym (if-false {b = s.choked} (done x s) _ unchoked) ∙ e) in
      let (same, after) = done-parts (record x { requested = r }) y u t rest in
      let (asked_for, fills) =
        request_blocks-requested net torrent n index (blocks_total n - x.requested) x.received
          x.requested r s u (omega arith) first in
      let count : r ≡ y.requested = ap (λ (z : Transfer). z.requested) same in
      inr (
        unchoked,
        sym same ∙ ap (λ (m : ℕ). record x { requested = m }) count,
        subst (AreRequested net n index x.requested y.requested s) after
            (subst (λ m. AreRequested net n index x.requested m s u) count asked_for),
        subst (FillsPipeline (blocks_total n) x.requested x.received) count fills,
      )
]
