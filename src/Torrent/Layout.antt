-- ===== src/Torrent/Layout.antt =====
-- Torrent::pieces in src/torrent.cpp, piece by piece: where the next one begins, and what happens at
-- the last file.
use furrent.Prelude.{
  ℕ, zero, suc, ◌+◌, ◌-◌, ◌*◌, ◌≤◌, ◌<◌, ◌≡◌, ◌==◌, ltb, ltb→lt, refl, sym, subst, ap, ◌∙◌, List,
  [], ◌∷◌, length, get_elem?, take, some, arith, Exec, returns, undefined, All-get, Option-cases,
  ◌⊎◌, inl, inr, Bool-cases, if-true, if-false,
}
use furrent.Torrent.{
  File, Descriptor, Piece, Cursor, at_start, length_of_piece, pieces_from, pieces,
}
use furrent.Torrent.Cover.{total, Tiles}
use furrent.Torrent.Fill.{
  offset, At, fill_behind_end, NonEmpty, file_at-found, total-take-suc, total-take-le, found-lt,
  next_file, file_behind,
}
use furrent.Torrent.Rounds.{
  IsConsistent, last_length, count_bounds, total-take_all, total-take-last, subpieces_of-part,
  subpieces_of-several, subpieces_of-Filled, pieces_from-step, pieces_from-fails, missing-le,
  pieces_from_none,
}

-- The last piece is shorter than the last file, or there is one file only.
abbrev pub EndsWithin : Descriptor → File → Type 0
EndsWithin d last = (length d.files ≡ 1) ⊎ (last_length d < last.length)

module _ (d : Descriptor) (last : File) (i : IsConsistent d)
    (e : get_elem? d.files (length d.files - 1) ≡ some last) where
  open d use {files, piece_length, pieces_count}

  -- What is left when a piece begins.
  abbrev left : ℕ → ℕ
  left index = d.length - index * piece_length

  bounds :
      (0 < pieces_count)
      × ((pieces_count - 1) * piece_length < d.length)
      × (d.length ≤ pieces_count * piece_length)
  bounds = count_bounds d.length piece_length pieces_count i.some_piece i.some_bytes i.count

  -- At the last piece the cursor stands in the last file.
  last_within :
      (c : Cursor)
      → At files c (last_length d)
      → EndsWithin d last
      → last_length d ≤ c.cur_file_rem_size
  last_within c a (inl one) = omega (
    arith,
    a.position,
    a.tot,
    a.room,
    total-take-suc files c.cur_file a.file a.found,
    total-take_all files (suc c.cur_file) (omega arith),
  )
  last_within c a (inr long) = elim (Bool-cases (ltb c.cur_file_rem_size (last_length d))) [
    | inr within ↦ ground arith
    | inl beyond ↦
        let (file, f) = next_file files c (last_length d) a (ltb→lt _ _ beyond) in
        absurd (
          omega (
            arith,
            a.position,
            a.tot,
            a.room,
            total-take-suc files c.cur_file a.file a.found,
            total-take-last files (suc c.cur_file) last (found-lt files (suc c.cur_file) f) e,
          ))
  ]

  not_last :
      (index : ℕ)
      → suc index < pieces_count
      → (length_of_piece d index ≡ piece_length) × (piece_length < left index)
  unfolding length_of_piece
  not_last index h =
      (if-false {b = index == pieces_count - 1} _ _ (ground arith), grind (arith, bounds.1))

  is_last :
      (index : ℕ)
      → suc index ≡ pieces_count
      → (length_of_piece d index ≡ last_length d) × (left index ≡ last_length d)
  unfolding length_of_piece
  is_last index h = (
    if-true {b = index == pieces_count - 1} _ _ (ground arith),
    ap (λ (k : ℕ). d.length - k * piece_length) (omega arith),
  )

  -- Where a piece begins, and how long it is.
  begins :
      (index : ℕ) (c : Cursor)
      → index < pieces_count
      → At files c (left index)
      → total (take c.cur_file files) + offset c ≡ index * piece_length
  begins index c h a =
      let before : index * piece_length ≤ d.length = grind (arith, bounds.1) in
      omega (arith, a.position, i.sum, before)

  pieces_from-Tiles :
      (rounds index : ℕ) (c : Cursor)
      → suc rounds + index ≡ pieces_count
      → At files c (left index)
      → EndsWithin d last
      → (ps : List Piece) × (pieces_from d (suc rounds) index c ≡ returns ps)
        × Tiles d index c.cur_file (offset c) ps
  pieces_from-Tiles zero index c h a w =
      let (l, m) = is_last index (omega arith) in
      let (subpieces, c', r, covers, sized, a') =
        subpieces_of-part files c (last_length d) (left index) a
          (last_within c (subst (At files c) m a) w) (omega (arith, m)) in
      let short : last_length d ≤ piece_length = grind (arith, bounds.2) in
      (
        record { index = index; subpieces = subpieces } ∷ [],
        pieces_from-step d 0 index (last_length d) c c' subpieces [] l r
            (pieces_from_none d (suc index) c'),
        (
          refl,
          begins index c (omega arith) a,
          omega (arith, sized, m, short),
          c'.cur_file,
          offset c',
          covers,
          (omega (arith, a'.position, i.sum, m), omega arith),
        ),
      )
  pieces_from-Tiles (suc rounds) index c h a w =
      let (l, more) = not_last index (omega arith) in
      let (subpieces, c', r, covers, sized, a') =
        subpieces_of-Filled files c piece_length (left index) a more in
      let (ps, q, tiles) =
        pieces_from-Tiles rounds (suc index) c' (omega arith) (subst (At files c') (omega arith) a')
          w in
      (
        record { index = index; subpieces = subpieces } ∷ ps,
        pieces_from-step d (suc rounds) index piece_length c c' subpieces ps l r q,
        (
          refl,
          begins index c (omega arith) a,
          omega (arith, sized, more),
          c'.cur_file,
          offset c',
          covers,
          tiles,
        ),
      )

  -- A last piece that is longer than the last file begins before that file.
  beyond :
      (c : Cursor)
      → At files c (last_length d)
      → NonEmpty files
      → last.length < last_length d
      → c.cur_file_rem_size < last_length d
  beyond c a n w = elim (Option-cases (get_elem? files (suc c.cur_file))) [
    | inl missing ↦
        let at_end : c.cur_file ≡ length files - 1 =
          omega
            (arith, found-lt files c.cur_file a.found, missing-le files (suc c.cur_file) missing) in
        let same : a.file ≡ last = cc (a.found, e, ap (get_elem? files) at_end) in
        let shorter : a.file.length ≡ last.length = ap (λ (f : File). f.length) same in
        omega (arith, a.room, shorter)
    | inr (file, f) ↦
        let nonempty = All-get (λ (x : File). 0 < x.length) files (suc c.cur_file) file n f in
        omega (
          arith,
          nonempty,
          a.position,
          a.tot,
          a.room,
          total-take-suc files c.cur_file a.file a.found,
          total-take-suc files (suc c.cur_file) file f,
          total-take-le files (suc (suc c.cur_file)),
        )
  ]

  pieces_from-undefined :
      (rounds index : ℕ) (c : Cursor)
      → suc rounds + index ≡ pieces_count
      → At files c (left index)
      → NonEmpty files
      → last.length < last_length d
      → pieces_from d (suc rounds) index c ≡ undefined
  unfolding pieces_from
  pieces_from-undefined zero index c h a n w =
      let (l, m) = is_last index (omega arith) in
      let a' = subst (At files c) m a in
      let behind =
        fill_behind_end (length files) files c (last_length d) a' (omega arith) (omega arith) n in
      rw (
        l,
        subpieces_of-several files c (last_length d) (last_length d) a' (beyond c a' n w),
        behind,
      )
  pieces_from-undefined (suc rounds) index c h a n w =
      let (l, more) = not_last index (omega arith) in
      let (subpieces, c', r, _, _, a') =
        subpieces_of-Filled files c piece_length (left index) a more in
      pieces_from-fails d (suc rounds) index piece_length c c' subpieces l r (
        pieces_from-undefined rounds (suc index) c' (omega arith)
          (subst (At files c') (omega arith) a') n w)

at_start-At :
    (d : Descriptor) (file : File)
    → IsConsistent d
    → get_elem? d.files 0 ≡ some file
    → At d.files (at_start 0 file) (d.length - 0 * d.piece_length)
at_start-At d file i e = record {
  file = file;
  found = e;
  tot = refl;
  room = omega arith;
  position = omega (arith, i.sum);
}

-- The first of at least one file.
first_file : (d : Descriptor) → IsConsistent d → (file : File) × (get_elem? d.files 0 ≡ some file)
first_file d i = file_behind d.files 0 (omega (arith, i.sum, i.some_bytes))

rounds_of : (d : Descriptor) → IsConsistent d → suc (d.pieces_count - 1) ≡ d.pieces_count
rounds_of d i = omega (
  arith,
  (count_bounds d.length d.piece_length d.pieces_count i.some_piece i.some_bytes i.count).0,
)

pieces-start :
    (d : Descriptor) (file : File) (rounds : ℕ) {r : Exec (List Piece)}
    → get_elem? d.files 0 ≡ some file
    → rounds ≡ d.pieces_count
    → pieces_from d rounds 0 (at_start 0 file) ≡ r
    → pieces d ≡ r
unfolding pieces
pieces-start d file rounds {r} f e q =
    rw (file_at-found d.files 0 file f)
      (ap (λ (n : ℕ). pieces_from d n 0 (at_start 0 file)) (sym e) ∙ q)

-- The pieces of a consistent descriptor whose last piece is shorter than its last file, or which has one
-- file only, tile the files: piece i has index i, begins at byte
-- i * piece_length, has piece_length bytes or what is left, and its subpieces are consecutive ranges
-- of the files that are named; the last piece ends with the last byte.
pub pieces-Tiles :
    (d : Descriptor) (last : File)
    → IsConsistent d
    → get_elem? d.files (length d.files - 1) ≡ some last
    → EndsWithin d last
    → (ps : List Piece) × (pieces d ≡ returns ps) × Tiles d 0 0 0 ps
pieces-Tiles d last i e w =
    let (file, f) = first_file d i in
    let (ps, r, tiles) =
      pieces_from-Tiles d last i e (d.pieces_count - 1) 0 (at_start 0 file)
        (omega (arith, rounds_of d i)) (at_start-At d file i f) w in
    (
      ps,
      pieces-start d file (suc (d.pieces_count - 1)) f (rounds_of d i) r,
      subst (λ o. Tiles d 0 0 o ps) (omega arith) tiles,
    )

-- The pieces of a consistent descriptor with no empty file, whose last piece is longer than its last
-- file, cannot be computed: the loop ends the last file and reads the length of a file behind it.
pub pieces_behind_end :
    (d : Descriptor) (last : File)
    → IsConsistent d
    → get_elem? d.files (length d.files - 1) ≡ some last
    → NonEmpty d.files
    → last.length < last_length d
    → pieces d ≡ undefined
pieces_behind_end d last i e n w =
    let (file, f) = first_file d i in
    pieces-start d file (suc (d.pieces_count - 1)) f (rounds_of d i) (
      pieces_from-undefined d last i e (d.pieces_count - 1) 0 (at_start 0 file)
        (omega (arith, rounds_of d i)) (at_start-At d file i f) n w)
