-- ===== src/Torrent/Rounds.antt =====
-- Torrent::pieces in src/torrent.cpp, a round of its outer loop, and the descriptors that it is for.
use furrent.Prelude.{
  ℕ, zero, suc, ◌+◌, ◌-◌, ◌*◌, ◌/◌, ◌≤◌, ◌<◌, ◌≡◌, ltb, ltb→lt, refl, List, [], ◌∷◌, length,
  get_elem?, take, some, none, arith, returns, undefined, inl, inr, Bool-cases, if-true, false,
}
use furrent.Torrent.{
  File, Descriptor, Subpiece, Piece, Cursor, fill, length_of_piece, subpieces_of, pieces_from,
}
use furrent.Torrent.Cover.{total}
use furrent.Torrent.Fill.{
  At, Filled, Filled-part, fill-Filled, file_at-found, total-take-suc, total-take-le,
}

-- What the constructor of TorrentFile leaves: the length is that of the files together, and the
-- number of pieces is the length over that of a piece, rounded up.
pub record IsConsistent (d : Descriptor) : Type 0 where
  pub some_piece : 0 < d.piece_length
  pub some_bytes : 0 < d.length
  pub sum : total d.files ≡ d.length
  pub count : d.pieces_count ≡ (d.length + d.piece_length - 1) / d.piece_length

-- The length of the last piece.
abbrev pub last_length : Descriptor → ℕ
last_length d = d.length - (d.pieces_count - 1) * d.piece_length

pub count_bounds :
    (n p c : ℕ) → 0 < p → 0 < n → c ≡ (n + p - 1) / p → (0 < c) × ((c - 1) * p < n) × (n ≤ c * p)
count_bounds n p c h k e = (grind arith, grind arith, grind arith)

pub total-take_mono :
    (files : List File) (k m : ℕ) → k ≤ m → total (take k files) ≤ total (take m files)
total-take_mono files zero m h = omega arith
total-take_mono files (suc k) zero h = absurd (omega arith)
total-take_mono [] (suc k) (suc m) h = omega arith
total-take_mono (f ∷ files) (suc k) (suc m) h =
    omega (arith, total-take_mono files k m (omega arith))

pub total-take_all :
    (files : List File) (k : ℕ) → length files ≤ k → total (take k files) ≡ total files
total-take_all [] zero h = refl
total-take_all [] (suc k) h = refl
total-take_all (f ∷ files) zero h = absurd (omega arith)
total-take_all (f ∷ files) (suc k) h = omega (arith, total-take_all files k (omega arith))

-- The files before the last one leave room for it.
pub total-take-last :
    (files : List File) (k : ℕ) (last : File)
    → k < length files
    → get_elem? files (length files - 1) ≡ some last
    → total (take k files) + last.length ≤ total files
total-take-last files k last h e = omega (
  arith,
  total-take_mono files k (length files - 1) (omega arith),
  total-take-suc files (length files - 1) last e,
  total-take-le files (suc (length files - 1)),
)

module _ (files : List File) (c : Cursor) (need remaining : ℕ) (a : At files c remaining) where
  pub subpieces_of-part :
      need ≤ c.cur_file_rem_size
      → need ≤ remaining
      → Filled files c need remaining (subpieces_of files c need)
  unfolding subpieces_of
  subpieces_of-part h k =
      let single : ltb c.cur_file_rem_size need ≡ false = ground arith in
      rw (single, file_at-found files c.cur_file a.file a.found)
        (Filled-part files c need remaining a h k)

  pub subpieces_of-several :
      c.cur_file_rem_size < need → subpieces_of files c need ≡ fill (length files) files c need
  unfolding subpieces_of
  subpieces_of-several h = if-true {b = ltb c.cur_file_rem_size need} _ _ (ground arith)

  -- Any piece behind which bytes are left.
  pub subpieces_of-Filled :
      need < remaining → Filled files c need remaining (subpieces_of files c need)
  subpieces_of-Filled h = elim (Bool-cases (ltb c.cur_file_rem_size need)) [
    | inl several ↦
        rw (subpieces_of-several (ltb→lt _ _ several))
          (fill-Filled (length files) files c need remaining a (omega arith) h)
    | inr single ↦ subpieces_of-part (ground arith) (omega arith)
  ]

-- One round of the outer loop.
pub pieces_from-step :
    (d : Descriptor) (rounds index n : ℕ) (c c' : Cursor) (subpieces : List Subpiece)
    (ps : List Piece)
    → length_of_piece d index ≡ n
    → subpieces_of d.files c n ≡ returns (subpieces, c')
    → pieces_from d rounds (suc index) c' ≡ returns ps
    → pieces_from d (suc rounds) index c
      ≡ returns (record { index = index; subpieces = subpieces } ∷ ps)
unfolding pieces_from
pieces_from-step d rounds index n c c' subpieces ps l r q = rw (l, r, q)

-- A round whose later rounds fail.
pub pieces_from-fails :
    (d : Descriptor) (rounds index n : ℕ) (c c' : Cursor) (subpieces : List Subpiece)
    → length_of_piece d index ≡ n
    → subpieces_of d.files c n ≡ returns (subpieces, c')
    → pieces_from d rounds (suc index) c' ≡ undefined
    → pieces_from d (suc rounds) index c ≡ undefined
unfolding pieces_from
pieces_from-fails d rounds index n c c' subpieces l r q = rw (l, r, q)

pub missing-le {ℓ} : {A : Type ℓ} (xs : List A) (k : ℕ) → get_elem? xs k ≡ none → length xs ≤ k
missing-le [] k h = omega arith
missing-le (x ∷ xs) zero h = absurd (cc)
missing-le (x ∷ xs) (suc k) h = omega (arith, missing-le xs k h)

pub pieces_from_none :
    (d : Descriptor) (index : ℕ) (c : Cursor) → pieces_from d 0 index c ≡ returns []
unfolding pieces_from
pieces_from_none d index c = refl
