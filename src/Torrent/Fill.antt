-- ===== src/Torrent/Fill.antt =====
-- The inner loop of Torrent::pieces in src/torrent.cpp, which splits a piece over files.
use furrent.Prelude.{
  ℕ, zero, suc, ◌+◌, ◌-◌, ◌≤◌, ◌<◌, ◌≡◌, ◌==◌, ==_iff, leb, leb→le, refl, subst, List, [], ◌∷◌,
  length, get_elem?, none, some, take, arith, All, All-get, Exec, returns, undefined, ◌>>=◌, inl,
  inr, Bool-cases, Option-cases, if-true, true, false,
}
use furrent.Torrent.{File, Subpiece, Cursor, file_at, at_start, subpiece, advance, fill}
use furrent.Torrent.Cover.{Covers, stop, range, next, size, total}

-- The bytes of the cursor's file that are taken already.
abbrev pub offset : Cursor → ℕ
offset c = c.cur_file_tot_size - c.cur_file_rem_size

-- The cursor stands in a file, and `remaining` bytes of the files come behind it.
pub record At (files : List File) (c : Cursor) (remaining : ℕ) : Type 0 where
  pub file : File
  pub found : get_elem? files c.cur_file ≡ some file
  pub tot : c.cur_file_tot_size ≡ file.length
  pub room : c.cur_file_rem_size ≤ file.length
  pub position : total (take c.cur_file files) + offset c + remaining ≡ total files

pub total-take-suc :
    (files : List File) (k : ℕ) (file : File)
    → get_elem? files k ≡ some file
    → total (take (suc k) files) ≡ total (take k files) + file.length
total-take-suc [] k file e = absurd (cc)
total-take-suc (f ∷ files) zero file e = ground arith
total-take-suc (f ∷ files) (suc k) file e = omega (arith, total-take-suc files k file e)

pub total-take-le : (files : List File) (k : ℕ) → total (take k files) ≤ total files
total-take-le files zero = omega arith
total-take-le [] (suc k) = omega arith
total-take-le (f ∷ files) (suc k) = omega (arith, total-take-le files k)

-- Where bytes are left behind the first k files, there is a k-th file.
pub file_behind :
    (files : List File) (k : ℕ)
    → total (take k files) < total files
    → (file : File) × (get_elem? files k ≡ some file)
file_behind [] zero h = absurd (omega arith)
file_behind [] (suc k) h = absurd (omega arith)
file_behind (f ∷ files) zero h = (f, refl)
file_behind (f ∷ files) (suc k) h = file_behind files k (omega arith)

pub found-lt :
    (files : List File) (k : ℕ) {file : File} → get_elem? files k ≡ some file → k < length files
found-lt [] k e = absurd (cc)
found-lt (f ∷ files) zero e = omega arith
found-lt (f ∷ files) (suc k) e = omega (arith, found-lt files k e)

pub file_at-found :
    (files : List File) (k : ℕ) (file : File)
    → get_elem? files k ≡ some file
    → file_at files k ≡ returns file
unfolding file_at
file_at-found files k file e = rw (e, file_at)

pub file_at-missing :
    (files : List File) (k : ℕ) → get_elem? files k ≡ none → file_at files k ≡ undefined
unfolding file_at
file_at-missing files k e = rw (e, file_at)

-- The cursor moved on within its file, and to the next file.
module _ (files : List File) (c : Cursor) (remaining : ℕ) (a : At files c remaining) where
  pub advance-At :
      (n : ℕ) → n ≤ c.cur_file_rem_size → n ≤ remaining → At files (advance c n) (remaining - n)
  advance-At n h k = record {
    file = a.file;
    found = a.found;
    tot = a.tot;
    room = omega (arith, a.room);
    position = omega (arith, a.position, a.tot, a.room);
  }

  pub next_file :
      c.cur_file_rem_size < remaining
      → (file : File) × (get_elem? files (suc c.cur_file) ≡ some file)
  next_file h =
      file_behind files (suc c.cur_file)
        (omega (arith, a.position, a.tot, a.room, total-take-suc files c.cur_file a.file a.found))

  pub next-At :
      (file : File)
      → get_elem? files (suc c.cur_file) ≡ some file
      → c.cur_file_rem_size ≤ remaining
      → At files (at_start (suc c.cur_file) file) (remaining - c.cur_file_rem_size)
  next-At file e h = record {
    file = file;
    found = e;
    tot = refl;
    room = omega arith;
    position =
        omega (arith, a.position, a.tot, a.room, total-take-suc files c.cur_file a.file a.found);
  }

  -- The next `n` bytes of the file are a range.
  pub range_of :
      (n : ℕ) {subpieces : List Subpiece} {k' off' : ℕ}
      → n ≤ c.cur_file_rem_size
      → Covers files c.cur_file (offset c + n) subpieces k' off'
      → Covers files c.cur_file (offset c) (subpiece a.file c n ∷ subpieces) k' off'
  range_of n h r = range a.file n a.found (omega (arith, a.tot, a.room)) r

-- Where more bytes are left than the piece needs, the loop ends with the next `need` bytes.
abbrev pub Filled : List File → Cursor → ℕ → ℕ → Exec (List Subpiece × Cursor) → Type 0
Filled files c need remaining result =
    (subpieces : List Subpiece) × (c' : Cursor) × (result ≡ returns (subpieces, c'))
    × Covers files c.cur_file (offset c) subpieces c'.cur_file (offset c')
    × (size subpieces ≡ need)
    × At files c' (remaining - need)

module _ (files : List File) (c : Cursor) (need remaining : ℕ) (a : At files c remaining) where
  -- The piece ends in this file.
  pub Filled-part :
      need ≤ c.cur_file_rem_size
      → need ≤ remaining
      → Filled files c need remaining (returns (subpiece a.file c need ∷ [], advance c need))
  Filled-part h k = (
    subpiece a.file c need ∷ [],
    advance c need,
    refl,
    range_of files c remaining a need h
        (coverage_end files c.cur_file (omega (arith, a.tot, a.room))),
    omega arith,
    advance-At files c remaining a need h k,
  )
    where
      coverage_end :
          (files : List File) (k : ℕ) {off off' : ℕ} → off ≡ off' → Covers files k off [] k off'
      coverage_end files k {off} e = subst (Covers files k off [] k) e stop

  -- The piece takes what is left of this file, and the rest from the next file on.
  Filled-entire :
      (file : File) (more : Exec (List Subpiece × Cursor))
      → get_elem? files (suc c.cur_file) ≡ some file
      → c.cur_file_rem_size ≤ need
      → need < remaining
      → Filled files
          (at_start (suc c.cur_file) file)
          (need - c.cur_file_rem_size)
          (remaining - c.cur_file_rem_size)
          more
      → Filled files c need remaining (
          more >>= λ (subpieces, c').
          returns (subpiece a.file c c.cur_file_rem_size ∷ subpieces, c'))
  Filled-entire file more e h k (subpieces, c', r, covered, sized, at) = (
    subpiece a.file c c.cur_file_rem_size ∷ subpieces,
    c',
    rw r,
    range_of files c remaining a c.cur_file_rem_size (omega arith) (
        next a.file a.found (omega (arith, a.tot, a.room)) (
          subst (λ o. Covers files (suc c.cur_file) o subpieces c'.cur_file (offset c'))
            (self (file.length)) covered)),
    omega (arith, sized),
    subst (At files c') (omega arith) at,
  )
    where
      self : (n : ℕ) → n - n ≡ 0
      self n = omega arith

-- With a round for each file from the cursor on, the loop gives the next `need` bytes, if more are
-- left.
pub fill-Filled :
    (fuel : ℕ) (files : List File) (c : Cursor) (need remaining : ℕ)
    → At files c remaining
    → length files ≤ c.cur_file + fuel
    → need < remaining
    → Filled files c need remaining (fill fuel files c need)
unfolding fill
fill-Filled zero files c need remaining a f h =
    absurd (omega (arith, found-lt files c.cur_file a.found))
fill-Filled (suc fuel) files c need remaining a f h = elim (Bool-cases (need == 0)) [
  | inl none_left ↦
      let z : need ≡ 0 = (==_iff _ _).0 none_left in
      ([], c, if-true _ _ none_left, stop, omega arith, subst (At files c) (omega arith) a)
  | inr some_left ↦ elim (Bool-cases (leb c.cur_file_rem_size need)) [
    | inl fits ↦
        let (file, e) = next_file files c remaining a (omega (arith, leb→le _ _ fits)) in
        let le : c.cur_file_rem_size ≤ need = leb→le _ _ fits in
        rw
          (
            some_left,
            fits,
            file_at-found files c.cur_file a.file a.found,
            file_at-found files (suc c.cur_file) file e,
          )
          (Filled-entire files c need remaining a file _ e le h (
            fill-Filled fuel files (at_start (suc c.cur_file) file) (need - c.cur_file_rem_size)
              (remaining - c.cur_file_rem_size) (next-At files c remaining a file e (omega arith))
              (omega arith) (omega arith)))
    | inr within ↦
        rw (some_left, within, file_at-found files c.cur_file a.file a.found)
          (Filled-part files c need remaining a (ground arith) (omega arith))
  ]
]

abbrev pub NonEmpty : List File → Type 0
NonEmpty = All λ (file : File). 0 < file.length

pub rem-le :
    (files : List File) (c : Cursor) (remaining : ℕ)
    → At files c remaining
    → c.cur_file_rem_size ≤ remaining
rem-le files c remaining a = omega (
  arith,
  a.position,
  a.tot,
  a.room,
  total-take-suc files c.cur_file a.file a.found,
  total-take-le files (suc c.cur_file),
)

-- A piece that takes all that is left ends the last file in this loop, which then reads the length
-- of a file behind it.
pub fill_behind_end :
    (fuel : ℕ) (files : List File) (c : Cursor) (need : ℕ)
    → At files c need
    → length files ≤ c.cur_file + fuel
    → 0 < need
    → NonEmpty files
    → fill fuel files c need ≡ undefined
unfolding fill
fill_behind_end zero files c need a f h n =
    absurd (omega (arith, found-lt files c.cur_file a.found))
fill_behind_end (suc fuel) files c need a f h n =
    let le : c.cur_file_rem_size ≤ need = rem-le files c need a in
    let fits : leb c.cur_file_rem_size need ≡ true = ground arith in
    let some_left : (need == 0) ≡ false = ground arith in
    elim (Option-cases (get_elem? files (suc c.cur_file))) [
      | inl missing ↦ rw (
        some_left,
        fits,
        file_at-found files c.cur_file a.file a.found,
        file_at-missing files (suc c.cur_file) missing,
      )
      | inr (file, e) ↦
          let at = next-At files c need a file e le in
          let nonempty = All-get (λ (x : File). 0 < x.length) files (suc c.cur_file) file n e in
          rw (
            some_left,
            fits,
            file_at-found files c.cur_file a.file a.found,
            file_at-found files (suc c.cur_file) file e,
            fill_behind_end fuel files (at_start (suc c.cur_file) file) (need - c.cur_file_rem_size)
                at (omega arith) (omega (arith, rem-le files (at_start (suc c.cur_file) file) _ at))
                n,
          )
    ]
