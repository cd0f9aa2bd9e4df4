-- ===== src/Download/Bitfield/Writes.antt =====
-- A bitfield of src/download/bitfield.cpp as an array of booleans: its reads and writes within bounds
-- and outside.
use furrent.Prelude.{
  ℕ, ◌+◌, ◌/◌, ◌%◌, ◌<◌, ◌≡◌, ◌≢◌, refl, ap, ◌==◌, ==_iff, List, [], ◌∷◌, Bool, false,
  if◌then◌else◌, length, get_elem?, set, replicate, All, All-get, All-set, All-replicate,
  length-set, get_elem?-set_self, get_elem?-set_ne, get_elem?-lt, get_elem?-replicate,
  length-replicate, some, Exec, returns, ◌∙◌, sym, if-false, Bool-cases, inl, inr, ◌>>=◌, arith,
}
use Prim.Native.Nat.{bit_and-bitwise}
use furrent.Prelude.Int.{pos}
use furrent.Download.Bitfield.{Bitfield, zeroed, set_to, get, mask, bit_of, put_bit}
use furrent.Download.Bitfield.Bytes.{put_bit-lt, bit_of-put_bit}

-- `n` bits in as many bytes as they need.
pub record IsValid (n : ℕ) (bf : Bitfield) : Type 0 where
  pub counted : bf.len ≡ pos n
  pub room : length bf.storage ≡ (n + 7) / 8
  pub bytes : All (λ b. b < 256) bf.storage

-- The byte that holds a bit.
pub byte_of :
    (n i : ℕ) (bf : Bitfield)
    → IsValid n bf
    → i < n
    → (b : ℕ) × (get_elem? bf.storage (i / 8) ≡ some b) × (b < 256)
byte_of n i bf v h =
    let (b, e) = get_elem?-lt bf.storage (i / 8) (omega (arith, v.room)) in
    (b, e, All-get (λ x. x < 256) bf.storage (i / 8) b v.bytes e)

get_at :
    (n i b : ℕ) (bf : Bitfield)
    → IsValid n bf
    → i < n
    → get_elem? bf.storage (i / 8) ≡ some b
    → get bf (pos i) ≡ returns (bit_of b (i % 8))
unfolding get
get_at n i b bf v h e = ground arith

-- Reading within bounds finds a bit, whatever the storage holds.
pub get-total :
    (n i : ℕ) (bf : Bitfield) → IsValid n bf → i < n → (v : Bool) × (get bf (pos i) ≡ returns v)
get-total n i bf v h =
    let (b, e, _) = byte_of n i bf v h in (bit_of b (i % 8), get_at n i b bf v h e)

set_at :
    (n i b : ℕ) (bf : Bitfield) (v : Bool)
    → IsValid n bf
    → i < n
    → get_elem? bf.storage (i / 8) ≡ some b
    → set_to bf (pos i) v
      ≡ returns (record bf { storage = set bf.storage (i / 8) (put_bit b (i % 8) v) })
unfolding set_to
set_at n i b bf v w h e = ground arith

-- The state after a write: one byte is put anew.
abbrev written_to : (bf : Bitfield) (i b : ℕ) (v : Bool) → Bitfield
written_to bf i b v = record bf { storage = set bf.storage (i / 8) (put_bit b (i % 8) v) }

module _ (n i b : ℕ) (bf : Bitfield) (v : Bool) (w : IsValid n bf) (h : i < n) (hb : b < 256)
    (e : get_elem? bf.storage (i / 8) ≡ some b) where
  written_to-IsValid : IsValid n (written_to bf i b v)
  written_to-IsValid = record {
    counted = w.counted;
    room = length-set bf.storage (i / 8) (put_bit b (i % 8) v) ∙ w.room;
    bytes =
        All-set (λ x. x < 256) bf.storage (i / 8) _ w.bytes
          (put_bit-lt v (i % 8) (i % 8) b (omega arith) (omega arith) hb);
  }

  get-written_to_same :
      (j : ℕ)
      → j < n
      → i / 8 ≡ j / 8
      → get (written_to bf i b v) (pos j) ≡ returns (if i % 8 == j % 8 then v else bit_of b (j % 8))
  get-written_to_same j k q =
      get_at n j (put_bit b (i % 8) v) (written_to bf i b v) written_to-IsValid k (
        ap (get_elem? (set bf.storage (i / 8) (put_bit b (i % 8) v))) (omega arith)
        ∙ get_elem?-set_self bf.storage (i / 8) (put_bit b (i % 8) v) (omega (arith, w.room)))
      ∙ ap returns (bit_of-put_bit v (i % 8) (j % 8) b (omega arith) (omega arith) hb)

  get-written_to_apart :
      (j : ℕ) → j < n → i / 8 ≢ j / 8 → get (written_to bf i b v) (pos j) ≡ get bf (pos j)
  get-written_to_apart j k q =
      let (c, at, _) = byte_of n j bf w k in
      get_at n j c (written_to bf i b v) written_to-IsValid k
        (get_elem?-set_ne bf.storage (i / 8) (j / 8) (put_bit b (i % 8) v) q ∙ at)
      ∙ sym (get_at n j c bf w k at)

  get-written_to :
      (j : ℕ)
      → j < n
      → get (written_to bf i b v) (pos j) ≡ (if i == j then returns v else get bf (pos j))
  get-written_to j k = elim (Bool-cases (i / 8 == j / 8)) [
    | inl same_byte ↦
        let q : i / 8 ≡ j / 8 = (==_iff _ _).0 same_byte in
        let r : get bf (pos j) ≡ returns (bit_of b (j % 8)) =
          get_at n j b bf w k (ap (get_elem? bf.storage) (sym q) ∙ e) in
        get-written_to_same j k q ∙ ground (arith, r)
    | inr other_byte ↦
        get-written_to_apart j k (λ q. cc ((==_iff _ _).1 q, other_byte))
        ∙ sym (if-false {b = i == j} _ _ (ground arith))
  ]

-- A write within bounds succeeds and keeps the bitfield well formed; a read within bounds then finds
-- the written value at its index, and at any other index what was there.
pub get-set_to :
    (n i : ℕ) (bf : Bitfield) (v : Bool)
    → IsValid n bf
    → i < n
    → (bf' : Bitfield) × (set_to bf (pos i) v ≡ returns bf')
      × IsValid n bf'
      × ((j : ℕ) → j < n → get bf' (pos j) ≡ (if i == j then returns v else get bf (pos j)))
get-set_to n i bf v w h =
    let (b, e, hb) = byte_of n i bf w h in
    (
      written_to bf i b v,
      set_at n i b bf v w h e,
      written_to-IsValid n i b bf v w h hb e,
      get-written_to n i b bf v w h hb e,
    )

zeroed-IsValid :
    (n : ℕ)
    → (bf : Bitfield) × (zeroed (pos n) ≡ returns bf)
      × IsValid n bf
      × ((i : ℕ) → i < n → get bf (pos i) ≡ returns false)
unfolding zeroed
zeroed-IsValid n = (
  record { len = pos n; storage = replicate ((n + 7) / 8) 0 },
  refl,
  v,
  λ i h.
      get_at n i 0 _ v h (get_elem?-replicate ((n + 7) / 8) (i / 8) 0 (omega arith))
      ∙ ap returns (no_bit (i % 8)),
)
  where
    v : IsValid n (record { len = pos n; storage = replicate ((n + 7) / 8) 0 })
    v = record {
      counted = refl;
      room = length-replicate ((n + 7) / 8) 0;
      bytes = All-replicate (λ b. b < 256) ((n + 7) / 8) 0 (omega arith);
    }

    no_bit : (o : ℕ) → bit_of 0 o ≡ false
    no_bit o = rw (bit_and-bitwise 0 (mask o))

-- Writes in turn, from the first to the last.
abbrev pub set_all : Bitfield → List (ℕ × Bool) → Exec Bitfield
set_all bf [] = returns bf
set_all bf ((i, v) ∷ writes) = set_to bf (pos i) v >>= λ bf'. set_all bf' writes

-- The value that the last of the writes to an index left there, or else the one given.
abbrev pub last_write : List (ℕ × Bool) → ℕ → Bool → Bool
last_write [] j d = d
last_write ((i, v) ∷ writes) j d = last_write writes j (if i == j then v else d)

set_all-last_write :
    (n : ℕ) (writes : List (ℕ × Bool)) (bf : Bitfield)
    → IsValid n bf
    → All (λ (w : ℕ × Bool). w.0 < n) writes
    → (bf' : Bitfield) × (set_all bf writes ≡ returns bf')
      × ((j : ℕ) (d : Bool)
          → j < n
          → get bf (pos j) ≡ returns d
          → get bf' (pos j) ≡ returns (last_write writes j d))
set_all-last_write n [] bf w h = (bf, refl, λ j d k e. e)
set_all-last_write n ((i, v) ∷ writes) bf w h =
    let (bf', s, w', read) = get-set_to n i bf v w h.0 in
    let (bf'', r, reads) = set_all-last_write n writes bf' w' h.1 in
    (bf'', rw s r, λ j d k e. reads j (if i == j then v else d) k (ground (arith, read j k, e)))

-- A bitfield made for n bits and then written to within bounds any number of times is an array of n
-- booleans: every read within bounds gives the last value written at its index, and false where
-- nothing was written.
pub zeroed-last_write :
    (n : ℕ) (writes : List (ℕ × Bool)) (j : ℕ)
    → All (λ (w : ℕ × Bool). w.0 < n) writes
    → j < n
    → (zeroed (pos n) >>= λ bf. set_all bf writes >>= λ bf'. get bf' (pos j))
      ≡ returns (last_write writes j false)
zeroed-last_write n writes j h k =
    let (bf, made, v, empty) = zeroed-IsValid n in
    let (bf', wrote, reads) = set_all-last_write n writes bf v h in
    rw (made, wrote) (reads j false k (empty j k))
