-- ===== src/Furrent/Account.antt =====
-- The pieces of a torrent of src/furrent.cpp: queued, in hand or processed.
use furrent.Prelude.{
  ℕ, zero, suc, ◌+◌, ◌≤◌, ◌≡◌, ◌==◌, ap, List, [], ◌∷◌, ◌++◌, Bool, true, false, if◌then◌else◌,
  Option, none, some, get_elem?, arith, length, ◌≢◌, inl, inr, Bool-cases,
}
use furrent.Torrent.{Piece}
use furrent.Policy.{erase}
use furrent.Policy.Order.{kept}
use furrent.Furrent.{PieceTask, Torrent, Furrent, of_torrent, tasks_of, torrent_of, put, completed}

abbrev pub one_if : Bool → ℕ
one_if true = 1
one_if false = 0

-- How many tasks are of a torrent.
abbrev pub count : ℕ → List PieceTask → ℕ
count tid [] = 0
count tid (task ∷ tasks) = one_if (task.tid == tid) + count tid tasks

pub count-append :
    (tid : ℕ) (xs ys : List PieceTask) → count tid (xs ++ ys) ≡ count tid xs + count tid ys
count-append tid [] ys = omega arith
count-append tid (x ∷ xs) ys = omega (arith, count-append tid xs ys)

weight : ℕ → Option PieceTask → ℕ
weight tid none = 0
weight tid (some task) = one_if (task.tid == tid)

pub count-erase :
    (tid : ℕ) (xs : List PieceTask) (i : ℕ) (x : PieceTask)
    → get_elem? xs i ≡ some x
    → count tid xs ≡ one_if (x.tid == tid) + count tid (erase xs i)
count-erase tid [] i x e = absurd (cc)
count-erase tid (y ∷ xs) zero x e = unfold weight in ap (λ o. weight tid o + count tid xs) e
count-erase tid (y ∷ xs) (suc i) x e = omega (arith, count-erase tid xs i x e)

pub count-kept :
    (tid removed : ℕ) (xs : List PieceTask)
    → count tid (kept (of_torrent removed) xs) ≤ count tid xs
count-kept tid removed [] = omega arith
count-kept tid removed (x ∷ xs) = ground (arith, count-kept tid removed xs)

pub count-tasks_of :
    (tid other : ℕ) (pieces : List Piece)
    → count tid (tasks_of other pieces) ≡ (if other == tid then length pieces else 0)
count-tasks_of tid other [] = ground arith
count-tasks_of tid other (piece ∷ pieces) = ground (arith, count-tasks_of tid other pieces)

-- The tasks of a torrent, wherever they are.
abbrev pub open_tasks : ℕ → Furrent → ℕ
open_tasks tid s = count tid s.tasks + count tid s.taken + count tid s.in_hand

-- A torrent's pieces are more than those processed and those open; a completed torrent has all
-- processed.
abbrev pub Balanced : Torrent → ℕ → Type 0
Balanced torrent n =
    (torrent.pieces_processed + n ≤ torrent.pieces_count)
    × (torrent.state ≡ completed → torrent.pieces_processed ≡ torrent.pieces_count)

-- An id that is not given yet has no pieces and no peers.
abbrev pub Fresh : ℕ → ℕ → Torrent → Type 0
Fresh next tid torrent = next ≤ tid → (torrent.pieces_count ≡ 0) × (torrent.peers_score ≡ [])

abbrev pub Accounted : Furrent → ℕ → Type 0
Accounted s tid =
    Balanced (torrent_of (s.torrents tid)) (open_tasks tid s)
    × Fresh s.descriptor_next_uid tid (torrent_of (s.torrents tid))

-- The map with one torrent put in.
pub put-cases :
    (P : Torrent → Type 0) (torrents : ℕ → Option Torrent) (k tid : ℕ) (torrent : Torrent)
    → (tid ≡ k → P torrent)
    → (tid ≢ k → P (torrent_of (torrents tid)))
    → P (torrent_of (put torrents k torrent tid))
put-cases P torrents k tid torrent here there = elim (Bool-cases (tid == k)) [
  | inl same ↦ rw same (here (ground arith))
  | inr other ↦ rw other (there (λ e. absurd (ground arith)))
]
