-- ===== src/Furrent/Moves.antt =====
-- What the steps of src/furrent.cpp on the tasks do to the account of a torrent's pieces.
use furrent.Prelude.{
  ℕ, suc, ◌+◌, ◌≤◌, ◌≡◌, ◌==◌, ◌^◌, ◌-◌, refl, sym, ap, List, [], ◌∷◌, ◌++◌, Bool, true, false,
  if◌then◌else◌, Option, none, some, get_elem?, arith, length, ◌⊎◌, inl, inr, Bool-cases, subst,
  Option-cases, Exec, returns, throws, logic_error, ◌>>=◌,
}
use furrent.Policy.{erase, extract, insert, lifo_policy}
use furrent.Policy.Order.{mutate-kept, extract-lifo}
use furrent.Furrent.{
  PieceTask, Torrent, Furrent, of_torrent, torrent_of, put, completed, remove_tasks, piece_done,
  atomic_add_peer_score, finish_task, begin_task, begin_with, after_extract, is_paused,
}
use furrent.Furrent.Account.{
  one_if, count, count-append, count-erase, count-kept, open_tasks, Balanced, Fresh, Accounted,
  put-cases,
}

abbrev pub Everywhere : Furrent → Type 0
Everywhere s = (tid : ℕ) → Accounted s tid

abbrev pub Keeps : Exec Furrent → Type 0
Keeps (returns s) = Everywhere s
Keeps _ = Unit {0}

-- A torrent put back as it is.
put-same :
    (torrents : ℕ → Option Torrent) (k tid : ℕ)
    → torrent_of (put torrents k (torrent_of (torrents k)) tid) ≡ torrent_of (torrents tid)
put-same torrents k tid =
    put-cases (λ t. t ≡ torrent_of (torrents tid)) torrents k tid (torrent_of (torrents k))
      (λ e. ap (λ i. torrent_of (torrents i)) (sym e)) (λ e. refl)

pub fewer-Balanced : (t : Torrent) (n m : ℕ) → m ≤ n → Balanced t n → Balanced t m
fewer-Balanced t n m l (b, c) = (omega arith, c)

pub remove_tasks-Keeps : (k : ℕ) (s : Furrent) → Everywhere s → Keeps (remove_tasks k s)
unfolding remove_tasks
remove_tasks-Keeps k s h = rw (mutate-kept (of_torrent k) s.tasks) λ tid. (
  fewer-Balanced (torrent_of (s.torrents tid)) (open_tasks tid s) _
      (omega (arith, count-kept tid k s.tasks)) (h tid).0,
  (h tid).1,
)

pub take_task-Keeps :
    (s : Furrent) (xs : List PieceTask)
    → s.tasks ≡ xs
    → Everywhere s
    → Keeps (extract lifo_policy xs >>= after_extract s)
take_task-Keeps s [] e h = unfold extract in h
take_task-Keeps s (x ∷ xs) e h = rw (extract-lifo xs x) λ tid. (
  fewer-Balanced (torrent_of (s.torrents tid)) (open_tasks tid s) _
      (omega (arith, ap (count tid) e)) (h tid).0,
  (h tid).1,
)

insert-cases :
    (xs : List PieceTask) (x : PieceTask)
    → (insert xs x ≡ throws logic_error) ⊎ (insert xs x ≡ returns (xs ++ x ∷ []))
unfolding insert
insert-cases xs x = elim (Bool-cases (length xs == 2 ^ 63 - 1)) [
  | inl full ↦ inl (rw full refl)
  | inr room ↦ inr (rw room refl)
]

begin_with-Keeps :
    (b : Bool) (s : Furrent) (task : PieceTask)
    → ((tid : ℕ)
        → Balanced (torrent_of (s.torrents tid)) (one_if (task.tid == tid) + open_tasks tid s)
          × Fresh s.descriptor_next_uid tid (torrent_of (s.torrents tid)))
    → Keeps (begin_with b s task)
begin_with-Keeps true s task h = elim (insert-cases s.tasks task) [
  | inl full ↦ rw full tt
  | inr room ↦ rw room λ tid. (
    fewer-Balanced (torrent_of (s.torrents tid)) _ _
        (omega (arith, count-append tid s.tasks (task ∷ []))) (h tid).0,
    (h tid).1,
  )
]
begin_with-Keeps false s task h =
    λ tid. (fewer-Balanced (torrent_of (s.torrents tid)) _ _ (omega arith) (h tid).0, (h tid).1)

begin_task-none : (i : ℕ) (s : Furrent) → get_elem? s.taken i ≡ none → begin_task i s ≡ returns s
unfolding begin_task
begin_task-none i s e = rw (e, begin_task) refl

begin_task-some :
    (i : ℕ) (s : Furrent) (task : PieceTask)
    → get_elem? s.taken i ≡ some task
    → begin_task i s
      ≡ begin_with
          (is_paused (torrent_of (s.torrents task.tid)).state)
          (record s {
            taken = erase s.taken i;
            torrents = put s.torrents task.tid (torrent_of (s.torrents task.tid));
          })
          task
unfolding begin_task
begin_task-some i s task e = rw (e, begin_task) refl

pub begin_task-Keeps : (i : ℕ) (s : Furrent) → Everywhere s → Keeps (begin_task i s)
begin_task-Keeps i s h = elim (Option-cases (get_elem? s.taken i)) [
  | inl outside ↦ subst Keeps (sym (begin_task-none i s outside)) h
  | inr (task, inside) ↦ subst Keeps (sym (begin_task-some i s task inside)) (
      begin_with-Keeps (is_paused (torrent_of (s.torrents task.tid)).state) _ task λ tid.
        subst
          (λ t.
            Balanced t (
              one_if (task.tid == tid)
              + (count tid s.tasks + count tid (erase s.taken i) + count tid s.in_hand))
            × Fresh s.descriptor_next_uid tid t)
          (sym (put-same s.torrents task.tid tid))
          (
            fewer-Balanced (torrent_of (s.torrents tid)) (open_tasks tid s) _
                (omega (arith, count-erase tid s.taken i task inside)) (h tid).0,
            (h tid).1,
          ))
]

finish_task-none :
    (i peer_index : ℕ) (s : Furrent) → get_elem? s.in_hand i ≡ none → finish_task i peer_index s ≡ s
unfolding finish_task
finish_task-none i peer_index s e = rw (e, finish_task) refl

finish_task-some :
    (i peer_index : ℕ) (s : Furrent) (task : PieceTask)
    → get_elem? s.in_hand i ≡ some task
    → finish_task i peer_index s ≡ record s {
      in_hand = erase s.in_hand i;
      torrents = put s.torrents task.tid (piece_done peer_index (torrent_of (s.torrents task.tid)));
    }
unfolding finish_task
finish_task-some i peer_index s task e = rw (e, finish_task) refl

add_peer_score-nil :
    (peer_index : ℕ) (peers_score : List ℕ)
    → peers_score ≡ []
    → atomic_add_peer_score peer_index peers_score ≡ []
add_peer_score-nil peer_index [] e = refl
add_peer_score-nil peer_index (score ∷ peers_score) e = absurd (cc)

-- A processed piece was open.
piece_done-Balanced :
    (peer_index : ℕ) (t : Torrent) (n : ℕ)
    → Balanced t (suc n)
    → Balanced (piece_done peer_index t) n
piece_done-Balanced peer_index t n (b, c) = (omega arith, done)
  where
    contradiction : t.pieces_processed ≡ t.pieces_count → ⊥
    contradiction e = omega arith

    done :
        (if t.pieces_processed + 1 == t.pieces_count then completed else t.state) ≡ completed
        → t.pieces_processed + 1 ≡ t.pieces_count
    done e = elim (Bool-cases (t.pieces_processed + 1 == t.pieces_count)) [
      | inl last ↦ ground arith
      | inr other ↦
          absurd (
            contradiction (c (subst (λ b. (if b then completed else t.state) ≡ completed) other e)))
    ]

pub finish_task-Everywhere :
    (i peer_index : ℕ) (s : Furrent) → Everywhere s → Everywhere (finish_task i peer_index s)
finish_task-Everywhere i peer_index s h = elim (Option-cases (get_elem? s.in_hand i)) [
  | inl outside ↦ subst Everywhere (sym (finish_task-none i peer_index s outside)) h
  | inr (task, inside) ↦
      subst Everywhere (sym (finish_task-some i peer_index s task inside))
        (λ tid. processed task inside tid)
]
  where
    itself : (k : ℕ) → one_if (k == k) ≡ 1
    itself k = ground arith

    own :
        (task : PieceTask)
        → get_elem? s.in_hand i ≡ some task
        → Balanced
            (piece_done peer_index (torrent_of (s.torrents task.tid)))
            (count task.tid s.tasks + count task.tid s.taken + count task.tid (erase s.in_hand i))
          × Fresh s.descriptor_next_uid task.tid
              (piece_done peer_index (torrent_of (s.torrents task.tid)))
    own task inside =
        let t = torrent_of (s.torrents task.tid) in
        (
          piece_done-Balanced peer_index t _ (
              fewer-Balanced t (open_tasks task.tid s) _
                (omega (arith, count-erase task.tid s.in_hand i task inside, itself task.tid))
                (h task.tid).0),
          λ l. (
            ((h task.tid).1 l).0,
            add_peer_score-nil peer_index t.peers_score ((h task.tid).1 l).1,
          ),
        )

    processed :
        (task : PieceTask)
        → get_elem? s.in_hand i ≡ some task
        → (tid : ℕ)
        → Balanced
            (torrent_of (
              put s.torrents task.tid
                (piece_done peer_index (torrent_of (s.torrents task.tid)))
                tid))
            (count tid s.tasks + count tid s.taken + count tid (erase s.in_hand i))
          × Fresh s.descriptor_next_uid tid (
              torrent_of (
                put s.torrents task.tid
                  (piece_done peer_index (torrent_of (s.torrents task.tid)))
                  tid))
    processed task inside tid =
        put-cases
          (λ t.
            Balanced t (count tid s.tasks + count tid s.taken + count tid (erase s.in_hand i))
            × Fresh s.descriptor_next_uid tid t)
          s.torrents task.tid tid (piece_done peer_index (torrent_of (s.torrents task.tid)))
          (λ e.
            subst
              (λ k.
                Balanced (piece_done peer_index (torrent_of (s.torrents task.tid)))
                  (count k s.tasks + count k s.taken + count k (erase s.in_hand i))
                × Fresh s.descriptor_next_uid k
                    (piece_done peer_index (torrent_of (s.torrents task.tid))))
              (sym e) (own task inside))
          (λ e. (
            fewer-Balanced (torrent_of (s.torrents tid)) (open_tasks tid s) _
                (omega (arith, count-erase tid s.in_hand i task inside)) (h tid).0,
            (h tid).1,
          ))
