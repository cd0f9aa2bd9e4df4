-- ===== src/Furrent/Completion.antt =====
-- The account of the pieces of src/furrent.cpp over whole runs, and what it says of a completed
-- torrent.
use furrent.Prelude.{
  ℕ, suc, ◌+◌, ◌≤◌, ◌≡◌, ◌==◌, refl, sym, ap, ◌∙◌, List, [], ◌∷◌, ◌++◌, Option, none, some, arith,
  length, if-true, if-false, ◌≢◌, subst, Exec, returns, throws, undefined, out_of_fuel, ◌>>=◌,
}
use furrent.Torrent.{Piece}
use furrent.Furrent.{
  Torrent, Furrent, tasks_of, torrent_of, loading, downloading, completed, error_state, emplaced,
  queue_pieces, add_torrent, scores, start, take_task, step, run, Event, adds, removes_tasks,
  loads_state, stops, takes, begins, finishes,
}
use furrent.Furrent.Account.{
  count, count-append, count-tasks_of, open_tasks, Balanced, Fresh, put-cases,
}
use furrent.Furrent.Stops.{load_state-Everywhere, stop_torrent-Everywhere}
use furrent.Furrent.Moves.{
  Everywhere, Keeps, fewer-Balanced, remove_tasks-Keeps, take_task-Keeps, begin_task-Keeps,
  finish_task-Everywhere,
}

-- A torrent put in under the next id, whose pieces are then queued unless it has no peers.
queue_pieces-Everywhere :
    (ps : List ℕ) (torrent : Torrent) (pieces : List Piece) (s : Furrent)
    → Everywhere s
    → torrent.pieces_processed + open_tasks s.descriptor_next_uid s ≤ torrent.pieces_count
    → (ps ≢ []
        → torrent.pieces_processed + open_tasks s.descriptor_next_uid s + length pieces
          ≤ torrent.pieces_count)
    → Everywhere (
        queue_pieces ps s.descriptor_next_uid torrent pieces
          (record s { descriptor_next_uid = suc s.descriptor_next_uid }))
unfolding queue_pieces
queue_pieces-Everywhere [] torrent pieces s h a b tid =
    put-cases (λ t. Balanced t (open_tasks tid s) × Fresh (suc s.descriptor_next_uid) tid t)
      s.torrents s.descriptor_next_uid tid (record torrent { state = error_state })
      (λ e. (
        (
          subst (λ k. torrent.pieces_processed + open_tasks k s ≤ torrent.pieces_count) (sym e) a,
          λ c. absurd (cc),
        ),
        λ l. absurd (omega arith),
      ))
      (λ e. ((h tid).0, λ l. (h tid).1 (omega arith)))
queue_pieces-Everywhere (score ∷ ps) torrent pieces s h a b tid =
    let k = s.descriptor_next_uid in
    put-cases
      (λ t.
        Balanced t
          (count tid (s.tasks ++ tasks_of k pieces) + count tid s.taken + count tid s.in_hand)
        × Fresh (suc k) tid t)
      s.torrents k tid (record torrent { state = downloading })
      (λ e. (
        (
          subst
              (λ i.
                torrent.pieces_processed
                  + (count i (s.tasks ++ tasks_of k pieces) + count i s.taken + count i s.in_hand)
                ≤ torrent.pieces_count)
              (sym e)
              (omega
                (arith, count-append k s.tasks (tasks_of k pieces), own k, b (λ z. absurd (cc)))),
          λ c. absurd (cc),
        ),
        λ l. absurd (omega arith),
      ))
      (λ e. (
        fewer-Balanced (torrent_of (s.torrents tid)) (open_tasks tid s) _
            (omega (arith, count-append tid s.tasks (tasks_of k pieces), others tid e)) (h tid).0,
        λ l. (h tid).1 (omega arith),
      ))
  where
    own : (k : ℕ) → count k (tasks_of k pieces) ≡ length pieces
    own k = count-tasks_of k k pieces ∙ if-true (length pieces) 0 (ground arith)

    others :
        (tid : ℕ)
        → tid ≢ s.descriptor_next_uid
        → count tid (tasks_of s.descriptor_next_uid pieces) ≡ 0
    others tid e =
        count-tasks_of tid s.descriptor_next_uid pieces
        ∙ if-false {b = s.descriptor_next_uid == tid} (length pieces) 0 (ground arith)

abbrev loaded : List ℕ → List Piece → Torrent
loaded peers_score pieces = record {
  state = loading;
  pieces_processed = 0;
  pieces_count = length pieces;
  peers_score = peers_score;
}

emplaced-Everywhere :
    (peers_score : List ℕ) (pieces : List Piece) (s : Furrent) (old : Option Torrent)
    → s.torrents s.descriptor_next_uid ≡ old
    → Everywhere s
    → Everywhere (
        queue_pieces
          (emplaced old (loaded peers_score pieces)).peers_score
          s.descriptor_next_uid
          (emplaced old (loaded peers_score pieces))
          pieces
          (record s { descriptor_next_uid = suc s.descriptor_next_uid }))
emplaced-Everywhere peers_score pieces s none e h =
    let k = s.descriptor_next_uid in
    let (b, _) = subst (λ t. Balanced t (open_tasks k s)) (ap torrent_of e) (h k).0 in
    queue_pieces-Everywhere peers_score (loaded peers_score pieces) pieces s h (omega arith)
      (λ z. omega arith)
emplaced-Everywhere peers_score pieces s (some old) e h =
    let k = s.descriptor_next_uid in
    let (b, _) = subst (λ t. Balanced t (open_tasks k s)) (ap torrent_of e) (h k).0 in
    let (_, no_peers) = subst (λ t. Fresh k k t) (ap torrent_of e) (h k).1 (omega arith) in
    queue_pieces-Everywhere old.peers_score old pieces s h b (λ z. absurd (z no_peers))

add_torrent-Everywhere :
    {P : Type 0} (peers : List P) (pieces : List Piece) (s : Furrent)
    → Everywhere s
    → Everywhere (add_torrent peers pieces s)
unfolding add_torrent
add_torrent-Everywhere peers pieces s h =
    emplaced-Everywhere (scores peers) pieces s (s.torrents s.descriptor_next_uid) refl h

step-Keeps : (event : Event) (s : Furrent) → Everywhere s → Keeps (step event s)
unfolding step take_task
step-Keeps (adds peers pieces) s h = add_torrent-Everywhere peers pieces s h
step-Keeps (removes_tasks tid) s h = remove_tasks-Keeps tid s h
step-Keeps (loads_state tid) s h = load_state-Everywhere tid s h
step-Keeps (stops i) s h = stop_torrent-Everywhere i s h
step-Keeps takes s h = take_task-Keeps s s.tasks refl h
step-Keeps (begins i) s h = begin_task-Keeps i s h
step-Keeps (finishes i peer_index) s h = finish_task-Everywhere i peer_index s h

>>=-Keeps :
    (m : Exec Furrent) (k : Furrent → Exec Furrent)
    → Keeps m
    → ((s : Furrent) → Everywhere s → Keeps (k s))
    → Keeps (m >>= k)
>>=-Keeps (returns s) k h next = next s h
>>=-Keeps (throws e) k h next = tt
>>=-Keeps undefined k h next = tt
>>=-Keeps out_of_fuel k h next = tt

run-Keeps : (events : List Event) (s : Furrent) → Everywhere s → Keeps (run events s)
unfolding run
run-Keeps [] s h = h
run-Keeps (event ∷ events) s h =
    >>=-Keeps (step event s) (run events) (step-Keeps event s h) λ s' h'. run-Keeps events s' h'

start-Everywhere : Everywhere start
start-Everywhere tid = ((omega arith, λ e. absurd (cc)), λ l. (refl, refl))

-- After any events the pieces of a torrent that are processed, queued or with a worker are at
-- most those that it has, and a completed torrent has all of them processed and none open.
pub completed-all_processed :
    (events : List Event) (s : Furrent) (tid : ℕ)
    → run events start ≡ returns s
    → ((torrent_of (s.torrents tid)).pieces_processed + open_tasks tid s
        ≤ (torrent_of (s.torrents tid)).pieces_count)
      × ((torrent_of (s.torrents tid)).state ≡ completed
          → ((torrent_of (s.torrents tid)).pieces_processed
              ≡ (torrent_of (s.torrents tid)).pieces_count)
            × (open_tasks tid s ≡ 0))
completed-all_processed events s tid e =
    let (b, c) = (subst Keeps e (run-Keeps events start start-Everywhere) tid).0 in
    (b, λ done. (c done, omega (arith, c done)))
