-- ===== src/Mt/Examples.antt =====
-- The theorems on src/mt at concrete inputs.
use furrent.Prelude.{ℕ, Bool, inl, ◌<◌, ◌≡◌, ◌⊎◌, refl, List, [], ◌∷◌, true, false, returns}
use furrent.Policy.{insert as queue_insert, mutate as queue_mutate}
use furrent.Policy.{mutate_from}
use furrent.Mt.{
  SharedQueue, Event, start, step, run, insert, mutate, inserts, waits_work, waits_empty,
  begins_skip_waiting, notifies_work, mutates, no_waiters,
}
use furrent.Mt.Wakeup.{work_wakeup}
use furrent.Mt.Emptied.{empty_not_woken, SleepsOn, skips}

-- A thread waits, and work comes of which it is not notified yet.
abbrev events : List (Event ℕ)
events = waits_work 1 ∷ inserts 5 ∷ []

abbrev notified_soon : SharedQueue ℕ
notified_soon = record {
  work = 5 ∷ [];
  skip_waiting = false;
  new_work_available = record { asleep = 1 ∷ []; awake = []; due = 1 };
  all_work_dispatched = no_waiters;
}

events-run : run events start ≡ returns notified_soon
unfolding run step insert queue_insert
events-run = refl

work_wakeup_example :
    (notified_soon.new_work_available.asleep ≡ []) ⊎ (0 < notified_soon.new_work_available.due)
work_wakeup_example = work_wakeup events notified_soon events-run refl

-- The thread 1 sleeps until the queue, which holds 5, is empty.
abbrev sleeping : Bool → List ℕ → SharedQueue ℕ
sleeping skip work = record {
  work = work;
  skip_waiting = skip;
  new_work_available = no_waiters;
  all_work_dispatched = record { asleep = 1 ∷ []; awake = []; due = 0 };
}

abbrev remove_all : ℕ → ℕ × Bool
remove_all x = (x, true)

-- A mutation empties the queue, and the threads are to stop waiting.
abbrev quiet : List (Event ℕ)
quiet = mutates remove_all ∷ notifies_work ∷ begins_skip_waiting ∷ notifies_work ∷ []

reached :
    run (inserts 5 ∷ notifies_work ∷ waits_empty 1 ∷ []) start ≡ returns (sleeping false (5 ∷ []))
unfolding run step insert queue_insert
reached = refl

quiet-run : run quiet (sleeping false (5 ∷ [])) ≡ returns (sleeping true [])
unfolding run step mutate queue_mutate mutate_from
quiet-run = refl

empty_not_woken_example :
    SleepsOn 1 (sleeping true []) × ((sleeping true []).skip_waiting ≡ skips quiet false)
empty_not_woken_example =
    empty_not_woken quiet 1 (sleeping false (5 ∷ [])) (sleeping true []) (tt, (tt, (tt, (tt, tt))))
      (inl refl, refl) quiet-run
