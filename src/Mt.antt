-- ===== src/Mt.antt =====
-- src/mt/sharing_queue.hpp and sharing_queue.inl: SharedQueue, a policy queue behind a mutex, with
-- threads that wait on its two condition variables. What a thread does under the mutex is one step;
-- the notify_all behind it is another, which is due until it is made. A thread that waits is asleep,
-- or awake and about to test its predicate; it may wake up without being notified.
pub mod Wakeup
pub mod Emptied
pub mod Group
mod Examples
use furrent.Prelude.{
  ℕ, zero, suc, ◌+◌, ◌-◌, ◌==◌, List, [], ◌∷◌, ◌++◌, Bool, true, false, ◌||◌, not, if◌then◌else◌,
  none, some, get_elem?, Result, ok, error, Exec, returns, ◌>>=◌,
}
use furrent.Policy.{QueueError, IPolicy, erase, extract}
use furrent.Policy.{insert as queue_insert, mutate as queue_mutate}

-- The threads that wait on a condition variable, by their numbers, and its notifications due.
pub record Waiters : Type 0 where
  pub asleep : List ℕ
  pub awake : List ℕ
  pub due : ℕ

pub record SharedQueue (A : Type 0) : Type 0 where
  pub work : List A
  pub skip_waiting : Bool
  pub new_work_available : Waiters
  pub all_work_dispatched : Waiters

abbrev pub no_waiters : Waiters
no_waiters = record { asleep = []; awake = []; due = 0 }

abbrev pub is_empty {ℓ} : {A : Type ℓ} → List A → Bool
is_empty [] = true
is_empty (x ∷ xs) = false

-- condition_variable::notify_all
abbrev pub notify_all : Waiters → Waiters
notify_all w = record w { asleep = []; awake = w.asleep ++ w.awake }

abbrev pub add_due : Waiters → Waiters
add_due w = record w { due = suc w.due }

-- One of the notifications that are due is made, of the number given.
abbrev pub notify_one_of : ℕ → Waiters → Waiters
notify_one_of zero w = w
notify_one_of (suc n) w = record { asleep = []; awake = w.asleep ++ w.awake; due = n }

abbrev pub notify_due : Waiters → Waiters
notify_due w = notify_one_of w.due w

-- The thread at a position among the sleepers wakes up.
abbrev pub wake : ℕ → Waiters → Waiters
wake i w = elim (get_elem? w.asleep i) [
  | none ↦ w
  | some t ↦ record w { asleep = erase w.asleep i; awake = t ∷ w.awake }
]

-- The thread at a position among those awake tests its predicate, and returns or sleeps again.
abbrev pub recheck : Bool → ℕ → Waiters → Waiters
recheck holds i w = elim (get_elem? w.awake i) [
  | none ↦ w
  | some t ↦ record w { asleep = if holds then w.asleep else t ∷ w.asleep; awake = erase w.awake i }
]

-- A thread that begins to wait returns at once where its predicate holds.
abbrev pub wait : Bool → ℕ → Waiters → Waiters
wait holds t w = record w { asleep = if holds then w.asleep else t ∷ w.asleep }

module _ {A : Type 0} where
  -- SharedQueue::SharedQueue()
  abbrev pub start : SharedQueue A
  start = record {
    work = [];
    skip_waiting = false;
    new_work_available = no_waiters;
    all_work_dispatched = no_waiters;
  }

  abbrev pub work_ready : SharedQueue A → Bool
  work_ready s = not (is_empty s.work) || s.skip_waiting

  abbrev pub work_done : SharedQueue A → Bool
  work_done s = is_empty s.work || s.skip_waiting

  -- What try_extract leaves of the queue: it notifies where the queue is then empty.
  abbrev pub extracted : SharedQueue A → List A → SharedQueue A
  extracted s left = record s {
    work = left;
    all_work_dispatched =
        if is_empty left then add_due s.all_work_dispatched else s.all_work_dispatched;
  }

  abbrev pub after_extract :
      SharedQueue A → Result (A × List A) QueueError → Exec (SharedQueue A × Result A QueueError)
  after_extract s (error e) = returns (extracted s s.work, error e)
  after_extract s (ok (item, left)) = returns (extracted s left, ok item)

  unfoldable pub try_extract : IPolicy → SharedQueue A → Exec (SharedQueue A × Result A QueueError)
  try_extract policy s = extract policy s.work >>= after_extract s

  unfoldable pub insert : A → SharedQueue A → Exec (SharedQueue A)
  insert item s = queue_insert s.work item >>= λ work.
      returns (record s { work = work; new_work_available = add_due s.new_work_available })

  unfoldable pub mutate : (A → A × Bool) → SharedQueue A → Exec (SharedQueue A)
  mutate mutation s = queue_mutate mutation s.work >>= λ work.
      returns (record s { work = work; new_work_available = add_due s.new_work_available })

  abbrev pub force_wakeup : SharedQueue A → SharedQueue A
  force_wakeup s = record s { new_work_available = notify_all s.new_work_available }

  abbrev pub wait_work : ℕ → SharedQueue A → SharedQueue A
  wait_work t s = record s { new_work_available = wait (work_ready s) t s.new_work_available }

  abbrev pub wait_empty : ℕ → SharedQueue A → SharedQueue A
  wait_empty t s = record s { all_work_dispatched = wait (work_done s) t s.all_work_dispatched }

  abbrev pub begin_skip_waiting : SharedQueue A → SharedQueue A
  begin_skip_waiting s = record s {
    skip_waiting = true;
    new_work_available = add_due s.new_work_available;
  }

-- What happens next: a thread's call, a notification that is due, a wake-up or a test.
pub data Event (A : Type 0) : Type 0 where
  tries_extract : IPolicy → Event A
  inserts : A → Event A
  mutates : (A → A × Bool) → Event A
  forces_wakeup : Event A
  waits_work : ℕ → Event A
  waits_empty : ℕ → Event A
  begins_skip_waiting : Event A
  notifies_work : Event A
  notifies_empty : Event A
  wakes_work : ℕ → Event A
  wakes_empty : ℕ → Event A
  rechecks_work : ℕ → Event A
  rechecks_empty : ℕ → Event A

module _ {A : Type 0} where
  unfoldable pub step : Event A → SharedQueue A → Exec (SharedQueue A)
  step (tries_extract policy) s = try_extract policy s >>= λ (s', result). returns s'
  step (inserts item) s = insert item s
  step (mutates mutation) s = mutate mutation s
  step forces_wakeup s = returns (force_wakeup s)
  step (waits_work t) s = returns (wait_work t s)
  step (waits_empty t) s = returns (wait_empty t s)
  step begins_skip_waiting s = returns (begin_skip_waiting s)
  step notifies_work s = returns (record s { new_work_available = notify_due s.new_work_available })
  step notifies_empty s =
      returns (record s { all_work_dispatched = notify_due s.all_work_dispatched })
  step (wakes_work i) s = returns (record s { new_work_available = wake i s.new_work_available })
  step (wakes_empty i) s = returns (record s { all_work_dispatched = wake i s.all_work_dispatched })
  step (rechecks_work i) s =
      returns (record s { new_work_available = recheck (work_ready s) i s.new_work_available })
  step (rechecks_empty i) s =
      returns (record s { all_work_dispatched = recheck (work_done s) i s.all_work_dispatched })

  -- Events in turn.
  unfoldable pub run : List (Event A) → SharedQueue A → Exec (SharedQueue A)
  run [] s = returns s
  run (event ∷ events) s = step event s >>= run events
