-- ===== src/Mt/Emptied.antt =====
-- Whether the threads that wait for the queue of src/mt to be empty are woken up.
use furrent.Prelude.{
  ℕ, zero, suc, ◌≡◌, refl, List, [], ◌∷◌, Bool, true, false, ◌||◌, get_elem?, ◌⊎◌, inl, inr,
  Option-cases, subst, returns, All, arith,
}
use furrent.Policy.{insert as queue_insert, mutate as queue_mutate}
use furrent.Mt.{
  Waiters, SharedQueue, notify_one_of, recheck, wait, work_done, insert, mutate, Event,
  tries_extract, inserts, mutates, forces_wakeup, waits_work, waits_empty, begins_skip_waiting,
  notifies_work, notifies_empty, wakes_work, wakes_empty, rechecks_work, rechecks_empty, step, run,
}
use furrent.Mt.Wakeup.{Keeps, Keeps->>=, recheck-none, recheck-some}

abbrev pub Among : ℕ → List ℕ → Type 0
Among t [] = ⊥
Among t (u ∷ us) = (t ≡ u) ⊎ Among t us

Among-wait : (h : Bool) (t u : ℕ) (w : Waiters) → Among t w.asleep → Among t (wait h u w).asleep
Among-wait true t u w m = m
Among-wait false t u w m = inr m

SleepsOn-recheck :
    (h : Bool) (t i : ℕ) (w : Waiters)
    → Among t w.asleep × (w.due ≡ 0)
    → Among t (recheck h i w).asleep × ((recheck h i w).due ≡ 0)
SleepsOn-recheck h t i w m = elim (Option-cases (get_elem? w.awake i)) [
  | inl outside ↦ rw (recheck-none h i w outside) m
  | inr (u, inside) ↦ rw (recheck-some h i w u inside) (Among-wait h t u w m.0, m.1)
]

SleepsOn-notify :
    (t n : ℕ) (w : Waiters)
    → n ≡ 0
    → Among t w.asleep × (w.due ≡ 0)
    → Among t (notify_one_of n w).asleep × ((notify_one_of n w).due ≡ 0)
SleepsOn-notify t zero w e h = h
SleepsOn-notify t (suc n) w e h = absurd (omega (arith, e))

module _ {A : Type 0} where
  -- What a thread may do but take work out; no thread wakes up unnotified.
  abbrev pub IsQuiet : Event A → Type 0
  IsQuiet (tries_extract policy) = ⊥
  IsQuiet (wakes_empty i) = ⊥
  IsQuiet _ = Unit {0}

  -- A thread sleeps until the queue is empty, and no notification of that is due.
  abbrev pub SleepsOn : ℕ → SharedQueue A → Type 0
  SleepsOn t s = Among t s.all_work_dispatched.asleep × (s.all_work_dispatched.due ≡ 0)

  abbrev pub begins_skip : Event A → Bool
  begins_skip begins_skip_waiting = true
  begins_skip _ = false

  -- Whether the threads are to stop waiting, behind the events.
  abbrev pub skips : List (Event A) → Bool → Bool
  skips [] skip = skip
  skips (event ∷ events) skip = skips events (begins_skip event || skip)

  -- Behind an event the thread sleeps on, and the event has set skip_waiting or left it.
  abbrev Stays : ℕ → Bool → SharedQueue A → Type 0
  Stays t skip s = SleepsOn t s × (s.skip_waiting ≡ skip)

  step-Stays :
      (event : Event A) (t : ℕ) (s : SharedQueue A)
      → IsQuiet event
      → SleepsOn t s
      → Keeps (Stays t (begins_skip event || s.skip_waiting)) (step event s)
  unfolding step insert mutate
  step-Stays (tries_extract policy) t s q h = absurd q
  step-Stays (inserts item) t s q h =
      Keeps->>= (Stays t s.skip_waiting) (queue_insert s.work item) _ λ work _. (h, refl)
  step-Stays (mutates mutation) t s q h =
      Keeps->>= (Stays t s.skip_waiting) (queue_mutate mutation s.work) _ λ work _. (h, refl)
  step-Stays forces_wakeup t s q h = (h, refl)
  step-Stays (waits_work u) t s q h = (h, refl)
  step-Stays (waits_empty u) t s q h =
      ((Among-wait (work_done s) t u s.all_work_dispatched h.0, h.1), refl)
  step-Stays begins_skip_waiting t s q h = (h, refl)
  step-Stays notifies_work t s q h = (h, refl)
  step-Stays notifies_empty t s q h =
      (SleepsOn-notify t s.all_work_dispatched.due s.all_work_dispatched h.1 h, refl)
  step-Stays (wakes_work i) t s q h = (h, refl)
  step-Stays (wakes_empty i) t s q h = absurd q
  step-Stays (rechecks_work i) t s q h = (h, refl)
  step-Stays (rechecks_empty i) t s q h =
      (SleepsOn-recheck (work_done s) t i s.all_work_dispatched h, refl)

  run-Stays :
      (events : List (Event A)) (t : ℕ) (s : SharedQueue A)
      → All IsQuiet events
      → SleepsOn t s
      → Keeps (Stays t (skips events s.skip_waiting)) (run events s)
  unfolding run
  run-Stays [] t s q h = (h, refl)
  run-Stays (event ∷ events) t s (q, qs) h =
      Keeps->>= (Stays t (skips (event ∷ events) s.skip_waiting)) (step event s) (run events)
        λ s' e.
          let (h', skip) =
            subst (Keeps (Stays t (begins_skip event || s.skip_waiting))) e
              (step-Stays event t s q h) in
          subst (λ b. Keeps (Stays t (skips events b)) (run events s')) skip
            (run-Stays events t s' qs h')

  -- A thread that sleeps in wait_empty while no notification for it is due sleeps on through any
  -- inserts, mutations, waits, forced wake-ups, notifications and calls of begin_skip_waiting,
  -- whatever they leave of the queue, unless it wakes up unnotified: no notification becomes due, and
  -- skip_waiting, which would let it go, is set by begin_skip_waiting all the same.
  pub empty_not_woken :
      (events : List (Event A)) (t : ℕ) (s s' : SharedQueue A)
      → All IsQuiet events
      → SleepsOn t s
      → run events s ≡ returns s'
      → SleepsOn t s' × (s'.skip_waiting ≡ skips events s.skip_waiting)
  empty_not_woken events t s s' quiet sleeps e =
      subst (Keeps (Stays t (skips events s.skip_waiting))) e (run-Stays events t s quiet sleeps)
