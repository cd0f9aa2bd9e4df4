-- ===== src/Mt/Wakeup.antt =====
-- Whether the threads that wait on the queue of src/mt are woken up.
use furrent.Prelude.{
  ℕ, zero, suc, ◌<◌, ◌≡◌, refl, sym, List, [], ◌∷◌, Bool, true, false, if◌then◌else◌, none, some,
  get_elem?, ◌⊎◌, inl, inr, Option-cases, subst, Result, ok, error, Exec, returns, throws,
  undefined, out_of_fuel, ◌>>=◌, arith,
}
use furrent.Policy.{QueueError, IPolicy, erase, extract}
use furrent.Policy.{insert as queue_insert, mutate as queue_mutate}
use furrent.Mt.{
  Waiters, SharedQueue, is_empty, notify_all, add_due, notify_one_of, after_extract, wake, recheck,
  wait, start, work_ready, try_extract, insert, mutate, Event, tries_extract, inserts, mutates,
  forces_wakeup, waits_work, waits_empty, begins_skip_waiting, notifies_work, notifies_empty,
  wakes_work, wakes_empty, rechecks_work, rechecks_empty, step, run,
}

-- No thread sleeps while its predicate holds, unless a notification is due.
abbrev pub NotLost : Bool → Waiters → Type 0
NotLost holds w = holds ≡ true → (w.asleep ≡ []) ⊎ (0 < w.due)

NotLost-add_due : (h : Bool) (w : Waiters) → NotLost h (add_due w)
NotLost-add_due h w e = inr (omega arith)

NotLost-notify_all : (h : Bool) (w : Waiters) → NotLost h (notify_all w)
NotLost-notify_all h w e = inl refl

NotLost-notify_one_of :
    (h : Bool) (n : ℕ) (w : Waiters) → NotLost h w → NotLost h (notify_one_of n w)
NotLost-notify_one_of h zero w k e = k e
NotLost-notify_one_of h (suc n) w k e = inl refl

erase-nil : (xs : List ℕ) (i : ℕ) → xs ≡ [] → erase xs i ≡ []
erase-nil [] i e = refl
erase-nil (x ∷ xs) i e = absurd (cc)

wake-none : (i : ℕ) (w : Waiters) → get_elem? w.asleep i ≡ none → wake i w ≡ w
wake-none i w e = rw (e, wake) refl

wake-some :
    (i : ℕ) (w : Waiters) (t : ℕ)
    → get_elem? w.asleep i ≡ some t
    → wake i w ≡ record w { asleep = erase w.asleep i; awake = t ∷ w.awake }
wake-some i w t e = rw (e, wake) refl

NotLost-wake : (h : Bool) (i : ℕ) (w : Waiters) → NotLost h w → NotLost h (wake i w)
NotLost-wake h i w n e = elim (Option-cases (get_elem? w.asleep i)) [
  | inl outside ↦ subst (NotLost h) (sym (wake-none i w outside)) n e
  | inr (t, inside) ↦ subst (NotLost h) (sym (wake-some i w t inside)) (erased (n e)) e
]
  where
    erased : (w.asleep ≡ []) ⊎ (0 < w.due) → h ≡ true → (erase w.asleep i ≡ []) ⊎ (0 < w.due)
    erased (inl none_asleep) _ = inl (erase-nil w.asleep i none_asleep)
    erased (inr some_due) _ = inr some_due

pub recheck-none : (h : Bool) (i : ℕ) (w : Waiters) → get_elem? w.awake i ≡ none → recheck h i w ≡ w
recheck-none h i w e = rw (e, recheck) refl

pub recheck-some :
    (h : Bool) (i : ℕ) (w : Waiters) (t : ℕ)
    → get_elem? w.awake i ≡ some t
    → recheck h i w
      ≡ record w { asleep = if h then w.asleep else t ∷ w.asleep; awake = erase w.awake i }
recheck-some h i w t e = rw (e, recheck) refl

NotLost-recheck : (h : Bool) (i : ℕ) (w : Waiters) → NotLost h w → NotLost h (recheck h i w)
NotLost-recheck h i w n e = elim (Option-cases (get_elem? w.awake i)) [
  | inl outside ↦ subst (NotLost h) (sym (recheck-none h i w outside)) n e
  | inr (t, inside) ↦
      subst (NotLost h) (sym (recheck-some h i w t inside)) (λ holds. rw holds (n holds)) e
]

NotLost-wait : (h : Bool) (t : ℕ) (w : Waiters) → NotLost h w → NotLost h (wait h t w)
NotLost-wait h t w n e = rw e (n e)

module _ {A : Type 0} where
  -- An outcome that has a property, if it is one.
  abbrev pub Keeps : (SharedQueue A → Type 0) → Exec (SharedQueue A) → Type 0
  Keeps P (returns s) = P s
  Keeps P _ = Unit {0}

  pub Keeps->>= :
      {B : Type 0} (P : SharedQueue A → Type 0) (m : Exec B) (k : B → Exec (SharedQueue A))
      → ((b : B) → m ≡ returns b → Keeps P (k b))
      → Keeps P (m >>= k)
  Keeps->>= P (returns b) k h = h b refl
  Keeps->>= P (throws e) k h = tt
  Keeps->>= P undefined k h = tt
  Keeps->>= P out_of_fuel k h = tt

  -- No thread that waits for work is lost.
  abbrev pub WorkNotLost : SharedQueue A → Type 0
  WorkNotLost s = NotLost (work_ready s) s.new_work_available

  extract-some :
      (policy : IPolicy) (work left : List A) (x : A)
      → extract policy work ≡ returns (ok (x, left))
      → is_empty work ≡ false
  unfolding extract
  extract-some policy [] left x e = absurd (cc)
  extract-some policy (y ∷ work) left x e = refl

  try_extract-WorkNotLost :
      (s : SharedQueue A) (policy : IPolicy) (m : Exec (Result (A × List A) QueueError))
      → extract policy s.work ≡ m
      → WorkNotLost s
      → Keeps WorkNotLost ((m >>= after_extract s) >>= λ (s', result). returns s')
  try_extract-WorkNotLost s policy (returns (ok (x, left))) e h =
      λ holds. h (rw (extract-some policy s.work left x e) refl)
  try_extract-WorkNotLost s policy (returns (error x)) e h = h
  try_extract-WorkNotLost s policy (throws x) e h = tt
  try_extract-WorkNotLost s policy undefined e h = tt
  try_extract-WorkNotLost s policy out_of_fuel e h = tt

  step-WorkNotLost :
      (event : Event A) (s : SharedQueue A) → WorkNotLost s → Keeps WorkNotLost (step event s)
  unfolding step try_extract insert mutate
  step-WorkNotLost (tries_extract policy) s h =
      try_extract-WorkNotLost s policy (extract policy s.work) refl h
  step-WorkNotLost (inserts item) s h =
      Keeps->>= WorkNotLost (queue_insert s.work item) _
        λ work _. NotLost-add_due _ s.new_work_available
  step-WorkNotLost (mutates mutation) s h =
      Keeps->>= WorkNotLost (queue_mutate mutation s.work) _
        λ work _. NotLost-add_due _ s.new_work_available
  step-WorkNotLost forces_wakeup s h = NotLost-notify_all _ s.new_work_available
  step-WorkNotLost (waits_work t) s h = NotLost-wait (work_ready s) t s.new_work_available h
  step-WorkNotLost (waits_empty t) s h = h
  step-WorkNotLost begins_skip_waiting s h = NotLost-add_due _ s.new_work_available
  step-WorkNotLost notifies_work s h =
      NotLost-notify_one_of (work_ready s) s.new_work_available.due s.new_work_available h
  step-WorkNotLost notifies_empty s h = h
  step-WorkNotLost (wakes_work i) s h = NotLost-wake (work_ready s) i s.new_work_available h
  step-WorkNotLost (wakes_empty i) s h = h
  step-WorkNotLost (rechecks_work i) s h = NotLost-recheck (work_ready s) i s.new_work_available h
  step-WorkNotLost (rechecks_empty i) s h = h

  run-WorkNotLost :
      (events : List (Event A)) (s : SharedQueue A)
      → WorkNotLost s
      → Keeps WorkNotLost (run events s)
  unfolding run
  run-WorkNotLost [] s h = h
  run-WorkNotLost (event ∷ events) s h =
      Keeps->>= WorkNotLost (step event s) (run events)
        λ s' e. run-WorkNotLost events s' (subst (Keeps WorkNotLost) e (step-WorkNotLost event s h))

  -- After any events, a thread that waits for work sleeps only where there is no work and the
  -- threads are not to end, or where a notification of new work is due.
  pub work_wakeup :
      (events : List (Event A)) (s : SharedQueue A)
      → run events start ≡ returns s
      → work_ready s ≡ true
      → (s.new_work_available.asleep ≡ []) ⊎ (0 < s.new_work_available.due)
  work_wakeup events s e ready =
      subst (Keeps WorkNotLost) e (run-WorkNotLost events start (λ _. inl refl)) ready
