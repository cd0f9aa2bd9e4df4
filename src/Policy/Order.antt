-- ===== src/Policy/Order.antt =====
-- The order in which the queue of src/policy gives its items out, and what a mutation leaves.
use furrent.Prelude.{
  ℕ, zero, suc, ◌+◌, ◌-◌, ◌^◌, ◌<◌, ◌≡◌, ◌==◌, refl, sym, ap, ◌∙◌, List, [], ◌∷◌, ◌++◌,
  append_assoc, append-nil, Bool, true, false, if◌then◌else◌, none, some, length, length-append,
  set, get_elem?, ok, error, Exec, returns, ◌>>=◌, arith, inl, inr, Bool-cases, subst, if-false,
}
use furrent.Policy.{
  IPolicy, lifo_policy, fifo_policy, erase, insert, take_out, extract, mutate_from, mutate,
}

-- What a mutation keeps of the items, in their order.
abbrev pub kept {ℓ} : {A : Type ℓ} → (A → A × Bool) → List A → List A
kept mutation [] = []
kept mutation (item ∷ items) =
    if (mutation item).1 then kept mutation items else (mutation item).0 ∷ kept mutation items

module _ {A : Type 0} where
  get_elem?-middle : (xs ys : List A) (x : A) → get_elem? (xs ++ x ∷ ys) (length xs) ≡ some x
  get_elem?-middle [] ys x = refl
  get_elem?-middle (y ∷ xs) ys x = get_elem?-middle xs ys x

  erase-middle : (xs ys : List A) (x : A) → erase (xs ++ x ∷ ys) (length xs) ≡ xs ++ ys
  erase-middle [] ys x = refl
  erase-middle (y ∷ xs) ys x = ap (λ zs. y ∷ zs) (erase-middle xs ys x)

  set-middle : (xs ys : List A) (x v : A) → set (xs ++ x ∷ ys) (length xs) v ≡ xs ++ v ∷ ys
  set-middle [] ys x v = refl
  set-middle (y ∷ xs) ys x v = ap (λ zs. y ∷ zs) (set-middle xs ys x v)

  get_elem?-behind : (xs : List A) → get_elem? xs (length xs) ≡ none
  get_elem?-behind [] = refl
  get_elem?-behind (x ∷ xs) = get_elem?-behind xs

  -- A round of the loop, by what it finds.
  mutate_from-end :
      (m : A → A × Bool) (f : ℕ) (xs : List A) → mutate_from m (suc f) xs (length xs) ≡ returns xs
  unfolding mutate_from
  mutate_from-end m f xs = rw (get_elem?-behind xs, mutate_from) refl

  mutate_from-removes :
      (m : A → A × Bool) (f : ℕ) (xs ys : List A) (x : A)
      → (m x).1 ≡ true
      → mutate_from m (suc f) (xs ++ x ∷ ys) (length xs) ≡ mutate_from m f (xs ++ ys) (length xs)
  unfolding mutate_from
  mutate_from-removes m f xs ys x e =
      rw (get_elem?-middle xs ys x, mutate_from, e, erase-middle xs ys x) refl

  mutate_from-keeps :
      (m : A → A × Bool) (f : ℕ) (xs ys : List A) (x : A)
      → (m x).1 ≡ false
      → mutate_from m (suc f) (xs ++ x ∷ ys) (length xs)
        ≡ mutate_from m f (xs ++ (m x).0 ∷ ys) (length xs + 1)
  unfolding mutate_from
  mutate_from-keeps m f xs ys x e =
      rw (get_elem?-middle xs ys x, mutate_from, e, set-middle xs ys x (m x).0) refl

  mutate_from-kept :
      (m : A → A × Bool) (f : ℕ) (xs ys : List A)
      → length ys < f
      → mutate_from m f (xs ++ ys) (length xs) ≡ returns (xs ++ kept m ys)
  mutate_from-kept m zero xs ys l = absurd (omega arith)
  mutate_from-kept m (suc f) xs [] l = rw (append-nil xs) (mutate_from-end m f xs)
  mutate_from-kept m (suc f) xs (y ∷ ys) l = elim (Bool-cases (m y).1) [
    | inl gone ↦
        rw gone (mutate_from-removes m f xs ys y gone ∙ mutate_from-kept m f xs ys (omega arith))
    | inr stays ↦
        let next : length xs + 1 ≡ length (xs ++ (m y).0 ∷ []) =
          omega (arith, length-append xs ((m y).0 ∷ [])) in
        rw stays (
          mutate_from-keeps m f xs ys y stays
          ∙ ap (mutate_from m f (xs ++ (m y).0 ∷ ys)) next
          ∙ ap (λ zs. mutate_from m f zs (length (xs ++ (m y).0 ∷ [])))
              (sym (append_assoc xs ((m y).0 ∷ []) ys))
          ∙ mutate_from-kept m f (xs ++ (m y).0 ∷ []) ys (omega arith)
          ∙ ap returns (append_assoc xs ((m y).0 ∷ []) (kept m ys)))
  ]

  -- The loop over the iterators ends, and leaves the items that the mutation does not remove, as it
  -- left them and in their order.
  pub mutate-kept :
      (mutation : A → A × Bool) (items : List A)
      → mutate mutation items ≡ returns (kept mutation items)
  unfolding mutate
  mutate-kept mutation items = mutate_from-kept mutation (length items + 1) [] items (omega arith)

  -- Items inserted in turn.
  abbrev pub inserted : List A → List A → Exec (List A)
  inserted items [] = returns items
  inserted items (x ∷ xs) = insert items x >>= λ items'. inserted items' xs

  -- The items that a number of extractions give, in turn.
  abbrev pub drained : IPolicy → ℕ → List A → Exec (List A)
  drained policy zero items = returns []
  drained policy (suc n) items = extract policy items >>= λ result. elim result [
    | error e ↦ returns []
    | ok (x, left) ↦ (drained policy n left >>= λ xs. returns (x ∷ xs))
  ]

  abbrev pub reversed : List A → List A
  reversed [] = []
  reversed (x ∷ xs) = reversed xs ++ x ∷ []

  reversed-append : (xs : List A) (x : A) → reversed (xs ++ x ∷ []) ≡ x ∷ reversed xs
  reversed-append [] x = refl
  reversed-append (y ∷ xs) x = ap (λ zs. zs ++ y ∷ []) (reversed-append xs x)

  reversed-reversed : (xs : List A) → reversed (reversed xs) ≡ xs
  reversed-reversed [] = refl
  reversed-reversed (x ∷ xs) =
      reversed-append (reversed xs) x ∙ ap (λ zs. x ∷ zs) (reversed-reversed xs)

  length-reversed : (xs : List A) → length (reversed xs) ≡ length xs
  length-reversed [] = refl
  length-reversed (x ∷ xs) = omega (arith, length-append (reversed xs) (x ∷ []), length-reversed xs)

  inserted-append :
      (items xs : List A)
      → length items + length xs < 2 ^ 63
      → inserted items xs ≡ returns (items ++ xs)
  unfolding insert
  inserted-append items [] h = ap returns (sym (append-nil items))
  inserted-append items (x ∷ xs) h =
      let room : (length items == 2 ^ 63 - 1) ≡ false = ground arith in
      rw room (
        inserted-append (items ++ x ∷ []) xs (omega (arith, length-append items (x ∷ [])))
        ∙ ap returns (append_assoc items (x ∷ []) xs))

  drained-step :
      (policy : IPolicy) (n : ℕ) (items : List A) (x : A) (left : List A)
      → extract policy items ≡ returns (ok (x, left))
      → drained policy (suc n) items ≡ (drained policy n left >>= λ xs. returns (x ∷ xs))
  drained-step policy n items x left e = rw e refl

  pub extract-lifo : (xs : List A) (x : A) → extract lifo_policy (x ∷ xs) ≡ returns (ok (x, xs))
  unfolding extract take_out
  extract-lifo xs x =
      let inside : (0 == suc (length xs)) ≡ false = ground arith in if-false _ _ inside

  drained-lifo : (xs : List A) → drained lifo_policy (length xs) xs ≡ returns xs
  unfolding extract
  drained-lifo [] = refl
  drained-lifo (x ∷ xs) =
      drained-step lifo_policy (length xs) (x ∷ xs) x xs (extract-lifo xs x)
      ∙ rw (drained-lifo xs) refl

  take_out-middle :
      (xs ys : List A) (x : A) → take_out (xs ++ x ∷ ys) (length xs) ≡ returns (ok (x, xs ++ ys))
  unfolding take_out
  take_out-middle xs ys x = rw (get_elem?-middle xs ys x, take_out, erase-middle xs ys x) refl

  extract-fifo : (xs : List A) (y : A) → extract fifo_policy (xs ++ y ∷ []) ≡ returns (ok (y, xs))
  unfolding extract
  extract-fifo [] y = unfold take_out in refl
  extract-fifo (x ∷ xs) y =
      let last : length (xs ++ y ∷ []) ≡ suc (length xs) =
        omega (arith, length-append xs (y ∷ [])) in
      let inside : (suc (length (xs ++ y ∷ [])) - 1 == suc (length (xs ++ y ∷ []))) ≡ false =
        ground arith in
      let place : suc (length (xs ++ y ∷ [])) - 1 ≡ suc (length xs) = omega arith in
      if-false _ _ inside
      ∙ ap (take_out (x ∷ (xs ++ y ∷ []))) place
      ∙ take_out-middle (x ∷ xs) [] y
      ∙ ap (λ zs. returns (ok (y, x ∷ zs))) (append-nil xs)

  drained-fifo : (ys : List A) → drained fifo_policy (length ys) (reversed ys) ≡ returns ys
  drained-fifo [] = refl
  drained-fifo (y ∷ ys) = rw (extract-fifo (reversed ys) y, drained-fifo ys) refl

  -- Items that are inserted in turn, fewer than 2 ^ 63, come out of the queue in that order by the
  -- LIFOPolicy, and in the opposite order by the FIFOPolicy.
  pub policies_order :
      (xs : List A)
      → length xs < 2 ^ 63
      → ((inserted [] xs >>= drained lifo_policy (length xs)) ≡ returns xs)
        × ((inserted [] xs >>= drained fifo_policy (length xs)) ≡ returns (reversed xs))
  policies_order xs h =
      let all = inserted-append [] xs (omega arith) in
      let backwards : drained fifo_policy (length xs) xs ≡ returns (reversed xs) =
        subst (λ zs. drained fifo_policy (length zs) zs ≡ returns (reversed xs))
          (reversed-reversed xs)
          (ap (λ n. drained fifo_policy n (reversed (reversed xs))) (length-reversed (reversed xs))
            ∙ drained-fifo (reversed xs)) in
      (
        ap (λ m. m >>= drained lifo_policy (length xs)) all ∙ drained-lifo xs,
        ap (λ m. m >>= drained fifo_policy (length xs)) all ∙ backwards,
      )
