-- ===== src/Policy.antt =====
-- src/policy: the queue that a policy extracts from (queue.hpp, queue.inl) and the policies
-- (policy.hpp, policy.inl). The std::list is a list, an iterator into it a position, and `end` its
-- length; emplace is insert. A mutation gives the item as it leaves it, and whether to remove it.
pub mod Order
mod Examples
use furrent.Prelude.{
  ℕ, zero, suc, ◌+◌, ◌-◌, ◌^◌, ◌==◌, List, [], ◌∷◌, ◌++◌, Bool, true, false, if◌then◌else◌, none,
  some, length, set, get_elem?, Result, ok, error, Exec, returns, throws, undefined, out_of_fuel,
  logic_error,
}

pub data QueueError : Type 0 where
  empty policy_failure : QueueError

-- IPolicy::extract(begin, end)
abbrev pub IPolicy : Type 0
IPolicy = ℕ → ℕ → ℕ

abbrev pub lifo_policy : IPolicy
lifo_policy begin end = begin

abbrev pub fifo_policy : IPolicy
fifo_policy begin end = end - 1

-- std::list::erase
abbrev pub erase {ℓ} : {A : Type ℓ} → List A → ℕ → List A
erase [] i = []
erase (x ∷ xs) zero = xs
erase (x ∷ xs) (suc i) = x ∷ erase xs i

unfoldable pub insert {ℓ} : {A : Type ℓ} → List A → A → Exec (List A)
insert items item =
    if length items == 2 ^ 63 - 1 then throws logic_error else returns (items ++ item ∷ [])

-- The item at a position, which is taken out. An iterator that is not one of the list is undefined.
unfoldable pub take_out : {A : Type 0} → List A → ℕ → Exec (Result (A × List A) QueueError)
take_out items it = elim (get_elem? items it) [
  | none ↦ undefined
  | some item ↦ returns (ok (item, erase items it))
]

-- Queue::extract: the item, and the queue that is left.
unfoldable pub extract : {A : Type 0} → IPolicy → List A → Exec (Result (A × List A) QueueError)
extract policy [] = returns (error empty)
extract policy (x ∷ xs) =
    let it = policy 0 (length (x ∷ xs)) in
    if it == length (x ∷ xs) then returns (error policy_failure) else take_out (x ∷ xs) it

-- The loop of Queue::mutate, from the iterator on. A round removes an item or goes on to the next.
unfoldable pub mutate_from {ℓ} : {A : Type ℓ} → (A → A × Bool) → ℕ → List A → ℕ → Exec (List A)
mutate_from mutation zero items it = out_of_fuel
mutate_from mutation (suc fuel) items it = elim (get_elem? items it) [
  | none ↦ returns items
  | some item ↦ elim (mutation item).1 [
    | true ↦ mutate_from mutation fuel (erase items it) it
    | false ↦ mutate_from mutation fuel (set items it (mutation item).0) (it + 1)
  ]
]

unfoldable pub mutate {ℓ} : {A : Type ℓ} → (A → A × Bool) → List A → Exec (List A)
mutate mutation items = mutate_from mutation (length items + 1) items 0
