-- ===== src/Policy/Examples.antt =====
-- The theorems on src/policy at concrete inputs.
use furrent.Prelude.{ℕ, ◌+◌, ◌≡◌, ◌==◌, List, [], ◌∷◌, Bool, returns, ◌>>=◌, arith, length}
use furrent.Policy.{lifo_policy, fifo_policy, mutate}
use furrent.Policy.Order.{inserted, drained, reversed, mutate-kept, policies_order}

abbrev three : List ℕ
three = 7 ∷ 8 ∷ 9 ∷ []

policies_order_example :
    ((inserted [] three >>= drained lifo_policy (length three)) ≡ returns three)
    × ((inserted [] three >>= drained fifo_policy (length three)) ≡ returns (reversed three))
policies_order_example = policies_order three (omega arith)

abbrev remove_eight : ℕ → ℕ × Bool
remove_eight n = (n + 1, n == 8)

mutate-kept_example : mutate remove_eight three ≡ returns (8 ∷ 10 ∷ [])
mutate-kept_example = mutate-kept remove_eight three
