-- ===== src/Mt/Group.antt =====
-- src/mt/group.hpp, group.inl and group.cpp: the threads that run Furrent's workers, and how many of them
-- Furrent::Furrent() of src/furrent.cpp starts. What std::thread does is third-party: a thread is its
-- index, `hardware` is what hardware_concurrency() answers, which may be 0.
mod Examples
use furrent.Prelude.{
  ℕ, zero, suc, ◌-◌, ltb, min, List, [], ◌∷◌, Bool, true, false, not, if◌then◌else◌, length,
  replicate, ◌++◌, Exec, returns, throws, invalid_argument, ◌>>=◌, ◌+◌,
}
use furrent.Prelude.Int.{ℤ, pos, negsuc}

-- Of a worker's state the pieces that it has processed; `threads` are running, `joined` have ended.
pub record ThreadGroup : Type 0 where
  pub states : List ℕ
  pub threads : List ℕ
  pub joined : List ℕ
  pub should_terminate : Bool

-- ThreadGroup()
unfoldable pub new_group : ThreadGroup
new_group = record { states = []; threads = []; joined = []; should_terminate = false }

-- The number of threads of launch.
unfoldable pub group_size : ℕ → ℤ → Exec ℕ
group_size hardware (negsuc n) = throws invalid_argument
group_size hardware (pos zero) = returns hardware
group_size hardware (pos (suc n)) = returns (min hardware (suc n))

-- The indices of the loop, with the rounds left and the next index.
unfoldable pub indices : ℕ → ℕ → List ℕ
indices zero i = []
indices (suc left) i = i ∷ indices left (i + 1)

-- _states.resize(size): states that are there stay, and new ones are 0.
unfoldable pub resized : ℕ → List ℕ → List ℕ
resized zero states = []
resized (suc size) [] = 0 ∷ resized size []
resized (suc size) (processed ∷ states) = processed ∷ resized size states

unfoldable pub launch : ℕ → ℤ → ThreadGroup → Exec ThreadGroup
unfolding group_size indices resized
launch hardware max_worker_threads g = do
  size ← group_size hardware max_worker_threads
  returns (record g { states = resized size g.states; threads = g.threads ++ indices size 0 })

-- Runner::alive
unfoldable pub alive : ThreadGroup → Bool
alive g = not g.should_terminate

-- terminate(), which returns when every thread has ended.
unfoldable pub terminate : ThreadGroup → ThreadGroup
terminate g = record g { threads = []; joined = g.joined ++ g.threads; should_terminate = true }

-- ~ThreadGroup()
unfoldable pub destroy : ThreadGroup → ThreadGroup
unfolding terminate
destroy g = if g.should_terminate then g else terminate g

unfoldable pub get_worker_count : ThreadGroup → ℕ
get_worker_count g = length g.states

-- Furrent::Furrent(): one thread fewer than the hardware runs at once, but one at least.
unfoldable pub threads_cnt : ℕ → ℕ
threads_cnt concurrency = if ltb 1 concurrency then concurrency - 1 else 1

unfoldable pub launch_workers : ℕ → Exec ThreadGroup
unfolding launch new_group threads_cnt
launch_workers concurrency = launch concurrency (pos (threads_cnt concurrency)) new_group
