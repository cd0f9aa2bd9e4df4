-- ===== src/Mt/Group/Examples.antt =====
-- src/mt/group.inl and the workers of src/furrent.cpp at work.
use furrent.Prelude.{◌≡◌, refl, [], ◌∷◌, true, false, returns, throws, invalid_argument}
use furrent.Prelude.Int.{negsuc}
use furrent.Mt.Group.{
  ThreadGroup, new_group, group_size, indices, resized, launch, terminate, destroy, threads_cnt,
  launch_workers,
}

abbrev three_workers : ThreadGroup
three_workers = record {
  states = 0 ∷ 0 ∷ 0 ∷ [];
  threads = 0 ∷ 1 ∷ 2 ∷ [];
  joined = [];
  should_terminate = false;
}

launch-four : launch_workers 4 ≡ returns three_workers
unfolding launch_workers launch group_size indices resized new_group threads_cnt
launch-four = refl

-- Where the hardware's concurrency is not known, there is no worker.
launch-unknown : launch_workers 0 ≡ returns new_group
unfolding launch_workers launch group_size indices resized new_group threads_cnt
launch-unknown = refl

launch-negative : launch 4 (negsuc 0) new_group ≡ throws invalid_argument
unfolding launch group_size
launch-negative = refl

destroy-joins : destroy three_workers ≡ record {
  states = 0 ∷ 0 ∷ 0 ∷ [];
  threads = [];
  joined = 0 ∷ 1 ∷ 2 ∷ [];
  should_terminate = true;
}
unfolding destroy terminate
destroy-joins = refl
