-- ===== src/Net/ThreadPool/Tests.antt =====
-- Pools of net/threadpool.h with a few workers and tasks.
use jnet.Base.{◌≡◌, refl, true, [], ◌∷◌, arith}
use jnet.Net.ThreadPool.{
  ThreadPool, new, worker_turn, worker_loop, add_task, destroy, nobody_wakes, WorkerStep, turns,
  Step, works, adds, Reach, start, next,
}
use jnet.Net.ThreadPool.Queue.{IsSound, Reach-IsSound}
use jnet.Net.ThreadPool.Stop.{Drained, IsAsleep, worker_loop-Drained, destroy-IsAsleep}

abbrev stopped : ThreadPool
stopped = record {
  tasks = 7 ∷ 8 ∷ [];
  max_queue_size = 2;
  stop = true;
  awake = 1;
  waiting = 0;
  running = 0;
  left = 0;
  blocked = [];
  woken = [];
  added = 6 ∷ 7 ∷ 8 ∷ [];
  taken = 6 ∷ [];
}

loop-test : (worker_loop 2 0 stopped).taken ≡ 6 ∷ 7 ∷ 8 ∷ []
unfolding worker_loop worker_turn
loop-test = refl

worker_loop-Drained_example : Drained stopped (worker_loop 2 0 stopped)
worker_loop-Drained_example = worker_loop-Drained 2 0 stopped refl (omega arith)

-- A task is added to a pool of one worker, which takes it.
one-added : Step (new 1 2) (add_task 5 (new 1 2))
unfolding new add_task
one-added = adds 5 refl (nobody_wakes refl refl)

one-awake : (add_task 5 (new 1 2)).awake ≡ 1
unfolding new add_task
one-awake = refl

one-taken : Reach 1 2 (worker_turn 0 (add_task 5 (new 1 2)))
one-taken = next (next start one-added) (works (turns 0 one-awake))

Reach-IsSound_example : IsSound 1 2 (worker_turn 0 (add_task 5 (new 1 2)))
Reach-IsSound_example = Reach-IsSound one-taken

destroy-IsAsleep_example :
    (s : ThreadPool) × Reach 2 10 s
    × IsAsleep 2 (destroy s)
    × ((t : ThreadPool) → ¬ WorkerStep (destroy s) t)
destroy-IsAsleep_example = destroy-IsAsleep 2 10
