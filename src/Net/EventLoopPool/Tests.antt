-- ===== src/Net/EventLoopPool/Tests.antt =====
-- A pool of net/eventloop_pool.cc with three loops.
use jnet.Base.{◌+◌, ◌≡◌, refl, true, none, some, [], ◌∷◌}
use jnet.Net.EventLoopPool.{
  EventLoopPool, new, set_thread_num, start, get_next_loop, get_all_loops, next_loops,
  next_loops-round,
}

abbrev three : EventLoopPool
three = record { base_loop = 9; num_threads = 3; started = true; next = 0; loops = 4 ∷ 5 ∷ 6 ∷ [] }

starts_three : start (λ i. i + 4) (set_thread_num 3 (new 9)) ≡ some three
unfolding start set_thread_num new
starts_three = refl

next_loops-round-test : next_loops 3 three ≡ some (4 ∷ 5 ∷ 6 ∷ [], three)
next_loops-round-test = next_loops-round three refl refl

one_loop_for_all : get_all_loops (record three { loops = [] }) ≡ some (9 ∷ [])
unfolding get_all_loops
one_loop_for_all = refl

no_loop_before_the_start : get_next_loop (new 9) ≡ none
unfolding get_next_loop new
no_loop_before_the_start = refl
