-- ===== src/Net/EventLoopThread/Tests.antt =====
-- Runs of the two threads of net/eventloop_thread.cc.
use jnet.Base.{◌≡◌, refl, true, false}
use jnet.Net.EventLoopThread.{
  EventLoopThread, new, Reach, here, next, starts, publishes, counts, returns, clears, checks,
  quits, ends, wakes, end_thread, wake_loop, start_loop, publish, count_down, return_loop,
  check_loop, quit_loop, clear_loop,
}
use jnet.Net.EventLoopThread.Finish.{Finishes, Reach-Finishes}

abbrev started : EventLoopThread
started = publish (start_loop new)

new-started : Reach false new started
unfolding new start_loop publish
new-started = next (next here (starts refl)) (publishes refl)

started-fine : started.failed ≡ false
unfolding new start_loop publish
started-fine = refl

started-alive : started.alive ≡ true
unfolding publish
started-alive = refl

Reach-Finishes_example : Finishes started
Reach-Finishes_example = Reach-Finishes new-started started-fine (λ e. started-alive)

-- The loop is left and gone between the two halves of the destructor's `Quit`, which then calls a
-- loop that does not exist.
new-failed : (t : EventLoopThread) × Reach false new t × (t.failed ≡ true) × (t.alive ≡ false)
unfolding new start_loop publish count_down return_loop check_loop quit_loop clear_loop end_thread
    wake_loop
new-failed = (
  _,
  next
      (next
        (next
          (next
            (next
              (next (next (next (next here (starts refl)) (publishes refl)) (counts refl))
                (returns refl refl))
              (checks refl))
            (quits refl))
          (clears refl refl))
        (ends refl))
      (wakes refl),
  refl,
  refl,
)
