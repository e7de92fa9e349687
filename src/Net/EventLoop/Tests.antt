-- ===== src/Net/EventLoop/Tests.antt =====
-- A loop of net/eventloop.cc with three functors.
use jnet.Base.{◌+◌, arith, ◌≡◌, refl, true, false, [], ◌∷◌}
use jnet.Net.EventLoop.{
  wakes, enters, queue_early, wake_elsewhere, polling, EventLoop, handling, doing, new, wake_up,
  queue_in_loop, begin_pending, call_next, end_pending, polled, queue_here, queue_elsewhere, begins,
  calls, ends, Reach, start, next,
}
use jnet.Net.EventLoop.Wakeup.{IsAwake, Reach-IsAwake}
use jnet.Net.EventLoop.Order.{all_of, Reach-all_of}

-- One functor of another thread is called, and queues the next one.
abbrev posted : EventLoop
posted = queue_in_loop false 7 (record new { phase = polling })

abbrev begun : EventLoop
begun = begin_pending (record (wake_elsewhere posted) { phase = handling })

abbrev called_one : EventLoop
called_one = queue_in_loop true 8 (call_next 7 [] begun)

called_one-Reach : Reach (7 ∷ 8 ∷ []) called_one
unfolding new queue_in_loop wake_up wake_elsewhere begin_pending call_next
called_one-Reach =
    next
      (next
        (next
          (next (next (next (next start (enters refl)) (queue_elsewhere 7)) (wakes (omega arith)))
            (polled refl refl))
          (begins refl))
        (calls 7 [] refl))
      (queue_here 8 (λ e. cc) (λ e. cc))

-- The loop's thread queues a functor before `Loop`: then `Poll` starts, and nothing wakes it.
forgotten :
    (l : EventLoop) × Reach (7 ∷ []) l
    × (l.phase ≡ polling)
    × (l.pending ≡ 7 ∷ [])
    × (l.counter + l.waking ≡ 0)
unfolding new queue_in_loop wake_up
forgotten = (_, next (next start (queue_early 7 refl)) (enters refl), refl, refl, refl)

is_done : called_one.phase ≡ doing []
unfolding new queue_in_loop wake_up wake_elsewhere begin_pending call_next
is_done = refl

Reach-IsAwake_example : IsAwake (end_pending called_one)
Reach-IsAwake_example = Reach-IsAwake (next called_one-Reach (ends is_done))

Reach-all_of_example : all_of called_one ≡ 7 ∷ 8 ∷ []
Reach-all_of_example = Reach-all_of called_one-Reach
