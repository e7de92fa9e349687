-- ===== src/Net/EventLoop.antt =====
-- net/eventloop.h and net/eventloop.cc: the functors that a loop is given, its wakeup descriptor, and
-- the rounds of `Loop`. A functor is known by a number; what it queues itself are steps of the loop's
-- thread. `counter` is the counter of the `eventfd`, and `ran` lists the functors that were called.
-- `waking` counts the other threads that are in `QueueInLoop` or `Quit` in front of their `WakeUp`.
-- `early` notes that the loop's own thread has queued a functor before `Loop`, and that none of the
-- functors has been taken since.
pub mod Wakeup
pub mod Order
mod Tests
use jnet.Base.{
  ℕ, ◌+◌, ◌-◌, ◌≤◌, Bool, true, false, not, ◌||◌, List, [], ◌∷◌, ◌++◌, ◌≡◌, if◌then◌else◌,
}

-- Where the loop's thread stands: before `Loop`, in `Poll`, at the events of the channels, or in
-- `DoPendingFunctors`, with the functors of `funcs` that it has not called.
pub data Phase : Type 0 where
  outside polling handling : Phase
  doing : List ℕ → Phase

pub record EventLoop : Type 0 where
  pub phase : Phase
  pub pending : List ℕ
  pub doing_pending : Bool
  pub quit : Bool
  pub counter : ℕ
  pub waking : ℕ
  pub early : Bool
  pub ran : List ℕ

unfoldable pub new : EventLoop
new = record {
  phase = outside;
  pending = [];
  doing_pending = false;
  quit = false;
  counter = 0;
  waking = 0;
  early = false;
  ran = [];
}

unfoldable pub wake_up : EventLoop → EventLoop
wake_up l = record l { counter = l.counter + 1 }

-- Another thread's `WakeUp`, the second half of its call.
unfoldable pub wake_elsewhere : EventLoop → EventLoop
unfolding wake_up
wake_elsewhere l = record (wake_up l) { waking = l.waking - 1 }

-- The read callback of the wakeup channel: a read of an `eventfd` takes its whole counter.
unfoldable pub handle_read : EventLoop → EventLoop
handle_read l = record l { counter = 0 }

-- `QueueInLoop(func)`; `in_loop` is `IsInLoopThread()`. In another thread this is the call up to its
-- `WakeUp`. In the loop's own thread it is the whole call: nobody but this thread reads the counter.
unfoldable pub queue_in_loop : Bool → ℕ → EventLoop → EventLoop
queue_in_loop in_loop f l =
    let q = record l { pending = l.pending ++ (f ∷ []) } in
    if not in_loop || l.doing_pending
    then (if in_loop then wake_up q else record q { waking = q.waking + 1 })
    else q

abbrev pub call : ℕ → EventLoop → EventLoop
call f l = record l { ran = l.ran ++ (f ∷ []) }

-- `RunInLoop(func)`.
unfoldable pub run_in_loop : Bool → ℕ → EventLoop → EventLoop
run_in_loop in_loop f l = if in_loop then call f l else queue_in_loop in_loop f l

-- `Quit()`, in another thread up to its `WakeUp`.
unfoldable pub quit : Bool → EventLoop → EventLoop
quit in_loop l =
    let q = record l { quit = true } in
    if not in_loop then record q { waking = q.waking + 1 } else q

-- `DoPendingFunctors` up to its loop, the calls of the loop one by one, and the end. The swap and the
-- assignment to `doingPending_` are one step, since another thread's call of `QueueInLoop` does not
-- read it.
unfoldable pub begin_pending : EventLoop → EventLoop
begin_pending l = record l {
  phase = doing l.pending;
  pending = [];
  doing_pending = true;
  early = false;
}

unfoldable pub call_next : ℕ → List ℕ → EventLoop → EventLoop
call_next f fs l = record (call f l) { phase = doing fs }

unfoldable pub end_pending : EventLoop → EventLoop
end_pending l = record l { phase = polling; doing_pending = false }

-- The steps of the loop's thread and of the others, with the functors that a step queues.
-- `queue_here` is a call of a channel's callback or of a functor, and `queue_early` one of the loop's
-- thread before `Loop`.
pub data Step : EventLoop → List ℕ → EventLoop → Type 0 where
  enters : {l : EventLoop} → l.phase ≡ outside → Step l [] (record l { phase = polling })
  queue_early :
      {l : EventLoop} (f : ℕ)
      → l.phase ≡ outside
      → Step l (f ∷ []) (record (queue_in_loop true f l) { early = true })
  polled :
      {l : EventLoop}
      → l.phase ≡ polling
      → l.quit ≡ false
      → Step l [] (record l { phase = handling })
  woken : {l : EventLoop} → l.phase ≡ handling → Step l [] (handle_read l)
  queue_here :
      {l : EventLoop} (f : ℕ)
      → ¬ (l.phase ≡ outside)
      → ¬ (l.phase ≡ polling)
      → Step l (f ∷ []) (queue_in_loop true f l)
  queue_elsewhere : {l : EventLoop} (f : ℕ) → Step l (f ∷ []) (queue_in_loop false f l)
  wakes : {l : EventLoop} → 1 ≤ l.waking → Step l [] (wake_elsewhere l)
  quits : {l : EventLoop} (in_loop : Bool) → Step l [] (quit in_loop l)
  begins : {l : EventLoop} → l.phase ≡ handling → Step l [] (begin_pending l)
  calls :
      {l : EventLoop} (f : ℕ) (fs : List ℕ)
      → l.phase ≡ doing (f ∷ fs)
      → Step l [] (call_next f fs l)
  ends : {l : EventLoop} → l.phase ≡ doing [] → Step l [] (end_pending l)

-- What the steps reach from the start, with all the functors that were queued, in order.
pub data Reach : List ℕ → EventLoop → Type 0 where
  start : Reach [] new
  next : {fs gs : List ℕ} {l m : EventLoop} → Reach fs l → Step l gs m → Reach (fs ++ gs) m
