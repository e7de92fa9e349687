-- ===== src/Net/EventLoopThread.antt =====
-- net/eventloop_thread.h, net/eventloop_thread.cc and the latch of net/countdownlatch.h: a thread
-- that runs a loop, and the thread that starts it and destroys the object. `failed` is set by a
-- failed assertion and by a call on a loop that is null or destroyed.
pub mod Lifetime
pub mod Finish
mod Tests
use jnet.Base.{ℕ, ◌-◌, ◌≡◌, Bool, true, false, not, ◌||◌, ltb}

-- Where the owner stands: before `StartLoop`, at the latch, with the loop that `StartLoop` returned,
-- in the destructor behind its test of `loop_`, in `loop_->Quit()` behind `quit_ = true`, at the
-- join, and behind it.
pub data Owner : Type 0 where
  idle waiting holding checked waking joining finished : Owner

-- Where the loop's thread stands: not created, at the start of `RunInThread`, behind `loop_ = &loop`,
-- behind the latch, behind `loop_ = nullptr`, and behind the loop's destructor.
pub data Worker : Type 0 where
  absent starting published looping cleared ended : Worker

-- `loop` says that `loop_` is not null, `alive` that the loop exists; `quit` is the loop's `quit_`
-- and `count` the latch's.
pub record EventLoopThread : Type 0 where
  pub owner : Owner
  pub worker : Worker
  pub started : Bool
  pub loop : Bool
  pub alive : Bool
  pub quit : Bool
  pub count : ℕ
  pub failed : Bool

unfoldable pub new : EventLoopThread
new = record {
  owner = idle;
  worker = absent;
  started = false;
  loop = false;
  alive = false;
  quit = false;
  count = 1;
  failed = false;
}

-- `StartLoop` up to the latch.
unfoldable pub start_loop : EventLoopThread → EventLoopThread
start_loop t = record t {
  owner = waiting;
  worker = starting;
  started = true;
  failed = t.failed || t.started || t.loop;
}

-- `RunInThread` up to the latch: the loop is created and `loop_` points to it.
unfoldable pub publish : EventLoopThread → EventLoopThread
publish t = record t { worker = published; loop = true; alive = true; quit = false }

-- `Count()`.
unfoldable pub count_down : EventLoopThread → EventLoopThread
count_down t = record t { worker = looping; count = t.count - 1 }

-- `StartLoop` behind the latch.
unfoldable pub return_loop : EventLoopThread → EventLoopThread
return_loop t = record t { owner = holding; failed = t.failed || not t.loop }

-- The end of `RunInThread`: `loop_ = nullptr`, and then the loop's destructor.
unfoldable pub clear_loop : EventLoopThread → EventLoopThread
clear_loop t = record t { worker = cleared; loop = false }

unfoldable pub end_thread : EventLoopThread → EventLoopThread
end_thread t = record t { worker = ended; alive = false }

-- The destructor: the test of `loop_`, `loop_->Quit()` with its assertion, up to `quit_ = true` and
-- from there on, and the join. The second half of `Quit` reads the loop's thread id and writes to its
-- wakeup descriptor.
unfoldable pub check_loop : EventLoopThread → EventLoopThread
check_loop t = record t { owner = elim t.loop [ true ↦ checked | false ↦ joining ] }

unfoldable pub quit_loop : EventLoopThread → EventLoopThread
quit_loop t = record t {
  owner = waking;
  quit = true;
  failed = t.failed || not t.loop || not t.alive || t.quit;
}

unfoldable pub wake_loop : EventLoopThread → EventLoopThread
wake_loop t = record t { owner = joining; failed = t.failed || not t.alive }

unfoldable pub join : EventLoopThread → EventLoopThread
join t = record t { owner = finished }

-- `Quit()` by anyone else who has the loop.
unfoldable pub quit_elsewhere : EventLoopThread → EventLoopThread
quit_elsewhere t = record t { quit = true; failed = t.failed || t.quit }

-- The steps of the two threads; `others` says whether others quit the loop too.
pub data Step (others : Bool) : EventLoopThread → EventLoopThread → Type 0 where
  starts : {t : EventLoopThread} → t.owner ≡ idle → Step others t (start_loop t)
  publishes : {t : EventLoopThread} → t.worker ≡ starting → Step others t (publish t)
  counts : {t : EventLoopThread} → t.worker ≡ published → Step others t (count_down t)
  returns : {t : EventLoopThread} → t.owner ≡ waiting → t.count ≡ 0 → Step others t (return_loop t)
  clears : {t : EventLoopThread} → t.worker ≡ looping → t.quit ≡ true → Step others t (clear_loop t)
  ends : {t : EventLoopThread} → t.worker ≡ cleared → Step others t (end_thread t)
  checks : {t : EventLoopThread} → t.owner ≡ holding → Step others t (check_loop t)
  quits : {t : EventLoopThread} → t.owner ≡ checked → Step others t (quit_loop t)
  wakes : {t : EventLoopThread} → t.owner ≡ waking → Step others t (wake_loop t)
  joins : {t : EventLoopThread} → t.owner ≡ joining → t.worker ≡ ended → Step others t (join t)
  quits_elsewhere :
      {t : EventLoopThread} → others ≡ true → t.worker ≡ looping → Step others t (quit_elsewhere t)

pub data Reach (others : Bool) : EventLoopThread → EventLoopThread → Type 0 where
  here : {t : EventLoopThread} → Reach others t t
  next : {s t u : EventLoopThread} → Reach others s t → Step others t u → Reach others s u
