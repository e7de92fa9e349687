-- ===== src/Net/EventLoopThread/Lifetime.antt =====
-- The life of a loop's thread (net/eventloop_thread.cc) whose loop only its owner quits.
use jnet.Base.{ℕ, ◌≡◌, refl, Bool, true, false, not, ◌&&◌, ◌||◌, arith}
use jnet.Net.EventLoopThread.{
  EventLoopThread, Owner, Worker, idle, waiting, holding, checked, waking, joining, finished,
  absent, starting, published, looping, cleared, ended, new, Step, Reach, starts, publishes, counts,
  returns, clears, ends, checks, quits, wakes, joins, quits_elsewhere, here, next, start_loop,
  publish, count_down, return_loop, clear_loop, end_thread, check_loop, quit_loop, wake_loop, join,
}

-- What the fields are, by the places of the two threads, and which places go together.
abbrev has_loop : Worker → Bool
has_loop published = true
has_loop looping = true
has_loop other = false

abbrev has_life : Worker → Bool
has_life published = true
has_life looping = true
has_life cleared = true
has_life other = false

abbrev has_quit : Owner → Bool
has_quit waking = true
has_quit joining = true
has_quit finished = true
has_quit other = false

abbrev pub has_woken : Owner → Bool
has_woken joining = true
has_woken finished = true
has_woken other = false

abbrev has_started : Owner → Bool
has_started idle = false
has_started other = true

abbrev counter : Worker → ℕ
counter absent = 1
counter starting = 1
counter published = 1
counter other = 0

abbrev fits : Owner → Worker → Bool
fits idle absent = true
fits waiting starting = true
fits waiting published = true
fits waiting looping = true
fits holding looping = true
fits checked looping = true
fits waking looping = true
fits waking cleared = true
fits waking ended = true
fits joining looping = true
fits joining cleared = true
fits joining ended = true
fits finished ended = true
fits owner worker = false

-- `fails`: something has failed only where the owner is behind the end of `Quit` and the loop is
-- gone.
pub record IsInStep (t : EventLoopThread) : Type 0 where
  pub fails : (t.failed && (not (has_woken t.owner) || t.alive)) ≡ false
  pub points : t.loop ≡ has_loop t.worker
  pub lives : t.alive ≡ has_life t.worker
  pub leaves : t.quit ≡ has_quit t.owner
  pub starts_once : t.started ≡ has_started t.owner
  pub latch : t.count ≡ counter t.worker
  pub agrees : fits t.owner t.worker ≡ true

new-IsInStep : IsInStep new
unfolding new
new-IsInStep = record {
  fails = refl;
  points = refl;
  lives = refl;
  leaves = refl;
  starts_once = refl;
  latch = refl;
  agrees = refl;
}

-- With no one else to quit the loop, every step keeps the two threads in agreement.
pub Step-IsInStep : {t u : EventLoopThread} → Step false t u → IsInStep t → IsInStep u
unfolding start_loop publish count_down return_loop clear_loop end_thread check_loop quit_loop
    wake_loop join
Step-IsInStep (starts at) s =
    ground (arith, at, s.fails, s.points, s.lives, s.leaves, s.starts_once, s.latch, s.agrees)
Step-IsInStep (publishes at) s =
    ground (arith, at, s.fails, s.points, s.lives, s.leaves, s.starts_once, s.latch, s.agrees)
Step-IsInStep (counts at) s =
    ground (arith, at, s.fails, s.points, s.lives, s.leaves, s.starts_once, s.latch, s.agrees)
Step-IsInStep (returns at zero_count) s =
    ground (
      arith, at, zero_count, s.fails, s.points, s.lives, s.leaves, s.starts_once, s.latch, s.agrees,
    )
Step-IsInStep (clears at quit) s =
    ground (arith, at, quit, s.fails, s.points, s.lives, s.leaves, s.starts_once, s.latch, s.agrees)
Step-IsInStep (ends at) s =
    ground (arith, at, s.fails, s.points, s.lives, s.leaves, s.starts_once, s.latch, s.agrees)
Step-IsInStep (checks at) s =
    ground (arith, at, s.fails, s.points, s.lives, s.leaves, s.starts_once, s.latch, s.agrees)
Step-IsInStep (quits at) s =
    ground (arith, at, s.fails, s.points, s.lives, s.leaves, s.starts_once, s.latch, s.agrees)
Step-IsInStep (wakes at) s =
    ground (arith, at, s.fails, s.points, s.lives, s.leaves, s.starts_once, s.latch, s.agrees)
Step-IsInStep (joins at_join at) s =
    ground
      (arith, at_join, at, s.fails, s.points, s.lives, s.leaves, s.starts_once, s.latch, s.agrees)
Step-IsInStep (quits_elsewhere other at) s =
    ground
      (arith, other, at, s.fails, s.points, s.lives, s.leaves, s.starts_once, s.latch, s.agrees)

pub Reach-IsInStep : {t : EventLoopThread} → Reach false new t → IsInStep t
Reach-IsInStep here = new-IsInStep
Reach-IsInStep (next reached step) = Step-IsInStep step (Reach-IsInStep reached)
