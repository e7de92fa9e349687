-- ===== src/Net/EventLoopThread/Finish.antt =====
-- The end of a loop's thread (net/eventloop_thread.cc): what is left to do from every state.
use jnet.Base.{Bool, Bool-cases, ◌≡◌, ◌⊎◌, inl, inr, refl, true, false, arith}
use jnet.Net.EventLoopThread.{
  EventLoopThread, Owner, Worker, absent, idle, waiting, holding, checked, waking, joining,
  finished, starting, published, looping, cleared, ended, new, Step, Reach, starts, publishes,
  counts, returns, clears, ends, checks, quits, wakes, joins, here, next, start_loop, publish,
  count_down, return_loop, clear_loop, end_thread, check_loop, quit_loop, wake_loop, join,
}
use jnet.Net.EventLoopThread.Lifetime.{IsInStep, Step-IsInStep, Reach-IsInStep}

Reach-trans : {s t u : EventLoopThread} → Reach false s t → Reach false t u → Reach false s u
Reach-trans first here = first
Reach-trans first (next rest step) = next (Reach-trans first rest) step

-- Steps that lead to the end of the destructor, without a failure.
abbrev pub Finishes : EventLoopThread → Type 0
Finishes t =
    (u : EventLoopThread) × Reach false t u
    × (u.owner ≡ finished)
    × (u.worker ≡ ended)
    × (u.failed ≡ false)

prepend : {t u : EventLoopThread} → Step false t u → Finishes u → Finishes t
prepend step (v, reached, o, w, f) = (v, Reach-trans (next here step) reached, o, w, f)

-- A state in agreement in which nothing has failed.
abbrev Fine : EventLoopThread → Type 0
Fine t = IsInStep t × (t.failed ≡ false)

finish-ended : (t : EventLoopThread) → Fine t → t.owner ≡ joining → t.worker ≡ ended → Finishes t
unfolding join
finish-ended t (s, f) o w = (join t, next here (joins o w), refl, w, f)

finish-cleared :
    (t : EventLoopThread) → Fine t → t.owner ≡ joining → t.worker ≡ cleared → Finishes t
unfolding end_thread
finish-cleared t (s, f) o w =
    prepend (ends w) (finish-ended (end_thread t) (Step-IsInStep (ends w) s, f) o refl)

finish-looping :
    (t : EventLoopThread) → Fine t → t.owner ≡ joining → t.worker ≡ looping → Finishes t
unfolding clear_loop
finish-looping t (s, f) o w =
    let step = clears w (ground (arith, s.leaves, o)) in
    prepend step (finish-cleared (clear_loop t) (Step-IsInStep step s, f) o refl)

-- The second half of `Quit`, on a loop that is left or still runs.
finish-woken : (t : EventLoopThread) → Fine t → t.owner ≡ waking → t.worker ≡ cleared → Finishes t
unfolding wake_loop
finish-woken t (s, f) o w =
    prepend (wakes o) (
      finish-cleared (wake_loop t) (Step-IsInStep (wakes o) s, ground (arith, f, s.lives, w)) refl
        w)

finish-waking : (t : EventLoopThread) → Fine t → t.owner ≡ waking → t.worker ≡ looping → Finishes t
unfolding wake_loop
finish-waking t (s, f) o w =
    prepend (wakes o) (
      finish-looping (wake_loop t) (Step-IsInStep (wakes o) s, ground (arith, f, s.lives, w)) refl
        w)

finish-checked :
    (t : EventLoopThread) → Fine t → t.owner ≡ checked → t.worker ≡ looping → Finishes t
unfolding quit_loop
finish-checked t (s, f) o w = prepend (quits o) (
    finish-waking (quit_loop t)
      (Step-IsInStep (quits o) s, ground (arith, f, s.lives, s.points, s.leaves, o, w)) refl w)

finish-holding :
    (t : EventLoopThread) → Fine t → t.owner ≡ holding → t.worker ≡ looping → Finishes t
unfolding check_loop
finish-holding t (s, f) o w =
    prepend (checks o) (
      finish-checked (check_loop t) (Step-IsInStep (checks o) s, f) (ground (arith, s.points, w)) w)

finish-waiting :
    (t : EventLoopThread) → Fine t → t.owner ≡ waiting → t.worker ≡ looping → Finishes t
unfolding return_loop
finish-waiting t (s, f) o w =
    let fine : (return_loop t).failed ≡ false = ground (arith, f, s.points, w) in
    let step = returns o (ground (arith, s.latch, w)) in
    prepend step (finish-holding (return_loop t) (Step-IsInStep step s, fine) refl w)

finish-published :
    (t : EventLoopThread) → Fine t → t.owner ≡ waiting → t.worker ≡ published → Finishes t
unfolding count_down
finish-published t (s, f) o w =
    prepend (counts w) (finish-waiting (count_down t) (Step-IsInStep (counts w) s, f) o refl)

finish-starting :
    (t : EventLoopThread) → Fine t → t.owner ≡ waiting → t.worker ≡ starting → Finishes t
unfolding publish
finish-starting t (s, f) o w =
    prepend (publishes w) (finish-published (publish t) (Step-IsInStep (publishes w) s, f) o refl)

finish-idle : (t : EventLoopThread) → Fine t → t.owner ≡ idle → t.worker ≡ absent → Finishes t
unfolding start_loop
finish-idle t (s, f) o w = prepend (starts o) (
    finish-starting (start_loop t)
      (Step-IsInStep (starts o) s, ground (arith, f, s.starts_once, s.points, o, w)) refl refl)

-- Whether the owner is behind `quit_ = true`.
abbrev has_called : Owner → Bool
has_called waking = true
has_called joining = true
has_called finished = true
has_called other = false

abbrev At : Owner → Worker → EventLoopThread → Type 0
At o w t = (t.owner ≡ o) × (t.worker ≡ w)

-- The places that the two threads can be at together, before that and behind it.
early_places :
    (t : EventLoopThread)
    → IsInStep t
    → has_called t.owner ≡ false
    → At idle absent t
      ⊎ (At waiting starting t
          ⊎ (At waiting published t
              ⊎ (At waiting looping t ⊎ (At holding looping t ⊎ At checked looping t))))
early_places t s early = ground (arith, s.agrees, early)

late_places :
    (t : EventLoopThread)
    → IsInStep t
    → has_called t.owner ≡ true
    → At waking looping t
      ⊎ (At waking cleared t
          ⊎ (At waking ended t
              ⊎ (At joining looping t
                  ⊎ (At joining cleared t ⊎ (At joining ended t ⊎ At finished ended t)))))
late_places t s late = ground (arith, s.agrees, late)

finish-early : (t : EventLoopThread) → Fine t → has_called t.owner ≡ false → Finishes t
finish-early t (s, f) early = elim (early_places t s early) [
  | inl (o, w) ↦ finish-idle t (s, f) o w
  | inr (inl (o, w)) ↦ finish-starting t (s, f) o w
  | inr (inr (inl (o, w))) ↦ finish-published t (s, f) o w
  | inr (inr (inr (inl (o, w)))) ↦ finish-waiting t (s, f) o w
  | inr (inr (inr (inr (inl (o, w))))) ↦ finish-holding t (s, f) o w
  | inr (inr (inr (inr (inr (o, w))))) ↦ finish-checked t (s, f) o w
]

finish-late :
    (t : EventLoopThread)
    → Fine t
    → has_called t.owner ≡ true
    → (t.owner ≡ waking → t.alive ≡ true)
    → Finishes t
finish-late t (s, f) late exists = elim (late_places t s late) [
  | inl (o, w) ↦ finish-waking t (s, f) o w
  | inr (inl (o, w)) ↦ finish-woken t (s, f) o w
  | inr (inr (inl (o, w))) ↦ absurd (ground (arith, exists o, s.lives, w))
  | inr (inr (inr (inl (o, w)))) ↦ finish-looping t (s, f) o w
  | inr (inr (inr (inr (inl (o, w))))) ↦ finish-cleared t (s, f) o w
  | inr (inr (inr (inr (inr (inl (o, w)))))) ↦ finish-ended t (s, f) o w
  | inr (inr (inr (inr (inr (inr (o, w)))))) ↦ (t, here, o, w, f)
]

-- From every state that a thread reaches whose loop nobody but its owner quits, in which nothing has
-- failed yet and in which the loop still exists if the destructor's `Quit` is between `quit_ = true`
-- and its end: steps of the two threads lead to the end of the destructor, behind the loop's end and
-- without a failure. So the latch and the join never stop both threads there.
pub Reach-Finishes :
    {t : EventLoopThread}
    → Reach false new t
    → t.failed ≡ false
    → (t.owner ≡ waking → t.alive ≡ true)
    → Finishes t
Reach-Finishes {t} reached fine exists =
    let s = Reach-IsInStep reached in
    elim (Bool-cases (has_called t.owner)) [
      | inl late ↦ finish-late t (s, fine) late exists
      | inr early ↦ finish-early t (s, fine) early
    ]
