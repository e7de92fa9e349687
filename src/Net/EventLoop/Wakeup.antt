-- ===== src/Net/EventLoop/Wakeup.antt =====
-- The functors that wait in net/eventloop.cc, and the wakeups of its `Poll`.
use jnet.Base.{
  ℕ, ◌+◌, ◌-◌, ◌≤◌, ◌≡◌, refl, sym, subst, ◌⊎◌, inl, inr, Bool, true, false, List, [], ◌∷◌, ◌++◌,
  arith, if◌then◌else◌,
}
use jnet.Net.EventLoop.{
  Phase, outside, polling, handling, doing, EventLoop, new, wake_up, handle_read, queue_in_loop,
  quit, begin_pending, call_next, end_pending, Step, enters, queue_early, wakes, wake_elsewhere,
  polled, woken, queue_here, queue_elsewhere, quits, begins, calls, ends, Reach, start, next,
}

-- `doing_pending` is true in `DoPendingFunctors` only. Outside the handling of events, after which
-- `DoPendingFunctors` runs, functors wait only with a signal, which is a readable wakeup descriptor
-- or a thread in front of its `WakeUp`; or, before functors are taken for the first time, when the
-- loop's own thread has queued some before `Loop`.
abbrev pub Awake : Phase → List ℕ → Bool → Bool → ℕ → Type 0
Awake outside pending busy early signals =
    (busy ≡ false) × ((pending ≡ []) ⊎ ((1 ≤ signals) ⊎ (early ≡ true)))
Awake polling pending busy early signals =
    (busy ≡ false) × ((pending ≡ []) ⊎ ((1 ≤ signals) ⊎ (early ≡ true)))
Awake handling pending busy early signals = busy ≡ false
Awake (doing fs) pending busy early signals =
    ((busy ≡ true) × (early ≡ false)) × ((pending ≡ []) ⊎ (1 ≤ signals))

abbrev pub IsAwake : EventLoop → Type 0
IsAwake l = Awake l.phase l.pending l.doing_pending l.early (l.counter + l.waking)

at_phase :
    {p : Phase} (l : EventLoop)
    → l.phase ≡ p
    → IsAwake l
    → Awake p l.pending l.doing_pending l.early (l.counter + l.waking)
at_phase l at h = subst (λ p. Awake p l.pending l.doing_pending l.early (l.counter + l.waking)) at h

-- Where there is a signal, anything can wait.
signalled :
    (p : Phase) (old pending : List ℕ) (busy early : Bool) (m n : ℕ)
    → 1 ≤ n
    → Awake p old busy early m
    → Awake p pending busy early n
signalled outside old pending busy early m n some-signal h = (h.0, inr (inl some-signal))
signalled polling old pending busy early m n some-signal h = (h.0, inr (inl some-signal))
signalled handling old pending busy early m n some-signal h = h
signalled (doing fs) old pending busy early m n some-signal h = (h.0, inr some-signal)

-- A functor that the loop's own thread queues in `Loop`.
queued_here :
    (p : Phase) (pending : List ℕ) (f : ℕ) (busy early : Bool) (counter waking : ℕ)
    → ¬ (p ≡ outside)
    → ¬ (p ≡ polling)
    → Awake p pending busy early (counter + waking)
    → Awake p (pending ++ (f ∷ [])) busy early ((if busy then counter + 1 else counter) + waking)
queued_here outside pending f busy early counter waking out at h = absurd (out refl)
queued_here polling pending f busy early counter waking out at h = absurd (at refl)
queued_here handling pending f busy early counter waking out at h = h
queued_here (doing fs) pending f busy early counter waking out at h =
    (h.0, inr (rw h.0.0 (omega arith)))

queue_here-parts :
    (f : ℕ) (l : EventLoop)
    → ((queue_in_loop true f l).phase ≡ l.phase)
      × ((queue_in_loop true f l).pending ≡ l.pending ++ (f ∷ []))
      × ((queue_in_loop true f l).doing_pending ≡ l.doing_pending)
      × ((queue_in_loop true f l).early ≡ l.early)
      × ((queue_in_loop true f l).waking ≡ l.waking)
      × ((queue_in_loop true f l).counter ≡ (if l.doing_pending then l.counter + 1 else l.counter))
unfolding queue_in_loop wake_up
queue_here-parts f l = ground arith

quit-IsAwake : (in_loop : Bool) (l : EventLoop) → IsAwake l → IsAwake (quit in_loop l)
unfolding quit
quit-IsAwake true l h = h
quit-IsAwake false l h =
    signalled l.phase l.pending l.pending l.doing_pending l.early (l.counter + l.waking)
      (l.counter + (l.waking + 1)) (omega arith) h

-- A functor that the loop's own thread queues before `Loop`.
queue_early-IsAwake :
    (f : ℕ) (l : EventLoop)
    → l.phase ≡ outside
    → IsAwake l
    → IsAwake (record (queue_in_loop true f l) { early = true })
queue_early-IsAwake f l at h =
    let (p, q, b, e, w, n) = queue_here-parts f l in
    rw (p, b, at) ((at_phase l at h).0, inr (inr refl))

Step-IsAwake : {fs : List ℕ} {l m : EventLoop} → Step l fs m → IsAwake l → IsAwake m
unfolding handle_read queue_in_loop wake_up wake_elsewhere begin_pending call_next end_pending
Step-IsAwake {l = l} (enters at) h = at_phase l at h
Step-IsAwake {l = l} (queue_early f at) h = queue_early-IsAwake f l at h
Step-IsAwake {l = l} (polled at going) h = (at_phase l at h).0
Step-IsAwake {l = l} (woken at) h =
    subst (λ p. Awake p l.pending l.doing_pending l.early (0 + l.waking)) (sym at) (at_phase l at h)
Step-IsAwake {l = l} (queue_here f out at) h =
    let (p, q, b, e, w, n) = queue_here-parts f l in
    rw (p, q, b, e, w, n)
      (queued_here l.phase l.pending f l.doing_pending l.early l.counter l.waking out at h)
Step-IsAwake {l = l} (queue_elsewhere f) h =
    signalled l.phase l.pending (l.pending ++ (f ∷ [])) l.doing_pending l.early
      (l.counter + l.waking) (l.counter + (l.waking + 1)) (omega arith) h
Step-IsAwake {l = l} (wakes busy) h =
    signalled l.phase l.pending l.pending l.doing_pending l.early (l.counter + l.waking)
      (l.counter + 1 + (l.waking - 1)) (omega arith) h
Step-IsAwake {l = l} (quits in_loop) h = quit-IsAwake in_loop l h
Step-IsAwake {l = l} (begins at) h = ((refl, refl), inl refl)
Step-IsAwake {l = l} (calls f fs at) h = at_phase l at h
Step-IsAwake {l = l} (ends at) h =
    let (held, rest) = at_phase l at h in
    (refl, elim rest [ inl empty ↦ inl empty | inr some-signal ↦ inr (inl some-signal) ])

-- In every state that the loop and the other threads can reach: when the loop's thread is in `Poll`
-- and functors wait, the wakeup descriptor is readable, or another thread is in `QueueInLoop` or
-- `Quit` in front of its `WakeUp`, or the loop's own thread has queued functors before `Loop` and
-- none have been taken since. The same holds before `Loop`, and in `DoPendingFunctors` too, without
-- the last case. And `doingPending_` is true exactly in `DoPendingFunctors`.
pub Reach-IsAwake : {fs : List ℕ} {l : EventLoop} → Reach fs l → IsAwake l
unfolding new
Reach-IsAwake start = (refl, inl refl)
Reach-IsAwake (next r s) = Step-IsAwake s (Reach-IsAwake r)
