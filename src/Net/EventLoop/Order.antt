-- ===== src/Net/EventLoop/Order.antt =====
-- The order in which net/eventloop.cc calls the functors that are queued.
use jnet.Base.{
  ℕ, ◌≡◌, inl, inr, refl, sym, ap, ◌∙◌, Bool, true, false, List, [], ◌∷◌, ◌++◌, append_assoc,
  append-nil, Bool-cases,
}
use jnet.Net.EventLoop.{
  Phase, outside, polling, handling, doing, EventLoop, new, wake_up, handle_read, queue_in_loop,
  quit, begin_pending, call_next, end_pending, Step, enters, queue_early, wakes, wake_elsewhere,
  polled, woken, queue_here, queue_elsewhere, quits, begins, calls, ends, Reach, start, next,
}

-- The functors that the loop's thread has taken and not called.
abbrev pub taken : Phase → List ℕ
taken outside = []
taken polling = []
taken handling = []
taken (doing fs) = fs

-- The functors that were called, then those that are left.
abbrev pub all_of : EventLoop → List ℕ
all_of l = l.ran ++ (taken l.phase ++ l.pending)

queued_here : (f : ℕ) (l : EventLoop) → all_of (queue_in_loop true f l) ≡ all_of l ++ (f ∷ [])
unfolding queue_in_loop wake_up
queued_here f l = elim (Bool-cases l.doing_pending) [
  | inl busy ↦ rw busy (simp append_assoc)
  | inr free ↦ rw free (simp append_assoc)
]

quit-all_of : (in_loop : Bool) (l : EventLoop) → all_of (quit in_loop l) ≡ all_of l
unfolding quit wake_up
quit-all_of true l = refl
quit-all_of false l = refl

Step-all_of : {fs : List ℕ} {l m : EventLoop} → Step l fs m → all_of m ≡ all_of l ++ fs
unfolding handle_read queue_in_loop wake_up wake_elsewhere quit begin_pending call_next end_pending
Step-all_of {l = l} (enters at) = rw at (sym (append-nil _))
Step-all_of {l = l} (queue_early f at) = queued_here f l
Step-all_of {l = l} (polled at going) = rw at (sym (append-nil _))
Step-all_of {l = l} (woken at) = sym (append-nil _)
Step-all_of {l = l} (queue_here f out at) = queued_here f l
Step-all_of {l = l} (queue_elsewhere f) = simp append_assoc
Step-all_of {l = l} (wakes busy) = sym (append-nil _)
Step-all_of {l = l} (quits in_loop) = quit-all_of in_loop l ∙ sym (append-nil _)
Step-all_of {l = l} (begins at) = let t = ap taken at in rw t (simp append-nil)
Step-all_of {l = l} (calls f fs at) = let t = ap taken at in rw t (simp (append-nil, append_assoc))
Step-all_of {l = l} (ends at) = let t = ap taken at in rw t (simp append-nil)

-- In every state that the loop and the other threads can reach, the functors that were called, those
-- that `DoPendingFunctors` holds and those that wait are the functors that were queued, in the order
-- in which they were queued: none is lost, called twice or overtaken.
pub Reach-all_of : {fs : List ℕ} {l : EventLoop} → Reach fs l → all_of l ≡ fs
unfolding new
Reach-all_of start = refl
Reach-all_of (next {fs} {gs} r s) = Step-all_of s ∙ ap (λ q. q ++ gs) (Reach-all_of r)
