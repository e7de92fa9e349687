-- ===== src/Net/TimerQueue/Arming.antt =====
-- The time that the descriptor of net/timerqueue.cc is set to.
use jnet.Base.{
  ℕ, ◌+◌, ◌-◌, ◌*◌, max, ◌≤◌, ◌<◌, ◌≡◌, refl, inl, inr, Bool, true, false, Option, some, List, [],
  ◌∷◌, arith, ltb, if◌then◌else◌,
}
use jnet.Net.TimerQueue.{
  Timer, Entry, TimerQueue, load, insert_entry, is_earliest, insert, add_timer_in_loop,
  reset_timerfd, how_much_time_from_now,
}
use jnet.Net.TimerQueue.Order.{IsSorted, insert-IsSorted, insert-head}

-- The timers are in order, and the descriptor is set to no later than the first of them.
abbrev pub ArmedFor : List Entry → Option ℕ → Type 0
ArmedFor [] at = Unit {0}
ArmedFor (x ∷ xs) at = (t : ℕ) × (at ≡ some t) × (t ≤ x.key)

pub record IsArmed (q : TimerQueue) : Type 0 where
  pub sorted : IsSorted q.timers
  pub in_time : ArmedFor q.timers q.armed

abbrev after_insert : Bool → ℕ → Timer → TimerQueue → TimerQueue
after_insert first p t q =
    let r = record q {
      timers = insert_entry (record { key = t.expiration; timer = p }) q.timers;
    } in
    if first then reset_timerfd t.expiration r else r

after_insert-parts :
    (first : Bool) (p : ℕ) (t : Timer) (q : TimerQueue)
    → ((after_insert first p t q).timers
        ≡ insert_entry (record { key = t.expiration; timer = p }) q.timers)
      × ((after_insert first p t q).armed ≡ (if first then some t.expiration else q.armed))
      × ((after_insert first p t q).heap ≡ q.heap)
after_insert-parts true p t q = (refl, refl, refl)
after_insert-parts false p t q = (refl, refl, refl)

in_time-insert :
    (p k : ℕ) (xs : List Entry) (at : Option ℕ)
    → ArmedFor xs at
    → ArmedFor
        (insert_entry (record { key = k; timer = p }) xs)
        (if is_earliest k xs then some k else at)
unfolding insert_entry
in_time-insert p k [] at h = (k, refl, omega arith)
in_time-insert p k (x ∷ xs) at h =
    let (y, ys, shape, which) = insert-head (record { key = k; timer = p }) x xs in
    rw shape (elim which [
      | inl (first, same) ↦ rw first (k, refl, omega (arith, same))
      | inr (later, same) ↦ rw later (h.0, h.1, omega (arith, h.2, same))
    ])

-- `AddTimerInLoop` on a timer of the heap, where the timers are in order and the descriptor is set in
-- time for the first of them: it succeeds, puts the timer in its place in the order, and the
-- descriptor is set in time for the earliest timer, the new one or an old one.
pub add_timer_in_loop-IsArmed :
    (p : ℕ) (t : Timer) (q : TimerQueue)
    → load p q.heap ≡ some t
    → IsArmed q
    → (r : TimerQueue) × (add_timer_in_loop p q ≡ some r)
      × IsArmed r
      × (r.timers ≡ insert_entry (record { key = t.expiration; timer = p }) q.timers)
      × (r.heap ≡ q.heap)
unfolding add_timer_in_loop insert
add_timer_in_loop-IsArmed p t q there armed =
    let first = is_earliest t.expiration q.timers in
    let (timers, at, heap) = after_insert-parts first p t q in
    (
      after_insert first p t q,
      cc,
      record {
        sorted = rw timers (insert-IsSorted _ q.timers armed.sorted);
        in_time = rw (timers, at) (in_time-insert p t.expiration q.timers q.armed armed.in_time);
      },
      timers,
      heap,
    )

-- The delay that the descriptor is given is the time that is left, 100 microseconds at least, split
-- into seconds and nanoseconds that are less than a second.
pub how_much_time_from_now_lem :
    (now when : ℕ)
    → ((how_much_time_from_now now when).0 * 1000000000 + (how_much_time_from_now now when).1
        ≡ max 100 (when - now) * 1000)
      × ((how_much_time_from_now now when).1 < 1000000000)
unfolding how_much_time_from_now
how_much_time_from_now_lem now when =
    let k : (if ltb (when - now) 100 then 100 else when - now) ≡ max 100 (when - now) =
      ground arith in
    rw k (omega arith)
