-- ===== src/Net/TimerQueue/Cancel.antt =====
-- The cancellation of timers in net/timerqueue.cc.
use jnet.Base.{ℕ, ◌+◌, ◌≡◌, ap, ◌∙◌, Bool, true, some, List, [], ◌∷◌, arith, ℕ_discrete}
use jnet.Net.TimerQueue.{
  Timer, Entry, Cell, TimerQueue, load, store, restart, insert_entry, erase_entry, insert,
  add_timer, cancel, reset_one, is_canceling,
}
use jnet.Net.TimerQueue.Order.{IsFresh, erase-insert, erase-IsFresh}
use jnet.Net.TimerQueue.Arming.{IsArmed, add_timer_in_loop-IsArmed}

load-store :
    (p : ℕ) (t u : Timer) (cs : List Cell) → load p cs ≡ some t → load p (store p u cs) ≡ some u
unfolding load store
load-store p t u [] h = cc
load-store p t u (c ∷ cs) h = elim (ℕ_discrete c.addr p) [
  | yes here ↦ ground arith
  | no other ↦ ground (arith, load-store p t u cs)
]

cancel-loaded :
    (p : ℕ) (t : Timer) (q : TimerQueue)
    → load p q.heap ≡ some t
    → cancel (some p) q
      ≡ some (record q { timers = erase_entry (record { key = t.expiration; timer = p }) q.timers })
unfolding cancel
cancel-loaded p t q there = cc

-- A timer that `AddTimer` has put in a queue with no such entry, where the timers are in order and
-- the descriptor is set in time for the first of them, and that is cancelled before it expires,
-- leaves the set of timers as it was.
pub cancel-add_timer :
    (p expiration interval : ℕ) (repeat : Bool) (q : TimerQueue)
    → IsArmed q
    → IsFresh (record { key = expiration; timer = p }) q.timers
    → (r s : TimerQueue) × (add_timer p expiration interval repeat q ≡ some (r, p, q.created))
      × (cancel (some p) r ≡ some s)
      × (s.timers ≡ q.timers)
unfolding add_timer load
cancel-add_timer p expiration interval repeat q armed fresh =
    let t : Timer = record {
      expiration = expiration;
      interval = interval;
      repeat = repeat;
      sequence = q.created;
    } in
    let q1 = record q { heap = record { addr = p; timer = t } ∷ q.heap; created = q.created + 1 } in
    let there : load p q1.heap ≡ some t = ground arith in
    let (r, done, _, timers, heap) =
      add_timer_in_loop-IsArmed p t q1 there
        (record { sorted = armed.sorted; in_time = armed.in_time }) in
    let e : Entry = record { key = expiration; timer = p } in
    (
      r,
      record r { timers = erase_entry e r.timers },
      cc,
      cancel-loaded p t r (ap (load p) heap ∙ there),
      ap (erase_entry e) timers ∙ erase-insert e q.timers fresh,
    )

restart-repeats :
    (now : ℕ) (t : Timer)
    → t.repeat ≡ true
    → restart now t ≡ record t { expiration = now + t.interval }
unfolding restart
restart-repeats now t repeats = cc

-- A repeated timer goes back into the set, at its interval from now.
reset_one-repeats :
    (now p : ℕ) (t : Timer) (q : TimerQueue)
    → load p q.heap ≡ some t
    → t.repeat ≡ true
    → q.canceling ≡ []
    → reset_one now p q
      ≡ some (record q {
        heap = store p (record t { expiration = now + t.interval }) q.heap;
        timers = insert_entry (record { key = now + t.interval; timer = p }) q.timers;
      })
unfolding reset_one insert is_canceling
reset_one-repeats now p t q there repeats empty =
    let u = record t { expiration = now + t.interval } in
    let stored = load-store p t u q.heap there in
    let started = restart-repeats now t repeats in ground (arith, stored, started)

-- A repeated timer that is on the heap and whose own callback cancels it, so that its entry is out of
-- the set and `cancelingTimers_` is empty, is started again all the same: `Cancel` does not fill
-- `cancelingTimers_`.
pub reset_one-cancel :
    (now p : ℕ) (t : Timer) (q : TimerQueue)
    → load p q.heap ≡ some t
    → t.repeat ≡ true
    → q.canceling ≡ []
    → IsFresh (record { key = t.expiration; timer = p }) q.timers
    → (r s : TimerQueue) × (cancel (some p) q ≡ some r)
      × (reset_one now p r ≡ some s)
      × (s.timers ≡ insert_entry (record { key = now + t.interval; timer = p }) q.timers)
reset_one-cancel now p t q there repeats empty fresh =
    let e : Entry = record { key = t.expiration; timer = p } in
    let u = record t { expiration = now + t.interval } in
    let r = record q { timers = erase_entry e q.timers } in
    let again = record r {
      heap = store p u q.heap;
      timers = insert_entry (record { key = now + t.interval; timer = p }) r.timers;
    } in
    (
      r,
      again,
      cancel-loaded p t q there,
      reset_one-repeats now p t r there repeats empty,
      ap (insert_entry (record { key = now + t.interval; timer = p }))
          (erase-IsFresh e q.timers fresh),
    )
