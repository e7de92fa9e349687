-- ===== src/Net/TimerQueue.antt =====
-- net/timer.h, net/timer.cc, net/timerqueue.h and net/timerqueue.cc: the timers of a loop. A time is
-- its microseconds. A timer lives on a heap, where a read of an address that was freed is `none`; the
-- addresses that `new` returns and the callbacks are arguments.
pub mod Order
pub mod Expiry
pub mod Arming
pub mod Cancel
mod Tests
use jnet.Base.{
  ℕ, ◌+◌, ◌-◌, ◌*◌, ◌/◌, ◌%◌, Bool, true, false, not, ◌&&◌, ◌||◌, Option, none, some, List, [], ◌∷◌,
  ◌++◌, ltb, leb, ◌==◌, if◌then◌else◌,
}

-- `interval` is the delta that `AddTime` makes of the interval's seconds.
pub record Timer : Type 0 where
  pub expiration : ℕ
  pub interval : ℕ
  pub repeat : Bool
  pub sequence : ℕ

-- `Restart(now)`.
unfoldable pub restart : ℕ → Timer → Timer
restart now t =
    if t.repeat then record t { expiration = now + t.interval } else record t { expiration = 0 }

-- An entry of `timers_`, a pair of a time and an address, in the order of pairs.
pub record Entry : Type 0 where
  pub key : ℕ
  pub timer : ℕ

abbrev pub before : Entry → Entry → Bool
before a b = ltb a.key b.key || (a.key == b.key && ltb a.timer b.timer)

pub record Cell : Type 0 where
  pub addr : ℕ
  pub timer : Timer

-- `armed` is the time that `timerfd_` was last set to.
pub record TimerQueue : Type 0 where
  pub timers : List Entry
  pub canceling : List Entry
  pub heap : List Cell
  pub armed : Option ℕ
  pub created : ℕ

-- `insert` and `erase` of the set.
unfoldable pub insert_entry : Entry → List Entry → List Entry
insert_entry e [] = e ∷ []
insert_entry e (x ∷ xs) =
    let rest = insert_entry e xs in
    if before e x then e ∷ x ∷ xs else if before x e then x ∷ rest else x ∷ xs

unfoldable pub erase_entry : Entry → List Entry → List Entry
erase_entry e [] = []
erase_entry e (x ∷ xs) =
    let rest = erase_entry e xs in
    if before e x then x ∷ xs else if before x e then x ∷ rest else xs

unfoldable pub load : ℕ → List Cell → Option Timer
load p [] = none
load p (c ∷ cs) = let rest = load p cs in if c.addr == p then some c.timer else rest

unfoldable pub store : ℕ → Timer → List Cell → List Cell
store p t [] = []
store p t (c ∷ cs) =
    let rest = store p t cs in if c.addr == p then record c { timer = t } ∷ cs else c ∷ rest

unfoldable pub free : ℕ → List Cell → List Cell
free p [] = []
free p (c ∷ cs) = let rest = free p cs in if c.addr == p then cs else c ∷ rest

-- `HowMuchTimeFromNow(when)`: the seconds and the nanoseconds. A time that has passed is less than
-- 100 from now.
unfoldable pub how_much_time_from_now : ℕ → ℕ → ℕ × ℕ
how_much_time_from_now now when =
    let microseconds = when - now in
    let delay = if ltb microseconds 100 then 100 else microseconds in
    (delay / 1000000, delay % 1000000 * 1000)

abbrev pub reset_timerfd : ℕ → TimerQueue → TimerQueue
reset_timerfd when q = record q { armed = some when }

-- Whether a new expiration is the earliest.
abbrev pub is_earliest : ℕ → List Entry → Bool
is_earliest expiration [] = true
is_earliest expiration (x ∷ xs) = ltb expiration x.key

-- `Insert(timer)`.
unfoldable pub insert : ℕ → TimerQueue → Option (TimerQueue × Bool)
insert p q = elim (load p q.heap) [
  | none ↦ none
  | some t ↦ some (
    record q { timers = insert_entry (record { key = t.expiration; timer = p }) q.timers },
    is_earliest t.expiration q.timers,
  )
]

-- `AddTimerInLoop(timer)`.
unfoldable pub add_timer_in_loop : ℕ → TimerQueue → Option TimerQueue
add_timer_in_loop p q = elim (insert p q) [
  | none ↦ none
  | some (r, need_reset) ↦ elim (load p q.heap) [
    | none ↦ none
    | some t ↦ some (if need_reset then reset_timerfd t.expiration r else r)
  ]
]

-- `AddTimer(cb, expiration, interval)` on the loop's thread; `p` is what `new` returns. The timer's
-- identity is its address and its sequence number.
unfoldable pub add_timer : ℕ → ℕ → ℕ → Bool → TimerQueue → Option (TimerQueue × ℕ × ℕ)
add_timer p expiration interval repeat q =
    let t : Timer = record {
      expiration = expiration;
      interval = interval;
      repeat = repeat;
      sequence = q.created;
    } in
    let r = record q { heap = record { addr = p; timer = t } ∷ q.heap; created = q.created + 1 } in
    elim (add_timer_in_loop p r) [ none ↦ none | some s ↦ some (s, p, t.sequence) ]

-- `CancelTimerIdInLoop(timerid)`; no address is a null pointer. The timer is not deleted.
unfoldable pub cancel : Option ℕ → TimerQueue → Option TimerQueue
cancel none q = some q
cancel (some p) q = elim (load p q.heap) [
  | none ↦ none
  | some t ↦
      some (record q { timers = erase_entry (record { key = t.expiration; timer = p }) q.timers })
]

-- `lower_bound` of the set: the entries before the sentry, and those from it on.
unfoldable pub split_at : Entry → List Entry → List Entry × List Entry
split_at e [] = ([], [])
split_at e (x ∷ xs) =
    let (early, late) = split_at e xs in if before x e then (x ∷ early, late) else ([], x ∷ xs)

-- The largest address, which no timer has.
abbrev pub max_addr : ℕ
max_addr = 18446744073709551615

-- `GetExpired(now)`.
unfoldable pub get_expired : ℕ → TimerQueue → TimerQueue × List Entry
get_expired now q =
    let (expired, rest) = split_at (record { key = now; timer = max_addr }) q.timers in
    (record q { timers = rest }, expired)

-- Whether `cancelingTimers_` has a timer with this sequence number (`key`) and address.
unfoldable pub is_canceling : Entry → List Entry → Bool
is_canceling e [] = false
is_canceling e (x ∷ xs) = x.key == e.key && x.timer == e.timer || is_canceling e xs

-- One round of `Reset`: a repeated timer is started again, any other is deleted.
unfoldable pub reset_one : ℕ → ℕ → TimerQueue → Option TimerQueue
reset_one now p q = elim (load p q.heap) [
  | none ↦ none
  | some t ↦
      if t.repeat && not (is_canceling (record { key = t.sequence; timer = p }) q.canceling)
      then elim (insert p (record q { heap = store p (restart now t) q.heap })) [
        | none ↦ none
        | some (r, _) ↦ some r
      ]
      else some (record q { heap = free p q.heap })
]

unfoldable pub reset_all : ℕ → List Entry → TimerQueue → Option TimerQueue
reset_all now [] q = some q
reset_all now (e ∷ es) q = elim (reset_one now e.timer q) [
  | none ↦ none
  | some r ↦ reset_all now es r
]

-- The end of `Reset`: the descriptor is set to the earliest time, if that is valid.
unfoldable pub rearm : TimerQueue → Option TimerQueue
rearm q = elim q.timers [
  | [] ↦ some q
  | x ∷ xs ↦ elim (load x.timer q.heap) [
    | none ↦ none
    | some t ↦ some (if t.expiration == 0 then q else reset_timerfd t.expiration q)
  ]
]

unfoldable pub run_all :
    (ℕ → TimerQueue → Option TimerQueue) → List Entry → TimerQueue → Option TimerQueue
run_all run [] q = some q
run_all run (e ∷ es) q = elim (run e.timer q) [ none ↦ none | some r ↦ run_all run es r ]

-- `HandleRead` at the time `now`; `run` is what the callback of the timer at an address does.
unfoldable pub handle_read :
    (ℕ → TimerQueue → Option TimerQueue) → ℕ → TimerQueue → Option TimerQueue
handle_read run now q =
    let (q1, expired) = get_expired now q in
    elim (run_all run expired (record q1 { canceling = [] })) [
      | none ↦ none
      | some q2 ↦ elim (reset_all now expired q2) [ none ↦ none | some q3 ↦ rearm q3 ]
    ]
