-- ===== src/Net/TimerQueue/Tests.antt =====
-- Three timers of net/timerqueue.cc.
use jnet.Base.{
  ℕ, ◌+◌, ◌*◌, ◌<◌, ◌≡◌, refl, inr, true, false, Option, none, some, List, [], ◌∷◌, ◌++◌, arith,
}
use jnet.Net.TimerQueue.{
  Timer, Cell, TimerQueue, load, get_expired, split_at, insert_entry, add_timer_in_loop, add_timer,
  cancel, reset_one, handle_read, how_much_time_from_now, run_all, reset_all, free, is_canceling,
  rearm,
}
use jnet.Net.TimerQueue.Order.{IsSorted}
use jnet.Net.TimerQueue.Expiry.{AllDue, AllLater, get_expired_lem}
use jnet.Net.TimerQueue.Arming.{IsArmed, add_timer_in_loop-IsArmed, how_much_time_from_now_lem}
use jnet.Net.TimerQueue.Cancel.{cancel-add_timer, reset_one-cancel}

abbrev once : Timer
once = record { expiration = 500; interval = 0; repeat = false; sequence = 0 }

abbrev each : Timer
each = record { expiration = 700; interval = 300; repeat = true; sequence = 1 }

abbrev late : Timer
late = record { expiration = 700; interval = 0; repeat = false; sequence = 2 }

abbrev cells : List Cell
cells =
    record { addr = 16; timer = once }
    ∷ record { addr = 48; timer = each }
    ∷ record { addr = 32; timer = late }
    ∷ []

abbrev three : TimerQueue
three = record {
  timers =
      record { key = 500; timer = 16 }
      ∷ record { key = 700; timer = 32 }
      ∷ record { key = 700; timer = 48 }
      ∷ [];
  canceling = [];
  heap = cells;
  armed = some 500;
  created = 3;
}

abbrev one : TimerQueue
one = record three { timers = record { key = 700; timer = 32 } ∷ []; armed = some 700 }

get_expired_lem_example :
    ((get_expired 600 three).1 ++ (get_expired 600 three).0.timers ≡ three.timers)
    × AllDue 600 (get_expired 600 three).1
    × AllLater 600 (get_expired 600 three).0.timers
    × IsSorted (get_expired 600 three).0.timers
get_expired_lem_example = get_expired_lem 600 three (omega arith) (omega arith)

loaded : load 16 one.heap ≡ some once
unfolding load
loaded = refl

add_timer_in_loop-IsArmed_example :
    (r : TimerQueue) × (add_timer_in_loop 16 one ≡ some r)
    × IsArmed r
    × (r.timers ≡ record { key = 500; timer = 16 } ∷ record { key = 700; timer = 32 } ∷ [])
    × (r.heap ≡ cells)
unfolding insert_entry
add_timer_in_loop-IsArmed_example =
    add_timer_in_loop-IsArmed 16 once one loaded
      (record { sorted = omega arith; in_time = (700, refl, omega arith) })

how_much_time_from_now_lem-test :
    ((how_much_time_from_now 5 2000130).0 * 1000000000 + (how_much_time_from_now 5 2000130).1
      ≡ 2000125000)
    × ((how_much_time_from_now 5 2000130).1 < 1000000000)
how_much_time_from_now_lem-test = how_much_time_from_now_lem 5 2000130

cancel-add_timer-test :
    (r s : TimerQueue) × (add_timer 64 900 0 false one ≡ some (r, 64, 3))
    × (cancel (some 64) r ≡ some s)
    × (s.timers ≡ one.timers)
cancel-add_timer-test =
    cancel-add_timer 64 900 0 false one
      (record { sorted = omega arith; in_time = (700, refl, omega arith) }) (inr (omega arith), tt)

loaded_repeated : load 48 one.heap ≡ some each
unfolding load
loaded_repeated = refl

reset_one-cancel-test :
    (r s : TimerQueue) × (cancel (some 48) one ≡ some r)
    × (reset_one 710 48 r ≡ some s)
    × (s.timers ≡ record { key = 700; timer = 32 } ∷ record { key = 1010; timer = 48 } ∷ [])
unfolding insert_entry
reset_one-cancel-test =
    reset_one-cancel 710 48 each one loaded_repeated refl refl (inr (omega arith), tt)

-- The one-shot timer is deleted when it has run; the handle that is left reads freed memory.
abbrev run_nothing : ℕ → TimerQueue → Option TimerQueue
run_nothing p q = some q

abbrev cancel_after : Option TimerQueue
cancel_after = elim (handle_read run_nothing 600 three) [
  | none ↦ some three
  | some q ↦ cancel (some 16) q
]

cancels_a_freed_timer : cancel_after ≡ none
unfolding cancel handle_read get_expired split_at run_all reset_all reset_one is_canceling free load
    rearm
cancels_a_freed_timer = refl
