-- ===== src/Net/TimerQueue/Expiry.antt =====
-- The timers that have expired, `GetExpired` of net/timerqueue.cc.
use jnet.Base.{ℕ, ◌≤◌, ◌<◌, ◌≡◌, refl, ap, List, [], ◌∷◌, ◌++◌, arith, dec_le}
use jnet.Net.TimerQueue.{TimerQueue, Entry, split_at, get_expired, max_addr}
use jnet.Net.TimerQueue.Order.{AllAfter, IsSorted, Before-before}

-- Every time is at most `now`, or every time is later.
abbrev pub AllDue : ℕ → List Entry → Type 0
AllDue now [] = Unit {0}
AllDue now (x ∷ xs) = (x.key ≤ now) × AllDue now xs

abbrev pub AllLater : ℕ → List Entry → Type 0
AllLater now [] = Unit {0}
AllLater now (x ∷ xs) = (now < x.key) × AllLater now xs

-- No timer has the largest address.
abbrev pub AllAllocated : List Entry → Type 0
AllAllocated [] = Unit {0}
AllAllocated (x ∷ xs) = (x.timer < max_addr) × AllAllocated xs

after-AllLater :
    (now : ℕ) (x : Entry) (xs : List Entry) → now < x.key → AllAfter x xs → AllLater now xs
after-AllLater now x [] h s = tt
after-AllLater now x (y ∷ ys) h (s, ss) = (omega arith, after-AllLater now x ys h ss)

abbrev sentry : ℕ → Entry
sentry now = record { key = now; timer = max_addr }

split_at_lem :
    (now : ℕ) (xs : List Entry)
    → IsSorted xs
    → AllAllocated xs
    → ((split_at (sentry now) xs).0 ++ (split_at (sentry now) xs).1 ≡ xs)
      × AllDue now (split_at (sentry now) xs).0
      × AllLater now (split_at (sentry now) xs).1
      × IsSorted (split_at (sentry now) xs).1
unfolding split_at
split_at_lem now [] s a = (refl, tt, tt, tt)
split_at_lem now (x ∷ xs) (after, s) (a, low) = elim (dec_le x.key now) [
  | yes due ↦
      let (whole, early, late, sorted) = split_at_lem now xs s low in
      rw (Before-before x (sentry now) (omega arith)).0
        (ap (λ r. x ∷ r) whole, (due, early), late, sorted)
  | no later ↦
      rw (Before-before (sentry now) x (omega arith)).1
        (refl, tt, (omega arith, after-AllLater now x xs (omega arith) after), (after, s))
]

-- `GetExpired` at a time, on a sorted set of timers none of which has the largest address: it takes
-- out exactly the entries whose time is at most `now`, in order, and the set keeps exactly the later
-- ones.
pub get_expired_lem :
    (now : ℕ) (q : TimerQueue)
    → IsSorted q.timers
    → AllAllocated q.timers
    → ((get_expired now q).1 ++ (get_expired now q).0.timers ≡ q.timers)
      × AllDue now (get_expired now q).1
      × AllLater now (get_expired now q).0.timers
      × IsSorted (get_expired now q).0.timers
unfolding get_expired
get_expired_lem now q s a = split_at_lem now q.timers s a
