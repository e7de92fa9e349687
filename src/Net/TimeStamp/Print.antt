-- ===== src/Net/TimeStamp/Print.antt =====
-- What is printed of a time in net/timestamp.cc, and what the seconds of a time are.
use jnet.Base.{
  ℕ, suc, ◌+◌, ◌*◌, ◌/◌, ◌%◌, ◌<◌, ◌≤◌, ◌≡◌, sym, ap, ◌∙◌, false, List, [], ◌∷◌, ◌++◌, arith, ltb,
  ◌==◌, if◌then◌else◌, length, take, length-append, append_assoc, take-append,
}
use jnet.Net.Http.Text.{decimal}
use jnet.Net.TimeStamp.{from_unix_time, seconds_since_epoch, earlier, same, to_string, without_zero}

-- A time of seconds and microseconds: its seconds are the given ones, and two times compare by their
-- seconds first and their microseconds then.
pub seconds_since_epoch-from_unix_time :
    (s u t v : ℕ)
    → u < 1000000
    → v < 1000000
    → (seconds_since_epoch (from_unix_time s u) ≡ s)
      × (earlier (from_unix_time s u) (from_unix_time t v) ≡ (if s == t then ltb u v else ltb s t))
      × (same (from_unix_time s u) (from_unix_time t v) ≡ (if s == t then u == v else false))
unfolding from_unix_time seconds_since_epoch earlier same
seconds_since_epoch-from_unix_time s u t v su sv = (omega arith, ground arith, ground arith)

decimal-more :
    (fuel n : ℕ) → 10 ≤ n → decimal (suc fuel) n ≡ decimal fuel (n / 10) ++ ((n % 10 + 48) ∷ [])
unfolding decimal
decimal-more fuel n big = ground arith

decimal-one : (fuel n : ℕ) → n < 10 → decimal (suc fuel) n ≡ (n + 48) ∷ []
unfolding decimal
decimal-one fuel n small = ground arith

length-more :
    (fuel k n : ℕ)
    → 10 ≤ n
    → length (decimal fuel (n / 10)) ≡ k
    → length (decimal (suc fuel) n) ≡ suc k
length-more fuel k n big h =
    ap length (decimal-more fuel n big)
    ∙ omega (arith, h, length-append (decimal fuel (n / 10)) ((n % 10 + 48) ∷ []))

length-seven : (m : ℕ) → 1000000 ≤ m → m < 10000000 → length (decimal 17 m) ≡ 7
length-seven m low high =
    let one = ap length (decimal-one 10 (m / 10 / 10 / 10 / 10 / 10 / 10) (omega arith)) in
    length-more 16 6 m (omega arith) (
      length-more 15 5 (m / 10) (omega arith) (
        length-more 14 4 (m / 10 / 10) (omega arith) (
          length-more 13 3 (m / 10 / 10 / 10) (omega arith) (
            length-more 12 2 (m / 10 / 10 / 10 / 10) (omega arith)
              (length-more 11 1 (m / 10 / 10 / 10 / 10 / 10) (omega arith) one)))))

-- The last three digits of a number behind the others.
decimal-thousands :
    (s : ℕ) → 1000 ≤ s → (rest : List ℕ) × (decimal 20 s ≡ decimal 17 (s / 1000) ++ rest)
decimal-thousands s big =
    let a = decimal-more 19 s (omega arith) in
    let b = decimal-more 18 (s / 10) (omega arith) in
    let c = decimal-more 17 (s / 10 / 10) (omega arith) in
    let front = decimal 17 (s / 1000) in
    let x = (s / 10 / 10 % 10 + 48) ∷ [] in
    let y = (s / 10 % 10 + 48) ∷ [] in
    let z = (s % 10 + 48) ∷ [] in
    let d : decimal 17 (s / 10 / 10 / 10) ≡ front = ap (λ n. decimal 17 n) (omega arith) in
    (
      x ++ (y ++ z),
      a
          ∙ ap (λ t. t ++ z) (b ∙ ap (λ t. t ++ y) (c ∙ ap (λ t. t ++ x) d))
          ∙ append_assoc (front ++ x) y z
          ∙ append_assoc front x (y ++ z),
    )

-- A time between the years 2001 and 2286: `ToString` prints the first seven of the ten digits of its
-- seconds and nothing else; so all the times of the same thousand seconds have the same text.
pub to_string-from_unix_time :
    (s u : ℕ)
    → 1000000000 ≤ s
    → s < 10000000000
    → u < 1000000
    → to_string (from_unix_time s u) ≡ decimal 17 (s / 1000)
unfolding to_string from_unix_time
to_string-from_unix_time s u low high small =
    let t = s * 1000000 + u in
    let (rest, split) = decimal-thousands s (omega arith) in
    let tail = rest ++ without_zero (t % 1000000) in
    ap (λ n. take 7 (decimal 20 n ++ without_zero (t % 1000000))) {x = t / 1000000} {y = s}
      (omega arith)
    ∙ ap (λ d. take 7 (d ++ without_zero (t % 1000000))) split
    ∙ ap (λ d. take 7 d) (append_assoc (decimal 17 (s / 1000)) rest (without_zero (t % 1000000)))
    ∙ ap (λ n. take n (decimal 17 (s / 1000) ++ tail))
        (sym (length-seven (s / 1000) (omega arith) (omega arith)))
    ∙ take-append (decimal 17 (s / 1000)) tail
