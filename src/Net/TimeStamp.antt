-- ===== src/Net/TimeStamp.antt =====
-- net/timestamp.h and net/timestamp.cc: times as microseconds since the epoch, for times behind it
-- that an `int64_t` holds.
pub mod Print
mod Tests
use jnet.Base.{
  ℕ, ◌+◌, ◌*◌, ◌/◌, ◌%◌, Bool, true, false, not, List, [], ◌∷◌, ◌++◌, ◌==◌, ltb, take,
  if◌then◌else◌,
}
use jnet.Net.Http.Text.{decimal, printed}

abbrev pub micro_seconds_per_second : ℕ
micro_seconds_per_second = 1000 * 1000

pub record TimeStamp : Type 0 where
  pub micro_seconds_since_epoch : ℕ

-- `FromUnixTime(t, microSeconds)`.
unfoldable pub from_unix_time : ℕ → ℕ → TimeStamp
from_unix_time t micro_seconds = record {
  micro_seconds_since_epoch = t * micro_seconds_per_second + micro_seconds;
}

-- `SecondsSinceEpoch()`.
unfoldable pub seconds_since_epoch : TimeStamp → ℕ
seconds_since_epoch t = t.micro_seconds_since_epoch / micro_seconds_per_second

-- `Valid()`.
unfoldable pub valid : TimeStamp → Bool
valid t = not (t.micro_seconds_since_epoch == 0)

-- `operator<` and `operator==`.
unfoldable pub earlier : TimeStamp → TimeStamp → Bool
earlier a b = ltb a.micro_seconds_since_epoch b.micro_seconds_since_epoch

unfoldable pub same : TimeStamp → TimeStamp → Bool
same a b = a.micro_seconds_since_epoch == b.micro_seconds_since_epoch

-- `%.0ld`, which prints nothing for 0.
abbrev pub without_zero : ℕ → List ℕ
without_zero n = if n == 0 then [] else decimal 20 n

-- `ToString()`: the size that `snprintf` is given is that of a pointer.
unfoldable pub to_string : TimeStamp → List ℕ
to_string t = printed 8 (
    decimal 20 (t.micro_seconds_since_epoch / micro_seconds_per_second)
    ++ without_zero (t.micro_seconds_since_epoch % micro_seconds_per_second))
