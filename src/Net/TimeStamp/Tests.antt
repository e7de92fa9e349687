-- ===== src/Net/TimeStamp/Tests.antt =====
-- Times of net/timestamp.cc.
use jnet.Base.{◌/◌, ◌≡◌, refl, false, arith, ltb, ◌==◌, if◌then◌else◌}
use jnet.Net.Http.Text.{bytes_of, decimal}
use jnet.Net.TimeStamp.{from_unix_time, seconds_since_epoch, earlier, same, to_string}
use jnet.Net.TimeStamp.Print.{seconds_since_epoch-from_unix_time, to_string-from_unix_time}

seconds_since_epoch-from_unix_time-test :
    (seconds_since_epoch (from_unix_time 5 7) ≡ 5)
    × (earlier (from_unix_time 5 7) (from_unix_time 5 9) ≡ (if 5 == 5 then ltb 7 9 else ltb 5 5))
    × (same (from_unix_time 5 7) (from_unix_time 5 9) ≡ (if 5 == 5 then 7 == 9 else false))
seconds_since_epoch-from_unix_time-test =
    seconds_since_epoch-from_unix_time 5 7 5 9 (omega arith) (omega arith)

to_string-from_unix_time_example :
    to_string (from_unix_time 1234567890 42) ≡ decimal 17 (1234567890 / 1000)
to_string-from_unix_time_example =
    to_string-from_unix_time 1234567890 42 (omega arith) (omega arith) (omega arith)

seven-digits : to_string (from_unix_time 1234567890 42) ≡ bytes_of "1234567"
unfolding to_string from_unix_time decimal
seven-digits = refl
