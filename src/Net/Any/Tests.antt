-- ===== src/Net/Any/Tests.antt =====
-- Values in the objects of net/any.h.
use jnet.Base.{◌≡◌, true, false, arith}
use jnet.Net.Any.{
  empty, of_value, copy, move, assign, is_null, any_cast, bad_cast, null_pointer, refers,
}
use jnet.Net.Any.Casts.{any_cast-of_value}

any_cast-of_value-test :
    (any_cast 3 (copy (of_value 3 9)) ≡ refers 9)
    × (any_cast 3 (move (of_value 3 9)).0 ≡ refers 9)
    × (any_cast 3 (assign false empty (of_value 3 9)) ≡ refers 9)
    × (any_cast 4 (copy (of_value 3 9)) ≡ bad_cast)
    × (any_cast 4 (assign false empty (of_value 3 9)) ≡ bad_cast)
    × (is_null (move (of_value 3 9)).1 ≡ true)
    × (any_cast 3 (move (of_value 3 9)).1 ≡ null_pointer)
any_cast-of_value-test = any_cast-of_value 3 4 9 empty (omega arith)
