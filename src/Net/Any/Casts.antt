-- ===== src/Net/Any/Casts.antt =====
-- What a cast of net/any.h finds behind constructions, copies, moves and assignments.
use jnet.Base.{ℕ, ◌≡◌, ◌≢◌, true, false, arith}
use jnet.Net.Any.{
  Any, empty, of_value, clone, copy, move, assign, is_null, is, any_cast, bad_cast, null_pointer,
  refers,
}

-- A value that is put into an object and reaches another one by a copy, a move, or an assignment over
-- anything: a cast to its own type refers to the value, and a cast to another type throws. The object
-- that was moved from is null, and a cast to the type that it had follows a null pointer.
pub any_cast-of_value :
    (type other value : ℕ) (old : Any)
    → other ≢ type
    → (any_cast type (copy (of_value type value)) ≡ refers value)
      × (any_cast type (move (of_value type value)).0 ≡ refers value)
      × (any_cast type (assign false old (of_value type value)) ≡ refers value)
      × (any_cast other (copy (of_value type value)) ≡ bad_cast)
      × (any_cast other (assign false old (of_value type value)) ≡ bad_cast)
      × (is_null (move (of_value type value)).1 ≡ true)
      × (any_cast type (move (of_value type value)).1 ≡ null_pointer)
unfolding any_cast is of_value copy clone move assign is_null
any_cast-of_value type other value old different = ground (arith, different)

-- An empty object that is assigned to one that was moved from leaves it as it is: the object goes on
-- to claim the type that it had.
pub assign-moved :
    (type value : ℕ)
    → let left = (move (of_value type value)).1 in
      (assign false left empty ≡ left) × (is type (assign false left empty) ≡ true)
unfolding of_value move assign empty is
assign-moved type value = ground arith
