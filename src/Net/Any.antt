-- ===== src/Net/Any.antt =====
-- net/any.h: a value of any type. A type is its number, 0 for void, and a value of it a number too;
-- the value stands in an allocation of its own, so two pointers are equal only in the same object or
-- where both are null.
pub mod Casts
mod Tests
use jnet.Base.{ℕ, Bool, true, false, Option, none, some, ◌==◌, if◌then◌else◌}

-- `Derived<T>`, with its type and its value.
pub record Derived : Type 0 where
  pub type : ℕ
  pub value : ℕ

pub record Any : Type 0 where
  pub ptr : Option Derived
  pub tp_index : ℕ

-- `Any()`.
unfoldable pub empty : Any
empty = record { ptr = none; tp_index = 0 }

-- `Any(value)`.
unfoldable pub of_value : ℕ → ℕ → Any
of_value type value = record { ptr = some (record { type = type; value = value }); tp_index = type }

-- `Clone()`.
unfoldable pub clone : Any → Option Derived
clone a = elim a.ptr [ none ↦ none | some d ↦ some (record { type = d.type; value = d.value }) ]

-- `Any(const Any& that)`.
unfoldable pub copy : Any → Any
unfolding clone
copy a = record { ptr = clone a; tp_index = a.tp_index }

-- `Any(Any&& that)`: the new object, and what is left of the old one.
unfoldable pub move : Any → Any × Any
move a = (record { ptr = a.ptr; tp_index = a.tp_index }, record a { ptr = none })

unfoldable pub is_null : Any → Bool
is_null a = elim a.ptr [ none ↦ true | some d ↦ false ]

-- `Is<U>()`.
unfoldable pub is : ℕ → Any → Bool
is type a = a.tp_index == type

-- What `AnyCast` does: it throws, follows a null pointer, or refers to a value.
pub data Cast : Type 0 where
  bad_cast null_pointer : Cast
  refers : ℕ → Cast

-- `dynamic_cast<Derived<U>*>`, and the value behind it.
abbrev pub derived : ℕ → Option Derived → Cast
derived type none = null_pointer
derived type (some d) = if d.type == type then refers d.value else null_pointer

-- `AnyCast<U>()`.
unfoldable pub any_cast : ℕ → Any → Cast
unfolding is
any_cast type a = if is type a then derived type a.ptr else bad_cast

abbrev same_pointer : Bool → Option Derived → Option Derived → Bool
same_pointer self none none = true
same_pointer self p q = self

-- `operator=(a)`; `self` says whether both are the same object.
unfoldable pub assign : Bool → Any → Any → Any
unfolding clone
assign self this a =
    if same_pointer self this.ptr a.ptr
    then this
    else record { ptr = clone a; tp_index = a.tp_index }
