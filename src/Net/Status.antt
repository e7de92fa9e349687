-- ===== src/Net/Status.antt =====
-- net/status.h and net/status.cc: a status is a null pointer or an allocation that holds its size,
-- its code, and its message. Words are those of a little-endian machine; a read outside the
-- allocation is none.
pub mod Packing
mod Tests
use jnet.Base.{
  ℕ, zero, suc, ◌+◌, ◌-◌, ◌*◌, ◌/◌, ◌%◌, ◌^◌, ◌≤◌, ◌<◌, ◌≡◌, Bool, true, false, Option, none, some,
  List, [], ◌∷◌, ◌++◌, leb, ◌==◌, if◌then◌else◌, length, take, drop,
}

abbrev pub le32 : ℕ → List ℕ
le32 w = w % 256 ∷ w / 2 ^ 8 % 256 ∷ w / 2 ^ 16 % 256 ∷ w / 2 ^ 24 % 256 ∷ []

-- A word at the front of some bytes.
abbrev pub word_at : List ℕ → Option ℕ
word_at (a ∷ b ∷ c ∷ d ∷ rest) = some (a + b * 2 ^ 8 + c * 2 ^ 16 + d * 2 ^ 24)
word_at other = none

-- `state_`, where none is the null pointer. A code is the bytes of its `int`.
abbrev pub Status : Type 0
Status = Option (List ℕ)

-- `Status(code, msg)`, for a message without a zero byte.
unfoldable pub of_message : ℕ → List ℕ → Status
of_message code msg = some (le32 ((length msg + 8) % 2 ^ 32) ++ (le32 code ++ msg))

-- `FromFormat(code, fmt, ...)`, with the text that `vsnprintf` prints.
unfoldable pub from_format : ℕ → List ℕ → Status
from_format code text =
    some (le32 ((8 + length text + 1) % 2 ^ 32) ++ (le32 code ++ (text ++ (0 ∷ []))))

-- `Code()`.
unfoldable pub code : Status → Option ℕ
code none = some 0
code (some state) = word_at (drop 4 state)

-- `Ok()`.
unfoldable pub ok : Status → Option Bool
unfolding code
ok s = elim (code s) [ none ↦ none | some c ↦ some (c == 0) ]

-- A C string up to its zero byte.
unfoldable pub string_at : List ℕ → Option (List ℕ)
string_at [] = none
string_at (c ∷ cs) =
    let rest = string_at cs in
    if c == 0 then some [] else elim rest [ none ↦ none | some text ↦ some (c ∷ text) ]

-- The text that `Msg()` points to.
unfoldable pub msg : Status → Option (List ℕ)
unfolding string_at
msg none = some []
msg (some state) = string_at (drop 8 state)

-- A copy of as many bytes as a word says.
abbrev pub copied : List ℕ → Option ℕ → Option Status
copied state none = none
copied state (some size) = if leb size (length state) then some (some (take size state)) else none

-- `Clone()`.
unfoldable pub clone : Status → Option Status
clone none = some none
clone (some state) = copied state (word_at state)
