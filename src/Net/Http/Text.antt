-- ===== src/Net/Http/Text.antt =====
-- The operations of `std::string` and of the C library that net/http.cc uses, on bytes.
use Prim.Native.Char.{code}
use Prim.Native.String.{String}
use jnet.Base.{
  ℕ, zero, suc, ◌+◌, ◌-◌, ◌*◌, ◌/◌, ◌%◌, ◌≤◌, ◌≡◌, refl, ◌≢◌, Bool, true, false, ◌&&◌, ◌||◌, Option,
  none, some, List, [], ◌∷◌, ◌++◌, arith, ltb, leb, ◌==◌, if◌then◌else◌, length, take, drop,
}
use jnet.Base.Int.{ℤ, pos, ◌-ℤ◌}

-- A text literal of the source as its bytes.
abbrev pub bytes_of : String → List ℕ
bytes_of String.[] = []
bytes_of (String.◌∷◌ c s) = code c ∷ bytes_of s

abbrev pub space : ℕ
space = 32

abbrev pub crlf : List ℕ
crlf = 13 ∷ 10 ∷ []

abbrev pub two_crlf : List ℕ
two_crlf = 13 ∷ 10 ∷ 13 ∷ 10 ∷ []

unfoldable pub starts_with : List ℕ → List ℕ → Bool
starts_with [] xs = true
starts_with (p ∷ ps) [] = false
starts_with (p ∷ ps) (x ∷ xs) = p == x && starts_with ps xs

-- The place of the first occurrence, where the text starts at place `i`.
unfoldable pub find_at : List ℕ → ℕ → List ℕ → Option ℕ
find_at pat i [] = none
find_at pat i (x ∷ xs) =
    let rest = find_at pat (i + 1) xs in if starts_with pat (x ∷ xs) then some i else rest

-- `buf.find(pat, from)`; `npos` is none, and -1 as an `int`.
unfoldable pub find : List ℕ → List ℕ → ℕ → Option ℕ
find buf pat from = find_at pat from (drop from buf)

-- `i + 1` for the `int` of a search.
abbrev pub next : Option ℕ → ℕ
next none = 0
next (some i) = i + 1

-- `a - b` as a `size_t` count, for two `int`s that are given one too high: a negative difference is
-- more than any length, so it is none.
abbrev pub count : ℕ → ℕ → Option ℕ
count a b = if leb b a then some (a - b) else none

-- `buf.substr(pos, n)`; `none` is the exception for a place behind the end.
unfoldable pub substr : List ℕ → ℕ → Option ℕ → Option (List ℕ)
substr buf at n =
    if leb at (length buf)
    then some (elim n [ none ↦ drop at buf | some k ↦ take k (drop at buf) ])
    else none

unfoldable pub is_space : ℕ → Bool
is_space c = c == 32 || leb 9 c && leb c 13

-- `buf[i]`: the byte behind the last one is 0, and none is a read outside the string.
unfoldable pub at_place : List ℕ → ℕ → Option ℕ
at_place [] zero = some 0
at_place [] (suc i) = none
at_place (x ∷ xs) zero = some x
at_place (x ∷ xs) (suc i) = at_place xs i

abbrev pub is_digit : ℕ → Bool
is_digit c = leb 48 c && leb c 57

unfoldable pub digits_from : ℕ → List ℕ → ℕ
digits_from acc [] = acc
digits_from acc (c ∷ cs) =
    let more = digits_from (acc * 10 + (c - 48)) cs in if is_digit c then more else acc

abbrev pub signed : List ℕ → ℤ
signed [] = pos 0
signed (c ∷ cs) =
    if c == 45
    then pos 0 -ℤ pos (digits_from 0 cs)
    else if c == 43
    then pos (digits_from 0 cs)
    else pos (digits_from 0 (c ∷ cs))

-- `atoi`, for values inside `int`.
unfoldable pub atoi : List ℕ → ℤ
unfolding is_space digits_from
atoi [] = pos 0
atoi (c ∷ cs) = let rest = atoi cs in if is_space c then rest else signed (c ∷ cs)

-- `c_str()` read as a C string: up to the first zero byte.
unfoldable pub c_str : List ℕ → List ℕ
c_str [] = []
c_str (c ∷ cs) = if c == 0 then [] else c ∷ c_str cs

-- What `snprintf` leaves in an array of `size` bytes.
abbrev pub printed : ℕ → List ℕ → List ℕ
printed size text = take (size - 1) text

-- `%lu`, with as much fuel as there can be digits of a `size_t`.
unfoldable pub decimal : ℕ → ℕ → List ℕ
decimal zero n = []
decimal (suc fuel) n =
    let front = decimal fuel (n / 10) in
    if ltb n 10 then (n + 48) ∷ [] else front ++ ((n % 10 + 48) ∷ [])

-- `c` is not among the bytes.
abbrev pub Without : ℕ → List ℕ → Type 0
Without c [] = Unit {0}
Without c (x ∷ xs) = (c ≢ x) × Without c xs

starts_with-append : (ps xs : List ℕ) → starts_with ps (ps ++ xs) ≡ true
unfolding starts_with
starts_with-append [] xs = refl
starts_with-append (p ∷ ps) xs = ground (arith, starts_with-append ps xs)

-- The first place of a pattern behind bytes that its first byte is not among.
pub find_at-first :
    (h : ℕ) (t : List ℕ) (i : ℕ) (xs ys : List ℕ)
    → Without h xs
    → find_at (h ∷ t) i (xs ++ ((h ∷ t) ++ ys)) ≡ some (i + length xs)
unfolding find_at starts_with
find_at-first h t i [] ys w = ground (arith, starts_with-append t ys)
find_at-first h t i (x ∷ xs) ys w = ground (arith, find_at-first h t (i + 1) xs ys w.1)

pub find_at-none :
    (h : ℕ) (t : List ℕ) (i : ℕ) (xs : List ℕ) → Without h xs → find_at (h ∷ t) i xs ≡ none
unfolding find_at starts_with
find_at-none h t i [] w = refl
find_at-none h t i (x ∷ xs) w = ground (arith, find_at-none h t (i + 1) xs w.1)

-- A place that a search returns is not before its start.
pub find_at-le : (pat : List ℕ) (i p : ℕ) (xs : List ℕ) → find_at pat i xs ≡ some p → i ≤ p
unfolding find_at
find_at-le pat i p [] h = cc
find_at-le pat i p (x ∷ xs) h = ground (arith, find_at-le pat (i + 1) p xs)
