-- ===== src/Net/Http/Digits.antt =====
-- Numbers as the digits that `printf` writes and `strtol` reads.
use jnet.Base.{
  ℕ, zero, suc, ◌+◌, ◌-◌, ◌*◌, ◌/◌, ◌%◌, ◌^◌, ◌<◌, ◌≤◌, ◌≡◌, refl, Bool, true, false, List, [], ◌∷◌,
  ◌++◌, arith, length, ltb, length-append, if◌then◌else◌,
}
use jnet.Base.Int.{pos}
use jnet.Net.Http.Text.{is_digit, is_space, digits_from, atoi, decimal}

abbrev pub AllDigits : List ℕ → Type 0
AllDigits [] = Unit {0}
AllDigits (c ∷ cs) = (is_digit c ≡ true) × AllDigits cs

AllDigits-append : (xs ys : List ℕ) → AllDigits xs → AllDigits ys → AllDigits (xs ++ ys)
AllDigits-append [] ys a b = b
AllDigits-append (x ∷ xs) ys (d, a) b = (d, AllDigits-append xs ys a b)

AllDigits-if :
    (b : Bool) (xs ys : List ℕ)
    → (b ≡ true → AllDigits xs)
    → AllDigits ys
    → AllDigits (if b then xs else ys)
AllDigits-if true xs ys a h = a refl
AllDigits-if false xs ys a h = h

pub decimal-AllDigits : (fuel n : ℕ) → AllDigits (decimal fuel n)
unfolding decimal
decimal-AllDigits zero n = tt
decimal-AllDigits (suc fuel) n =
    AllDigits-if (ltb n 10) ((n + 48) ∷ []) (decimal fuel (n / 10) ++ ((n % 10 + 48) ∷ []))
      (λ small. (ground arith, tt))
      (AllDigits-append (decimal fuel (n / 10)) ((n % 10 + 48) ∷ [])
        (decimal-AllDigits fuel (n / 10)) (ground arith, tt))

pub digits_from-append :
    (acc : ℕ) (xs ys : List ℕ)
    → AllDigits xs
    → digits_from acc (xs ++ ys) ≡ digits_from (digits_from acc xs) ys
unfolding digits_from
digits_from-append acc [] ys digits = refl
digits_from-append acc (x ∷ xs) ys (d, digits) =
    ground (arith, d, digits_from-append (acc * 10 + (x - 48)) xs ys digits)

pub digits_from-decimal : (fuel n : ℕ) → n < 10 ^ fuel → digits_from 0 (decimal fuel n) ≡ n
unfolding decimal digits_from
digits_from-decimal zero n small = omega arith
digits_from-decimal (suc fuel) n small =
    let front = digits_from-decimal fuel (n / 10) (omega arith) in
    ground (
      arith,
      front,
      digits_from-append 0 (decimal fuel (n / 10)) ((n % 10 + 48) ∷ [])
          (decimal-AllDigits fuel (n / 10)),
    )

pub length-decimal : (fuel n : ℕ) → length (decimal fuel n) ≤ fuel
unfolding decimal
length-decimal zero n = omega arith
length-decimal (suc fuel) n = ground (
  arith,
  length-decimal fuel (n / 10),
  length-append (decimal fuel (n / 10)) ((n % 10 + 48) ∷ []),
)

pub atoi-digits : (xs : List ℕ) → AllDigits xs → atoi xs ≡ pos (digits_from 0 xs)
unfolding atoi is_space digits_from
atoi-digits [] digits = refl
atoi-digits (x ∷ xs) (d, digits) = ground (arith, d)
