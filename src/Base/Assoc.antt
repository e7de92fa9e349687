-- ===== src/Base/Assoc.antt =====
-- Dictionaries as association lists, over any keys with a Boolean equality.
use Prim.Native.Nat.{ℕ}
use mathlib.Core.Path.{◌≡◌, refl}
use mathlib.Core.Logic.{◌↔◌}
use mathlib.Core.Bool.{Bool, true, false, ◌&&◌}
use mathlib.Core.Option.{Option, none, some}
use mathlib.Core.List.{List, [], ◌∷◌}
use native.Mathlib.Omega.{arith}
use jnet.Base.Tests.{◌==◌, ==_iff, if◌then◌else◌}

-- The keys of a `std::map` or a `std::set`.
pub record Key {ℓ} (K : Type ℓ) : Type ℓ where
  pub eqb : K → K → Bool
  pub eqb_iff : (a b : K) → (eqb a b ≡ true) ↔ (a ≡ b)

instance abbrev pub nat_key : Key ℕ
nat_key = record { eqb = ◌==◌; eqb_iff = ==_iff }

unfoldable pub eq_bytes : List ℕ → List ℕ → Bool
eq_bytes [] [] = true
eq_bytes [] (y ∷ ys) = false
eq_bytes (x ∷ xs) [] = false
eq_bytes (x ∷ xs) (y ∷ ys) = x == y && eq_bytes xs ys

pub eq_bytes_iff : (xs ys : List ℕ) → (eq_bytes xs ys ≡ true) ↔ (xs ≡ ys)
unfolding eq_bytes
eq_bytes_iff [] [] = (λ h. refl, λ h. refl)
eq_bytes_iff [] (y ∷ ys) = (λ h. cc, λ h. cc)
eq_bytes_iff (x ∷ xs) [] = (λ h. cc, λ h. cc)
eq_bytes_iff (x ∷ xs) (y ∷ ys) = ground (arith, eq_bytes_iff xs ys)

instance abbrev pub bytes_key : Key (List ℕ)
bytes_key = record { eqb = eq_bytes; eqb_iff = eq_bytes_iff }

module _ {ℓ κ} {K : Type ℓ} {V : Type κ} ⦃k : Key K⦄ where
  unfoldable pub lookup : K → List (K × V) → Option V
  lookup a [] = none
  lookup a ((b, v) ∷ m) = if k.eqb b a then some v else lookup a m

  -- `m[a] = v`.
  unfoldable pub put : K → V → List (K × V) → List (K × V)
  put a v [] = (a, v) ∷ []
  put a v ((b, w) ∷ m) = if k.eqb b a then (a, v) ∷ m else (b, w) ∷ put a v m

  -- `m.erase(a)`.
  unfoldable pub erase : K → List (K × V) → List (K × V)
  erase a [] = []
  erase a ((b, w) ∷ m) = if k.eqb b a then erase a m else (b, w) ∷ erase a m

  pub lookup-put :
      (a b : K) (v : V) (m : List (K × V))
      → lookup b (put a v m) ≡ (if k.eqb a b then some v else lookup b m)
  unfolding lookup put
  lookup-put a b v [] = refl
  lookup-put a b v ((c, w) ∷ m) =
      ground (arith, k.eqb_iff a b, k.eqb_iff c a, k.eqb_iff c b, lookup-put a b v m)

  pub lookup-erase :
      (a b : K) (m : List (K × V)) → lookup b (erase a m) ≡ (if k.eqb a b then none else lookup b m)
  unfolding lookup erase
  lookup-erase a b [] = ground arith
  lookup-erase a b ((c, w) ∷ m) =
      ground (arith, k.eqb_iff a b, k.eqb_iff c a, k.eqb_iff c b, lookup-erase a b m)
