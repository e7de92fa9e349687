-- ===== src/Base/Lists.antt =====
-- Lists measured and indexed by native numbers, under the library's names.
use Prim.Native.Nat.{ℕ, zero, suc, ◌+◌, ◌-◌, ◌<◌, ◌≤◌, min}
use mathlib.Core.Path.{◌≡◌, refl, sym, ap, ◌∙◌}
use mathlib.Core.Logic.{◌≢◌, ◌⊎◌, inl, inr}
use mathlib.Core.List.{List, [], ◌∷◌, ◌++◌, map}
use mathlib.Core.Option.{Option, none, some}
use native.Mathlib.Omega.{arith}

module _ {ℓ} {A : Type ℓ} where
  abbrev pub length : List A → ℕ
  length [] = 0
  length (x ∷ xs) = suc (length xs)

  abbrev pub get_elem? : List A → ℕ → Option A
  get_elem? [] i = none
  get_elem? (x ∷ xs) zero = some x
  get_elem? (x ∷ xs) (suc i) = get_elem? xs i

  -- A write out of bounds changes nothing.
  abbrev pub set : List A → ℕ → A → List A
  set [] i v = []
  set (x ∷ xs) zero v = v ∷ xs
  set (x ∷ xs) (suc i) v = x ∷ set xs i v

  pub length-append : (xs ys : List A) → length (xs ++ ys) ≡ length xs + length ys
  length-append [] ys = omega arith
  length-append (x ∷ xs) ys = omega (arith, length-append xs ys)

module _ {ℓ} {A : Type ℓ} where
  pub length-set : (xs : List A) (i : ℕ) (v : A) → length (set xs i v) ≡ length xs
  length-set [] i v = refl
  length-set (x ∷ xs) zero v = refl
  length-set (x ∷ xs) (suc i) v = ap suc (length-set xs i v)

  pub get_elem?-set_self :
      (xs : List A) (i : ℕ) (v : A) → i < length xs → get_elem? (set xs i v) i ≡ some v
  get_elem?-set_self [] i v h = elim h [ ]
  get_elem?-set_self (x ∷ xs) zero v h = refl
  get_elem?-set_self (x ∷ xs) (suc i) v h = get_elem?-set_self xs i v (omega arith)

  pub get_elem?-set_ne :
      (xs : List A) {i j : ℕ} (v : A) → i ≢ j → get_elem? (set xs i v) j ≡ get_elem? xs j
  get_elem?-set_ne [] v h = refl
  get_elem?-set_ne (x ∷ xs) {i = zero} {j = zero} v h = absurd (h refl)
  get_elem?-set_ne (x ∷ xs) {i = zero} {j = suc j} v h = refl
  get_elem?-set_ne (x ∷ xs) {i = suc i} {j = zero} v h = refl
  get_elem?-set_ne (x ∷ xs) {i = suc i} {j = suc j} v h = get_elem?-set_ne xs v (λ e. h (ap suc e))

module _ {ℓ} {A : Type ℓ} where
  abbrev pub get_or : List A → ℕ → A → A
  get_or [] i d = d
  get_or (x ∷ xs) zero d = x
  get_or (x ∷ xs) (suc i) d = get_or xs i d

  abbrev pub take : ℕ → List A → List A
  take zero xs = []
  take (suc n) [] = []
  take (suc n) (x ∷ xs) = x ∷ take n xs

  abbrev pub drop : ℕ → List A → List A
  drop zero xs = xs
  drop (suc n) [] = []
  drop (suc n) (x ∷ xs) = drop n xs

  abbrev pub replicate : ℕ → A → List A
  replicate zero a = []
  replicate (suc n) a = a ∷ replicate n a

  pub take-append-drop : (n : ℕ) (xs : List A) → take n xs ++ drop n xs ≡ xs
  take-append-drop zero xs = refl
  take-append-drop (suc n) [] = refl
  take-append-drop (suc n) (x ∷ xs) = rw (take-append-drop n xs)

  pub length-take : (n : ℕ) (xs : List A) → length (take n xs) ≡ min n (length xs)
  length-take zero xs = omega arith
  length-take (suc n) [] = omega arith
  length-take (suc n) (x ∷ xs) = omega (arith, length-take n xs)

  pub length-drop : (n : ℕ) (xs : List A) → length (drop n xs) ≡ length xs - n
  length-drop zero xs = omega arith
  length-drop (suc n) [] = omega arith
  length-drop (suc n) (x ∷ xs) = omega (arith, length-drop n xs)

  pub length-replicate : (n : ℕ) (a : A) → length (replicate n a) ≡ n
  length-replicate zero a = refl
  length-replicate (suc n) a = ap suc (length-replicate n a)

  pub length-map {κ} : {B : Type κ} (xs : List A) (f : A → B) → length (map f xs) ≡ length xs
  length-map [] f = refl
  length-map (x ∷ xs) f = ap suc (length-map xs f)

module _ {ℓ} {A : Type ℓ} where
  -- `n` elements from index `i` on.
  abbrev pub slice : List A → ℕ → ℕ → List A
  slice xs i n = take n (drop i xs)

  -- `memcpy` into an allocation: `none` when it writes past the end.
  abbrev pub poke : List A → ℕ → List A → Option (List A)
  poke xs zero [] = some xs
  poke [] zero (y ∷ ys) = none
  poke (x ∷ xs) zero (y ∷ ys) = elim (poke xs zero ys) [ none ↦ none | some r ↦ some (y ∷ r) ]
  poke [] (suc i) ys = none
  poke (x ∷ xs) (suc i) ys = elim (poke xs i ys) [ none ↦ none | some r ↦ some (x ∷ r) ]

  pub take-all : (xs : List A) → take (length xs) xs ≡ xs
  take-all [] = refl
  take-all (x ∷ xs) = ap (λ r. x ∷ r) (take-all xs)

  pub drop-all : (xs : List A) → drop (length xs) xs ≡ []
  drop-all [] = refl
  drop-all (x ∷ xs) = drop-all xs

  pub take-append : (xs ys : List A) → take (length xs) (xs ++ ys) ≡ xs
  take-append [] ys = refl
  take-append (x ∷ xs) ys = ap (λ r. x ∷ r) (take-append xs ys)

  pub drop-append : (xs ys : List A) → drop (length xs) (xs ++ ys) ≡ ys
  drop-append [] ys = refl
  drop-append (x ∷ xs) ys = drop-append xs ys

  pub drop-nil : (n : ℕ) → drop {A = A} n [] ≡ []
  drop-nil zero = refl
  drop-nil (suc n) = refl

  pub drop-drop : (i j k : ℕ) (xs : List A) → i + j ≡ k → drop j (drop i xs) ≡ drop k xs
  drop-drop zero j k xs e = ap (λ n. drop n xs) (omega arith)
  drop-drop (suc i) j k [] e = drop-nil j ∙ sym (drop-nil k)
  drop-drop (suc i) j zero (x ∷ xs) e = absurd (omega arith)
  drop-drop (suc i) j (suc k) (x ∷ xs) e = drop-drop i j k xs (omega arith)

  -- A write that stays inside the allocation replaces exactly the bytes that it covers.
  pub poke-split :
      (pre mid post ys : List A)
      → length mid ≡ length ys
      → poke (pre ++ (mid ++ post)) (length pre) ys ≡ some (pre ++ (ys ++ post))
  poke-split [] [] post [] h = ground arith
  poke-split [] [] post (y ∷ ys) h = absurd (omega arith)
  poke-split [] (m ∷ mid) post [] h = absurd (omega arith)
  poke-split [] (m ∷ mid) post (y ∷ ys) h = ground (arith, poke-split [] mid post ys (omega arith))
  poke-split (x ∷ pre) mid post ys h = ground (arith, poke-split pre mid post ys h)

  -- A write that leaves the allocation is refused.
  pub poke-overflow :
      (xs : List A) (i : ℕ) (ys : List A) → length xs < i + length ys → poke xs i ys ≡ none
  poke-overflow xs zero [] h = absurd (omega arith)
  poke-overflow [] zero (y ∷ ys) h = refl
  poke-overflow (x ∷ xs) zero (y ∷ ys) h = ground (arith, poke-overflow xs zero ys (omega arith))
  poke-overflow [] (suc i) ys h = refl
  poke-overflow (x ∷ xs) (suc i) ys h = ground (arith, poke-overflow xs i ys (omega arith))

  pub drop-length : (n : ℕ) (xs : List A) → n ≡ length xs → drop n xs ≡ []
  drop-length n xs e = ap (λ k. drop k xs) e ∙ drop-all xs

  pub take-nil : (n : ℕ) → take {A = A} n [] ≡ []
  take-nil zero = refl
  take-nil (suc n) = refl

  pub drop-take : (i n k : ℕ) (xs : List A) → n ≡ i + k → drop i (take n xs) ≡ take k (drop i xs)
  drop-take zero n k xs e = ap (λ j. take j xs) (omega arith)
  drop-take (suc i) zero k xs e = absurd (omega arith)
  drop-take (suc i) (suc n) k [] e = sym (take-nil k)
  drop-take (suc i) (suc n) k (x ∷ xs) e = drop-take i n k xs (omega arith)

  pub take-take : (i n : ℕ) (xs : List A) → i ≤ n → take i (take n xs) ≡ take i xs
  take-take zero n xs h = refl
  take-take (suc i) zero xs h = absurd (omega arith)
  take-take (suc i) (suc n) [] h = refl
  take-take (suc i) (suc n) (x ∷ xs) h = ap (λ r. x ∷ r) (take-take i n xs (omega arith))

  pub get_elem?-none : (xs : List A) (i : ℕ) → length xs ≤ i → get_elem? xs i ≡ none
  get_elem?-none [] i h = refl
  get_elem?-none (x ∷ xs) zero h = absurd (omega arith)
  get_elem?-none (x ∷ xs) (suc i) h = get_elem?-none xs i (omega arith)

  pub get_elem?-middle :
      (xs : List A) (y : A) (zs : List A) → get_elem? (xs ++ y ∷ zs) (length xs) ≡ some y
  get_elem?-middle [] y zs = refl
  get_elem?-middle (x ∷ xs) y zs = get_elem?-middle xs y zs

  pub List-cases : (xs : List A) → (xs ≡ []) ⊎ ((y : A) × (ys : List A) × (xs ≡ y ∷ ys))
  List-cases [] = inl refl
  List-cases (x ∷ xs) = inr (x, xs, refl)

  pub take-short : (n : ℕ) (xs : List A) → length xs ≤ n → take n xs ≡ xs
  take-short n [] h = take-nil n
  take-short zero (x ∷ xs) h = absurd (omega arith)
  take-short (suc n) (x ∷ xs) h = ap (λ r. x ∷ r) (take-short n xs (omega arith))

  pub get_elem?-some : (xs : List A) (i : ℕ) → i < length xs → (x : A) × (get_elem? xs i ≡ some x)
  get_elem?-some [] i h = absurd (omega arith)
  get_elem?-some (x ∷ xs) zero h = (x, refl)
  get_elem?-some (x ∷ xs) (suc i) h = get_elem?-some xs i (omega arith)

  pub get_elem?-lt : (xs : List A) (i : ℕ) {x : A} → get_elem? xs i ≡ some x → i < length xs
  get_elem?-lt [] i h = cc
  get_elem?-lt (x ∷ xs) zero h = omega arith
  get_elem?-lt (x ∷ xs) (suc i) h = omega (arith, get_elem?-lt xs i h)

  pub take-more :
      (n k m : ℕ) (xs : List A) → m ≡ n + k → take m xs ≡ take n xs ++ take k (drop n xs)
  take-more zero k m xs e = ap (λ j. take j xs) e ∙ ap (λ j. take j xs) (omega arith)
  take-more (suc n) k m [] e = take-nil m ∙ sym (take-nil k)
  take-more (suc n) k zero (x ∷ xs) e = absurd (omega arith)
  take-more (suc n) k (suc m) (x ∷ xs) e = ap (λ r. x ∷ r) (take-more n k m xs (omega arith))
