-- ===== src/Net/Http/Places.antt =====
-- Where the searches and the parts of texts of net/http.cc stand.
use jnet.Base.{
  ℕ, zero, suc, ◌+◌, ◌≤◌, ◌<◌, ◌≡◌, refl, ap, ◌∙◌, inl, inr, true, false, Option, none, some, List,
  [], ◌∷◌, ◌++◌, arith, ◌==◌, length, take, drop, Bool-cases,
}
use jnet.Net.Http.{spaces}
use jnet.Net.Http.Text.{starts_with, find, find_at, substr, is_space, at_place, Without}

pub drop-front : (xs ys : List ℕ) → drop (length xs) (xs ++ ys) ≡ ys
drop-front [] ys = refl
drop-front (x ∷ xs) ys = drop-front xs ys

pub take-front : (xs ys : List ℕ) → take (length xs) (xs ++ ys) ≡ xs
take-front [] ys = refl
take-front (x ∷ xs) ys = ap (◌∷◌ x) (take-front xs ys)

pub find-drop :
    (buf pat : List ℕ) (from : ℕ) (rest : List ℕ) (p : Option ℕ)
    → drop from buf ≡ rest
    → find_at pat from rest ≡ p
    → find buf pat from ≡ p
unfolding find
find-drop buf pat from rest p h k = ap (find_at pat from) h ∙ k

pub find-start : (buf pat : List ℕ) (p : Option ℕ) → find_at pat 0 buf ≡ p → find buf pat 0 ≡ p
unfolding find
find-start buf pat p k = k

pub substr-drop :
    (buf : List ℕ) (at n : ℕ) (rest : List ℕ)
    → at ≤ length buf
    → drop at buf ≡ rest
    → substr buf at (some n) ≡ some (take n rest)
unfolding substr
substr-drop buf at n rest le h = ground (arith, h)

pub substr-npos :
    (buf : List ℕ) (at : ℕ) → at ≤ length buf → substr buf at none ≡ some (drop at buf)
unfolding substr
substr-npos buf at le = ground arith

pub Without-append : (c : ℕ) (xs ys : List ℕ) → Without c xs → Without c ys → Without c (xs ++ ys)
Without-append c [] ys w v = v
Without-append c (x ∷ xs) ys w v = (w.0, Without-append c xs ys w.1 v)

-- What a search for one byte that is no space returns.
pub record Found (h i p : ℕ) (xs : List ℕ) : Type 0 where
  pub steps : ℕ
  pub place : p ≡ i + steps
  pub byte : at_place xs steps ≡ some h
  pub front : spaces xs ≤ steps
  pub inside : steps < length xs

find_at-here :
    (h i x p : ℕ) (xs : List ℕ)
    → (h == x) ≡ true
    → find_at (h ∷ []) i (x ∷ xs) ≡ some p
    → (x ≡ h) × (p ≡ i)
unfolding find_at starts_with
find_at-here h i x p xs same found = (ground arith, ground arith)

find_at-later :
    (h i x p : ℕ) (xs : List ℕ)
    → (h == x) ≡ false
    → find_at (h ∷ []) i (x ∷ xs) ≡ some p
    → find_at (h ∷ []) (i + 1) xs ≡ some p
unfolding find_at starts_with
find_at-later h i x p xs other found = ground arith

pub find_at-Found :
    (h i p : ℕ) (xs : List ℕ) → is_space h ≡ false → find_at (h ∷ []) i xs ≡ some p → Found h i p xs
unfolding at_place
find_at-Found h i p [] s found = absurd (unfold find_at in cc)
find_at-Found h i p (x ∷ xs) s found = elim (Bool-cases (h == x)) [
  | inl same ↦
      let (eq, place) = find_at-here h i x p xs same found in
      record {
        steps = 0;
        place = ground arith;
        byte = ap some eq;
        front = ground (arith, ap is_space eq);
        inside = ground arith;
      }
  | inr other ↦
      let f = find_at-Found h (i + 1) p xs s (find_at-later h i x p xs other found) in
      record {
        steps = suc f.steps;
        place = ground (arith, f.place);
        byte = f.byte;
        front = ground (arith, f.front);
        inside = ground (arith, f.inside);
      }
]

pub at_place-drop :
    (n k : ℕ) (xs : List ℕ) → n ≤ length xs → at_place (drop n xs) k ≡ at_place xs (n + k)
unfolding at_place
at_place-drop zero k xs le = ap (at_place xs) (omega arith)
at_place-drop (suc n) k [] le = absurd (ground arith)
at_place-drop (suc n) k (x ∷ xs) le = at_place-drop n k xs (ground arith) ∙ ground arith

pub drop-behind : (xs ys : List ℕ) (c : ℕ) → drop (length xs + 1) (xs ++ c ∷ ys) ≡ ys
drop-behind [] ys c = refl
drop-behind (x ∷ xs) ys c = ground (arith, drop-behind xs ys c)
