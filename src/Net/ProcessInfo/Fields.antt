-- ===== src/Net/ProcessInfo/Fields.antt =====
-- The fields that net/processinfo.cc reads out of texts.
use jnet.Base.{
  ℕ, zero, suc, ◌+◌, ◌-◌, ◌<◌, ◌≡◌, refl, sym, ap, ◌∙◌, none, some, List, [], ◌∷◌, ◌++◌, arith,
  length, take, drop, take-append, append_assoc, length-append,
}
use jnet.Net.Http.Text.{find, find_at-first, Without}
use jnet.Net.ProcessInfo.{rfind_at, proc_name}

rfind_at-none : (c i : ℕ) (xs : List ℕ) → Without c xs → rfind_at c i xs ≡ none
unfolding rfind_at
rfind_at-none c i [] w = refl
rfind_at-none c i (x ∷ xs) w = ground (arith, w.0, rfind_at-none c (i + 1) xs w.1)

rfind_at-last :
    (c i : ℕ) (xs ys : List ℕ) → Without c ys → rfind_at c i (xs ++ c ∷ ys) ≡ some (i + length xs)
unfolding rfind_at
rfind_at-last c i [] ys w = ground (arith, rfind_at-none c (i + 1) ys w)
rfind_at-last c i (x ∷ xs) ys w = ground (arith, rfind_at-last c (i + 1) xs ys w)

drop-behind : (n x : ℕ) (xs ys : List ℕ) → n ≡ length xs + 1 → drop n (xs ++ x ∷ ys) ≡ ys
drop-behind zero x xs ys h = absurd (omega (arith, h))
drop-behind (suc zero) x [] ys h = refl
drop-behind (suc (suc n)) x [] ys h = absurd (omega (arith, h))
drop-behind (suc n) x (y ∷ xs) ys h = drop-behind n x xs ys (omega (arith, h))

proc_name-cut :
    (text : List ℕ) (lp rp : ℕ)
    → find text (40 ∷ []) 0 ≡ some lp
    → rfind_at 41 0 text ≡ some rp
    → lp < rp
    → proc_name text ≡ take (rp - lp - 1) (drop (lp + 1) text)
unfolding proc_name
proc_name-cut text lp rp first last order = ground (arith, first, last)

find-first :
    (c : ℕ) (front behind : List ℕ)
    → Without c front
    → find (front ++ c ∷ behind) (c ∷ []) 0 ≡ some (length front)
unfolding find
find-first c front behind w = find_at-first c [] 0 front behind w ∙ ap some (omega arith)

-- A text with the name of the program in parentheses, where no parenthesis opens in front of them and
-- none closes behind them: `procName` is the name, also one with parentheses of its own.
pub proc_name_lem :
    (front name behind : List ℕ)
    → Without 40 front
    → Without 41 behind
    → proc_name (front ++ 40 ∷ (name ++ 41 ∷ behind)) ≡ name
proc_name_lem front name behind opens closes =
    let inner = name ++ 41 ∷ behind in
    let text = front ++ 40 ∷ inner in
    let long = length-append front (40 ∷ name) in
    let last : rfind_at 41 0 text ≡ some (length front + 1 + length name) =
      ap (rfind_at 41 0) (sym (append_assoc front (40 ∷ name) (41 ∷ behind)))
      ∙ rfind_at-last 41 0 (front ++ 40 ∷ name) behind closes
      ∙ ap some (omega (arith, long)) in
    proc_name-cut text (length front) (length front + 1 + length name)
      (find-first 40 front inner opens) last (omega arith)
    ∙ ap (λ t. take (length front + 1 + length name - length front - 1) t)
        (drop-behind (length front + 1) 40 front inner refl)
    ∙ ap (λ n. take n inner) (omega arith)
    ∙ take-append name (41 ∷ behind)
