-- ===== src/Net/Logger/Line.antt =====
-- The line that `Logger::Write` of net/log.cc makes of a message, and the levels.
use jnet.Base.{
  List-cases, ℕ, zero, suc, ◌+◌, ◌-◌, ◌<◌, ◌≤◌, ◌≡◌, ◌≢◌, inl, inr, refl, sym, subst, ℕ_discrete,
  ap, ◌∙◌, List, [], ◌∷◌, ◌++◌, arith, length, take, append_assoc, length-append, length-take,
}
use jnet.Net.Logger.{trim, line}

-- Bytes whose last one is no newline.
abbrev pub EndsInLine : List ℕ → Type 0
EndsInLine [] = Unit {0}
EndsInLine (c ∷ []) = c ≢ 10
EndsInLine (c ∷ d ∷ cs) = EndsInLine (d ∷ cs)

abbrev pub AllNewlines : List ℕ → Type 0
AllNewlines [] = Unit {0}
AllNewlines (c ∷ cs) = (c ≡ 10) × AllNewlines cs

EndsInLine-cons : (c y : ℕ) (ys zs : List ℕ) → zs ≡ y ∷ ys → EndsInLine zs → EndsInLine (c ∷ zs)
EndsInLine-cons c y ys [] e h = cc
EndsInLine-cons c y ys (z ∷ zs) e h = h

trim-more : (c y : ℕ) (ys cs : List ℕ) → trim cs ≡ y ∷ ys → trim (c ∷ cs) ≡ c ∷ trim cs
unfolding trim
trim-more c y ys cs more = ground (arith, more)

trim-newline : (c : ℕ) (cs : List ℕ) → trim cs ≡ [] → c ≡ 10 → trim (c ∷ cs) ≡ []
unfolding trim
trim-newline c cs empty newline = ground (arith, empty, newline)

trim-last : (c : ℕ) (cs : List ℕ) → trim cs ≡ [] → c ≢ 10 → trim (c ∷ cs) ≡ c ∷ []
unfolding trim
trim-last c cs empty other = ground (arith, empty, other)

trim_lem :
    (xs : List ℕ) → (nl : List ℕ) × (xs ≡ trim xs ++ nl) × AllNewlines nl × EndsInLine (trim xs)
trim_lem [] = ([], unfold trim in refl, tt, unfold trim in tt)
trim_lem (c ∷ cs) =
    let (nl, split, all, ends) = trim_lem cs in
    elim (List-cases (trim cs)) [
      | inl empty ↦ elim (ℕ_discrete c 10) [
        | yes newline ↦
            let eq = trim-newline c cs empty newline in
            (c ∷ nl, cc (split, empty, eq), (newline, all), subst EndsInLine (sym eq) tt)
        | no other ↦
            let eq = trim-last c cs empty other in
            (nl, cc (split, empty, eq), all, subst EndsInLine (sym eq) other)
      ]
      | inr (y, ys, more) ↦
          let eq = trim-more c y ys cs more in
          (
            nl,
            ap (λ t. c ∷ t) split ∙ ap (λ t. t ++ nl) (sym eq),
            all,
            subst EndsInLine (sym eq) (EndsInLine-cons c y ys (trim cs) more ends),
          )
    ]

trim-space : (xs : List ℕ) → trim (32 ∷ xs) ≡ 32 ∷ trim xs
unfolding trim
trim-space xs = ground arith

trim-append : (s xs : List ℕ) → trim (s ++ 32 ∷ xs) ≡ s ++ 32 ∷ trim xs
unfolding trim
trim-append [] xs = trim-space xs
trim-append (c ∷ []) xs = ground (arith, trim-space xs)
trim-append (c ∷ d ∷ s) xs = ground (arith, trim-append (d ∷ s) xs)

take-behind :
    (n k : ℕ) (s xs : List ℕ) → n ≡ length s + 1 + k → take n (s ++ 32 ∷ xs) ≡ s ++ 32 ∷ take k xs
take-behind zero k s xs h = absurd (omega (arith, h))
take-behind (suc n) k [] xs h = ap (λ j. 32 ∷ take j xs) (omega (arith, h))
take-behind (suc n) k (c ∷ s) xs h = ap (λ t. c ∷ t) (take-behind n k s xs (omega (arith, h)))

trim-take :
    (n k : ℕ) (s xs : List ℕ)
    → n ≡ length s + 1 + k
    → trim (take n (s ++ 32 ∷ xs)) ++ 10 ∷ [] ≡ s ++ 32 ∷ (trim (take k xs) ++ 10 ∷ [])
trim-take n k s xs h =
    ap (λ t. trim t ++ 10 ∷ []) (take-behind n k s xs h)
    ∙ ap (λ t. t ++ 10 ∷ []) (trim-append s (take k xs))
    ∙ append_assoc s (32 ∷ trim (take k xs)) (10 ∷ [])

length-line :
    (s kept text nl : List ℕ) (k : ℕ)
    → kept ≡ text ++ nl
    → length kept ≤ k
    → length (s ++ 32 ∷ (text ++ 10 ∷ [])) ≤ length s + k + 2
length-line s kept text nl k split small = omega (
  arith,
  length-append s (32 ∷ (text ++ 10 ∷ [])),
  length-append text (10 ∷ []),
  length-append text nl,
  ap length split,
)

line-text :
    (stamp message : List ℕ)
    → length stamp < 4094
    → line stamp message ≡ stamp ++ 32 ∷ (trim (take (4093 - length stamp) message) ++ 10 ∷ [])
unfolding line
line-text stamp message room = trim-take 4094 (4093 - length stamp) stamp message (omega arith)

-- A message that is written: the line is the time, a space, a text and one newline. The text is what
-- the message has room for, without the newlines at its end; so the line has no blank line behind it,
-- and at most 4095 bytes.
pub line_lem :
    (stamp message : List ℕ)
    → length stamp < 4094
    → (text : List ℕ) × (nl : List ℕ) × (line stamp message ≡ stamp ++ 32 ∷ (text ++ 10 ∷ []))
      × (take (4093 - length stamp) message ≡ text ++ nl)
      × AllNewlines nl
      × EndsInLine text
      × (length (line stamp message) ≤ 4095)
line_lem stamp message room =
    let kept = take (4093 - length stamp) message in
    let (nl, split, all, ends) = trim_lem kept in
    let whole = line-text stamp message room in
    (
      trim kept,
      nl,
      whole,
      split,
      all,
      ends,
      subst (λ t. length t ≤ 4095) (sym whole)
          (omega (
            arith,
            length-line stamp kept (trim kept) nl (4093 - length stamp) split
                (omega (arith, length-take (4093 - length stamp) message)),
          )),
    )
