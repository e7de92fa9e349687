-- ===== src/Buffer/Growth.antt =====
-- A series of `Append` calls, as the encoders make them (net/buffer.h, net/buffer.cc).
use mathlib.Core.List.{flatten}
use jnet.Base.{
  ℕ, ◌+◌, ◌*◌, ◌^◌, max, ◌≤◌, ◌≡◌, refl, sym, ap, ◌∙◌, Option, none, some, List, [], ◌∷◌, ◌++◌,
  append-nil, append_assoc, arith, dec_le, length, length-append,
}
use jnet.Buffer.{Buffer, contents, append}
use jnet.Buffer.Layout.{IsValid, length-contents}
use jnet.Buffer.Contents.{append-fits, append-grows}

unfoldable pub append_all : Buffer → List (List ℕ) → Option Buffer
append_all s [] = some s
append_all s (p ∷ ps) = elim (append s p) [ none ↦ none | some t ↦ append_all t ps ]

-- Nothing was consumed yet, and the allocation is at most the suggested size or twice the contents.
pub record IsFresh (s : Buffer) : Type 0 where
  pub valid : IsValid s
  pub front : s.b ≡ 0
  pub amortised : s.cap ≤ max s.exp (2 * s.e)

append-IsFresh :
    (s : Buffer) (p : List ℕ)
    → IsFresh s
    → s.exp ≤ 2 ^ 61
    → s.e + length p ≤ 2 ^ 60
    → (u : Buffer) × (append s p ≡ some u)
      × (contents u ≡ contents s ++ p)
      × IsFresh u
      × (u.exp ≡ s.exp)
      × (u.e ≡ s.e + length p)
append-IsFresh s p f sug total = elim (dec_le (s.e + length p) s.cap) [
  | yes fits ↦
      let (u, done, bytes, valid, exp, b, cap) = append-fits s p f.valid (omega arith) fits in
      let e = end u bytes valid (omega (arith, b, f.front)) in
      (
        u,
        done,
        bytes,
        record {
          valid = valid;
          front = omega (arith, b, f.front);
          amortised = omega (arith, cap, exp, f, e);
        },
        exp,
        e,
      )
  | no over ↦
      let (u, done, bytes, valid, exp, b, cap) =
        append-grows s p f.valid (omega (arith, f)) (omega arith) (omega arith)
          (omega (arith, f.valid, f.front)) in
      let e = end u bytes valid b in
      (
        u,
        done,
        bytes,
        record { valid = valid; front = b; amortised = omega (arith, cap, exp, f, e) },
        exp,
        e,
      )
]
  where
    end : (u : Buffer) → contents u ≡ contents s ++ p → IsValid u → u.b ≡ 0 → u.e ≡ s.e + length p
    end u bytes valid b = omega (
      arith,
      ap length bytes,
      length-append (contents s) p,
      length-contents s f.valid,
      length-contents u valid,
      valid,
      f.front,
      b,
    )

-- A series of `Append` calls on a buffer of which nothing was consumed always succeeds, as long as
-- the bytes number at most 2 ^ 60: the contents are those before, followed by the pieces in order,
-- and the allocation stays within the suggested size or twice the contents.
pub append_all_lem :
    (s : Buffer) (ps : List (List ℕ))
    → IsFresh s
    → s.exp ≤ 2 ^ 61
    → s.e + length (flatten ps) ≤ 2 ^ 60
    → (u : Buffer) × (append_all s ps ≡ some u)
      × (contents u ≡ contents s ++ flatten ps)
      × IsFresh u
      × (u.exp ≡ s.exp)
unfolding append_all flatten
append_all_lem s [] f sug total = (s, refl, sym (append-nil (contents s)), f, refl)
append_all_lem s (p ∷ ps) f sug total =
    let (t, done, bytes, fresh, exp, e) =
      append-IsFresh s p f sug (omega (arith, length-append p (flatten ps))) in
    let (u, all, all_bytes, all_fresh, all_exp) =
      append_all_lem t ps fresh (omega (arith, exp))
        (omega (arith, e, length-append p (flatten ps))) in
    (
      u,
      ground (arith, done, all),
      all_bytes ∙ ap (λ c. c ++ flatten ps) bytes ∙ append_assoc (contents s) p (flatten ps),
      all_fresh,
      all_exp ∙ exp,
    )
