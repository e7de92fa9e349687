-- ===== src/Net/Http/Args.antt =====
-- The arguments of a request, `DecodeArgs` of net/http.cc, against their grammar.
use jnet.Base.{
  ℕ, zero, suc, ◌+◌, ◌≤◌, ◌<◌, ◌≡◌, refl, sym, ap, ap₂, ◌∙◌, ◌⊎◌, inl, inr, Bool, true, false, some,
  List, [], ◌∷◌, ◌++◌, arith, ◌==◌, if◌then◌else◌, length, take, drop, Bool-cases,
}
use jnet.Base.Assoc.{bytes_key, eq_bytes, put}
use jnet.Net.Http.{Dict, until, skip, ends_key, ends_value, put_arg, args_loop, decode_args}
use jnet.Net.Http.Text.{find, find_at, find_at-first, Without}

-- The text cut at each `&`.
abbrev pub push : ℕ → List (List ℕ) → List (List ℕ)
push c [] = (c ∷ []) ∷ []
push c (p ∷ ps) = (c ∷ p) ∷ ps

pub split_amp : List ℕ → List (List ℕ)
split_amp [] = [] ∷ []
split_amp (c ∷ cs) = if c == 38 then [] ∷ split_amp cs else push c (split_amp cs)

abbrev pub is_equals : ℕ → Bool
is_equals c = c == 61

-- The name in front of the first `=` of a piece, and what is behind it.
abbrev pub name_of : List ℕ → List ℕ
name_of piece = (until is_equals piece).0

abbrev pub value_of : List ℕ → List ℕ
value_of piece = skip 61 (until is_equals piece).1

-- A piece overwrites an earlier one of its name, unless it has none.
abbrev pub put_piece : List ℕ → Dict → Dict
put_piece p args = if eq_bytes (name_of p) [] then args else put (name_of p) (value_of p) args

-- The pieces that have a name, each overwriting an earlier one of its name.
pub put_pieces : List (List ℕ) → Dict → Dict
put_pieces [] args = args
put_pieces (p ∷ ps) args = put_pieces ps (put_piece p args)

abbrev pieces_behind : List ℕ → List (List ℕ)
pieces_behind [] = []
pieces_behind (c ∷ cs) = split_amp cs

abbrev piece : List ℕ → List ℕ
piece qs = (until ends_value qs).0

abbrev behind : List ℕ → List ℕ
behind qs = (until ends_value qs).1

until-stops :
    (ends : ℕ → Bool) (c : ℕ) (cs : List ℕ) → ends c ≡ true → until ends (c ∷ cs) ≡ ([], c ∷ cs)
unfolding until
until-stops ends c cs h = rw h refl

until-goes :
    (ends : ℕ → Bool) (c : ℕ) (cs : List ℕ)
    → ends c ≡ false
    → until ends (c ∷ cs) ≡ (c ∷ (until ends cs).0, (until ends cs).1)
unfolding until
until-goes ends c cs h = rw h refl

split_amp-until : (qs : List ℕ) → split_amp qs ≡ piece qs ∷ pieces_behind (behind qs)
unfolding split_amp
split_amp-until [] = unfold until in refl
split_amp-until (c ∷ cs) = elim (Bool-cases (ends_value c)) [
  | inl amp ↦ ground (arith, until-stops ends_value c cs amp)
  | inr other ↦ ground (arith, until-goes ends_value c cs other, split_amp-until cs)
]

-- The scans of one round stay inside the piece.
round-key : (qs : List ℕ) → (until ends_key qs).0 ≡ name_of (piece qs)
unfolding until
round-key [] = refl
round-key (c ∷ cs) = ground (arith, round-key cs)

round-value :
    (qs : List ℕ) → (until ends_value (skip 61 (until ends_key qs).1)).0 ≡ value_of (piece qs)
unfolding until
round-value [] = refl
round-value (c ∷ cs) = ground (arith, round-value cs)

round-rest : (qs : List ℕ) → (until ends_value (skip 61 (until ends_key qs).1)).1 ≡ behind qs
unfolding until
round-rest [] = refl
round-rest (c ∷ cs) = ground (arith, round-rest cs)

-- What is behind a piece is nothing, or starts with `&`.
behind-cases : (qs : List ℕ) → (behind qs ≡ []) ⊎ ((cs : List ℕ) × (behind qs ≡ 38 ∷ cs))
behind-cases [] = inl (unfold until in refl)
behind-cases (c ∷ cs) = elim (Bool-cases (ends_value c)) [
  | inl amp ↦ inr (cs, ground (arith, until-stops ends_value c cs amp))
  | inr other ↦ ground (arith, until-goes ends_value c cs other, behind-cases cs)
]

length-behind : (qs : List ℕ) → length (piece qs) + length (behind qs) ≡ length qs
unfolding until
length-behind [] = refl
length-behind (c ∷ cs) = ground (arith, length-behind cs)

-- A round on a text with a byte takes at least one.
round-shorter : (c : ℕ) (cs : List ℕ) → length (skip 38 (behind (c ∷ cs))) < length (c ∷ cs)
unfolding until
round-shorter c cs = ground (arith, length-behind cs)

put_arg-put_piece :
    (name value : List ℕ) (args : Dict)
    → put_arg name value args ≡ (if eq_bytes name [] then args else put name value args)
unfolding eq_bytes
put_arg-put_piece [] value args = refl
put_arg-put_piece (k ∷ name) value args = refl

args_loop-arg :
    (fuel c : ℕ) (cs : List ℕ) (args : Dict)
    → args_loop (suc fuel) (c ∷ cs) args
      ≡ args_loop fuel
          (skip 38 (behind (c ∷ cs)))
          (put_arg (name_of (piece (c ∷ cs))) (value_of (piece (c ∷ cs))) args)
unfolding args_loop
args_loop-arg fuel c cs args = cc (round-key (c ∷ cs), round-value (c ∷ cs), round-rest (c ∷ cs))

args_loop-round :
    (fuel c : ℕ) (cs : List ℕ) (args : Dict)
    → args_loop (suc fuel) (c ∷ cs) args
      ≡ args_loop fuel (skip 38 (behind (c ∷ cs))) (put_piece (piece (c ∷ cs)) args)
args_loop-round fuel c cs args =
    args_loop-arg fuel c cs args
    ∙ ap (args_loop fuel (skip 38 (behind (c ∷ cs))))
        (put_arg-put_piece (name_of (piece (c ∷ cs))) (value_of (piece (c ∷ cs))) args)

args_loop-nil : (fuel : ℕ) (args : Dict) → args_loop fuel [] args ≡ args
unfolding args_loop
args_loop-nil zero args = refl
args_loop-nil (suc fuel) args = refl

put_pieces-nil : (args : Dict) → put_pieces (split_amp []) args ≡ args
unfolding put_pieces split_amp until eq_bytes
put_pieces-nil args = refl

put_pieces-cons :
    (qs : List ℕ) (args : Dict)
    → put_pieces (split_amp qs) args
      ≡ put_pieces (pieces_behind (behind qs)) (put_piece (piece qs) args)
unfolding put_pieces
put_pieces-cons qs args = rw (split_amp-until qs) refl

-- The loop, with fuel for its rounds, puts the named pieces of the text, in order.
args_loop-put_pieces :
    (fuel : ℕ) (qs : List ℕ) (args : Dict)
    → length qs ≤ fuel
    → args_loop fuel qs args ≡ put_pieces (split_amp qs) args
args_loop-put_pieces fuel [] args h = args_loop-nil fuel args ∙ sym (put_pieces-nil args)
args_loop-put_pieces zero (c ∷ cs) args h = absurd (omega arith)
args_loop-put_pieces (suc fuel) (c ∷ cs) args h =
    let qs = c ∷ cs in
    let args' = put_piece (piece qs) args in
    args_loop-round fuel c cs args
    ∙ (elim (behind-cases qs) [
      | inl ended ↦
          ap (λ r. args_loop fuel (skip 38 r) args') ended
          ∙ args_loop-nil fuel args'
          ∙ sym (ap (λ r. put_pieces (pieces_behind r) args') ended ∙ unfold put_pieces in refl)
      | inr (rest, more) ↦
          ap (λ r. args_loop fuel (skip 38 r) args') more
          ∙ args_loop-put_pieces fuel rest args'
              (omega (arith, round-shorter c cs, ap (λ r. length (skip 38 r)) more))
          ∙ sym (ap (λ r. put_pieces (pieces_behind r) args') more)
    ])
    ∙ sym (put_pieces-cons qs args)

decode_args-found :
    (query : List ℕ) (i : ℕ) (args : Dict)
    → find_at (63 ∷ []) 0 query ≡ some i
    → decode_args query args
      ≡ (take i query, args_loop (length (drop (i + 1) query)) (drop (i + 1) query) args)
unfolding decode_args find
decode_args-found query i args found = ground (arith, found)

take-path : (path rest : List ℕ) → take (length path) (path ++ rest) ≡ path
take-path [] rest = refl
take-path (c ∷ path) rest = ap (◌∷◌ c) (take-path path rest)

drop-path : (path rest : List ℕ) (c : ℕ) → drop (length path + 1) (path ++ c ∷ rest) ≡ rest
drop-path [] rest c = refl
drop-path (x ∷ path) rest c = ground (arith, drop-path path rest c)

-- A query whose path has no question mark: the address is the path, and the arguments are those of
-- the pieces of the rest between `&`s. The name of a piece is what is in front of its first `=`, or
-- all of it when it has none; a piece without a `=` has the empty value, a piece with the empty name
-- is no argument, and each argument overwrites an earlier one of its name.
pub decode_args-put_pieces :
    (path rest : List ℕ) (args : Dict)
    → Without 63 path
    → decode_args (path ++ 63 ∷ rest) args ≡ (path, put_pieces (split_amp rest) args)
decode_args-put_pieces path rest args w =
    decode_args-found (path ++ 63 ∷ rest) (length path) args
      (find_at-first 63 [] 0 path rest w ∙ ap some (omega arith))
    ∙ ap₂ (λ a b. (a, b)) (take-path path (63 ∷ rest))
        (ap (λ qs. args_loop (length qs) qs args) (drop-path path rest 63)
          ∙ args_loop-put_pieces (length rest) rest args (omega arith))
