-- ===== src/Net/EventLoopPool.antt =====
-- net/eventloop_pool.h and net/eventloop_pool.cc: the loops of a server and their turns. A failed
-- assertion is `none`; the loops that the threads start are an argument.
mod Tests
use jnet.Base.{
  ℕ, zero, suc, ◌+◌, ◌<◌, ◌≡◌, refl, sym, ap, ap₂, ◌∙◌, Bool, true, false, not, Option, none, some,
  List, [], ◌∷◌, ◌++◌, arith, leb, if◌then◌else◌, length, get_elem?, get_elem?-middle, take,
  append_assoc, append-nil, length-append,
}

pub record EventLoopPool : Type 0 where
  pub base_loop : ℕ
  pub num_threads : ℕ
  pub started : Bool
  pub next : ℕ
  pub loops : List ℕ

unfoldable pub new : ℕ → EventLoopPool
new base_loop = record {
  base_loop = base_loop;
  num_threads = 0;
  started = false;
  next = 0;
  loops = [];
}

unfoldable pub set_thread_num : ℕ → EventLoopPool → EventLoopPool
set_thread_num num p = record p { num_threads = num }

-- `Start()`; `start_loop i` is what `StartLoop` returns in the round `i`.
abbrev start_loops : (ℕ → ℕ) → ℕ → ℕ → List ℕ
start_loops start_loop i zero = []
start_loops start_loop i (suc n) = start_loop i ∷ start_loops start_loop (i + 1) n

unfoldable pub start : (ℕ → ℕ) → EventLoopPool → Option EventLoopPool
start start_loop p =
    if p.started
    then none
    else some
        (record p { started = true; loops = p.loops ++ start_loops start_loop 0 p.num_threads })

-- `GetNextLoop()`.
unfoldable pub get_next_loop : EventLoopPool → Option (ℕ × EventLoopPool)
get_next_loop p = if not p.started then none else elim p.loops [
  | [] ↦ some (p.base_loop, p)
  | x ∷ xs ↦ elim (get_elem? p.loops p.next) [
    | none ↦ none
    | some loop ↦
        some (loop, record p { next = if leb (length p.loops) (p.next + 1) then 0 else p.next + 1 })
  ]
]

-- `GetAllLoops()`.
unfoldable pub get_all_loops : EventLoopPool → Option (List ℕ)
get_all_loops p =
    if not p.started
    then none
    else elim p.loops [ [] ↦ some (p.base_loop ∷ []) | x ∷ xs ↦ some p.loops ]

-- Some calls of `GetNextLoop`, as for some connections.
unfoldable pub next_loops : ℕ → EventLoopPool → Option (List ℕ × EventLoopPool)
next_loops zero p = some ([], p)
next_loops (suc n) p = elim (get_next_loop p) [
  | none ↦ none
  | some (loop, q) ↦ elim (next_loops n q) [ none ↦ none | some (rest, r) ↦ some (loop ∷ rest, r) ]
]

not_empty :
    (pre : List ℕ) (x : ℕ) (rest : List ℕ) → (y : ℕ) × (ys : List ℕ) × (pre ++ (x ∷ rest) ≡ y ∷ ys)
not_empty [] x rest = (x, rest, refl)
not_empty (y ∷ ys) x rest = (y, ys ++ (x ∷ rest), refl)

-- The turn after the one of `x`.
abbrev turn_after : List ℕ → List ℕ → ℕ
turn_after pre [] = 0
turn_after pre (y ∷ ys) = length pre + 1

next-middle :
    (pre : List ℕ) (x : ℕ) (rest : List ℕ) (p : EventLoopPool)
    → p.started ≡ true
    → p.loops ≡ pre ++ (x ∷ rest)
    → p.next ≡ length pre
    → get_next_loop p ≡ some (x, record p { next = turn_after pre rest })
unfolding get_next_loop
next-middle pre x rest p on at here =
    let (y, ys, shape) = not_empty pre x rest in
    let found = ap₂ get_elem? at here ∙ get_elem?-middle pre x rest in
    let full = at ∙ shape in
    let wraps =
      turn pre rest (length p.loops) p.next (ap length at ∙ length-append pre (x ∷ rest)) here in
    ground (arith, found, full, wraps)
  where
    turn :
        (pre rest : List ℕ) (n i : ℕ)
        → n ≡ length pre + suc (length rest)
        → i ≡ length pre
        → (if leb n (i + 1) then 0 else i + 1) ≡ turn_after pre rest
    turn pre [] n i h k = ground arith
    turn pre (y ∷ ys) n i h k = ground arith

rounds :
    (pre : List ℕ) (x : ℕ) (rest : List ℕ) (p : EventLoopPool)
    → p.started ≡ true
    → p.loops ≡ pre ++ (x ∷ rest)
    → p.next ≡ length pre
    → next_loops (length (x ∷ rest)) p ≡ some (x ∷ rest, record p { next = 0 })
unfolding next_loops
rounds pre x [] p on at here = let e = next-middle pre x [] p on at here in cc
rounds pre x (y ∷ ys) p on at here =
    let e = next-middle pre x (y ∷ ys) p on at here in
    let ih =
      rounds (pre ++ (x ∷ [])) y ys (record p { next = length pre + 1 }) on
        (at ∙ sym (append_assoc pre (x ∷ []) (y ∷ ys)))
        (omega (arith, length-append pre (x ∷ []))) in
    cc

-- A started pool whose turn is at the first of its loops gives as many connections as it has loops to
-- all its loops, in order, and is then as before.
pub next_loops-round :
    (p : EventLoopPool)
    → p.started ≡ true
    → p.next ≡ 0
    → next_loops (length p.loops) p ≡ some (p.loops, p)
unfolding next_loops
next_loops-round p on first = go p.loops refl
  where
    go : (xs : List ℕ) → p.loops ≡ xs → next_loops (length xs) p ≡ some (xs, p)
    go [] none_at = refl
    go (x ∷ xs) at =
        rounds [] x xs p on at first ∙ ap (λ n. some (x ∷ xs, record p { next = n })) (sym first)
