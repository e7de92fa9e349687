-- ===== src/Net/TcpServer/Accepts.antt =====
-- Where the descriptors that net/tcpserver.cc accepts go.
use jnet.Base.{
  ℕ, zero, suc, map, ◌+◌, ◌≡◌, refl, sym, ap, subst, ◌∙◌, inl, inr, Bool, true, false, ◌&&◌, none,
  some, List, [], ◌∷◌, ◌++◌, append_assoc, append-nil, arith, if◌then◌else◌, length, Bool-cases,
  Option-cases,
}
use jnet.Net.EventLoopPool.{EventLoopPool, get_next_loop, next_loops}
use jnet.Net.TcpServer.{TcpServer, Accepted, accept_one, accept_all, handle_accept}

abbrev pub named : Accepted → Bool
named a = a.peer_known && a.local_known

-- The descriptors whose two ends are known, and the others.
abbrev pub good : List Accepted → List ℕ
good [] = []
good (a ∷ more) = if named a then a.fd ∷ good more else good more

abbrev pub lost : List Accepted → List ℕ
lost [] = []
lost (a ∷ more) = if named a then lost more else a.fd ∷ lost more

abbrev pub pairs : List ℕ → List ℕ → List (ℕ × ℕ)
pairs [] fds = []
pairs (l ∷ ls) [] = []
pairs (l ∷ ls) (fd ∷ fds) = (l, fd) ∷ pairs ls fds

-- The numbers of new connections from the first one on.
abbrev pub numbers : ℕ → ℕ → List ℕ
numbers c zero = []
numbers c (suc n) = c ∷ numbers (c + 1) n

-- What a server is after a new connection of a loop.
abbrev with_conn : TcpServer → ℕ → EventLoopPool → ℕ → TcpServer
with_conn s loop pool fd = record s {
  pool = pool;
  conns = s.conns ++ (s.created ∷ []);
  created = s.created + 1;
  attached = s.attached ++ ((loop, fd) ∷ []);
  announced = s.announced ++ (if s.create_cb then s.created ∷ [] else []);
  callbacks = s.callbacks ++ ((s.created, s.state_cb, s.read_cb) ∷ []);
}

announced-more :
    (b : Bool) (xs : List ℕ) (c n : ℕ)
    → (xs ++ (if b then c ∷ [] else [])) ++ (if b then numbers (c + 1) n else [])
      ≡ xs ++ (if b then numbers c (suc n) else [])
announced-more true xs c n = append_assoc xs (c ∷ []) (numbers (c + 1) n)
announced-more false xs c n = append-nil (xs ++ [])

announced-none : (b : Bool) (xs : List ℕ) (c : ℕ) → xs ≡ xs ++ (if b then numbers c 0 else [])
announced-none true xs c = sym (append-nil xs)
announced-none false xs c = sym (append-nil xs)

accept-good :
    (a : Accepted) (s : TcpServer) (loop : ℕ) (pool : EventLoopPool)
    → named a ≡ true
    → get_next_loop s.pool ≡ some (loop, pool)
    → accept_one a s ≡ some (with_conn s loop pool a.fd)
unfolding accept_one
accept-good a s loop pool known turn = ground (arith, known, turn)

accept-lost :
    (a : Accepted) (s : TcpServer)
    → named a ≡ false
    → accept_one a s ≡ some (record s { leaked = s.leaked ++ (a.fd ∷ []) })
unfolding accept_one
accept-lost a s unknown = ground (arith, unknown)

accept-next :
    (a : Accepted) (more : List Accepted) (s t : TcpServer)
    → accept_one a s ≡ some t
    → accept_all (a ∷ more) s ≡ accept_all more t
unfolding accept_all
accept-next a more s t done = ground (arith, done)

-- The turns of one connection and of the others.
abbrev FirstTurn : ℕ → EventLoopPool → List ℕ → EventLoopPool → Type 0
FirstTurn n p loops q =
    (loop : ℕ) × (p' : EventLoopPool) × (rest : List ℕ) × (get_next_loop p ≡ some (loop, p'))
    × (next_loops n p' ≡ some (rest, q))
    × (loops ≡ loop ∷ rest)

turns-none : (n : ℕ) (p : EventLoopPool) → get_next_loop p ≡ none → next_loops (suc n) p ≡ none
unfolding next_loops
turns-none n p h = ground (arith, h)

turns-stop :
    (n loop : ℕ) (p p' : EventLoopPool)
    → get_next_loop p ≡ some (loop, p')
    → next_loops n p' ≡ none
    → next_loops (suc n) p ≡ none
unfolding next_loops
turns-stop n loop p p' h k = ground (arith, h, k)

turns-some :
    (n loop : ℕ) (p p' q : EventLoopPool) (rest : List ℕ)
    → get_next_loop p ≡ some (loop, p')
    → next_loops n p' ≡ some (rest, q)
    → next_loops (suc n) p ≡ some (loop ∷ rest, q)
unfolding next_loops
turns-some n loop p p' q rest h k = ground (arith, h, k)

first-turn :
    (n : ℕ) (p q : EventLoopPool) (loops : List ℕ)
    → next_loops (suc n) p ≡ some (loops, q)
    → FirstTurn n p loops q
first-turn n p q loops turns = elim (Option-cases (get_next_loop p)) [
  | inl h ↦ absurd (ground (arith, turns, turns-none n p h))
  | inr ((loop, p'), h) ↦ elim (Option-cases (next_loops n p')) [
    | inl k ↦ absurd (ground (arith, turns, turns-stop n loop p p' h k))
    | inr ((rest, q'), k) ↦
        let both = turns-some n loop p p' q' rest h k in
        (
          loop,
          p',
          rest,
          h,
          k ∙ ap (λ x. some (rest, x)) (ground (arith, turns, both)),
          ground (arith, turns, both),
        )
  ]
]

-- What a series of rounds leaves.
pub record Accepts (s t : TcpServer) (more : List Accepted) (loops : List ℕ) (q : EventLoopPool)
    : Type 0 where
  pub attached : t.attached ≡ s.attached ++ pairs loops (good more)
  pub leaked : t.leaked ≡ s.leaked ++ lost more
  pub pool : t.pool ≡ q
  pub created : t.created ≡ s.created + length (good more)
  pub conns : t.conns ≡ s.conns ++ numbers s.created (length (good more))
  pub announced :
      t.announced
      ≡ s.announced ++ (if s.create_cb then numbers s.created (length (good more)) else [])
  pub callbacks :
      t.callbacks
      ≡ s.callbacks
        ++ map (λ c. (c, s.state_cb, s.read_cb)) (numbers s.created (length (good more)))

Accepts-nil :
    (s : TcpServer) (loops : List ℕ) (q : EventLoopPool)
    → next_loops 0 s.pool ≡ some (loops, q)
    → Accepts s s [] loops q
unfolding next_loops
Accepts-nil s loops q turns = record {
  attached =
      sym (append-nil s.attached)
      ∙ ap (λ ls. s.attached ++ pairs ls []) {x = []} (ground (arith, turns));
  leaked = sym (append-nil s.leaked);
  pool = ground (arith, turns);
  created = omega arith;
  conns = sym (append-nil s.conns);
  announced = announced-none s.create_cb s.announced s.created;
  callbacks = sym (append-nil s.callbacks);
}

Accepts-good :
    (a : Accepted) (more : List Accepted) (s t : TcpServer) (loop : ℕ) (pool q : EventLoopPool)
    (loops : List ℕ)
    → named a ≡ true
    → Accepts (with_conn s loop pool a.fd) t more loops q
    → Accepts s t (a ∷ more) (loop ∷ loops) q
Accepts-good a more s t loop pool q loops known h = record {
  attached =
      h.attached
      ∙ append_assoc s.attached ((loop, a.fd) ∷ []) (pairs loops (good more))
      ∙ sym (
          ap (λ b. s.attached ++ pairs (loop ∷ loops) (if b then a.fd ∷ good more else good more))
            known);
  leaked = h.leaked ∙ sym (ap (λ b. s.leaked ++ (if b then lost more else a.fd ∷ lost more)) known);
  pool = h.pool;
  created =
      h.created
      ∙ omega (arith)
      ∙ sym (ap (λ b. s.created + length (if b then a.fd ∷ good more else good more)) known);
  conns =
      h.conns
      ∙ append_assoc s.conns (s.created ∷ []) (numbers (s.created + 1) (length (good more)))
      ∙ ap (λ n. s.conns ++ numbers s.created n) size;
  announced =
      h.announced
      ∙ announced-more s.create_cb s.announced s.created (length (good more))
      ∙ ap (λ n. s.announced ++ (if s.create_cb then numbers s.created n else [])) size;
  callbacks =
      h.callbacks
      ∙ append_assoc s.callbacks ((s.created, s.state_cb, s.read_cb) ∷ [])
          (map (λ c. (c, s.state_cb, s.read_cb)) (numbers (s.created + 1) (length (good more))))
      ∙ ap (λ n. s.callbacks ++ map (λ c. (c, s.state_cb, s.read_cb)) (numbers s.created n)) size;
}
  where
    size : suc (length (good more)) ≡ length (good (a ∷ more))
    size = sym (ap (λ b. length (if b then a.fd ∷ good more else good more)) known)

Accepts-lost :
    (a : Accepted) (more : List Accepted) (s t : TcpServer) (q : EventLoopPool) (loops : List ℕ)
    → named a ≡ false
    → Accepts (record s { leaked = s.leaked ++ (a.fd ∷ []) }) t more loops q
    → Accepts s t (a ∷ more) loops q
Accepts-lost a more s t q loops unknown h = record {
  attached =
      h.attached
      ∙ sym
          (ap (λ b. s.attached ++ pairs loops (if b then a.fd ∷ good more else good more)) unknown);
  leaked =
      h.leaked
      ∙ append_assoc s.leaked (a.fd ∷ []) (lost more)
      ∙ sym (ap (λ b. s.leaked ++ (if b then lost more else a.fd ∷ lost more)) unknown);
  pool = h.pool;
  created = h.created ∙ ap (λ n. s.created + n) size;
  conns = h.conns ∙ ap (λ n. s.conns ++ numbers s.created n) size;
  announced =
      h.announced ∙ ap (λ n. s.announced ++ (if s.create_cb then numbers s.created n else [])) size;
  callbacks =
      h.callbacks
      ∙ ap (λ n. s.callbacks ++ map (λ c. (c, s.state_cb, s.read_cb)) (numbers s.created n)) size;
}
  where
    size : length (good more) ≡ length (good (a ∷ more))
    size = sym (ap (λ b. length (if b then a.fd ∷ good more else good more)) unknown)

accept_all-nil : (s : TcpServer) → accept_all [] s ≡ some s
unfolding accept_all
accept_all-nil s = refl

accept_all-Accepts :
    (more : List Accepted) (s : TcpServer) (loops : List ℕ) (q : EventLoopPool)
    → next_loops (length (good more)) s.pool ≡ some (loops, q)
    → (t : TcpServer) × (accept_all more s ≡ some t) × Accepts s t more loops q
accept_all-Accepts [] s loops q turns = (s, accept_all-nil s, Accepts-nil s loops q turns)
accept_all-Accepts (a ∷ more) s loops q turns = elim (Bool-cases (named a)) [
  | inl known ↦
      let size = ap (λ b. length (if b then a.fd ∷ good more else good more)) known in
      let (loop, pool, rest, turn, others, whole) =
        first-turn (length (good more)) s.pool q loops
          (ap (λ n. next_loops n s.pool) (sym size) ∙ turns) in
      let s' = with_conn s loop pool a.fd in
      let (t, done, after) = accept_all-Accepts more s' rest q others in
      (
        t,
        accept-next a more s s' (accept-good a s loop pool known turn) ∙ done,
        subst (λ ls. Accepts s t (a ∷ more) ls q) (sym whole)
            (Accepts-good a more s t loop pool q rest known after),
      )
  | inr unknown ↦
      let size = ap (λ b. length (if b then a.fd ∷ good more else good more)) unknown in
      let s' = record s { leaked = s.leaked ++ (a.fd ∷ []) } in
      let (t, done, after) =
        accept_all-Accepts more s' loops q (ap (λ n. next_loops n s.pool) (sym size) ∙ turns) in
      (
        t,
        accept-next a more s s' (accept-lost a s unknown) ∙ done,
        Accepts-lost a more s t q loops unknown after,
      )
]

-- A listening server accepts some descriptors, and its pool has the turns for those whose two ends
-- are known: each of these goes, in the order of the turns, to the loop whose turn it is, whether
-- `fcntl` succeeds on it or not, as a connection of its own, which the server keeps in its set, hands
-- to `createcb_` when that is set and gives the server's other callbacks that are set; the other
-- descriptors are left open and nothing holds them.
pub handle_accept-Accepts :
    (more : List Accepted) (s : TcpServer) (loops : List ℕ) (q : EventLoopPool)
    → s.listening ≡ true
    → next_loops (length (good more)) s.pool ≡ some (loops, q)
    → (t : TcpServer) × (handle_accept more s ≡ some t) × Accepts s t more loops q
unfolding handle_accept
handle_accept-Accepts more s loops q on turns =
    let (t, done, after) = accept_all-Accepts more s loops q turns in
    (t, ground (arith, on, done), after)
