-- ===== src/Net/ThreadPool/Stop.antt =====
-- The end of a pool of net/threadpool.h: what its workers still do, and what wakes them.
use jnet.Base.{
  ℕ, zero, suc, ◌+◌, ◌≤◌, ◌≡◌, refl, sym, ap, subst, ◌∙◌, inl, inr, true, false, List, [], ◌∷◌,
  ◌++◌, append_assoc, append-nil, arith, length,
}
use jnet.Net.ThreadPool.{
  ThreadPool, new, worker_turn, worker_loop, destroy, WorkerStep, turns, finishes, works, Reach,
  start, next,
}
use jnet.Net.ThreadPool.Queue.{worker_turn-leaves, worker_turn-waits, tasks-cases}

-- The state behind the last round.
pub record Drained (s t : ThreadPool) : Type 0 where
  pub empty : t.tasks ≡ []
  pub all : t.taken ≡ s.taken ++ s.tasks
  pub leaves : t.left ≡ suc s.left
  pub running : t.running ≡ s.running

leaves-Drained :
    (n : ℕ) (s : ThreadPool) → s.tasks ≡ [] → s.stop ≡ true → Drained s (worker_turn n s)
leaves-Drained n s empty stopped =
    subst (Drained s) (sym (worker_turn-leaves n s empty stopped)) (record {
      empty = empty;
      all = sym (append-nil s.taken) ∙ ap (λ ts. s.taken ++ ts) (sym empty);
      leaves = refl;
      running = refl;
    })

-- The pool behind a task that a worker took and ran.
abbrev ran_one : ℕ → ℕ → List ℕ → ThreadPool → ThreadPool
ran_one n task tasks s = record s { tasks = tasks; awake = suc n; taken = s.taken ++ (task ∷ []) }

loop-empty : (fuel n : ℕ) (s : ThreadPool) → s.tasks ≡ [] → worker_loop fuel n s ≡ worker_turn n s
unfolding worker_loop
loop-empty zero n s empty = refl
loop-empty (suc fuel) n s empty = ground (arith, empty)

loop-task :
    (fuel n task : ℕ) (tasks : List ℕ) (s : ThreadPool)
    → s.tasks ≡ task ∷ tasks
    → worker_loop (suc fuel) n s ≡ worker_loop fuel n (ran_one n task tasks s)
unfolding worker_loop
loop-task fuel n task tasks s at = ground (arith, at)

-- Behind the destructor, a worker that has the lock to itself, in as many rounds as there are tasks,
-- takes and runs all of them in order, and then leaves.
pub worker_loop-Drained :
    (fuel n : ℕ) (s : ThreadPool)
    → s.stop ≡ true
    → length s.tasks ≤ fuel
    → Drained s (worker_loop fuel n s)
worker_loop-Drained zero n s stopped le = elim (tasks-cases s.tasks) [
  | inl empty ↦
      subst (Drained s) (sym (loop-empty zero n s empty)) (leaves-Drained n s empty stopped)
  | inr (task, tasks, at) ↦ absurd (omega (arith, ap length at))
]
worker_loop-Drained (suc fuel) n s stopped le = elim (tasks-cases s.tasks) [
  | inl empty ↦
      subst (Drained s) (sym (loop-empty (suc fuel) n s empty)) (leaves-Drained n s empty stopped)
  | inr (task, tasks, at) ↦
      let d =
        worker_loop-Drained fuel n (ran_one n task tasks s) stopped (omega (arith, ap length at)) in
      subst (Drained s) (sym (loop-task fuel n task tasks s at)) (record {
        empty = d.empty;
        all = d.all ∙ append_assoc s.taken (task ∷ []) tasks ∙ ap (λ ts. s.taken ++ ts) (sym at);
        leaves = d.leaves;
        running = d.running;
      })
]

-- Every worker of a pool waits.
pub record IsAsleep (threads : ℕ) (s : ThreadPool) : Type 0 where
  pub waiting : s.waiting ≡ threads
  pub awake : s.awake ≡ 0
  pub running : s.running ≡ 0
  pub left : s.left ≡ 0

sleep-IsAsleep :
    {threads size : ℕ} (n : ℕ) (s : ThreadPool)
    → Reach threads size s
    → s.awake ≡ n
    → s.tasks ≡ []
    → s.stop ≡ false
    → s.running ≡ 0
    → s.left ≡ 0
    → (t : ThreadPool) × Reach threads size t × IsAsleep (s.waiting + n) t
sleep-IsAsleep zero s r awake empty going running left =
    (s, r, record { waiting = omega arith; awake = awake; running = running; left = left })
sleep-IsAsleep {threads} {size} (suc n) s r awake empty going running left =
    let t = record s { awake = n; waiting = suc s.waiting } in
    let reached =
      subst (Reach threads size) (worker_turn-waits n s empty going)
        (next r (works (turns n awake))) in
    let (u, r', asleep) = sleep-IsAsleep n t reached refl empty going running left in
    (u, r', subst (λ k. IsAsleep k u) (omega arith) asleep)

asleep-WorkerStep : {threads : ℕ} {s t : ThreadPool} → IsAsleep threads s → ¬ WorkerStep s t
asleep-WorkerStep asleep (turns n at) = absurd (omega (arith, at, asleep.awake))
asleep-WorkerStep asleep (finishes n at) = absurd (omega (arith, at, asleep.running))

stopped-IsAsleep :
    (threads : ℕ) (s : ThreadPool) → IsAsleep threads s → IsAsleep threads (destroy s)
unfolding destroy
stopped-IsAsleep threads s a = record {
  waiting = a.waiting;
  awake = a.awake;
  running = a.running;
  left = a.left;
}

new-IsAsleep :
    (threads size : ℕ) → (s : ThreadPool) × Reach threads size s × IsAsleep (0 + threads) s
unfolding new
new-IsAsleep threads size = sleep-IsAsleep threads (new threads size) start refl refl refl refl refl

-- A pool of any size reaches a state from which its destructor leaves every worker waiting, with none
-- that has left, and no worker can take a step until something wakes it; the destructor, which then
-- joins the workers, does not.
pub destroy-IsAsleep :
    (threads size : ℕ)
    → (s : ThreadPool) × Reach threads size s
      × IsAsleep threads (destroy s)
      × ((t : ThreadPool) → ¬ WorkerStep (destroy s) t)
destroy-IsAsleep threads size =
    let (s, r, asleep) = new-IsAsleep threads size in
    let there = stopped-IsAsleep threads s (subst (λ k. IsAsleep k s) (omega arith) asleep) in
    (s, r, there, λ t w. asleep-WorkerStep there w)

worker_turn-blocked :
    (n : ℕ) (s : ThreadPool)
    → ((worker_turn n s).blocked ≡ s.blocked) × ((worker_turn n s).woken ≡ s.woken)
unfolding worker_turn
worker_turn-blocked n s = (ground arith, ground arith)

-- A worker's step wakes no caller that waits for room, although it may be the one that makes the
-- room.
pub WorkerStep-blocked :
    {s t : ThreadPool} → WorkerStep s t → (t.blocked ≡ s.blocked) × (t.woken ≡ s.woken)
WorkerStep-blocked {s = s} (turns n at) = worker_turn-blocked n s
WorkerStep-blocked (finishes n at) = (refl, refl)
