-- ===== src/Net/ThreadPool/Queue.antt =====
-- The queue of net/threadpool.h in every order of its threads.
use jnet.Base.{
  ℕ, suc, ◌+◌, ◌≤◌, ◌≡◌, refl, sym, ap, subst, ◌∙◌, ◌⊎◌, inl, inr, Bool-cases, true, false, List,
  [], ◌∷◌, ◌++◌, append_assoc, arith, length, length-append,
}
use jnet.Net.ThreadPool.{
  ThreadPool, new, worker_turn, has_room, add_task, destroy, Wakes, worker_wakes, caller_wakes,
  nobody_wakes, WorkerStep, turns, finishes, Step, works, adds, blocks, adds_again, blocks_again,
  wakes_up, destroys, Reach, start, next,
}

-- What the threads keep.
pub record IsSound (threads size : ℕ) (s : ThreadPool) : Type 0 where
  pub order : s.added ≡ s.taken ++ s.tasks
  pub bound : s.stop ≡ false → length s.tasks ≤ size
  pub limit : s.max_queue_size ≡ size
  pub workers : s.awake + s.waiting + (s.running + s.left) ≡ threads

Wakes-IsSound :
    {threads size : ℕ} {s t : ThreadPool}
    → Wakes s t
    → IsSound threads size s
    → IsSound threads size t
Wakes-IsSound (worker_wakes n at) i = record {
  order = i.order;
  bound = i.bound;
  limit = i.limit;
  workers = omega (arith, at, i.workers);
}
Wakes-IsSound (caller_wakes front task back at) i = record {
  order = i.order;
  bound = i.bound;
  limit = i.limit;
  workers = i.workers;
}
Wakes-IsSound (nobody_wakes none_waits none_blocked) i = i

pub worker_turn-takes :
    (n task : ℕ) (tasks : List ℕ) (s : ThreadPool)
    → s.tasks ≡ task ∷ tasks
    → worker_turn n s ≡ record s {
      tasks = tasks;
      awake = n;
      running = suc s.running;
      taken = s.taken ++ (task ∷ []);
    }
unfolding worker_turn
worker_turn-takes n task tasks s at = ground (arith, at)

pub worker_turn-leaves :
    (n : ℕ) (s : ThreadPool)
    → s.tasks ≡ []
    → s.stop ≡ true
    → worker_turn n s ≡ record s { awake = n; left = suc s.left }
unfolding worker_turn
worker_turn-leaves n s at stopped = ground (arith, at, stopped)

pub worker_turn-waits :
    (n : ℕ) (s : ThreadPool)
    → s.tasks ≡ []
    → s.stop ≡ false
    → worker_turn n s ≡ record s { awake = n; waiting = suc s.waiting }
unfolding worker_turn
worker_turn-waits n s at going = ground (arith, at, going)

pub tasks-cases : (xs : List ℕ) → (xs ≡ []) ⊎ ((x : ℕ) × (ys : List ℕ) × (xs ≡ x ∷ ys))
tasks-cases [] = inl refl
tasks-cases (x ∷ xs) = inr (x, xs, refl)

worker_turn-IsSound :
    {threads size : ℕ} (n : ℕ) (s : ThreadPool)
    → s.awake ≡ suc n
    → IsSound threads size s
    → IsSound threads size (worker_turn n s)
worker_turn-IsSound {threads} {size} n s at i = elim (tasks-cases s.tasks) [
  | inr (task, tasks, eq) ↦
      subst (IsSound threads size) (sym (worker_turn-takes n task tasks s eq)) (record {
        order =
            i.order ∙ ap (λ ts. s.taken ++ ts) eq ∙ sym (append_assoc s.taken (task ∷ []) tasks);
        bound = λ going. omega (arith, i.bound going, ap length eq);
        limit = i.limit;
        workers = omega (arith, i.workers, at);
      })
  | inl empty ↦ elim (Bool-cases s.stop) [
    | inl stopped ↦
        subst (IsSound threads size) (sym (worker_turn-leaves n s empty stopped)) (record {
          order = i.order;
          bound = i.bound;
          limit = i.limit;
          workers = omega (arith, i.workers, at);
        })
    | inr going ↦ subst (IsSound threads size) (sym (worker_turn-waits n s empty going)) (record {
      order = i.order;
      bound = i.bound;
      limit = i.limit;
      workers = omega (arith, i.workers, at);
    })
  ]
]

room-length :
    (s : ThreadPool) → has_room s ≡ true → s.stop ≡ false → length s.tasks + 1 ≤ s.max_queue_size
room-length s room going = ground arith

add_task-puts :
    (task : ℕ) (s : ThreadPool)
    → has_room s ≡ true
    → add_task task s ≡ record s { tasks = s.tasks ++ (task ∷ []); added = s.added ++ (task ∷ []) }
unfolding add_task
add_task-puts task s room = rw room refl

add_task-blocks :
    (task : ℕ) (s : ThreadPool)
    → has_room s ≡ false
    → add_task task s ≡ record s { blocked = s.blocked ++ (task ∷ []) }
unfolding add_task
add_task-blocks task s full = rw full refl

add_task-IsSound :
    {threads size : ℕ} (task : ℕ) (s : ThreadPool)
    → IsSound threads size s
    → IsSound threads size (add_task task s)
add_task-IsSound {threads} {size} task s i = elim (Bool-cases (has_room s)) [
  | inl room ↦ subst (IsSound threads size) (sym (add_task-puts task s room)) (record {
    order = ap (λ ts. ts ++ (task ∷ [])) i.order ∙ append_assoc s.taken s.tasks (task ∷ []);
    bound = λ going.
        omega (arith, room-length s room going, i.limit, length-append s.tasks (task ∷ []));
    limit = i.limit;
    workers = i.workers;
  })
  | inr full ↦
      subst (IsSound threads size) (sym (add_task-blocks task s full))
        (record { order = i.order; bound = i.bound; limit = i.limit; workers = i.workers })
]

woken-IsSound :
    {threads size : ℕ} (woken : List ℕ) (s : ThreadPool)
    → IsSound threads size s
    → IsSound threads size (record s { woken = woken })
woken-IsSound woken s i = record {
  order = i.order;
  bound = i.bound;
  limit = i.limit;
  workers = i.workers;
}

WorkerStep-IsSound :
    {threads size : ℕ} {s t : ThreadPool}
    → WorkerStep s t
    → IsSound threads size s
    → IsSound threads size t
WorkerStep-IsSound {s = s} (turns n at) i = worker_turn-IsSound n s at i
WorkerStep-IsSound (finishes n at) i = record {
  order = i.order;
  bound = i.bound;
  limit = i.limit;
  workers = omega (arith, at, i.workers);
}

destroy-IsSound :
    {threads size : ℕ} (s : ThreadPool) → IsSound threads size s → IsSound threads size (destroy s)
unfolding destroy
destroy-IsSound s i = record {
  order = i.order;
  bound = λ going. absurd cc;
  limit = i.limit;
  workers = i.workers;
}

Step-IsSound :
    {threads size : ℕ} {s t : ThreadPool}
    → Step s t
    → IsSound threads size s
    → IsSound threads size t
Step-IsSound (works w) i = WorkerStep-IsSound w i
Step-IsSound {s = s} (adds task room w) i = Wakes-IsSound w (add_task-IsSound task s i)
Step-IsSound {s = s} (blocks task full) i = add_task-IsSound task s i
Step-IsSound {s = s} (adds_again front task back at room w) i =
    Wakes-IsSound w (
      add_task-IsSound task (record s { woken = front ++ back })
        (woken-IsSound (front ++ back) s i))
Step-IsSound {s = s} (blocks_again front task back at full) i =
    add_task-IsSound task (record s { woken = front ++ back }) (woken-IsSound (front ++ back) s i)
Step-IsSound (wakes_up w) i = Wakes-IsSound w i
Step-IsSound {s = s} destroys i = destroy-IsSound s i

new-IsSound : (threads size : ℕ) → IsSound threads size (new threads size)
unfolding new
new-IsSound threads size = record {
  order = refl;
  bound = λ going. omega arith;
  limit = refl;
  workers = omega arith;
}

-- In every state that the threads of a pool reach, in any order and with any wake-ups: the tasks that
-- were taken and those that wait are the tasks that were added, in the order in which they were
-- added; before the destructor the queue is not longer than its limit; and every worker is awake,
-- waits, runs a task, or has left.
pub Reach-IsSound :
    {threads size : ℕ} {s : ThreadPool} → Reach threads size s → IsSound threads size s
Reach-IsSound {threads} {size} start = new-IsSound threads size
Reach-IsSound (next r w) = Step-IsSound w (Reach-IsSound r)
