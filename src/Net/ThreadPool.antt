-- ===== src/Net/ThreadPool.antt =====
-- net/threadpool.h: the workers and the callers of a pool, which share a lock and one condition
-- variable. A step is what one thread does while it has the lock; workers are counted, tasks and the
-- callers that add them are numbers. `added` and `taken` are the tasks that went in and out.
pub mod Queue
pub mod Stop
mod Tests
use jnet.Base.{
  ℕ, zero, suc, ◌+◌, ◌-◌, ◌≡◌, Bool, true, false, not, ◌||◌, List, [], ◌∷◌, ◌++◌, ltb,
  if◌then◌else◌, length,
}

pub record ThreadPool : Type 0 where
  pub tasks : List ℕ
  pub max_queue_size : ℕ
  pub stop : Bool
  pub awake : ℕ
  pub waiting : ℕ
  pub running : ℕ
  pub left : ℕ
  pub blocked : List ℕ
  pub woken : List ℕ
  pub added : List ℕ
  pub taken : List ℕ

-- `ThreadPool(threads)`.
unfoldable pub new : ℕ → ℕ → ThreadPool
new threads max_queue_size = record {
  tasks = [];
  max_queue_size = max_queue_size;
  stop = false;
  awake = threads;
  waiting = 0;
  running = 0;
  left = 0;
  blocked = [];
  woken = [];
  added = [];
  taken = [];
}

-- A worker's turn with the lock, when it is one of `suc n` awake workers: it takes the first task,
-- leaves, or waits.
unfoldable pub worker_turn : ℕ → ThreadPool → ThreadPool
worker_turn n s = elim s.tasks [
  | [] ↦
      if s.stop
      then record s { awake = n; left = suc s.left }
      else record s { awake = n; waiting = suc s.waiting }
  | task ∷ tasks ↦ record s {
    tasks = tasks;
    awake = n;
    running = suc s.running;
    taken = s.taken ++ (task ∷ []);
  }
]

-- The loop of one of `suc n` awake workers while no other thread gets the lock, until it leaves or
-- waits, with fuel for its rounds.
unfoldable pub worker_loop : ℕ → ℕ → ThreadPool → ThreadPool
unfolding worker_turn
worker_loop zero n s = worker_turn n s
worker_loop (suc fuel) n s = elim s.tasks [
  | [] ↦ worker_turn n s
  | task ∷ tasks ↦
      worker_loop fuel n (record (worker_turn n s) { running = s.running; awake = suc n })
]

-- The condition that a caller of `AddTask` waits for.
abbrev pub has_room : ThreadPool → Bool
has_room s = ltb (length s.tasks) s.max_queue_size || s.stop

-- A caller's turn in `AddTask`, up to `notify_one`: the task is put in, or the caller waits.
unfoldable pub add_task : ℕ → ThreadPool → ThreadPool
add_task task s =
    if has_room s
    then record s { tasks = s.tasks ++ (task ∷ []); added = s.added ++ (task ∷ []) }
    else record s { blocked = s.blocked ++ (task ∷ []) }

-- `~ThreadPool` up to the joins.
unfoldable pub destroy : ThreadPool → ThreadPool
destroy s = record s { stop = true }

abbrev pub wake_worker : ℕ → ThreadPool → ThreadPool
wake_worker n s = record s { waiting = n; awake = suc s.awake }

abbrev pub wake_caller : List ℕ → ℕ → List ℕ → ThreadPool → ThreadPool
wake_caller front task back s = record s { blocked = front ++ back; woken = s.woken ++ (task ∷ []) }

-- Who wakes when a thread that waits on the condition does: a worker, a caller, or, where no one
-- waits, nobody.
pub data Wakes : ThreadPool → ThreadPool → Type 0 where
  worker_wakes : {s : ThreadPool} (n : ℕ) → s.waiting ≡ suc n → Wakes s (wake_worker n s)
  caller_wakes :
      {s : ThreadPool} (front : List ℕ) (task : ℕ) (back : List ℕ)
      → s.blocked ≡ front ++ task ∷ back
      → Wakes s (wake_caller front task back s)
  nobody_wakes : {s : ThreadPool} → s.waiting ≡ 0 → s.blocked ≡ [] → Wakes s s

-- What the workers do by themselves.
pub data WorkerStep : ThreadPool → ThreadPool → Type 0 where
  turns : {s : ThreadPool} (n : ℕ) → s.awake ≡ suc n → WorkerStep s (worker_turn n s)
  finishes :
      {s : ThreadPool} (n : ℕ)
      → s.running ≡ suc n
      → WorkerStep s (record s { running = n; awake = suc s.awake })

pub data Step : ThreadPool → ThreadPool → Type 0 where
  works : {s t : ThreadPool} → WorkerStep s t → Step s t
  adds : {s t : ThreadPool} (task : ℕ) → has_room s ≡ true → Wakes (add_task task s) t → Step s t
  blocks : {s : ThreadPool} (task : ℕ) → has_room s ≡ false → Step s (add_task task s)
  adds_again :
      {s t : ThreadPool} (front : List ℕ) (task : ℕ) (back : List ℕ)
      → s.woken ≡ front ++ task ∷ back
      → has_room s ≡ true
      → Wakes (add_task task (record s { woken = front ++ back })) t
      → Step s t
  blocks_again :
      {s : ThreadPool} (front : List ℕ) (task : ℕ) (back : List ℕ)
      → s.woken ≡ front ++ task ∷ back
      → has_room s ≡ false
      → Step s (add_task task (record s { woken = front ++ back }))
  wakes_up : {s t : ThreadPool} → Wakes s t → Step s t
  destroys : {s : ThreadPool} → Step s (destroy s)

-- What a new pool reaches.
pub data Reach (threads max_queue_size : ℕ) : ThreadPool → Type 0 where
  start : Reach threads max_queue_size (new threads max_queue_size)
  next :
      {s t : ThreadPool}
      → Reach threads max_queue_size s
      → Step s t
      → Reach threads max_queue_size t
