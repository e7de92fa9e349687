-- ===== src/Net/ProcessInfo.antt =====
-- net/processinfo.h and net/processinfo.cc: what is read out of the texts and directories of /proc.
-- The texts of the files and the names of the entries are arguments.
pub mod Fields
mod Tests
use jnet.Base.{
  ℕ, suc, ◌+◌, ◌-◌, Bool, true, false, Option, none, some, List, [], ◌∷◌, ◌++◌, ◌==◌, ltb,
  if◌then◌else◌, take, drop,
}
use jnet.Base.Int.{ℤ, pos, ltb_ℤ}
use jnet.Net.Http.Text.{bytes_of, is_digit, find, atoi}

-- `isdigit(d->d_name[0])`.
abbrev pub starts_with_digit : List ℕ → Bool
starts_with_digit [] = false
starts_with_digit (c ∷ cs) = is_digit c

-- `openedFiles()`: `FdDirFilter` on every entry.
unfoldable pub opened_files : List (List ℕ) → ℕ
opened_files [] = 0
opened_files (name ∷ names) =
    let rest = opened_files names in if starts_with_digit name then suc rest else rest

-- `TaskDirFilter` on every entry.
unfoldable pub task_pids : List (List ℕ) → List ℤ
unfolding atoi
task_pids [] = []
task_pids (name ∷ names) =
    let rest = task_pids names in if starts_with_digit name then atoi name ∷ rest else rest

-- `std::sort`.
unfoldable pub insert : ℤ → List ℤ → List ℤ
insert x [] = x ∷ []
insert x (y ∷ ys) = let rest = insert x ys in if ltb_ℤ y x then y ∷ rest else x ∷ (y ∷ ys)

unfoldable pub sort : List ℤ → List ℤ
unfolding insert
sort [] = []
sort (x ∷ xs) = insert x (sort xs)

-- `threads()`.
unfoldable pub threads : List (List ℕ) → List ℤ
unfolding task_pids sort
threads names = sort (task_pids names)

-- `stat.rfind(c)`, where the text starts at place `i`.
unfoldable pub rfind_at : ℕ → ℕ → List ℕ → Option ℕ
rfind_at c i [] = none
rfind_at c i (x ∷ xs) = elim (rfind_at c (i + 1) xs) [
  | some k ↦ some k
  | none ↦ if x == c then some i else none
]

-- `procName()`, with the text of /proc/self/stat.
unfoldable pub proc_name : List ℕ → List ℕ
unfolding find rfind_at
proc_name stat = elim (find stat (40 ∷ []) 0) [
  | none ↦ []
  | some lp ↦ elim (rfind_at 41 0 stat) [
    | none ↦ []
    | some rp ↦ if ltb lp rp then take (rp - lp - 1) (drop (lp + 1) stat) else []
  ]
]

-- `numThreads()`, with the text of /proc/self/status.
unfoldable pub num_threads : List ℕ → ℤ
unfolding find atoi
num_threads status = elim (find status (bytes_of "Threads:") 0) [
  | none ↦ pos 0
  | some at ↦ atoi (drop (at + 8) status)
]
