-- ===== src/Net/Daemon/Tests.antt =====
-- net/daemon.cc on a machine with one file and one process, of which the state says how many more
-- signals it outlives.
use jnet.Base.{
  ℕ, suc, ◌-◌, ◌<◌, ◌≡◌, ◌⊎◌, refl, true, false, none, some, List, [], ◌∷◌, ◌++◌, arith, length,
  take, ◌==◌, if◌then◌else◌,
}
use jnet.Base.Int.{pos, negsuc}
use jnet.Net.File.{Files}
use jnet.Net.Daemon.{
  Processes, sent, missing, write_pid_file, get_pid_from_file, daemon_stop, daemon_start,
  daemon_process, returned, exited,
}
use jnet.Net.Daemon.PidFile.{IsRegular, get_pid_from_file-write_pid_file}
use jnet.Net.Daemon.Stop.{after_rounds, is_there, daemon_stop-rounds}
use jnet.Net.Daemon.Start.{daemon_start-write_pid_file}

abbrev pub Machine : Type 0
Machine = List ℕ × ℕ

abbrev files : Files Machine
files = record {
  open_read = λ name s. some (3, s);
  open_new = λ name s. some (3, ([], s.1));
  read = λ fd n s. (some (take n s.0), s);
  write = λ fd bytes s. (some (length bytes), (s.0 ++ bytes, s.1));
  close = λ fd s. s;
  errno = λ s. 0;
  strerror = λ e. [];
}

abbrev processes : Processes Machine
processes = record {
  lock = λ fd s. (true, s);
  unlink = λ name s. ([], s.1);
  getpid = λ s. 42;
  getppid = λ s. 7;
  kill = λ pid signal s.
      if signal == 0 then (sent, s) else (if s.1 == 0 then missing else sent, (s.0, s.1 - 1));
  fork = λ s. (pos 0, s);
  setsid = λ s. s;
  open_null = λ s. none;
  dup2 = λ fd to s. s;
  pause = λ s. s;
}

abbrev content : List ℕ → Machine → List ℕ
content name s = s.0

machine-IsRegular : IsRegular files processes content
machine-IsRegular = record {
  open_new_lock =
      λ name s. (3, ([], s.1), ([], s.1), refl, refl, λ bytes. ((bytes, s.1), refl, refl));
  open_read_whole = λ name n s. (3, s, s, refl, refl);
}

abbrev begun : Machine
begun = ([], 2)

get_pid_from_file-write_pid_file_example :
    (u : Machine) × (v : Machine) × (write_pid_file files processes [] begun ≡ (pos 0, u))
    × (get_pid_from_file files processes (10 ∷ 10 ∷ []) [] u ≡ (pos 42, v))
get_pid_from_file-write_pid_file_example =
    get_pid_from_file-write_pid_file files processes content machine-IsRegular (10 ∷ 10 ∷ []) [] 42
      begun (λ t. refl) (omega arith)

daemon_start-write_pid_file-test :
    (u : Machine) × (v : Machine) × (write_pid_file files processes [] begun ≡ (pos 0, u))
    × (daemon_start files processes [] [] u ≡ returned (negsuc 0) ((processes.kill (pos 42) 0 v).1))
daemon_start-write_pid_file-test =
    daemon_start-write_pid_file files processes content machine-IsRegular [] [] 42 begun (λ t. refl)
      (omega arith) (omega arith) (λ t. refl)

-- The file "5" of a process that outlives two signals.
abbrev running : Machine
running = (53 ∷ 10 ∷ [], 2)

pid-running : get_pid_from_file files processes [] [] running ≡ (pos 5, running)
unfolding get_pid_from_file
pid-running = refl

daemon_stop-rounds_example :
    ((i : ℕ) × (i < 1000)
      × ((j : ℕ)
          → j < i
          → is_there files processes
              (pos 5)
              (after_rounds files processes (pos 5) j (53 ∷ 10 ∷ [], 1))
            ≡ true)
      × (is_there files processes (pos 5) (after_rounds files processes (pos 5) i (53 ∷ 10 ∷ [], 1))
          ≡ false)
      × (daemon_stop files processes [] [] running ≡ (
        pos 0,
        processes.unlink [] (after_rounds files processes (pos 5) (suc i) (53 ∷ 10 ∷ [], 1)),
      )))
    ⊎ (((j : ℕ)
          → j < 1000
          → is_there files processes
              (pos 5)
              (after_rounds files processes (pos 5) j (53 ∷ 10 ∷ [], 1))
            ≡ true)
        × (daemon_stop files processes [] [] running
            ≡ (negsuc 0, after_rounds files processes (pos 5) 1000 (53 ∷ 10 ∷ [], 1))))
daemon_stop-rounds_example =
    daemon_stop-rounds files processes [] [] 5 running running (53 ∷ 10 ∷ [], 1) (omega arith)
      pid-running refl

-- A command that is not known.
daemon_process-unknown :
    daemon_process files processes (some (120 ∷ [])) [] [] running ≡ exited 1 running
unfolding daemon_process
daemon_process-unknown = refl
