-- ===== src/Net/Daemon.antt =====
-- net/daemon.h and net/daemon.cc: the pid file of a daemon, and its start, stop and restart. The
-- system calls are the parameters `Files` and `Processes`. A result is the `int` of the code.
pub mod PidFile
pub mod Stop
pub mod Start
mod Tests
use jnet.Base.{
  ℕ, zero, suc, ◌+◌, ◌-◌, Bool, true, false, Option, none, some, List, [], ◌∷◌, ◌++◌, ◌==◌, take,
  drop, length, if◌then◌else◌,
}
use jnet.Base.Int.{ℤ, pos, negsuc, ltb_ℤ, eq_ℤ}
use jnet.Base.Assoc.{eq_bytes}
use jnet.Net.File.{Files}
use jnet.Net.Http.Text.{bytes_of, atoi, decimal}

-- What `kill` answers: 0, -1 with `EPERM`, or -1 with another error.
pub data Killed : Type 0 where
  sent forbidden missing : Killed

-- `lockf(fd, F_TLOCK, 0)`, `unlink`, `getpid`, `getppid`, `kill`, `fork`, `setsid`, the `open` of
-- /dev/null, `dup2` and the `usleep` of ten milliseconds.
pub record Processes (S : Type 0) : Type 0 where
  pub lock : ℕ → S → Bool × S
  pub unlink : List ℕ → S → S
  pub getpid : S → ℕ
  pub getppid : S → ℕ
  pub kill : ℤ → ℕ → S → Killed × S
  pub fork : S → ℤ × S
  pub setsid : S → S
  pub open_null : S → Option (ℕ × S)
  pub dup2 : ℕ → ℕ → S → S
  pub pause : S → S

abbrev pub sigquit : ℕ
sigquit = 3

-- `strchr(buffer, '\n')`: the characters before it.
unfoldable pub line_of : List ℕ → Option (List ℕ)
line_of [] = none
line_of (c ∷ cs) =
    let rest = line_of cs in
    if c == 0
    then none
    else if c == 10
    then some []
    else elim rest [ none ↦ none | some line ↦ some (c ∷ line) ]

-- A call that returns, or the end of this process.
pub data Outcome (S : Type 0) : Type 0 where
  returned : ℤ → S → Outcome S
  exited : ℕ → S → Outcome S

module _ {S : Type 0} (k : Files S) (p : Processes S) where
  -- `sprintf(str, "%d\n", getpid())`.
  abbrev pub pid_text : S → List ℕ
  pid_text s = decimal 20 (p.getpid s) ++ (10 ∷ [])

  -- `WritePidFile(pidfile)`.
  unfoldable pub write_pid_file : List ℕ → S → ℤ × S
  unfolding decimal
  write_pid_file name s = elim (k.open_new name s) [
    | none ↦ (negsuc 0, s)
    | some (fd, t) ↦
        let (locked, u) = p.lock fd t in
        let text = pid_text u in
        let (written, v) = k.write fd text u in
        if locked
        then (
          elim written [ none ↦ negsuc 0 | some n ↦ if n == length text then pos 0 else negsuc 0 ],
          k.close fd v,
        )
        else (negsuc 0, u)
  ]

  -- What is done with the bytes that were read into an array that held `old`.
  abbrev pub pid_of : List ℕ → List ℕ → ℤ
  pid_of old [] = negsuc 0
  pid_of old (b ∷ bytes) =
      elim (line_of (take 63 ((b ∷ bytes) ++ drop (length (b ∷ bytes)) old) ++ (0 ∷ []))) [
        | none ↦ negsuc 0
        | some line ↦ atoi line
      ]

  -- `GetPidFromFile(pidfile)`.
  unfoldable pub get_pid_from_file : List ℕ → List ℕ → S → ℤ × S
  unfolding line_of atoi
  get_pid_from_file old name s = elim (k.open_read name s) [
    | none ↦ (negsuc 0, s)
    | some (fd, t) ↦
        let (got, u) = k.read fd 64 t in
        (elim got [ none ↦ negsuc 0 | some bytes ↦ pid_of old bytes ], k.close fd u)
  ]

  abbrev pub is_sent : Killed → Bool
  is_sent sent = true
  is_sent other = false

  abbrev pub is_missing : Killed → Bool
  is_missing missing = true
  is_missing other = false

  -- The loop of `DaemonStop`, with the rounds that are left.
  unfoldable pub stop_loop : ℕ → ℤ → List ℕ → S → ℤ × S
  stop_loop zero pid name s = (negsuc 0, s)
  stop_loop (suc n) pid name s =
      let (answer, t) = p.kill pid sigquit (p.pause s) in
      let rest = stop_loop n pid name t in if is_sent answer then rest else (pos 0, p.unlink name t)

  -- `DaemonStop(pidfile)`.
  unfoldable pub daemon_stop : List ℕ → List ℕ → S → ℤ × S
  unfolding get_pid_from_file
  daemon_stop old name s =
      let (pid, t) = get_pid_from_file old name s in
      let (answer, u) = p.kill pid sigquit t in
      if ltb_ℤ (pos 0) pid
      then (if is_sent answer then stop_loop 1000 pid name u else (negsuc 0, u))
      else (negsuc 0, t)

  -- `DaemonStart` from the second `fork` on, in the process that goes on.
  unfoldable pub become_daemon : List ℕ → S → ℤ × S
  unfolding write_pid_file
  become_daemon name s =
      let (ret, t) = write_pid_file name s in
      if eq_ℤ ret (pos 0)
      then elim (p.open_null t) [
        | none ↦ (negsuc 0, t)
        | some (fd, u) ↦ (pos 0, k.close fd (p.dup2 fd 1 (p.dup2 fd 0 u)))
      ]
      else (ret, t)

  -- `DaemonStart` behind its checks.
  unfoldable pub fork_twice : List ℕ → S → Outcome S
  unfolding become_daemon
  fork_twice name s =
      let (first, t) = p.fork s in
      let (second, u) = p.fork (p.setsid t) in
      let (ret, v) = become_daemon name u in
      if ltb_ℤ (pos 0) first
      then exited 0 t
      else if ltb_ℤ (pos 0) second
      then exited 0 u
      else returned ret v

  -- `DaemonStart(pidfile)`.
  unfoldable pub daemon_start : List ℕ → List ℕ → S → Outcome S
  unfolding get_pid_from_file
  daemon_start old name s =
      let (pid, t) = get_pid_from_file old name s in
      let (answer, u) = p.kill pid 0 t in
      if ltb_ℤ (pos 0) pid
      then (if is_missing answer
          then (if p.getppid u == 1 then returned (negsuc 0) u else fork_twice name u)
          else returned (negsuc 0) u)
      else if p.getppid t == 1
      then returned (negsuc 0) t
      else fork_twice name t

  -- `DaemonRestart(pidfile)`; each call finds what its array holds.
  unfoldable pub daemon_restart : List ℕ → List ℕ → S → Outcome S
  unfolding get_pid_from_file daemon_stop daemon_start
  daemon_restart old name s =
      let (pid, t) = get_pid_from_file old name s in
      let (answer, u) = p.kill pid 0 t in
      let (ret, v) = daemon_stop old name u in
      if ltb_ℤ (pos 0) pid
      then elim answer [
        | sent ↦ if ltb_ℤ ret (pos 0) then returned ret v else daemon_start old name v
        | forbidden ↦ returned (negsuc 0) u
        | missing ↦ daemon_start old name u
      ]
      else daemon_start old name t

  -- The end of `DaemonProcess`.
  abbrev pub exit_unless_zero : Outcome S → Outcome S
  exit_unless_zero (exited code s) = exited code s
  exit_unless_zero (returned ret s) = if eq_ℤ ret (pos 0) then returned ret s else exited 1 s

  -- `DaemonProcess(cmd, pidfile)`; a null pointer is none.
  unfoldable pub daemon_process : Option (List ℕ) → List ℕ → List ℕ → S → Outcome S
  unfolding daemon_start daemon_stop daemon_restart eq_bytes
  daemon_process none old name s = exit_unless_zero (daemon_start old name s)
  daemon_process (some cmd) old name s =
      let (ret, t) = daemon_stop old name s in
      if eq_bytes cmd (bytes_of "start")
      then exit_unless_zero (daemon_start old name s)
      else if eq_bytes cmd (bytes_of "stop")
      then (if eq_ℤ ret (pos 0) then exited 0 t else exited 1 t)
      else if eq_bytes cmd (bytes_of "restart")
      then exit_unless_zero (daemon_restart old name s)
      else exited 1 s
