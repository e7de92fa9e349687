-- ===== src/Net/Daemon/Start.antt =====
-- `DaemonStart` of net/daemon.cc while a daemon runs.
use jnet.Base.{ℕ, ◌^◌, ◌<◌, ◌≡◌, false, List, arith}
use jnet.Base.Int.{pos, negsuc}
use jnet.Net.File.{Files}
use jnet.Net.Daemon.{
  Processes, is_missing, write_pid_file, get_pid_from_file, daemon_start, returned,
}
use jnet.Net.Daemon.PidFile.{IsRegular, get_pid_from_file-write_pid_file}

daemon_start-refused :
    {S : Type 0} (k : Files S) (p : Processes S) (old name : List ℕ) (pid : ℕ) (s t : S)
    → get_pid_from_file k p old name s ≡ (pos pid, t)
    → 0 < pid
    → is_missing k p ((p.kill (pos pid) 0 t).0) ≡ false
    → daemon_start k p old name s ≡ returned (negsuc 0) ((p.kill (pos pid) 0 t).1)
unfolding daemon_start
daemon_start-refused k p old name pid s t read positive found = ground (arith, read, found)

module _ {S : Type 0} (k : Files S) (p : Processes S) (content : List ℕ → S → List ℕ)
    (law : IsRegular k p content) where
  -- A process that has written its pid file, on a regular file that no other process had locked, with
  -- a number above 0 and below 10 ^ 20, and that `kill` still finds: a start with the same pid file
  -- forks nothing and returns -1, whatever its array held before.
  pub daemon_start-write_pid_file :
      (old name : List ℕ) (pid : ℕ) (s : S)
      → ((t : S) → p.getpid t ≡ pid)
      → 0 < pid
      → pid < 10 ^ 20
      → ((t : S) → is_missing k p ((p.kill (pos pid) 0 t).0) ≡ false)
      → (u : S) × (v : S) × (write_pid_file k p name s ≡ (pos 0, u))
        × (daemon_start k p old name u ≡ returned (negsuc 0) ((p.kill (pos pid) 0 v).1))
  daemon_start-write_pid_file old name pid s same positive small found =
      let (u, v, wrote, read) =
        get_pid_from_file-write_pid_file k p content law old name pid s same small in
      (u, v, wrote, daemon_start-refused k p old name pid u v read positive (found v))
