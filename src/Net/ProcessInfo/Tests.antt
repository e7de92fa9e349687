-- ===== src/Net/ProcessInfo/Tests.antt =====
-- Texts of /proc as net/processinfo.cc reads them.
use jnet.Base.{ℕ, ◌≡◌, refl, List, [], ◌∷◌, ◌++◌, arith}
use jnet.Base.Int.{pos}
use jnet.Net.Http.Text.{bytes_of, find_at, starts_with}
use jnet.Net.ProcessInfo.{opened_files, threads, proc_name, num_threads}
use jnet.Net.ProcessInfo.Fields.{proc_name_lem}

-- The program "a)b" as process 7.
proc_name_lem-test :
    proc_name (bytes_of "7 " ++ 40 ∷ (bytes_of "a)b" ++ 41 ∷ bytes_of " S")) ≡ bytes_of "a)b"
proc_name_lem-test =
    proc_name_lem (bytes_of "7 ") (bytes_of "a)b") (bytes_of " S")
      ((λ e. omega (arith, e)), ((λ e. omega (arith, e)), tt))
      ((λ e. omega (arith, e)), ((λ e. omega (arith, e)), tt))

abbrev entries : List (List ℕ)
entries = bytes_of "." ∷ bytes_of ".." ∷ bytes_of "12" ∷ bytes_of "7" ∷ []

two-files : opened_files entries ≡ 2
unfolding opened_files
two-files = refl

sorted-threads : threads entries ≡ pos 7 ∷ pos 12 ∷ []
unfolding threads
sorted-threads = refl

three-threads : num_threads (bytes_of "Tgid: 1\nThreads:\t3\n") ≡ pos 3
unfolding num_threads find_at starts_with
three-threads = refl
