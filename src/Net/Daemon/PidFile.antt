-- ===== src/Net/Daemon/PidFile.antt =====
-- The pid file of net/daemon.cc: the number that one process writes is the one that another reads.
use jnet.Base.{
  ℕ, zero, suc, ◌^◌, ◌<◌, ◌≡◌, true, some, List, [], ◌∷◌, ◌++◌, arith, length, take, drop,
  append_assoc, length-append, take-short,
}
use jnet.Base.Int.{pos}
use jnet.Net.File.{Files}
use jnet.Net.Http.Text.{digits_from, decimal}
use jnet.Net.Http.Digits.{
  AllDigits, decimal-AllDigits, digits_from-decimal, length-decimal, atoi-digits,
}
use jnet.Net.Daemon.{Processes, line_of, pid_of, write_pid_file, get_pid_from_file}

line_of-digits :
    (n : ℕ) (xs ys zs : List ℕ)
    → AllDigits xs
    → length xs < n
    → line_of (take n (xs ++ 10 ∷ ys) ++ zs) ≡ some xs
unfolding line_of
line_of-digits zero xs ys zs digits short = absurd (omega arith)
line_of-digits (suc n) [] ys zs digits short = ground arith
line_of-digits (suc n) (x ∷ xs) ys zs (d, digits) short =
    ground (arith, d, line_of-digits n xs ys zs digits (omega arith))

module _ {S : Type 0} (k : Files S) (p : Processes S) where
  pid_of-digits :
      (old xs : List ℕ)
      → AllDigits xs
      → length xs < 63
      → pid_of k p old (xs ++ 10 ∷ []) ≡ pos (digits_from 0 xs)
  pid_of-digits old [] digits short =
      ground (arith, line_of-digits 63 [] (drop 1 old) (0 ∷ []) tt short, atoi-digits [] tt)
  pid_of-digits old (x ∷ xs) digits short =
      let behind = drop (length (x ∷ xs ++ 10 ∷ [])) old in
      ground (
        arith,
        append_assoc (x ∷ xs) (10 ∷ []) behind,
        line_of-digits 63 (x ∷ xs) behind (0 ∷ []) digits short,
        atoi-digits (x ∷ xs) digits,
      )

  -- What the calls do on a regular file that nothing else writes or locks.
  pub record IsRegular (content : List ℕ → S → List ℕ) : Type 0 where
    pub open_new_lock :
        (name : List ℕ) (s : S)
        → (fd : ℕ) × (t : S) × (u : S) × (k.open_new name s ≡ some (fd, t))
          × (p.lock fd t ≡ (true, u))
          × ((bytes : List ℕ)
              → (v : S) × (k.write fd bytes u ≡ (some (length bytes), v))
                × (content name (k.close fd v) ≡ bytes))
    pub open_read_whole :
        (name : List ℕ) (n : ℕ) (s : S)
        → (fd : ℕ) × (t : S) × (u : S) × (k.open_read name s ≡ some (fd, t))
          × (k.read fd n t ≡ (some (take n (content name s)), u))

  module _ (content : List ℕ → S → List ℕ) (law : IsRegular content) where
    -- A process that writes its pid file, on a regular file that no other process has locked, with a
    -- number below 10 ^ 20: the write reports success, and whoever reads the file then gets this
    -- number, whatever the array held before.
    pub get_pid_from_file-write_pid_file :
        (old name : List ℕ) (pid : ℕ) (s : S)
        → ((t : S) → p.getpid t ≡ pid)
        → pid < 10 ^ 20
        → (u : S) × (v : S) × (write_pid_file k p name s ≡ (pos 0, u))
          × (get_pid_from_file k p old name u ≡ (pos pid, v))
    unfolding write_pid_file get_pid_from_file
    get_pid_from_file-write_pid_file old name pid s same small =
        let (fd, t, u, opened, locked, writes) = law.open_new_lock name s in
        let (v, wrote, made) = writes (decimal 20 pid ++ 10 ∷ []) in
        let (fe, w, x, reopened, got) = law.open_read_whole name 64 (k.close fd v) in
        let digits = decimal-AllDigits 20 pid in
        let short = length-decimal 20 pid in
        (
          k.close fd v,
          k.close fe x,
          ground (arith, opened, locked, wrote, same u),
          ground (
            arith,
            reopened,
            got,
            made,
            take-short 64 (decimal 20 pid ++ 10 ∷ [])
                (omega (arith, short, length-append (decimal 20 pid) (10 ∷ []))),
            pid_of-digits old (decimal 20 pid) digits (omega (arith, short)),
            digits_from-decimal 20 pid small,
          ),
        )
