-- ===== src/Net/Daemon/Stop.antt =====
-- `DaemonStop` of net/daemon.cc: how often a daemon is signalled, and when it counts as stopped.
use jnet.Base.{
  ℕ, zero, suc, ◌<◌, ◌≡◌, refl, ◌∙◌, ◌⊎◌, inl, inr, Bool, true, false, List, arith, Bool-cases,
}
use jnet.Base.Int.{ℤ, pos, negsuc}
use jnet.Net.File.{Files}
use jnet.Net.Daemon.{Processes, sent, is_sent, sigquit, stop_loop, get_pid_from_file, daemon_stop}

below : (P : ℕ → Type 0) {n : ℕ} → P 0 → ((j : ℕ) → j < n → P (suc j)) → (j : ℕ) → j < suc n → P j
below P first rest zero low = first
below P first rest (suc j) low = rest j (omega arith)

module _ {S : Type 0} (k : Files S) (p : Processes S) where
  -- The state behind `n` rounds of the loop, each a pause and a signal.
  unfoldable pub after_rounds : ℤ → ℕ → S → S
  after_rounds pid zero s = s
  after_rounds pid (suc n) s = after_rounds pid n ((p.kill pid sigquit (p.pause s)).1)

  -- Whether the signal of the next round still finds the process.
  abbrev pub is_there : ℤ → S → Bool
  is_there pid s = is_sent k p ((p.kill pid sigquit (p.pause s)).0)

  stop_loop_lem :
      (n : ℕ) (pid : ℤ) (name : List ℕ) (s : S)
      → ((i : ℕ) × (i < n)
          × ((j : ℕ) → j < i → is_there pid (after_rounds pid j s) ≡ true)
          × (is_there pid (after_rounds pid i s) ≡ false)
          × (stop_loop k p n pid name s ≡ (pos 0, p.unlink name (after_rounds pid (suc i) s))))
        ⊎ (((j : ℕ) → j < n → is_there pid (after_rounds pid j s) ≡ true)
            × (stop_loop k p n pid name s ≡ (negsuc 0, after_rounds pid n s)))
  unfolding stop_loop after_rounds
  stop_loop_lem zero pid name s = inr (λ j low. absurd (omega arith), refl)
  stop_loop_lem (suc n) pid name s = elim (Bool-cases (is_there pid s)) [
    | inr gone ↦ inl (0, omega arith, λ j low. absurd (omega arith), gone, ground (arith, gone))
    | inl there ↦ elim (stop_loop_lem n pid name ((p.kill pid sigquit (p.pause s)).1)) [
      | inl (i, low, before, gone, done) ↦ inl (
        suc i,
        omega arith,
        below (λ j. is_there pid (after_rounds pid j s) ≡ true) there before,
        gone,
        ground (arith, there, done),
      )
      | inr (always, done) ↦ inr (
        below (λ j. is_there pid (after_rounds pid j s) ≡ true) there always,
        ground (arith, there, done),
      )
    ]
  ]

  daemon_stop-stop_loop :
      (old name : List ℕ) (pid : ℕ) (s t u : S)
      → 0 < pid
      → get_pid_from_file k p old name s ≡ (pos pid, t)
      → p.kill (pos pid) sigquit t ≡ (sent, u)
      → daemon_stop k p old name s ≡ stop_loop k p 1000 (pos pid) name u
  unfolding daemon_stop
  daemon_stop-stop_loop old name pid s t u positive known first = ground (arith, known, first)

  -- A stop of a daemon whose pid file names a process that takes the first signal. Either some round
  -- of the next thousand, after a pause, is the first whose signal finds no process: then no more
  -- signals are sent, the pid file is unlinked and the result is 0. Or the signals of all thousand
  -- rounds find the process, the file stays, and the result is -1.
  pub daemon_stop-rounds :
      (old name : List ℕ) (pid : ℕ) (s t u : S)
      → 0 < pid
      → get_pid_from_file k p old name s ≡ (pos pid, t)
      → p.kill (pos pid) sigquit t ≡ (sent, u)
      → ((i : ℕ) × (i < 1000)
          × ((j : ℕ) → j < i → is_there (pos pid) (after_rounds (pos pid) j u) ≡ true)
          × (is_there (pos pid) (after_rounds (pos pid) i u) ≡ false)
          × (daemon_stop k p old name s
              ≡ (pos 0, p.unlink name (after_rounds (pos pid) (suc i) u))))
        ⊎ (((j : ℕ) → j < 1000 → is_there (pos pid) (after_rounds (pos pid) j u) ≡ true)
            × (daemon_stop k p old name s ≡ (negsuc 0, after_rounds (pos pid) 1000 u)))
  daemon_stop-rounds old name pid s t u positive known first =
      let begun = daemon_stop-stop_loop old name pid s t u positive known first in
      elim (stop_loop_lem 1000 (pos pid) name u) [
        | inl (i, low, before, gone, done) ↦ inl (i, low, before, gone, begun ∙ done)
        | inr (always, done) ↦ inr (always, begun ∙ done)
      ]
