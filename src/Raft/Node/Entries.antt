-- ===== src/Raft/Node/Entries.antt =====
-- Replication in raft/raft.cc: what `AppendEntries` accepts and what it changes.
use jnet.Base.{
  ℕ, ◌≡◌, ◌≢◌, refl, ap, ◌∙◌, ◌⊎◌, inl, inr, true, false, not, ◌||◌, some, List, [], arith,
  if◌then◌else◌, Bool-cases, Option-cases, length,
}
use jnet.Base.Int.{ℤ, pos, ◌+ℤ◌, ◌-ℤ◌, ◌≤ℤ◌, ltb_ℤ, ℤ-cases}
use jnet.Raft.Storage.{Storage}
use jnet.Raft.Entry.{LogEntry, AppendEntriesRequest, AppendEntriesResponse}
use jnet.Raft.Log.{valid_index, contain_log}
use jnet.Raft.Node.{Raft, append_entries, accept_entries, append_reply, min_ℤ}

commit_bounds :
    (old commited last : ℤ)
    → let new = if ltb_ℤ old commited then min_ℤ commited last else old in
      (new ≡ old) ⊎ ((new ≤ℤ commited) × (new ≤ℤ last))
commit_bounds old commited last = elim (Bool-cases (ltb_ℤ old commited)) [
  | inl more ↦ rw more (inr (ground arith))
  | inr same ↦ rw same (inl refl)
]

commit_before :
    (old commited last : ℤ)
    → ltb_ℤ old commited ≡ true
    → ltb_ℤ last old ≡ true
    → min_ℤ commited last ≡ last
commit_before old commited last more before = ground arith

module _ {S : Type 0} (disk : Storage S) (serialize : LogEntry → List ℕ) where
  -- A request of an older term, or one whose previous entry the log does not have, is refused and
  -- changes nothing.
  pub append_entries-refused :
      (s : Raft S) (r : AppendEntriesRequest)
      → (ltb_ℤ r.term s.current_term || not (contain_log s.logs r.prev_log_index r.prev_log_term))
        ≡ true
      → append_entries disk serialize s r ≡ some (s, append_reply s (some false))
  unfolding append_entries
  append_entries-refused s r h = ground arith

  -- A node with an empty log refuses every `AppendEntries`, so it never takes a first entry.
  pub append_entries-empty :
      (s : Raft S) (r : AppendEntriesRequest)
      → s.logs.offset_term ≡ []
      → append_entries disk serialize s r ≡ some (s, append_reply s (some false))
  unfolding append_entries contain_log valid_index
  append_entries-empty s r e = elim (ℤ-cases (r.prev_log_index -ℤ s.logs.first_index)) [
    | inl (n, at) ↦ ground (arith, ap length e)
    | inr (n, at) ↦ ground arith
  ]

  accept_entries-commit :
      (s t : Raft S) (r : AppendEntriesRequest)
      → accept_entries disk serialize s r ≡ some t
      → (t.commit_index ≡ (
          if ltb_ℤ s.commit_index r.commited_index
          then min_ℤ r.commited_index (r.prev_log_index +ℤ pos 1)
          else s.commit_index))
        × (t.current_term ≡ s.current_term)
        × (t.voted_for ≡ s.voted_for)
        × (t.role ≡ s.role)
  unfolding accept_entries
  accept_entries-commit s t r h = ground arith

  -- Whatever `AppendEntries` does, the commit index stays or becomes one that is at most what the
  -- leader has committed and at most the index behind the previous entry; the term, the vote and the
  -- role stay as they are; and the reply never says that the request succeeded.
  pub append_entries-commit :
      (s t : Raft S) (r : AppendEntriesRequest) (reply : AppendEntriesResponse)
      → append_entries disk serialize s r ≡ some (t, reply)
      → ((t.commit_index ≡ s.commit_index)
          ⊎ ((t.commit_index ≤ℤ r.commited_index) × (t.commit_index ≤ℤ r.prev_log_index +ℤ pos 1)))
        × (t.current_term ≡ s.current_term)
        × (t.voted_for ≡ s.voted_for)
        × (t.role ≡ s.role)
        × (reply.success ≢ some true)
  unfolding append_entries
  append_entries-commit s t r reply h = elim (Option-cases (accept_entries disk serialize s r)) [
    | inl stuck ↦ ground arith
    | inr (u, e) ↦ ground (
      arith,
      accept_entries-commit s u r e,
      commit_bounds s.commit_index r.commited_index (r.prev_log_index +ℤ pos 1),
    )
  ]

  -- The commit index can fall: an accepted request whose entries stand before the commit index, sent
  -- by a leader that has committed more, moves it back to the index of those entries.
  pub append_entries-commit_falls :
      (s t : Raft S) (r : AppendEntriesRequest) (reply : AppendEntriesResponse)
      → append_entries disk serialize s r ≡ some (t, reply)
      → reply.success ≢ some false
      → ltb_ℤ s.commit_index r.commited_index ≡ true
      → ltb_ℤ (r.prev_log_index +ℤ pos 1) s.commit_index ≡ true
      → (t.commit_index ≡ r.prev_log_index +ℤ pos 1) × (ltb_ℤ t.commit_index s.commit_index ≡ true)
  unfolding append_entries
  append_entries-commit_falls s t r reply h ok more before =
      elim (Option-cases (accept_entries disk serialize s r)) [
        | inl stuck ↦ absurd (ground arith)
        | inr (u, e) ↦
            let done : t.commit_index ≡ r.prev_log_index +ℤ pos 1 = ground (
              arith,
              accept_entries-commit s u r e,
              commit_before s.commit_index r.commited_index (r.prev_log_index +ℤ pos 1),
            ) in
            (done, ap (λ c. ltb_ℤ c s.commit_index) done ∙ before)
      ]
