-- ===== src/Raft/Node/Election.antt =====
-- Elections in raft/raft.cc: what a candidate asks, and when it takes the lead.
use jnet.Base.{
  ℕ, suc, ◌+◌, ◌/◌, ◌^◌, ◌≤◌, ◌<◌, ◌≡◌, refl, ap, ◌∙◌, inl, inr, Bool, true, false, not, ◌&&◌, some,
  List, [], ◌∷◌, arith, dec_lt, if◌then◌else◌, Bool-cases, length, ltb,
}
use jnet.Base.Int.{ℤ, pos, ◌+ℤ◌, ltb_ℤ}
use jnet.Base.Bytes.{to_u64}
use jnet.Raft.Entry.{RequestVoteResponse}
use jnet.Raft.Log.{last_index, valid_index}
use jnet.Raft.Log.Index.{term_of_lem}
use jnet.Raft.Node.{
  Raft, leader, candidater, request_vote, newest_log, on_request_vote, to_candidater, vote_request,
  majority, start_request_vote, propose, call_peers,
}

-- Replies handled one after another.
unfoldable pub run_replies : {S : Type 0} → Raft S → List RequestVoteResponse → Raft S
run_replies s [] = s
run_replies s (r ∷ rs) = run_replies (on_request_vote s r) rs

-- A reply that counts: the vote was granted, in this term or a later one.
abbrev pub counts : ℤ → RequestVoteResponse → Bool
counts term r = r.vote_granted && not (ltb_ℤ r.term term)

abbrev pub votes : ℤ → List RequestVoteResponse → ℕ
votes term [] = 0
votes term (r ∷ rs) = if counts term r then suc (votes term rs) else votes term rs

module _ {S : Type 0} where
  on_request_vote-leader :
      (s : Raft S) (r : RequestVoteResponse) → s.role ≡ leader → on_request_vote s r ≡ s
  unfolding on_request_vote
  on_request_vote-leader s r l = ground arith

  run_replies-leader :
      (s : Raft S) (rs : List RequestVoteResponse) → s.role ≡ leader → run_replies s rs ≡ s
  unfolding run_replies
  run_replies-leader s [] l = refl
  run_replies-leader s (r ∷ rs) l =
      ap (λ t. run_replies t rs) (on_request_vote-leader s r l) ∙ run_replies-leader s rs l

  on_request_vote-skips :
      (s : Raft S) (r : RequestVoteResponse)
      → counts s.current_term r ≡ false
      → on_request_vote s r ≡ s
  unfolding on_request_vote
  on_request_vote-skips s r h = ground arith

  on_request_vote-counts :
      (s : Raft S) (r : RequestVoteResponse) (v : ℕ)
      → s.role ≡ candidater
      → s.voted ≡ pos v
      → suc v < 2 ^ 63
      → counts s.current_term r ≡ true
      → on_request_vote s r ≡ (
          if ltb ((s.peers + 1) / 2) (suc v)
          then record s { voted = pos (suc v); role = leader }
          else record s { voted = pos (suc v) })
  unfolding on_request_vote majority to_u64 ◌+ℤ◌
  on_request_vote-counts s r v c e small h = ground arith

  -- A candidate with `v` votes so far.
  run_replies-candidater :
      (s : Raft S) (rs : List RequestVoteResponse) (v : ℕ)
      → s.role ≡ candidater
      → s.voted ≡ pos v
      → v ≤ (s.peers + 1) / 2
      → v + length rs < 2 ^ 63
      → (run_replies s rs).role
        ≡ (if ltb ((s.peers + 1) / 2) (v + votes s.current_term rs) then leader else candidater)
  unfolding run_replies
  run_replies-candidater s [] v c e low small = ground arith
  run_replies-candidater s (r ∷ rs) v c e low small = elim (Bool-cases (counts s.current_term r)) [
    | inl counted ↦
        let step = on_request_vote-counts s r v c e (omega arith) counted in
        elim (dec_lt ((s.peers + 1) / 2) (suc v)) [
          | yes enough ↦ ground (
            arith,
            step,
            run_replies-leader (record s { voted = pos (suc v); role = leader }) rs refl,
          )
          | no few ↦ ground (
            arith,
            step,
            run_replies-candidater (record s { voted = pos (suc v) }) rs (suc v) c refl
                (omega arith) (omega arith),
          )
        ]
    | inr skipped ↦ ground (
      arith,
      on_request_vote-skips s r skipped,
      run_replies-candidater s rs v c e low (omega arith),
    )
  ]

  to_candidater_lem :
      (s : Raft S)
      → let (t, calls) = to_candidater s in
        (t.role ≡ candidater)
        × (t.current_term ≡ s.current_term +ℤ pos 1)
        × (t.voted_for ≡ s.id)
        × (t.voted ≡ pos 1)
        × (t.peers ≡ s.peers)
        × (calls ≡ call_peers s.peers 0 (vote_request t))
  unfolding to_candidater start_request_vote
  to_candidater_lem s = (refl, refl, refl, refl, refl, refl)

  -- A node that proposes, in a cluster with other nodes: after any replies it is the leader exactly
  -- if its own vote and the granted replies of its term or a later one are a majority of the
  -- cluster, and a candidate otherwise.
  pub run_replies-propose :
      (s : Raft S) (cmd : List ℕ) (rs : List RequestVoteResponse)
      → 1 ≤ s.peers
      → 1 + length rs < 2 ^ 63
      → (run_replies (propose s cmd).0 rs).role ≡ (
          if ltb ((s.peers + 1) / 2) (1 + votes (s.current_term +ℤ pos 1) rs)
          then leader
          else candidater)
  unfolding propose to_candidater
  run_replies-propose s cmd rs others small =
      run_replies-candidater (to_candidater s).0 rs 1 refl refl (omega arith) small

  -- A node whose log reaches index 0 or further refuses the request of `StartRequestVote`, always:
  -- the request names the empty log, and `Term` returns 0 for every entry.
  pub request_vote-vote_request :
      (s t : Raft S) (i : ℤ)
      → last_index s.logs ≡ i
      → valid_index s.logs i ≡ true
      → ltb_ℤ i (pos 0) ≡ false
      → request_vote s (vote_request t)
        ≡ some (s, record { term = s.current_term; vote_granted = false; peer_id = s.id })
  unfolding request_vote newest_log
  request_vote-vote_request s t i e v h = ground (arith, term_of_lem s.logs i)
