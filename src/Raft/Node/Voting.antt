-- ===== src/Raft/Node/Voting.antt =====
-- Votes in raft/raft.cc: whom a node votes for, and when a candidate takes the lead.
use jnet.Base.{
  ◌≡◌, refl, sym, ap, subst, ◌∙◌, ◌⊎◌, inl, inr, Bool, true, false, ◌||◌, Option, none, some, List,
  [], ◌∷◌, arith, Option-cases,
}
use jnet.Base.Int.{ℤ, pos, negsuc, ltb_ℤ, eq_ℤ, eq_ℤ→eq}
use jnet.Raft.Entry.{RequestVoteRequest, RequestVoteResponse}
use jnet.Raft.Node.{Raft, request_vote, newest_log}

-- Requests handled one after another: who asked, and whether the vote was granted.
unfoldable pub run_votes :
    {S : Type 0} → Raft S → List RequestVoteRequest → Option (List (ℤ × Bool))
run_votes s [] = some []
run_votes s (r ∷ rs) = elim (request_vote s r) [
  | none ↦ none
  | some (t, reply) ↦ elim (run_votes t rs) [
    | none ↦ none
    | some out ↦ some ((r.peer_id, reply.vote_granted) ∷ out)
  ]
]

-- Every vote that was granted went to `c`.
abbrev pub GrantsOnly : ℤ → List (ℤ × Bool) → Type 0
GrantsOnly c [] = Unit {0}
GrantsOnly c ((peer, granted) ∷ out) = (granted ≡ true → peer ≡ c) × GrantsOnly c out

-- No request comes from the id -1, by which `votedFor_` says that no vote was given.
abbrev pub FromPeers : List RequestVoteRequest → Type 0
FromPeers [] = Unit {0}
FromPeers (r ∷ rs) = (eq_ℤ r.peer_id (negsuc 0) ≡ false) × FromPeers rs

module _ {S : Type 0} where
  -- The outcomes of a request: refused with the node as it was, or granted to the node's choice.
  request_vote_cases :
      (s t : Raft S) (r : RequestVoteRequest) (reply : RequestVoteResponse)
      → request_vote s r ≡ some (t, reply)
      → ((reply.vote_granted ≡ false) × (t ≡ s))
        ⊎ ((reply.vote_granted ≡ true)
            × (t ≡ record s { voted_for = r.peer_id })
            × (ltb_ℤ s.current_term r.term ≡ true)
            × ((eq_ℤ s.voted_for (negsuc 0) || eq_ℤ s.voted_for r.peer_id) ≡ true)
            × (newest_log s r ≡ some true))
  unfolding request_vote
  request_vote_cases s t r reply h = ground arith

  -- What a run that begins with a request returns.
  run_votes-cons :
      (s : Raft S) (r : RequestVoteRequest) (rs : List RequestVoteRequest) (out : List (ℤ × Bool))
      → run_votes s (r ∷ rs) ≡ some out
      → (t : Raft S) × (reply : RequestVoteResponse) × (rest : List (ℤ × Bool)) × (request_vote s r
          ≡ some (t, reply))
        × (run_votes t rs ≡ some rest)
        × (out ≡ (r.peer_id, reply.vote_granted) ∷ rest)
  unfolding run_votes
  run_votes-cons s r rs out h = elim (Option-cases (request_vote s r)) [
    | inl stuck ↦ absurd (ground arith)
    | inr ((t, reply), e) ↦ elim (Option-cases (run_votes t rs)) [
      | inl stuck ↦ absurd (ground arith)
      | inr (rest, e') ↦ (t, reply, rest, e, e', ground arith)
    ]
  ]

  request_vote-keeps :
      (s t : Raft S) (r : RequestVoteRequest) (reply : RequestVoteResponse)
      → request_vote s r ≡ some (t, reply)
      → eq_ℤ s.voted_for (negsuc 0) ≡ false
      → (s.voted_for ≡ t.voted_for) × (reply.vote_granted ≡ true → r.peer_id ≡ s.voted_for)
  request_vote-keeps s t r reply e v = elim (request_vote_cases s t r reply e) [
    | inl (refused, same) ↦ (ap (λ (u : Raft S). u.voted_for) (sym same), λ g. cc)
    | inr (granted, next, newer, choice, log) ↦
        let mine : s.voted_for ≡ r.peer_id = eq_ℤ→eq s.voted_for r.peer_id (ground arith) in
        (mine ∙ ap (λ (u : Raft S). u.voted_for) (sym next), λ g. sym mine)
  ]

  -- A node that has voted stays with its candidate, whatever is asked of it.
  run_votes-voted :
      (s : Raft S) (rs : List RequestVoteRequest) (out : List (ℤ × Bool))
      → eq_ℤ s.voted_for (negsuc 0) ≡ false
      → run_votes s rs ≡ some out
      → GrantsOnly s.voted_for out
  unfolding run_votes
  run_votes-voted s [] out v h =
      let e : [] ≡ out = ground arith in subst (GrantsOnly s.voted_for) e tt
  run_votes-voted s (r ∷ rs) out v h =
      let (t, reply, rest, e, e', o) = run_votes-cons s r rs out h in
      let (same, mine) = request_vote-keeps s t r reply e v in
      rw o (
        mine,
        subst (λ c. GrantsOnly c rest) (sym same)
            (run_votes-voted t rs rest (ap (λ c. eq_ℤ c (negsuc 0)) (sym same) ∙ v) e'),
      )

  -- Requests for the vote that a node handles one straight after another, no other call between
  -- them, and none of them from the peer id -1, which marks that there is no vote yet: however many
  -- candidates they come from, the granted answers all go to one of them.
  pub run_votes-one_candidate :
      (s : Raft S) (rs : List RequestVoteRequest) (out : List (ℤ × Bool))
      → FromPeers rs
      → run_votes s rs ≡ some out
      → (c : ℤ) × GrantsOnly c out
  unfolding run_votes
  run_votes-one_candidate s [] out p h =
      let e : [] ≡ out = ground arith in (pos 0, subst (GrantsOnly (pos 0)) e tt)
  run_votes-one_candidate s (r ∷ rs) out p h =
      let (t, reply, rest, e, e', o) = run_votes-cons s r rs out h in
      elim (request_vote_cases s t r reply e) [
        | inl (refused, same) ↦
            let (c, g) = run_votes-one_candidate t rs rest p.1 e' in (c, rw o (λ g. cc, g))
        | inr (granted, next, newer, choice, log) ↦
            let mine : t.voted_for ≡ r.peer_id = ap (λ (u : Raft S). u.voted_for) next in
            (
              r.peer_id,
              rw o (
                λ g. refl,
                subst (λ c. GrantsOnly c rest) mine
                    (run_votes-voted t rs rest (ap (λ c. eq_ℤ c (negsuc 0)) mine ∙ p.0) e'),
              ),
            )
      ]
