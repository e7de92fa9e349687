-- ===== src/Raft/Cluster/Election.antt =====
-- An election over RPC (raft/node.cc): `Propose` at one node, its requests at the others, and their
-- answers back at the node.
use jnet.Base.{
  ℕ, zero, suc, ◌+◌, ◌/◌, ◌^◌, ◌<◌, ◌≤◌, ◌≡◌, refl, sym, ap, ◌∙◌, true, Option, none, some, List,
  [], ◌∷◌, ◌++◌, arith, if◌then◌else◌, ltb, length, get_elem?, set, get_elem?-set_self,
  get_elem?-set_ne, length-set, dec_lt, get_elem?-some,
}
use jnet.Base.Int.{pos, ◌+ℤ◌}
use jnet.Rpc.Channel.{RpcMessage, RpcChannel, service_of}
use jnet.Raft.Entry.{RequestVoteRequest, RequestVoteResponse}
use jnet.Raft.Node as Core
use jnet.Raft.Node.{Raft, leader, candidater, vote_request, call_peers, request_vote_call}
use jnet.Raft.Node.Election.{run_replies, votes, run_replies-propose}
use jnet.Raft.Cluster.{
  Protobuf, IsProtobuf, Node, peer_request_vote, make_call, make_calls, propose, serve, on_answer,
}
use jnet.Raft.Cluster.Votes.{question, answer, serve-question, on_answer-answer}

-- The newest message of a channel.
unfoldable pub newest : List RpcMessage → Option RpcMessage
newest [] = none
newest (m ∷ ms) = elim (newest ms) [ none ↦ some m | some n ↦ some n ]

newest-append : (ms : List RpcMessage) (m : RpcMessage) → newest (ms ++ (m ∷ [])) ≡ some m
unfolding newest
newest-append [] m = refl
newest-append (n ∷ ms) m = ground (arith, newest-append ms m)

-- The channels from `i` on give their next calls numbers that fit an `int`.
abbrev pub AreSmall : ℕ → List RpcChannel → Type 0
AreSmall i peers = (j : ℕ) (ch : RpcChannel) → i ≤ j → get_elem? peers j ≡ some ch → ch.id < 2 ^ 32

module _ (p : Protobuf) where
  -- `k` peers from `i` on have a request on the way.
  abbrev AreAsked : RequestVoteRequest → ℕ → ℕ → List RpcChannel → Type 0
  AreAsked r i k peers =
      (j : ℕ)
      → i ≤ j
      → j < i + k
      → (ch : RpcChannel) × (object : ℕ) × (ch.id < 2 ^ 32)
        × (get_elem? peers j ≡ some (peer_request_vote p r object ch))

  newest-peer_request_vote :
      (r : RequestVoteRequest) (object : ℕ) (ch : RpcChannel)
      → newest (peer_request_vote p r object ch).sent ≡ some (question p r ch)
  unfolding peer_request_vote
  newest-peer_request_vote r object ch = newest-append ch.sent (question p r ch)

module _ (p : Protobuf) {S : Type 0} where
  -- The peers from `i` on, each a node with the channel of its server: the newest message of the
  -- peer's channel at the one, the newest of the server's channel back at the candidate.
  unfoldable pub collect : ℕ → List (Node S × RpcChannel) → Node S → Option (Node S)
  unfolding newest serve on_answer
  collect i [] n = some n
  collect i ((voter, d) ∷ voters) n = elim (get_elem? n.peers i) [
    | none ↦ none
    | some ch ↦ elim (newest ch.sent) [
      | none ↦ none
      | some q ↦ elim (serve p true q voter d) [
        | none ↦ none
        | some (voter', e) ↦ elim (newest e.sent) [
          | none ↦ none
          | some a ↦ elim (on_answer p i a n) [ none ↦ none | some t ↦ collect (i + 1) voters t ]
        ]
      ]
    ]
  ]

  -- The voters' servers know the service, and `Raft::RequestVote` gives these replies.
  abbrev pub Answers :
      RequestVoteRequest → List (Node S × RpcChannel) → List RequestVoteResponse → Type 0
  Answers r [] [] = Unit {0}
  Answers r [] (reply ∷ replies) = ⊥
  Answers r (v ∷ voters) [] = ⊥
  Answers r ((voter, d) ∷ voters) (reply ∷ replies) =
      ((service : ℕ) × (service_of d.services p.service_name ≡ some service))
      × ((t : Raft S) × (Core.request_vote voter.raft r ≡ some (t, reply)))
      × Answers r voters replies

module _ (p : Protobuf) (law : IsProtobuf p) {S : Type 0} where
  collect_lem :
      (r : RequestVoteRequest) (i : ℕ) (voters : List (Node S × RpcChannel))
      (replies : List RequestVoteResponse) (n : Node S)
      → Answers p r voters replies
      → AreAsked p r i (length voters) n.peers
      → (t : Node S) × (collect p i voters n ≡ some t) × (t.raft ≡ run_replies n.raft replies)
  unfolding collect run_replies
  collect_lem r i [] [] n answered asked = (n, refl, refl)
  collect_lem r i [] (reply ∷ replies) n answered asked = absurd answered
  collect_lem r i (v ∷ voters) [] n answered asked = absurd answered
  collect_lem r i ((voter, d) ∷ voters) (reply ∷ replies) n ((service, at), (t, voted), others)
        asked =
      let (ch, object, small, here) = asked i (omega arith) (omega arith) in
      let (e, served, sent) = serve-question p law r ch d voter service t reply at voted in
      let (f, taken) = on_answer-answer p law r object i ch reply n small here in
      let m = record n { raft = Core.on_request_vote n.raft reply; peers = set n.peers i f } in
      let still : AreAsked p r (i + 1) (length voters) m.peers = λ j low high.
        let (c, o, less, there) = asked j (omega arith) (omega arith) in
        (c, o, less, get_elem?-set_ne n.peers f (λ e. omega (arith, e)) ∙ there) in
      let (u, done, result) = collect_lem r (i + 1) voters replies m others still in
      (
        u,
        ground (
          arith,
          here,
          newest-peer_request_vote p r object ch,
          served,
          sent,
          newest-append d.sent (answer p reply ch),
          taken,
          done,
        ),
        result,
      )

  make_calls-call_peers :
      (r : RequestVoteRequest) (k i : ℕ) (n : Node S)
      → i + k ≤ length n.peers
      → AreSmall i n.peers
      → (t : Node S) × (make_calls p (call_peers k i r) n ≡ some t)
        × (t.raft ≡ n.raft)
        × AreAsked p r i k t.peers
        × ((j : ℕ) → j < i → get_elem? t.peers j ≡ get_elem? n.peers j)
  unfolding make_calls make_call call_peers
  make_calls-call_peers r zero i n fits small =
      (n, refl, refl, λ j low high. absurd (omega arith), λ j low. refl)
  make_calls-call_peers r (suc k) i n fits small =
      let (ch, here) = get_elem?-some n.peers i (omega arith) in
      let asking = peer_request_vote p r n.allocated ch in
      let m = record n { peers = set n.peers i asking; allocated = n.allocated + 1 } in
      let later : AreSmall (i + 1) m.peers = λ j c low at.
        small j c (omega arith)
          (sym (get_elem?-set_ne n.peers asking (λ e. omega (arith, e))) ∙ at) in
      let (t, made, same, asked, before) =
        make_calls-call_peers r k (i + 1) m (omega (arith, length-set n.peers i asking)) later in
      (
        t,
        ground (arith, here, made),
        same,
        λ j low high. elim (dec_lt i j) [
          | yes further ↦ asked j (omega arith) (omega arith)
          | no first ↦ (
            ch,
            n.allocated,
            small i ch (omega arith) here,
            ap (get_elem? t.peers) {x = j} {y = i} (omega arith)
                ∙ before i (omega arith)
                ∙ get_elem?-set_self n.peers i asking (omega arith),
          )
        ],
        λ j low. before j (omega arith) ∙ get_elem?-set_ne n.peers asking (λ e. omega (arith, e)),
      )

  -- A node that proposes, with a peer for every other node of its cluster, at least one and less than
  -- 2 ^ 63 - 1, and channels that are below 2 ^ 32 calls. The peers are nodes in the threads of their
  -- loops, whose servers know the service, and `Raft::RequestVote` on the request gives these replies
  -- there. Then `Propose` sends its requests and every peer answers; no assertion fails and every
  -- answer is handled, the reference to the ended request that its closure binds and nobody reads
  -- through taken as harmless; and the node's state is the one that the same replies give without any
  -- RPC, and it leads exactly if its own vote and the granted ones of its term or a later one are a
  -- majority.
  pub collect-propose :
      (n : Node S) (cmd : List ℕ) (voters : List (Node S × RpcChannel))
      (replies : List RequestVoteResponse)
      → n.raft.peers ≡ length n.peers
      → length voters ≡ length n.peers
      → 1 ≤ length n.peers
      → 1 + length replies < 2 ^ 63
      → AreSmall 0 n.peers
      → Answers p (vote_request (Core.propose n.raft cmd).0) voters replies
      → (asking : Node S) × (done : Node S) × (propose p cmd n ≡ some asking)
        × (collect p 0 voters asking ≡ some done)
        × (done.raft ≡ run_replies (Core.propose n.raft cmd).0 replies)
        × (done.raft.role ≡ (
            if ltb ((n.raft.peers + 1) / 2) (1 + votes (n.raft.current_term +ℤ pos 1) replies)
            then leader
            else candidater))
  unfolding propose Core.propose Core.to_candidater Core.start_request_vote
  collect-propose n cmd voters replies cluster all others few small answered =
      let started = (Core.propose n.raft cmd).0 in
      let r = vote_request started in
      let (asking, made, same, asked, before) =
        make_calls-call_peers r n.raft.peers 0 (record n { raft = started })
          (omega (arith, cluster)) small in
      let (done, collected, result) =
        collect_lem r 0 voters replies asking answered
          (λ j low high. asked j low (omega (arith, cluster, all))) in
      let after = result ∙ ap (λ s. run_replies s replies) same in
      (
        asking,
        done,
        made,
        collected,
        after,
        ap (λ s. s.role) after
            ∙ run_replies-propose n.raft cmd replies (omega (arith, cluster)) few,
      )
