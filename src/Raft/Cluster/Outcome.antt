-- ===== src/Raft/Cluster/Outcome.antt =====
-- The outcome of an election in raft/: what the voters' replies are worth at the candidate.
use jnet.Base.{ℕ, ◌+◌, ◌^◌, ◌<◌, ◌≤◌, ◌≡◌, refl, ◌∙◌, false, some, List, [], ◌∷◌, arith, length}
use jnet.Rpc.Channel.{RpcChannel}
use jnet.Raft.Entry.{RequestVoteRequest, RequestVoteResponse}
use jnet.Raft.Node as Core
use jnet.Raft.Node.{Raft, candidater, vote_request}
use jnet.Raft.Node.Election.{counts, votes}
use jnet.Raft.Cluster.{Protobuf, IsProtobuf, Node, propose}
use jnet.Raft.Cluster.Election.{AreSmall, Answers, collect, collect-propose}

module _ (p : Protobuf) {S : Type 0} where
  -- A granted reply bears the voter's term, which is below the candidate's.
  request_vote-counts :
      (s t : Raft S) (r : RequestVoteRequest) (reply : RequestVoteResponse)
      → Core.request_vote s r ≡ some (t, reply)
      → counts r.term reply ≡ false
  unfolding Core.request_vote
  request_vote-counts s t r reply voted = ground arith

  votes-Answers :
      (r : RequestVoteRequest) (voters : List (Node S × RpcChannel))
      (replies : List RequestVoteResponse)
      → Answers p r voters replies
      → votes r.term replies ≡ 0
  votes-Answers r [] [] answered = refl
  votes-Answers r [] (reply ∷ replies) answered = absurd answered
  votes-Answers r (v ∷ voters) [] answered = absurd answered
  votes-Answers r ((voter, d) ∷ voters) (reply ∷ replies) (known, (t, voted), others) =
      ground (
        arith,
        request_vote-counts voter.raft t r reply voted,
        votes-Answers r voters replies others,
      )

  -- An election in which every peer answers, for a node with a peer for every other node of its
  -- cluster and channels that are below 2 ^ 32 calls: whatever the logs and terms of the peers, and
  -- even if all of them vote for the node, it is a candidate after all the answers and no leader.
  pub collect-propose-candidater :
      (law : IsProtobuf p) (n : Node S) (cmd : List ℕ) (voters : List (Node S × RpcChannel))
      (replies : List RequestVoteResponse)
      → n.raft.peers ≡ length n.peers
      → length voters ≡ length n.peers
      → 1 ≤ length n.peers
      → 1 + length replies < 2 ^ 63
      → AreSmall 0 n.peers
      → Answers p (vote_request (Core.propose n.raft cmd).0) voters replies
      → (asking : Node S) × (done : Node S) × (propose p cmd n ≡ some asking)
        × (collect p 0 voters asking ≡ some done)
        × (done.raft.role ≡ candidater)
  unfolding Core.propose Core.to_candidater
  collect-propose-candidater law n cmd voters replies cluster all others few small answered =
      let (asking, done, made, collected, state, role) =
        collect-propose p law n cmd voters replies cluster all others few small answered in
      let none-counts =
        votes-Answers (vote_request (Core.propose n.raft cmd).0) voters replies answered in
      (asking, done, made, collected, role ∙ ground (arith, none-counts, cluster))
