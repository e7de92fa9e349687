-- ===== src/Raft/Cluster/Tests.antt =====
-- An election of raft/node.cc over RPC among three nodes.
use jnet.Base.{
  ℕ, zero, suc, ◌+◌, ◌≡◌, refl, true, false, some, List, [], ◌∷◌, ◌++◌, arith, ◌==◌, if◌then◌else◌,
  Bool, ltb, ◌/◌,
}
use jnet.Base.Int.{ℤ, pos, negsuc, ◌-ℤ◌, ◌+ℤ◌}
use jnet.Base.Assoc.{bytes_key, put, lookup, eq_bytes}
use jnet.Rpc.Channel.{RpcChannel, new, register_service, on_connection, service_of}
use jnet.Raft.Entry.{RequestVoteRequest, RequestVoteResponse}
use jnet.Raft.Log
use jnet.Raft.Node as Core
use jnet.Raft.Node.{Raft, leader, candidater, follower, vote_request, propose}
use jnet.Raft.Node.Election.{run_replies, votes}
use jnet.Raft.Cluster
use jnet.Raft.Cluster.{Protobuf, IsProtobuf, Node, serve}
use jnet.Raft.Cluster.Election.{collect, Answers, AreSmall, collect-propose}
use jnet.Raft.Cluster.Outcome.{collect-propose-candidater}
use jnet.Raft.Cluster.Votes.{question, serve-queued}
use jnet.Rpc.Channel.Trip.{response_message}

abbrev sign : ℤ → ℕ
sign (pos n) = 0
sign (negsuc n) = 1

abbrev size : ℤ → ℕ
size (pos n) = n
size (negsuc n) = n

abbrev int : ℕ → ℕ → ℤ
int zero n = pos n
int (suc m) n = negsuc n

int_lem : (z : ℤ) → int (sign z) (size z) ≡ z
int_lem (pos n) = refl
int_lem (negsuc n) = refl

abbrev request_bytes : RequestVoteRequest → List ℕ
request_bytes r =
    sign r.term
    ∷ size r.term
    ∷ sign r.peer_id
    ∷ size r.peer_id
    ∷ sign r.candidate_id
    ∷ size r.candidate_id
    ∷ sign r.last_log_index
    ∷ size r.last_log_index
    ∷ sign r.last_log_term
    ∷ size r.last_log_term
    ∷ []

abbrev request : ℤ → ℤ → ℤ → ℤ → ℤ → RequestVoteRequest
request term peer_id candidate_id last_log_index last_log_term = record {
  term = term;
  peer_id = peer_id;
  candidate_id = candidate_id;
  last_log_index = last_log_index;
  last_log_term = last_log_term;
}

abbrev request_of : List ℕ → RequestVoteRequest
request_of (a ∷ b ∷ c ∷ d ∷ e ∷ f ∷ g ∷ h ∷ i ∷ j ∷ rest) =
    request (int a b) (int c d) (int e f) (int g h) (int i j)
request_of other = request (pos 0) (pos 0) (pos 0) (pos 0) (pos 0)

abbrev bit : Bool → ℕ
bit false = 0
bit true = 1

abbrev reply_bytes : RequestVoteResponse → List ℕ
reply_bytes r =
    sign r.term ∷ size r.term ∷ bit r.vote_granted ∷ sign r.peer_id ∷ size r.peer_id ∷ []

abbrev reply : ℤ → Bool → ℤ → RequestVoteResponse
reply term granted id = record { term = term; vote_granted = granted; peer_id = id }

abbrev reply_of : List ℕ → RequestVoteResponse
reply_of (a ∷ b ∷ granted ∷ c ∷ d ∷ rest) = reply (int a b) (granted == 1) (int c d)
reply_of other = reply (pos 0) false (pos 0)

abbrev protobuf : Protobuf
protobuf = record {
  service_name = 82 ∷ [];
  method_name = 86 ∷ [];
  find_method = λ service name. some 1;
  request_bytes = request_bytes;
  parse = λ method body. some body;
  request_of = request_of;
  reply_bytes = reply_bytes;
  reply_of = reply_of;
  unset_bytes = [];
}

bit_lem : (b : Bool) → (bit b == 1) ≡ b
bit_lem false = refl
bit_lem true = refl

protobuf-IsProtobuf : IsProtobuf protobuf
protobuf-IsProtobuf = record {
  method_of_name = λ service. refl;
  parse_request = λ r. (
    request_bytes r,
    refl,
    cc (
      int_lem r.term,
      int_lem r.peer_id,
      int_lem r.candidate_id,
      int_lem r.last_log_index,
      int_lem r.last_log_term,
    ),
  );
  parse_reply = λ r. cc (int_lem r.term, bit_lem r.vote_granted, int_lem r.peer_id);
}

-- A node of a cluster of three; its log begins at index -1 and has the given terms.
abbrev raft_of : ℤ → List (ℕ × ℤ) → Raft Unit
raft_of id terms = record {
  heartbeat_timeout = pos 0;
  election_timeout = pos 0;
  randomized_election_timeout = pos 0;
  elpased_time = pos 0;
  role = follower;
  current_term = pos 0;
  voted_for = negsuc 0;
  logs = record { first_index = negsuc 0; bytes = 60; offset_term = terms; storage = tt };
  commit_index = pos 0;
  last_applied = pos 0;
  next_index = [];
  match_index = [];
  peers = 2;
  id = id;
  voted = pos 0;
}

abbrev node : ℕ → List (ℕ × ℤ) → Node Unit
node id terms = record {
  raft = raft_of (pos id) terms;
  queued = [];
  peers = new 0 ∷ new 7 ∷ [];
  allocated = 0;
}

-- A server that knows the service under the number 5.
abbrev server : RpcChannel
server = on_connection (register_service (82 ∷ []) 5 []) 0

abbrev one : List (ℕ × ℤ)
one = (8, pos 4) ∷ []

abbrev two : List (ℕ × ℤ)
two = (8, pos 4) ∷ (30, pos 5) ∷ []

abbrev voters : List (Node Unit × RpcChannel)
voters = (node 1 one, server) ∷ (node 2 two, server) ∷ []

abbrev replies : List RequestVoteResponse
replies = reply (pos 0) true (pos 1) ∷ reply (pos 0) false (pos 2) ∷ []

abbrev candidate : Node Unit
candidate = node 3 []

candidate-AreSmall : AreSmall 0 candidate.peers
unfolding new
candidate-AreSmall zero ch low at = ground arith
candidate-AreSmall (suc zero) ch low at = ground arith
candidate-AreSmall (suc (suc j)) ch low at = ground arith

server-services : service_of server.services (82 ∷ []) ≡ some 5
unfolding register_service on_connection new put lookup eq_bytes
server-services = refl

voters-Answers : Answers protobuf (vote_request (propose candidate.raft []).0) voters replies
unfolding propose Core.to_candidater Core.request_vote Core.newest_log Log.term_of Log.valid_index
    Log.last_index ◌-ℤ◌ ◌+ℤ◌
voters-Answers = (
  (5, server-services),
  (record (raft_of (pos 1) one) { voted_for = pos 3 }, refl),
  ((5, server-services), (raft_of (pos 2) two, refl), tt),
)

collect-propose_example :
    (asking : Node Unit) × (done : Node Unit) × (Cluster.propose protobuf [] candidate
      ≡ some asking)
    × (collect protobuf 0 voters asking ≡ some done)
    × (done.raft ≡ run_replies (propose candidate.raft []).0 replies)
    × (done.raft.role ≡ (
        if ltb
          ((candidate.raft.peers + 1) / 2)
          (1 + votes (candidate.raft.current_term +ℤ pos 1) replies)
        then leader
        else candidater))
collect-propose_example =
    collect-propose protobuf protobuf-IsProtobuf candidate [] voters replies refl refl (omega arith)
      (omega arith) candidate-AreSmall voters-Answers

collect-propose-candidater_example :
    (asking : Node Unit) × (done : Node Unit) × (Cluster.propose protobuf [] candidate
      ≡ some asking)
    × (collect protobuf 0 voters asking ≡ some done)
    × (done.raft.role ≡ candidater)
collect-propose-candidater_example =
    collect-propose-candidater protobuf protobuf-IsProtobuf candidate [] voters replies refl refl
      (omega arith) (omega arith) candidate-AreSmall voters-Answers

serve-queued-test :
    (e : RpcChannel) × (serve protobuf false
        (question protobuf (vote_request (raft_of (pos 3) [])) (new 4))
        (node 1 one)
        server
      ≡ some (record (node 1 one) { queued = vote_request (raft_of (pos 3) []) ∷ [] }, e))
    × (e.sent ≡ server.sent ++ (response_message (new 4).id [] ∷ []))
serve-queued-test =
    serve-queued protobuf protobuf-IsProtobuf (vote_request (raft_of (pos 3) [])) (new 4) server
      (node 1 one) 5 server-services
