-- ===== src/Raft/Cluster.antt =====
-- raft/node.cc, raft/raft_peer.cc and raft/raft_service.cc: a node as a server and a client of RPCs.
-- A channel of rpc/protorpc stands for a connection. `none` is undefined behaviour or a failed
-- assertion, with one exception: the closure of a vote request keeps a pointer to the request, which
-- `StartRequestVote` has on its stack, and when the answer comes binds a reference to that object,
-- which has ended. Nothing reads through the reference, so the model goes on there (`ended_request`).
-- Messages and descriptors of protobuf are the parameter `Protobuf`.
pub mod Votes
pub mod Election
pub mod Outcome
mod Tests
use jnet.Base.{
  ℕ, zero, suc, ◌+◌, ◌≡◌, Bool, Option, none, some, List, [], ◌∷◌, ◌++◌, if◌then◌else◌, length,
  get_elem?, set, drop,
}
use jnet.Raft.Entry.{RequestVoteRequest, RequestVoteResponse}
use jnet.Raft.Node as Core
use jnet.Raft.Node.{Raft, PeerCall, request_vote_call, append_entries_call}
use jnet.Rpc.Channel.{
  RpcMessage, Run, Invocation, RpcChannel, call_method, on_rpc_message, done_callback,
}

-- What raft.proto's generated code offers: the names of the service and of its second method, the
-- methods by name, messages as bytes and as parsed objects. `unset_bytes` is what a response gives
-- of which no field is set.
pub record Protobuf : Type 0 where
  pub service_name : List ℕ
  pub method_name : List ℕ
  pub find_method : ℕ → List ℕ → Option ℕ
  pub request_bytes : RequestVoteRequest → List ℕ
  pub parse : ℕ → List ℕ → Option (List ℕ)
  pub request_of : List ℕ → RequestVoteRequest
  pub reply_bytes : RequestVoteResponse → List ℕ
  pub reply_of : List ℕ → RequestVoteResponse
  pub unset_bytes : List ℕ

-- Methods have their numbers in raft.proto's order, and a message is parsed as it was serialised.
pub record IsProtobuf (p : Protobuf) : Type 0 where
  pub method_of_name : (service : ℕ) → p.find_method service p.method_name ≡ some 1
  pub parse_request :
      (r : RequestVoteRequest)
      → (h : List ℕ) × (p.parse 1 (p.request_bytes r) ≡ some h) × (p.request_of h ≡ r)
  pub parse_reply : (reply : RequestVoteResponse) → p.reply_of (p.reply_bytes reply) ≡ reply

-- `queued` are the functors that other threads left with the loop, `peers` the channels of the
-- `RaftPeer`s, and `allocated` numbers the responses that are allocated.
pub record Node (S : Type 0) : Type 0 where
  pub raft : Raft S
  pub queued : List RequestVoteRequest
  pub peers : List RpcChannel
  pub allocated : ℕ

-- What a closure has of its request: a pointer to an object that has ended.
pub data RequestRef : Type 0 where
  ended_request : RequestRef

module _ (p : Protobuf) where
  -- `RaftPeer::RequestVote(request, reply)`; the closure goes by the number of the response.
  unfoldable pub peer_request_vote : RequestVoteRequest → ℕ → RpcChannel → RpcChannel
  unfolding call_method
  peer_request_vote r object ch =
      call_method p.service_name p.method_name (p.request_bytes r)
        (record { response = some object; done = object }) ch

  abbrev reply_or_unset : Option RequestVoteResponse → List ℕ
  reply_or_unset none = p.unset_bytes
  reply_or_unset (some reply) = p.reply_bytes reply

  module _ {S : Type 0} where
    -- A call of a peer with a new response. `RaftPeer::AppendEntries` only prints.
    unfoldable pub make_call : PeerCall → Node S → Option (Node S)
    unfolding peer_request_vote
    make_call (request_vote_call i r) n = elim (get_elem? n.peers i) [
      | none ↦ none
      | some ch ↦ some (record n {
        peers = set n.peers i (peer_request_vote r n.allocated ch);
        allocated = n.allocated + 1;
      })
    ]
    make_call (append_entries_call i r) n = some n

    unfoldable pub make_calls : List PeerCall → Node S → Option (Node S)
    unfolding make_call
    make_calls [] n = some n
    make_calls (call ∷ calls) n = elim (make_call call n) [
      | none ↦ none
      | some t ↦ make_calls calls t
    ]

    -- `Propose(str)`.
    unfoldable pub propose : List ℕ → Node S → Option (Node S)
    unfolding Core.propose make_calls
    propose cmd n =
        let (t, calls) = Core.propose n.raft cmd in make_calls calls (record n { raft = t })

    -- `RequestVote(request, reply)`: the reply, if this call fills it in. In another thread than the
    -- loop's the functor is queued and the caller goes on without it.
    unfoldable pub request_vote :
        Bool → RequestVoteRequest → Node S → Option (Node S × Option RequestVoteResponse)
    unfolding Core.request_vote
    request_vote in_loop r n =
        if in_loop
        then elim (Core.request_vote n.raft r) [
          | none ↦ none
          | some (t, reply) ↦ some (record n { raft = t }, some reply)
        ]
        else some (record n { queued = n.queued ++ (r ∷ []) }, none)

    -- The handlers of the service: `requestVote_(*request, response)` and `done->Run()`; those of
    -- `PreVote` and `AppendEntries` reach an empty body of the node.
    unfoldable pub handle_call :
        Bool → Invocation → Node S → RpcChannel → Option (Node S × RpcChannel)
    unfolding request_vote done_callback
    handle_call in_loop call n ch = elim call.method [
      | zero ↦ some (n, done_callback p.unset_bytes call.id ch)
      | suc zero ↦ elim (request_vote in_loop (p.request_of call.request) n) [
        | none ↦ none
        | some (t, reply) ↦ some (t, done_callback (reply_or_unset reply) call.id ch)
      ]
      | suc (suc zero) ↦ some (n, done_callback p.unset_bytes call.id ch)
      | suc (suc (suc m)) ↦ none
    ]

    unfoldable pub handle_calls :
        Bool → List Invocation → Node S → RpcChannel → Option (Node S × RpcChannel)
    unfolding handle_call
    handle_calls in_loop [] n ch = some (n, ch)
    handle_calls in_loop (call ∷ calls) n ch = elim (handle_call in_loop call n ch) [
      | none ↦ none
      | some (t, d) ↦ handle_calls in_loop calls t d
    ]

    -- A message that reaches a channel of the node's server.
    unfoldable pub serve : Bool → RpcMessage → Node S → RpcChannel → Option (Node S × RpcChannel)
    unfolding on_rpc_message handle_calls
    serve in_loop message n ch = elim (on_rpc_message p.find_method p.parse message ch) [
      | none ↦ none
      | some d ↦ handle_calls in_loop (drop (length ch.invoked) d.invoked) n d
    ]

    -- `RaftPeer::OnRequestVote(request, response)` and the node's, which pass the request on to
    -- `Raft::OnRequestVote`, which does not read it.
    abbrev peer_on_request_vote : RequestRef → RequestVoteResponse → Raft S → Raft S
    peer_on_request_vote request reply s = Core.on_request_vote s reply

    -- The closures that run, each with the request it was made for and the response.
    unfoldable pub run_closures : List Run → Raft S → Raft S
    unfolding Core.on_request_vote
    run_closures [] s = s
    run_closures (r ∷ rs) s =
        run_closures rs (peer_on_request_vote ended_request (p.reply_of r.reply) s)

    -- A message that reaches the channel of peer `i`.
    unfoldable pub on_answer : ℕ → RpcMessage → Node S → Option (Node S)
    unfolding on_rpc_message run_closures
    on_answer i message n = elim (get_elem? n.peers i) [
      | none ↦ none
      | some ch ↦ elim (on_rpc_message p.find_method p.parse message ch) [
        | none ↦ none
        | some d ↦ some (record n {
          raft = run_closures (drop (length ch.runs) d.runs) n.raft;
          peers = set n.peers i d;
        })
      ]
    ]
