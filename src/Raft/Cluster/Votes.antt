-- ===== src/Raft/Cluster/Votes.antt =====
-- A vote over RPC (raft/node.cc, raft/raft_peer.cc): the request at the voter, the answer at the
-- candidate.
use jnet.Base.{
  ℕ, ◌^◌, ◌<◌, ◌≡◌, refl, true, false, some, List, [], ◌∷◌, ◌++◌, arith, get_elem?, set,
  drop-append,
}
use jnet.Rpc.Channel.{
  RpcMessage, Invocation, RpcChannel, request_message, on_rpc_message, done_callback, service_of,
}
use jnet.Rpc.Channel.Trip.{response_message, call_method-answered, on_rpc_message-request_message}
use jnet.Raft.Entry.{RequestVoteRequest, RequestVoteResponse}
use jnet.Raft.Node as Core
use jnet.Raft.Node.{Raft}
use jnet.Raft.Cluster.{
  Protobuf, IsProtobuf, Node, peer_request_vote, request_vote, handle_call, handle_calls, serve,
  run_closures, on_answer,
}

abbrev started : ℕ → ℕ → List ℕ → ℕ → List Invocation
started service method r id =
    record { service = service; method = method; request = r; id = id } ∷ []

module _ (p : Protobuf) where
  -- The message that `RaftPeer::RequestVote` sends on a channel.
  abbrev pub question : RequestVoteRequest → RpcChannel → RpcMessage
  question r ch = request_message ch.id p.service_name p.method_name (p.request_bytes r)

  abbrev pub answer : RequestVoteResponse → RpcChannel → RpcMessage
  answer reply ch = response_message ch.id (p.reply_bytes reply)

  module _ (law : IsProtobuf p) {S : Type 0} where
    -- The voter answers with what `Raft::RequestVote` says, and votes as it does.
    pub serve-question :
        (r : RequestVoteRequest) (ch d : RpcChannel) (voter : Node S) (service : ℕ) (t : Raft S)
        (reply : RequestVoteResponse)
        → service_of d.services p.service_name ≡ some service
        → Core.request_vote voter.raft r ≡ some (t, reply)
        → (e : RpcChannel) × (serve p true (question r ch) voter d
            ≡ some (record voter { raft = t }, e))
          × (e.sent ≡ d.sent ++ (answer reply ch ∷ []))
    unfolding serve handle_calls handle_call request_vote done_callback
    serve-question r ch d voter service t reply at voted =
        let (h, parsed, object) = law.parse_request r in
        let calls = started service 1 h ch.id in
        (
          done_callback (p.reply_bytes reply) ch.id (record d { invoked = d.invoked ++ calls }),
          ground (
            arith,
            on_rpc_message-request_message p.find_method p.parse p.service_name p.method_name
                (p.request_bytes r) h service 1 ch.id d at (law.method_of_name service) parsed,
            drop-append d.invoked calls,
            voted,
            object,
          ),
          refl,
        )

    -- A request for a vote that reaches a server in another thread than the loop's: whatever the
    -- node would say, the answer is that of a response of which no field is set, the node's state is
    -- as before, and the request waits in the loop's queue.
    pub serve-queued :
        (r : RequestVoteRequest) (ch d : RpcChannel) (voter : Node S) (service : ℕ)
        → service_of d.services p.service_name ≡ some service
        → (e : RpcChannel) × (serve p false (question r ch) voter d
            ≡ some (record voter { queued = voter.queued ++ (r ∷ []) }, e))
          × (e.sent ≡ d.sent ++ (response_message ch.id p.unset_bytes ∷ []))
    unfolding serve handle_calls handle_call request_vote done_callback
    serve-queued r ch d voter service at =
        let (h, parsed, object) = law.parse_request r in
        let calls = started service 1 h ch.id in
        (
          done_callback p.unset_bytes ch.id (record d { invoked = d.invoked ++ calls }),
          ground (
            arith,
            on_rpc_message-request_message p.find_method p.parse p.service_name p.method_name
                (p.request_bytes r) h service 1 ch.id d at (law.method_of_name service) parsed,
            drop-append d.invoked calls,
            object,
          ),
          refl,
        )

    pub on_answer-answer :
        (r : RequestVoteRequest) (object i : ℕ) (ch : RpcChannel) (reply : RequestVoteResponse)
        (n : Node S)
        → ch.id < 2 ^ 32
        → get_elem? n.peers i ≡ some (peer_request_vote p r object ch)
        → (d : RpcChannel) × (on_answer p i (answer reply ch) n
            ≡ some (record n { raft = Core.on_request_vote n.raft reply; peers = set n.peers i d }))
    unfolding on_answer run_closures on_rpc_message peer_request_vote
    on_answer-answer r object i ch reply n small at =
        let (d, found, runs, table) =
          call_method-answered p.service_name p.method_name (p.request_bytes r)
            (p.reply_bytes reply) object object ch small in
        (
          d,
          ground (
            arith,
            at,
            found,
            runs,
            drop-append ch.runs
                (record { done = object; object = object; reply = p.reply_bytes reply } ∷ []),
            law.parse_reply reply,
          ),
        )
