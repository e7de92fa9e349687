-- ===== src/Raft/Node.antt =====
-- raft/raft.h and raft/raft.cc: one node of the cluster. A handler returns the new node and its
-- reply, or `none` where it runs into undefined behaviour. Terms and indices do not overflow.
pub mod Voting
pub mod Election
pub mod Entries
use jnet.Base.{
  ℕ, zero, suc, ◌+◌, ◌-◌, ◌/◌, Bool, true, false, not, ◌&&◌, ◌||◌, Option, none, some, List, [],
  ◌∷◌, ◌++◌, ltb, leb, ◌==◌, if◌then◌else◌, length, get_elem?, set,
}
use jnet.Base.Int.{ℤ, pos, negsuc, ◌+ℤ◌, ◌-ℤ◌, ltb_ℤ, leb_ℤ, eq_ℤ}
use jnet.Base.Bytes.{to_u64}
use jnet.Raft.Storage.{Storage}
use jnet.Raft.Entry.{
  EntryType, LogEntry, RequestVoteRequest, RequestVoteResponse, AppendEntriesRequest,
  AppendEntriesResponse,
}
use jnet.Raft.Log
use jnet.Raft.Log.{RaftLog, last_index, term_of, contain_log, position}

pub data Role : Type 0 where
  leader candidater follower : Role

abbrev pub eq_role : Role → Role → Bool
eq_role leader leader = true
eq_role candidater candidater = true
eq_role follower follower = true
eq_role other another = false

-- `peers` is the number of the other nodes.
pub record Raft (S : Type 0) : Type 0 where
  pub heartbeat_timeout : ℤ
  pub election_timeout : ℤ
  pub randomized_election_timeout : ℤ
  pub elpased_time : ℤ
  pub role : Role
  pub current_term : ℤ
  pub voted_for : ℤ
  pub logs : RaftLog S
  pub commit_index : ℤ
  pub last_applied : ℤ
  pub next_index : List ℤ
  pub match_index : List ℤ
  pub peers : ℕ
  pub id : ℤ
  pub voted : ℤ

-- The calls that a node makes on its peers: the number of the peer and the request.
pub data PeerCall : Type 0 where
  request_vote_call : ℕ → RequestVoteRequest → PeerCall
  append_entries_call : ℕ → AppendEntriesRequest → PeerCall

-- `random_(0, 0, 0)` draws from the numbers between 0 and 0.
abbrev pub generate : ℤ
generate = pos 0

-- The loop over the peers, from peer `i` on.
unfoldable pub call_peers : ℕ → ℕ → RequestVoteRequest → List PeerCall
call_peers zero i r = []
call_peers (suc n) i r = request_vote_call i r ∷ call_peers n (i + 1) r

module _ {S : Type 0} where
  -- The constructor leaves `role_` and `voted_` with whatever the memory held.
  unfoldable pub new : S → ℕ → ℤ → Role → ℤ → Raft S
  new s peers id role voted = record {
    heartbeat_timeout = pos 0;
    election_timeout = pos 0;
    randomized_election_timeout = generate;
    elpased_time = pos 0;
    role = role;
    current_term = pos 0;
    voted_for = negsuc 0;
    logs = Log.new s;
    commit_index = pos 0;
    last_applied = pos 0;
    next_index = [];
    match_index = [];
    peers = peers;
    id = id;
    voted = voted;
  }

  -- Whether the log of the request is newer; `none` where `Term` reads outside the vector.
  unfoldable pub newest_log : Raft S → RequestVoteRequest → Option Bool
  newest_log s r =
      let newest_index = last_index s.logs in
      elim (term_of s.logs newest_index) [
        | none ↦ none
        | some newest_term ↦ some (
            if not (eq_ℤ r.last_log_term newest_term)
            then ltb_ℤ newest_term r.last_log_term
            else ltb_ℤ newest_index r.last_log_index)
      ]

  -- `voted_` is compared as an unsigned number.
  unfoldable pub majority : Raft S → Bool
  majority s = ltb ((s.peers + 1) / 2) (to_u64 s.voted)

  unfoldable pub set_current_term : Raft S → ℤ → Raft S
  set_current_term s term = record s { current_term = term }

  unfoldable pub set_voted_for : Raft S → ℤ → Raft S
  set_voted_for s id = record s { voted_for = id }

  unfoldable pub reset_election_time : Raft S → Raft S
  reset_election_time s = record s { election_timeout = pos 0 }

  unfoldable pub reset_heartbeat_time : Raft S → Raft S
  reset_heartbeat_time s = record s { heartbeat_timeout = pos 0 }

  unfoldable pub reset_timer : Raft S → Raft S
  reset_timer s = record s { elpased_time = pos 0; randomized_election_timeout = generate }

  -- What the reply says when the vote is refused or granted.
  abbrev vote_reply : Raft S → Bool → RequestVoteResponse
  vote_reply s granted = record { term = s.current_term; vote_granted = granted; peer_id = s.id }

  unfoldable pub request_vote : Raft S → RequestVoteRequest → Option (Raft S × RequestVoteResponse)
  request_vote s r =
      if ltb_ℤ s.current_term r.term && (eq_ℤ s.voted_for (negsuc 0) || eq_ℤ s.voted_for r.peer_id)
      then elim (newest_log s r) [
        | none ↦ none
        | some true ↦ some (record s { voted_for = r.peer_id }, vote_reply s true)
        | some false ↦ some (s, vote_reply s false)
      ]
      else some (s, vote_reply s false)

  unfoldable pub to_leader : Raft S → Raft S
  to_leader s = record s { role = leader }

  unfoldable pub to_follower : Raft S → Raft S
  to_follower s = record s { role = follower; voted = pos 0; voted_for = negsuc 0 }

  unfoldable pub on_request_vote : Raft S → RequestVoteResponse → Raft S
  unfolding to_leader
  on_request_vote s reply =
      if not (eq_role s.role candidater)
        || not reply.vote_granted
        || ltb_ℤ reply.term s.current_term
      then s
      else if not reply.vote_granted
      then s
      else let t = record s { voted = s.voted +ℤ pos 1 } in if majority t then to_leader t else t

  -- The request of `StartRequestVote`.
  abbrev pub vote_request : Raft S → RequestVoteRequest
  vote_request s = record {
    term = s.current_term;
    peer_id = s.id;
    candidate_id = s.id;
    last_log_index = pos 0;
    last_log_term = pos 0;
  }

  unfoldable pub start_request_vote : Raft S → List PeerCall
  start_request_vote s = call_peers s.peers 0 (vote_request s)

  unfoldable pub to_candidater : Raft S → Raft S × List PeerCall
  unfolding set_current_term set_voted_for reset_election_time
  to_candidater s =
      let t =
        set_voted_for (set_current_term (record s { role = candidater }) (s.current_term +ℤ pos 1))
          s.id in
      let u = reset_election_time (record t { voted = pos 1 }) in (u, start_request_vote u)

  -- The command is not used.
  unfoldable pub propose : Raft S → List ℕ → Raft S × List PeerCall
  propose s cmd = to_candidater s

abbrev pub append_reply : {S : Type 0} → Raft S → Option Bool → AppendEntriesResponse
append_reply s success = record { term = s.current_term; success = success; peer_id = s.id }

abbrev pub min_ℤ : ℤ → ℤ → ℤ
min_ℤ a b = if ltb_ℤ b a then b else a

module _ {S : Type 0} (disk : Storage S) (serialize : LogEntry → List ℕ) where
  -- The loop over the entries. All of them get the same index.
  unfoldable pub append_loop :
      RaftLog S → ℤ → ℤ → List EntryType → List (List ℕ) → Option (RaftLog S)
  append_loop l index term types [] = some l
  append_loop l index term [] (cmd ∷ cmds) = none
  append_loop l index term (type ∷ types) (cmd ∷ cmds) =
      append_loop
        (Log.append disk serialize l
          (record { type = type; term = term; index = index; command = cmd }))
        index term types cmds

  -- The part of `AppendEntries` behind the refusals.
  unfoldable pub accept_entries : Raft S → AppendEntriesRequest → Option (Raft S)
  accept_entries s r =
      let insert_index = r.prev_log_index +ℤ pos 1 in
      let room : Option (RaftLog S) =
        if contain_log s.logs insert_index r.term
        then some s.logs
        else Log.truncate disk s.logs insert_index in
      elim room [
        | none ↦ none
        | some l ↦ elim (append_loop l insert_index r.term r.type r.entries) [
          | none ↦ none
          | some l' ↦ some (record s {
            logs = l';
            commit_index =
                if ltb_ℤ s.commit_index r.commited_index
                then min_ℤ r.commited_index insert_index
                else s.commit_index;
          })
        ]
      ]

  unfoldable pub append_entries :
      Raft S → AppendEntriesRequest → Option (Raft S × AppendEntriesResponse)
  append_entries s r =
      if ltb_ℤ r.term s.current_term || not (contain_log s.logs r.prev_log_index r.prev_log_term)
      then some (s, append_reply s (some false))
      else elim (accept_entries s r) [ none ↦ none | some t ↦ some (t, append_reply s none) ]

  -- The retry of `OnAppendEntries`: one step back, a call of the peer, and then the node's own
  -- `AppendEntries` on the same request.
  unfoldable pub retry_entries :
      Raft S → AppendEntriesRequest → ℕ → ℤ → Option (Raft S × List PeerCall)
  retry_entries s r peer next =
      let s' = record s { next_index = set s.next_index peer (next -ℤ pos 1) } in
      let prev = (next -ℤ pos 1) -ℤ pos 1 in
      elim (term_of s.logs prev) [
        | none ↦ none
        | some term ↦
            let r' = record r { prev_log_index = prev; prev_log_term = term } in
            elim (append_entries s' r') [
              | none ↦ none
              | some (t, reply) ↦ some (t, append_entries_call peer r' ∷ [])
            ]
      ]

  unfoldable pub on_append_entries :
      Raft S → AppendEntriesRequest → AppendEntriesResponse → Option (Raft S × List PeerCall)
  on_append_entries s r reply =
      if ltb_ℤ s.current_term r.term then some (s, []) else elim (position reply.peer_id) [
        | none ↦ none
        | some peer ↦ elim (get_elem? s.next_index peer) [
          | none ↦ none
          | some next ↦ elim reply.success [
            | some true ↦ elim (get_elem? s.match_index peer) [
              | none ↦ none
              | some old ↦ some (
                record s {
                  match_index = set s.match_index peer next;
                  next_index = set s.next_index peer (next +ℤ pos 1);
                  commit_index = r.prev_log_index +ℤ pos 1;
                },
                [],
              )
            ]
            | other ↦ retry_entries s r peer next
          ]
        ]
      ]
