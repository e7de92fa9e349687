-- ===== src/Raft/Tests.antt =====
-- The theorems about raft/ at a small cluster whose disk is a list of bytes.
use mathlib.Core.List.{flatten}
use jnet.Base.{
  ℕ, ◌≡◌, ◌≢◌, ◌⊎◌, refl, ap, Bool, true, false, none, some, Option, List, [], ◌∷◌, ◌++◌, arith,
  length, take, slice, take-all, map,
}
use jnet.Base.Int.{ℤ, pos, negsuc, ◌+ℤ◌, ◌-ℤ◌, ◌≤ℤ◌, ltb_ℤ}
use jnet.Base.Bytes.{le_bytes, to_u64}
use jnet.Raft.Storage.{Storage, IsReliable}
use jnet.Raft.Entry.{
  entry_type_data, LogEntry, RequestVoteRequest, RequestVoteResponse, AppendEntriesRequest,
  AppendEntriesResponse,
}
use jnet.Raft.Log
use jnet.Raft.Log.{
  RaftLog, load, append, set_first_index, truncate, term_of, valid_index, contain_log, last_index,
  get,
}
use jnet.Raft.Log.Records.{record_bytes}
use jnet.Raft.Log.Reload.{
  Stores, records, append_entries, append_entries-Stores, load-append_entries,
  set_first_index-Stores,
}
use jnet.Raft.Log.Index.{term_of_lem, truncate-Stores, truncate-last}
use jnet.Raft.Node
use jnet.Raft.Node.{Raft, Role, leader, candidater, follower, request_vote, propose, vote_request}
use jnet.Raft.Node.Voting.{run_votes, GrantsOnly, run_votes-one_candidate}
use jnet.Raft.Node.Election.{run_replies, run_replies-propose, request_vote-vote_request}
use jnet.Raft.Node.Entries.{
  append_entries-refused, append_entries-empty, append_entries-commit, append_entries-commit_falls,
}

abbrev disk : Storage (List ℕ)
disk = record {
  write = λ s p off. some (take off s ++ p);
  read = λ s len off. some (slice s off len);
  truncate = λ s off. some (take off s);
  file_size = length;
}

disk-IsReliable : IsReliable disk (λ s. s)
disk-IsReliable = record {
  write_end = λ s p. (s ++ p, ap (λ c. some (c ++ p)) (take-all s), refl);
  read_inside = λ s off len h. refl;
  size_of = λ s. refl;
  truncate_inside = λ s off h. (take off s, refl, refl);
}

abbrev bytes : LogEntry → List ℕ
bytes e = e.command

abbrev entry : ℕ → List ℕ → LogEntry
entry term cmd = record { type = entry_type_data; term = pos term; index = pos 1; command = cmd }

abbrev entries : List LogEntry
entries = entry 1 (7 ∷ []) ∷ entry 2 (8 ∷ 9 ∷ []) ∷ []

abbrev stored : RaftLog (List ℕ)
stored = append_entries disk bytes (set_first_index disk (Log.new []) (pos 1)) entries

stored-Stores : Stores disk (λ s. s) stored (pos 1) (records bytes entries)
stored-Stores =
    append_entries-Stores disk (λ s. s) disk-IsReliable bytes
      (set_first_index disk (Log.new []) (pos 1)) (pos 1) [] entries
      (set_first_index-Stores disk (λ s. s) disk-IsReliable [] (pos 1) refl)

load-append_entries_example :
    (load disk (Log.new stored.storage) ≡ stored)
    × (stored.first_index ≡ pos 1)
    × (stored.offset_term ≡ (8, pos 1) ∷ (25, pos 2) ∷ [])
load-append_entries_example =
    load-append_entries disk (λ s. s) disk-IsReliable bytes [] (pos 1) entries refl (omega arith)
      (omega arith)

truncate-last-test :
    (t : RaftLog (List ℕ)) × (truncate disk stored (pos 2) ≡ some t)
    × Stores disk (λ s. s) t (pos 1) ((pos 1, 7 ∷ []) ∷ [])
unfolding ◌-ℤ◌
truncate-last-test =
    truncate-last disk (λ s. s) disk-IsReliable stored (pos 1) (pos 2) (pos 1, 7 ∷ [])
      (pos 2, 8 ∷ 9 ∷ []) [] stored-Stores refl

truncate-Stores-test :
    (t : RaftLog (List ℕ)) × (truncate disk stored (pos 2) ≡ some t)
    × (t.first_index ≡ pos 1)
    × (t.storage ≡ le_bytes 8 (to_u64 (pos 1)) ++ flatten (map record_bytes ((pos 1, 7 ∷ []) ∷ [])))
    × (t.bytes ≡ length t.storage)
    × (t.offset_term ≡ (8, pos 1) ∷ [])
unfolding ◌-ℤ◌
truncate-Stores-test =
    truncate-Stores disk (λ s. s) disk-IsReliable stored (pos 1) (pos 2) (pos 1, 7 ∷ [])
      (pos 2, 8 ∷ 9 ∷ []) [] [] stored-Stores refl

-- Two entries, of the terms 4 and 5, at the indices 1 and 2.
abbrev two_entries : RaftLog (List ℕ)
two_entries = record {
  first_index = pos 1;
  bytes = 60;
  offset_term = (8, pos 4) ∷ (30, pos 5) ∷ [];
  storage = [];
}

term_of_lem-test : term_of two_entries (pos 2) ≡ some (pos 0)
unfolding valid_index ◌-ℤ◌
term_of_lem-test = term_of_lem two_entries (pos 2)

-- A node of a cluster of three.
abbrev node : Raft (List ℕ)
node = record {
  heartbeat_timeout = pos 0;
  election_timeout = pos 0;
  randomized_election_timeout = pos 0;
  elpased_time = pos 0;
  role = follower;
  current_term = pos 5;
  voted_for = negsuc 0;
  logs = two_entries;
  commit_index = pos 9;
  last_applied = pos 0;
  next_index = [];
  match_index = [];
  peers = 2;
  id = pos 3;
  voted = pos 0;
}

abbrev vote_from : ℕ → RequestVoteRequest
vote_from peer = record {
  term = pos 6;
  peer_id = pos peer;
  candidate_id = pos peer;
  last_log_index = pos 9;
  last_log_term = pos 5;
}

run_votes-node :
    run_votes node (vote_from 1 ∷ vote_from 2 ∷ []) ≡ some ((pos 1, true) ∷ (pos 2, false) ∷ [])
unfolding run_votes request_vote Node.newest_log term_of valid_index last_index ◌-ℤ◌ ◌+ℤ◌
run_votes-node = refl

run_votes-one_candidate_example : (c : ℤ) × GrantsOnly c ((pos 1, true) ∷ (pos 2, false) ∷ [])
run_votes-one_candidate_example =
    run_votes-one_candidate node (vote_from 1 ∷ vote_from 2 ∷ [])
      ((pos 1, true) ∷ (pos 2, false) ∷ []) (refl, (refl, tt)) run_votes-node

abbrev granted : RequestVoteResponse
granted = record { term = pos 6; vote_granted = true; peer_id = pos 1 }

abbrev stale : RequestVoteResponse
stale = record { term = pos 2; vote_granted = true; peer_id = pos 2 }

run_replies-propose_example : (run_replies (propose node []).0 (stale ∷ granted ∷ [])).role ≡ leader
unfolding ◌+ℤ◌
run_replies-propose_example =
    run_replies-propose node [] (stale ∷ granted ∷ []) (omega arith) (omega arith)

request_vote-vote_request-test :
    request_vote node (vote_request (record node { current_term = pos 7; id = pos 1 }))
    ≡ some (node, record { term = pos 5; vote_granted = false; peer_id = pos 3 })
unfolding valid_index last_index ◌-ℤ◌ ◌+ℤ◌
request_vote-vote_request-test =
    request_vote-vote_request node (record node { current_term = pos 7; id = pos 1 }) (pos 2) refl
      refl refl

abbrev append_request : AppendEntriesRequest
append_request = record {
  term = pos 5;
  peer_id = pos 1;
  prev_log_index = pos 1;
  prev_log_term = pos 4;
  commited_index = pos 12;
  type = [];
  entries = [];
}

abbrev old_request : AppendEntriesRequest
old_request = record append_request { term = pos 3 }

append_entries-refused-test :
    Node.append_entries disk bytes node old_request
    ≡ some (node, record { term = pos 5; success = some false; peer_id = pos 3 })
append_entries-refused-test = append_entries-refused disk bytes node old_request refl

append_entries-empty-test :
    Node.append_entries disk bytes
      (record node { logs = record two_entries { offset_term = [] } })
      append_request
    ≡ some (
      record node { logs = record two_entries { offset_term = [] } },
      record { term = pos 5; success = some false; peer_id = pos 3 },
    )
append_entries-empty-test =
    append_entries-empty disk bytes (record node { logs = record two_entries { offset_term = [] } })
      append_request refl

abbrev moved_back : Raft (List ℕ)
moved_back = record node { commit_index = pos 2 }

abbrev unset_reply : AppendEntriesResponse
unset_reply = record { term = pos 5; success = none; peer_id = pos 3 }

accepted : Node.append_entries disk bytes node append_request ≡ some (moved_back, unset_reply)
unfolding Node.append_entries Node.accept_entries Node.append_loop contain_log valid_index Log.meta
    ◌-ℤ◌ ◌+ℤ◌
accepted = refl

append_entries-commit_example :
    ((pos 2 ≡ pos 9) ⊎ ((pos 2 ≤ℤ pos 12) × (pos 2 ≤ℤ pos 1 +ℤ pos 1)))
    × (pos 5 ≡ pos 5)
    × (negsuc 0 ≡ negsuc 0)
    × (follower ≡ follower)
    × (◌≢◌ {A = Option Bool} none (some true))
append_entries-commit_example =
    append_entries-commit disk bytes node moved_back append_request unset_reply accepted

append_entries-commit_falls-test : (pos 2 ≡ pos 1 +ℤ pos 1) × (ltb_ℤ (pos 2) (pos 9) ≡ true)
unfolding ◌+ℤ◌
append_entries-commit_falls-test =
    append_entries-commit_falls disk bytes node moved_back append_request unset_reply accepted
      (λ e. cc) refl refl
