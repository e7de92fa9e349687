-- ===== src/Raft/Entry.antt =====
-- The entries of the log and the messages of the protocol (raft/state.proto, raft/raft.proto).
use jnet.Base.{ℕ, Bool, Option, List}
use jnet.Base.Int.{ℤ}

pub data EntryType : Type 0 where
  entry_type_noop entry_type_data entry_type_configuration : EntryType

-- A command is its bytes.
pub record LogEntry : Type 0 where
  pub type : EntryType
  pub term : ℤ
  pub index : ℤ
  pub command : List ℕ

pub record RequestVoteRequest : Type 0 where
  pub term : ℤ
  pub peer_id : ℤ
  pub candidate_id : ℤ
  pub last_log_index : ℤ
  pub last_log_term : ℤ

pub record RequestVoteResponse : Type 0 where
  pub term : ℤ
  pub vote_granted : Bool
  pub peer_id : ℤ

pub record AppendEntriesRequest : Type 0 where
  pub term : ℤ
  pub peer_id : ℤ
  pub prev_log_index : ℤ
  pub prev_log_term : ℤ
  pub commited_index : ℤ
  pub type : List EntryType
  pub entries : List (List ℕ)

-- `success` is `none` until it is set.
pub record AppendEntriesResponse : Type 0 where
  pub term : ℤ
  pub success : Option Bool
  pub peer_id : ℤ
