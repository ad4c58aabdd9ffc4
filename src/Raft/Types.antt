-- ===== src/Raft/Types.antt =====
-- src/raft/raft.h and raft.cpp: the data of the consensus core. A string is the list of its bytes,
-- a duration a number of milliseconds, a `std::uint64_t` a number that the operations keep below
-- 2 ^ 64.
use fault_tolerant_kv_store.Prelude.{ℕ, Bool, true, false, Option, none, List, [], ◌==◌, ◌&&◌, not}
use fault_tolerant_kv_store.Prelude.Int.{ℤ}
use fault_tolerant_kv_store.Bytes.{bytes_eq}
pub use fault_tolerant_kv_store.Bytes.{Bytes}

abbrev pub NodeId : Type 0
NodeId = ℕ

abbrev pub Term : Type 0
Term = ℕ

abbrev pub LogIndex : Type 0
LogIndex = ℕ

pub data NodeState : Type 0 where
  follower candidate leader : NodeState

pub record LogEntry : Type 0 where
  pub term : Term
  pub command : Bytes
  pub is_no_op : Bool

-- The sentinel that keeps log indexes one-based.
abbrev pub sentinel : LogEntry
sentinel = record { term = 0; command = []; is_no_op = false }

pub record CommittedEntry : Type 0 where
  pub index : LogIndex
  pub term : Term
  pub command : Bytes

pub record NodeSnapshot : Type 0 where
  pub node_id : NodeId
  pub state : NodeState
  pub current_term : Term
  pub leader_id : Option NodeId
  pub commit_index : LogIndex
  pub last_applied : LogIndex
  pub last_log_index : LogIndex

pub record RequestVoteRequest : Type 0 where
  pub term : Term
  pub candidate_id : NodeId
  pub last_log_index : LogIndex
  pub last_log_term : Term

pub record RequestVoteResponse : Type 0 where
  pub term : Term
  pub vote_granted : Bool

pub record AppendEntriesRequest : Type 0 where
  pub term : Term
  pub leader_id : NodeId
  pub previous_log_index : LogIndex
  pub previous_log_term : Term
  pub entries : List LogEntry
  pub leader_commit : LogIndex
  pub request_id : ℕ

pub record AppendEntriesResponse : Type 0 where
  pub term : Term
  pub success : Bool
  pub match_index : LogIndex
  pub conflict_index : LogIndex
  pub conflict_term : Option Term
  pub request_id : ℕ

pub data Rpc : Type 0 where
  vote_request : RequestVoteRequest → Rpc
  vote_response : RequestVoteResponse → Rpc
  append_request : AppendEntriesRequest → Rpc
  append_response : AppendEntriesResponse → Rpc

pub record Message : Type 0 where
  pub from : NodeId
  pub to : NodeId
  pub rpc : Rpc

abbrev pub rpc_term : Rpc → Term
rpc_term (vote_request r) = r.term
rpc_term (vote_response r) = r.term
rpc_term (append_request r) = r.term
rpc_term (append_response r) = r.term

abbrev pub message_term : Message → Term
message_term m = rpc_term m.rpc

pub record RaftConfig : Type 0 where
  pub node_id : NodeId
  pub peers : List NodeId
  pub election_timeout_min : ℤ
  pub election_timeout_max : ℤ
  pub heartbeat_interval : ℤ
  pub random_seed : ℕ

pub record PersistentState : Type 0 where
  pub current_term : Term
  pub voted_for : Option NodeId
  pub log : List LogEntry

abbrev pub initial_state : PersistentState
initial_state = record { current_term = 0; voted_for = none; log = [] }

-- The defaulted `operator==` of `LogEntry`.
abbrev pub flag_eq : Bool → Bool → Bool
flag_eq true b = b
flag_eq false b = not b

unfoldable pub entry_eq : LogEntry → LogEntry → Bool
unfolding bytes_eq
entry_eq a b = a.term == b.term && (bytes_eq a.command b.command && flag_eq a.is_no_op b.is_no_op)
