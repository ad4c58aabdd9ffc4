-- ===== src/Rpc/Wire.antt =====
-- proto/kvstore.proto: the messages. A message that was cleared has the default values of its fields.
use fault_tolerant_kv_store.Prelude.{ℕ, Bool, false, List, []}
use fault_tolerant_kv_store.Bytes.{Bytes}

pub record GetRequest : Type 0 where
  pub key : Bytes

pub record GetResponse : Type 0 where
  pub found : Bool
  pub value : Bytes

pub record PutRequest : Type 0 where
  pub key : Bytes
  pub value : Bytes

pub data PutResponse : Type 0 where
  put_done : PutResponse

pub record DeleteRequest : Type 0 where
  pub key : Bytes

pub record DeleteResponse : Type 0 where
  pub deleted : Bool

pub record RaftLogEntry : Type 0 where
  pub term : ℕ
  pub command : Bytes
  pub is_no_op : Bool

pub record AppendEntriesRequest : Type 0 where
  pub term : ℕ
  pub leader_id : ℕ
  pub previous_log_index : ℕ
  pub previous_log_term : ℕ
  pub entries : List RaftLogEntry
  pub leader_commit : ℕ
  pub request_id : ℕ

pub record AppendEntriesResponse : Type 0 where
  pub term : ℕ
  pub success : Bool
  pub match_index : ℕ
  pub conflict_index : ℕ
  pub has_conflict_term : Bool
  pub conflict_term : ℕ
  pub request_id : ℕ

pub record RequestVoteRequest : Type 0 where
  pub term : ℕ
  pub candidate_id : ℕ
  pub last_log_index : ℕ
  pub last_log_term : ℕ

pub record RequestVoteResponse : Type 0 where
  pub term : ℕ
  pub vote_granted : Bool

pub data NodeStatusRequest : Type 0 where
  status_request : NodeStatusRequest

pub data NodeRole : Type 0 where
  role_unspecified role_follower role_candidate role_leader : NodeRole
  role_unknown : ℕ → NodeRole

pub record NodeStatusResponse : Type 0 where
  pub node_id : ℕ
  pub role : NodeRole
  pub current_term : ℕ
  pub has_leader : Bool
  pub leader_id : ℕ
  pub commit_index : ℕ
  pub last_applied : ℕ
  pub last_log_index : ℕ

abbrev pub cleared_get : GetResponse
cleared_get = record { found = false; value = [] }

abbrev pub cleared_delete : DeleteResponse
cleared_delete = record { deleted = false }

abbrev pub cleared_append : AppendEntriesResponse
cleared_append = record {
  term = 0;
  success = false;
  match_index = 0;
  conflict_index = 0;
  has_conflict_term = false;
  conflict_term = 0;
  request_id = 0;
}

abbrev pub cleared_vote : RequestVoteResponse
cleared_vote = record { term = 0; vote_granted = false }

abbrev pub cleared_status : NodeStatusResponse
cleared_status = record {
  node_id = 0;
  role = role_unspecified;
  current_term = 0;
  has_leader = false;
  leader_id = 0;
  commit_index = 0;
  last_applied = 0;
  last_log_index = 0;
}
