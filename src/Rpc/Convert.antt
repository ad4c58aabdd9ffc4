-- ===== src/Rpc/Convert.antt =====
-- The translations between the types of the Raft node and the messages, in src/grpc/grpc_client.cpp
-- and src/grpc/grpc_server.cpp.
use fault_tolerant_kv_store.Prelude.{
  ℕ, Option, none, some, Bool, true, false, List, [], ◌∷◌, ◌≡◌, refl, ap, if◌then◌else◌,
}
use fault_tolerant_kv_store.Raft.Types.{
  LogEntry, NodeState, follower, candidate, leader, NodeSnapshot, RequestVoteRequest,
  RequestVoteResponse, AppendEntriesRequest, AppendEntriesResponse,
}
use fault_tolerant_kv_store.Rpc.Wire

-- The client's requests.
unfoldable pub to_wire_vote : RequestVoteRequest → Wire.RequestVoteRequest
to_wire_vote r = record {
  term = r.term;
  candidate_id = r.candidate_id;
  last_log_index = r.last_log_index;
  last_log_term = r.last_log_term;
}

unfoldable pub to_wire_entries : List LogEntry → List Wire.RaftLogEntry
to_wire_entries [] = []
to_wire_entries (e ∷ es) =
    (record { term = e.term; command = e.command; is_no_op = e.is_no_op }) ∷ to_wire_entries es

unfoldable pub to_wire_append : AppendEntriesRequest → Wire.AppendEntriesRequest
unfolding to_wire_entries
to_wire_append r = record {
  term = r.term;
  leader_id = r.leader_id;
  previous_log_index = r.previous_log_index;
  previous_log_term = r.previous_log_term;
  entries = to_wire_entries r.entries;
  leader_commit = r.leader_commit;
  request_id = r.request_id;
}

-- What the server makes of them.
unfoldable pub from_wire_vote : Wire.RequestVoteRequest → RequestVoteRequest
from_wire_vote r = record {
  term = r.term;
  candidate_id = r.candidate_id;
  last_log_index = r.last_log_index;
  last_log_term = r.last_log_term;
}

unfoldable pub from_wire_entries : List Wire.RaftLogEntry → List LogEntry
from_wire_entries [] = []
from_wire_entries (e ∷ es) =
    (record { term = e.term; command = e.command; is_no_op = e.is_no_op }) ∷ from_wire_entries es

unfoldable pub from_wire_append : Wire.AppendEntriesRequest → AppendEntriesRequest
unfolding from_wire_entries
from_wire_append r = record {
  term = r.term;
  leader_id = r.leader_id;
  previous_log_index = r.previous_log_index;
  previous_log_term = r.previous_log_term;
  entries = from_wire_entries r.entries;
  leader_commit = r.leader_commit;
  request_id = r.request_id;
}

-- The server's responses, written into a cleared message.
unfoldable pub to_wire_voted : RequestVoteResponse → Wire.RequestVoteResponse
to_wire_voted r = record { term = r.term; vote_granted = r.vote_granted }

abbrev pub is_given : Option ℕ → Bool
is_given none = false
is_given (some x) = true

abbrev pub given_or_zero : Option ℕ → ℕ
given_or_zero none = 0
given_or_zero (some x) = x

unfoldable pub to_wire_appended : AppendEntriesResponse → Wire.AppendEntriesResponse
to_wire_appended r = record {
  term = r.term;
  success = r.success;
  match_index = r.match_index;
  conflict_index = r.conflict_index;
  has_conflict_term = is_given r.conflict_term;
  conflict_term = given_or_zero r.conflict_term;
  request_id = r.request_id;
}

abbrev pub to_role : NodeState → Wire.NodeRole
to_role follower = Wire.role_follower
to_role candidate = Wire.role_candidate
to_role leader = Wire.role_leader

unfoldable pub to_wire_status : NodeSnapshot → Wire.NodeStatusResponse
to_wire_status s = record {
  node_id = s.node_id;
  role = to_role s.state;
  current_term = s.current_term;
  has_leader = is_given s.leader_id;
  leader_id = given_or_zero s.leader_id;
  commit_index = s.commit_index;
  last_applied = s.last_applied;
  last_log_index = s.last_log_index;
}

-- What the client makes of them.
unfoldable pub from_wire_voted : Wire.RequestVoteResponse → RequestVoteResponse
from_wire_voted r = record { term = r.term; vote_granted = r.vote_granted }

unfoldable pub from_wire_appended : Wire.AppendEntriesResponse → AppendEntriesResponse
from_wire_appended r = record {
  term = r.term;
  success = r.success;
  match_index = r.match_index;
  conflict_index = r.conflict_index;
  conflict_term = if r.has_conflict_term then some r.conflict_term else none;
  request_id = r.request_id;
}

-- `none` is the default case of the `switch`.
abbrev pub from_role : Wire.NodeRole → Option NodeState
from_role Wire.role_follower = some follower
from_role Wire.role_candidate = some candidate
from_role Wire.role_leader = some leader
from_role _ = none

unfoldable pub from_wire_status : NodeState → Wire.NodeStatusResponse → NodeSnapshot
from_wire_status state r = record {
  node_id = r.node_id;
  state = state;
  current_term = r.current_term;
  leader_id = if r.has_leader then some r.leader_id else none;
  commit_index = r.commit_index;
  last_applied = r.last_applied;
  last_log_index = r.last_log_index;
}

-- A request or a response that crosses the wire is what it was.
pub from_wire_vote-to_wire_vote : (r : RequestVoteRequest) → from_wire_vote (to_wire_vote r) ≡ r
unfolding from_wire_vote to_wire_vote
from_wire_vote-to_wire_vote r = refl

from_wire_entries-to_wire_entries :
    (es : List LogEntry) → from_wire_entries (to_wire_entries es) ≡ es
unfolding from_wire_entries to_wire_entries
from_wire_entries-to_wire_entries [] = refl
from_wire_entries-to_wire_entries (e ∷ es) = ap (◌∷◌ e) (from_wire_entries-to_wire_entries es)

pub from_wire_append-to_wire_append :
    (r : AppendEntriesRequest) → from_wire_append (to_wire_append r) ≡ r
unfolding from_wire_append to_wire_append
from_wire_append-to_wire_append r =
    ap (λ (es : List LogEntry). record r { entries = es })
      (from_wire_entries-to_wire_entries r.entries)

pub from_wire_voted-to_wire_voted :
    (r : RequestVoteResponse) → from_wire_voted (to_wire_voted r) ≡ r
unfolding from_wire_voted to_wire_voted
from_wire_voted-to_wire_voted r = refl

given : (o : Option ℕ) → (if is_given o then some (given_or_zero o) else none) ≡ o
given none = refl
given (some x) = refl

pub from_wire_appended-to_wire_appended :
    (r : AppendEntriesResponse) → from_wire_appended (to_wire_appended r) ≡ r
unfolding from_wire_appended to_wire_appended
from_wire_appended-to_wire_appended r =
    ap (λ (o : Option ℕ). record r { conflict_term = o }) (given r.conflict_term)

pub from_role-to_role : (s : NodeState) → from_role (to_role s) ≡ some s
from_role-to_role follower = refl
from_role-to_role candidate = refl
from_role-to_role leader = refl

pub from_wire_status-to_wire_status :
    (s : NodeSnapshot) → from_wire_status s.state (to_wire_status s) ≡ s
unfolding from_wire_status to_wire_status
from_wire_status-to_wire_status s =
    ap (λ (o : Option ℕ). record s { leader_id = o }) (given s.leader_id)
