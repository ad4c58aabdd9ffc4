-- ===== src/Raft/Election.antt =====
-- raft_node.cpp: elections, the votes given and received, and taking office.
use fault_tolerant_kv_store.Prelude.{
  ℕ, ◌+◌, ◌%◌, ◌^◌, Option, none, some, List, [], ◌∷◌, ◌++◌, Bool, true, false, leb, ltb, ◌==◌,
  ◌&&◌, ◌||◌, not, if◌then◌else◌, length, Map, assign, insert,
}
use fault_tolerant_kv_store.Prelude.Int.{pos}
use fault_tolerant_kv_store.Exec.{Exec, ◌>>=◌, ◌>>◌, pure, gets, modify}
use fault_tolerant_kv_store.Raft.Types.{
  NodeState, follower, candidate, leader, NodeId, RequestVoteRequest, RequestVoteResponse,
  vote_request, vote_response,
}
use fault_tolerant_kv_store.Raft.Platform.{Platform}
use fault_tolerant_kv_store.Raft.Node.{
  Node, last_log_index, last_log_term, quorum_size, reset_election_timeout, persist, send,
}
use fault_tolerant_kv_store.Raft.Replication.{advance_commit_index, broadcast_append_entries}

abbrev pub is_candidate : NodeState → Bool
is_candidate candidate = true
is_candidate _ = false

abbrev pub is_leader : NodeState → Bool
is_leader leader = true
is_leader _ = false

abbrev pub is_follower : NodeState → Bool
is_follower follower = true
is_follower _ = false

-- `optional == value`
abbrev pub is_some_id : Option NodeId → NodeId → Bool
is_some_id none id = false
is_some_id (some v) id = v == id

abbrev pub has_value : Option NodeId → Bool
has_value none = false
has_value (some v) = true

-- `map[peer] = value` for each peer.
unfoldable pub assign_all : Map ℕ → List NodeId → ℕ → Map ℕ
assign_all m [] v = m
assign_all m (peer ∷ peers) v = assign_all (assign m peer v) peers v

module _ ⦃p : Platform⦄ where
  unfoldable pub take_office : Node → Node
  unfolding assign_all
  take_office n = record n {
    state = leader;
    leader_id = some n.config.node_id;
    heartbeat_elapsed = pos 0;
    next_index = assign_all n.next_index n.config.peers (last_log_index n + 1);
    match_index = assign_all n.match_index n.config.peers 0;
    append_request_id = assign_all n.append_request_id n.config.peers 0;
    log = n.log ++ (record { term = n.current_term; command = []; is_no_op = true } ∷ []);
  }

  unfoldable pub become_leader : Exec Node (Unit {0})
  unfolding take_office persist advance_commit_index broadcast_append_entries
  become_leader = do modify take_office; persist; _ ← advance_commit_index; broadcast_append_entries

  -- The part of `start_election_locked` before the save.
  unfoldable pub stand : Node → Node
  unfolding reset_election_timeout
  stand n = reset_election_timeout (record n {
    state = candidate;
    leader_id = none;
    current_term = (n.current_term + 1) % 2 ^ 64;
    voted_for = some n.config.node_id;
    votes_received = n.config.node_id ∷ [];
  })

  unfoldable pub request_votes : RequestVoteRequest → List NodeId → Node → Node
  unfolding send
  request_votes request [] n = n
  request_votes request (peer ∷ peers) n =
      request_votes request peers (send peer (vote_request request) n)

  unfoldable pub ask_for_votes : Exec Node (Unit {0})
  unfolding last_log_term request_votes
  ask_for_votes = do
    last_term ← last_log_term
    modify (λ n.
        request_votes
          (record {
            term = n.current_term;
            candidate_id = n.config.node_id;
            last_log_index = last_log_index n;
            last_log_term = last_term;
          })
          n.config.peers n)

  abbrev pub has_quorum : Node → Bool
  has_quorum n = leb (quorum_size n) (length n.votes_received)

  unfoldable pub start_election : Exec Node (Unit {0})
  unfolding stand persist become_leader ask_for_votes
  start_election = do
    modify stand
    persist
    elected ← gets has_quorum
    if elected then become_leader else ask_for_votes

  unfoldable pub candidate_log_is_current : RequestVoteRequest → Exec Node Bool
  unfolding last_log_term
  candidate_log_is_current request = do
    local_term ← last_log_term
    last ← gets last_log_index
    pure (
        ltb local_term request.last_log_term
        || (request.last_log_term == local_term && leb last request.last_log_index))

  unfoldable pub answer_vote : NodeId → Bool → Node → Node
  unfolding send
  answer_vote from granted n =
      send from (vote_response (record { term = n.current_term; vote_granted = granted })) n

  unfoldable pub record_vote : NodeId → Exec Node (Unit {0})
  unfolding persist
  record_vote id = do
    same ← gets (λ n. is_some_id n.voted_for id)
    if same then pure tt else do modify (λ n. record n { voted_for = some id }); persist

  unfoldable pub grant : NodeId → Exec Node (Unit {0})
  unfolding record_vote reset_election_timeout
  grant id = do record_vote id; modify reset_election_timeout

  abbrev pub can_vote : Node → NodeId → Bool
  can_vote n id = not (has_value n.voted_for) || is_some_id n.voted_for id

  -- The answer to a request of a peer for itself in the current term.
  unfoldable pub judge_vote : NodeId → RequestVoteRequest → Exec Node (Unit {0})
  unfolding candidate_log_is_current grant answer_vote
  judge_vote from request = do
    free ← gets (λ n. can_vote n request.candidate_id)
    current ← candidate_log_is_current request
    let grant_vote = free && current
    if grant_vote then grant request.candidate_id else pure tt
    modify (answer_vote from grant_vote)

  unfoldable pub handle_request_vote : NodeId → RequestVoteRequest → Exec Node (Unit {0})
  unfolding answer_vote judge_vote
  handle_request_vote from request = do
    stale ← gets (λ n. not (request.candidate_id == from) || ltb request.term n.current_term)
    if stale then modify (answer_vote from false) else judge_vote from request

  unfoldable pub count_vote : NodeId → Node → Node
  unfolding insert
  count_vote from n = record n { votes_received = insert n.votes_received from }

  unfoldable pub accept_vote : NodeId → Exec Node (Unit {0})
  unfolding count_vote become_leader
  accept_vote from = do
    modify (count_vote from)
    elected ← gets has_quorum
    if elected then become_leader else pure tt

  unfoldable pub handle_request_vote_response : NodeId → RequestVoteResponse → Exec Node (Unit {0})
  unfolding accept_vote
  handle_request_vote_response from response = do
    ignored ← gets (λ n.
        not (is_candidate n.state)
        || (not (response.term == n.current_term) || not response.vote_granted))
    if ignored then pure tt else accept_vote from
