-- ===== src/Raft/AppendReplies.antt =====
-- raft_node.cpp: `handle_append_entries_response_locked`.
use fault_tolerant_kv_store.Prelude.{
  zero, suc, ◌+◌, min, max, none, some, ltb, ◌==◌, ◌||◌, not, if◌then◌else◌, assign, value_or_zero,
}
use fault_tolerant_kv_store.Exec.{Exec, ◌>>=◌, ◌>>◌, pure, gets, modify}
use fault_tolerant_kv_store.Raft.Types.{NodeId, Term, LogIndex, AppendEntriesResponse}
use fault_tolerant_kv_store.Raft.Platform.{Platform}
use fault_tolerant_kv_store.Raft.Node.{Node, last_log_index, read_log}
use fault_tolerant_kv_store.Raft.Replication.{
  advance_commit_index, broadcast_append_entries, send_append_entries,
}
use fault_tolerant_kv_store.Raft.Election.{is_leader}

module _ ⦃p : Platform⦄ where
  unfoldable pub record_match : NodeId → LogIndex → Node → Node
  record_match from index n = record n {
    match_index = assign n.match_index from (max (value_or_zero n.match_index from) index);
    next_index = assign n.next_index from (max (value_or_zero n.next_index from) (index + 1));
  }

  unfoldable pub catch_up : NodeId → Exec Node (Unit {0})
  unfolding send_append_entries
  catch_up from = do
    behind ← gets (λ n. ltb (value_or_zero n.match_index from) (last_log_index n))
    if behind then send_append_entries from else pure tt

  unfoldable pub accept_match : NodeId → LogIndex → Exec Node (Unit {0})
  unfolding record_match advance_commit_index broadcast_append_entries catch_up
  accept_match from index = do
    modify (record_match from index)
    advanced ← advance_commit_index
    if advanced then broadcast_append_entries else catch_up from

  unfoldable pub handle_success : NodeId → LogIndex → Exec Node (Unit {0})
  unfolding accept_match
  handle_success from index = do
    beyond ← gets (λ n. ltb (last_log_index n) index)
    if beyond then pure tt else accept_match from index

  -- The search for the last entry of the conflicting term; `otherwise` if there is none.
  unfoldable pub after_term : Term → LogIndex → LogIndex → Exec Node LogIndex
  unfolding read_log
  after_term term otherwise zero = pure otherwise
  after_term term otherwise (suc i) = do
    let earlier = after_term term otherwise i
    entry ← read_log (suc i)
    if entry.term == term then pure (suc (suc i)) else earlier

  unfoldable pub resume_index : AppendEntriesResponse → Exec Node LogIndex
  unfolding after_term
  resume_index response = elim response.conflict_term [
    | none ↦ pure response.conflict_index
    | some term ↦ do last ← gets last_log_index; after_term term response.conflict_index last
  ]

  -- `std::clamp` to the log, and never below what the peer has confirmed.
  unfoldable pub set_next : NodeId → LogIndex → Node → Node
  set_next from index n =
      let clamped = max 1 (min index (last_log_index n + 1)) in
      record n {
        next_index = assign n.next_index from (max clamped (value_or_zero n.match_index from + 1));
      }

  unfoldable pub resend : NodeId → AppendEntriesResponse → Exec Node (Unit {0})
  unfolding resume_index set_next send_append_entries
  resend from response = do
    index ← resume_index response
    modify (set_next from index)
    send_append_entries from

  unfoldable pub handle_failure : NodeId → AppendEntriesResponse → Exec Node (Unit {0})
  unfolding resend
  handle_failure from response = do
    outdated ← gets (λ n. not (value_or_zero n.append_request_id from == response.request_id))
    if outdated then pure tt else resend from response

  unfoldable pub handle_reply : NodeId → AppendEntriesResponse → Exec Node (Unit {0})
  unfolding handle_success handle_failure
  handle_reply from response =
      if response.success
      then handle_success from response.match_index
      else handle_failure from response

  unfoldable pub handle_append_entries_response :
      NodeId → AppendEntriesResponse → Exec Node (Unit {0})
  unfolding handle_reply
  handle_append_entries_response from response = do
    ignored ← gets (λ n. not (is_leader n.state) || not (response.term == n.current_term))
    if ignored then pure tt else handle_reply from response
