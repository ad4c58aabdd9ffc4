-- ===== src/Raft/Replication.antt =====
-- raft_node.cpp: sending the log to the peers, and committing and applying what a quorum holds.
use fault_tolerant_kv_store.Prelude.{
  ℕ, zero, suc, ◌+◌, ◌-◌, ◌%◌, ◌^◌, Option, none, some, List, [], ◌∷◌, ◌++◌, Bool, true, false, leb,
  ◌==◌, ◌&&◌, if◌then◌else◌, assign, value_or_zero,
}
use fault_tolerant_kv_store.Exec.{
  Exec, throws, returns, undefined, out_of_range, ◌>>=◌, ◌>>◌, pure, gets, modify, for_each,
}
use fault_tolerant_kv_store.Raft.Types.{NodeId, LogIndex, LogEntry, CommittedEntry, append_request}
use fault_tolerant_kv_store.Raft.Platform.{Platform}
use fault_tolerant_kv_store.Raft.Node.{Node, last_log_index, quorum_size, read_log, log_from, send}

unfoldable pub apply_entry : LogIndex → LogEntry → List CommittedEntry → List CommittedEntry
apply_entry i e done =
    if e.is_no_op
    then done
    else done ++ (record { index = i; term = e.term; command = e.command } ∷ [])

module _ ⦃p : Platform⦄ where
  -- `next_index_.at(peer)`
  unfoldable pub next_index_at : NodeId → Exec Node LogIndex
  next_index_at peer n = elim (n.next_index peer) [
    | none ↦ throws out_of_range n
    | some i ↦ returns i n
  ]

  unfoldable pub next_request_id : NodeId → Node → ℕ
  next_request_id peer n = (value_or_zero n.append_request_id peer + 1) % 2 ^ 64

  -- An index 0 would make `previous_index` wrap round and `log_[previous_index]` be out of range.
  unfoldable pub send_append_from : NodeId → LogIndex → Exec Node (Unit {0})
  unfolding read_log log_from next_request_id send
  send_append_from peer zero = λ n. undefined
  send_append_from peer (suc previous_index) = do
    entries ← log_from (suc previous_index)
    request_id ← gets (next_request_id peer)
    modify (λ n. record n { append_request_id = assign n.append_request_id peer request_id })
    previous ← read_log previous_index
    modify (λ n.
        send peer
          (append_request (record {
            term = n.current_term;
            leader_id = n.config.node_id;
            previous_log_index = previous_index;
            previous_log_term = previous.term;
            entries = entries;
            leader_commit = n.commit_index;
            request_id = request_id;
          }))
          n)

  unfoldable pub send_append_entries : NodeId → Exec Node (Unit {0})
  unfolding next_index_at send_append_from
  send_append_entries peer = do next_index ← next_index_at peer; send_append_from peer next_index

  unfoldable pub broadcast_append_entries : Exec Node (Unit {0})
  broadcast_append_entries = do
    peers ← gets (λ n. n.config.peers)
    for_each peers send_append_entries

  -- The rounds of `while (last_applied_ < commit_index_)`.
  unfoldable pub apply_rounds : ℕ → Exec Node (Unit {0})
  unfolding read_log apply_entry
  apply_rounds zero = pure tt
  apply_rounds (suc rounds) = do
    modify (λ n. record n { last_applied = n.last_applied + 1 })
    index ← gets (λ n. n.last_applied)
    entry ← read_log index
    modify (λ n. record n { committed_entries = apply_entry index entry n.committed_entries })
    apply_rounds rounds

  unfoldable pub apply_committed_entries : Exec Node (Unit {0})
  unfolding apply_rounds
  apply_committed_entries = do
    rounds ← gets (λ n. n.commit_index - n.last_applied)
    apply_rounds rounds

  -- How many of the peers hold the entry at the index.
  unfoldable pub holders : Node → LogIndex → List NodeId → ℕ
  holders n candidate [] = 0
  holders n candidate (peer ∷ peers) =
      (if leb candidate (value_or_zero n.match_index peer) then 1 else 0)
      + holders n candidate peers

  unfoldable pub replicated : Node → LogIndex → ℕ
  unfolding holders
  replicated n candidate = 1 + holders n candidate n.config.peers

  -- The search of `advance_commit_index_locked`, from the candidate down to the commit index.
  unfoldable pub quorum_index : LogIndex → Exec Node (Option LogIndex)
  unfolding read_log replicated
  quorum_index zero = pure none
  quorum_index (suc below) = do
    finished ← gets (λ n. leb (suc below) n.commit_index)
    let older = quorum_index below
    if finished then pure none else do
      entry ← read_log (suc below)
      chosen ←
          gets (λ n. entry.term == n.current_term && leb (quorum_size n) (replicated n (suc below)))
      if chosen then pure (some (suc below)) else older

  -- What `advance_commit_index_locked` does with the candidate that the search has found.
  unfoldable pub commit : Option LogIndex → Exec Node Bool
  unfolding apply_committed_entries
  commit none = pure false
  commit (some candidate) = do
    modify (λ n. record n { commit_index = candidate })
    apply_committed_entries
    pure true

  unfoldable pub advance_commit_index : Exec Node Bool
  unfolding quorum_index commit
  advance_commit_index = do last ← gets last_log_index; found ← quorum_index last; commit found
