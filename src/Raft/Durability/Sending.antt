-- ===== src/Raft/Durability/Sending.antt =====
-- Sending and committing, which save nothing.
use fault_tolerant_kv_store.Prelude.{
  ℕ, ◌+◌, zero, suc, true, Option, none, some, List, [], ◌∷◌, leb, assign, get_elem?, drop, length,
  ◌-◌, if_either,
}
use fault_tolerant_kv_store.Exec.{returns, pure, for_each, undefined, throws, out_of_range}
use fault_tolerant_kv_store.Raft.Platform.{Platform, Limits}
use fault_tolerant_kv_store.Raft.Types.{NodeId, LogIndex, LogEntry}
use fault_tolerant_kv_store.Raft.Node.{Node, read_log, log_from, send, last_log_index}
use fault_tolerant_kv_store.Raft.Replication.{
  next_index_at, send_append_from, send_append_entries, broadcast_append_entries, apply_rounds,
  apply_committed_entries, quorum_index, commit, next_request_id, apply_entry, advance_commit_index,
}
use fault_tolerant_kv_store.Raft.Durability.Defs.{IsSaved, Saves, Saves-if, Saves-continue}

module _ ⦃p : Platform⦄ ⦃limits : Limits p⦄ where
  pub read_log-Saves : (i : LogIndex) (n : Node) → IsSaved n → Saves (read_log i n)
  unfolding read_log
  read_log-Saves i n h = go (get_elem? n.log i)
    where
      go :
          (o : Option LogEntry)
          → Saves {A = LogEntry} (elim o [ none ↦ undefined | some e ↦ returns e n ])
      go none = tt
      go (some e) = h

  log_from-Saves : (i : LogIndex) (n : Node) → IsSaved n → Saves (log_from i n)
  unfolding log_from
  log_from-Saves i n h =
      if_either (λ r. Saves r) (leb i (length n.log)) (returns (drop i n.log) n) undefined h tt

  next_index_at-Saves : (peer : NodeId) (n : Node) → IsSaved n → Saves (next_index_at peer n)
  unfolding next_index_at
  next_index_at-Saves peer n h = go (n.next_index peer)
    where
      go :
          (o : Option LogIndex)
          → Saves {A = LogIndex} (elim o [ none ↦ throws out_of_range n | some i ↦ returns i n ])
      go none = tt
      go (some i) = h

  send_append_from-Saves :
      (peer : NodeId) (i : LogIndex) (n : Node) → IsSaved n → Saves (send_append_from peer i n)
  unfolding send_append_from send
  send_append_from-Saves peer zero n h = tt
  send_append_from-Saves peer (suc i) n h =
      Saves-continue _ _ (log_from-Saves (suc i) n h) λ entries m g.
        Saves-continue _ _
          (read_log-Saves i
            (record m {
              append_request_id = assign m.append_request_id peer (next_request_id peer m);
            })
            g)
          λ e k u. u

  pub send_append_entries-Saves :
      (peer : NodeId) (n : Node) → IsSaved n → Saves (send_append_entries peer n)
  unfolding send_append_entries
  send_append_entries-Saves peer n h =
      Saves-continue (send_append_from peer) _ (next_index_at-Saves peer n h)
        (send_append_from-Saves peer)

  for_each-Saves :
      (peers : List NodeId) (n : Node) → IsSaved n → Saves (for_each peers send_append_entries n)
  unfolding for_each
  for_each-Saves [] n h = h
  for_each-Saves (peer ∷ peers) n h =
      Saves-continue (λ _. for_each peers send_append_entries) _
        (send_append_entries-Saves peer n h) λ _. for_each-Saves peers

  pub broadcast_append_entries-Saves : (n : Node) → IsSaved n → Saves (broadcast_append_entries n)
  unfolding broadcast_append_entries
  broadcast_append_entries-Saves n h = for_each-Saves n.config.peers n h

  apply_rounds-Saves : (k : ℕ) (n : Node) → IsSaved n → Saves (apply_rounds k n)
  unfolding apply_rounds
  apply_rounds-Saves zero n h = h
  apply_rounds-Saves (suc k) n h =
      Saves-continue _ _
        (read_log-Saves (n.last_applied + 1) (record n { last_applied = n.last_applied + 1 }) h)
        λ e m g.
          apply_rounds-Saves k
            (record m {
              committed_entries = apply_entry (n.last_applied + 1) e m.committed_entries;
            })
            g

  pub apply_committed_entries-Saves : (n : Node) → IsSaved n → Saves (apply_committed_entries n)
  unfolding apply_committed_entries
  apply_committed_entries-Saves n h = apply_rounds-Saves (n.commit_index - n.last_applied) n h

  quorum_index-Saves : (c : LogIndex) (n : Node) → IsSaved n → Saves (quorum_index c n)
  unfolding quorum_index
  quorum_index-Saves zero n h = h
  quorum_index-Saves (suc c) n h = Saves-if (leb (suc c) n.commit_index) (pure none) _ n h (
      Saves-continue _ _ (read_log-Saves (suc c) n h)
        λ e m g. Saves-if _ (pure (some (suc c))) (quorum_index c) m g (quorum_index-Saves c m g))

  commit-Saves : (o : Option LogIndex) (n : Node) → IsSaved n → Saves (commit o n)
  unfolding commit
  commit-Saves none n h = h
  commit-Saves (some c) n h =
      Saves-continue (λ _. pure true) _
        (apply_committed_entries-Saves (record n { commit_index = c }) h) λ _ m g. g

  pub advance_commit_index-Saves : (n : Node) → IsSaved n → Saves (advance_commit_index n)
  unfolding advance_commit_index
  advance_commit_index-Saves n h =
      Saves-continue commit _ (quorum_index-Saves (last_log_index n) n h) commit-Saves
