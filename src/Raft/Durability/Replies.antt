-- ===== src/Raft/Durability/Replies.antt =====
-- The handling of answers to `AppendEntries`, which saves nothing.
use fault_tolerant_kv_store.Prelude.{suc, zero, Option, none, some, ltb, ◌==◌}
use fault_tolerant_kv_store.Exec.{pure}
use fault_tolerant_kv_store.Raft.Platform.{Platform, Limits}
use fault_tolerant_kv_store.Raft.Types.{NodeId, Term, LogIndex, AppendEntriesResponse}
use fault_tolerant_kv_store.Raft.Node.{Node, last_log_index}
use fault_tolerant_kv_store.Raft.Replication.{broadcast_append_entries, send_append_entries}
use fault_tolerant_kv_store.Raft.AppendReplies.{
  record_match, catch_up, accept_match, handle_success, after_term, resume_index, set_next, resend,
  handle_failure, handle_reply, handle_append_entries_response,
}
use fault_tolerant_kv_store.Raft.Durability.Defs.{IsSaved, Saves, Saves-if, Saves-continue}
use fault_tolerant_kv_store.Raft.Durability.Sending.{
  read_log-Saves, advance_commit_index-Saves, broadcast_append_entries-Saves,
  send_append_entries-Saves,
}

module _ ⦃p : Platform⦄ ⦃limits : Limits p⦄ where
  catch_up-Saves : (from : NodeId) (n : Node) → IsSaved n → Saves (catch_up from n)
  unfolding catch_up
  catch_up-Saves from n h =
      Saves-if _ (send_append_entries from) (pure tt) n (send_append_entries-Saves from n h) h

  handle_success-Saves :
      (from : NodeId) (i : LogIndex) (n : Node) → IsSaved n → Saves (handle_success from i n)
  unfolding handle_success accept_match record_match
  handle_success-Saves from i n h =
      Saves-if (ltb (last_log_index n) i) (pure tt) (accept_match from i) n h (
        Saves-continue _ _ (advance_commit_index-Saves (record_match from i n) h) λ advanced m g.
          Saves-if advanced broadcast_append_entries (catch_up from) m
            (broadcast_append_entries-Saves m g) (catch_up-Saves from m g))

  after_term-Saves :
      (t : Term) (otherwise i : LogIndex) (n : Node)
      → IsSaved n
      → Saves (after_term t otherwise i n)
  unfolding after_term
  after_term-Saves t otherwise zero n h = h
  after_term-Saves t otherwise (suc i) n h =
      Saves-continue _ _ (read_log-Saves (suc i) n h) λ e m g.
        Saves-if (e.term == t) (pure (suc (suc i))) (after_term t otherwise i) m g
          (after_term-Saves t otherwise i m g)

  resume_index-Saves : (r : AppendEntriesResponse) (n : Node) → IsSaved n → Saves (resume_index r n)
  unfolding resume_index
  resume_index-Saves r n h = go r.conflict_term
    where
      go : (o : Option Term) → Saves (resume_index (record r { conflict_term = o }) n)
      go none = h
      go (some t) = after_term-Saves t r.conflict_index (last_log_index n) n h

  handle_failure-Saves :
      (from : NodeId) (r : AppendEntriesResponse) (n : Node)
      → IsSaved n
      → Saves (handle_failure from r n)
  unfolding handle_failure resend set_next
  handle_failure-Saves from r n h = Saves-if _ (pure tt) (resend from r) n h (
      Saves-continue _ _ (resume_index-Saves r n h)
        λ i m g. send_append_entries-Saves from (set_next from i m) g)

  pub handle_append_entries_response-Saves :
      (from : NodeId) (r : AppendEntriesResponse) (n : Node)
      → IsSaved n
      → Saves (handle_append_entries_response from r n)
  unfolding handle_append_entries_response handle_reply
  handle_append_entries_response-Saves from r n h = Saves-if _ (pure tt) (handle_reply from r) n h (
      Saves-if r.success (handle_success from r.match_index) (handle_failure from r) n
        (handle_success-Saves from r.match_index n h) (handle_failure-Saves from r n h))
