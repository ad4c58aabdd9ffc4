-- ===== src/Raft/Safety/Replies.antt =====
-- What a leader does with an answer, from its guards on.
use fault_tolerant_kv_store.Prelude.{
  zero, suc, ◌<◌, ◌≡◌, refl, true, false, Option, none, some, arith, length, get_elem?,
  get_elem?-lt, ◌==◌, ◌||◌, not, Bool-cases, inl, inr, contains, value_or_zero, or_false_left,
}
use fault_tolerant_kv_store.Exec.{returns, pure}
use fault_tolerant_kv_store.Raft.Types.{
  NodeState, leader, NodeId, Term, LogEntry, LogIndex, AppendEntriesResponse,
}
use fault_tolerant_kv_store.Raft.Platform.{Platform}
use fault_tolerant_kv_store.Raft.Node.{Node, last_log_index}
use fault_tolerant_kv_store.Raft.Election.{is_leader}
use fault_tolerant_kv_store.Raft.AppendReplies.{
  handle_success, after_term, resume_index, set_next, resend, handle_failure, handle_reply,
  handle_append_entries_response,
}
use fault_tolerant_kv_store.Raft.Safety.Defs.{Inv, Steps}
use fault_tolerant_kv_store.Raft.Safety.Shared.{Steps-returns, Steps-if}
use fault_tolerant_kv_store.Raft.Safety.Commit.{read_log-eq}
use fault_tolerant_kv_store.Raft.Safety.Responses.{set_next-Inv, send-Steps, handle_success-Steps}

module _ ⦃p : Platform⦄ where
  after_term-returns :
      (t : Term) (otherwise k : LogIndex) (n : Node)
      → k < length n.log
      → (i : LogIndex) × (after_term t otherwise k n ≡ returns i n)
  unfolding after_term
  after_term-returns t otherwise zero n lt = (otherwise, refl)
  after_term-returns t otherwise (suc k) n lt =
      search_from (after_term-returns t otherwise k n (omega arith)) (get_elem?-lt n.log (suc k) lt)
    where
      search_from :
          (i : LogIndex) × (after_term t otherwise k n ≡ returns i n)
          → (e : LogEntry) × (get_elem? n.log (suc k) ≡ some e)
          → (i : LogIndex) × (after_term t otherwise (suc k) n ≡ returns i n)
      search_from (i, eq) (e, found) = elim (Bool-cases (e.term == t)) [
        | inl hit ↦ (suc (suc k), rw (read_log-eq (suc k) n e found, hit) refl)
        | inr miss ↦ (i, rw (read_log-eq (suc k) n e found, miss) eq)
      ]

  resume_index-returns :
      (n : Node) (r : AppendEntriesResponse)
      → n.commit_index < length n.log
      → (i : LogIndex) × (resume_index r n ≡ returns i n)
  unfolding resume_index
  resume_index-returns n r lt = known r.conflict_term refl
    where
      known :
          (o : Option Term)
          → r.conflict_term ≡ o
          → (i : LogIndex) × (resume_index r n ≡ returns i n)
      known none e = (r.conflict_index, rw (e, resume_index) refl)
      known (some t) e =
          let (i, eq) = after_term-returns t r.conflict_index (last_log_index n) n (omega arith) in
          (i, rw (e, resume_index) eq)

  resend-Steps :
      (n : Node) (from : NodeId) (r : AppendEntriesResponse)
      → Inv n
      → n.state ≡ leader
      → contains n.config.peers from ≡ true
      → Steps n (resend from r n)
  unfolding resend set_next
  resend-Steps n from r v l peer =
      let (i, eq) = resume_index-returns n r v.committed in
      rw eq (send-Steps (set_next from i n) from (set_next-Inv n from i v l peer) l peer)

  handle_failure-Steps :
      (n : Node) (from : NodeId) (r : AppendEntriesResponse)
      → Inv n
      → n.state ≡ leader
      → contains n.config.peers from ≡ true
      → Steps n (handle_failure from r n)
  unfolding handle_failure
  handle_failure-Steps n from r v l peer =
      Steps-if (not (value_or_zero n.append_request_id from == r.request_id)) (pure tt)
        (resend from r) n (λ _. Steps-returns tt n v) (λ _. resend-Steps n from r v l peer)

  handle_reply-Steps :
      (n : Node) (from : NodeId) (r : AppendEntriesResponse)
      → Inv n
      → n.state ≡ leader
      → contains n.config.peers from ≡ true
      → Steps n (handle_reply from r n)
  unfolding handle_reply
  handle_reply-Steps n from r v l peer =
      Steps-if r.success (handle_success from r.match_index) (handle_failure from r) n
        (λ _. handle_success-Steps n from r.match_index v l peer)
        (λ _. handle_failure-Steps n from r v l peer)

  pub handle_append_entries_response-Steps :
      (n : Node) (from : NodeId) (r : AppendEntriesResponse)
      → Inv n
      → contains n.config.peers from ≡ true
      → Steps n (handle_append_entries_response from r n)
  unfolding handle_append_entries_response
  handle_append_entries_response-Steps n from r v peer =
      Steps-if (not (is_leader n.state) || not (r.term == n.current_term)) (pure tt)
        (handle_reply from r) n (λ _. Steps-returns tt n v)
        (λ counted. handle_reply-Steps n from r v (leads n.state (or_false_left _ _ counted)) peer)
    where
      leads : (s : NodeState) → not (is_leader s) ≡ false → s ≡ leader
      leads s h = ground arith
