-- ===== src/Raft/Durability/Appending.antt =====
-- The saves of `handle_append_entries_locked`.
use fault_tolerant_kv_store.Prelude.{
  ◌+◌, suc, zero, Bool, true, false, some, List, [], ◌∷◌, ◌++◌, leb, ltb, ◌==◌, min, if◌then◌else◌,
  append-nil, subst, sym,
}
use fault_tolerant_kv_store.Exec.{Exec, Outcome, returns, throws, undefined, continue, pure, modify}
use fault_tolerant_kv_store.Raft.Platform.{Platform, Limits, IsDurable}
use fault_tolerant_kv_store.Raft.Types.{
  NodeId, Term, LogIndex, LogEntry, AppendEntriesRequest, entry_eq,
}
use fault_tolerant_kv_store.Raft.Node.{
  Node, last_log_index, send, reset_election_timeout, become_follower,
}
use fault_tolerant_kv_store.Raft.AppendEntries.{
  Merge, conflict, remaining, reply, reject, reject_at_end, follow_leader, conflict_start,
  reject_conflict, previous_matches, match_entry, replace_from, compare_entry, merge, extend_log,
  commit_to, follow_commit, accept, finish, store, check_previous, append, take_entries, is_refused,
  handle_append_entries,
}
use fault_tolerant_kv_store.Raft.Durability.Defs.{
  IsSaved, Saves, Saves-if, Saves-continue, persist-Saves, become_follower-Saves,
}
use fault_tolerant_kv_store.Raft.Durability.Sending.{read_log-Saves, apply_committed_entries-Saves}

module _ ⦃p : Platform⦄ ⦃limits : Limits p⦄ where
  follow_leader-Saves :
      (id : NodeId) (n : Node) → IsDurable p → IsSaved n → Saves (follow_leader id n)
  unfolding follow_leader reset_election_timeout
  follow_leader-Saves id n law h =
      Saves-if _ (become_follower n.current_term (some id)) (modify reset_election_timeout) n
        (become_follower-Saves n.current_term (some id) n law h) h

  conflict_start-Saves :
      (t : Term) (i : LogIndex) (n : Node) → IsSaved n → Saves (conflict_start t i n)
  unfolding conflict_start
  conflict_start-Saves t zero n h = h
  conflict_start-Saves t (suc zero) n h = h
  conflict_start-Saves t (suc (suc i)) n h =
      Saves-continue _ _ (read_log-Saves (suc i) n h) λ e m g.
        Saves-if (e.term == t) (conflict_start t (suc i)) (pure (suc (suc i))) m
          (conflict_start-Saves t (suc i) m g) g

  reject_conflict-Saves :
      (from : NodeId) (r : AppendEntriesRequest) (n : Node)
      → IsSaved n
      → Saves (reject_conflict from r n)
  unfolding reject_conflict reject reply send
  reject_conflict-Saves from r n h =
      Saves-continue _ _ (read_log-Saves r.previous_log_index n h) λ e m g.
        Saves-continue _ _ (conflict_start-Saves e.term r.previous_log_index m g) λ i k u. u

  previous_matches-Saves :
      (r : AppendEntriesRequest) (n : Node) → IsSaved n → Saves (previous_matches r n)
  unfolding previous_matches
  previous_matches-Saves r n h =
      Saves-if (ltb 0 r.previous_log_index) _ (pure true) n
        (Saves-continue _ _ (read_log-Saves r.previous_log_index n h) λ e m g. g) h

  -- The comparison leaves the node saved, unless it says that the log has changed.
  abbrev Compares : Outcome Node Merge → Type 0
  Compares (returns (conflict i t) m) = IsSaved m
  Compares (returns (remaining true es) m) = limits.IsSound m.storage
  Compares (returns (remaining false es) m) = IsSaved m
  Compares (throws e m) = Unit
  Compares undefined = Unit

  Compares-continue :
      {B : Type 0} (f : B → Exec Node Merge) (r : Outcome Node B)
      → Saves r
      → ((b : B) (m : Node) → IsSaved m → Compares (f b m))
      → Compares (continue f r)
  Compares-continue f (returns b m) h k = k b m h
  Compares-continue f (throws e m) h k = tt
  Compares-continue f undefined h k = tt

  Compares-if :
      (b : Bool) (m k : Exec Node Merge) (n : Node)
      → Compares (m n)
      → Compares (k n)
      → Compares ((if b then m else k) n)
  Compares-if true m k n h g = h
  Compares-if false m k n h g = g

  replace_from-Compares :
      (i : LogIndex) (local : LogEntry) (es : List LogEntry) (n : Node)
      → IsSaved n
      → Compares (replace_from i local es n)
  unfolding replace_from
  replace_from-Compares i local es n h =
      Compares-if (leb i n.commit_index) (pure (conflict i local.term)) _ n h h.0

  merge-Compares :
      (i : LogIndex) (es : List LogEntry) (n : Node) → IsSaved n → Compares (merge i es n)
  unfolding merge compare_entry match_entry
  merge-Compares i [] n h = h
  merge-Compares i (e ∷ es) n h =
      Compares-if (ltb (last_log_index n) i) (pure (remaining false (e ∷ es))) _ n h (
        Compares-continue _ _ (read_log-Saves i n h) λ local m g.
          Compares-if (local.term == e.term) _ (replace_from i local (e ∷ es)) m
            (Compares-if (entry_eq local e) (merge (i + 1) es) _ m (merge-Compares (i + 1) es m g)
              tt)
            (replace_from-Compares i local (e ∷ es) m g))

  follow_commit-Saves : (c : LogIndex) (n : Node) → IsSaved n → Saves (follow_commit c n)
  unfolding follow_commit commit_to
  follow_commit-Saves c n h =
      Saves-if (ltb n.commit_index c) (commit_to c) (pure tt) n
        (apply_committed_entries-Saves (record n { commit_index = min c (last_log_index n) }) h) h

  -- A log that has changed is saved; one that has not, and to which nothing is added, is saved.
  extend_log-Saves :
      (changed : Bool) (es : List LogEntry) (n : Node)
      → IsDurable p
      → Compares (returns (remaining changed es) n)
      → Saves (extend_log changed es n)
  unfolding extend_log
  extend_log-Saves true es n law h = persist-Saves (record n { log = n.log ++ es }) law h
  extend_log-Saves false (e ∷ es) n law h =
      persist-Saves (record n { log = n.log ++ (e ∷ es) }) law h.0
  extend_log-Saves false [] n law h =
      subst (λ log. IsSaved (record n { log = log })) (sym (append-nil n.log)) h

  finish-Saves :
      (from : NodeId) (r : AppendEntriesRequest) (k : Merge) (n : Node)
      → IsDurable p
      → Compares (returns k n)
      → Saves (finish from r k n)
  unfolding finish reject accept reply send
  finish-Saves from r (conflict i t) n law h = h
  finish-Saves from r (remaining changed es) n law h =
      Saves-continue _ _ (extend_log-Saves changed es n law h)
        λ _ m g. Saves-continue _ _ (follow_commit-Saves r.leader_commit m g) λ _ k u. u

  finish-after :
      (from : NodeId) (r : AppendEntriesRequest) (o : Outcome Node Merge)
      → IsDurable p
      → Compares o
      → Saves (continue (finish from r) o)
  finish-after from r (returns k n) law h = finish-Saves from r k n law h
  finish-after from r (throws e n) law h = tt
  finish-after from r undefined law h = tt

  store-Saves :
      (from : NodeId) (r : AppendEntriesRequest) (n : Node)
      → IsDurable p
      → IsSaved n
      → Saves (store from r n)
  unfolding store
  store-Saves from r n law h =
      finish-after from r _ law (merge-Compares (r.previous_log_index + 1) r.entries n h)

  append-Saves :
      (from : NodeId) (r : AppendEntriesRequest) (n : Node)
      → IsDurable p
      → IsSaved n
      → Saves (append from r n)
  unfolding append check_previous reject_at_end reject reply send
  append-Saves from r n law h =
      Saves-if (ltb (last_log_index n) r.previous_log_index)
        (modify (reject_at_end from r.request_id)) (check_previous from r) n h
        (Saves-continue _ _ (previous_matches-Saves r n h) λ matches m g.
          Saves-if matches (store from r) (reject_conflict from r) m (store-Saves from r m law g)
            (reject_conflict-Saves from r m g))

  pub handle_append_entries-Saves :
      (from : NodeId) (r : AppendEntriesRequest) (n : Node)
      → IsDurable p
      → IsSaved n
      → Saves (handle_append_entries from r n)
  unfolding handle_append_entries take_entries reject_at_end reject reply send
  handle_append_entries-Saves from r n law h =
      Saves-if (is_refused n from r) (modify (reject_at_end from r.request_id))
        (take_entries from r) n h
        (Saves-continue _ _ (follow_leader-Saves r.leader_id n law h)
          λ _ m. append-Saves from r m law)
