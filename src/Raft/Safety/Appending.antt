-- ===== src/Raft/Safety/Appending.antt =====
-- Merging, storing and refusing the entries of a request, for a request whose entries rise in their
-- terms from `previous_log_term` on, as those of a leader's log do.
use fault_tolerant_kv_store.Prelude.{
  zero, suc, ◌+◌, ◌-◌, ◌≤◌, ◌<◌, ◌≡◌, ◌≢◌, refl, Bool, false, some, min, List, ◌++◌, [], ◌∷◌, arith,
  length, length-append, get_elem?, get_elem?-lt, ltb, ◌==◌, ◌||◌, not, Bool-cases, inl, inr, ◌⊎◌,
  take-append_le, subst, ltb→lt, ==_iff, ℕ_discrete, get_elem?-some_lt,
}
use fault_tolerant_kv_store.Exec.{returned, Post-continue, returns, pure}
use fault_tolerant_kv_store.Raft.Types.{
  follower, NodeId, Term, LogEntry, LogIndex, AppendEntriesRequest, append_response,
}
use fault_tolerant_kv_store.Raft.Platform.{Platform}
use fault_tolerant_kv_store.Raft.Node.{Node, last_log_index, send}
use fault_tolerant_kv_store.Raft.AppendEntries.{
  is_empty, Merge, conflict, remaining, reply, reject, conflict_start, reject_conflict, extend_log,
  commit_to, follow_commit, accept, finish, store,
}
use fault_tolerant_kv_store.Raft.Safety.Logs.{ValidFrom}
use fault_tolerant_kv_store.Raft.Safety.Defs.{Inv, Steps}
use fault_tolerant_kv_store.Raft.Safety.Shared.{
  Steps-from, Steps-returns, Steps-continue, Steps-if, persist_if-Steps,
}
use fault_tolerant_kv_store.Raft.Safety.Commit.{
  read_log-eq, apply_committed_entries-eq, committed_to, committed_to-Inv, committed_to-Later,
}
use fault_tolerant_kv_store.Raft.Safety.Merging.{log-Later, log-Inv, Ready, Merged, merge-Merges}

module _ ⦃p : Platform⦄ where
  extend_log-Steps :
      (n : Node) (changed : Bool) (rest : List LogEntry)
      → Ready rest n
      → Steps n (extend_log changed rest n)
  unfolding extend_log
  extend_log-Steps n changed rest r =
      let log = n.log ++ rest in
      let v = r.inv in
      Steps-from n (record n { log = log }) _
        (log-Later n log
          (take-append_le (n.commit_index + 1) n.log rest (omega (arith, v.committed))))
        (persist_if-Steps (changed || not (is_empty rest)) (record n { log = log })
          (log-Inv n log v r.follows r.extends
            (omega (arith, v.committed, length-append n.log rest))))

  pub commit_to-eq :
      (n : Node) (leader_commit : LogIndex)
      → Inv n
      → n.commit_index < leader_commit
      → commit_to leader_commit n
        ≡ returns tt (committed_to (min leader_commit (last_log_index n)) n)
  unfolding commit_to
  commit_to-eq n leader_commit v newer =
      apply_committed_entries-eq (record n { commit_index = min leader_commit (last_log_index n) })
        (omega (arith, v.all_applied, v.committed)) (omega (arith, v.committed))

  follow_commit-Steps :
      (n : Node) (leader_commit : LogIndex) → Inv n → Steps n (follow_commit leader_commit n)
  unfolding follow_commit
  follow_commit-Steps n leader_commit v =
      Steps-if (ltb n.commit_index leader_commit) (commit_to leader_commit) (pure tt) n
        (λ newer.
          let lt = ltb→lt _ _ newer in
          let c = min leader_commit (last_log_index n) in
          rw (commit_to-eq n leader_commit v lt) (
            returned (
              committed_to-Inv c n v (omega (arith, v.committed)),
              committed_to-Later c n (omega (arith, v.committed)),
            )))
        (λ _. Steps-returns tt n v)

  finish-Steps :
      (n : Node) (from : NodeId) (r : AppendEntriesRequest) (m : Merge)
      → Merged m n
      → Steps n (finish from r m n)
  unfolding finish reject accept
  finish-Steps n from r (conflict i t) v =
      Steps-returns tt (reject from r.request_id i (some t) n) v
  finish-Steps n from r (remaining changed rest) h =
      Steps-continue n _ _ (extend_log-Steps n changed rest h) λ _ m w _.
        Steps-continue m _ _ (follow_commit-Steps m r.leader_commit w)
          λ _ k u _. Steps-returns tt (accept from r k) u

  pub store-Steps :
      (n : Node) (from : NodeId) (r : AppendEntriesRequest) (e : LogEntry)
      → Inv n
      → n.state ≡ follower
      → get_elem? n.log r.previous_log_index ≡ some e
      → ValidFrom n.current_term e.term r.entries
      → Steps n (store from r n)
  unfolding store
  store-Steps n from r e v f at valid =
      Post-continue _ _ _ (merge-Merges r.previous_log_index r.entries n e v f at valid)
        λ m k h. Steps-from n k _ h.1 (finish-Steps k from r m h.0)

  -- A run of entries of the term `t` in the log, up to the index `k`, begins at `i`.
  pub record IsRunStart (log : List LogEntry) (t : Term) (k i : LogIndex) : Type 0 where
    pub below : i ≤ k
    pub positive : 0 < k → 0 < i
    pub run :
        (j : LogIndex) → i ≤ j → j < k → (e : LogEntry) × (get_elem? log j ≡ some e) × (e.term ≡ t)
    pub first : (i ≤ 1) ⊎ ((e : LogEntry) × (get_elem? log (i - 1) ≡ some e) × (e.term ≢ t))

  pub conflict_start-IsRunStart :
      (t : Term) (k : LogIndex) (n : Node)
      → k < length n.log
      → (i : LogIndex) × (conflict_start t k n ≡ returns i n) × IsRunStart n.log t k i
  unfolding conflict_start
  conflict_start-IsRunStart t zero n lt = (
    0,
    refl,
    record {
      below = omega arith;
      positive = λ h. h;
      run = λ j a b. absurd (omega arith);
      first = inl (omega arith);
    },
  )
  conflict_start-IsRunStart t (suc zero) n lt = (
    1,
    refl,
    record {
      below = omega arith;
      positive = λ h. h;
      run = λ j a b. absurd (omega arith);
      first = inl (omega arith);
    },
  )
  conflict_start-IsRunStart t (suc (suc k)) n lt =
      extend (conflict_start-IsRunStart t (suc k) n (omega arith))
        (get_elem?-lt n.log (suc k) (omega arith))
    where
      before : suc k ≡ suc (suc k) - 1
      before = omega arith

      extend :
          (i : LogIndex) × (conflict_start t (suc k) n ≡ returns i n) × IsRunStart n.log t (suc k) i
          → (e : LogEntry) × (get_elem? n.log (suc k) ≡ some e)
          → (i : LogIndex) × (conflict_start t (suc (suc k)) n ≡ returns i n)
            × IsRunStart n.log t (suc (suc k)) i
      extend (i, eq, s) (e, found) = elim (Bool-cases (e.term == t)) [
        | inl same ↦ (
          i,
          rw (read_log-eq (suc k) n e found, same) eq,
          record {
            below = omega (arith, s.below);
            positive = λ _. s.positive (omega arith);
            run = λ j a b. elim (ℕ_discrete j (suc k)) [
              | yes last ↦ (e, rw last found, (==_iff _ _).0 same)
              | no ne ↦ s.run j a (omega arith)
            ];
            first = s.first;
          },
        )
        | inr differ ↦ (
          suc (suc k),
          rw (read_log-eq (suc k) n e found, differ) refl,
          record {
            below = omega arith;
            positive = λ h. h;
            run = λ j a b. absurd (omega arith);
            first = inr (
              e,
              subst (λ j. get_elem? n.log j ≡ some e) before found,
              λ q. cc ((==_iff _ _).1 q),
            );
          },
        )
      ]

  -- Where there is an entry at the previous index, the refusal for its term adds one message to the
  -- outbox and changes nothing else: to the sender, with the node's term, without success, with the term
  -- of that entry, with the number of the request, and with the index at which the run of entries of
  -- that term begins that ends at the previous index.
  pub reject_conflict-eq :
      (n : Node) (from : NodeId) (r : AppendEntriesRequest) (e : LogEntry)
      → get_elem? n.log r.previous_log_index ≡ some e
      → (i : LogIndex) × (reject_conflict from r n
          ≡ returns tt (record n {
            outbox =
                n.outbox
                ++ (record {
                  from = n.config.node_id;
                  to = from;
                  rpc = append_response (record {
                    term = n.current_term;
                    success = false;
                    match_index = 0;
                    conflict_index = i;
                    conflict_term = some e.term;
                    request_id = r.request_id;
                  });
                }
                    ∷ []);
          }))
        × IsRunStart n.log e.term r.previous_log_index i
  unfolding reject_conflict reject reply send
  reject_conflict-eq n from r e at =
      let (i, eq, s) =
        conflict_start-IsRunStart e.term r.previous_log_index n
          (get_elem?-some_lt n.log r.previous_log_index at) in
      (i, rw (read_log-eq r.previous_log_index n e at, eq) refl, s)
