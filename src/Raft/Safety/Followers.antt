-- ===== src/Raft/Safety/Followers.antt =====
-- What a follower does with `AppendEntries`, from its guards on.
use fault_tolerant_kv_store.Prelude.{
  ◌≤◌, ◌<◌, ◌≡◌, refl, Bool, true, false, some, arith, length, get_elem?, get_elem?-lt, ltb, ◌==◌,
  ◌||◌, not, Bool-cases, inl, inr, subst, ==_iff, ltb_irrefl, or_false_left, or_false_right,
}
use fault_tolerant_kv_store.Exec.{returns, modify}
use fault_tolerant_kv_store.Raft.Types.{NodeState, follower, NodeId, LogEntry, AppendEntriesRequest}
use fault_tolerant_kv_store.Raft.Platform.{Platform}
use fault_tolerant_kv_store.Raft.Node.{
  send, Node, last_log_index, reset_election_timeout, become_follower, adopt, step_down,
}
use fault_tolerant_kv_store.Raft.Election.{is_follower, is_some_id}
use fault_tolerant_kv_store.Raft.AppendEntries.{
  reject, reply, reject_at_end, follow_leader, reject_conflict, previous_matches, store,
  check_previous, append, take_entries, is_refused, handle_append_entries,
}
use fault_tolerant_kv_store.Raft.Safety.Logs.{
  ValidFrom, ValidFrom-mono, Ascending, Ascending-ValidFrom, ValidLog-sentinel,
}
use fault_tolerant_kv_store.Raft.Safety.Defs.{Inv, Steps}
use fault_tolerant_kv_store.Raft.Safety.Shared.{
  Later-refl, Steps-from, Steps-returns, Steps-if, step_down-Inv,
}
use fault_tolerant_kv_store.Raft.Safety.Commit.{read_log-eq}
use fault_tolerant_kv_store.Raft.Safety.Appending.{store-Steps, reject_conflict-eq}

module _ ⦃p : Platform⦄ where
  previous_matches-eq :
      (n : Node) (r : AppendEntriesRequest) (e : LogEntry)
      → Inv n
      → get_elem? n.log r.previous_log_index ≡ some e
      → (b : Bool) × (previous_matches r n ≡ returns b n)
        × (b ≡ true → e.term ≤ r.previous_log_term)
  unfolding previous_matches
  previous_matches-eq n r e v at = elim (Bool-cases (ltb 0 r.previous_log_index)) [
    | inl inside ↦ (
      e.term == r.previous_log_term,
      rw (inside, read_log-eq r.previous_log_index n e at) refl,
      λ same. omega (arith, (==_iff _ _).0 same),
    )
    | inr start ↦ (
      true,
      rw start refl,
      λ _. omega (
        arith,
        ValidLog-sentinel n.current_term n.log e v.log_valid
            (subst (λ j. get_elem? n.log j ≡ some e) (zero_index start) at),
      ),
    )
  ]
    where
      zero_index : ltb 0 r.previous_log_index ≡ false → r.previous_log_index ≡ 0
      zero_index h = ground arith

  check_previous-Steps :
      (n : Node) (from : NodeId) (r : AppendEntriesRequest)
      → Inv n
      → n.state ≡ follower
      → r.previous_log_index < length n.log
      → ValidFrom n.current_term r.previous_log_term r.entries
      → Steps n (check_previous from r n)
  unfolding check_previous reject reply send
  check_previous-Steps n from r v f lt valid =
      let (e, at) = get_elem?-lt n.log r.previous_log_index lt in
      let (b, eq, agrees) = previous_matches-eq n r e v at in
      let (i, eq', s) = reject_conflict-eq n from r e at in
      rw eq (
        Steps-if b (store from r) (reject_conflict from r) n
          (λ same. store-Steps n from r e v f at (
            ValidFrom-mono n.current_term n.current_term r.previous_log_term e.term r.entries valid
              (omega arith) (agrees same)))
          (λ _. rw eq' (Steps-returns tt (reject from r.request_id i (some e.term) n) v)))

  append-Steps :
      (n : Node) (from : NodeId) (r : AppendEntriesRequest)
      → Inv n
      → n.state ≡ follower
      → ValidFrom n.current_term r.previous_log_term r.entries
      → Steps n (append from r n)
  unfolding append reject_at_end reject
  append-Steps n from r v f valid =
      Steps-if (ltb (last_log_index n) r.previous_log_index)
        (modify (reject_at_end from r.request_id)) (check_previous from r) n
        (λ _. Steps-returns tt (reject_at_end from r.request_id n) v)
        (λ within. check_previous-Steps n from r v f (inside within v.committed) valid)
    where
      inside :
          ltb (last_log_index n) r.previous_log_index ≡ false
          → n.commit_index < length n.log
          → r.previous_log_index < length n.log
      inside h k = ground arith

  abbrev pub is_new_leader : Node → NodeId → Bool
  is_new_leader n id = not (is_follower n.state) || not (is_some_id n.leader_id id)

  abbrev pub followed : Bool → NodeId → Node → Node
  followed true id n = step_down (some id) n
  followed false id n = reset_election_timeout n

  pub follow_leader-eq :
      (n : Node) (id : NodeId)
      → follow_leader id n ≡ returns tt (followed (is_new_leader n id) id n)
  unfolding follow_leader become_follower adopt
  follow_leader-eq n id = elim (Bool-cases (is_new_leader n id)) [
    | inl changed ↦ rw (changed, ltb_irrefl n.current_term) refl
    | inr same ↦ rw same refl
  ]

  append-followed-Steps :
      (n : Node) (from id : NodeId) (r : AppendEntriesRequest) (changed : Bool)
      → Inv n
      → is_new_leader n id ≡ changed
      → ValidFrom n.current_term r.previous_log_term r.entries
      → Steps n (append from r (followed changed id n))
  unfolding step_down reset_election_timeout
  append-followed-Steps n from id r true v h valid =
      let m = step_down (some id) n in
      Steps-from n m _ (Later-refl n)
        (append-Steps m from r (step_down-Inv (some id) n v) refl valid)
  append-followed-Steps n from id r false v h valid =
      append-Steps (reset_election_timeout n) from r v (follows n.state (or_false_left _ _ h)) valid
    where
      follows : (s : NodeState) → not (is_follower s) ≡ false → s ≡ follower
      follows s h = ground arith

  take_entries-Steps :
      (n : Node) (from : NodeId) (r : AppendEntriesRequest)
      → Inv n
      → ValidFrom n.current_term r.previous_log_term r.entries
      → Steps n (take_entries from r n)
  unfolding take_entries
  take_entries-Steps n from r v valid =
      rw (follow_leader-eq n r.leader_id)
        (append-followed-Steps n from r.leader_id r _ v refl valid)

  pub handle_append_entries-Steps :
      (n : Node) (from : NodeId) (r : AppendEntriesRequest)
      → Inv n
      → r.term ≤ n.current_term
      → Ascending r.previous_log_term r.entries
      → Steps n (handle_append_entries from r n)
  unfolding handle_append_entries reject_at_end reject
  handle_append_entries-Steps n from r v le rising =
      Steps-if (is_refused n from r) (modify (reject_at_end from r.request_id))
        (take_entries from r) n (λ _. Steps-returns tt (reject_at_end from r.request_id n) v)
        (λ accepted. take_entries-Steps n from r v (
          Ascending-ValidFrom n.current_term r.term r.previous_log_term r.entries le
            (or_false_right _ _ accepted) rising))
