-- ===== src/Raft/Safety/Elections.antt =====
-- Starting an election and taking office.
use fault_tolerant_kv_store.Prelude.{
  ℕ, ◌+◌, ◌^◌, ◌<◌, ◌≡◌, refl, ◌∙◌, sym, true, some, List, [], ◌∷◌, ◌++◌, map, arith, length,
  length-append, get_elem?, get_elem?-lt, if◌then◌else◌, Map, assign, contains, inr, value_or_zero,
  append-nil, append_assoc, take, take-append_le,
}
use fault_tolerant_kv_store.Exec.{returns, returned}
use fault_tolerant_kv_store.Raft.Types.{NodeId, LogEntry, RequestVoteRequest, vote_request}
use fault_tolerant_kv_store.Raft.Platform.{Platform}
use fault_tolerant_kv_store.Raft.Node.{Node, last_log_index, last_log_term, send}
use fault_tolerant_kv_store.Raft.Election.{
  assign_all, take_office, become_leader, stand, request_votes, start_election, ask_for_votes,
  has_quorum,
}
use fault_tolerant_kv_store.Raft.Safety.Logs.{ValidLog-mono, ValidLog-push}
use fault_tolerant_kv_store.Raft.Safety.Defs.{Inv, Later, Steps}
use fault_tolerant_kv_store.Raft.Safety.Shared.{Later-refl, Steps-from, Steps-if, persist-then}
use fault_tolerant_kv_store.Raft.Safety.Commit.{read_log-eq}
use fault_tolerant_kv_store.Raft.Safety.Quorum.{advance-then}
use fault_tolerant_kv_store.Raft.Safety.Sends.{Sends-Steps, broadcast_append_entries-Sends}

assign_all_lem :
    (m : Map ℕ) (ks : List NodeId) (v : ℕ) (k : NodeId)
    → assign_all m ks v k ≡ (if contains ks k then some v else m k)
unfolding assign_all contains
assign_all_lem m [] v k = refl
assign_all_lem m (j ∷ ks) v k = ground (arith, assign_all_lem (assign m j v) ks v k)

assign_all-contains :
    (m : Map ℕ) (ks : List NodeId) (v : ℕ) (k : NodeId)
    → contains ks k ≡ true
    → assign_all m ks v k ≡ some v
assign_all-contains m ks v k c = rw (assign_all_lem m ks v k, c) refl

-- A log with one entry more.
module _ (log : List LogEntry) (e : LogEntry) where
  pub commit-push : (c : ℕ) → c < length log → c < length (log ++ (e ∷ []))
  commit-push c h = omega (arith, length-append log (e ∷ []))

  pub take-push : (c : ℕ) → c < length log → take (c + 1) (log ++ (e ∷ [])) ≡ take (c + 1) log
  take-push c h = take-append_le (c + 1) log (e ∷ []) (omega arith)

module _ ⦃p : Platform⦄ where
  abbrev no_op : Node → LogEntry
  no_op n = record { term = n.current_term; command = []; is_no_op = true }

  take_office-Inv : (n : Node) → Inv n → 0 < n.current_term → Inv (take_office n)
  unfolding take_office
  take_office-Inv n v h = record {
    self_known = v.self_known;
    peers_known = v.peers_known;
    vote_known = v.vote_known;
    log_valid = ValidLog-push n.current_term _ n.log v.log_valid h refl;
    committed = commit-push n.log _ n.commit_index v.committed;
    all_applied = v.all_applied;
    in_office = inr h;
    leading = λ _. record {
      next_known = λ k c.
          rw (assign_all-contains n.next_index n.config.peers _ k c)
            (omega arith, omega (arith, length-append n.log (no_op n ∷ []), v.committed));
      match_known = λ k c.
          rw (value_or_zero, assign_all-contains n.match_index n.config.peers 0 k c)
            (commit-push n.log _ 0 (omega (arith, v.committed)));
    };
  }

  take_office-Later : (n : Node) → Inv n → Later n (take_office n)
  unfolding take_office
  take_office-Later n v = record {
    same_config = refl;
    same_members = refl;
    term_mono = omega arith;
    vote_kept = λ _ _ h. h;
    commit_mono = omega arith;
    committed_kept = take-push n.log _ n.commit_index v.committed;
  }

  pub become_leader-Steps : (n : Node) → Inv n → 0 < n.current_term → Steps n (become_leader n)
  unfolding become_leader take_office
  become_leader-Steps n v h =
      let m = take_office n in
      let w = take_office-Inv n v h in
      Steps-from n m _ (take_office-Later n v) (
        persist-then m _ w λ s.
          advance-then (record m { storage = s }) _ w
            λ b k u _ e. Sends-Steps k _ u (broadcast_append_entries-Sends k u e))

  stand-Inv : (n : Node) → Inv n → n.current_term + 1 < 2 ^ 64 → Inv (stand n)
  unfolding stand
  stand-Inv n v h = record {
    self_known = v.self_known;
    peers_known = v.peers_known;
    vote_known = v.self_known;
    log_valid = ValidLog-mono n.current_term _ n.log v.log_valid (omega arith);
    committed = v.committed;
    all_applied = v.all_applied;
    in_office = inr (omega arith);
    leading = λ e. cc;
  }

  stand-Later : (n : Node) → n.current_term + 1 < 2 ^ 64 → Later n (stand n)
  unfolding stand
  stand-Later n h = record {
    same_config = refl;
    same_members = refl;
    term_mono = omega arith;
    vote_kept = λ e _ _. absurd (omega arith);
    commit_mono = omega arith;
    committed_kept = refl;
  }

  pub request_votes-eq :
      (r : RequestVoteRequest) (peers : List NodeId) (n : Node)
      → request_votes r peers n ≡ record n {
        outbox =
            n.outbox
            ++ map (λ k. record { from = n.config.node_id; to = k; rpc = vote_request r }) peers;
      }
  unfolding request_votes send
  request_votes-eq r [] n = λ i. record n { outbox = sym (append-nil n.outbox) i }
  request_votes-eq r (k ∷ ks) n = request_votes-eq r ks (send k (vote_request r) n) ∙ λ i.
      record n {
        outbox =
            append_assoc n.outbox
              (record { from = n.config.node_id; to = k; rpc = vote_request r } ∷ [])
              (map (λ j. record { from = n.config.node_id; to = j; rpc = vote_request r }) ks) i;
      }

  pub last_log_term-eq :
      (n : Node)
      → n.commit_index < length n.log
      → (e : LogEntry) × (get_elem? n.log (last_log_index n) ≡ some e)
        × (last_log_term n ≡ returns e.term n)
  unfolding last_log_term
  last_log_term-eq n h =
      let (e, found) = get_elem?-lt n.log (last_log_index n) (omega arith) in
      (e, found, rw (read_log-eq (last_log_index n) n e found) refl)

  ask_for_votes-Steps : (n : Node) → Inv n → Steps n (ask_for_votes n)
  unfolding ask_for_votes
  ask_for_votes-Steps n v =
      let (e, _, eq) = last_log_term-eq n v.committed in
      rw (eq, request_votes-eq) (returned (v, Later-refl n))

  pub start_election-Steps :
      (n : Node) → Inv n → n.current_term + 1 < 2 ^ 64 → Steps n (start_election n)
  unfolding start_election stand
  start_election-Steps n v h =
      let m = stand n in
      let w = stand-Inv n v h in
      Steps-from n m _ (stand-Later n h) (
        persist-then m _ w λ s.
          let k = record m { storage = s } in
          Steps-if (has_quorum k) become_leader ask_for_votes k
            (λ _. become_leader-Steps k w (omega arith)) (λ _. ask_for_votes-Steps k w))
