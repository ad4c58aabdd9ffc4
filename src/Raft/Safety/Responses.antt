-- ===== src/Raft/Safety/Responses.antt =====
-- What a leader does with the answers to `AppendEntries`: the confirmed matches.
use fault_tolerant_kv_store.Prelude.{
  ◌≤◌, ◌<◌, ◌≡◌, refl, ◌∙◌, sym, true, false, Option, none, some, List, arith, length, ltb, ◌==◌,
  Bool-cases, inl, inr, subst, Map, assign, contains, value_or_zero,
}
use fault_tolerant_kv_store.Exec.{pure}
use fault_tolerant_kv_store.Raft.Types.{leader, NodeId, LogEntry, LogIndex}
use fault_tolerant_kv_store.Raft.Platform.{Platform}
use fault_tolerant_kv_store.Raft.Node.{Node, last_log_index}
use fault_tolerant_kv_store.Raft.Replication.{broadcast_append_entries, send_append_entries}
use fault_tolerant_kv_store.Raft.AppendReplies.{
  record_match, catch_up, accept_match, handle_success, set_next,
}
use fault_tolerant_kv_store.Raft.Safety.Defs.{Inv, Steps, IsNext}
use fault_tolerant_kv_store.Raft.Safety.Shared.{Steps-returns, Steps-if}
use fault_tolerant_kv_store.Raft.Safety.Quorum.{advance-then}
use fault_tolerant_kv_store.Raft.Safety.Sends.{
  Sends-Steps, send_append_entries-Sends, broadcast_append_entries-Sends,
}

module _ ⦃p : Platform⦄ where
  -- New maps for a leader that are in range for its peers.
  maps-Inv :
      (n : Node) (next match_index : Map LogIndex)
      → Inv n
      → ((k : NodeId) → contains n.config.peers k ≡ true → IsNext n.log (next k))
      → ((k : NodeId)
          → contains n.config.peers k ≡ true
          → value_or_zero match_index k < length n.log)
      → Inv (record n { next_index = next; match_index = match_index })
  maps-Inv n next match_index v h k = record {
    self_known = v.self_known;
    peers_known = v.peers_known;
    vote_known = v.vote_known;
    log_valid = v.log_valid;
    committed = v.committed;
    all_applied = v.all_applied;
    in_office = v.in_office;
    leading = λ _. record { next_known = h; match_known = k };
  }

  -- Writes of an index in range.
  IsNext-assign :
      (log : List LogEntry) (m : Map LogIndex) (from k : NodeId) (i : LogIndex)
      → IsNext log (m k)
      → 0 < i
      → i ≤ length log
      → IsNext log (assign m from i k)
  IsNext-assign log m from k i h pos le = elim (Bool-cases (from == k)) [
    | inl hit ↦ rw hit (pos, le)
    | inr miss ↦ rw miss h
  ]

  match-assign :
      (log : List LogEntry) (m : Map LogIndex) (from k : NodeId) (i : LogIndex)
      → value_or_zero m k < length log
      → i < length log
      → value_or_zero (assign m from i) k < length log
  match-assign log m from k i h lt = elim (Bool-cases (from == k)) [
    | inl hit ↦ rw (hit, value_or_zero) lt
    | inr miss ↦ rw (miss, value_or_zero) h
  ]

  next_value :
      (log : List LogEntry) (m : Map LogIndex) (k : NodeId)
      → IsNext log (m k)
      → value_or_zero m k ≤ length log
  next_value log m k h = known (m k) refl h
    where
      known : (o : Option LogIndex) → m k ≡ o → IsNext log o → value_or_zero m k ≤ length log
      known none e h = absurd h
      known (some i) e h = rw (e, value_or_zero) (h.1)

  record_match-Inv :
      (n : Node) (from : NodeId) (index : LogIndex)
      → Inv n
      → n.state ≡ leader
      → contains n.config.peers from ≡ true
      → index < length n.log
      → Inv (record_match from index n)
  unfolding record_match
  record_match-Inv n from index v l peer lt =
      let led = v.leading l in
      maps-Inv n _ _ v
        (λ k c.
          IsNext-assign n.log n.next_index from k _ (led.next_known k c) (omega arith)
            (omega (arith, next_value n.log n.next_index from (led.next_known from peer))))
        (λ k c.
          match-assign n.log n.match_index from k _ (led.match_known k c)
            (omega (arith, led.match_known from peer)))

  pub set_next-Inv :
      (n : Node) (from : NodeId) (index : LogIndex)
      → Inv n
      → n.state ≡ leader
      → contains n.config.peers from ≡ true
      → Inv (set_next from index n)
  unfolding set_next
  set_next-Inv n from index v l peer =
      let led = v.leading l in
      maps-Inv n _ n.match_index v
        (λ k c.
          IsNext-assign n.log n.next_index from k _ (led.next_known k c) (omega arith)
            (omega (arith, led.match_known from peer, v.committed)))
        led.match_known

  pub send-Steps :
      (n : Node) (from : NodeId)
      → Inv n
      → n.state ≡ leader
      → contains n.config.peers from ≡ true
      → Steps n (send_append_entries from n)
  send-Steps n from v l peer =
      Sends-Steps n _ v (send_append_entries-Sends n from ((v.leading l).next_known from peer))

  catch_up-Steps :
      (n : Node) (from : NodeId)
      → Inv n
      → n.state ≡ leader
      → contains n.config.peers from ≡ true
      → Steps n (catch_up from n)
  unfolding catch_up
  catch_up-Steps n from v l peer =
      Steps-if (ltb (value_or_zero n.match_index from) (last_log_index n))
        (send_append_entries from) (pure tt) n (λ _. send-Steps n from v l peer)
        (λ _. Steps-returns tt n v)

  accept_match-Steps :
      (n : Node) (from : NodeId) (index : LogIndex)
      → Inv n
      → n.state ≡ leader
      → contains n.config.peers from ≡ true
      → index < length n.log
      → Steps n (accept_match from index n)
  unfolding accept_match record_match
  accept_match-Steps n from index v l peer lt =
      let m = record_match from index n in
      advance-then m _ (record_match-Inv n from index v l peer lt) λ b k u later same.
        Steps-if b broadcast_append_entries (catch_up from) k
          (λ _. Sends-Steps k _ u (broadcast_append_entries-Sends k u (same ∙ l)))
          (λ _.
            catch_up-Steps k from u (same ∙ l)
              (subst (λ c. contains c.peers from ≡ true) (sym later.same_config) peer))

  pub handle_success-Steps :
      (n : Node) (from : NodeId) (index : LogIndex)
      → Inv n
      → n.state ≡ leader
      → contains n.config.peers from ≡ true
      → Steps n (handle_success from index n)
  unfolding handle_success
  handle_success-Steps n from index v l peer =
      Steps-if (ltb (last_log_index n) index) (pure tt) (accept_match from index) n
        (λ _. Steps-returns tt n v)
        (λ within. accept_match-Steps n from index v l peer (inside within v.committed))
    where
      inside :
          ltb (last_log_index n) index ≡ false
          → n.commit_index < length n.log
          → index < length n.log
      inside h k = ground arith
