-- ===== src/Raft/Safety/Ticks.antt =====
-- The timers and the proposals of a node.
use fault_tolerant_kv_store.Prelude.{
  ◌+◌, ◌^◌, ◌<◌, ◌≡◌, refl, ◌∙◌, true, false, Option, none, some, [], ◌∷◌, ◌++◌, arith, length,
  ◌==◌, inl, inr, ◌⊎◌, length-append, ◌-◌,
}
use fault_tolerant_kv_store.Prelude.Int.{ℤ, pos, ltb_ℤ, ◌+ℤ◌}
use fault_tolerant_kv_store.Exec.{thrown, pure, throw, modify, invalid_argument, raft_error}
use fault_tolerant_kv_store.Raft.Types.{NodeState, leader, follower, LogEntry, LogIndex, Bytes}
use fault_tolerant_kv_store.Raft.Platform.{Platform}
use fault_tolerant_kv_store.Raft.Node.{Node, last_log_index}
use fault_tolerant_kv_store.Raft.Election.{is_leader, start_election}
use fault_tolerant_kv_store.Raft.Calls.{
  beat, heartbeat_is_due, election_is_due, tick_leader, tick_other, tick_role, tick, append_command,
  replicate, propose_leader, propose,
}
use fault_tolerant_kv_store.Raft.Safety.Logs.{ValidLog-push}
use fault_tolerant_kv_store.Raft.Safety.Defs.{Inv, Later, Steps, IsNext}
use fault_tolerant_kv_store.Raft.Safety.Shared.{
  Later-refl, Steps-from, Steps-returns, Steps-continue, Steps-if, persist-then,
}
use fault_tolerant_kv_store.Raft.Safety.Quorum.{advance-then}
use fault_tolerant_kv_store.Raft.Safety.Sends.{Sends-Steps, broadcast_append_entries-Sends}
use fault_tolerant_kv_store.Raft.Safety.Elections.{commit-push, take-push, start_election-Steps}

module _ ⦃p : Platform⦄ where
  beat-Steps : (n : Node) → Inv n → n.state ≡ leader → Steps n (beat n)
  unfolding beat
  beat-Steps n v l =
      let m = record n { heartbeat_elapsed = pos 0 } in
      Sends-Steps m _ v (broadcast_append_entries-Sends m v l)

  tick_leader-Steps : (n : Node) (t : ℤ) → Inv n → n.state ≡ leader → Steps n (tick_leader t n)
  unfolding tick_leader
  tick_leader-Steps n t v l =
      Steps-if (heartbeat_is_due n t) beat
        (modify (λ n. record n { heartbeat_elapsed = n.heartbeat_elapsed +ℤ t })) n
        (λ _. beat-Steps n v l)
        (λ _. Steps-returns tt (record n { heartbeat_elapsed = n.heartbeat_elapsed +ℤ t }) v)

  tick_other-Steps :
      (n : Node) (t : ℤ) → Inv n → n.current_term + 1 < 2 ^ 64 → Steps n (tick_other t n)
  unfolding tick_other
  tick_other-Steps n t v h =
      Steps-if (election_is_due n t) start_election
        (modify (λ n. record n { election_elapsed = n.election_elapsed +ℤ t })) n
        (λ _. start_election-Steps n v h)
        (λ _. Steps-returns tt (record n { election_elapsed = n.election_elapsed +ℤ t }) v)

  tick_role-Steps :
      (n : Node) (t : ℤ) → Inv n → n.current_term + 1 < 2 ^ 64 → Steps n (tick_role t n)
  unfolding tick_role
  tick_role-Steps n t v h =
      Steps-if (is_leader n.state) (tick_leader t) (tick_other t) n
        (λ l. tick_leader-Steps n t v (leads n.state l)) (λ _. tick_other-Steps n t v h)
    where
      leads : (s : NodeState) → is_leader s ≡ true → s ≡ leader
      leads s h = ground arith

  -- From a state with the invariant whose term is not the last that 64 bits hold, a tick has no
  -- undefined behaviour: whether it returns or throws, it leaves a later state with the invariant.
  pub tick-Steps : (n : Node) (t : ℤ) → Inv n → n.current_term + 1 < 2 ^ 64 → Steps n (tick t n)
  unfolding tick
  tick-Steps n t v h =
      Steps-if (ltb_ℤ t (pos 0)) (throw (invalid_argument "elapsed time must not be negative"))
        (tick_role t) n (λ _. thrown (v, Later-refl n)) (λ _. tick_role-Steps n t v h)

  abbrev proposal : Node → Bytes → LogEntry
  proposal n command = record { term = n.current_term; command = command; is_no_op = false }

  append_command-Inv :
      (n : Node) (command : Bytes) → Inv n → n.state ≡ leader → Inv (append_command command n)
  unfolding append_command
  append_command-Inv n command v l =
      let e = proposal n command in
      record {
        self_known = v.self_known;
        peers_known = v.peers_known;
        vote_known = v.vote_known;
        log_valid = ValidLog-push n.current_term e n.log v.log_valid (positive v.in_office) refl;
        committed = commit-push n.log e n.commit_index v.committed;
        all_applied = v.all_applied;
        in_office = v.in_office;
        leading = λ _. record {
          next_known = λ k c. wider (n.next_index k) ((v.leading l).next_known k c);
          match_known = λ k c. commit-push n.log e _ ((v.leading l).match_known k c);
        };
      }
    where
      positive : (n.state ≡ follower) ⊎ (0 < n.current_term) → 0 < n.current_term
      positive (inl f) = absurd (ground arith)
      positive (inr h) = h

      wider : (o : Option LogIndex) → IsNext n.log o → IsNext (n.log ++ (proposal n command ∷ [])) o
      wider none h = h
      wider (some i) h = (h.0, omega (arith, h.1, length-append n.log (proposal n command ∷ [])))

  append_command-Later : (n : Node) (command : Bytes) → Inv n → Later n (append_command command n)
  unfolding append_command
  append_command-Later n command v = record {
    same_config = refl;
    same_members = refl;
    term_mono = omega arith;
    vote_kept = λ _ _ h. h;
    commit_mono = omega arith;
    committed_kept = take-push n.log (proposal n command) n.commit_index v.committed;
  }

  replicate-Steps :
      (n : Node) (command : Bytes) → Inv n → n.state ≡ leader → Steps n (replicate command n)
  unfolding replicate append_command
  replicate-Steps n command v l =
      let m = append_command command n in
      let w = append_command-Inv n command v l in
      Steps-from n m _ (append_command-Later n command v) (
        persist-then m _ w λ s.
          advance-then (record m { storage = s }) _ w
            λ b k u _ same.
              Steps-continue k (λ _. pure (some (last_log_index m))) _
                (Sends-Steps k _ u (broadcast_append_entries-Sends k u (same ∙ l)))
                λ _ k' u' _. Steps-returns (some (last_log_index m)) k' u')

  propose_leader-Steps :
      (n : Node) (command : Bytes) → Inv n → n.state ≡ leader → Steps n (propose_leader command n)
  unfolding propose_leader
  propose_leader-Steps n command v l =
      Steps-if (length n.log == 2 ^ 64 - 1) (throw (raft_error "Raft log index overflow"))
        (replicate command) n (λ _. thrown (v, Later-refl n)) (λ _. replicate-Steps n command v l)

  -- From a state with the invariant, a proposal has no undefined behaviour: whether it returns or
  -- throws, it leaves a later state with the invariant.
  pub propose-Steps : (n : Node) (command : Bytes) → Inv n → Steps n (propose command n)
  unfolding propose
  propose-Steps n command v =
      Steps-if (is_leader n.state) (propose_leader command) (pure none) n
        (λ l. propose_leader-Steps n command v (leads n.state l)) (λ _. Steps-returns none n v)
    where
      leads : (s : NodeState) → is_leader s ≡ true → s ≡ leader
      leads s h = ground arith
