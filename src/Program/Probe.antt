-- ===== src/Program/Probe.antt =====
-- src/main.cpp with the node that it asks.
use fault_tolerant_kv_store.Prelude.{ℕ, ◌≡◌, refl, ap, some, [], ◌∷◌, length, ◌-◌, none}
use fault_tolerant_kv_store.Status.{Status}
use fault_tolerant_kv_store.Exec.{Exec, returns, continue}
use fault_tolerant_kv_store.Bytes.{Bytes, bytes_eq}
use fault_tolerant_kv_store.Rpc.RaftService.{serve_status}
use fault_tolerant_kv_store.Raft.Platform.{Platform}
use fault_tolerant_kv_store.Raft.Node.{Node, snapshot}
use fault_tolerant_kv_store.Raft.Types.{follower, candidate, leader}
use fault_tolerant_kv_store.Rpc.Retry.{validate_options, options_are_invalid}
use fault_tolerant_kv_store.Rpc.Client.{client_on, client_for}
use fault_tolerant_kv_store.Rpc.ErrorText.{Texts}
use fault_tolerant_kv_store.Rpc.Loopback.{loopback}
use fault_tolerant_kv_store.Rpc.Loopback.Raft.{raft_channel, status-snapshot}
use fault_tolerant_kv_store.Program.{
  StatusLine, nothing, status_of_node, status_line, success, probe_options, healthcheck_flag,
  status_flag, printed, run_probe, chosen, main, caught,
}

-- What the line about a node should say: its fields, 0 where no leader is known, and the index of the
-- last entry of the log, whose first place is taken by the sentinel.
abbrev pub line_about : ⦃p : Platform⦄ → Node → StatusLine
line_about n = record {
  node_id = n.config.node_id;
  state = elim n.state [ follower ↦ "follower" | candidate ↦ "candidate" | leader ↦ "leader" ];
  term = n.current_term;
  leader_id = elim n.leader_id [ none ↦ 0 | some id ↦ id ];
  commit_index = n.commit_index;
  last_applied = n.last_applied;
  last_log_index = length n.log - 1;
}

module _ ⦃p : Platform⦄ ⦃texts : Texts⦄ (lost : Status) where
  -- A program whose channel to a target that is not empty reaches a node, with every call delivered:
  -- with `--status` it prints the node's id, its role in words, its term, the leader it knows or 0, its
  -- commit index, the index of its last applied entry and that of its last entry; with `--healthcheck` it
  -- prints nothing. Both end with success and leave the node as it is.
  pub main-snapshot :
      (run_node : Exec Node (Unit {0})) (c : ℕ) (target : Bytes) (n : Node)
      → (main ⦃net = loopback Node⦄ run_node
            (λ _. some (raft_channel lost))
            (status_flag ∷ (c ∷ target) ∷ [])
            n
          ≡ returns (status_of_node (line_about n), success) n)
        × (main ⦃net = loopback Node⦄ run_node
              (λ _. some (raft_channel lost))
              (healthcheck_flag ∷ (c ∷ target) ∷ [])
              n
            ≡ returns (nothing, success) n)
  unfolding main chosen run_probe client_for client_on validate_options options_are_invalid bytes_eq
      serve_status snapshot status_line
  main-snapshot run_node c target n =
      let asked = status-snapshot lost probe_options n refl in
      (
        ap
            (λ r.
              caught ⦃net = loopback Node⦄
                (continue (λ a s. returns (printed ⦃net = loopback Node⦄ status_flag a) s) r))
            asked,
        ap
            (λ r.
              caught ⦃net = loopback Node⦄
                (continue (λ a s. returns (printed ⦃net = loopback Node⦄ healthcheck_flag a) s) r))
            asked,
      )
