-- ===== src/Tests/FaultExamples.antt =====
-- The theorems on a node over `DurableRaftStorage`, on a disk that works and on one that does not.
use fault_tolerant_kv_store.Prelude.{
  ℕ, ◌≡◌, refl, sym, ap, ◌∙◌, subst, true, none, some, List, [], ◌∷◌, arith,
}
use fault_tolerant_kv_store.Prelude.Int.{pos}
use fault_tolerant_kv_store.Exec.{Post, storage_error, throws, returns, left_by, for_each}
use fault_tolerant_kv_store.Result.{ok}
use fault_tolerant_kv_store.Raft.Types.{RequestVoteRequest, initial_state}
use fault_tolerant_kv_store.Raft.Platform.{Platform}
use fault_tolerant_kv_store.Raft.Node.{Node, persistent_state, reset_election_timeout}
use fault_tolerant_kv_store.Raft.Construction.{construct, fresh_node}
use fault_tolerant_kv_store.Raft.Election.{handle_request_vote, answer_vote}
use fault_tolerant_kv_store.Raft.VoteRetry.{retried_vote}
use fault_tolerant_kv_store.Raft.History.{Call, ticks, perform}
use fault_tolerant_kv_store.Raft.Recovery.{IsRecoverable, recovery_lem}
use fault_tolerant_kv_store.Raft.Safety.Defs.{Inv, Later}
use fault_tolerant_kv_store.Storage.Entries.{find, insert_or_assign}
use fault_tolerant_kv_store.Storage.File.{Faults, load, save}
use fault_tolerant_kv_store.Storage.Format.{encode}
use fault_tolerant_kv_store.Bytes.{uint64_bytes}
use fault_tolerant_kv_store.Storage.KvStore.{Persistence, KvStore}
use fault_tolerant_kv_store.Storage.Laws.{IsSynced}
use fault_tolerant_kv_store.Storage.Durable.{
  no_faults, file_persistence, file_persistence-IsPersistent,
}
use fault_tolerant_kv_store.Runtime.RaftStorage.{load_state, save_state}
use fault_tolerant_kv_store.Runtime.StateRoundTrip.{Fits}
use fault_tolerant_kv_store.Runtime.Lifecycle.{Randomness, durable_platform}
use fault_tolerant_kv_store.Runtime.StorageLaws.{durable_limits, durable_platform-IsDurable}
use fault_tolerant_kv_store.Tests.Cluster.{least, config}

instance abbrev persistence : Persistence
persistence = file_persistence

instance abbrev randomness : Randomness
randomness = record { Random = ℕ; seed = λ s. s; uniform = least }

instance abbrev durable : Platform
durable = durable_platform

-- No file, and saves that meet the faults.
abbrev store_with : Faults → KvStore
store_with faults = record {
  durable = record { disk = record { file = none; temporary = none }; faults = λ _. faults };
  entries = [];
}

store_with-IsSynced : (faults : Faults) → IsSynced (store_with faults)
unfolding load
store_with-IsSynced faults = record { distinct = tt; stored = refl }

abbrev full_node : Node
full_node = fresh_node config (store_with (record no_faults { rename_fails = true })) initial_state

abbrev request : RequestVoteRequest
request = record { term = 1; candidate_id = 2; last_log_index = 0; last_log_term = 0 }

-- The node after the vote that it could not save.
abbrev voted_node : Node
voted_node = left_by full_node (handle_request_vote 2 request full_node)

save_failed :
    handle_request_vote 2 request full_node
    ≡ throws (storage_error "failed to replace storage file") voted_node
unfolding handle_request_vote fresh_node save_state save insert_or_assign encode uint64_bytes
save_failed = refl

retried_vote_example :
    (handle_request_vote 2 request voted_node
      ≡ returns tt (answer_vote 2 true (reset_election_timeout voted_node)))
    × (load_state voted_node.storage ≡ load_state full_node.storage)
    × (full_node.voted_for ≡ none)
unfolding fresh_node
retried_vote_example =
    retried_vote 2 request full_node voted_node (storage_error "failed to replace storage file")
      (durable_platform-IsDurable file_persistence-IsPersistent)
      (store_with-IsSynced (record no_faults { rename_fails = true })) save_failed

abbrev new_node : Node
new_node = fresh_node config (store_with no_faults) initial_state

new_node-made : construct config (some (store_with no_faults)) ≡ ok new_node
unfolding construct load_state find
new_node-made = refl

-- The timer runs out.
abbrev calls : List Call
calls = ticks (pos 150) ∷ []

abbrev candidate_node : Node
candidate_node = left_by new_node (for_each calls perform new_node)

returned_calls : for_each calls perform new_node ≡ returns tt candidate_node
unfolding for_each perform fresh_node save_state save insert_or_assign encode uint64_bytes
returned_calls = refl

candidate_state :
    persistent_state candidate_node ≡ record { current_term = 1; voted_for = some 1; log = [] }
unfolding for_each perform fresh_node save_state save insert_or_assign encode uint64_bytes
candidate_state = refl

candidate-Fits : Fits (persistent_state candidate_node)
candidate-Fits = subst Fits (sym candidate_state) (omega arith, omega arith, tt)

recovery_lem_example :
    Post
      (λ _ m. IsRecoverable m)
      (λ _ m. Inv m × Later new_node m)
      (for_each calls perform new_node)
unfolding construct
recovery_lem_example =
    recovery_lem config (store_with no_faults) new_node calls
      (durable_platform-IsDurable file_persistence-IsPersistent) (store_with-IsSynced no_faults)
      new_node-made (omega arith, tt)
      (λ m h.
        subst (λ k. Fits (persistent_state k)) (ap (left_by new_node) (sym returned_calls ∙ h))
          candidate-Fits)
