-- ===== src/Tests/Cluster.antt =====
-- Three nodes over the storage in memory; a random draw gives the least timeout.
use fault_tolerant_kv_store.Prelude.{ℕ, ◌+◌, ◌≡◌, refl, some, [], ◌∷◌, true, false}
use fault_tolerant_kv_store.Prelude.Int.{ℤ, pos}
use fault_tolerant_kv_store.Result.{ok}
use fault_tolerant_kv_store.Raft.Types.{RaftConfig, initial_state, Message, LogEntry, vote_response}
use fault_tolerant_kv_store.Raft.Platform.{Platform}
use fault_tolerant_kv_store.Raft.Memory.{in_memory, load_memory}
use fault_tolerant_kv_store.Raft.Node.{Node}
use fault_tolerant_kv_store.Raft.Construction.{construct, fresh_node}
use fault_tolerant_kv_store.Raft.Safety.Defs.{Inv}
use fault_tolerant_kv_store.Raft.Restart.{construct-Inv}

abbrev pub least : ℤ → ℤ → ℕ → ℤ × ℕ
least lo hi draws = (lo, draws + 1)

instance abbrev pub platform : Platform
platform = in_memory (λ s. s) least

abbrev pub config : RaftConfig
config = record {
  node_id = 1;
  peers = 2 ∷ 3 ∷ [];
  election_timeout_min = pos 150;
  election_timeout_max = pos 300;
  heartbeat_interval = pos 50;
  random_seed = 7;
}

abbrev pub node : Node
node = fresh_node config initial_state initial_state

pub node-made : construct config (some initial_state) ≡ ok node
unfolding construct load_memory
node-made = refl

pub node-Inv : Inv node
node-Inv = construct-Inv config (some initial_state) node node-made

-- A vote for node 1 in the term 1.
abbrev pub vote_from : ℕ → Message
vote_from k = record {
  from = k;
  to = 1;
  rpc = vote_response (record { term = 1; vote_granted = true });
}

abbrev pub entry : ℕ → LogEntry
entry t = record { term = t; command = t ∷ []; is_no_op = false }
