-- ===== src/Runtime/StorageLaws.antt =====
-- `DurableRaftStorage` of src/node/node_runtime.cpp as a `RaftStorage`.
use fault_tolerant_kv_store.Prelude.{◌≡◌, Option, none, some}
use fault_tolerant_kv_store.Exec.{Exception, logic_error}
use fault_tolerant_kv_store.Raft.Types.{PersistentState}
use fault_tolerant_kv_store.Raft.Platform.{loaded, Limits, IsDurable}
use fault_tolerant_kv_store.Storage.KvStore.{Persistence, KvStore}
use fault_tolerant_kv_store.Storage.Laws.{IsPersistent, IsSynced}
use fault_tolerant_kv_store.Runtime.StateRoundTrip.{Fits}
use fault_tolerant_kv_store.Runtime.RaftStorage.{
  load_state, save_state, IsKept, save_state-IsKept, save_state-keeps,
}
use fault_tolerant_kv_store.Runtime.Lifecycle.{Randomness, durable_platform}

module _ ⦃persistence : Persistence⦄ ⦃randomness : Randomness⦄ where
  -- Its entries are the saved ones, and the states are of 64-bit numbers.
  instance abbrev pub durable_limits : Limits durable_platform
  durable_limits = record { IsSound = IsSynced; Fits = Fits }

  loads_state :
      (state : PersistentState) (store : KvStore) (r : Option Exception × KvStore)
      → IsKept state store r
      → r.0 ≡ none
      → load_state r.1 ≡ loaded state
  loads_state state store (none, after) kept h = kept.1
  loads_state state store (some e, after) kept h = cc

  -- Over a `Persistence` that keeps its promises, it keeps those of `RaftStorage`.
  pub durable_platform-IsDurable : IsPersistent persistence → IsDurable durable_platform
  durable_platform-IsDurable law = record {
    saved = λ s x v fits h. loads_state x s (save_state s x) (save_state-IsKept law s x v fits) h;
    sound = λ s x v h. (save_state-keeps law s x (logic_error "") v).0;
    kept = λ s x e v h. (save_state-keeps law s x e v).1 h;
  }
