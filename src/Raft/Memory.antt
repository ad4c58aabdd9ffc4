-- ===== src/Raft/Memory.antt =====
-- `InMemoryRaftStorage` of src/raft/raft.cpp, as the storage of a platform.
use fault_tolerant_kv_store.Prelude.{ℕ, refl, Option, none}
use fault_tolerant_kv_store.Prelude.Int.{ℤ}
use fault_tolerant_kv_store.Exec.{Exception}
use fault_tolerant_kv_store.Raft.Types.{PersistentState}
use fault_tolerant_kv_store.Raft.Platform.{Platform, Loaded, loaded, Limits, IsDurable}

unfoldable pub load_memory : PersistentState → Loaded
load_memory state = loaded state

unfoldable pub save_memory : PersistentState → PersistentState → Option Exception × PersistentState
save_memory old state = (none, state)

module _ {Random : Type 0} (seed : ℕ → Random) (uniform : ℤ → ℤ → Random → ℤ × Random) where
  -- The random engine is the one that the C++ library has.
  abbrev pub in_memory : Platform
  in_memory = record {
    Store = PersistentState;
    load = load_memory;
    save = save_memory;
    Random = Random;
    seed = seed;
    uniform = uniform;
  }

  -- It can hold any state.
  instance abbrev pub memory_limits : Limits in_memory
  memory_limits = record { IsSound = λ s. Unit {0}; Fits = λ x. Unit {0} }

  -- The storage in memory keeps the promises of `RaftStorage`.
  pub in_memory-IsDurable : IsDurable in_memory
  unfolding load_memory save_memory
  in_memory-IsDurable = record {
    saved = λ s x u f e. refl;
    sound = λ s x u e. u;
    kept = λ s x e u h. cc;
  }
