-- ===== src/Raft/Platform.antt =====
-- What a Raft node uses of its surroundings: the `RaftStorage` interface of src/raft/raft.h, behind
-- which the durable state lies, and the random engine and distribution of the C++ library.
use fault_tolerant_kv_store.Prelude.{ℕ, ◌≡◌, Option, none, some}
use fault_tolerant_kv_store.Prelude.Int.{ℤ}
use fault_tolerant_kv_store.Exec.{Exception}
use fault_tolerant_kv_store.Raft.Types.{PersistentState}

-- `save` returns what it throws, if it throws, and the store that it leaves behind; `load` returns
-- the state, or what it throws.
pub data Loaded : Type 0 where
  loaded : PersistentState → Loaded
  load_failed : Exception → Loaded

pub record Platform : Type 1 where
  pub Store : Type 0
  pub load : Store → Loaded
  pub save : Store → PersistentState → Option Exception × Store
  pub Random : Type 0
  pub seed : ℕ → Random
  pub uniform : ℤ → ℤ → Random → ℤ × Random

-- The stores that a storage can be in, and the states that it can store.
pub record Limits (p : Platform) : Type 1 where
  pub IsSound : p.Store → Type 0
  pub Fits : PersistentState → Type 0

-- What the code relies on: from a sound store, a save that returns has stored the state, if it fits, and
-- leaves a sound store; a save that throws has left the stored state alone.
pub record IsDurable (p : Platform) ⦃limits : Limits p⦄ : Type 0 where
  pub saved :
      (s : p.Store) (x : PersistentState)
      → limits.IsSound s
      → limits.Fits x
      → (p.save s x).0 ≡ none
      → p.load (p.save s x).1 ≡ loaded x
  pub sound :
      (s : p.Store) (x : PersistentState)
      → limits.IsSound s
      → (p.save s x).0 ≡ none
      → limits.IsSound (p.save s x).1
  pub kept :
      (s : p.Store) (x : PersistentState) (e : Exception)
      → limits.IsSound s
      → (p.save s x).0 ≡ some e
      → p.load (p.save s x).1 ≡ p.load s
