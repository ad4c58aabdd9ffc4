-- ===== src/Storage/Interface.antt =====
-- `KeyValueStore` of include/ftkv/store/key_value_store.hpp: its operations, what they promise, and the
-- two stores that implement them.
use fault_tolerant_kv_store.Prelude.{◌≡◌, Bool, none, some, Option, if◌then◌else◌}
use fault_tolerant_kv_store.Exec.{Exec, Post, returned, returns}
use fault_tolerant_kv_store.Bytes.{Bytes, bytes_eq}
use fault_tolerant_kv_store.Storage.Entries.{EntryMap, AreDistinct, not_none}
use fault_tolerant_kv_store.Storage.KvStore
use fault_tolerant_kv_store.Storage.KvStore.{Persistence, KvStore}
use fault_tolerant_kv_store.Storage.Memory

pub record KeyValueStore (S : Type 0) : Type 0 where
  pub put : Bytes → Bytes → Exec S (Unit {0})
  pub get : Bytes → S → Option Bytes
  pub erase : Bytes → Exec S Bool

module _ {S : Type 0} (store : KeyValueStore S) where
  -- Every key has the value that it had.
  abbrev pub Same : S → S → Type 0
  Same s t = (j : Bytes) → store.get j t ≡ store.get j s

  -- The key has the value, or none; every other key has what it had.
  abbrev pub Holds : Bytes → Option Bytes → S → S → Type 0
  Holds key value s t =
      (j : Bytes) → store.get j t ≡ (if bytes_eq key j then value else store.get j s)

  -- A call that returns has done its work, and one that throws has changed nothing.
  pub record IsKeyValueStore (Valid : S → Type 0) : Type 0 where
    pub put_kept :
        (s : S) (key value : Bytes)
        → Valid s
        → Post
            (λ _ t. Valid t × Holds key (some value) s t)
            (λ _ t. Valid t × Same s t)
            (store.put key value s)
    pub erase_kept :
        (s : S) (key : Bytes)
        → Valid s
        → Post
            (λ b t. (b ≡ not_none (store.get key s)) × Valid t × Holds key none s t)
            (λ _ t. Valid t × Same s t)
            (store.erase key s)

abbrev pub memory_store : KeyValueStore EntryMap
memory_store = record {
  put = λ key value entries. returns tt (Memory.put key value entries);
  get = Memory.get;
  erase = λ key entries. let erased = Memory.erase key entries in returns erased.0 erased.1;
}

-- The store in memory, with each key once, keeps the promises of `KeyValueStore`: `put` sets its key
-- and no other, `erase` says whether its key was there and removes it and no other.
pub memory_store-IsKeyValueStore : IsKeyValueStore memory_store AreDistinct
memory_store-IsKeyValueStore = record {
  put_kept = λ s key value h.
      let (holds, distinct) = Memory.get-put key value s h in returned (distinct, holds);
  erase_kept = λ s key h.
      let (there, holds, distinct) = Memory.get-erase key s h in returned (there, distinct, holds);
}

module _ ⦃p : Persistence⦄ where
  abbrev pub durable_store : KeyValueStore KvStore
  durable_store = record { put = KvStore.put; get = KvStore.get; erase = KvStore.erase }
