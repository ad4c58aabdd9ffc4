-- ===== src/Storage/KvStore.antt =====
-- `KvStore` of src/storage/kv_store.cpp over any `Persistence`. Each operation holds the store's mutex from its beginning to its end.
use fault_tolerant_kv_store.Prelude.{Option, none, some, Bool, true, false, if◌then◌else◌}
use fault_tolerant_kv_store.Exec.{
  Exec, Exception, invalid_argument, ◌>>=◌, ◌>>◌, pure, throw, gets, modify,
}
use fault_tolerant_kv_store.Result.{Result, ok, err}
use fault_tolerant_kv_store.Bytes.{Bytes}
use fault_tolerant_kv_store.Storage.Entries.{EntryMap, find, has_key, insert_or_assign, erase_key}

-- The interface `Persistence`: a `save` returns what it throws, if it throws, and the state of the
-- durable representation that it leaves behind.
pub record Persistence : Type 1 where
  pub Durable : Type 0
  pub load : Durable → Result EntryMap
  pub save : Durable → EntryMap → Option Exception × Durable

module _ ⦃p : Persistence⦄ where
  pub record KvStore : Type 0 where
    pub durable : p.Durable
    pub entries : EntryMap

  unfoldable pub loaded_store : p.Durable → Result EntryMap → Result KvStore
  loaded_store durable (err e) = err e
  loaded_store durable (ok entries) = ok (record { durable = durable; entries = entries })

  -- The constructor; `none` is a null pointer.
  unfoldable pub open_store : Option p.Durable → Result KvStore
  unfolding loaded_store
  open_store none = err (invalid_argument "persistence must not be null")
  open_store (some durable) = loaded_store durable (p.load durable)

  -- `entries_.swap(updated_entries)`, if the save has not thrown.
  unfoldable pub publish : Option Exception → EntryMap → Exec KvStore (Unit {0})
  publish none updated = modify (λ s. record s { entries = updated })
  publish (some e) updated = throw e

  unfoldable pub save_and_publish : EntryMap → Exec KvStore (Unit {0})
  unfolding publish
  save_and_publish updated s =
      let saved = p.save s.durable updated in
      publish saved.0 updated (record s { durable = saved.1 })

  unfoldable pub put : Bytes → Bytes → Exec KvStore (Unit {0})
  unfolding save_and_publish
  put key value = do
    updated ← gets (λ s. insert_or_assign key value s.entries)
    save_and_publish updated

  unfoldable pub get : Bytes → KvStore → Option Bytes
  get key s = find key s.entries

  unfoldable pub remove : Bytes → Exec KvStore Bool
  unfolding save_and_publish
  remove key = do updated ← gets (λ s. erase_key key s.entries); save_and_publish updated; pure true

  unfoldable pub erase : Bytes → Exec KvStore Bool
  unfolding remove
  erase key = do
    present ← gets (λ s. has_key key s.entries)
    if present then remove key else pure false
