-- ===== src/Storage/Memory.antt =====
-- `InMemoryKeyValueStore` of src/store/in_memory_key_value_store.cpp: its state is the map.
use fault_tolerant_kv_store.Prelude.{◌≡◌, Bool, Option, none, some, if◌then◌else◌}
use fault_tolerant_kv_store.Bytes.{Bytes, bytes_eq}
use fault_tolerant_kv_store.Storage.Entries.{
  EntryMap, find, has_key, insert_or_assign, erase_key, AreDistinct, not_none, has_key-find,
  find-insert_or_assign, find-erase_key, insert_or_assign-AreDistinct, erase_key-AreDistinct,
}

unfoldable pub put : Bytes → Bytes → EntryMap → EntryMap
put key value entries = insert_or_assign key value entries

unfoldable pub get : Bytes → EntryMap → Option Bytes
get key entries = find key entries

unfoldable pub erase : Bytes → EntryMap → Bool × EntryMap
erase key entries = (has_key key entries, erase_key key entries)

-- `put` sets its key and no other, and keeps each key once.
pub get-put :
    (key value : Bytes) (entries : EntryMap)
    → AreDistinct entries
    → ((j : Bytes)
        → get j (put key value entries) ≡ (if bytes_eq key j then some value else get j entries))
      × AreDistinct (put key value entries)
unfolding get put
get-put key value entries h = (
  λ j. find-insert_or_assign key j value entries,
  insert_or_assign-AreDistinct key value entries h,
)

-- `erase` says whether its key was there, removes it and no other, and keeps each key once.
pub get-erase :
    (key : Bytes) (entries : EntryMap)
    → AreDistinct entries
    → ((erase key entries).0 ≡ not_none (get key entries))
      × ((j : Bytes)
          → get j (erase key entries).1 ≡ (if bytes_eq key j then none else get j entries))
      × AreDistinct (erase key entries).1
unfolding get erase
get-erase key entries h = (
  has_key-find key entries,
  λ j. find-erase_key key j entries h,
  erase_key-AreDistinct key entries h,
)
