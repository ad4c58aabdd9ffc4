-- ===== src/Tests/StorageExamples.antt =====
-- The theorems on the key-value store and its file at concrete entries.
use fault_tolerant_kv_store.Prelude.{◌≡◌, refl, none, some, [], ◌∷◌, true, arith, if◌then◌else◌}
use fault_tolerant_kv_store.Exec.{Post}
use fault_tolerant_kv_store.Result.{ok}
use fault_tolerant_kv_store.Bytes.{Bytes, bytes_eq, uint64_bytes}
use fault_tolerant_kv_store.Storage.Entries.{EntryMap, AreDistinct, not_none, has_key}
use fault_tolerant_kv_store.Storage.Format.{encode, decode}
use fault_tolerant_kv_store.Storage.RoundTrip.{decode-encode}
use fault_tolerant_kv_store.Storage.File.{Disk, Faults, load, save, IsAtomic, save-IsAtomic}
use fault_tolerant_kv_store.Storage.KvStore.{Persistence, KvStore, put, get, erase}
use fault_tolerant_kv_store.Storage.Laws.{IsSynced, Unchanged, put-Post, erase-Post}
use fault_tolerant_kv_store.Storage.Durable.{
  no_faults, file_persistence, file_persistence-IsPersistent,
}

instance abbrev persistence : Persistence
persistence = file_persistence

-- { "a": "xy", "b": "" }
abbrev two_entries : EntryMap
two_entries = (97 ∷ [], 120 ∷ 121 ∷ []) ∷ (98 ∷ [], []) ∷ []

two_entries-AreDistinct : AreDistinct two_entries
unfolding has_key bytes_eq
two_entries-AreDistinct = (refl, (refl, tt))

abbrev two_contents : Bytes
two_contents =
    b'F' ∷ b'T' ∷ b'K' ∷ b'V' ∷ b'S' ∷ b'T' ∷ b'R' ∷ b'1' ∷ 2 ∷ 0 ∷ 0 ∷ 0 ∷ 0 ∷ 0 ∷ 0 ∷ 0 ∷ 1 ∷ 0
    ∷ 0 ∷ 0 ∷ 0 ∷ 0 ∷ 0 ∷ 0 ∷ 97 ∷ 2 ∷ 0 ∷ 0 ∷ 0 ∷ 0 ∷ 0 ∷ 0 ∷ 0 ∷ 120 ∷ 121 ∷ 1 ∷ 0 ∷ 0 ∷ 0 ∷ 0 ∷ 0
    ∷ 0 ∷ 0 ∷ 98 ∷ 0 ∷ 0 ∷ 0 ∷ 0 ∷ 0 ∷ 0 ∷ 0 ∷ 0 ∷ []

two_encoded : encode two_entries ≡ ok two_contents
unfolding encode uint64_bytes
two_encoded = refl

decode-encode_example : decode two_contents ≡ ok two_entries
decode-encode_example =
    decode-encode two_entries two_contents two_entries-AreDistinct (omega arith) two_encoded

abbrev blank : Disk
blank = record { file = none; temporary = none }

-- The replacement of the file fails.
abbrev rename_fault : Faults
rename_fault = record no_faults { rename_fails = true }

save-IsAtomic_example : IsAtomic two_entries blank (save rename_fault two_entries blank)
save-IsAtomic_example = save-IsAtomic rename_fault two_entries blank

abbrev empty_store : KvStore
empty_store = record { durable = record { disk = blank; faults = λ _. no_faults }; entries = [] }

empty_store-IsSynced : IsSynced empty_store
unfolding load
empty_store-IsSynced = record { distinct = tt; stored = refl }

put-Post_example :
    Post
      (λ _ t.
        IsSynced t
        × ((j : Bytes)
            → get j t ≡ (if bytes_eq (1 ∷ []) j then some (2 ∷ []) else get j empty_store)))
      (Unchanged empty_store)
      (put (1 ∷ []) (2 ∷ []) empty_store)
put-Post_example =
    put-Post file_persistence-IsPersistent empty_store (1 ∷ []) (2 ∷ []) empty_store-IsSynced

erase-Post_example :
    Post
      (λ b t.
        (b ≡ not_none (get (1 ∷ []) empty_store))
        × IsSynced t
        × ((j : Bytes) → get j t ≡ (if bytes_eq (1 ∷ []) j then none else get j empty_store)))
      (Unchanged empty_store)
      (erase (1 ∷ []) empty_store)
erase-Post_example =
    erase-Post file_persistence-IsPersistent empty_store (1 ∷ []) empty_store-IsSynced
