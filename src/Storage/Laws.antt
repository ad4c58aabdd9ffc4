-- ===== src/Storage/Laws.antt =====
-- The contract of `KvStore`: a map that is also on the disk. A call that throws changes neither.
use fault_tolerant_kv_store.Prelude.{
  ◌≡◌, refl, sym, ◌∙◌, ap, true, false, Option, none, some, if◌then◌else◌,
}
use fault_tolerant_kv_store.Exec.{
  Exception, Post, returned, thrown, Post-continue, Post-weaken, Post-if, pure,
}
use fault_tolerant_kv_store.Result.{ok}
use fault_tolerant_kv_store.Bytes.{Bytes, bytes_eq}
use fault_tolerant_kv_store.Storage.Entries.{
  EntryMap, find, has_key, insert_or_assign, erase_key, AreDistinct, not_none, has_key-find,
  find-insert_or_assign, find-erase_key, find_absent, insert_or_assign-AreDistinct,
  erase_key-AreDistinct,
}
use fault_tolerant_kv_store.Storage.KvStore.{
  Persistence, KvStore, publish, save_and_publish, put, get, remove, erase,
}

-- What a `Persistence` promises: what is saved is loaded, and a save that throws changes nothing.
pub record IsPersistent (p : Persistence) : Type 0 where
  pub saved :
      (d : p.Durable) (m : EntryMap)
      → AreDistinct m
      → (p.save d m).0 ≡ none
      → p.load (p.save d m).1 ≡ ok m
  pub kept :
      (d : p.Durable) (m : EntryMap) (e : Exception)
      → (p.save d m).0 ≡ some e
      → p.load (p.save d m).1 ≡ p.load d

module _ ⦃p : Persistence⦄ where
  -- Each key is there once, and the durable representation holds the entries.
  pub record IsSynced (s : KvStore) : Type 0 where
    pub distinct : AreDistinct s.entries
    pub stored : p.load s.durable ≡ ok s.entries

  abbrev pub Unchanged : KvStore → Exception → KvStore → Type 0
  Unchanged s e t = IsSynced t × (t.entries ≡ s.entries)

  save_and_publish-Post :
      IsPersistent p
      → (s : KvStore) (updated : EntryMap) → IsSynced s
      → AreDistinct updated
      → Post (λ _ t. IsSynced t × (t.entries ≡ updated)) (Unchanged s) (save_and_publish updated s)
  unfolding save_and_publish publish
  save_and_publish-Post law s updated v distinct = go (p.save s.durable updated).0 refl
    where
      after : KvStore
      after = record s { durable = (p.save s.durable updated).1 }

      go :
          (failure : Option Exception)
          → (p.save s.durable updated).0 ≡ failure
          → Post
              (λ _ t. IsSynced t × (t.entries ≡ updated))
              (Unchanged s)
              (publish failure updated after)
      go none h =
          returned
            (record { distinct = distinct; stored = law.saved s.durable updated distinct h }, refl)
      go (some e) h = thrown (
        record { distinct = v.distinct; stored = law.kept s.durable updated e h ∙ v.stored },
        refl,
      )

  -- `put`, where it returns, sets its key and no other, in memory and on the disk; where it throws,
  -- both are as they were.
  pub put-Post :
      IsPersistent p
      → (s : KvStore) (key value : Bytes) → IsSynced s
      → Post
          (λ _ t.
            IsSynced t × ((j : Bytes) → get j t ≡ (if bytes_eq key j then some value else get j s)))
          (Unchanged s)
          (put key value s)
  unfolding put get
  put-Post law s key value v =
      Post-weaken
        (save_and_publish-Post law s (insert_or_assign key value s.entries) v
          (insert_or_assign-AreDistinct key value s.entries v.distinct))
        (λ _ t (w, e). (w, λ j. ap (find j) e ∙ find-insert_or_assign key j value s.entries))
        (λ _ t h. h)

  remove-Post :
      IsPersistent p
      → (s : KvStore) (key : Bytes) → IsSynced s
      → Post
          (λ b t.
            (b ≡ true)
            × IsSynced t
            × ((j : Bytes) → get j t ≡ (if bytes_eq key j then none else get j s)))
          (Unchanged s)
          (remove key s)
  unfolding remove get
  remove-Post law s key v =
      Post-continue _ _ _
        (save_and_publish-Post law s (erase_key key s.entries) v
          (erase_key-AreDistinct key s.entries v.distinct))
        λ _ t (w, e).
          returned (refl, w, λ j. ap (find j) e ∙ find-erase_key key j s.entries v.distinct)

  -- `erase`, where it returns, says whether its key was there, and removes it and no other, in memory
  -- and on the disk; where it throws, both are as they were.
  pub erase-Post :
      IsPersistent p
      → (s : KvStore) (key : Bytes) → IsSynced s
      → Post
          (λ b t.
            (b ≡ not_none (get key s))
            × IsSynced t
            × ((j : Bytes) → get j t ≡ (if bytes_eq key j then none else get j s)))
          (Unchanged s)
          (erase key s)
  unfolding erase get
  erase-Post law s key v =
      Post-if (has_key key s.entries) (remove key) (pure false) s
        (λ present.
          Post-weaken (remove-Post law s key v)
            (λ b t (e, w, h). (e ∙ sym (sym (has_key-find key s.entries) ∙ present), w, h))
            (λ _ t h. h))
        (λ absent.
          returned
            (sym absent ∙ has_key-find key s.entries, v, λ j. find_absent key j s.entries absent))
