-- ===== src/Storage/Entries.antt =====
-- `EntryMap` of src/storage/kv_store.h: the pairs of a key and its value, each key once, in the order
-- in which an iteration meets them.
use fault_tolerant_kv_store.Prelude.{
  ◌≡◌, refl, Bool, true, false, Option, none, some, List, [], ◌∷◌, ◌++◌, ◌||◌, if◌then◌else◌, arith,
  Bool-cases, inl, inr,
}
use fault_tolerant_kv_store.Bytes.{Bytes, bytes_eq, bytes_eq_iff, eq_of_bytes_eq}

abbrev pub EntryMap : Type 0
EntryMap = List (Bytes × Bytes)

unfoldable pub find : Bytes → EntryMap → Option Bytes
find k [] = none
find k ((j, v) ∷ m) = if bytes_eq j k then some v else find k m

unfoldable pub has_key : Bytes → EntryMap → Bool
has_key k [] = false
has_key k ((j, v) ∷ m) = bytes_eq j k || has_key k m

unfoldable pub insert_or_assign : Bytes → Bytes → EntryMap → EntryMap
insert_or_assign k v [] = (k, v) ∷ []
insert_or_assign k v ((j, w) ∷ m) =
    if bytes_eq j k then (j, v) ∷ m else (j, w) ∷ insert_or_assign k v m

-- `erase` by a key; the number of the entries that it removes is 1 where the key is there.
unfoldable pub erase_key : Bytes → EntryMap → EntryMap
erase_key k [] = []
erase_key k ((j, v) ∷ m) = if bytes_eq j k then m else (j, v) ∷ erase_key k m

-- `emplace`: nothing where the key is there.
unfoldable pub emplace : Bytes → Bytes → EntryMap → Option EntryMap
unfolding has_key
emplace k v m = if has_key k m then none else some (m ++ ((k, v) ∷ []))

abbrev pub not_none {ℓ} : {A : Type ℓ} → Option A → Bool
not_none none = false
not_none (some a) = true

-- Each key once.
abbrev pub AreDistinct : EntryMap → Type 0
AreDistinct [] = Unit
AreDistinct ((k, v) ∷ m) = (has_key k m ≡ false) × AreDistinct m

pub find-insert_or_assign :
    (k j v : Bytes) (m : EntryMap)
    → find j (insert_or_assign k v m) ≡ (if bytes_eq k j then some v else find j m)
unfolding find insert_or_assign
find-insert_or_assign k j v [] = refl
find-insert_or_assign k j v ((i, w) ∷ m) =
    ground
      (arith, bytes_eq_iff k j, bytes_eq_iff i k, bytes_eq_iff i j, find-insert_or_assign k j v m)

has_key-insert_or_assign :
    (k j v : Bytes) (m : EntryMap)
    → has_key j (insert_or_assign k v m) ≡ (bytes_eq k j || has_key j m)
unfolding has_key insert_or_assign
has_key-insert_or_assign k j v [] = refl
has_key-insert_or_assign k j v ((i, w) ∷ m) =
    ground (
      arith,
      bytes_eq_iff k j,
      bytes_eq_iff i k,
      bytes_eq_iff i j,
      has_key-insert_or_assign k j v m,
    )

pub insert_or_assign-AreDistinct :
    (k v : Bytes) (m : EntryMap) → AreDistinct m → AreDistinct (insert_or_assign k v m)
unfolding insert_or_assign has_key
insert_or_assign-AreDistinct k v [] h = (refl, tt)
insert_or_assign-AreDistinct k v ((i, w) ∷ m) (a, b) = ground (
  arith,
  bytes_eq_iff i k,
  bytes_eq_iff k i,
  has_key-insert_or_assign k i v m,
  insert_or_assign-AreDistinct k v m b,
)

find-not_has_key : (k : Bytes) (m : EntryMap) → has_key k m ≡ false → find k m ≡ none
unfolding find has_key
find-not_has_key k [] h = refl
find-not_has_key k ((i, w) ∷ m) h = ground (arith, find-not_has_key k m)

pub find-erase_key :
    (k j : Bytes) (m : EntryMap)
    → AreDistinct m
    → find j (erase_key k m) ≡ (if bytes_eq k j then none else find j m)
unfolding find erase_key
find-erase_key k j [] h = ground arith
find-erase_key k j ((i, w) ∷ m) (a, b) = ground (
  arith,
  bytes_eq_iff k j,
  bytes_eq_iff i k,
  bytes_eq_iff i j,
  find-erase_key k j m b,
  find-not_has_key i m a,
)

has_key-erase_key :
    (k j : Bytes) (m : EntryMap) → has_key j m ≡ false → has_key j (erase_key k m) ≡ false
unfolding has_key erase_key
has_key-erase_key k j [] h = refl
has_key-erase_key k j ((i, w) ∷ m) h = ground (arith, has_key-erase_key k j m)

pub erase_key-AreDistinct : (k : Bytes) (m : EntryMap) → AreDistinct m → AreDistinct (erase_key k m)
unfolding erase_key
erase_key-AreDistinct k [] h = tt
erase_key-AreDistinct k ((i, w) ∷ m) (a, b) =
    ground (arith, has_key-erase_key k i m, erase_key-AreDistinct k m b)

pub has_key-find : (k : Bytes) (m : EntryMap) → has_key k m ≡ not_none (find k m)
unfolding find has_key
has_key-find k [] = refl
has_key-find k ((i, w) ∷ m) = ground (arith, has_key-find k m)

pub find_absent :
    (k j : Bytes) (m : EntryMap)
    → has_key k m ≡ false
    → find j m ≡ (if bytes_eq k j then none else find j m)
find_absent k j m h = elim (Bool-cases (bytes_eq k j)) [
  | inl same ↦ rw same (find-not_has_key j m (rw (eq_of_bytes_eq k j same) at h))
  | inr other ↦ rw other refl
]
