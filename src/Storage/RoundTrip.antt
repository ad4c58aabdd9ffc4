-- ===== src/Storage/RoundTrip.antt =====
-- A snapshot that was written is read back.
use fault_tolerant_kv_store.Prelude.{
  ℕ, ◌^◌, ◌≤◌, ◌<◌, ◌≡◌, refl, ◌∙◌, sym, ap, false, List, [], ◌∷◌, ◌++◌, arith, ltb, length, take,
  drop, Bool-cases, inl, inr, length-append, append-nil, append_assoc, ◌||◌, le→leb, or_false_right,
}
use fault_tolerant_kv_store.Result.{Result, ok, err, ◌>>=◌}
use fault_tolerant_kv_store.Bytes.{
  Bytes, bytes_eq_refl, bytes_eq_iff, uint64_bytes, length-uint64_bytes, uint64_value-bytes,
}
use fault_tolerant_kv_store.Storage.Entries.{EntryMap, has_key, emplace, AreDistinct}
use fault_tolerant_kv_store.Storage.Format.{
  file_magic, maximum_entries, maximum_field_bytes, write_field, write_entries, encode, read_exact,
  read_uint64, read_sized, read_field, read_entries, read_counted, read_body, decode,
}

module _ {ℓ} {A : Type ℓ} where
  pub take-length_append : (xs ys : List A) → take (length xs) (xs ++ ys) ≡ xs
  take-length_append [] ys = refl
  take-length_append (x ∷ xs) ys = ap (◌∷◌ x) (take-length_append xs ys)

  pub drop-length_append : (xs ys : List A) → drop (length xs) (xs ++ ys) ≡ ys
  drop-length_append [] ys = refl
  drop-length_append (x ∷ xs) ys = drop-length_append xs ys

pub read_exact-append :
    (xs ys : Bytes) (n : ℕ) → length xs ≡ n → read_exact n (xs ++ ys) ≡ ok (xs, ys)
unfolding read_exact
read_exact-append xs ys n e =
    rw
      (
        ← e,
        le→leb (length xs) (length (xs ++ ys)) (omega (arith, length-append xs ys)),
        take-length_append xs ys,
        drop-length_append xs ys,
      )
      refl

pub read_uint64-bytes :
    (v : ℕ) (rest : Bytes) → v < 2 ^ 64 → read_uint64 (uint64_bytes v ++ rest) ≡ ok (v, rest)
unfolding read_uint64
read_uint64-bytes v rest h =
    rw (read_exact-append (uint64_bytes v) rest 8 (length-uint64_bytes v), uint64_value-bytes v h)
      refl

pub ok_injective {ℓ} : {A : Type ℓ} {a b : A} → ok a ≡ ok b → a ≡ b
ok_injective h = cc

write_field_ok :
    (field bytes : Bytes)
    → write_field field ≡ ok bytes
    → (uint64_bytes (length field) ++ field ≡ bytes)
      × (ltb maximum_field_bytes (length field) ≡ false)
unfolding write_field
write_field_ok field bytes h = elim (Bool-cases (ltb maximum_field_bytes (length field))) [
  | inl big ↦ cc (rw big at h)
  | inr small ↦ (cc (rw small at h), small)
]

-- A field that may be written is read back, whatever follows it.
pub read_field-write_field :
    (field bytes rest : Bytes)
    → write_field field ≡ ok bytes
    → read_field (bytes ++ rest) ≡ ok (field, rest)
unfolding read_field read_sized
read_field-write_field field bytes rest h =
    let (e, small) = write_field_ok field bytes h in
    rw
      (
        ← e,
        append_assoc (uint64_bytes (length field)) field rest,
        read_uint64-bytes (length field) (field ++ rest) (bounded small),
        small,
        read_exact-append field rest (length field) refl,
      )
      refl
  where
    bounded : ltb maximum_field_bytes (length field) ≡ false → length field < 2 ^ 64
    bounded h = ground arith

-- `acc` holds none of the keys.
abbrev AreNew : EntryMap → EntryMap → Type 0
AreNew acc [] = Unit
AreNew acc ((k, v) ∷ m) = (has_key k acc ≡ false) × AreNew acc m

has_key-append : (k : Bytes) (a b : EntryMap) → has_key k (a ++ b) ≡ (has_key k a || has_key k b)
unfolding has_key
has_key-append k [] b = refl
has_key-append k ((j, v) ∷ a) b = ground (arith, has_key-append k a b)

AreNew-push :
    (acc m : EntryMap) (k v : Bytes)
    → AreNew acc m
    → has_key k m ≡ false
    → AreNew (acc ++ ((k, v) ∷ [])) m
unfolding has_key
AreNew-push acc [] k v h new = tt
AreNew-push acc ((j, w) ∷ m) k v (a, b) new = (
  ground (arith, has_key-append j acc ((k, v) ∷ []), bytes_eq_iff j k, bytes_eq_iff k j),
  AreNew-push acc m k v b (or_false_right _ _ new),
)

-- The inverse of a successful step of `write_entries`.
write_entries_ok :
    (key value : Bytes) (m : EntryMap) (bytes : Bytes)
    → write_entries ((key, value) ∷ m) ≡ ok bytes
    → (k : Bytes) × (v : Bytes) × (rest : Bytes) × (write_field key ≡ ok k)
      × (write_field value ≡ ok v)
      × (write_entries m ≡ ok rest)
      × (k ++ (v ++ rest) ≡ bytes)
unfolding write_entries
write_entries_ok key value m bytes h =
    go (write_field key) (write_field value) (write_entries m) refl refl refl h
  where
    go :
        (a b c : Result Bytes)
        → write_field key ≡ a
        → write_field value ≡ b
        → write_entries m ≡ c
        → (a >>= λ k. b >>= λ v. c >>= λ r. ok (k ++ (v ++ r))) ≡ ok bytes
        → (k : Bytes) × (v : Bytes) × (rest : Bytes) × (write_field key ≡ ok k)
          × (write_field value ≡ ok v)
          × (write_entries m ≡ ok rest)
          × (k ++ (v ++ rest) ≡ bytes)
    go (err e) b c p q r h = cc
    go (ok k) (err e) c p q r h = cc
    go (ok k) (ok v) (err e) p q r h = cc
    go (ok k) (ok v) (ok rest) p q r h = (k, v, rest, p, q, r, cc)

read_entries-write_entries :
    (m acc : EntryMap) (bytes rest : Bytes)
    → write_entries m ≡ ok bytes
    → AreDistinct m
    → AreNew acc m
    → read_entries (length m) acc (bytes ++ rest) ≡ ok (acc ++ m, rest)
unfolding read_entries write_entries emplace
read_entries-write_entries [] acc bytes rest h d n =
    λ i. ok (sym (append-nil acc) i, none_written i ++ rest)
  where
    none_written : bytes ≡ []
    none_written = sym (ok_injective h)
read_entries-write_entries ((key, value) ∷ m) acc bytes rest h (new, d) (n, ns) =
    let (k, v, more, hk, hv, hm, e) = write_entries_ok key value m bytes h in
    rw
      (
        ← e,
        append_assoc k (v ++ more) rest,
        read_field-write_field key k ((v ++ more) ++ rest) hk,
        append_assoc v more rest,
        read_field-write_field value v (more ++ rest) hv,
        n,
      )
      (read_entries-write_entries m (acc ++ ((key, value) ∷ [])) more rest hm d
          (AreNew-push acc m key value ns new)
        ∙ λ i. ok (append_assoc acc ((key, value) ∷ []) m i, rest))

all-AreNew : (m : EntryMap) → AreNew [] m
unfolding has_key
all-AreNew [] = tt
all-AreNew ((k, v) ∷ m) = (refl, all-AreNew m)

-- A map with at most `maximum_entries` keys, each once, that `save` has encoded is what `load`
-- decodes, in the same order.
pub decode-encode :
    (m : EntryMap) (bytes : Bytes)
    → AreDistinct m
    → length m ≤ maximum_entries
    → encode m ≡ ok bytes
    → decode bytes ≡ ok m
unfolding encode decode read_body read_counted
decode-encode m bytes distinct few h = go (write_entries m) refl h
  where
    few_test : ltb maximum_entries (length m) ≡ false
    few_test = ground arith

    go :
        (w : Result Bytes)
        → write_entries m ≡ w
        → (w >>= λ body. ok (file_magic ++ (uint64_bytes (length m) ++ body))) ≡ ok bytes
        → decode bytes ≡ ok m
    go (err e) eq h = cc
    go (ok body) eq h =
        rw
          (
            ← ok_injective h,
            read_exact-append file_magic (uint64_bytes (length m) ++ body) 8 refl,
            bytes_eq_refl file_magic,
            read_uint64-bytes (length m) body (omega arith),
            few_test,
            ← append-nil body,
            read_entries-write_entries m [] body [] eq distinct (all-AreNew m),
          )
          refl
