-- ===== src/Runtime/RaftStorage.antt =====
-- `DurableRaftStorage` of src/node/node_runtime.cpp: the state of a Raft node under one key of a
-- `KvStore`.
use fault_tolerant_kv_store.Prelude.{◌≡◌, refl, ◌∙◌, ap, Option, none, some, [], ◌∷◌, if◌then◌else◌}
use fault_tolerant_kv_store.Exec.{
  Exception, Outcome, Post, returned, thrown, returns, throws, undefined, logic_error,
}
use fault_tolerant_kv_store.Result.{Result, ok, err}
use fault_tolerant_kv_store.Bytes.{Bytes, bytes_eq, bytes_eq_refl}
use fault_tolerant_kv_store.Raft.Types.{PersistentState, initial_state}
use fault_tolerant_kv_store.Raft.Platform.{Loaded, loaded, load_failed}
use fault_tolerant_kv_store.Storage.Entries.{find}
use fault_tolerant_kv_store.Storage.KvStore.{
  Persistence, KvStore, put, get, open_store, loaded_store,
}
use fault_tolerant_kv_store.Storage.Laws.{IsPersistent, IsSynced, Unchanged, put-Post}
use fault_tolerant_kv_store.Runtime.StateFormat.{encode_state, decode_state}
use fault_tolerant_kv_store.Runtime.StateRoundTrip.{Fits, decode_state-encode_state}

-- "raft-hard-state"
abbrev pub state_key : Bytes
state_key =
    b'r' ∷ b'a' ∷ b'f' ∷ b't' ∷ b'-' ∷ b'h' ∷ b'a' ∷ b'r' ∷ b'd' ∷ b'-' ∷ b's' ∷ b't' ∷ b'a' ∷ b't'
    ∷ b'e' ∷ []

-- The result of `decode_state` as the result of `load`.
abbrev pub as_loaded : Result PersistentState → Loaded
as_loaded (ok state) = loaded state
as_loaded (err e) = load_failed e

abbrev pub decoded_or_initial : Option Bytes → Loaded
decoded_or_initial none = loaded initial_state
decoded_or_initial (some encoded) = as_loaded (decode_state encoded)

module _ ⦃p : Persistence⦄ where
  unfoldable pub load_state : KvStore → Loaded
  unfolding get decode_state
  load_state store = decoded_or_initial (get state_key store)

  -- What the call of `put` throws, if it throws, and the store that it leaves; `put` is not undefined.
  abbrev pub settle : KvStore → Outcome KvStore (Unit {0}) → Option Exception × KvStore
  settle store (returns _ after) = (none, after)
  settle store (throws e after) = (some e, after)
  settle store undefined = (some (logic_error "undefined"), store)

  abbrev pub put_encoded : Result Bytes → KvStore → Option Exception × KvStore
  put_encoded (err e) store = (some e, store)
  put_encoded (ok bytes) store = settle store (put state_key bytes store)

  unfoldable pub save_state : KvStore → PersistentState → Option Exception × KvStore
  unfolding put encode_state
  save_state store state = put_encoded (encode_state state) store

  -- The store goes on, and a process that opens its durable representation finds the same.
  abbrev pub Holds : Loaded → KvStore → Type 0
  Holds l store =
      IsSynced store × (load_state store ≡ l) × (open_store (some store.durable) ≡ ok store)

  -- A save that returns holds the state, one that throws holds what was loaded before.
  abbrev pub IsKept : PersistentState → KvStore → Option Exception × KvStore → Type 0
  IsKept state before (none, after) = Holds (loaded state) after
  IsKept state before (some e, after) = Holds (load_state before) after

  synced-Holds : (store : KvStore) → IsSynced store → Holds (load_state store) store
  unfolding open_store loaded_store
  synced-Holds store v = (v, refl, rw v.stored refl)

  put-IsKept :
      (state : PersistentState) (bytes : Bytes) (store : KvStore) (r : Outcome KvStore (Unit {0}))
      → decode_state bytes ≡ ok state
      → Post
          (λ _ t.
            IsSynced t
            × ((j : Bytes) → get j t ≡ (if bytes_eq state_key j then some bytes else get j store)))
          (Unchanged store)
          r
      → IsKept state store (settle store r)
  unfolding load_state get open_store loaded_store
  put-IsKept state bytes store r decoded (returned {s = after} (w, at)) =
      (w, ap decoded_or_initial found ∙ ap as_loaded decoded, (synced-Holds after w).2)
    where
      found : get state_key after ≡ some bytes
      found = at state_key ∙ rw (bytes_eq_refl state_key) refl
  put-IsKept state bytes store r decoded (thrown {s = after} (w, same)) =
      (w, ap (λ m. decoded_or_initial (find state_key m)) same, (synced-Holds after w).2)

  -- Over a `Persistence` that keeps its promises, a save of a state of 64-bit numbers that returns
  -- leaves a store that loads that state, and one that throws leaves a store that loads what it loaded
  -- before; in both cases a process that opens the durable data anew finds the same store.
  pub save_state-IsKept :
      IsPersistent p
      → (store : KvStore) (state : PersistentState) → IsSynced store
      → Fits state
      → IsKept state store (save_state store state)
  unfolding save_state
  save_state-IsKept law store state v fits = encoded (encode_state state) refl
    where
      encoded :
          (r : Result Bytes) → encode_state state ≡ r → IsKept state store (put_encoded r store)
      encoded (err e) h = synced-Holds store v
      encoded (ok bytes) h =
          put-IsKept state bytes store (put state_key bytes store)
            (decode_state-encode_state state bytes fits h) (put-Post law store state_key bytes v)

  put-keeps :
      (bytes : Bytes) (store : KvStore) (x : Exception) (r : Outcome KvStore (Unit {0}))
      → Post
          (λ _ t.
            IsSynced t
            × ((j : Bytes) → get j t ≡ (if bytes_eq state_key j then some bytes else get j store)))
          (Unchanged store)
          r
      → IsSynced (settle store r).1
        × ((settle store r).0 ≡ some x → load_state (settle store r).1 ≡ load_state store)
  unfolding load_state get
  put-keeps bytes store x r (returned (w, at)) = (w, λ h. cc)
  put-keeps bytes store x r (thrown (w, same)) =
      (w, λ h. ap (λ m. decoded_or_initial (find state_key m)) same)

  -- Whatever the state, a save leaves a store whose entries are the saved ones, and if it throws,
  -- the store loads what it loaded before.
  pub save_state-keeps :
      IsPersistent p
      → (store : KvStore) (state : PersistentState) (x : Exception) → IsSynced store
      → IsSynced (save_state store state).1
        × ((save_state store state).0 ≡ some x
            → load_state (save_state store state).1 ≡ load_state store)
  unfolding save_state
  save_state-keeps law store state x v = encoded (encode_state state)
    where
      encoded :
          (r : Result Bytes)
          → IsSynced (put_encoded r store).1
            × ((put_encoded r store).0 ≡ some x
                → load_state (put_encoded r store).1 ≡ load_state store)
      encoded (err e) = (v, λ h. refl)
      encoded (ok bytes) =
          put-keeps bytes store x (put state_key bytes store) (put-Post law store state_key bytes v)
