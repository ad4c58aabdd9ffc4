-- ===== src/Tests/RuntimeExamples.antt =====
-- The storage of a Raft node at a concrete state, over a file.
use fault_tolerant_kv_store.Prelude.{◌≡◌, refl, none, some, [], ◌∷◌, true, arith}
use fault_tolerant_kv_store.Result.{ok}
use fault_tolerant_kv_store.Bytes.{Bytes, uint64_bytes}
use fault_tolerant_kv_store.Raft.Types.{PersistentState}
use fault_tolerant_kv_store.Storage.File.{load}
use fault_tolerant_kv_store.Storage.KvStore.{Persistence, KvStore}
use fault_tolerant_kv_store.Storage.Laws.{IsSynced}
use fault_tolerant_kv_store.Storage.Durable.{
  no_faults, file_persistence, file_persistence-IsPersistent,
}
use fault_tolerant_kv_store.Runtime.StateFormat.{encode_state, decode_state}
use fault_tolerant_kv_store.Runtime.StateRoundTrip.{decode_state-encode_state}
use fault_tolerant_kv_store.Runtime.RaftStorage.{save_state, save_state-IsKept, IsKept}

instance abbrev persistence : Persistence
persistence = file_persistence

-- Term 3, a vote for node 2, and a log of one command.
abbrev state : PersistentState
state = record {
  current_term = 3;
  voted_for = some 2;
  log = record { term = 1; command = 97 ∷ []; is_no_op = true } ∷ [];
}

abbrev state_contents : Bytes
state_contents =
    b'F' ∷ b'T' ∷ b'K' ∷ b'V' ∷ b'R' ∷ b'A' ∷ b'F' ∷ b'T' ∷ b'1' ∷ 3 ∷ 0 ∷ 0 ∷ 0 ∷ 0 ∷ 0 ∷ 0 ∷ 0 ∷ 1
    ∷ 2 ∷ 0 ∷ 0 ∷ 0 ∷ 0 ∷ 0 ∷ 0 ∷ 0 ∷ 1 ∷ 0 ∷ 0 ∷ 0 ∷ 0 ∷ 0 ∷ 0 ∷ 0 ∷ 1 ∷ 0 ∷ 0 ∷ 0 ∷ 0 ∷ 0 ∷ 0 ∷ 0
    ∷ 1 ∷ 1 ∷ 0 ∷ 0 ∷ 0 ∷ 0 ∷ 0 ∷ 0 ∷ 0 ∷ 97 ∷ []

state_encoded : encode_state state ≡ ok state_contents
unfolding encode_state uint64_bytes
state_encoded = refl

decode_state-encode_state_example : decode_state state_contents ≡ ok state
decode_state-encode_state_example =
    decode_state-encode_state state state_contents (omega arith, omega arith, (omega arith, tt))
      state_encoded

abbrev empty_store : KvStore
empty_store = record {
  durable = record { disk = record { file = none; temporary = none }; faults = λ _. no_faults };
  entries = [];
}

empty_store-IsSynced : IsSynced empty_store
unfolding load
empty_store-IsSynced = record { distinct = tt; stored = refl }

save_state-IsKept_example : IsKept state empty_store (save_state empty_store state)
save_state-IsKept_example =
    save_state-IsKept file_persistence-IsPersistent empty_store state empty_store-IsSynced
      (omega arith, omega arith, (omega arith, tt))
