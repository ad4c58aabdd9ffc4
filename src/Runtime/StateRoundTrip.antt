-- ===== src/Runtime/StateRoundTrip.antt =====
-- The persistent state that was encoded is decoded again.
use fault_tolerant_kv_store.Prelude.{
  ℕ, ◌<◌, ◌^◌, ◌≡◌, refl, ◌∙◌, sym, ap, Option, none, some, Bool, true, false, List, [], ◌∷◌, ◌++◌,
  ltb, ◌==◌, not, if◌then◌else◌, length, take, drop, arith, length-append, append-nil, append_assoc,
}
use fault_tolerant_kv_store.Exec.{raft_error}
use fault_tolerant_kv_store.Result.{Result, ok, err, ◌>>=◌}
use fault_tolerant_kv_store.Bytes.{Bytes, uint64_bytes, length-uint64_bytes, uint64_value-bytes}
use fault_tolerant_kv_store.Raft.Types.{Term, NodeId, LogEntry, PersistentState}
use fault_tolerant_kv_store.Storage.RoundTrip.{take-length_append, drop-length_append, ok_injective}
use fault_tolerant_kv_store.Runtime.StateFormat

abbrev pub FitsVote : Option NodeId → Type 0
FitsVote none = Unit
FitsVote (some id) = id < 2 ^ 64

abbrev pub FitLog : List LogEntry → Type 0
FitLog [] = Unit
FitLog (e ∷ es) = (e.term < 2 ^ 64) × FitLog es

-- The numbers are 64-bit integers.
abbrev pub Fits : PersistentState → Type 0
Fits s = (s.current_term < 2 ^ 64) × FitsVote s.voted_for × FitLog s.log

read_uint64-bytes :
    (v : ℕ) (rest : Bytes)
    → v < 2 ^ 64
    → StateFormat.read_uint64 (uint64_bytes v ++ rest) ≡ ok (v, rest)
unfolding StateFormat.read_uint64 uint64_bytes
read_uint64-bytes v rest h = rw (long, taken, dropped, uint64_value-bytes v h) refl
  where
    long : ltb (length (uint64_bytes v ++ rest)) 8 ≡ false
    long = ground (arith, length-append (uint64_bytes v) rest, length-uint64_bytes v)

    taken : take 8 (uint64_bytes v ++ rest) ≡ uint64_bytes v
    taken = take-length_append (uint64_bytes v) rest

    dropped : drop 8 (uint64_bytes v ++ rest) ≡ rest
    dropped = drop-length_append (uint64_bytes v) rest

read_command-append :
    (command rest : Bytes)
    → ltb StateFormat.maximum_command_bytes (length command) ≡ false
    → StateFormat.read_command (length command) (command ++ rest) ≡ ok (command, rest)
unfolding StateFormat.read_command
read_command-append command rest h =
    rw (h, enough, take-length_append command rest, drop-length_append command rest) refl
  where
    enough : ltb (length (command ++ rest)) (length command) ≡ false
    enough = ground (arith, length-append command rest)

flag_kept : (b : Bool) → not ((if b then 1 else 0) == 0) ≡ b
flag_kept true = refl
flag_kept false = refl

read_entry-bytes :
    (e : LogEntry) (rest : Bytes)
    → e.term < 2 ^ 64
    → ltb StateFormat.maximum_command_bytes (length e.command) ≡ false
    → StateFormat.read_entry (StateFormat.entry_bytes e ++ rest) ≡ ok (e, rest)
unfolding StateFormat.read_entry StateFormat.read_flag
read_entry-bytes e rest h small =
    rw
      (
        append_assoc (uint64_bytes e.term)
            (StateFormat.flag_bytes e.is_no_op ++ (uint64_bytes (length e.command) ++ e.command))
            rest,
        read_uint64-bytes e.term
            ((StateFormat.flag_bytes e.is_no_op ++ (uint64_bytes (length e.command) ++ e.command))
              ++ rest)
            h,
        flag_kept e.is_no_op,
        append_assoc (uint64_bytes (length e.command)) e.command rest,
        read_uint64-bytes (length e.command) (e.command ++ rest) (bounded small),
        read_command-append e.command rest small,
      )
      refl
  where
    bounded :
        ltb StateFormat.maximum_command_bytes (length e.command) ≡ false → length e.command < 2 ^ 64
    bounded h = ground arith

-- The inverse of a successful step of `encode_entries`.
encode_entries_ok :
    (e : LogEntry) (es : List LogEntry) (bytes : Bytes)
    → StateFormat.encode_entries (e ∷ es) ≡ ok bytes
    → (rest : Bytes) × (StateFormat.encode_entries es ≡ ok rest)
      × (ltb StateFormat.maximum_command_bytes (length e.command) ≡ false)
      × (StateFormat.entry_bytes e ++ rest ≡ bytes)
unfolding StateFormat.encode_entries
encode_entries_ok e es bytes h =
    go (StateFormat.encode_entries es) refl
      (ltb StateFormat.maximum_command_bytes (length e.command)) refl h
  where
    go :
        (r : Result Bytes)
        → StateFormat.encode_entries es ≡ r
        → (big : Bool) → ltb StateFormat.maximum_command_bytes (length e.command) ≡ big
        → (if big
            then err (raft_error "Raft command exceeds the persistence size limit")
            else (r >>= λ bytes. ok (StateFormat.entry_bytes e ++ bytes)))
          ≡ ok bytes
        → (rest : Bytes) × (StateFormat.encode_entries es ≡ ok rest)
          × (ltb StateFormat.maximum_command_bytes (length e.command) ≡ false)
          × (StateFormat.entry_bytes e ++ rest ≡ bytes)
    go r p true q h = cc
    go (err x) p false q h = cc
    go (ok rest) p false q h = (rest, p, q, ok_injective h)

read_log_entries-encode_entries :
    (es : List LogEntry) (bytes rest : Bytes)
    → FitLog es
    → StateFormat.encode_entries es ≡ ok bytes
    → StateFormat.read_log_entries (length es) (bytes ++ rest) ≡ ok (es, rest)
unfolding StateFormat.encode_entries StateFormat.read_log_entries
read_log_entries-encode_entries [] bytes rest h encoded = rw (← ok_injective encoded) refl
read_log_entries-encode_entries (e ∷ es) bytes rest (h, hs) encoded =
    let (more, encoded', small, same) = encode_entries_ok e es bytes encoded in
    rw
      (
        ← same,
        append_assoc (StateFormat.entry_bytes e) more rest,
        read_entry-bytes e (more ++ rest) h small,
        read_log_entries-encode_entries es more rest hs encoded',
      )
      refl

read_log_counted-encode_entries :
    (es : List LogEntry) (bytes : Bytes)
    → FitLog es
    → ltb StateFormat.maximum_log_entries (length es) ≡ false
    → StateFormat.encode_entries es ≡ ok bytes
    → StateFormat.read_log_counted (length es) bytes ≡ ok (es, [])
unfolding StateFormat.read_log_counted
read_log_counted-encode_entries es bytes h few encoded = rw few (
    ap (StateFormat.read_log_entries (length es)) (sym (append-nil bytes))
    ∙ read_log_entries-encode_entries es bytes [] h encoded)

decode_fields-bytes :
    (term : Term) (vote : Option NodeId) (log : List LogEntry) (entries : Bytes)
    → Fits (record { current_term = term; voted_for = vote; log = log })
    → ltb StateFormat.maximum_log_entries (length log) ≡ false
    → StateFormat.encode_entries log ≡ ok entries
    → StateFormat.decode_fields (
        uint64_bytes term
        ++ (StateFormat.vote_bytes vote ++ (uint64_bytes (length log) ++ entries)))
      ≡ ok (record { current_term = term; voted_for = vote; log = log })
unfolding StateFormat.decode_fields StateFormat.read_flag StateFormat.read_vote
decode_fields-bytes term none log entries (t, v, l) few encoded =
    rw
      (
        read_uint64-bytes term
            (StateFormat.vote_bytes none ++ (uint64_bytes (length log) ++ entries)) t,
        read_uint64-bytes (length log) entries (bounded few),
        read_log_counted-encode_entries log entries l few encoded,
      )
      refl
  where
    bounded : ltb StateFormat.maximum_log_entries (length log) ≡ false → length log < 2 ^ 64
    bounded h = ground arith
decode_fields-bytes term (some id) log entries (t, v, l) few encoded =
    rw
      (
        read_uint64-bytes term
            (StateFormat.vote_bytes (some id) ++ (uint64_bytes (length log) ++ entries)) t,
        read_uint64-bytes id (uint64_bytes (length log) ++ entries) v,
        read_uint64-bytes (length log) entries (bounded few),
        read_log_counted-encode_entries log entries l few encoded,
      )
      refl
  where
    bounded : ltb StateFormat.maximum_log_entries (length log) ≡ false → length log < 2 ^ 64
    bounded h = ground arith

decode_state-magic :
    (input : Bytes)
    → StateFormat.decode_state (StateFormat.state_magic ++ input) ≡ StateFormat.decode_fields input
unfolding StateFormat.decode_state StateFormat.strip StateFormat.decode_stripped
decode_state-magic input = refl

-- A state of 64-bit numbers that `encode_state` has encoded is what `decode_state` makes of the bytes.
pub decode_state-encode_state :
    (s : PersistentState) (bytes : Bytes)
    → Fits s
    → StateFormat.encode_state s ≡ ok bytes
    → StateFormat.decode_state bytes ≡ ok s
unfolding StateFormat.encode_state
decode_state-encode_state s bytes fits h =
    go (ltb StateFormat.maximum_log_entries (length s.log)) refl (StateFormat.encode_entries s.log)
      refl h
  where
    go :
        (big : Bool)
        → ltb StateFormat.maximum_log_entries (length s.log) ≡ big
        → (r : Result Bytes) → StateFormat.encode_entries s.log ≡ r
        → (if big
            then err (raft_error "Raft log exceeds the persistence entry limit")
            else (r >>= λ entries. ok (
                StateFormat.state_magic
                ++ (uint64_bytes s.current_term
                    ++ (StateFormat.vote_bytes s.voted_for
                        ++ (uint64_bytes (length s.log) ++ entries))))))
          ≡ ok bytes
        → StateFormat.decode_state bytes ≡ ok s
    go true few r e h = cc
    go false few (err x) e h = cc
    go false few (ok entries) e h = rw (← ok_injective h) (
        decode_state-magic _
        ∙ decode_fields-bytes s.current_term s.voted_for s.log entries fits few e)
