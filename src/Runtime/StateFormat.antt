-- ===== src/Runtime/StateFormat.antt =====
-- src/node/node_runtime.cpp: the bytes of the persistent state of a Raft node. Reading takes what is
-- left of the bytes from the offset on and gives what is left behind it.
use fault_tolerant_kv_store.Prelude.{
  ℕ, zero, suc, ◌*◌, Option, none, some, Bool, true, false, List, [], ◌∷◌, ◌++◌, ltb, ◌==◌, ◌||◌,
  not, if◌then◌else◌, length, take, drop,
}
use fault_tolerant_kv_store.Exec.{raft_error}
use fault_tolerant_kv_store.Result.{Result, ok, err, ◌>>=◌}
use fault_tolerant_kv_store.Bytes.{Bytes, uint64_bytes, uint64_value}
use fault_tolerant_kv_store.Raft.Types.{Term, NodeId, LogEntry, PersistentState}

-- "FTKVRAFT1"
abbrev pub state_magic : Bytes
state_magic = b'F' ∷ b'T' ∷ b'K' ∷ b'V' ∷ b'R' ∷ b'A' ∷ b'F' ∷ b'T' ∷ b'1' ∷ []

abbrev pub maximum_log_entries : ℕ
maximum_log_entries = 1_000_000

abbrev pub maximum_command_bytes : ℕ
maximum_command_bytes = 64 * 1024 * 1024

unfoldable pub read_uint64 : Bytes → Result (ℕ × Bytes)
read_uint64 input =
    if ltb (length input) 8
    then err (raft_error "persisted Raft state is truncated")
    else ok (uint64_value (take 8 input), drop 8 input)

-- `bytes[offset++] != '\0'`
unfoldable pub read_flag : Bytes → Result (Bool × Bytes)
read_flag [] = err (raft_error "persisted Raft state is truncated")
read_flag (b ∷ bs) = ok (not (b == 0), bs)

unfoldable pub read_vote : Bool → Bytes → Result (Option NodeId × Bytes)
unfolding read_uint64
read_vote true input = do (vote, rest) ← read_uint64 input; ok (some vote, rest)
read_vote false input = ok (none, input)

unfoldable pub read_command : ℕ → Bytes → Result (Bytes × Bytes)
read_command size input =
    if ltb maximum_command_bytes size || ltb (length input) size
    then err (raft_error "persisted Raft command has an invalid size")
    else ok (take size input, drop size input)

unfoldable pub read_entry : Bytes → Result (LogEntry × Bytes)
unfolding read_uint64 read_flag read_command
read_entry input = do
  (term, rest) ← read_uint64 input
  (is_no_op, rest') ← read_flag rest
  (size, rest'') ← read_uint64 rest'
  (command, last) ← read_command size rest''
  ok (record { term = term; command = command; is_no_op = is_no_op }, last)

-- The loop, over the number of the entries that are left to be read.
unfoldable pub read_log_entries : ℕ → Bytes → Result (List LogEntry × Bytes)
unfolding read_entry
read_log_entries zero input = ok ([], input)
read_log_entries (suc count) input = do
  (entry, rest) ← read_entry input
  (log, last) ← read_log_entries count rest
  ok (entry ∷ log, last)

unfoldable pub read_log_counted : ℕ → Bytes → Result (List LogEntry × Bytes)
unfolding read_log_entries
read_log_counted count input =
    if ltb maximum_log_entries count
    then err (raft_error "persisted Raft log exceeds the entry limit")
    else read_log_entries count input

-- The state, if nothing is left.
abbrev pub complete : Term → Option NodeId → List LogEntry × Bytes → Result PersistentState
complete term vote (log, []) = ok (record { current_term = term; voted_for = vote; log = log })
complete term vote (log, b ∷ bs) = err (raft_error "persisted Raft state contains trailing data")

-- From the term on.
unfoldable pub decode_fields : Bytes → Result PersistentState
unfolding read_uint64 read_flag read_vote read_log_counted
decode_fields input = do
  (term, rest) ← read_uint64 input
  (has_vote, rest') ← read_flag rest
  (vote, rest'') ← read_vote has_vote rest'
  (count, entries) ← read_uint64 rest''
  log ← read_log_counted count entries
  complete term vote log

-- `starts_with`, and what follows the prefix.
unfoldable pub strip : Bytes → Bytes → Option Bytes
strip [] bytes = some bytes
strip (p ∷ ps) [] = none
strip (p ∷ ps) (b ∷ bs) = if p == b then strip ps bs else none

unfoldable pub decode_stripped : Option Bytes → Result PersistentState
unfolding decode_fields
decode_stripped none = err (raft_error "persisted Raft state has an unsupported format")
decode_stripped (some input) = decode_fields input

unfoldable pub decode_state : Bytes → Result PersistentState
unfolding strip decode_stripped
decode_state bytes = decode_stripped (strip state_magic bytes)

abbrev pub flag_bytes : Bool → Bytes
flag_bytes b = (if b then 1 else 0) ∷ []

abbrev pub vote_bytes : Option NodeId → Bytes
vote_bytes none = flag_bytes false
vote_bytes (some id) = flag_bytes true ++ uint64_bytes id

abbrev pub entry_bytes : LogEntry → Bytes
entry_bytes e =
    uint64_bytes e.term ++ (flag_bytes e.is_no_op ++ (uint64_bytes (length e.command) ++ e.command))

unfoldable pub encode_entries : List LogEntry → Result Bytes
encode_entries [] = ok []
encode_entries (e ∷ es) =
    let rest = encode_entries es in
    if ltb maximum_command_bytes (length e.command)
    then err (raft_error "Raft command exceeds the persistence size limit")
    else (rest >>= λ bytes. ok (entry_bytes e ++ bytes))

unfoldable pub encode_state : PersistentState → Result Bytes
unfolding encode_entries
encode_state state =
    if ltb maximum_log_entries (length state.log)
    then err (raft_error "Raft log exceeds the persistence entry limit")
    else (encode_entries state.log >>= λ entries. ok (
        state_magic
        ++ (uint64_bytes state.current_term
            ++ (vote_bytes state.voted_for ++ (uint64_bytes (length state.log) ++ entries)))))
