-- ===== src/Storage/Format.antt =====
-- src/storage/kv_store.cpp: the contents of the snapshot file. A stream that is read is what is left
-- of it; what is written to a stream is what a function returns. A byte is a number below 256.
use fault_tolerant_kv_store.Prelude.{
  ℕ, zero, suc, ◌*◌, Option, none, some, [], ◌∷◌, ◌++◌, ltb, leb, if◌then◌else◌, length, take, drop,
  not,
}
use fault_tolerant_kv_store.Exec.{storage_error}
use fault_tolerant_kv_store.Result.{Result, ok, err, ◌>>=◌}
use fault_tolerant_kv_store.Bytes.{Bytes, bytes_eq, uint64_bytes, uint64_value}
use fault_tolerant_kv_store.Storage.Entries.{EntryMap, emplace}

-- "FTKVSTR1"
abbrev pub file_magic : Bytes
file_magic = b'F' ∷ b'T' ∷ b'K' ∷ b'V' ∷ b'S' ∷ b'T' ∷ b'R' ∷ b'1' ∷ []

abbrev pub maximum_entries : ℕ
maximum_entries = 1_000_000

abbrev pub maximum_field_bytes : ℕ
maximum_field_bytes = 64 * 1024 * 1024

unfoldable pub write_field : Bytes → Result Bytes
write_field field =
    if ltb maximum_field_bytes (length field)
    then err (storage_error "key or value exceeds the storage size limit")
    else ok (uint64_bytes (length field) ++ field)

-- The entries, in the order of the iteration.
unfoldable pub write_entries : EntryMap → Result Bytes
unfolding write_field
write_entries [] = ok []
write_entries ((key, value) ∷ entries) = do
  k ← write_field key
  v ← write_field value
  rest ← write_entries entries
  ok (k ++ (v ++ rest))

-- What `save` writes to the temporary file.
unfoldable pub encode : EntryMap → Result Bytes
unfolding write_entries
encode entries = do
  body ← write_entries entries
  ok (file_magic ++ (uint64_bytes (length entries) ++ body))

-- What is read, and what is left.
unfoldable pub read_exact : ℕ → Bytes → Result (Bytes × Bytes)
read_exact size input =
    if leb size (length input)
    then ok (take size input, drop size input)
    else err (storage_error "storage snapshot is truncated")

unfoldable pub read_uint64 : Bytes → Result (ℕ × Bytes)
unfolding read_exact
read_uint64 input = do (bytes, rest) ← read_exact 8 input; ok (uint64_value bytes, rest)

-- A size never exceeds what 64 bits hold, so the second test of the code is not met.
unfoldable pub read_sized : ℕ → Bytes → Result (Bytes × Bytes)
unfolding read_exact
read_sized size input =
    if ltb maximum_field_bytes size
    then err (storage_error "invalid key or value size in storage snapshot")
    else read_exact size input

unfoldable pub read_field : Bytes → Result (Bytes × Bytes)
unfolding read_uint64 read_sized
read_field input = do (size, rest) ← read_uint64 input; read_sized size rest

abbrev pub or_duplicate : Option EntryMap → Result EntryMap
or_duplicate none = err (storage_error "duplicate key in storage file")
or_duplicate (some entries) = ok entries

-- The loop of `load`, over the number of the entries that are left to be read.
unfoldable pub read_entries : ℕ → EntryMap → Bytes → Result (EntryMap × Bytes)
unfolding read_field emplace
read_entries zero entries input = ok (entries, input)
read_entries (suc count) entries input = do
  (key, rest) ← read_field input
  (value, rest') ← read_field rest
  more ← or_duplicate (emplace key value entries)
  read_entries count more rest'

abbrev pub at_end : EntryMap × Bytes → Result EntryMap
at_end (entries, []) = ok entries
at_end (entries, b ∷ bs) = err (storage_error "unexpected data at end of storage file")

unfoldable pub read_counted : ℕ → Bytes → Result EntryMap
unfolding read_entries
read_counted count input =
    if ltb maximum_entries count
    then err (storage_error "invalid entry count in storage file")
    else (read_entries count [] input >>= at_end)

unfoldable pub read_body : Bytes → Bytes → Result EntryMap
unfolding read_uint64 read_counted
read_body magic input =
    if not (bytes_eq magic file_magic)
    then err (storage_error "unsupported storage file format")
    else (read_uint64 input >>= λ (count, rest). read_counted count rest)

-- What `load` makes of the contents of the file.
unfoldable pub decode : Bytes → Result EntryMap
unfolding read_exact read_body
decode input = do (magic, rest) ← read_exact 8 input; read_body magic rest
