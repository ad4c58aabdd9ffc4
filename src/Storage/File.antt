-- ===== src/Storage/File.antt =====
-- `FilePersistence` of src/storage/kv_store.cpp over a file system, of which the two files that it
-- touches are modelled, with every call that can fail.
use fault_tolerant_kv_store.Prelude.{
  ◌≡◌, refl, Bool, false, Option, none, some, [], ltb, if◌then◌else◌, length, inl, inr, ◌≤◌, arith,
  Bool-cases, if_either, true,
}
use fault_tolerant_kv_store.Exec.{Exception, storage_error}
use fault_tolerant_kv_store.Result.{Result, ok, err}
use fault_tolerant_kv_store.Bytes.{Bytes}
use fault_tolerant_kv_store.Storage.Entries.{EntryMap, AreDistinct}
use fault_tolerant_kv_store.Storage.Format.{encode, decode, maximum_entries}
use fault_tolerant_kv_store.Storage.RoundTrip.{decode-encode}

-- The storage file and the temporary file beside it; `none` where there is no such file.
pub record Disk : Type 0 where
  pub file : Option Bytes
  pub temporary : Option Bytes

-- Which calls of one `load` or `save` fail. A write, a flush or a close that fails leaves some bytes in
-- the temporary file.
pub record Faults : Type 0 where
  pub inspect_fails : Bool
  pub open_input_fails : Bool
  pub directory_fails : Bool
  pub open_fails : Bool
  pub write_fails : Bool
  pub partial : Bytes
  pub flush_fails : Bool
  pub close_fails : Bool
  pub rename_fails : Bool
  pub remove_fails : Bool

unfoldable pub load_contents : Faults → Option Bytes → Result EntryMap
load_contents f none = ok []
load_contents f (some contents) =
    if f.open_input_fails
    then err (storage_error "failed to open storage file")
    else decode contents

unfoldable pub load : Faults → Disk → Result EntryMap
unfolding load_contents
load f d =
    if f.inspect_fails
    then err (storage_error "failed to inspect storage file")
    else load_contents f d.file

-- The handler: the temporary file is removed, if that works, and the exception goes on.
unfoldable pub abandon : Faults → Exception → Disk → Option Exception × Disk
abandon f e d = (some e, if f.remove_fails then d else record d { temporary = none })

-- `rename`: what the temporary file holds, whatever that is, becomes the storage file. The temporary
-- file is there, since it has been opened.
unfoldable pub replace : Faults → Disk → Option Exception × Disk
unfolding abandon
replace f d =
    if f.rename_fails
    then abandon f (storage_error "failed to replace storage file") d
    else (none, record { file = d.temporary; temporary = none })

-- A call on the stream that fails leaves some bytes in the temporary file.
unfoldable pub left_by_call : Bool → Faults → Disk → Disk
left_by_call fails f d = if fails then record d { temporary = some f.partial } else d

unfoldable pub flush_and_close : Faults → Disk → Option Exception × Disk
unfolding abandon replace left_by_call
flush_and_close f d =
    let flushed = left_by_call f.flush_fails f d in
    let closed = left_by_call f.close_fails f flushed in
    if f.flush_fails
    then abandon f (storage_error "failed to flush storage file") flushed
    else if f.close_fails
    then abandon f (storage_error "failed to close storage file") closed
    else replace f closed

-- What is written is the encoding, or, where it is refused, the bytes before the refusal.
unfoldable pub write : Faults → Result Bytes → Disk → Option Exception × Disk
unfolding abandon flush_and_close left_by_call
write f (err e) d = abandon f e (left_by_call true f d)
write f (ok contents) d =
    let written = left_by_call f.write_fails f (record d { temporary = some contents }) in
    if f.write_fails
    then abandon f (storage_error "failed to write storage snapshot") written
    else flush_and_close f written

unfoldable pub save_checked : Faults → EntryMap → Disk → Option Exception × Disk
unfolding abandon write
save_checked f entries d =
    if f.directory_fails
    then (some (storage_error "failed to create storage directory"), d)
    else if f.open_fails
    then abandon f (storage_error "failed to open temporary storage file") d
    else write f (encode entries) (record d { temporary = some [] })

unfoldable pub save : Faults → EntryMap → Disk → Option Exception × Disk
unfolding save_checked
save f entries d =
    if ltb maximum_entries (length entries)
    then (some (storage_error "entry count exceeds the storage size limit"), d)
    else save_checked f entries d

-- The outcome of a save: it returns, and the file holds the encoding of the entries, or it throws,
-- and the file is as it was.
abbrev pub IsAtomic : EntryMap → Disk → Option Exception × Disk → Type 0
IsAtomic entries d (none, after) =
    (contents : Bytes) × (encode entries ≡ ok contents)
    × (after.file ≡ some contents)
    × (after.temporary ≡ none)
    × (length entries ≤ maximum_entries)
IsAtomic entries d (some e, after) = after.file ≡ d.file

abandon-file : (f : Faults) (e : Exception) (d : Disk) → (abandon f e d).1.file ≡ d.file
unfolding abandon
abandon-file f e d = ground arith

module _ (f : Faults) (entries : EntryMap) (d : Disk) where
  written-IsAtomic :
      (contents : Bytes)
      → encode entries ≡ ok contents
      → length entries ≤ maximum_entries
      → IsAtomic entries d (flush_and_close f (record d { temporary = some contents }))
  unfolding flush_and_close replace left_by_call abandon
  written-IsAtomic contents h few = elim (Bool-cases f.flush_fails) [
    | inl flush ↦
        rw flush (abandon-file f (storage_error "") (record d { temporary = some f.partial }))
    | inr flushed ↦ elim (Bool-cases f.close_fails) [
      | inl close ↦
          rw (flushed, close)
            (abandon-file f (storage_error "") (record d { temporary = some f.partial }))
      | inr closed ↦
          rw (flushed, closed)
            (if_either (IsAtomic entries d) f.rename_fails _ _
              (abandon-file f (storage_error "") (record d { temporary = some contents }))
              (contents, h, refl, refl, few))
    ]
  ]

  write-IsAtomic :
      (r : Result Bytes)
      → encode entries ≡ r
      → length entries ≤ maximum_entries
      → IsAtomic entries d (write f r (record d { temporary = some [] }))
  unfolding write left_by_call abandon
  write-IsAtomic (err e) h few = abandon-file f e (record d { temporary = some f.partial })
  write-IsAtomic (ok contents) h few = elim (Bool-cases f.write_fails) [
    | inl failed ↦
        rw failed (abandon-file f (storage_error "") (record d { temporary = some f.partial }))
    | inr written ↦ rw written (written-IsAtomic contents h few)
  ]

  save_checked-IsAtomic :
      length entries ≤ maximum_entries → IsAtomic entries d (save_checked f entries d)
  unfolding save_checked abandon
  save_checked-IsAtomic few = if_either (IsAtomic entries d) f.directory_fails _ _ refl (
      if_either (IsAtomic entries d) f.open_fails _ _ (abandon-file f (storage_error "") d)
        (write-IsAtomic (encode entries) refl few))

  -- Whichever calls of the file system fail, a save that throws leaves the storage file as it was,
  -- and a save that returns has replaced it by the encoding and has left no temporary file.
  pub save-IsAtomic : IsAtomic entries d (save f entries d)
  unfolding save
  save-IsAtomic = elim (Bool-cases (ltb maximum_entries (length entries))) [
    | inl many ↦ rw many refl
    | inr few ↦ rw few (save_checked-IsAtomic (ground arith))
  ]

  saved_contents :
      (r : Option Exception × Disk)
      → IsAtomic entries d r
      → r.0 ≡ none
      → IsAtomic entries d (none, r.1)
  saved_contents (none, after) h e = h
  saved_contents (some x, after) h e = cc

  kept_contents :
      (r : Option Exception × Disk) (x : Exception)
      → IsAtomic entries d r
      → r.0 ≡ some x
      → r.1.file ≡ d.file
  kept_contents (none, after) x h e = cc
  kept_contents (some y, after) x h e = h

  -- After a save that returned, a load that the file system lets through gives the entries back.
  pub load-save :
      (g : Faults)
      → AreDistinct entries
      → (save f entries d).0 ≡ none
      → g.inspect_fails ≡ false
      → g.open_input_fails ≡ false
      → load g (save f entries d).1 ≡ ok entries
  unfolding load load_contents
  load-save g distinct returned inspected opened =
      let (contents, encoded, stored, _, few) = saved_contents _ save-IsAtomic returned in
      rw (inspected, stored, opened) (decode-encode entries contents distinct few encoded)

  -- After a save that threw, every load gives what it would have given before.
  pub load-save_failed :
      (g : Faults) (x : Exception)
      → (save f entries d).0 ≡ some x
      → load g (save f entries d).1 ≡ load g d
  unfolding load
  load-save_failed g x failed = rw (kept_contents _ x save-IsAtomic failed) refl
