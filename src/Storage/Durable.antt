-- ===== src/Storage/Durable.antt =====
-- `KvStore` over `FilePersistence`: the file keeps the promises of `Persistence` under any faults of
-- its saves.
use fault_tolerant_kv_store.Prelude.{ℕ, ◌+◌, refl, false, []}
use fault_tolerant_kv_store.Storage.File.{Disk, Faults, load, save, load-save, load-save_failed}
use fault_tolerant_kv_store.Storage.KvStore.{Persistence}
use fault_tolerant_kv_store.Storage.Laws.{IsPersistent}

abbrev pub no_faults : Faults
no_faults = record {
  inspect_fails = false;
  open_input_fails = false;
  directory_fails = false;
  open_fails = false;
  write_fails = false;
  partial = [];
  flush_fails = false;
  close_fails = false;
  rename_fails = false;
  remove_fails = false;
}

-- The disk, and the faults that the saves to come will meet.
pub record FileState : Type 0 where
  pub disk : Disk
  pub faults : ℕ → Faults

-- A load is one that no call of the file system fails.
abbrev pub file_persistence : Persistence
file_persistence = record {
  Durable = FileState;
  load = λ d. load no_faults d.disk;
  save = λ d entries.
      let saved = save (d.faults 0) entries d.disk in
      (saved.0, record { disk = saved.1; faults = λ i. d.faults (i + 1) });
}

-- Whatever calls fail in its saves, the file keeps the promises of `Persistence`: a save that returns
-- is loaded, a save that throws changes nothing that is loaded.
pub file_persistence-IsPersistent : IsPersistent file_persistence
file_persistence-IsPersistent = record {
  saved = λ d m distinct e. load-save (d.faults 0) m d.disk no_faults distinct e refl refl;
  kept = λ d m x e. load-save_failed (d.faults 0) m d.disk no_faults x e;
}
