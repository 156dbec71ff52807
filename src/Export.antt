-- ===== src/Export.antt =====
-- Exports: `dump_configuration`, `load_configuration` and `load_metadata` of
-- dataset_rt/reconstruction.py. A directory is the four files that an export names in it. Json
-- text, its printer and its parser, Arrow tables and the directories that exist are arguments.
pub mod Artifacts
pub mod Publication
pub mod Roundtrip
use dataset_rt.Prelude.{
  ℕ, zero, suc, ◌==◌, ltb, not, ◌&&◌, ◌||◌, Bool, true, false, Option, none, some, List, [], ◌∷◌,
  take, get_elem?, map, String, if◌then◌else◌,
}
use dataset_rt.Python.{
  Result, ok, err, Error, value_error, os_error, file_exists, ◌>>=◌, ◌>>◌, raise_if,
}
use dataset_rt.Config.{ReaderConfig, DatasetConfiguration}

-- A file: what was to be written, whether all of it was, and whether it was flushed to the disk.
pub record File (A : Type 0) : Type 0 where
  pub content : A
  pub complete : Bool
  pub synced : Bool

-- The model's validation: a cache, directories that exist, and positive counts.
all_exist : (String → Bool) → List String → Bool
all_exist is_directory [] = true
all_exist is_directory (path ∷ paths) = is_directory path && all_exist is_directory paths

abbrev is_nil : List String → Bool
is_nil [] = true
is_nil (path ∷ paths) = false

unfoldable pub validate_configuration :
    (String → Bool) → DatasetConfiguration → Result DatasetConfiguration
unfolding all_exist
validate_configuration is_directory config = do
  raise_if (is_nil config.cache_paths || not (all_exist is_directory config.cache_paths))
      (value_error "cache_paths")
  raise_if (not (ltb 0 config.reader_config.prefetch_size)) (value_error "prefetch_size")
  raise_if (not (ltb 0 config.num_workers)) (value_error "num_workers")
  raise_if (not (ltb 0 config.epoch_len)) (value_error "epoch_len")
  raise_if (not (ltb 0 config.row_count)) (value_error "row_count")
  ok config

-- The steps of the `try` block that touch the directory, in their order.
pub data Action : Type 0 where
  export_metadata sync_metadata write_config sync_config publish_metadata publish_config : Action

abbrev pub script : List Action
script =
    export_metadata ∷ sync_metadata ∷ write_config ∷ sync_config ∷ publish_metadata ∷ publish_config
    ∷ []

-- What a step has done where it raises: nothing, a part, or all of it.
pub data Fault : Type 0 where
  early midway late : Fault

-- How the file system fails: the steps of an export by their number, the removals of its handler by
-- theirs, the directory that `mkdtemp` does not make, the row order that is not written, and the
-- directory that `rmtree`, whose errors are ignored, keeps.
pub record Faults : Type 0 where
  pub step : ℕ → Option Fault
  pub unlinks : ℕ → Bool
  pub unmade : Bool
  pub unordered : Bool
  pub kept : Bool

pub data Target : Type 0 where
  config_file metadata_file pending_config_file pending_metadata_file : Target

abbrev pub targets : List Target
targets = config_file ∷ metadata_file ∷ pending_config_file ∷ pending_metadata_file ∷ []

abbrev pub raised_again : Error → Result (Unit {0}) → Result (Unit {0})
raised_again error (ok _) = err error
raised_again error (err second) = err second

-- `C` is the text of a configuration and `M` an Arrow table.
pub record Directory (C M : Type 0) : Type 0 where
  pub config : Option (File C)
  pub metadata : Option (File M)
  pub pending_config : Option (File C)
  pub pending_metadata : Option (File M)

module _ {A : Type 0} where
  unfoldable pub exists : Option (File A) → Bool
  exists none = false
  exists (some file) = true

  -- `_sync_file`
  unfoldable pub sync_file : Option (File A) → Option (File A)
  sync_file none = none
  sync_file (some file) =
      some (record { content = file.content; complete = file.complete; synced = true })

  abbrev pub written : Bool → A → Option (File A)
  written complete content =
      some (record { content = content; complete = complete; synced = false })

-- `FILE_PATH.validate_python`, and the reading of the file.
unfoldable pub read_file : {A : Type 0} → Option (File A) → Result A
read_file none = err (value_error "path is not a file")
read_file (some file) = ok file.content

module _ {C M : Type 0} where
  abbrev pub bare : Directory C M
  bare = record { config = none; metadata = none; pending_config = none; pending_metadata = none }

  -- `any(target.exists() for target in targets)`
  unfoldable pub occupied : Directory C M → Bool
  unfolding exists
  occupied d =
      exists d.config
      || (exists d.metadata || (exists d.pending_config || exists d.pending_metadata))

  -- A step, whole or given up in the middle: a renaming is whole or not made.
  unfoldable pub perform : M → C → Bool → Action → Directory C M → Directory C M
  unfolding sync_file
  perform table text whole export_metadata d = record d { pending_metadata = written whole table }
  perform table text whole sync_metadata d =
      if whole then record d { pending_metadata = sync_file d.pending_metadata } else d
  perform table text whole write_config d = record d { pending_config = written whole text }
  perform table text whole sync_config d =
      if whole then record d { pending_config = sync_file d.pending_config } else d
  perform table text whole publish_metadata d =
      if whole then record d { metadata = d.pending_metadata; pending_metadata = none } else d
  perform table text whole publish_config d =
      if whole then record d { config = d.pending_config; pending_config = none } else d

  unfoldable pub perform_all : M → C → List Action → Directory C M → Directory C M
  unfolding perform
  perform_all table text [] d = d
  perform_all table text (action ∷ actions) d =
      perform_all table text actions (perform table text true action d)

  -- The directory where the process is killed inside the step behind the first `count`.
  unfoldable pub killed : M → C → ℕ → Directory C M → Directory C M
  unfolding perform_all
  killed table text count d =
      let before = perform_all table text (take count script) d in
      elim (get_elem? script count) as (λ o. Directory C M) [
        | none ↦ before
        | some action ↦ perform table text false action before
      ]

  -- What a step that raises has done by then.
  unfoldable pub broken : M → C → Fault → Action → Directory C M → Directory C M
  unfolding perform
  broken table text early action d = d
  broken table text midway action d = perform table text false action d
  broken table text late action d = perform table text true action d

  unfoldable pub unlink : Target → Directory C M → Directory C M
  unlink config_file d = record d { config = none }
  unlink metadata_file d = record d { metadata = none }
  unlink pending_config_file d = record d { pending_config = none }
  unlink pending_metadata_file d = record d { pending_metadata = none }

  -- The loop of the handler: a removal that raises ends it.
  unfoldable pub unlink_all :
      (ℕ → Bool) → ℕ → List Target → Directory C M → Result (Unit {0}) × Directory C M
  unfolding unlink
  unlink_all unlinks number [] d = (ok tt, d)
  unlink_all unlinks number (target ∷ rest) d =
      let removed = unlink_all unlinks (suc number) rest (unlink target d) in
      if unlinks number then (err os_error, d) else removed

  -- The handler of the `try` block: it raises the error again, or that of a removal.
  unfoldable pub handle : Faults → Error → Directory C M → Result (Unit {0}) × Directory C M
  unfolding unlink_all
  handle faults error d =
      let removed = unlink_all faults.unlinks 0 targets d in
      (raised_again error removed.0, removed.1)

  -- The `try` block, from the number of a step.
  unfoldable pub run_script :
      M → C → Faults → ℕ → List Action → Directory C M → Result (Unit {0}) × Directory C M
  unfolding perform broken handle
  run_script table text faults number [] d = (ok tt, d)
  run_script table text faults number (action ∷ actions) d =
      let rest =
        run_script table text faults (suc number) actions (perform table text true action d) in
      elim (faults.step number) as (λ o. Result (Unit {0}) × Directory C M) [
        | none ↦ rest
        | some fault ↦ handle faults os_error (broken table text fault action d)
      ]

  -- The configuration is validated behind the export of the metadata.
  unfoldable pub after_validation :
      (DatasetConfiguration → C)
      → M
      → DatasetConfiguration
      → Faults
      → Directory C M
      → Result DatasetConfiguration
      → Result (Unit {0}) × Directory C M
  unfolding run_script
  after_validation print table config faults d (ok valid) =
      run_script table (print valid) faults 0 script d
  after_validation print table config faults d (err error) =
      elim (faults.step 0) as (λ o. Result (Unit {0}) × Directory C M) [
        | none ↦ handle faults error (perform table (print config) true export_metadata d)
        | some fault ↦ handle faults os_error (broken table (print config) fault export_metadata d)
      ]

  -- `dump_configuration`: the native export counts the rows that the configuration records.
  unfoldable pub dump_configuration :
      (DatasetConfiguration → C)
      → (String → Bool)
      → M
      → DatasetConfiguration
      → Faults
      → Directory C M
      → Result (Unit {0}) × Directory C M
  unfolding occupied validate_configuration after_validation
  dump_configuration print is_directory table config faults d =
      if occupied d
      then (err file_exists, d)
      else after_validation print table config faults d (validate_configuration is_directory config)

  unfoldable pub load_configuration :
      (C → Result DatasetConfiguration) → Directory C M → Result DatasetConfiguration
  unfolding read_file
  load_configuration parse d = do text ← read_file d.config; parse text

  unfoldable pub load_metadata : (M → ℕ) → Directory C M → DatasetConfiguration → Result M
  unfolding read_file
  load_metadata num_rows d config = do
    table ← read_file d.metadata
    raise_if (not (num_rows table == config.row_count))
        (value_error "metadata row count does not match dataset configuration")
    ok table
