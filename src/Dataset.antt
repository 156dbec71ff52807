-- ===== src/Dataset.antt =====
-- Datasets: `CachedDataset` of dataset_rt/dataset.py, its records of dataset_rt/records.py and
-- `slice_metadata` of dataset_rt/metadata.py. The native dataset and Arrow tables are the record
-- `Native`, with what their documentation says of lengths.
pub mod Recipe
pub mod Manifests
use dataset_rt.Prelude.{
  ℕ, ◌+◌, ◌^◌, ◌-◌, ◌≤◌, ◌≡◌, ℤ, pos, negsuc, pos_part, ltb_ℤ, leb_ℤ, leb, not, ◌&&◌, Bool, true,
  false, Option, none, some, List, [], ◌∷◌, map, String, if◌then◌else◌,
}
use dataset_rt.Python.{
  Value, int, Result, ok, err, Error, value_error, type_error, index_error, ◌>>=◌, ◌>>◌, raise_if,
}
use dataset_rt.Partition.{RowSpan, u64_max}
use dataset_rt.Config.{ReaderConfig, DatasetConfiguration}

-- The native dataset by its handle, and Arrow tables. A call that raises leaves its state alone.
pub record Native : Type 1 where
  pub Handle : Type 0
  pub Table : Type 0
  pub Sample : Type 0
  pub create : List String → ReaderConfig → Result Handle
  pub len : Handle → ℕ
  pub update_metadata : Handle → Table → Option Table → Result Handle
  pub set_epoch_len : Handle → ℕ → Result Handle
  pub get_item : Handle → ℕ → ℕ → Result Sample
  pub num_rows : Table → ℕ
  pub slice : Table → ℕ → ℕ → Table
  pub len-set_epoch_len : (h h' : Handle) (n : ℕ) → set_epoch_len h n ≡ ok h' → len h' ≡ n
  pub len-update_metadata :
      (h h' : Handle) (t : Table) → update_metadata h t none ≡ ok h' → len h' ≡ num_rows t
  pub num_rows-slice :
      (t : Table) (offset size : ℕ)
      → offset + size ≤ num_rows t
      → num_rows (slice t offset size) ≡ size

module _ (native : Native) where
  open native use {Handle, Table, Sample}

  -- `MetadataSnapshot`
  pub record MetadataSnapshot : Type 0 where
    pub table : Table
    pub selection : Option Table

  -- `OriginalMetadata | MetadataSnapshot`
  pub data ActiveMetadata : Type 0 where
    original : ActiveMetadata
    override : MetadataSnapshot → ActiveMetadata

  pub record ReaderRecipe : Type 0 where
    pub cache_paths : List String
    pub reader_config : ReaderConfig
    pub sample_count : ℕ
    pub metadata : ActiveMetadata

  pub record CachedDataset : Type 0 where
    pub cache_paths : List String
    pub reader_config : ReaderConfig
    pub runtime_num_workers : ℕ
    pub inner : Handle
    pub recipe : ReaderRecipe

  -- `_load`; `resolve` makes a path absolute.
  unfoldable pub load : (String → String) → List String → ReaderConfig → ℕ → Result CachedDataset
  load resolve paths config num_workers = do
    inner ← native.create paths config
    ok (record {
      cache_paths = paths;
      reader_config = config;
      runtime_num_workers = num_workers;
      inner = inner;
      recipe = record {
        cache_paths = map resolve paths;
        reader_config = config;
        sample_count = native.len inner;
        metadata = original;
      };
    })

  -- `_restore_metadata`
  unfoldable pub restore_metadata : CachedDataset → MetadataSnapshot → Result CachedDataset
  restore_metadata dataset snapshot = do
    inner ← native.update_metadata dataset.inner snapshot.table snapshot.selection
    ok (record dataset {
      inner = inner;
      recipe = record {
        cache_paths = dataset.recipe.cache_paths;
        reader_config = dataset.recipe.reader_config;
        sample_count = native.len inner;
        metadata = override snapshot;
      };
    })

  -- `update_metadata`, of a frame's Arrow table.
  unfoldable pub update_metadata : CachedDataset → Table → Result CachedDataset
  unfolding restore_metadata
  update_metadata dataset table =
      restore_metadata dataset (record { table = table; selection = none })

  unfoldable pub set_epoch_len : CachedDataset → ℤ → Result CachedDataset
  set_epoch_len dataset epoch_len = do
    raise_if (ltb_ℤ epoch_len (pos 1)) (value_error "epoch_len must be at least 1")
    inner ← native.set_epoch_len dataset.inner (pos_part epoch_len)
    ok (record dataset {
      inner = inner;
      recipe = record {
        cache_paths = dataset.recipe.cache_paths;
        reader_config = dataset.recipe.reader_config;
        sample_count = native.len inner;
        metadata = dataset.recipe.metadata;
      };
    })

  -- `_from_configuration`
  unfoldable pub from_configuration :
      (String → String) → DatasetConfiguration → Table → Option Table → Result CachedDataset
  unfolding load restore_metadata set_epoch_len
  from_configuration resolve config metadata selection = do
    loaded ← load resolve config.cache_paths config.reader_config config.num_workers
    restored ← restore_metadata loaded (record { table = metadata; selection = selection })
    set_epoch_len restored (pos config.epoch_len)

  -- Both identities are plain integers of 64 bits.
  unfoldable pub get_item : CachedDataset → Value → Value → Result Sample
  get_item dataset (int cache_id) (int sample_id) = do
    raise_if (not (leb_ℤ (pos 0) cache_id && leb_ℤ cache_id (pos u64_max)))
        (index_error "cache_id is out of range")
    raise_if (not (leb_ℤ (pos 0) sample_id && leb_ℤ sample_id (pos u64_max)))
        (index_error "sample_id is out of range")
    native.get_item dataset.inner (pos_part cache_id) (pos_part sample_id)
  get_item dataset _ _ = err (type_error "cache_id and sample_id must be integers")

  unfoldable pub active_rows : MetadataSnapshot → Option Table → ℕ
  active_rows snapshot none = native.num_rows snapshot.table
  active_rows snapshot (some selection) = native.num_rows selection

  unfoldable pub slice_active : MetadataSnapshot → Option Table → RowSpan → MetadataSnapshot
  slice_active snapshot none span = record {
    table = native.slice snapshot.table span.offset span.length;
    selection = none;
  }
  slice_active snapshot (some selection) span = record {
    table = snapshot.table;
    selection = some (native.slice selection span.offset span.length);
  }

  unfoldable pub slice_metadata : MetadataSnapshot → RowSpan → Result MetadataSnapshot
  unfolding active_rows slice_active
  slice_metadata snapshot span = do
    raise_if (not (leb (span.offset + span.length) (active_rows snapshot snapshot.selection)))
        (value_error "metadata span is outside the active table")
    ok (slice_active snapshot snapshot.selection span)
