-- ===== src/Config.antt =====
-- Configuration records: `ReaderConfig` of dataset_rt/config.py and `DatasetConfiguration` of
-- dataset_rt/reconstruction.py, with the bounds that their fields were validated for.
pub mod Compression
use dataset_rt.Prelude.{ℕ, ◌<◌, ℤ, String, Bool, List, []}
use dataset_rt.Prelude.{◌≢◌}

pub record ReaderConfig : Type 0 where
  pub seed : ℤ
  pub prefetch_size : ℕ
  pub shuffle : Bool
  pub validate_cache : Bool

pub record DatasetConfiguration : Type 0 where
  pub cache_paths : List String
  pub reader_config : ReaderConfig
  pub num_workers : ℕ
  pub epoch_len : ℕ
  pub row_count : ℕ

-- `Field(min_length=1)`, `PositiveInt` and `Field(gt=0)`.
pub record IsConfiguration (c : DatasetConfiguration) : Type 0 where
  pub some_cache : c.cache_paths ≢ []
  pub prefetches : 0 < c.reader_config.prefetch_size
  pub some_worker : 0 < c.num_workers
  pub some_sample : 0 < c.epoch_len
  pub some_row : 0 < c.row_count
