-- ===== src/Dataset/Recipe.antt =====
-- The recipe of a dataset stays true to it, whatever is done to the dataset.
use dataset_rt.Prelude.{
  ℕ, ◌+◌, ◌≤◌, ◌≡◌, refl, ℤ, pos, pos_part, ltb_ℤ, le→leb, Option, none, some, List, map, String,
  arith,
}
use dataset_rt.Python.{nat, ok, raise_if, >>=-elim}
use dataset_rt.Partition.{RowSpan, partition_rows}
use dataset_rt.Partition.Coverage.{partition_rows-eq-ok, span_within}
use dataset_rt.Config.{ReaderConfig, DatasetConfiguration}
use dataset_rt.Dataset.{
  Native, MetadataSnapshot, override, CachedDataset, load, restore_metadata, update_metadata,
  set_epoch_len, from_configuration, active_rows, slice_active, slice_metadata,
}

module _ (native : Native) where
  -- What can happen to a dataset; the list of paths is public, and can be edited.
  pub data Step (dataset : CachedDataset native) (after : CachedDataset native) : Type 0 where
    new_epoch_len : (n : ℤ) → set_epoch_len native dataset n ≡ ok after → Step dataset after
    new_metadata :
        (t : native.Table) → update_metadata native dataset t ≡ ok after → Step dataset after
    restored :
        (s : MetadataSnapshot native)
        → restore_metadata native dataset s ≡ ok after
        → Step dataset after
    edited :
        (paths : List String) → after ≡ record dataset { cache_paths = paths } → Step dataset after

  pub data Reaches (dataset : CachedDataset native) : CachedDataset native → Type 0 where
    here : Reaches dataset dataset
    then_step :
        {middle last : CachedDataset native}
        → Reaches dataset middle
        → Step middle last
        → Reaches dataset last

  -- The recipe reconstructs the caches that were opened, with the length that they have now.
  pub record IsCurrent (resolve : String → String) (paths : List String) (config : ReaderConfig)
      (dataset : CachedDataset native) : Type 0 where
    pub same_paths : dataset.recipe.cache_paths ≡ map resolve paths
    pub same_config : dataset.recipe.reader_config ≡ config
    pub same_count : dataset.recipe.sample_count ≡ native.len dataset.inner

  module _ (resolve : String → String) (paths : List String) (config : ReaderConfig) where
    load-IsCurrent :
        (num_workers : ℕ) (dataset : CachedDataset native)
        → load native resolve paths config num_workers ≡ ok dataset
        → IsCurrent resolve paths config dataset
    unfolding load
    load-IsCurrent num_workers dataset h =
        >>=-elim (native.create paths config) _ h λ inner created done. ground arith

    restore-IsCurrent :
        (dataset after : CachedDataset native) (s : MetadataSnapshot native)
        → restore_metadata native dataset s ≡ ok after
        → IsCurrent resolve paths config dataset
        → IsCurrent resolve paths config after
    unfolding restore_metadata
    restore-IsCurrent dataset after s h current =
        >>=-elim (native.update_metadata dataset.inner s.table s.selection) _ h
          λ inner updated done. ground arith

    set_epoch_len-IsCurrent :
        (dataset after : CachedDataset native) (n : ℤ)
        → set_epoch_len native dataset n ≡ ok after
        → IsCurrent resolve paths config dataset
        → IsCurrent resolve paths config after
    unfolding set_epoch_len
    set_epoch_len-IsCurrent dataset after n h current =
        >>=-elim (raise_if (ltb_ℤ n (pos 1)) _) _ h λ _ _ rest.
          >>=-elim (native.set_epoch_len dataset.inner (pos_part n)) _ rest
            λ inner updated done. ground arith

    Step-IsCurrent :
        (dataset after : CachedDataset native)
        → Step dataset after
        → IsCurrent resolve paths config dataset
        → IsCurrent resolve paths config after
    unfolding update_metadata
    Step-IsCurrent dataset after (new_epoch_len n h) current =
        set_epoch_len-IsCurrent dataset after n h current
    Step-IsCurrent dataset after (new_metadata t h) current =
        restore-IsCurrent dataset after (record { table = t; selection = none }) h current
    Step-IsCurrent dataset after (restored s h) current =
        restore-IsCurrent dataset after s h current
    Step-IsCurrent dataset after (edited _ same) current = ground arith

    Reaches-IsCurrent :
        {dataset last : CachedDataset native}
        → Reaches dataset last
        → IsCurrent resolve paths config dataset
        → IsCurrent resolve paths config last
    Reaches-IsCurrent here current = current
    Reaches-IsCurrent (then_step before step) current =
        Step-IsCurrent _ _ step (Reaches-IsCurrent before current)

  -- However a loaded dataset is changed afterwards, its recipe holds the absolute paths of the
  -- caches that were opened and the configuration that it was loaded with, and the number of
  -- samples that its native state has now.
  pub recipe-IsCurrent :
      (resolve : String → String) (paths : List String) (config : ReaderConfig) (num_workers : ℕ)
      (dataset last : CachedDataset native)
      → load native resolve paths config num_workers ≡ ok dataset
      → Reaches dataset last
      → IsCurrent resolve paths config last
  recipe-IsCurrent resolve paths config num_workers dataset last h reaches =
      Reaches-IsCurrent resolve paths config reaches
        (load-IsCurrent resolve paths config num_workers dataset h)

  restore-metadata :
      (dataset after : CachedDataset native) (s : MetadataSnapshot native)
      → restore_metadata native dataset s ≡ ok after
      → after.recipe.metadata ≡ override s
  unfolding restore_metadata
  restore-metadata dataset after s h =
      >>=-elim (native.update_metadata dataset.inner s.table s.selection) _ h
        λ inner updated done. ground arith

  -- A dataset made from a configuration emits as many samples as the configuration says, reads
  -- with its settings, and keeps the metadata and the selection that it was given.
  pub from_configuration-len :
      (resolve : String → String) (config : DatasetConfiguration) (table : native.Table)
      (selection : Option native.Table) (dataset : CachedDataset native)
      → from_configuration native resolve config table selection ≡ ok dataset
      → (native.len dataset.inner ≡ config.epoch_len)
        × (dataset.recipe.sample_count ≡ config.epoch_len)
        × (dataset.recipe.reader_config ≡ config.reader_config)
        × (dataset.recipe.metadata ≡ override (record { table = table; selection = selection }))
  unfolding from_configuration load restore_metadata set_epoch_len
  from_configuration-len resolve config table selection dataset h =
      >>=-elim (load native resolve config.cache_paths config.reader_config config.num_workers) _ h
        λ loaded is_loaded rest.
          >>=-elim
            (restore_metadata native loaded (record { table = table; selection = selection })) _
            rest
            λ middle is_restored last.
              >>=-elim (raise_if (ltb_ℤ (pos config.epoch_len) (pos 1)) _) _ last λ _ _ end.
                >>=-elim (native.set_epoch_len middle.inner config.epoch_len) _ end
                  λ inner updated done.
                    let kept =
                      restore-metadata loaded middle
                        (record { table = table; selection = selection }) is_restored in
                    let current =
                      restore-IsCurrent resolve config.cache_paths config.reader_config loaded
                        middle (record { table = table; selection = selection }) is_restored
                        (load-IsCurrent resolve config.cache_paths config.reader_config
                          config.num_workers loaded is_loaded) in
                    ground (
                      arith,
                      native.len-set_epoch_len middle.inner inner config.epoch_len updated,
                      kept,
                      current.same_config,
                    )

  sliced-rows :
      (snapshot : MetadataSnapshot native) (selection : Option native.Table) (span : RowSpan)
      → span.offset + span.length ≤ active_rows native snapshot selection
      → let slice = slice_active native snapshot selection span in
        active_rows native slice slice.selection ≡ span.length
  unfolding active_rows slice_active
  sliced-rows snapshot none span fits =
      native.num_rows-slice snapshot.table span.offset span.length fits
  sliced-rows snapshot (some selection) span fits =
      native.num_rows-slice selection span.offset span.length fits

  -- Every part of a partition of the active rows can be sliced, and the slice has its rows.
  pub slice_metadata-partition_rows :
      (snapshot : MetadataSnapshot native) (parts part : ℕ) (span : RowSpan)
      → partition_rows (nat (active_rows native snapshot snapshot.selection)) (nat parts) (nat part)
        ≡ ok span
      → (slice : MetadataSnapshot native) × (slice_metadata native snapshot span ≡ ok slice)
        × (active_rows native slice slice.selection ≡ span.length)
  unfolding slice_metadata
  slice_metadata-partition_rows snapshot parts part span h =
      let count = active_rows native snapshot snapshot.selection in
      let (_, _, lt, e) = partition_rows-eq-ok count parts part span h in
      let fits : span.offset + span.length ≤ count = rw e (span_within count parts part lt) in
      (
        slice_active native snapshot snapshot.selection span,
        rw (le→leb (span.offset + span.length) count fits) refl,
        sliced-rows snapshot snapshot.selection span fits,
      )
