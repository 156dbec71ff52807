-- ===== src/Export/Roundtrip.antt =====
-- What was exported is loaded back.
use dataset_rt.Prelude.{
  ℕ, ◌≡◌, refl, subst, ap, sym, ◌∙◌, Bool, Bool-cases, arith, inl, inr, String,
}
use dataset_rt.Python.{Result, ok, Result-cases}
use dataset_rt.Config.{DatasetConfiguration, IsConfiguration}
use dataset_rt.Export.{
  Directory, Faults, occupied, validate_configuration, dump_configuration, load_configuration,
  load_metadata,
}
use dataset_rt.Export.Publication.{
  validate_configuration-IsConfiguration, exported, dump_configuration_outcome,
  after_validation-refused, bare-unoccupied,
}

module _ {C M : Type 0} where
  load_metadata-exported :
      (num_rows : M → ℕ) (table : M) (text : C) (config : DatasetConfiguration)
      → num_rows table ≡ config.row_count
      → load_metadata num_rows (exported table text) config ≡ ok table
  unfolding load_metadata
  load_metadata-exported num_rows table text config same = rw same (ground arith)

  dump_validated :
      (print : DatasetConfiguration → C) (is_directory : String → Bool) (table : M)
      (config : DatasetConfiguration) (faults : Faults) (d : Directory C M)
      → (dump_configuration print is_directory table config faults d).0 ≡ ok tt
      → validate_configuration is_directory config ≡ ok config
  unfolding dump_configuration
  dump_validated print is_directory table config faults d h =
      elim (Result-cases (validate_configuration is_directory config)) [
        | inl (valid, accepted) ↦
            accepted
            ∙ ap ok (validate_configuration-IsConfiguration is_directory config valid accepted).0
        | inr (error, refused) ↦ elim (Bool-cases (occupied d)) [
          | inl full ↦ cc (rw (full, dump_configuration) at h)
          | inr free ↦
              let (raised, _, _) =
                after_validation-refused print table config faults error d
                  (bare-unoccupied d free) in
              cc
                (raised.1, rw (refused, dump_configuration) at (rw (free, dump_configuration) at h))
        ]
      ]

  -- What an export that returned has published is loaded back: the configuration, within the bounds
  -- of its fields, and the metadata table, where the parser reads what the printer writes and the
  -- configuration counts the rows that were exported.
  pub load-dump_configuration :
      (print : DatasetConfiguration → C) (parse : C → Result DatasetConfiguration)
      (num_rows : M → ℕ) (is_directory : String → Bool) (table : M) (config : DatasetConfiguration)
      (faults : Faults) (d : Directory C M)
      → ((c : DatasetConfiguration) → parse (print c) ≡ validate_configuration is_directory c)
      → num_rows table ≡ config.row_count
      → (dump_configuration print is_directory table config faults d).0 ≡ ok tt
      → let after = (dump_configuration print is_directory table config faults d).1 in
        (load_configuration parse after ≡ ok config)
        × (load_metadata num_rows after config ≡ ok table)
        × IsConfiguration config
  unfolding load_configuration
  load-dump_configuration print parse num_rows is_directory table config faults d codec rows done =
      elim (dump_configuration_outcome print is_directory table config faults d) [
        | inl (full, raised, left) ↦ cc (done, raised)
        | inr (inl (free, returned, left)) ↦
            let valid = dump_validated print is_directory table config faults d returned in
            subst
              (λ (after : Directory C M).
                (load_configuration parse after ≡ ok config)
                × (load_metadata num_rows after config ≡ ok table)
                × IsConfiguration config)
              (sym left)
              (
                codec config ∙ valid,
                load_metadata-exported num_rows table (print config) config rows,
                (validate_configuration-IsConfiguration is_directory config config valid).1,
              )
        | inr (inr (free, (raised, _, _))) ↦ cc (done, raised.1)
      ]

  -- The configuration alone, whatever counts the rows.
  pub dump_configuration-read :
      (print : DatasetConfiguration → C) (parse : C → Result DatasetConfiguration)
      (is_directory : String → Bool) (table : M) (config : DatasetConfiguration) (faults : Faults)
      (d : Directory C M)
      → ((c : DatasetConfiguration) → parse (print c) ≡ validate_configuration is_directory c)
      → (dump_configuration print is_directory table config faults d).0 ≡ ok tt
      → (load_configuration parse (dump_configuration print is_directory table config faults d).1
          ≡ ok config)
        × IsConfiguration config
  dump_configuration-read print parse is_directory table config faults d codec done =
      let (read, _, valid) =
        load-dump_configuration print parse (λ _. config.row_count) is_directory table config faults
          d codec refl done in
      (read, valid)
