-- ===== src/Export/Publication.antt =====
-- A reader that finds an exported configuration finds all of its metadata.
use dataset_rt.Prelude.{
  ℕ, zero, suc, ◌≡◌, refl, ap, sym, subst, ◌∙◌, ltb, not, ◌||◌, Bool, Bool-cases, Option-cases,
  true, false, none, some, List, [], ◌∷◌, arith, inl, inr, ◌⊎◌, String,
}
use dataset_rt.Python.{
  Result, ok, err, Error, os_error, file_exists, Result-cases, raise_if, >>=-elim, ok-injective,
}
use dataset_rt.Config.{DatasetConfiguration, IsConfiguration}
use dataset_rt.Export.{
  Action, script, export_metadata, sync_metadata, write_config, sync_config, publish_metadata,
  publish_config, Fault, early, midway, late, Faults, Directory, bare, occupied, exists, perform,
  perform_all, broken, unlink, unlink_all, handle, killed, run_script, after_validation, all_exist,
  is_nil, validate_configuration, dump_configuration,
}

-- A validated configuration is the one that was given, and is within the bounds of its fields.
pub validate_configuration-IsConfiguration :
    (is_directory : String → Bool) (config valid : DatasetConfiguration)
    → validate_configuration is_directory config ≡ ok valid
    → (valid ≡ config) × IsConfiguration config
unfolding validate_configuration
validate_configuration-IsConfiguration is_directory config valid h =
    >>=-elim
      (raise_if (is_nil config.cache_paths || not (all_exist is_directory config.cache_paths)) _) _
      h
      λ _ some h1.
        >>=-elim (raise_if (not (ltb 0 config.reader_config.prefetch_size)) _) _ h1 λ _ queue h2.
          >>=-elim (raise_if (not (ltb 0 config.num_workers)) _) _ h2 λ _ worker h3.
            >>=-elim (raise_if (not (ltb 0 config.epoch_len)) _) _ h3 λ _ sample h4.
              >>=-elim (raise_if (not (ltb 0 config.row_count)) _) _ h4 λ _ row done. (
                sym (ok-injective done),
                record {
                  some_cache = λ nothing. cc (rw nothing at some);
                  prefetches = ground (arith, queue);
                  some_worker = ground (arith, worker);
                  some_sample = ground (arith, sample);
                  some_row = ground (arith, row);
                },
              )

module _ {C M : Type 0} where
  -- A configuration that can be seen is whole and flushed, and so is the metadata beside it.
  abbrev pub Published : M → C → Directory C M → Type 0
  Published table text d =
      (d.config ≡ none)
      ⊎ ((d.config ≡ some (record { content = text; complete = true; synced = true }))
          × (d.metadata ≡ some (record { content = table; complete = true; synced = true })))

  -- Wherever the process is killed while it exports to an unused directory, before, inside or
  -- behind any step, there is no configuration to be seen, or it and the metadata beside it are
  -- whole, flushed to the disk, and what was exported.
  pub killed-Published :
      (table : M) (text : C) (count : ℕ) → Published table text (killed table text count bare)
  unfolding killed
  killed-Published table text zero = inl refl
  killed-Published table text (suc zero) = inl refl
  killed-Published table text (suc (suc zero)) = inl refl
  killed-Published table text (suc (suc (suc zero))) = inl refl
  killed-Published table text (suc (suc (suc (suc zero)))) = inl refl
  killed-Published table text (suc (suc (suc (suc (suc zero))))) = inl refl
  killed-Published table text (suc (suc (suc (suc (suc (suc zero)))))) = inr (refl, refl)
  killed-Published table text (suc (suc (suc (suc (suc (suc (suc count))))))) = inr (refl, refl)

  -- Wherever a step of the rest raises, a configuration that can be seen is published.
  unfoldable Along : M → C → List Action → Directory C M → Type 0
  Along table text [] d = Unit {0}
  Along table text (action ∷ actions) d =
      ((fault : Fault) → Published table text (broken table text fault action d))
      × Along table text actions (perform table text true action d)

  Fault-Published :
      (table : M) (text : C) (action : Action) (d : Directory C M)
      → Published table text d
      → Published table text (perform table text false action d)
      → Published table text (perform table text true action d)
      → (fault : Fault) → Published table text (broken table text fault action d)
  unfolding broken
  Fault-Published table text action d before inside behind early = before
  Fault-Published table text action d before inside behind midway = inside
  Fault-Published table text action d before inside behind late = behind

  script-Along : (table : M) (text : C) → Along table text script bare
  unfolding Along perform
  script-Along table text = (
    Fault-Published table text export_metadata _ (inl refl) (inl refl) (inl refl),
    (
      Fault-Published table text sync_metadata _ (inl refl) (inl refl) (inl refl),
      (
        Fault-Published table text write_config _ (inl refl) (inl refl) (inl refl),
        (
          Fault-Published table text sync_config _ (inl refl) (inl refl) (inl refl),
          (
            Fault-Published table text publish_metadata _ (inl refl) (inl refl) (inl refl),
            (
              Fault-Published table text publish_config _ (inl refl) (inl refl) (inr (refl, refl)),
              tt,
            ),
          ),
        ),
      ),
    ),
  )

  -- An error, and a directory without files or one where a removal raised; either way, a
  -- configuration that can be seen is published.
  abbrev pub Handled : M → C → Faults → Result (Unit {0}) × Directory C M → Type 0
  Handled table text faults out =
      ((e : Error) × (out.0 ≡ err e))
      × Published table text out.1
      × ((out.1 ≡ bare) ⊎ ((i : ℕ) × (faults.unlinks i ≡ true)))

  handle-Handled :
      (table : M) (text : C) (faults : Faults) (error : Error) (d : Directory C M)
      → Published table text d
      → Handled table text faults (handle faults error d)
  unfolding handle unlink_all unlink
  handle-Handled table text faults error d safe = elim (Bool-cases (faults.unlinks 0)) [
    | inl h0 ↦ rw (h0, handle) ((os_error, refl), safe, inr (0, h0))
    | inr n0 ↦ elim (Bool-cases (faults.unlinks 1)) [
      | inl h1 ↦ rw (n0, handle) (rw (h1, handle) ((os_error, refl), inl refl, inr (1, h1)))
      | inr n1 ↦ elim (Bool-cases (faults.unlinks 2)) [
        | inl h2 ↦
            rw (n0, handle)
              (rw (n1, handle) (rw (h2, handle) ((os_error, refl), inl refl, inr (2, h2))))
        | inr n2 ↦ elim (Bool-cases (faults.unlinks 3)) [
          | inl h3 ↦
              rw (n0, handle)
                (rw (n1, handle)
                  (rw (n2, handle) (rw (h3, handle) ((os_error, refl), inl refl, inr (3, h3)))))
          | inr n3 ↦
              rw (n0, handle)
                (rw (n1, handle)
                  (rw (n2, handle) (rw (n3, handle) ((error, refl), inl refl, inl refl))))
        ]
      ]
    ]
  ]

  run_script-outcome :
      (table : M) (text : C) (faults : Faults) (number : ℕ) (actions : List Action)
      (d : Directory C M)
      → Along table text actions d
      → let out = run_script table text faults number actions d in
        ((out.0 ≡ ok tt) × (out.1 ≡ perform_all table text actions d))
        ⊎ Handled table text faults out
  unfolding run_script perform_all Along
  run_script-outcome table text faults number [] d along = inl (refl, refl)
  run_script-outcome table text faults number (action ∷ actions) d (here, later) =
      elim (Option-cases (faults.step number)) [
        | inl fine ↦
            rw (fine, run_script)
              (run_script-outcome table text faults (suc number) actions
                (perform table text true action d) later)
        | inr (fault, h) ↦
            rw (h, run_script)
              (inr (
                handle-Handled table text faults os_error (broken table text fault action d)
                  (here fault)))
      ]

  -- The directory of a whole export.
  abbrev pub exported : M → C → Directory C M
  exported table text = record {
    config = some (record { content = text; complete = true; synced = true });
    metadata = some (record { content = table; complete = true; synced = true });
    pending_config = none;
    pending_metadata = none;
  }

  pub bare-unoccupied : (d : Directory C M) → occupied d ≡ false → d ≡ bare
  unfolding occupied exists
  bare-unoccupied d h = ground arith

  after_validation-accepted :
      (print : DatasetConfiguration → C) (table : M) (config : DatasetConfiguration)
      (faults : Faults) (d : Directory C M)
      → d ≡ bare
      → let out = after_validation print table config faults d (ok config) in
        ((out.0 ≡ ok tt) × (out.1 ≡ exported table (print config)))
        ⊎ Handled table (print config) faults out
  unfolding after_validation perform_all perform
  after_validation-accepted print table config faults d unused =
      subst
        (λ (d : Directory C M).
          let out = run_script table (print config) faults 0 script d in
          ((out.0 ≡ ok tt) × (out.1 ≡ exported table (print config)))
          ⊎ Handled table (print config) faults out)
        (sym unused)
        (run_script-outcome table (print config) faults 0 script bare
          (script-Along table (print config)))

  pub after_validation-refused :
      (print : DatasetConfiguration → C) (table : M) (config : DatasetConfiguration)
      (faults : Faults) (error : Error) (d : Directory C M)
      → d ≡ bare
      → Handled table
          (print config)
          faults
          (after_validation print table config faults d (err error))
  unfolding after_validation perform Along
  after_validation-refused print table config faults error d unused =
      subst
        (λ (d : Directory C M).
          Handled table (print config) faults
            (after_validation print table config faults d (err error)))
        (sym unused)
        (elim (Option-cases (faults.step 0)) [
          | inl fine ↦
              rw (fine, after_validation)
                (handle-Handled table (print config) faults error
                  (perform table (print config) true export_metadata bare) (inl refl))
          | inr (fault, h) ↦
              rw (h, after_validation)
                (handle-Handled table (print config) faults os_error
                  (broken table (print config) fault export_metadata bare)
                  ((script-Along table (print config)).0 fault))
        ])

  -- An export never writes to a directory that holds one of its files, and leaves it as it was. In
  -- any other it either returns with the whole export, or raises: then it has removed all of its
  -- files, unless the removal of one raised as well, and even then a configuration that is left is
  -- whole, flushed to the disk and beside its whole metadata.
  pub dump_configuration_outcome :
      (print : DatasetConfiguration → C) (is_directory : String → Bool) (table : M)
      (config : DatasetConfiguration) (faults : Faults) (d : Directory C M)
      → let out = dump_configuration print is_directory table config faults d in
        ((occupied d ≡ true) × (out.0 ≡ err file_exists) × (out.1 ≡ d))
        ⊎ ((occupied d ≡ false) × (out.0 ≡ ok tt) × (out.1 ≡ exported table (print config)))
        ⊎ ((occupied d ≡ false) × Handled table (print config) faults out)
  unfolding dump_configuration
  dump_configuration_outcome print is_directory table config faults d =
      elim (Bool-cases (occupied d)) [
        | inl full ↦ rw (full, dump_configuration) (inl (refl, refl, refl))
        | inr free ↦
            let unused = bare-unoccupied d free in
            elim (Result-cases (validate_configuration is_directory config)) [
              | inl (valid, accepted) ↦
                  let same : validate_configuration is_directory config ≡ ok config =
                    accepted
                    ∙ ap ok
                        (validate_configuration-IsConfiguration is_directory config valid
                          accepted).0 in
                  rw (free, dump_configuration)
                    (rw (same, dump_configuration)
                      (elim (after_validation-accepted print table config faults d unused) [
                        | inl (done, left) ↦ inr (inl (refl, done, left))
                        | inr handled ↦ inr (inr (refl, handled))
                      ]))
              | inr (error, refused) ↦
                  rw (free, dump_configuration)
                    (rw (refused, dump_configuration)
                      (inr (
                        inr (
                          refl,
                          after_validation-refused print table config faults error d unused,
                        ))))
            ]
      ]
