-- ===== src/Loader/Returns.antt =====
-- A call of `make_dataloader` that is resolved returns a loader, unless something outside fails.
use dataset_rt.Prelude.{
  ℕ, ◌≤◌, ◌^◌, ◌≡◌, refl, ap, subst, ◌==◌, Bool, Bool-cases, true, false, Option, none, some, List,
  ◌∷◌, inl, inr, String, if◌then◌else◌,
}
use dataset_rt.Python.{Value, nat, Result, ok, err, ◌>>=◌, >>=-elim, ok-injective}
use dataset_rt.Partition.{u64_max, require_u64, ReplicaIdentity}
use dataset_rt.Seed.{common_seed}
use dataset_rt.Plan.{Partitioning, split, replicate, optional_seed}
use dataset_rt.Plan.Loop.{SeedFits}
use dataset_rt.Plan.Accepted.{prepare_partitions_accepted}
use dataset_rt.Options.{LoaderOptions, resolved_partition, resolved_seed}
use dataset_rt.Export.{Faults, bare, dump_configuration, validate_configuration}
use dataset_rt.Export.Artifacts.{ConstructionArtifacts, create_artifacts}
use dataset_rt.Export.Roundtrip.{dump_configuration-read}
use dataset_rt.Loader.{
  Process, Call, Exporting, Prepared, Resolved, truth, epoch_samples, resolve_call,
  planning_request, reader_inputs, saved_order, sampling, settle, construct_in, construct,
  make_dataloader, prepare_adapter, warn_restarting_workers,
}
use dataset_rt.Loader.Bounds.{epoch_samples-le}
use dataset_rt.Loader.Plans.{
  IsCodec, IsResolved, resolve_call-IsResolved, planning_request-IsRequest, sampling-ok,
}

-- A shuffling loader has a seed.
abbrev Seeded : Bool → Option ℕ → Type 0
Seeded true none = ⊥
Seeded true (some seed) = Unit
Seeded false seed = Unit

required-Seeded :
    (v : Value) (found : Option ℕ)
    → (require_u64 "seed" v >>= λ s. ok (some s)) ≡ ok found
    → Seeded true found
required-Seeded v found h =
    >>=-elim (require_u64 "seed" v) (λ s. ok (some s)) h
      λ s _ done. subst (Seeded true) (ok-injective done) tt

common_seed-Seeded :
    (replica : ReplicaIdentity) (shuffle : Bool) (seed : Option Value) (drawn : ℕ)
    (broadcast : Value → Value) (found : Option ℕ)
    → common_seed replica shuffle seed drawn broadcast ≡ ok found
    → Seeded shuffle found
unfolding common_seed
common_seed-Seeded replica false seed drawn broadcast found h = tt
common_seed-Seeded replica true (some seed) drawn broadcast found h = required-Seeded seed found h
common_seed-Seeded replica true none drawn broadcast found h =
    elim (Bool-cases (replica.world_size == 1)) [
      | inl alone ↦ subst (Seeded true) (ok-injective (rw alone at h)) tt
      | inr grouped ↦
          required-Seeded (broadcast (if replica.rank == 0 then nat drawn else nat 0)) found
            (rw grouped at h)
    ]

saved_order_returns :
    (shuffle_rows : ℕ → List ℕ → List ℕ) (shuffle : Bool) (mode : Partitioning) (row_count : ℕ)
    (seed : Option ℕ)
    → Seeded shuffle seed
    → (order : Option (List ℕ)) × (saved_order shuffle_rows false shuffle mode row_count seed
        ≡ ok order)
unfolding saved_order
saved_order_returns shuffle_rows true split row_count (some seed) s = (_, refl)
saved_order_returns shuffle_rows true split row_count none s = absurd s
saved_order_returns shuffle_rows true replicate row_count seed s = (none, refl)
saved_order_returns shuffle_rows false split row_count seed s = (none, refl)
saved_order_returns shuffle_rows false replicate row_count seed s = (none, refl)

-- A file system that does not fail.
abbrev pub never : Faults
never = record {
  step = λ step. none;
  unlinks = λ target. false;
  unmade = false;
  unordered = false;
  kept = false;
}

artifacts-return :
    (is_directory : String → Bool) (fresh pid : ℕ) (work_dir : Option String) (directories : List ℕ)
    → ((w : String) → work_dir ≡ some w → is_directory w ≡ true)
    → (made : ConstructionArtifacts × List ℕ) × (create_artifacts is_directory false fresh pid
          work_dir directories
        ≡ ok made)
unfolding create_artifacts
artifacts-return is_directory fresh pid none directories there = (_, refl)
artifacts-return is_directory fresh pid (some w) directories there =
    let made : ConstructionArtifacts × List ℕ =
      (record { directory = fresh; pid = pid; temporary = false }, fresh ∷ directories) in
    (made, rw (there w refl, create_artifacts) refl)

settle-returns :
    (torch : Prepared → Result (Unit {0})) (pid : ℕ) (kept : Bool)
    (artifacts : ConstructionArtifacts) (directories : List ℕ) (warned : Bool)
    (prepared : Result Prepared) (loader : Prepared)
    → prepared ≡ ok loader
    → torch loader ≡ ok tt
    → (settle torch pid kept artifacts directories warned prepared).loader ≡ ok loader
unfolding settle
settle-returns torch pid kept artifacts directories warned (err error) loader h accepted = cc
settle-returns torch pid kept artifacts directories warned (ok prepared) loader h accepted =
    let same : prepared ≡ loader = ok-injective h in rw same (rw (accepted, settle) refl)

module _ {C M : Type 0} where
  dump_returns :
      (x : Exporting C M)
      → validate_configuration x.is_directory x.configuration ≡ ok x.configuration
      → (dump_configuration x.print x.is_directory x.table x.configuration never bare).0 ≡ ok tt
  unfolding dump_configuration
  dump_returns x valid = rw (valid, dump_configuration) refl

  sampling-Seeded :
      (p : Process) (x : Exporting C M) (o : LoaderOptions) (r : Resolved) (samples : ℕ)
      (seed : Option ℕ)
      → sampling p x o r ≡ ok (samples, seed)
      → Seeded (truth o.shuffle) seed
  unfolding sampling
  sampling-Seeded p x o r samples seed h =
      >>=-elim (epoch_samples p.maxsize o.samples_per_epoch x.sample_count) _ h λ n counted h1.
        let given = optional_seed (resolved_seed o.seed) in
        >>=-elim (common_seed r.replica (truth o.shuffle) given p.drawn p.broadcast) _ h1
          λ found agreed done.
            subst (Seeded (truth o.shuffle))
              (ap (λ (pair : ℕ × Option ℕ). pair.1) (ok-injective done))
              (common_seed-Seeded r.replica (truth o.shuffle) given p.drawn p.broadcast found
                agreed)

  prepare_adapter_returns :
      (p : Process) (x : Exporting C M) (c : Call) (r : Resolved) (seed : Option ℕ) (samples : ℕ)
      (artifacts : ConstructionArtifacts)
      → IsCodec x
      → x.configuration.row_count ≤ u64_max
      → ((k : ℕ) → p.worker_draws k ≤ u64_max)
      → IsResolved c r
      → SeedFits seed
      → Seeded (truth c.options.shuffle) seed
      → samples ≤ 2 ^ 53
      → validate_configuration x.is_directory x.configuration ≡ ok x.configuration
      → (loader : Prepared) × (prepare_adapter p x never c.options r seed samples artifacts
          ≡ ok loader)
  unfolding prepare_adapter
  prepare_adapter_returns p x c r seed samples artifacts codec rows draws resolved seed_fits seeded
        fits valid =
      let o = c.options in
      let dumped = dump_returns x valid in
      let (read, good) =
        dump_configuration-read x.print x.parse x.is_directory x.table x.configuration never bare
          codec dumped in
      let (plans, run, _) =
        prepare_partitions_accepted (planning_request p o r seed samples x.configuration)
          (planning_request-IsRequest p c r seed samples x.configuration resolved seed_fits fits
            good rows)
          draws in
      let (order, saved) =
        saved_order_returns x.shuffle_rows (truth o.shuffle)
          (resolved_partition (truth o.shuffle) o.partition) x.configuration.row_count seed
          seeded in
      let loader : Prepared = record {
        inputs = reader_inputs p o r seed x.configuration plans;
        artifacts = artifacts;
        row_order = order;
      } in
      (
        loader,
        rw (dumped, prepare_adapter)
            (rw (read, prepare_adapter)
              (rw (run, prepare_adapter) (rw (saved, prepare_adapter) refl))),
      )

  -- Once a call of `make_dataloader` is resolved and its samples and seed are settled, it returns a
  -- loader: for a validated configuration of less than 2^64 rows, 64-bit random draws, a codec that
  -- reads what it writes, a work directory that exists where one is given, and steps of the file
  -- system and a constructor of Torch that do not fail, neither the planning nor the row order does.
  pub make_dataloader_returns :
      (p : Process) (x : Exporting C M) (torch : Prepared → Result (Unit {0})) (c : Call)
      (fresh : ℕ) (directories : List ℕ) (r : Resolved) (samples : ℕ) (seed : Option ℕ)
      → IsCodec x
      → x.configuration.row_count ≤ u64_max
      → p.drawn ≤ u64_max
      → ((k : ℕ) → p.worker_draws k ≤ u64_max)
      → validate_configuration x.is_directory x.configuration ≡ ok x.configuration
      → ((w : String) → c.work_dir ≡ some w → x.is_directory w ≡ true)
      → ((loader : Prepared) → torch loader ≡ ok tt)
      → resolve_call p c ≡ ok r
      → sampling p x c.options r ≡ ok (samples, seed)
      → (loader : Prepared) × ((make_dataloader p x never torch c fresh directories).loader
          ≡ ok loader)
  unfolding make_dataloader construct construct_in
  make_dataloader_returns p x torch c fresh directories r samples seed codec rows drawn draws valid
        there accepts resolved sampled =
      let (counted, seed_fits) = sampling-ok p x c.options r samples seed drawn sampled in
      let (made, created) =
        artifacts-return x.is_directory fresh p.pid c.work_dir directories there in
      let (loader, prepared) =
        prepare_adapter_returns p x c r seed samples made.0 codec rows draws
          (resolve_call-IsResolved p c r resolved) seed_fits
          (sampling-Seeded p x c.options r samples seed sampled)
          (epoch_samples-le p.maxsize c.options.samples_per_epoch x.sample_count samples counted)
          valid in
      (
        loader,
        rw (resolved, make_dataloader)
            (rw (sampled, construct)
              (rw (created, construct_in)
                (settle-returns torch p.pid false made.0 made.1 (warn_restarting_workers r.workers)
                  (prepare_adapter p x never c.options r seed samples made.0) loader prepared
                  (accepts loader)))),
      )
