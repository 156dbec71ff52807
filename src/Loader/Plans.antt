-- ===== src/Loader/Plans.antt =====
-- The plans of a loader: what its readers are given.
use dataset_rt.Prelude.{
  ℕ, ◌≤◌, ◌<◌, ◌^◌, ◌≡◌, refl, ap, sym, ◌∙◌, subst, ◌==◌, ==_iff, Bool, Bool-cases, Option, List,
  [], ◌∷◌, arith, inl, inr,
}
use dataset_rt.Python.{Result, ok, err, raise_if, >>=-elim, ok-injective, Result-cases}
use dataset_rt.Partition.{u64_max, IsReplica}
use dataset_rt.Config.{DatasetConfiguration, IsConfiguration}
use dataset_rt.Export.{Faults, bare, dump_configuration, load_configuration, validate_configuration}
use dataset_rt.Export.Artifacts.{ConstructionArtifacts, create_artifacts}
use dataset_rt.Export.Roundtrip.{dump_configuration-read}
use dataset_rt.Options.{
  LoaderOptions, validate_options, resolve_workers, resolved_partition, resolved_seed,
}
use dataset_rt.Seed.{common_seed}
use dataset_rt.Plan.{WorkerPlan, Partitioning, prepare_partitions, optional_seed}
use dataset_rt.Plan.Check.{local_samples, active_plans, sample_total, validate_plans}
use dataset_rt.Plan.Loop.{SeedFits}
use dataset_rt.Plan.Request.{IsRequest}
use dataset_rt.Plan.Accepted.{prepare_partitions_accepted}
use dataset_rt.Loader.{
  Process, Call, Exporting, Prepared, Resolved, truth, whole, conflicts, capture_replica,
  validate_transform, resolve_call, epoch_samples, planning_request, reader_inputs, saved_order,
  sampling, settle, construct_in, construct, make_dataloader, prepare_adapter,
  warn_restarting_workers,
}
use dataset_rt.Loader.Bounds.{
  capture_replica-IsReplica, validate_options-Validated, resolve_workers-below, epoch_samples-le,
  common_seed-SeedFits,
}

-- What a resolved call was validated for.
pub record IsResolved (c : Call) (r : Resolved) : Type 0 where
  pub replica : IsReplica r.replica
  pub some_batch : 0 < whole c.options.batch_size
  pub processes : r.workers.counts.processes < 2 ^ 32

pub resolve_call-IsResolved :
    (p : Process) (c : Call) (r : Resolved) → resolve_call p c ≡ ok r → IsResolved c r
unfolding resolve_call
resolve_call-IsResolved p c r h = >>=-elim (raise_if (conflicts c.extra_kwargs) _) _ h λ _ _ h1.
    >>=-elim (validate_options p.maxsize p.methods c.options) _ h1 λ _ options h2.
      >>=-elim (capture_replica p) _ h2 λ replica captured h3.
        >>=-elim (resolve_workers c.options replica.world_size p.cpus p.local_world_size) _ h3
          λ workers resolved h4.
            >>=-elim (validate_transform c.transform workers.counts.processes) _ h4 λ _ _ done.
              let valid = validate_options-Validated p.maxsize p.methods c.options options in
              subst (IsResolved c) (ok-injective done) (record {
                replica = capture_replica-IsReplica p replica captured;
                some_batch = valid.some_batch;
                processes =
                    resolve_workers-below c.options replica.world_size p.cpus p.local_world_size
                      workers valid.processes resolved;
              })

sample_total-active_plans :
    (plans : List WorkerPlan) → sample_total (active_plans plans) ≡ sample_total plans
unfolding active_plans
sample_total-active_plans [] = refl
sample_total-active_plans (plan ∷ plans) = elim (Bool-cases (plan.sample_count == 0)) [
  | inl idle ↦ rw idle (ground (arith, sample_total-active_plans plans, idle))
  | inr busy ↦ rw busy (omega (arith, sample_total-active_plans plans))
]

validated_total :
    (plans : List WorkerPlan) (population requested : ℕ) (partitioning : Partitioning)
    (batch_size : ℕ) (drop_last : Bool) (rank world_size : ℕ)
    → validate_plans plans population requested partitioning batch_size drop_last rank world_size
      ≡ ok tt
    → sample_total plans ≡ local_samples requested world_size batch_size drop_last
unfolding validate_plans
validated_total plans population requested partitioning batch_size drop_last rank world_size h =
    let quota = local_samples requested world_size batch_size drop_last in
    elim (Bool-cases (sample_total (active_plans plans) == quota)) [
      | inl same ↦
          sym (sample_total-active_plans plans)
          ∙ (==_iff (sample_total (active_plans plans)) quota).0 same
      | inr other ↦ cc (rw (other, validate_plans) at h)
    ]

settle-ok :
    (torch : Prepared → Result (Unit {0})) (pid : ℕ) (kept : Bool)
    (artifacts : ConstructionArtifacts) (directories : List ℕ) (warned : Bool)
    (prepared : Result Prepared) (loader : Prepared)
    → (settle torch pid kept artifacts directories warned prepared).loader ≡ ok loader
    → prepared ≡ ok loader
unfolding settle
settle-ok torch pid kept artifacts directories warned (err error) loader h = cc
settle-ok torch pid kept artifacts directories warned (ok prepared) loader h =
    elim (Result-cases (torch prepared)) [
      | inl (u, accepted) ↦ rw (accepted, settle) at h
      | inr (error, refused) ↦ cc (rw (refused, settle) at h)
    ]

-- The plans of a loader's readers pass the check, and their samples are the rank's budget.
abbrev pub PlannedFor : Call → DatasetConfiguration → ℕ → Prepared → Type 0
PlannedFor c config samples loader =
    let i = loader.inputs in
    let o = c.options in
    (validate_plans i.partitions config.row_count samples
        (resolved_partition (truth o.shuffle) o.partition) (whole o.batch_size) (truth o.drop_last)
        i.replica.rank i.replica.world_size
      ≡ ok tt)
    × (i.row_count
        ≡ local_samples samples i.replica.world_size (whole o.batch_size) (truth o.drop_last))

pub planning_request-IsRequest :
    (p : Process) (c : Call) (r : Resolved) (seed : Option ℕ) (samples : ℕ)
    (config : DatasetConfiguration)
    → IsResolved c r
    → SeedFits seed
    → samples ≤ 2 ^ 53
    → IsConfiguration config
    → config.row_count ≤ u64_max
    → IsRequest (planning_request p c.options r seed samples config)
planning_request-IsRequest p c r seed samples config resolved seeded fits valid rows = record {
  member = resolved.replica.0;
  group_fits = resolved.replica.1;
  some_batch = resolved.some_batch;
  workers_fit = resolved.processes;
  samples_fit = fits;
  some_row = valid.some_row;
  rows_fit = rows;
  seed_fits = seeded;
}

planned-PlannedFor :
    (p : Process) (c : Call) (r : Resolved) (seed : Option ℕ) (samples : ℕ)
    (config : DatasetConfiguration) (artifacts : ConstructionArtifacts) (plans : List WorkerPlan)
    (order : Option (List ℕ))
    → ((k : ℕ) → p.worker_draws k ≤ u64_max)
    → IsResolved c r
    → SeedFits seed
    → samples ≤ 2 ^ 53
    → IsConfiguration config
    → config.row_count ≤ u64_max
    → prepare_partitions (planning_request p c.options r seed samples config) ≡ ok plans
    → PlannedFor c config samples (record {
      inputs = reader_inputs p c.options r seed config plans;
      artifacts = artifacts;
      row_order = order;
    })
planned-PlannedFor p c r seed samples config artifacts plans order draws resolved seeded fits valid
      rows planned =
    let o = c.options in
    let request = planning_request p o r seed samples config in
    let (found, run, checked) =
      prepare_partitions_accepted request
        (planning_request-IsRequest p c r seed samples config resolved seeded fits valid rows)
        draws in
    let passes =
      subst
        (λ (ps : List WorkerPlan).
          validate_plans ps config.row_count samples
            (resolved_partition (truth o.shuffle) o.partition) (whole o.batch_size)
            (truth o.drop_last) r.replica.rank r.replica.world_size
          ≡ ok tt)
        (ok-injective (sym run ∙ planned)) checked in
    (
      passes,
      validated_total plans config.row_count samples
          (resolved_partition (truth o.shuffle) o.partition) (whole o.batch_size)
          (truth o.drop_last) r.replica.rank r.replica.world_size passes,
    )

module _ {C M : Type 0} where
  -- The codec reads what it writes, as far as the model's validation lets it.
  abbrev pub IsCodec : Exporting C M → Type 0
  IsCodec x =
      (d : DatasetConfiguration) → x.parse (x.print d) ≡ validate_configuration x.is_directory d

  prepare_adapter-PlannedFor :
      (p : Process) (x : Exporting C M) (faults : Faults) (c : Call) (r : Resolved)
      (seed : Option ℕ) (samples : ℕ) (artifacts : ConstructionArtifacts) (loader : Prepared)
      → IsCodec x
      → x.configuration.row_count ≤ u64_max
      → ((k : ℕ) → p.worker_draws k ≤ u64_max)
      → IsResolved c r
      → SeedFits seed
      → samples ≤ 2 ^ 53
      → prepare_adapter p x faults c.options r seed samples artifacts ≡ ok loader
      → PlannedFor c x.configuration samples loader
  unfolding prepare_adapter
  prepare_adapter-PlannedFor p x faults c r seed samples artifacts loader codec rows draws resolved
        seeded fits h =
      let o = c.options in
      let dumped = dump_configuration x.print x.is_directory x.table x.configuration faults bare in
      >>=-elim dumped.0 _ h λ _ published h1.
        >>=-elim (load_configuration x.parse dumped.1) _ h1 λ config loaded h2.
          >>=-elim (prepare_partitions (planning_request p o r seed samples config)) _ h2
            λ plans planned h3.
              >>=-elim
                (saved_order x.shuffle_rows faults.unordered (truth o.shuffle)
                  (resolved_partition (truth o.shuffle) o.partition) config.row_count seed)
                _ h3
                λ order _ done.
                  let (read, valid) =
                    dump_configuration-read x.print x.parse x.is_directory x.table x.configuration
                      faults bare codec published in
                  let same : config ≡ x.configuration = ok-injective (sym loaded ∙ read) in
                  let made =
                    planned-PlannedFor p c r seed samples x.configuration artifacts plans order
                      draws resolved seeded fits valid rows
                      (subst
                        (λ (d : DatasetConfiguration).
                          prepare_partitions (planning_request p o r seed samples d) ≡ ok plans)
                        same planned) in
                  subst (PlannedFor c x.configuration samples) (ok-injective done) (
                    subst
                      (λ (d : DatasetConfiguration). PlannedFor c x.configuration samples (record {
                        inputs = reader_inputs p o r seed d plans;
                        artifacts = artifacts;
                        row_order = order;
                      }))
                      (sym same) made)

  construct_in-ok :
      (p : Process) (x : Exporting C M) (faults : Faults) (torch : Prepared → Result (Unit {0}))
      (o : LoaderOptions) (directories : List ℕ) (r : Resolved) (samples : ℕ) (seed : Option ℕ)
      (loader : Prepared) (made : Result (ConstructionArtifacts × List ℕ))
      → (construct_in p x faults torch o directories r samples seed made).loader ≡ ok loader
      → (artifacts : ConstructionArtifacts) × (prepare_adapter p x faults o r seed samples artifacts
          ≡ ok loader)
  unfolding construct_in
  construct_in-ok p x faults torch o directories r samples seed loader (err error) h = cc
  construct_in-ok p x faults torch o directories r samples seed loader (ok (artifacts, present)) h =
      (
        artifacts,
        settle-ok torch p.pid faults.kept artifacts present (warn_restarting_workers r.workers)
            (prepare_adapter p x faults o r seed samples artifacts) loader h,
      )

  construct-ok :
      (p : Process) (x : Exporting C M) (faults : Faults) (torch : Prepared → Result (Unit {0}))
      (c : Call) (fresh : ℕ) (directories : List ℕ) (r : Resolved) (loader : Prepared)
      (sampled : Result (ℕ × Option ℕ))
      → (construct p x faults torch c fresh directories r sampled).loader ≡ ok loader
      → (samples : ℕ) × (seed : Option ℕ) × (artifacts : ConstructionArtifacts) × (sampled
          ≡ ok (samples, seed))
        × (prepare_adapter p x faults c.options r seed samples artifacts ≡ ok loader)
  unfolding construct
  construct-ok p x faults torch c fresh directories r loader (err error) h = cc
  construct-ok p x faults torch c fresh directories r loader (ok (samples, seed)) h =
      let (artifacts, made) =
        construct_in-ok p x faults torch c.options directories r samples seed loader
          (create_artifacts x.is_directory faults.unmade fresh p.pid c.work_dir directories) h in
      (samples, seed, artifacts, refl, made)

  pub sampling-ok :
      (p : Process) (x : Exporting C M) (o : LoaderOptions) (r : Resolved) (samples : ℕ)
      (seed : Option ℕ)
      → p.drawn ≤ u64_max
      → sampling p x o r ≡ ok (samples, seed)
      → (epoch_samples p.maxsize o.samples_per_epoch x.sample_count ≡ ok samples) × SeedFits seed
  unfolding sampling
  sampling-ok p x o r samples seed drawn h =
      >>=-elim (epoch_samples p.maxsize o.samples_per_epoch x.sample_count) _ h λ n counted h1.
        let given = optional_seed (resolved_seed o.seed) in
        >>=-elim (common_seed r.replica (truth o.shuffle) given p.drawn p.broadcast) _ h1
          λ found agreed done.
            let same = ok-injective done in
            (
              counted ∙ ap (λ (pair : ℕ × Option ℕ). ok pair.0) same,
              subst SeedFits (ap (λ (pair : ℕ × Option ℕ). pair.1) same) (
                  common_seed-SeedFits r.replica (truth o.shuffle) given p.drawn p.broadcast found
                    drawn agreed),
            )

  -- A loader that `make_dataloader` returns, for a dataset of less than 2^64 rows and 64-bit random
  -- draws, where the codec reads what it writes, has the epoch's samples, from the argument or the
  -- dataset, planned so that the independent check accepts the plans of its rank's readers, and its
  -- length is the rank's budget.
  pub make_dataloader-PlannedFor :
      (p : Process) (x : Exporting C M) (faults : Faults) (torch : Prepared → Result (Unit {0}))
      (c : Call) (fresh : ℕ) (directories : List ℕ) (loader : Prepared)
      → IsCodec x
      → x.configuration.row_count ≤ u64_max
      → p.drawn ≤ u64_max
      → ((k : ℕ) → p.worker_draws k ≤ u64_max)
      → (make_dataloader p x faults torch c fresh directories).loader ≡ ok loader
      → (samples : ℕ) × (epoch_samples p.maxsize c.options.samples_per_epoch x.sample_count
          ≡ ok samples)
        × PlannedFor c x.configuration samples loader
  unfolding make_dataloader
  make_dataloader-PlannedFor p x faults torch c fresh directories loader codec rows drawn draws h =
      elim (Result-cases (resolve_call p c)) [
        | inr (error, refused) ↦ cc (rw (refused, make_dataloader) at h)
        | inl (r, resolved) ↦
            let (samples, seed, artifacts, sampled, made) =
              construct-ok p x faults torch c fresh directories r loader (sampling p x c.options r)
                (rw (resolved, make_dataloader) at h) in
            let (counted, seeded) = sampling-ok p x c.options r samples seed drawn sampled in
            (
              samples,
              counted,
              prepare_adapter-PlannedFor p x faults c r seed samples artifacts loader codec rows
                  draws (resolve_call-IsResolved p c r resolved) seeded
                  (epoch_samples-le p.maxsize c.options.samples_per_epoch x.sample_count samples
                    counted)
                  made,
            )
      ]
