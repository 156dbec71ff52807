-- ===== src/Loader.antt =====
-- `make_dataloader` of dataset_rt/integrations/loader.py with what it calls: `capture_replica` of
-- dataset_rt/integrations/loading.py, `_validate_transform`, `_warn_restarting_workers` and
-- `_prepare_adapter`. The process, the launcher, the file system and Torch answer through arguments.
pub mod Bounds
pub mod Construction
pub mod Plans
pub mod Returns
use dataset_rt.Prelude.{
  ℕ, zero, suc, ◌+◌, ◌==◌, ltb, leb, min, ◌^◌, not, ◌&&◌, ◌||◌, ℤ, pos, pos_part, Bool, true, false,
  Option, none, some, List, [], ◌∷◌, map, sum, String, str_eq, if◌then◌else◌,
}
use dataset_rt.Python.{
  Value, null, bool, int, nat, Result, ok, err, Error, value_error, type_error, runtime_error,
  os_error, ◌>>=◌, ◌>>◌, raise_if,
}
use dataset_rt.Partition.{ReplicaIdentity, replica_identity}
use dataset_rt.Config.{DatasetConfiguration}
use dataset_rt.Resources.{LocalWorldSize}
use dataset_rt.Seed.{common_seed}
use dataset_rt.Plan.{
  Partitioning, split, replicate, WorkerPlan, PlanRequest, prepare_partitions, optional_seed,
}
use dataset_rt.Plan.Check.{sample_total}
use dataset_rt.Options.{
  LoaderOptions, ResolvedWorkers, max_sample_budget, validate_options, resolve_workers,
  resolved_seed, resolved_partition,
}
use dataset_rt.Selection.{prepare_row_order}
use dataset_rt.Export.{Directory, Faults, bare, dump_configuration, load_configuration}
use dataset_rt.Export.Artifacts.{ConstructionArtifacts, create_artifacts, discard}
use dataset_rt.Reader.{ReaderInputs}

-- What the process, the launcher and `torch.distributed` answer. `in_worker` is whether there is a
-- worker's information, and `group` the rank and size of the initialized group.
pub record Process : Type 0 where
  pub maxsize : ℕ
  pub methods : List String
  pub in_worker : Bool
  pub group : Option (ℤ × ℤ)
  pub cpus : ℕ
  pub local_world_size : LocalWorldSize
  pub pid : ℕ
  pub drawn : ℕ
  pub broadcast : Value → Value
  pub worker_draws : ℕ → ℕ

unfoldable pub capture_replica : Process → Result ReplicaIdentity
capture_replica p =
    if p.in_worker
    then err (runtime_error "capture_replica must run before DataLoader workers start")
    else elim p.group as (λ o. Result ReplicaIdentity) [
      | none ↦ replica_identity (nat 0) (nat 1)
      | some (rank, world_size) ↦ replica_identity (int rank) (int world_size)
    ]

-- Arguments of a validated type.
abbrev pub truth : Value → Bool
truth (bool b) = b
truth _ = false

abbrev pub whole : Value → ℕ
whole (int n) = pos_part n
whole _ = 0

-- `transform` is none where there is no transform, and otherwise whether it can be pickled.
unfoldable pub validate_transform : Option Bool → ℕ → Result (Unit {0})
validate_transform none processes = ok tt
validate_transform (some picklable) processes =
    raise_if (not (processes == 0) && not picklable)
      (type_error "sample_transform_fn must be picklable for multiprocess loading")

-- `_warn_restarting_workers`: whether it warns.
unfoldable pub warn_restarting_workers : ResolvedWorkers → Bool
warn_restarting_workers workers = not (workers.counts.processes == 0) && not workers.persistent

-- The names that `dataloader_kwargs` may not hold.
abbrev reserved_names : List String
reserved_names =
    "dataset" ∷ "sampler" ∷ "batch_sampler" ∷ "shuffle" ∷ "seed" ∷ "samples_per_epoch"
    ∷ "worker_partition" ∷ "work_dir" ∷ "batch_size" ∷ "num_workers" ∷ "sample_transform_fn"
    ∷ "collate_fn" ∷ "drop_last" ∷ "pin_memory" ∷ "timeout" ∷ "native_num_workers"
    ∷ "multiprocessing_context" ∷ "worker_init_fn" ∷ "prefetch_factor" ∷ "persistent_workers"
    ∷ "verbose" ∷ "dataloader_kwargs" ∷ []

is_among : String → List String → Bool
is_among name [] = false
is_among name (other ∷ others) = str_eq name other || is_among name others

-- Whether `reserved.intersection(extra_kwargs)` has a name.
unfoldable pub conflicts : List String → Bool
unfolding is_among
conflicts [] = false
conflicts (name ∷ names) = is_among name reserved_names || conflicts names

-- The dataset as the loader sees it: what it exports, and how that is written and read back.
pub record Exporting (C M : Type 0) : Type 0 where
  pub print : DatasetConfiguration → C
  pub parse : C → Result DatasetConfiguration
  pub is_directory : String → Bool
  pub table : M
  pub configuration : DatasetConfiguration
  pub sample_count : ℕ
  pub shuffle_rows : ℕ → List ℕ → List ℕ

-- A call of `make_dataloader`; the arguments that go to Torch as they are have no part in it.
pub record Call : Type 0 where
  pub options : LoaderOptions
  pub extra_kwargs : List String
  pub transform : Option Bool
  pub work_dir : Option String

-- The adapter, by what it is made of, with its artifacts and the row order that was saved.
pub record Prepared : Type 0 where
  pub inputs : ReaderInputs
  pub artifacts : ConstructionArtifacts
  pub row_order : Option (List ℕ)

-- What is settled before anything is written.
pub record Resolved : Type 0 where
  pub replica : ReplicaIdentity
  pub workers : ResolvedWorkers

unfoldable pub resolve_call : Process → Call → Result Resolved
unfolding conflicts capture_replica validate_transform
resolve_call p c = do
  raise_if (conflicts c.extra_kwargs) (value_error "dataloader_kwargs contains reserved arguments")
  validate_options p.maxsize p.methods c.options
  replica ← capture_replica p
  workers ← resolve_workers c.options replica.world_size p.cpus p.local_world_size
  validate_transform c.transform workers.counts.processes
  ok (record { replica = replica; workers = workers })

-- The samples of an epoch: the argument's, or the dataset's own.
unfoldable pub epoch_samples : ℕ → Value → ℕ → Result ℕ
epoch_samples maxsize samples_per_epoch inherited =
    let sample_count = elim samples_per_epoch as (λ v. ℕ) [
      | null ↦ inherited
      | other ↦ whole other
    ] in
    if not (leb 1 sample_count && leb sample_count (max_sample_budget maxsize))
    then err (value_error "inherited samples_per_epoch")
    else ok sample_count

abbrev pub planning_request :
    Process → LoaderOptions → Resolved → Option ℕ → ℕ → DatasetConfiguration → PlanRequest
planning_request p o r seed sample_count config = record {
  config = config;
  replica = r.replica;
  num_workers = r.workers.counts.processes;
  batch_size = whole o.batch_size;
  samples_per_epoch = sample_count;
  worker_partition = resolved_partition (truth o.shuffle) o.partition;
  shuffle = truth o.shuffle;
  seed = seed;
  drop_last = truth o.drop_last;
  drawn = p.worker_draws;
}

abbrev pub reader_inputs :
    Process
    → LoaderOptions
    → Resolved
    → Option ℕ
    → DatasetConfiguration
    → List WorkerPlan
    → ReaderInputs
reader_inputs p o r seed config partitions = record {
  replica = r.replica;
  shuffle = truth o.shuffle;
  seed = seed;
  native_num_workers = r.workers.counts.native_threads;
  row_count = sample_total partitions;
  partitions = partitions;
  config_path = "dataset.json";
  verbose = truth o.verbose;
  persistent_workers = r.workers.persistent;
}

-- The row order that is saved, where a file that cannot be written raises.
unfoldable pub saved_order :
    (ℕ → List ℕ → List ℕ) → Bool → Bool → Partitioning → ℕ → Option ℕ → Result (Option (List ℕ))
saved_order shuffle_rows unordered true split row_count (some seed) = do
  raise_if unordered os_error
  ok (some (prepare_row_order shuffle_rows row_count seed))
saved_order shuffle_rows unordered true split row_count none =
    err (runtime_error "shuffled partitions require a resolved seed")
saved_order shuffle_rows unordered _ _ row_count seed = ok none

-- A result, the directories there are behind the call, and whether it warned.
pub record Constructed : Type 0 where
  pub loader : Result Prepared
  pub directories : List ℕ
  pub warned : Bool

-- The `try` block, where Torch's constructor may raise, and its handler.
unfoldable pub settle :
    (Prepared → Result (Unit {0}))
    → ℕ
    → Bool
    → ConstructionArtifacts
    → List ℕ
    → Bool
    → Result Prepared
    → Constructed
settle torch pid kept artifacts directories warned (err error) = record {
  loader = err error;
  directories = discard artifacts pid kept directories;
  warned = warned;
}
settle torch pid kept artifacts directories warned (ok prepared) = elim (torch prepared) [
  | err error ↦ record {
    loader = err error;
    directories = discard artifacts pid kept directories;
    warned = warned;
  }
  | ok _ ↦ record { loader = ok prepared; directories = directories; warned = warned }
]

module _ {C M : Type 0} where
  -- `_prepare_adapter`, in the new directory of the artifacts.
  unfoldable pub prepare_adapter :
      Process
      → Exporting C M
      → Faults
      → LoaderOptions
      → Resolved
      → Option ℕ
      → ℕ
      → ConstructionArtifacts
      → Result Prepared
  unfolding saved_order
  prepare_adapter p x faults o r seed sample_count artifacts = do
    let dumped = dump_configuration x.print x.is_directory x.table x.configuration faults bare
    dumped.0
    config ← load_configuration x.parse dumped.1
    partitions ← prepare_partitions (planning_request p o r seed sample_count config)
    order ←
        saved_order x.shuffle_rows faults.unordered (truth o.shuffle)
          (resolved_partition (truth o.shuffle) o.partition) config.row_count seed
    ok (record {
      inputs = reader_inputs p o r seed config partitions;
      artifacts = artifacts;
      row_order = order;
    })

  unfoldable pub sampling :
      Process → Exporting C M → LoaderOptions → Resolved → Result (ℕ × Option ℕ)
  unfolding epoch_samples
  sampling p x o r = do
    sample_count ← epoch_samples p.maxsize o.samples_per_epoch x.sample_count
    seed ←
        common_seed r.replica (truth o.shuffle) (optional_seed (resolved_seed o.seed)) p.drawn
          p.broadcast
    ok (sample_count, seed)

  unfoldable pub construct_in :
      Process
      → Exporting C M
      → Faults
      → (Prepared → Result (Unit {0}))
      → LoaderOptions
      → List ℕ
      → Resolved
      → ℕ
      → Option ℕ
      → Result (ConstructionArtifacts × List ℕ)
      → Constructed
  unfolding settle prepare_adapter
  construct_in p x faults torch o directories r sample_count seed (err error) = record {
    loader = err error;
    directories = directories;
    warned = warn_restarting_workers r.workers;
  }
  construct_in p x faults torch o directories r sample_count seed (ok (artifacts, present)) =
      settle torch p.pid faults.kept artifacts present (warn_restarting_workers r.workers)
        (prepare_adapter p x faults o r seed sample_count artifacts)

  unfoldable pub construct :
      Process
      → Exporting C M
      → Faults
      → (Prepared → Result (Unit {0}))
      → Call
      → ℕ
      → List ℕ
      → Resolved
      → Result (ℕ × Option ℕ)
      → Constructed
  unfolding construct_in
  construct p x faults torch c fresh directories r (err error) = record {
    loader = err error;
    directories = directories;
    warned = warn_restarting_workers r.workers;
  }
  construct p x faults torch c fresh directories r (ok (sample_count, seed)) =
      construct_in p x faults torch c.options directories r sample_count seed
        (create_artifacts x.is_directory faults.unmade fresh p.pid c.work_dir directories)

  -- `make_dataloader`; `fresh` is the directory that `mkdtemp` would make.
  unfoldable pub make_dataloader :
      Process
      → Exporting C M
      → Faults
      → (Prepared → Result (Unit {0}))
      → Call
      → ℕ
      → List ℕ
      → Constructed
  unfolding resolve_call sampling construct
  make_dataloader p x faults torch c fresh directories = elim (resolve_call p c) [
    | err error ↦ record { loader = err error; directories = directories; warned = false }
    | ok r ↦ construct p x faults torch c fresh directories r (sampling p x c.options r)
  ]
