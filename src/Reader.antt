-- ===== src/Reader.antt =====
-- `ReaderAdapter` and `WorkerInitializer` of dataset_rt/integrations/loader.py: one process-local
-- reader over a prepared partition. `window h k` is what the iterator made k-th from a native
-- dataset emits; process and worker identities are arguments of the calls that read them.
pub mod Stream
pub mod Consumers
pub mod Ownership
use dataset_rt.Prelude.{
  ℕ, zero, suc, ◌+◌, ◌==◌, ◌||◌, not, ℤ, pos, min, Bool, true, false, Option, none, some, List, [],
  ◌∷◌, ◌++◌, length, get_elem?, String, if◌then◌else◌,
}
use dataset_rt.Python.{
  Result, ok, err, Error, runtime_error, index_error, type_error, ◌>>=◌, ◌>>◌, raise_if,
}
use dataset_rt.Partition.{ReplicaIdentity}
use dataset_rt.Config.{DatasetConfiguration}
use dataset_rt.Plan.{WorkerPlan}
use dataset_rt.Selection.{population_selection}
use dataset_rt.Dataset.{Native, CachedDataset, from_configuration}

-- `get_worker_info()`: none in the main process.
pub record WorkerInfo : Type 0 where
  pub id : ℕ
  pub num_workers : ℕ

-- `_worker_plan`, after the identity is resolved.
unfoldable pub plan_for : ReplicaIdentity → List WorkerPlan → ℕ → ℕ → Result WorkerPlan
plan_for replica partitions worker_id worker_count = do
  raise_if (not (worker_count == length partitions))
      (runtime_error "DataLoader worker count differs from prepared partitions")
  recipe ← elim (get_elem? partitions worker_id) as (λ o. Result WorkerPlan) [
    | none ↦ err (index_error "tuple index out of range")
    | some plan ↦ ok plan
  ]
  raise_if (not (recipe.rank == replica.rank) || not (recipe.worker_id == worker_id))
      (runtime_error "worker plan does not match consumer identity")
  ok recipe

unfoldable pub worker_plan_of :
    ReplicaIdentity → List WorkerPlan → Option WorkerInfo → Result WorkerPlan
unfolding plan_for
worker_plan_of replica partitions none = plan_for replica partitions 0 1
worker_plan_of replica partitions (some info) = plan_for replica partitions info.id info.num_workers

-- The inputs that cross processes: what `__reduce__` keeps.
pub record ReaderInputs : Type 0 where
  pub replica : ReplicaIdentity
  pub shuffle : Bool
  pub seed : Option ℕ
  pub native_num_workers : ℕ
  pub row_count : ℕ
  pub partitions : List WorkerPlan
  pub config_path : String
  pub verbose : Bool
  pub persistent_workers : Bool

module _ (native : Native) where
  open native use {Handle, Table, Sample}

  unfoldable pub selected : (List ℕ → Table) → Option (List ℕ) → Option Table
  selected row_index none = none
  selected row_index (some rows) = some (row_index rows)

  -- `_create_dataset`: the exported configuration and its table, with the plan's quota, population
  -- and seed put in. `order` is the saved row order, and `row_index` makes a table of positions.
  unfoldable pub create_dataset :
      (String → String)
      → (List ℕ → Table)
      → List ℕ
      → DatasetConfiguration
      → Table
      → Bool
      → ℕ
      → WorkerPlan
      → Result (CachedDataset native)
  unfolding population_selection from_configuration selected
  create_dataset resolve row_index order config metadata shuffle native_num_workers recipe = do
    selection ←
        population_selection order config.row_count (pos recipe.offset) (pos recipe.population_size)
          recipe.partition_seed
    from_configuration native resolve
        (record config {
          num_workers = native_num_workers;
          epoch_len = recipe.sample_count;
          row_count = recipe.population_size;
          reader_config = record (config.reader_config) {
            shuffle = shuffle;
            seed = pos recipe.seed;
          };
        })
        metadata (selected row_index selection)

  -- `LocalReader`: `started` iterators were made, and `stream` is what the last has left.
  pub record LocalReader : Type 0 where
    pub pid : ℕ
    pub dataset : CachedDataset native
    pub started : ℕ
    pub stream : List Sample

  -- `PendingReader | EmptyPartition | LocalReader`
  pub data ReaderState : Type 0 where
    pending : ReaderState
    empty : (pid : ℕ) → ReaderState
    local : LocalReader → ReaderState

  pub record ReaderAdapter : Type 0 where
    pub inputs : ReaderInputs
    pub artifacts : Option ℕ
    pub state : ReaderState

  -- `__init__`
  unfoldable pub new_adapter : ReaderInputs → ReaderAdapter
  new_adapter inputs = record { inputs = inputs; artifacts = none; state = pending }

  -- Pickling, and unpickling in another process.
  unfoldable pub reduce : ReaderAdapter → ReaderInputs
  reduce adapter = adapter.inputs

  -- A pass: the samples drawn, those delivered behind the transform, and how it ends.
  pub record Pass (T : Type 0) : Type 0 where
    pub drawn : List Sample
    pub emitted : List T
    pub reader : LocalReader
    pub failure : Option Error

  -- What `WorkerInitializer` finds in its process.
  pub data WorkerDataset : Type 0 where
    no_worker : WorkerDataset
    other_dataset : WorkerDataset
    reader_dataset : WorkerInfo → ReaderInputs → ReaderState → WorkerDataset

  module _ (window : Handle → ℕ → List Sample) where
    owned_by : ℕ → ℕ → ReaderState → Result ReaderState
    owned_by pid owner state =
        if owner == pid
        then ok state
        else err (runtime_error "DatasetRT loader native state belongs to another PID")

    -- The reader of a plan, by what `create` gives for it.
    unfoldable pub open_reader :
        (WorkerPlan → Result (CachedDataset native)) → ℕ → WorkerPlan → Result ReaderState
    open_reader create pid recipe =
        if recipe.sample_count == 0
        then ok (empty pid)
        else create recipe >>= λ dataset. ok (
            local (record {
              pid = pid;
              dataset = dataset;
              started = 1;
              stream = window dataset.inner 0;
            }))

    -- `setup`
    unfoldable pub setup :
        (WorkerPlan → Result (CachedDataset native))
        → ReaderInputs
        → Option WorkerInfo
        → ℕ
        → ReaderState
        → Result ReaderState
    unfolding owned_by open_reader
    setup create inputs info pid pending = do
      recipe ← worker_plan_of inputs.replica inputs.partitions info
      open_reader create pid recipe
    setup create inputs info pid (empty owner) = owned_by pid owner (empty owner)
    setup create inputs info pid (local reader) = owned_by pid reader.pid (local reader)

    -- `WorkerInitializer.__call__`: native setup comes before the caller's hook.
    unfoldable pub initialize_worker :
        (WorkerPlan → Result (CachedDataset native))
        → (ℕ → Result (Unit {0}))
        → ℕ
        → ℕ
        → WorkerDataset
        → Result ReaderState
    unfolding setup
    initialize_worker create hook pid worker_id (reader_dataset info inputs state) = do
      ready ← setup create inputs (some info) pid state
      hook worker_id
      ok ready
    initialize_worker create hook pid worker_id _ =
        err (runtime_error "DatasetRT initialization requires its DataLoader worker")

    -- `next(state.stream)`, with a fresh iterator where it has ended.
    unfoldable pub draw_from :
        LocalReader → List Sample → List Sample → Option (Sample × LocalReader)
    draw_from reader (sample ∷ stream) fresh = some (sample, record reader { stream = stream })
    draw_from reader [] (sample ∷ stream) =
        some (sample, record reader { started = suc reader.started; stream = stream })
    draw_from reader [] [] = none

    unfoldable pub draw : LocalReader → Option (Sample × LocalReader)
    unfolding draw_from
    draw reader = draw_from reader reader.stream (window reader.dataset.inner reader.started)

    module _ {T : Type 0} (transform : Sample → Result T) where
      -- The loop, until the consumer has taken a number of samples.
      unfoldable pub draws : ℕ → LocalReader → Pass T
      unfolding draw
      draws zero reader = record { drawn = []; emitted = []; reader = reader; failure = none }
      draws (suc count) reader = elim (draw reader) [
        | none ↦ record {
          drawn = [];
          emitted = [];
          reader = record reader { started = suc reader.started };
          failure = some (runtime_error "generator raised StopIteration");
        }
        | some (sample, later) ↦ elim (transform sample) [
          | err error ↦ record {
            drawn = sample ∷ [];
            emitted = [];
            reader = later;
            failure = some error;
          }
          | ok result ↦
              let rest = draws count later in
              record {
                drawn = sample ∷ rest.drawn;
                emitted = result ∷ rest.emitted;
                reader = rest.reader;
                failure = rest.failure;
              }
        ]
      ]

      -- `__iter__` of a reader that is set up, for a consumer that stops after `wanted` samples.
      unfoldable pub run_pass : ℕ → LocalReader → Pass T
      unfolding draws
      run_pass wanted reader = draws (min wanted (native.len reader.dataset.inner)) reader

      -- One pass behind another, and what they drew.
      unfoldable pub run_passes : List ℕ → LocalReader → List Sample × LocalReader
      unfolding run_pass
      run_passes [] reader = ([], reader)
      run_passes (wanted ∷ more) reader =
          let pass = run_pass wanted reader in
          let rest = run_passes more pass.reader in (pass.drawn ++ rest.0, rest.1)
