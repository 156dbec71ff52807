-- ===== src/Examples/Readers.antt =====
-- Instances of the theorems on datasets and readers.
use dataset_rt.Prelude.{
  ℕ, ◌+◌, ◌≡◌, refl, sym, arith, pos, true, false, Option, none, some, List, [], ◌∷◌, ◌++◌, length,
}
use dataset_rt.Python.{Result, ok, err, runtime_error, ok-injective, nat, int}
use dataset_rt.Config.{ReaderConfig}
use dataset_rt.Plan.{WorkerPlan}
use dataset_rt.Dataset.{
  Native, MetadataSnapshot, original, CachedDataset, slice_metadata, load, active_rows,
}
use dataset_rt.Dataset.Recipe.{IsCurrent, here, then_step, new_epoch_len, recipe-IsCurrent}
use dataset_rt.Dataset.Manifests.{
  RawUpdate, RawEntry, ManifestUpdate, report, updated, Retains, update_manifests,
  update_manifests-Retains,
}
use dataset_rt.Reader.{
  WorkerInfo, ReaderInputs, LocalReader, ReaderState, pending, local, setup, run_pass, run_passes,
  worker_plan_of,
}
use dataset_rt.Reader.Stream.{windows, passes_follow, run_pass-emitted}
use dataset_rt.Reader.Ownership.{setup_owned}
use dataset_rt.Reader.Consumers.{consumer_finds_plan}
use dataset_rt.Examples.{second_of_two, request, planned, request-planned}

-- A native dataset that is no more than its length, and tables that are their row counts.
abbrev pub lengths : Native
lengths = record {
  Handle = ℕ;
  Table = ℕ;
  Sample = ℕ;
  create = λ paths config. ok 4;
  len = λ h. h;
  update_metadata = λ h t s. ok t;
  set_epoch_len = λ h n. ok n;
  get_item = λ h c s. ok s;
  num_rows = λ t. t;
  slice = λ t offset size. size;
  len-set_epoch_len = λ h h' n same. sym (ok-injective same);
  len-update_metadata = λ h h' t same. sym (ok-injective same);
  num_rows-slice = λ t offset size fits. refl;
}

abbrev pub settings : ReaderConfig
settings = record { seed = pos 0; prefetch_size = 8; shuffle = true; validate_cache = false }

-- A dataset of an epoch of some samples.
abbrev of_length : ℕ → CachedDataset lengths
of_length n = record {
  cache_paths = "cache" ∷ [];
  reader_config = settings;
  runtime_num_workers = 2;
  inner = n;
  recipe = record {
    cache_paths = "cache" ∷ [];
    reader_config = settings;
    sample_count = n;
    metadata = original;
  };
}

recipe-IsCurrent_example : IsCurrent lengths (λ p. p) ("cache" ∷ []) settings (of_length 7)
unfolding load dataset_rt.Dataset.set_epoch_len
recipe-IsCurrent_example =
    recipe-IsCurrent lengths (λ p. p) ("cache" ∷ []) settings 2 (of_length 4) (of_length 7) refl
      (then_step here (new_epoch_len (pos 7) refl))

abbrev raw_update : RawUpdate
raw_update = record {
  success = true;
  records = record { path = "a"; cache_id = 5; status = "updated" } ∷ [];
  failed_path = none;
  message = "";
}

abbrev migrated : ManifestUpdate
migrated = report (record { path = "a"; cache_id = 5; status = updated } ∷ [])

update_manifests-Retains_example :
    Retains (raw_update.records) (record { path = "a"; cache_id = 5; status = updated } ∷ [])
    × (true ≡ true)
unfolding update_manifests dataset_rt.Dataset.Manifests.read_entry
    dataset_rt.Dataset.Manifests.read_status dataset_rt.Python.traverse
update_manifests-Retains_example = update_manifests-Retains (λ version. raw_update) migrated refl

abbrev window : ℕ → ℕ → List ℕ
window h k = k ∷ (k + 1) ∷ []

abbrev inputs : ReaderInputs
inputs = record {
  replica = second_of_two;
  shuffle = true;
  seed = some 7;
  native_num_workers = 1;
  row_count = 5;
  partitions = planned;
  config_path = "dataset.json";
  verbose = false;
  persistent_workers = true;
}

abbrev create : WorkerPlan → Result (CachedDataset lengths)
create plan = ok (of_length plan.sample_count)

abbrev first_worker : Option WorkerInfo
first_worker = some (record { id = 0; num_workers = 2 })

abbrev reader : LocalReader lengths
reader = record { pid = 30; dataset = of_length 2; started = 1; stream = 0 ∷ 1 ∷ [] }

passes_follow_example :
    (let passes = run_passes lengths window (λ x. ok x) (2 ∷ 1 ∷ []) reader in
      passes.0 ++ passes.1.stream ≡ windows lengths window 2 passes.1.started)
unfolding setup worker_plan_of dataset_rt.Reader.plan_for dataset_rt.Reader.open_reader
passes_follow_example =
    passes_follow lengths window (λ x. ok x) create inputs first_worker 30 (2 ∷ 1 ∷ []) reader refl

run_pass-emitted_example :
    (let pass = run_pass lengths window (λ x. ok x) 5 reader in
      (length pass.emitted ≡ 2) × (pass.failure ≡ none))
run_pass-emitted_example =
    run_pass-emitted lengths window (λ x. ok x) 5 reader (λ k. omega arith) (λ x. (x, refl))
      (omega arith)

setup_owned_example :
    (setup lengths window create inputs first_worker 30 (local reader) ≡ ok (local reader))
    × (setup lengths window create inputs first_worker 31 (local reader)
        ≡ err (runtime_error "DatasetRT loader native state belongs to another PID"))
unfolding setup worker_plan_of dataset_rt.Reader.plan_for dataset_rt.Reader.open_reader
setup_owned_example =
    setup_owned lengths window create inputs first_worker 30 31 pending (local reader) refl
      (λ same. omega (arith, same))

consumer_finds_plan_example :
    (plan : WorkerPlan) × (worker_plan_of second_of_two planned first_worker ≡ ok plan)
    × (plan.rank ≡ 1)
    × (plan.worker_id ≡ 0)
consumer_finds_plan_example =
    consumer_finds_plan request planned first_worker request-planned (refl, omega arith)
