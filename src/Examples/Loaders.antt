-- ===== src/Examples/Loaders.antt =====
-- Instances of the theorems on exports, loaders and runtimes.
use dataset_rt.Prelude.{
  ℕ, ◌≡◌, refl, arith, ◌==◌, if◌then◌else◌, pos, Bool, true, false, none, some, [], ◌∷◌, String,
  ◌⊎◌,
}
use dataset_rt.Python.{str, bool, nat, null, ok, err, file_exists}
use dataset_rt.Config.{DatasetConfiguration, IsConfiguration}
use dataset_rt.Options.{LoaderOptions, finite, named}
use dataset_rt.Resources.{unset}
use dataset_rt.Export.{
  Faults, early, bare, occupied, killed, validate_configuration, dump_configuration,
  load_configuration, load_metadata,
}
use dataset_rt.Export.Publication.{
  Published, Handled, killed-Published, exported, dump_configuration_outcome,
}
use dataset_rt.Export.Roundtrip.{load-dump_configuration}
use dataset_rt.Loader.{
  Process, Call, Exporting, Prepared, make_dataloader, epoch_samples, Resolved, resolve_call,
  sampling,
}
use dataset_rt.Loader.Returns.{never, make_dataloader_returns}
use dataset_rt.Loader.Plans.{PlannedFor, make_dataloader-PlannedFor}
use dataset_rt.Writer.Parallel.{started}
use dataset_rt.Runtime.{Writing, Processes}
use dataset_rt.Examples.{dataset}

abbrev rows : ℕ
rows = 5

abbrev text : ℕ
text = 6

killed-Published_example : Published rows text (killed rows text 4 bare)
killed-Published_example = killed-Published rows text 4

-- Every directory exists, and no step fails.
abbrev everywhere : String → Bool
everywhere path = true

-- The flush of the configuration raises, and then the removal of the pending configuration.
abbrev failing : Faults
failing = record {
  step = λ step. if step == 3 then some early else none;
  unlinks = λ target. target == 2;
  unmade = false;
  unordered = false;
  kept = true;
}

dump_configuration_outcome_example :
    (let out = dump_configuration {M = ℕ} (λ c. c) everywhere 10 dataset failing bare in
      ((false ≡ true) × (out.0 ≡ err file_exists) × (out.1 ≡ bare))
      ⊎ ((false ≡ false) × (out.0 ≡ ok tt) × (out.1 ≡ exported 10 dataset))
      ⊎ ((false ≡ false) × Handled 10 dataset failing out))
unfolding occupied
dump_configuration_outcome_example =
    dump_configuration_outcome (λ c. c) everywhere 10 dataset failing bare

load-dump_configuration_example :
    (let after = (dump_configuration {M = ℕ} (λ c. c) everywhere 10 dataset never bare).1 in
      (load_configuration (validate_configuration everywhere) after ≡ ok dataset)
      × (load_metadata (λ n. n) after dataset ≡ ok 10)
      × IsConfiguration dataset)
unfolding dump_configuration
load-dump_configuration_example =
    load-dump_configuration (λ c. c) (validate_configuration everywhere) (λ n. n) everywhere 10
      dataset never bare (λ c. refl) refl refl

abbrev process : Process
process = record {
  maxsize = 9223372036854775807;
  methods = "spawn" ∷ [];
  in_worker = false;
  group = none;
  cpus = 8;
  local_world_size = unset;
  pid = 30;
  drawn = 5;
  broadcast = λ v. v;
  worker_draws = λ k. 6;
}

abbrev exporting : Exporting DatasetConfiguration ℕ
exporting = record {
  print = λ c. c;
  parse = validate_configuration everywhere;
  is_directory = everywhere;
  table = 10;
  configuration = dataset;
  sample_count = 10;
  shuffle_rows = λ seed rows. rows;
}

abbrev call : Call
call = record {
  options = record {
    shuffle = bool true;
    seed = nat 7;
    samples_per_epoch = null;
    partition = str "split";
    batch_size = nat 2;
    num_workers = nat 2;
    native_num_workers = nat 1;
    drop_last = bool false;
    pin_memory = bool false;
    persistent_workers = str "auto";
    timeout = finite (pos 0);
    context = named "inherit";
    prefetch = str "auto";
    verbose = bool false;
  };
  extra_kwargs = "generator" ∷ [];
  transform = some true;
  work_dir = none;
}

abbrev made_loader : Prepared
made_loader = record {
  inputs = record {
    replica = record { rank = 0; world_size = 1 };
    shuffle = true;
    seed = some 7;
    native_num_workers = 1;
    row_count = 10;
    partitions =
        record {
          rank = 0;
          worker_id = 0;
          offset = 0;
          population_size = 6;
          sample_count = 6;
          seed = 4009395924408594412;
          partition_seed = some 7;
        }
        ∷ record {
          rank = 0;
          worker_id = 1;
          offset = 6;
          population_size = 4;
          sample_count = 4;
          seed = 14809830920954445264;
          partition_seed = some 7;
        }
        ∷ [];
    config_path = "dataset.json";
    verbose = false;
    persistent_workers = true;
  };
  artifacts = record { directory = 4; pid = 30; temporary = true };
  row_order = some (0 ∷ 1 ∷ 2 ∷ 3 ∷ 4 ∷ 5 ∷ 6 ∷ 7 ∷ 8 ∷ 9 ∷ []);
}

make_dataloader-PlannedFor_example :
    (samples : ℕ) × (epoch_samples 9223372036854775807 null 10 ≡ ok samples)
    × PlannedFor call dataset samples made_loader
unfolding make_dataloader dataset_rt.Plan.prepare_partitions dataset_rt.Partition.partition_rows
    dataset_rt.Partition.require_u64 dataset_rt.Budget.rank_budget dataset_rt.Budget.worker_budgets
    dataset_rt.Partition.span dataset_rt.Seed.reader_seed dataset_rt.Seed.derive_seed
    dataset_rt.Options.validate_options dataset_rt.Partition.replica_identity
    dataset_rt.Options.resolve_workers dataset_rt.Resources.resolve_worker_counts
    dataset_rt.Seed.common_seed dataset_rt.Options.resolved_seed dump_configuration
    load_configuration dataset_rt.Options.resolved_partition
    dataset_rt.Export.Artifacts.create_artifacts dataset_rt.Selection.prepare_row_order
make_dataloader-PlannedFor_example =
    make_dataloader-PlannedFor process exporting never (λ loader. ok tt) call 4 (1 ∷ []) made_loader
      (λ d. refl) (omega arith) (omega arith) (λ k. omega arith) refl

-- A source that the native writer refused.
abbrev writing : Writing
writing = record {
  casefold = λ t. t;
  normalize = λ t. t;
  startups = λ n. started 0;
  shutdowns = λ n. record {
    alive_at_entry = true;
    alive_behind_mailbox = false;
    alive_behind_terminate = false;
    alive_behind_kill = false;
    mailbox_full = false;
    is_dir = false;
    is_symlink = false;
    removal = none;
  };
  rounds = [];
  native = ok (("error", (97 ∷ []), (98 ∷ [])) ∷ []);
}

abbrev serial : Processes
serial = record { num_processes = 0; process_timeout = 10; profiled = false }

abbrev settled : Resolved
settled = record {
  replica = record { rank = 0; world_size = 1 };
  workers = record {
    counts = record { processes = 2; native_threads = 1 };
    persistent = true;
    prefetch = some 2;
    context = some (named "inherit");
  };
}

make_dataloader_returns_example :
    (loader : Prepared) × ((make_dataloader process exporting never
        (λ made. ok tt)
        call
        4
        []).loader
      ≡ ok loader)
unfolding resolve_call sampling dataset_rt.Options.validate_options
    dataset_rt.Partition.replica_identity dataset_rt.Options.resolve_workers
    dataset_rt.Resources.resolve_worker_counts dataset_rt.Seed.common_seed
    dataset_rt.Options.resolved_seed validate_configuration dataset_rt.Plan.optional_seed
    dataset_rt.Partition.require_u64
make_dataloader_returns_example =
    make_dataloader_returns process exporting (λ made. ok tt) call 4 [] settled 10 (some 7)
      (λ d. refl) (omega arith) (omega arith) (λ k. omega arith) refl (λ w given. refl)
      (λ made. refl) refl refl
