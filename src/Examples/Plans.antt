-- ===== src/Examples/Plans.antt =====
-- Instances of the theorems on worker plans and loader options.
use dataset_rt.Prelude.{ℕ, ◌≡◌, refl, arith, true, false, some, List, pos}
use dataset_rt.Python.{str, bool, nat, null, ok}
use dataset_rt.Plan.{WorkerPlan, prepare_partitions, split}
use dataset_rt.Plan.Check.{validate_plans}
use dataset_rt.Plan.Accepted.{prepare_partitions_accepted}
use dataset_rt.Plan.Identity.{prepare_partitions_seeds}
use dataset_rt.Resources.{unset}
use dataset_rt.Options.{LoaderOptions, ResolvedWorkers, finite, named, resolve_workers}
use dataset_rt.Options.Workers.{Consistent, resolve_workers-Consistent}
use dataset_rt.Examples.{request, planned, first_plan, request-planned, request-IsRequest}

prepare_partitions_accepted_example :
    (plans : List WorkerPlan) × (prepare_partitions request ≡ ok plans)
    × (validate_plans plans 10 10 split 2 false 1 2 ≡ ok tt)
prepare_partitions_accepted_example =
    prepare_partitions_accepted request request-IsRequest (λ k. omega arith)

prepare_partitions_seeds_example : (◌≡◌ {A = ℕ} 1 1) × (◌≡◌ {A = ℕ} 0 0)
prepare_partitions_seeds_example =
    prepare_partitions_seeds request request 7 0 0 planned planned first_plan first_plan refl refl
      refl refl request-planned request-planned refl refl refl

abbrev options : LoaderOptions
options = record {
  shuffle = bool true;
  seed = nat 7;
  samples_per_epoch = null;
  partition = null;
  batch_size = nat 2;
  num_workers = nat 2;
  native_num_workers = nat 1;
  drop_last = bool false;
  pin_memory = bool false;
  persistent_workers = str "auto";
  timeout = finite (pos 0);
  context = named "inherit";
  prefetch = str "auto";
  verbose = bool false;
}

abbrev resolved : ResolvedWorkers
resolved = record {
  counts = record { processes = 2; native_threads = 1 };
  persistent = true;
  prefetch = some 2;
  context = some (named "inherit");
}

resolve_workers-Consistent_example : Consistent resolved
unfolding resolve_workers dataset_rt.Resources.resolve_worker_counts
resolve_workers-Consistent_example = resolve_workers-Consistent options 1 8 unset resolved refl
