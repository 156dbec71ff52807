-- ===== src/Examples.antt =====
-- Concrete requests, from which the modules below take the theorems' instances.
pub mod Shares
pub mod Plans
pub mod Writes
pub mod Readers
pub mod Loaders
pub mod Processes
use dataset_rt.Plan.Request.{IsRequest}
use dataset_rt.Prelude.{
  ◌≡◌, refl, arith, ℕ, pos, Option, none, some, List, [], ◌∷◌, Bool, true, false,
}
use dataset_rt.Python.{ok}
use dataset_rt.Partition.{ReplicaIdentity}
use dataset_rt.Config.{DatasetConfiguration}
use dataset_rt.Plan.{WorkerPlan, PlanRequest, split, replicate, prepare_partitions}

abbrev pub second_of_two : ReplicaIdentity
second_of_two = record { rank = 1; world_size = 2 }

abbrev pub first_of_two : ReplicaIdentity
first_of_two = record { rank = 0; world_size = 2 }

abbrev pub dataset : DatasetConfiguration
dataset = record {
  cache_paths = "cache" ∷ [];
  reader_config = record {
    seed = pos 0;
    prefetch_size = 8;
    shuffle = true;
    validate_cache = false;
  };
  num_workers = 2;
  epoch_len = 10;
  row_count = 10;
}

abbrev pub request : PlanRequest
request = record {
  config = dataset;
  replica = second_of_two;
  num_workers = 2;
  batch_size = 2;
  samples_per_epoch = 10;
  worker_partition = split;
  shuffle = true;
  seed = some 7;
  drop_last = false;
  drawn = λ k. 5;
}

abbrev pub planned : List WorkerPlan
planned =
    record {
      rank = 1;
      worker_id = 0;
      offset = 5;
      population_size = 2;
      sample_count = 2;
      seed = 6356427855144527917;
      partition_seed = some 7;
    }
    ∷ record {
      rank = 1;
      worker_id = 1;
      offset = 7;
      population_size = 3;
      sample_count = 3;
      seed = 2535241347958328860;
      partition_seed = some 7;
    }
    ∷ []

abbrev pub first_plan : WorkerPlan
first_plan = record {
  rank = 1;
  worker_id = 0;
  offset = 5;
  population_size = 2;
  sample_count = 2;
  seed = 6356427855144527917;
  partition_seed = some 7;
}

pub request-planned : prepare_partitions request ≡ ok planned
unfolding prepare_partitions dataset_rt.Partition.partition_rows dataset_rt.Partition.require_u64
    dataset_rt.Budget.rank_budget dataset_rt.Budget.worker_budgets dataset_rt.Partition.span
    dataset_rt.Seed.reader_seed dataset_rt.Seed.derive_seed
request-planned = refl

pub request-IsRequest : IsRequest request
request-IsRequest = record {
  member = omega arith;
  group_fits = omega arith;
  some_batch = omega arith;
  workers_fit = omega arith;
  samples_fit = omega arith;
  some_row = omega arith;
  rows_fit = omega arith;
  seed_fits = omega arith;
}
