-- ===== src/Plan.antt =====
-- Worker plans: `WorkerPlan` of dataset_rt/integrations/loading.py and `prepare_partitions` of
-- dataset_rt/integrations/loader.py.
pub mod Loop
pub mod Coverage
pub mod Request
pub mod Accepted
pub mod Identity
pub mod Check
pub mod Order
use dataset_rt.Prelude.{
  ℕ, zero, suc, ◌+◌, ◌-◌, ◌*◌, ◌/◌, ◌^◌, max, Bool, true, false, ◌||◌, Option, none, some, List, [],
  ◌∷◌, ltb, leb, ◌==◌, if◌then◌else◌, sum,
}
use dataset_rt.Python.{Value, nat, Result, ok, err, value_error, ◌>>=◌, ◌>>◌, raise_if}
use dataset_rt.Partition.{RowSpan, ReplicaIdentity, partition_rows}
use dataset_rt.Budget.{rank_budget, worker_budgets}
use dataset_rt.Seed.{reader_seed}
use dataset_rt.Config.{DatasetConfiguration}

pub data Partitioning : Type 0 where
  split replicate : Partitioning

pub record WorkerPlan : Type 0 where
  pub rank : ℕ
  pub worker_id : ℕ
  pub offset : ℕ
  pub population_size : ℕ
  pub sample_count : ℕ
  pub seed : ℕ
  pub partition_seed : Option ℕ

seed_fits : Option ℕ → Bool
seed_fits none = true
seed_fits (some seed) = ltb seed (2 ^ 64)

-- The model's validation: 32-bit identities and 64-bit seeds. The other fields are natural numbers.
unfoldable pub worker_plan : WorkerPlan → Result WorkerPlan
unfolding seed_fits
worker_plan plan =
    if leb (2 ^ 32) plan.rank || leb (2 ^ 32) plan.worker_id
    then err (value_error "rank and worker_id must be less than 4294967296")
    else if leb (2 ^ 64) plan.seed
    then err (value_error "seed must be less than 18446744073709551616")
    else if seed_fits plan.partition_seed
    then ok plan
    else err (value_error "partition_seed must be less than 18446744073709551616")

-- The arguments and local variables that the loop over the budgets reads. `drawn` is what
-- `secrets.randbits(64)` gives for each worker; the loader always passes a seed when it shuffles.
pub record Planning : Type 0 where
  pub replica : ReplicaIdentity
  pub partitioning : Partitioning
  pub shuffle : Bool
  pub seed : Option ℕ
  pub drawn : ℕ → ℕ
  pub row_count : ℕ
  pub rank_span : RowSpan
  pub active : ℕ
  pub full_pass : Bool

-- The population before it is split over the ranks.
unfoldable pub split_population : ℕ → ℕ → ℕ → ℕ → ℕ
split_population population samples_per_epoch count world_size =
    if samples_per_epoch == population
    then count * world_size
    else if ltb population world_size
    then (population + world_size - 1) / world_size * world_size
    else population

unfoldable pub rank_rows : Partitioning → ℕ → ℕ → ℕ → ReplicaIdentity → Result RowSpan
unfolding split_population
rank_rows replicate population samples_per_epoch count replica =
    ok (record { offset = 0; length = population })
rank_rows split population samples_per_epoch count replica =
    partition_rows (nat (split_population population samples_per_epoch count replica.world_size))
      (nat replica.world_size) (nat replica.rank)

unfoldable pub population_count : Partitioning → ℕ → RowSpan → ℕ
population_count replicate workers rank_span = workers
population_count split workers rank_span = rank_span.length

unfoldable pub assigned_population : Partitioning → Planning → ℕ → ℕ → Result ℕ
assigned_population replicate p worker budget = ok p.row_count
assigned_population split p worker budget = if p.full_pass then ok budget else do
  span ← partition_rows (nat p.rank_span.length) (nat p.active) (nat worker)
  ok span.length

unfoldable pub population_size : Planning → ℕ → ℕ → Result ℕ
unfolding assigned_population
population_size p worker budget =
    if budget == 0 then ok 0 else assigned_population p.partitioning p worker budget

unfoldable pub plan_offset : Partitioning → ℕ → ℕ
plan_offset replicate offset = 0
plan_offset split offset = offset

unfoldable pub plan_partition_seed : Partitioning → Bool → Option ℕ → Option ℕ
plan_partition_seed split true seed = seed
plan_partition_seed _ _ seed = none

unfoldable pub optional_seed : Option ℕ → Option Value
optional_seed none = none
optional_seed (some seed) = some (nat seed)

abbrev pub draft_plan : Planning → (worker offset size budget seed : ℕ) → WorkerPlan
draft_plan p worker offset size budget seed = record {
  rank = p.replica.rank;
  worker_id = worker;
  offset = plan_offset p.partitioning offset;
  population_size = size;
  sample_count = budget;
  seed = seed;
  partition_seed = plan_partition_seed p.partitioning p.shuffle p.seed;
}

-- The loop over the budgets, from a worker and its offset.
unfoldable pub plans_from : Planning → ℕ → ℕ → List ℕ → Result (List WorkerPlan)
unfolding population_size plan_offset plan_partition_seed optional_seed worker_plan
plans_from p worker offset [] = ok []
plans_from p worker offset (budget ∷ budgets) = do
  size ← population_size p worker budget
  seed ←
      reader_seed p.shuffle (optional_seed p.seed) (p.drawn worker) (nat p.replica.rank)
        (nat worker)
  plan ← worker_plan (draft_plan p worker offset size budget seed)
  plans ← plans_from p (suc worker) (offset + size) budgets
  ok (plan ∷ plans)

-- `sum(budget > 0 for budget in budgets)`
abbrev pub count_positive : List ℕ → ℕ
count_positive [] = 0
count_positive (budget ∷ budgets) = (if ltb 0 budget then 1 else 0) + count_positive budgets

-- The loader's keyword arguments. The warning of `rank_budget` is left to its own definition.
pub record PlanRequest : Type 0 where
  pub config : DatasetConfiguration
  pub replica : ReplicaIdentity
  pub num_workers : ℕ
  pub batch_size : ℕ
  pub samples_per_epoch : ℕ
  pub worker_partition : Partitioning
  pub shuffle : Bool
  pub seed : Option ℕ
  pub drop_last : Bool
  pub drawn : ℕ → ℕ

unfoldable pub prepare_partitions : PlanRequest → Result (List WorkerPlan)
unfolding rank_rows population_count plans_from
prepare_partitions r = do
  let count = (rank_budget r.samples_per_epoch r.replica r.batch_size r.drop_last).0
  let workers = max 1 r.num_workers
  rank_span ← rank_rows r.worker_partition r.config.row_count r.samples_per_epoch count r.replica
  let populations = population_count r.worker_partition workers rank_span
  budgets ← worker_budgets count workers populations r.batch_size
  plans_from
      (record {
        replica = r.replica;
        partitioning = r.worker_partition;
        shuffle = r.shuffle;
        seed = r.seed;
        drawn = r.drawn;
        row_count = r.config.row_count;
        rank_span = rank_span;
        active = count_positive budgets;
        full_pass = sum budgets == rank_span.length;
      })
      0 rank_span.offset budgets
