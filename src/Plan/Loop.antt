-- ===== src/Plan/Loop.antt =====
-- The loop of `prepare_partitions` as a plain function of the budgets, where its calls succeed.
use dataset_rt.Prelude.{
  ℕ, suc, ◌+◌, ◌^◌, ◌≤◌, ◌<◌, ◌≡◌, ◌⊎◌, inl, inr, refl, Bool, true, false, Option, none, some, List,
  [], ◌∷◌, arith, ◌==◌, if◌then◌else◌, length,
}
use dataset_rt.Python.{nat, ok}
use dataset_rt.Partition.{u64_max, span}
use dataset_rt.Partition.Spans.{partition_rows-eq-span}
use dataset_rt.Seed.{reader_seed}
use dataset_rt.Seed.Derivation.{derive_seed_total}
use dataset_rt.Plan.{
  Partitioning, split, replicate as replicated, WorkerPlan, Planning, seed_fits, worker_plan,
  assigned_population, population_size, plan_offset, plan_partition_seed, optional_seed, draft_plan,
  plans_from,
}

abbrev pub SeedFits : Option ℕ → Type 0
SeedFits none = Unit
SeedFits (some seed) = seed ≤ u64_max

-- What the loop relies on: identities and seeds within their types.
pub record IsPlanning (p : Planning) : Type 0 where
  pub rank_fits : p.replica.rank < 2 ^ 32
  pub seed_fits : SeedFits p.seed
  pub drawn_fits : (k : ℕ) → p.drawn k ≤ u64_max
  pub rows_fit : p.rank_span.length ≤ u64_max
  pub active_fits : p.active ≤ u64_max

-- The seed of a worker.
seed_exists :
    (shuffle : Bool) (seed : Option ℕ) (drawn rank worker : ℕ)
    → SeedFits seed
    → drawn ≤ u64_max
    → rank < 2 ^ 32
    → worker < 2 ^ 32
    → (s : ℕ) × (reader_seed shuffle (optional_seed seed) drawn (nat rank) (nat worker) ≡ ok s)
      × (s < 2 ^ 64)
unfolding reader_seed optional_seed
seed_exists false none drawn rank worker f d r w = (0, refl, omega arith)
seed_exists false (some s) drawn rank worker f d r w = (0, refl, omega arith)
seed_exists true none drawn rank worker f d r w = derive_seed_total drawn rank worker d r w
seed_exists true (some s) drawn rank worker f d r w = derive_seed_total s rank worker f r w

-- The size of a worker's population.
unfoldable pub assigned_at : Partitioning → Planning → ℕ → ℕ → ℕ
assigned_at replicated p worker budget = p.row_count
assigned_at split p worker budget =
    if p.full_pass then budget else (span p.rank_span.length p.active worker).length

unfoldable pub size_at : Planning → ℕ → ℕ → ℕ
unfolding assigned_at
size_at p worker budget = if budget == 0 then 0 else assigned_at p.partitioning p worker budget

assigned_population-eq :
    (partitioning : Partitioning) (p : Planning) (worker budget : ℕ)
    → IsPlanning p
    → worker < p.active
    → assigned_population partitioning p worker budget
      ≡ ok (assigned_at partitioning p worker budget)
unfolding assigned_population assigned_at
assigned_population-eq replicated p worker budget v h = refl
assigned_population-eq split p worker budget v h =
    ground
      (arith, partition_rows-eq-span p.rank_span.length p.active worker v.rows_fit v.active_fits h)

pub population_size-eq :
    (p : Planning) (worker budget : ℕ)
    → IsPlanning p
    → (budget ≡ 0) ⊎ (worker < p.active)
    → population_size p worker budget ≡ ok (size_at p worker budget)
unfolding population_size size_at
population_size-eq p worker budget v (inl none_given) = rw none_given
population_size-eq p worker budget v (inr active) =
    ground (arith, assigned_population-eq p.partitioning p worker budget v active)

-- A plan of the loop: only its seed is not written out.
pub record PlanAt (p : Planning) (worker offset budget : ℕ) (plan : WorkerPlan) : Type 0 where
  pub same_rank : plan.rank ≡ p.replica.rank
  pub same_worker : plan.worker_id ≡ worker
  pub same_offset : plan.offset ≡ plan_offset p.partitioning offset
  pub same_size : plan.population_size ≡ size_at p worker budget
  pub same_count : plan.sample_count ≡ budget
  pub seeded :
      reader_seed p.shuffle
        (optional_seed p.seed)
        (p.drawn worker)
        (nat p.replica.rank)
        (nat worker)
      ≡ ok plan.seed

-- The plans of the loop, one for each budget, each behind the rows of those before it.
abbrev pub PlansAt : Planning → ℕ → ℕ → List ℕ → List WorkerPlan → Type 0
PlansAt p worker offset [] [] = Unit
PlansAt p worker offset [] (plan ∷ plans) = ⊥
PlansAt p worker offset (budget ∷ budgets) [] = ⊥
PlansAt p worker offset (budget ∷ budgets) (plan ∷ plans) =
    PlanAt p worker offset budget plan
    × PlansAt p (suc worker) (offset + size_at p worker budget) budgets plans

-- Only the first `active` workers have a budget.
abbrev pub Front : ℕ → ℕ → List ℕ → Type 0
Front active worker [] = Unit
Front active worker (budget ∷ budgets) =
    ((budget ≡ 0) ⊎ (worker < active)) × Front active (suc worker) budgets

partition_seed_fits :
    (partitioning : Partitioning) (shuffle : Bool) (seed : Option ℕ)
    → SeedFits seed
    → SeedFits (plan_partition_seed partitioning shuffle seed)
unfolding plan_partition_seed
partition_seed_fits split true seed f = f
partition_seed_fits split false seed f = tt
partition_seed_fits replicated shuffle seed f = tt

seed_fits_lem : (seed : Option ℕ) → SeedFits seed → seed_fits seed ≡ true
unfolding seed_fits
seed_fits_lem none f = refl
seed_fits_lem (some seed) f = ground arith

worker_plan-eq :
    (plan : WorkerPlan)
    → plan.rank < 2 ^ 32
    → plan.worker_id < 2 ^ 32
    → plan.seed < 2 ^ 64
    → SeedFits plan.partition_seed
    → worker_plan plan ≡ ok plan
unfolding worker_plan
worker_plan-eq plan r w s f = ground (arith, seed_fits_lem plan.partition_seed f)

-- The loop succeeds on any budgets whose positive ones come first.
pub plans_from_total :
    (p : Planning) (worker offset : ℕ) (budgets : List ℕ)
    → IsPlanning p
    → Front p.active worker budgets
    → worker + length budgets ≤ 2 ^ 32
    → (plans : List WorkerPlan) × (plans_from p worker offset budgets ≡ ok plans)
      × PlansAt p worker offset budgets plans
unfolding plans_from
plans_from_total p worker offset [] v front fits = ([], refl, tt)
plans_from_total p worker offset (budget ∷ budgets) v front fits =
    let (seed, seed-eq, seed-lt) =
      seed_exists p.shuffle p.seed (p.drawn worker) p.replica.rank worker v.seed_fits
        (v.drawn_fits worker) v.rank_fits (omega arith) in
    let size = size_at p worker budget in
    let (plans, rest-eq, rest) =
      plans_from_total p (suc worker) (offset + size) budgets v front.1 (omega arith) in
    let plan = draft_plan p worker offset size budget seed in
    let valid =
      worker_plan-eq plan v.rank_fits (omega arith) seed-lt
        (partition_seed_fits p.partitioning p.shuffle p.seed v.seed_fits) in
    (
      plan ∷ plans,
      rw (population_size-eq p worker budget v front.0, seed-eq, valid, rest-eq),
      (
        record {
          same_rank = refl;
          same_worker = refl;
          same_offset = refl;
          same_size = refl;
          same_count = refl;
          seeded = seed-eq;
        },
        rest,
      ),
    )
