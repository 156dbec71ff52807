-- ===== src/Plan/Request.antt =====
-- The parts of `prepare_partitions` before its loop, on validated arguments: the budgets, and the
-- rank's rows as `validate_plans` of dataset_rt/benchmarks/distributed.py computes them.
use native.Mathlib.Nat.{mul-div_cancel, mul-mod_left, div-eq_of_lt-le, le-div_iff_mul-le}
use dataset_rt.Prelude.{
  ℕ, zero, suc, ◌+◌, ◌-◌, ◌*◌, ◌/◌, ◌^◌, ◌≤◌, ◌<◌, max, ◌≡◌, ◌⊎◌, inl, inr, refl, ap, sym, ◌∙◌,
  Bool, true, false, List, [], ◌∷◌, ◌++◌, arith, ltb, ltb→lt, ◌==◌, length, sum, Bool-cases,
  replicate, All,
}
use dataset_rt.Python.{ok}
use dataset_rt.Partition.{ReplicaIdentity, u64_max, span}
use dataset_rt.Budget.{rank_budget, worker_budgets}
use dataset_rt.Budget.Ranks.{rank_budget_pads, rank_budget_discards}
use dataset_rt.Budget.Spread.{active_of}
use dataset_rt.Budget.Workers.{
  positives, length-positives, sum-positives, All-positives, worker_budgets_shape,
}
use dataset_rt.Plan.{PlanRequest, split_population, count_positive}
use dataset_rt.Plan.Loop.{SeedFits, Front}
use dataset_rt.Plan.Check.{expected_span}

-- The budgets: those of the active workers, then zeros.
pub record GivenBudgets (count workers populations batch_size : ℕ) : Type 0 where
  pub given : List ℕ
  pub idle : ℕ
  pub returned :
      worker_budgets count workers populations batch_size ≡ ok (given ++ replicate idle 0)
  pub positive : All (λ budget. 0 < budget) given
  pub total : sum given ≡ count
  pub everyone : length given + idle ≡ workers
  pub populated : length given ≤ populations

worker_budgets_none :
    (workers populations batch_size : ℕ)
    → worker_budgets 0 workers populations batch_size ≡ ok (replicate workers 0)
unfolding worker_budgets
worker_budgets_none workers populations batch_size = refl

pub given_budgets :
    (count workers populations batch_size : ℕ)
    → count ≤ u64_max
    → 0 < workers
    → (count ≡ 0) ⊎ (0 < populations)
    → 0 < batch_size
    → GivenBudgets count workers populations batch_size
given_budgets zero workers populations batch_size u w some_rows b = record {
  given = [];
  idle = workers;
  returned = worker_budgets_none workers populations batch_size;
  positive = tt;
  total = refl;
  everyone = omega arith;
  populated = omega arith;
}
given_budgets (suc n) workers populations batch_size u w some_rows b =
    let count = suc n in
    let p : 0 < populations = omega arith in
    let active = active_of count workers populations batch_size in
    let size = length-positives count batch_size active in
    record {
      given = positives count batch_size active;
      idle = workers - active;
      returned = worker_budgets_shape count workers populations batch_size (omega arith) u w p b;
      positive = All-positives count batch_size active (omega arith) b (omega arith) (omega arith);
      total = sum-positives count batch_size active (omega arith);
      everyone = omega (arith, size);
      populated = omega (arith, size);
    }

count_positive-idle : (idle : ℕ) → count_positive (replicate idle 0) ≡ 0
count_positive-idle zero = refl
count_positive-idle (suc idle) = omega (arith, count_positive-idle idle)

pub count_positive-given :
    (given : List ℕ) (idle : ℕ)
    → All (λ budget. 0 < budget) given
    → count_positive (given ++ replicate idle 0) ≡ length given
count_positive-given [] idle all = count_positive-idle idle
count_positive-given (budget ∷ given) idle (positive, all) =
    ground (arith, count_positive-given given idle all)

Front-idle : (active worker idle : ℕ) → Front active worker (replicate idle 0)
Front-idle active worker zero = tt
Front-idle active worker (suc idle) = (inl refl, Front-idle active (suc worker) idle)

pub Front-given :
    (active worker idle : ℕ) (given : List ℕ)
    → worker + length given ≤ active
    → Front active worker (given ++ replicate idle 0)
Front-given active worker idle [] h = Front-idle active worker idle
Front-given active worker idle (budget ∷ given) h =
    (inr (omega arith), Front-given active (suc worker) idle given (omega arith))

-- The check computes the rank's span in its own way.
span_multiple :
    (count world_size rank : ℕ)
    → 0 < world_size
    → span (count * world_size) world_size rank ≡ record { offset = rank * count; length = count }
unfolding span
span_multiple count world_size rank w =
    rw (mul-div_cancel count w, mul-mod_left count world_size) (ground arith)

round_up :
    (population world_size : ℕ)
    → 0 < population
    → population < world_size
    → (population + world_size - 1) / world_size * world_size ≡ world_size
round_up population world_size p h =
    let once : (population + world_size - 1) / world_size ≡ 1 =
      div-eq_of_lt-le world_size (omega arith) (omega arith) in
    rw once (omega arith)

split_population-other :
    (population samples count world_size : ℕ)
    → (samples == population) ≡ false
    → 0 < population
    → split_population population samples count world_size ≡ max population world_size
unfolding split_population
split_population-other population samples count world_size e p =
    elim (Bool-cases (ltb population world_size)) [
      | inl few ↦
          rw (e, few)
            (round_up population world_size p (ltb→lt _ _ few) ∙ omega (arith, ltb→lt _ _ few))
      | inr enough ↦ rw (e, enough) (ground arith)
    ]

expected_span-other :
    (population samples count rank world_size : ℕ)
    → (samples == population) ≡ false
    → expected_span population samples count rank world_size
      ≡ span (max population world_size) world_size rank
unfolding expected_span span
expected_span-other population samples count rank world_size e = rw e

pub expected_span-eq :
    (population samples count rank world_size : ℕ)
    → 0 < population
    → 0 < world_size
    → expected_span population samples count rank world_size
      ≡ span (split_population population samples count world_size) world_size rank
unfolding expected_span split_population
expected_span-eq population samples count rank world_size p w =
    elim (Bool-cases (samples == population)) [
      | inl same ↦ rw same (sym (span_multiple count world_size rank w))
      | inr other ↦
          expected_span-other population samples count rank world_size other
          ∙ ap (λ (n : ℕ). span n world_size rank)
              (sym (split_population-other population samples count world_size other p))
    ]

-- The samples of one rank, and of all ranks together.
pub local_bound :
    (samples batch_size : ℕ) (replica : ReplicaIdentity) (drop_last : Bool)
    → 0 < replica.world_size
    → 0 < batch_size
    → (rank_budget samples replica batch_size drop_last).0 * replica.world_size
      < samples + replica.world_size
local_bound samples batch_size replica false w b = (rank_budget_pads samples batch_size replica w).1
local_bound samples batch_size replica true w b =
    let (_, le, _) = rank_budget_discards samples batch_size replica w b in omega (arith, le)

-- The arguments as the loader validates them: a replica, a positive batch size and population,
-- worker counts and seeds within their widths, and a sample budget that Torch can divide.
pub record IsRequest (r : PlanRequest) : Type 0 where
  pub member : r.replica.rank < r.replica.world_size
  pub group_fits : r.replica.world_size ≤ 2 ^ 32
  pub some_batch : 0 < r.batch_size
  pub workers_fit : r.num_workers < 2 ^ 32
  pub samples_fit : r.samples_per_epoch ≤ 2 ^ 53
  pub some_row : 0 < r.config.row_count
  pub rows_fit : r.config.row_count ≤ u64_max
  pub seed_fits : SeedFits r.seed

pub split_population-le :
    (population samples count world_size : ℕ)
    → 0 < population
    → population ≤ u64_max
    → world_size ≤ 2 ^ 32
    → count * world_size ≤ u64_max
    → split_population population samples count world_size ≤ u64_max
split_population-le population samples count world_size p u w c =
    elim (Bool-cases (samples == population)) [
      | inl same ↦ unfold split_population in rw same c
      | inr other ↦
          rw (split_population-other population samples count world_size other p) (omega arith)
    ]

-- A rank with samples has rows.
pub some_rows :
    (population samples count world_size rank : ℕ)
    → 0 < population
    → 0 < world_size
    → (count ≡ 0)
      ⊎ (0 < (span (split_population population samples count world_size) world_size rank).length)
some_rows population samples count world_size rank p w = elim (Bool-cases (samples == population)) [
  | inl same ↦
      unfold split_population in rw (same, span_multiple count world_size rank w) (omega arith)
  | inr other ↦
      let one_each : 1 ≤ max population world_size / world_size =
        (le-div_iff_mul-le w).1 (omega arith) in
      rw (split_population-other population samples count world_size other p)
        (unfold span in omega (arith, one_each))
]
