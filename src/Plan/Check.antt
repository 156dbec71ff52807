-- ===== src/Plan/Check.antt =====
-- The independent check of a loader's plans: `local_samples` and `validate_plans` of
-- dataset_rt/benchmarks/distributed.py.
use dataset_rt.Prelude.{
  ℕ, ◌+◌, ◌-◌, ◌*◌, ◌/◌, ◌%◌, min, max, Bool, not, ◌||◌, List, [], ◌∷◌, map, ltb, ◌==◌,
  if◌then◌else◌, sum,
}
use dataset_rt.Python.{Result, ok, err, value_error, ◌>>=◌}
use dataset_rt.Partition.{RowSpan}
use dataset_rt.Plan.{Partitioning, split, replicate, WorkerPlan}

unfoldable pub local_samples : ℕ → ℕ → ℕ → Bool → ℕ
local_samples samples ranks batch_size drop_last =
    if drop_last then samples / (ranks * batch_size) * batch_size else (samples + ranks - 1) / ranks

-- `tuple(plan for plan in partitions if plan.sample_count)`
unfoldable pub active_plans : List WorkerPlan → List WorkerPlan
active_plans [] = []
active_plans (plan ∷ plans) =
    let rest = active_plans plans in if plan.sample_count == 0 then rest else plan ∷ rest

abbrev pub sample_total : List WorkerPlan → ℕ
sample_total plans = sum (map (λ plan. plan.sample_count) plans)

-- `any(plan.offset != 0 or plan.population_size != population for plan in active)`
unfoldable pub replica_incomplete : ℕ → List WorkerPlan → Bool
replica_incomplete population [] = Bool.false
replica_incomplete population (plan ∷ plans) =
    (not (plan.offset == 0) || not (plan.population_size == population))
    || replica_incomplete population plans

-- The loop over the active plans: the offset behind the last one.
unfoldable pub follow_spans : ℕ → List WorkerPlan → Result ℕ
follow_spans offset [] = ok offset
follow_spans offset (plan ∷ plans) =
    let rest = follow_spans (offset + plan.population_size) plans in
    if not (plan.offset == offset) || plan.population_size == 0
    then err (value_error "split worker spans overlap or omit positions")
    else rest

unfoldable pub expected_span : ℕ → ℕ → ℕ → ℕ → ℕ → RowSpan
expected_span population requested quota rank world_size =
    if requested == population
    then record { offset = rank * quota; length = quota }
    else let virtual = max population world_size in
      let size = virtual / world_size in
      let remainder = virtual % world_size in
      record {
        offset = rank * size + min rank remainder;
        length = size + (if ltb rank remainder then 1 else 0);
      }

unfoldable pub validate_spans : RowSpan → List WorkerPlan → Result (Unit {0})
unfolding follow_spans
validate_spans expected active = do
  end ← follow_spans expected.offset active
  (if end == expected.offset + expected.length
      then ok tt
      else err (value_error "split rank span has incorrect coverage"))

unfoldable pub validate_active : Partitioning → ℕ → RowSpan → List WorkerPlan → Result (Unit {0})
unfolding replica_incomplete validate_spans
validate_active replicate population expected active =
    if replica_incomplete population active
    then err (value_error "replicated worker population is incomplete")
    else ok tt
validate_active split population expected active = validate_spans expected active

-- Of the configuration the check reads the partitioning, the batch size and `drop_last`, and of the
-- topology the rank and the world size.
unfoldable pub validate_plans :
    List WorkerPlan
    → (population requested : ℕ) → Partitioning
    → (batch_size : ℕ) → Bool
    → (rank world_size : ℕ) → Result (Unit {0})
unfolding local_samples active_plans expected_span validate_active
validate_plans plans population requested partitioning batch_size drop_last rank world_size =
    let quota = local_samples requested world_size batch_size drop_last in
    let active = active_plans plans in
    if not (sample_total active == quota)
    then err (value_error "worker plans multiply or lose the local budget")
    else if quota == 0
    then ok tt
    else validate_active partitioning population
        (expected_span population requested quota rank world_size) active
