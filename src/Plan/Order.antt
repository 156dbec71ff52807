-- ===== src/Plan/Order.antt =====
-- `check_order` of dataset_rt/benchmarks/distributed.py: rows of sequential readers, as they arrive
-- in batches, against the plans of their workers.
pub mod Sequential
use dataset_rt.Prelude.{
  ℕ, zero, suc, ◌+◌, ◌%◌, ◌==◌, ◌||◌, not, Bool, Option, none, some, List, [], ◌∷◌, get_elem?,
}
use dataset_rt.Python.{
  Result, ok, err, index_error, value_error, zero_division, ◌>>=◌, ◌>>◌, raise_if,
}
use dataset_rt.Plan.{WorkerPlan}

-- The fields of `Identity` that the check reads.
pub record Identity : Type 0 where
  pub position : ℕ
  pub worker : ℕ

-- `items[index]`
unfoldable pub item : {A : Type 0} → List A → ℕ → Result A
item {A} items index = elim (get_elem? items index) as (λ o. Result A) [
  | none ↦ err (index_error "index out of range")
  | some value ↦ ok value
]

-- `counters[index] += 1`
unfoldable pub count_up : ℕ → List ℕ → List ℕ
count_up index [] = []
count_up zero (counter ∷ counters) = suc counter ∷ counters
count_up (suc index) (counter ∷ counters) = counter ∷ count_up index counters

unfoldable pub check_identity : List WorkerPlan → ℕ → Identity → List ℕ → Result (List ℕ)
unfolding item count_up
check_identity partitions population identity counters = do
  plan ← item partitions identity.worker
  seen ← item counters identity.worker
  raise_if (plan.population_size == 0 || population == 0) zero_division
  raise_if (not (identity.position == (plan.offset + seen % plan.population_size) % population))
      (value_error "sequential fixture position differs from worker plan")
  ok (count_up identity.worker counters)

-- The loop over a batch, with the counters that it leaves.
unfoldable pub check_order : List WorkerPlan → ℕ → List Identity → List ℕ → Result (List ℕ)
unfolding check_identity
check_order partitions population [] counters = ok counters
check_order partitions population (identity ∷ batch) counters = do
  later ← check_identity partitions population identity counters
  check_order partitions population batch later
