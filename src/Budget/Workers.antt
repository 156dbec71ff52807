-- ===== src/Budget/Workers.antt =====
-- What `worker_budgets` promises: the whole budget, no batch split between workers but the last,
-- and nothing for a worker without a population.
use native.Mathlib.Nat.{div-add-mod', le-div_iff_mul-le, div-eq_of_lt}
use dataset_rt.Prelude.{
  ℕ, zero, suc, ◌+◌, ◌-◌, ◌*◌, ◌/◌, ◌%◌, ◌≤◌, ◌<◌, max, ◌≡◌, ap, ◌∙◌, List, [], ◌∷◌, ◌++◌, map,
  arith, replicate, sum, sum-append, sum-replicate_zero, length, length-append, length-replicate,
  All, leb, leb→le, Bool-cases, inl, inr,
}
use dataset_rt.Python.{ok}
use dataset_rt.Partition.{u64_max, span}
use dataset_rt.Budget.{worker_budgets}
use dataset_rt.Budget.Spread.{shares, spread, active_of, worker_budgets-eq-spread}
use dataset_rt.Budget.Shares.{
  length-shares, sum-shares_all, sum-spread, length-spread, full_batches, all_batches,
  full_batches-mul-add, all_batches-mul-add, sum-map-budgets,
}

-- The budgets of the workers that have one.
pub positives : ℕ → ℕ → ℕ → List ℕ
positives samples batch_size active =
    spread batch_size (samples % batch_size) (shares (samples / batch_size) active 0 active)

pub length-positives :
    (samples batch_size active : ℕ) → length (positives samples batch_size active) ≡ active
unfolding positives
length-positives samples batch_size active =
    length-spread batch_size (samples % batch_size) _
    ∙ length-shares (samples / batch_size) active active

pub sum-positives :
    (samples batch_size active : ℕ)
    → 0 < active
    → sum (positives samples batch_size active) ≡ samples
unfolding positives
sum-positives samples batch_size zero h = elim h [ ]
sum-positives samples batch_size (suc n) h = omega (
  arith,
  sum-spread batch_size (samples % batch_size) (span (samples / batch_size) (suc n) 0).length
      (shares (samples / batch_size) (suc n) 1 n),
  ap (λ (t : ℕ). t * batch_size) (sum-shares_all (samples / batch_size) (suc n) h),
  div-add-mod' samples batch_size,
)

all_batches-zero : (batch_size : ℕ) → 0 < batch_size → all_batches batch_size 0 ≡ 0
all_batches-zero batch_size h = div-eq_of_lt (omega arith)

-- Every share is positive when there are batches enough.
All-shares :
    (batches active i n : ℕ)
    → 0 < active
    → active ≤ batches
    → All (λ k. 0 < k) (shares batches active i n)
unfolding span
All-shares batches active i zero pos enough = tt
All-shares batches active i (suc n) pos enough =
    let some_batch : 1 ≤ batches / active = (le-div_iff_mul-le pos).1 (omega arith) in
    (omega (arith, some_batch), All-shares batches active (suc i) n pos enough)

All-spread :
    (batch_size tail : ℕ) (ks : List ℕ)
    → 0 < batch_size
    → All (λ k. 0 < k) ks
    → All (λ b. 0 < b) (spread batch_size tail ks)
All-spread batch_size tail [] b all = tt
All-spread batch_size tail (k ∷ []) b all = (grind (arith, all.0), tt)
All-spread batch_size tail (k ∷ k' ∷ ks) b all =
    (grind (arith, all.0), All-spread batch_size tail (k' ∷ ks) b all.1)

-- One worker without a whole batch still has the tail.
pub All-positives :
    (samples batch_size active : ℕ)
    → 0 < samples
    → 0 < batch_size
    → 0 < active
    → active ≤ max 1 (samples / batch_size)
    → All (λ b. 0 < b) (positives samples batch_size active)
unfolding positives
All-positives samples batch_size active s b pos enough =
    elim (Bool-cases (leb active (samples / batch_size))) [
      | inl whole ↦
          All-spread batch_size (samples % batch_size) _ b
            (All-shares (samples / batch_size) active 0 active pos (leb→le _ _ whole))
      | inr none_whole ↦
          let e : active ≡ 1 = ground arith in
          rw e (omega (arith, sum-positives samples batch_size 1 (omega arith)), tt)
    ]

-- The budgets of the active workers, then a zero for each idle one.
pub worker_budgets_shape :
    (samples workers populations batch_size : ℕ)
    → 0 < samples
    → samples ≤ u64_max
    → 0 < workers
    → 0 < populations
    → 0 < batch_size
    → let active = active_of samples workers populations batch_size in
      worker_budgets samples workers populations batch_size
      ≡ ok (positives samples batch_size active ++ replicate (workers - active) 0)
unfolding positives
worker_budgets_shape = worker_budgets-eq-spread

-- For a positive budget within 64 bits, and positive workers, populations and batch size,
-- `worker_budgets` returns one budget for each worker, and the budgets add up to the samples.
pub worker_budgets_total :
    (samples workers populations batch_size : ℕ)
    → 0 < samples
    → samples ≤ u64_max
    → 0 < workers
    → 0 < populations
    → 0 < batch_size
    → (budgets : List ℕ) × (worker_budgets samples workers populations batch_size ≡ ok budgets)
      × (length budgets ≡ workers)
      × (sum budgets ≡ samples)
worker_budgets_total samples workers populations batch_size s u w p b =
    let active = active_of samples workers populations batch_size in
    let given = positives samples batch_size active in
    let idle : List ℕ = replicate (workers - active) 0 in
    (
      given ++ idle,
      worker_budgets_shape samples workers populations batch_size s u w p b,
      omega (
        arith,
        length-append given idle,
        length-positives samples batch_size active,
        length-replicate {A = ℕ} (workers - active) 0,
      ),
      omega (
        arith,
        sum-append given idle,
        sum-positives samples batch_size active (omega arith),
        sum-replicate_zero (workers - active),
      ),
    )

-- Under the same conditions the batches that Torch makes of the budgets, worker by worker, are as
-- many as those of the undivided samples, whether incomplete batches are kept or dropped.
pub worker_budgets_batches :
    (samples workers populations batch_size : ℕ)
    → 0 < samples
    → samples ≤ u64_max
    → 0 < workers
    → 0 < populations
    → 0 < batch_size
    → (budgets : List ℕ) × (worker_budgets samples workers populations batch_size ≡ ok budgets)
      × (sum (map (all_batches batch_size) budgets) ≡ all_batches batch_size samples)
      × (sum (map (full_batches batch_size) budgets) ≡ full_batches batch_size samples)
unfolding positives
worker_budgets_batches samples workers populations batch_size s u w p b =
    let active = active_of samples workers populations batch_size in
    (
      positives samples batch_size active ++ replicate (workers - active) 0,
      worker_budgets_shape samples workers populations batch_size s u w p b,
      sum-map-budgets (all_batches batch_size) batch_size
          (λ k t. all_batches-mul-add batch_size k t b) (all_batches-zero batch_size b) samples
          active (workers - active) (omega arith) b,
      sum-map-budgets (full_batches batch_size) batch_size
          (λ k t. full_batches-mul-add batch_size k t b) (omega arith) samples active
          (workers - active) (omega arith) b,
    )

-- Under the same conditions the workers with a positive budget come first, are no more than the
-- populations, and every worker after them has none.
pub worker_budgets_active :
    (samples workers populations batch_size : ℕ)
    → 0 < samples
    → samples ≤ u64_max
    → 0 < workers
    → 0 < populations
    → 0 < batch_size
    → (given : List ℕ) × (idle : ℕ) × (worker_budgets samples workers populations batch_size
        ≡ ok (given ++ replicate idle 0))
      × All (λ budget. 0 < budget) given
      × (0 < length given)
      × (length given ≤ populations)
      × (length given + idle ≡ workers)
worker_budgets_active samples workers populations batch_size s u w p b =
    let active = active_of samples workers populations batch_size in
    let count = length-positives samples batch_size active in
    (
      positives samples batch_size active,
      workers - active,
      worker_budgets_shape samples workers populations batch_size s u w p b,
      All-positives samples batch_size active s b (omega arith) (omega arith),
      omega (arith, count),
      omega (arith, count),
      omega (arith, count),
    )
