-- ===== src/Plan/Coverage.antt =====
-- What the independent check sees of the plans that the loop makes: their samples, and their spans.
use native.Mathlib.Nat.{le-div_iff_mul-le}
use dataset_rt.Prelude.{
  ℕ, zero, suc, ◌+◌, ◌/◌, ◌≤◌, ◌<◌, ◌≡◌, ◌⊎◌, inl, inr, refl, true, false, List, [], ◌∷◌, ◌++◌,
  arith, length, sum, replicate, All,
}
use dataset_rt.Python.{ok}
use dataset_rt.Partition.{span}
use dataset_rt.Budget.Spread.{shares}
use dataset_rt.Plan.{split, replicate as replicated, WorkerPlan, Planning, plan_offset}
use dataset_rt.Plan.Loop.{size_at, assigned_at, PlansAt}
use dataset_rt.Plan.Check.{active_plans, sample_total, replica_incomplete, follow_spans}

pub sample_total-active :
    (p : Planning) (worker offset : ℕ) (budgets : List ℕ) (plans : List WorkerPlan)
    → PlansAt p worker offset budgets plans
    → sample_total (active_plans plans) ≡ sum budgets
unfolding active_plans
sample_total-active p worker offset [] [] at = refl
sample_total-active p worker offset [] (plan ∷ plans) at = absurd at
sample_total-active p worker offset (budget ∷ budgets) [] at = absurd at
sample_total-active p worker offset (budget ∷ budgets) (plan ∷ plans) (first, rest) = ground (
  arith,
  first.same_count,
  sample_total-active p (suc worker) (offset + size_at p worker budget) budgets plans rest,
)

pub replica_complete :
    (p : Planning) (worker offset : ℕ) (budgets : List ℕ) (plans : List WorkerPlan)
    → p.partitioning ≡ replicated
    → PlansAt p worker offset budgets plans
    → replica_incomplete p.row_count (active_plans plans) ≡ false
unfolding active_plans replica_incomplete plan_offset size_at
replica_complete p worker offset [] [] mode at = refl
replica_complete p worker offset [] (plan ∷ plans) mode at = absurd at
replica_complete p worker offset (budget ∷ budgets) [] mode at = absurd at
replica_complete p worker offset (budget ∷ budgets) (plan ∷ plans) mode (first, rest) = ground (
  arith,
  mode,
  first.same_count,
  first.same_offset,
  first.same_size,
  replica_complete p (suc worker) (offset + size_at p worker budget) budgets plans mode rest,
)

-- The rows of the plans, and that no worker with a budget is left without rows.
pub total_size : Planning → ℕ → List ℕ → ℕ
total_size p worker [] = 0
total_size p worker (budget ∷ budgets) = size_at p worker budget + total_size p (suc worker) budgets

abbrev pub HasRows : Planning → ℕ → List ℕ → Type 0
HasRows p worker [] = Unit
HasRows p worker (budget ∷ budgets) =
    ((budget ≡ 0) ⊎ (0 < size_at p worker budget)) × HasRows p (suc worker) budgets

size_at-zero : (p : Planning) (worker budget : ℕ) → budget ≡ 0 → size_at p worker budget ≡ 0
unfolding size_at
size_at-zero p worker budget h = rw h

pub follow_spans-eq :
    (p : Planning) (worker offset : ℕ) (budgets : List ℕ) (plans : List WorkerPlan)
    → p.partitioning ≡ split
    → PlansAt p worker offset budgets plans
    → HasRows p worker budgets
    → follow_spans offset (active_plans plans) ≡ ok (offset + total_size p worker budgets)
unfolding active_plans follow_spans plan_offset total_size
follow_spans-eq p worker offset [] [] mode at rows = ground arith
follow_spans-eq p worker offset [] (plan ∷ plans) mode at rows = absurd at
follow_spans-eq p worker offset (budget ∷ budgets) [] mode at rows = absurd at
follow_spans-eq p worker offset (budget ∷ budgets) (plan ∷ plans) mode (first, rest) (here, later) =
    ground (
      arith,
      mode,
      first.same_count,
      first.same_offset,
      first.same_size,
      here,
      size_at-zero p worker budget,
      follow_spans-eq p (suc worker) (offset + size_at p worker budget) budgets plans mode rest
          later,
    )

-- With a full pass every worker takes as many rows as samples.
module _ (p : Planning) (mode : p.partitioning ≡ split) (full : p.full_pass ≡ true) where
  size_at-full : (worker budget : ℕ) → size_at p worker budget ≡ budget
  unfolding size_at assigned_at
  size_at-full worker budget = ground (arith, mode, full)

  pub total_size-full : (worker : ℕ) (budgets : List ℕ) → total_size p worker budgets ≡ sum budgets
  unfolding total_size
  total_size-full worker [] = refl
  total_size-full worker (budget ∷ budgets) =
      omega (arith, size_at-full worker budget, total_size-full (suc worker) budgets)

  pub HasRows-full : (worker : ℕ) (budgets : List ℕ) → HasRows p worker budgets
  HasRows-full worker [] = tt
  HasRows-full worker (budget ∷ budgets) =
      (omega (arith, size_at-full worker budget), HasRows-full (suc worker) budgets)

-- Without one the rank's rows are split over the workers with a budget.
module _ (p : Planning) (mode : p.partitioning ≡ split) (short : p.full_pass ≡ false) where
  size_at-short :
      (worker budget : ℕ)
      → 0 < budget
      → size_at p worker budget ≡ (span p.rank_span.length p.active worker).length
  unfolding size_at assigned_at
  size_at-short worker budget h = ground (arith, mode, short)

  total_size-idle : (worker idle : ℕ) → total_size p worker (replicate idle 0) ≡ 0
  unfolding total_size
  total_size-idle worker zero = refl
  total_size-idle worker (suc idle) =
      omega (arith, size_at-zero p worker 0 refl, total_size-idle (suc worker) idle)

  pub total_size-short :
      (worker idle : ℕ) (given : List ℕ)
      → All (λ budget. 0 < budget) given
      → total_size p worker (given ++ replicate idle 0)
        ≡ sum (shares p.rank_span.length p.active worker (length given))
  unfolding total_size
  total_size-short worker idle [] all = total_size-idle worker idle
  total_size-short worker idle (budget ∷ given) (positive, all) =
      omega
        (arith, size_at-short worker budget positive, total_size-short (suc worker) idle given all)

  HasRows-idle : (worker idle : ℕ) → HasRows p worker (replicate idle 0)
  HasRows-idle worker zero = tt
  HasRows-idle worker (suc idle) = (inl refl, HasRows-idle (suc worker) idle)

  pub HasRows-short :
      (worker idle : ℕ) (given : List ℕ)
      → All (λ budget. 0 < budget) given
      → 0 < p.active
      → p.active ≤ p.rank_span.length
      → HasRows p worker (given ++ replicate idle 0)
  unfolding span
  HasRows-short worker idle [] all pos enough = HasRows-idle worker idle
  HasRows-short worker idle (budget ∷ given) (positive, all) pos enough =
      let some_row : 1 ≤ p.rank_span.length / p.active = (le-div_iff_mul-le pos).1 (omega arith) in
      (
        inr (rw (size_at-short worker budget positive) (omega (arith, some_row))),
        HasRows-short (suc worker) idle given all pos enough,
      )
