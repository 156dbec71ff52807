-- ===== src/Examples/Shares.antt =====
-- Instances of the theorems on partitions, budgets, seeds, resources and selections.
use dataset_rt.Prelude.{
  some, ◌∷◌, ℕ, ◌+◌, ◌*◌, ◌%◌, ◌≤◌, ◌<◌, ◌≡◌, refl, arith, max, true, false, Option, List, [], map,
  sum, length, range, pos,
}
use dataset_rt.Python.{nat, ok}
use dataset_rt.Partition.{RowSpan, partition_rows, worker_rows, u64_max}
use dataset_rt.Partition.Spans.{Holds}
use dataset_rt.Partition.Workers.{replica, worker_rows_covers, worker_rows_disjoint}
use dataset_rt.Budget.{worker_budgets, rank_budget}
use dataset_rt.Budget.Shares.{full_batches, all_batches}
use dataset_rt.Budget.Workers.{worker_budgets_total, worker_budgets_batches}
use dataset_rt.Budget.Ranks.{rank_budget_pads, rank_budget_discards}
use dataset_rt.Seed.{derive_seed}
use dataset_rt.Seed.Derivation.{derive_seed_distinct}
use dataset_rt.Resources.{unset, resolve_worker_counts, local_rank_count}
use dataset_rt.Resources.Capacity.{automatic_counts_fit}
use dataset_rt.Selection.{population_selection, select_population}
use dataset_rt.Selection.Agreement.{rows_of, saved, selections_agree}
use dataset_rt.Examples.{second_of_two}

worker_rows_covers_example :
    (rank worker : ℕ) × (s : RowSpan) × (rank < 2)
    × (worker < max 1 3)
    × (worker_rows (nat 10) (replica rank 2) (nat 3) (nat worker) ≡ ok s)
    × Holds 6 s
worker_rows_covers_example =
    worker_rows_covers 10 2 6 (λ rank. 3) (omega arith) (omega arith) (λ rank. omega arith)
      (omega arith) (omega arith)

worker_rows_disjoint_example : (◌≡◌ {A = ℕ} 1 1) × (◌≡◌ {A = ℕ} 0 0)
unfolding worker_rows partition_rows dataset_rt.Partition.require_u64 dataset_rt.Partition.span
worker_rows_disjoint_example =
    worker_rows_disjoint 10 2 6 1 1 0 0 (λ rank. 2) (record { offset = 5; length = 3 })
      (record { offset = 5; length = 3 }) refl refl (omega arith) (omega arith)

worker_budgets_total_example :
    (budgets : List ℕ) × (worker_budgets 11 3 4 2 ≡ ok budgets)
    × (length budgets ≡ 3)
    × (sum budgets ≡ 11)
worker_budgets_total_example =
    worker_budgets_total 11 3 4 2 (omega arith) (omega arith) (omega arith) (omega arith)
      (omega arith)

worker_budgets_batches_example :
    (budgets : List ℕ) × (worker_budgets 11 3 4 2 ≡ ok budgets)
    × (sum (map (all_batches 2) budgets) ≡ all_batches 2 11)
    × (sum (map (full_batches 2) budgets) ≡ full_batches 2 11)
worker_budgets_batches_example =
    worker_budgets_batches 11 3 4 2 (omega arith) (omega arith) (omega arith) (omega arith)
      (omega arith)

rank_budget_pads_example :
    let local = (rank_budget 11 second_of_two 2 false).0 in (11 ≤ local * 2) × (local * 2 < 11 + 2)
rank_budget_pads_example = rank_budget_pads 11 2 second_of_two (omega arith)

rank_budget_discards_example :
    let local = (rank_budget 11 second_of_two 2 true).0 in
    (local % 2 ≡ 0) × (local * 2 ≤ 11) × (11 < local * 2 + 2 * 2)
rank_budget_discards_example = rank_budget_discards 11 2 second_of_two (omega arith) (omega arith)

derive_seed_distinct_example : (◌≡◌ {A = ℕ} 1 1) × (◌≡◌ {A = ℕ} 2 2)
unfolding derive_seed dataset_rt.Partition.require_u64
derive_seed_distinct_example = derive_seed_distinct 7 1 1 2 2 12589190710007713909 refl refl

automatic_counts_fit_example : 1 * (max 1 4 * 2) ≤ 12
unfolding resolve_worker_counts local_rank_count
automatic_counts_fit_example =
    automatic_counts_fit 2 12 2 unset (record { processes = 4; native_threads = 1 }) refl
      (omega arith) refl

-- A shuffle that exchanges the first two rows.
abbrev swap : ℕ → List ℕ → List ℕ
swap seed [] = []
swap seed (x ∷ []) = x ∷ []
swap seed (x ∷ y ∷ rows) = y ∷ x ∷ rows

length-swap : (seed : ℕ) (rows : List ℕ) → length (swap seed rows) ≡ length rows
length-swap seed [] = refl
length-swap seed (x ∷ []) = refl
length-swap seed (x ∷ y ∷ rows) = refl

selections_agree_example :
    (selection : Option (List ℕ)) × (population_selection
        (saved swap 5 (some 9))
        5
        (pos 3)
        (pos 4)
        (some 9)
      ≡ ok selection)
    × (select_population (λ seed count. swap seed (range count)) 5 (pos 3) (pos 4) (some 9)
        ≡ ok (rows_of 5 selection))
selections_agree_example =
    selections_agree (λ seed count. swap seed (range count)) swap 5 3 4 (some 9) (omega arith)
      (omega arith) length-swap (λ seed count. refl)
