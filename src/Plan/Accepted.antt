-- ===== src/Plan/Accepted.antt =====
-- `prepare_partitions` always succeeds on validated arguments, and its plans always pass the
-- independent check `validate_plans`.
use dataset_rt.Prelude.{
  ℕ, ◌*◌, ◌^◌, ◌≤◌, ◌<◌, max, ◌≡◌, ◌⊎◌, inl, inr, refl, sym, ◌∙◌, List, [], ◌∷◌, ◌++◌, All, arith,
  ◌==◌, ==_iff, length, sum, sum-append, sum-replicate_zero, Bool-cases, replicate, length-append,
  length-replicate,
}
use dataset_rt.Python.{ok}
use dataset_rt.Partition.{RowSpan, u64_max, span}
use dataset_rt.Partition.Spans.{partition_rows-eq-span}
use dataset_rt.Partition.Coverage.{span_within}
use dataset_rt.Budget.{rank_budget}
use dataset_rt.Budget.Shares.{sum-shares_all}
use dataset_rt.Plan.{
  Partitioning, split, replicate as replicated, WorkerPlan, Planning, PlanRequest, split_population,
  rank_rows, population_count, count_positive, prepare_partitions,
}
use dataset_rt.Plan.Loop.{IsPlanning, PlansAt, plans_from_total}
use dataset_rt.Plan.Coverage.{
  sample_total-active, replica_complete, follow_spans-eq, total_size, HasRows, total_size-full,
  HasRows-full, total_size-short, HasRows-short,
}
use dataset_rt.Plan.Check.{
  active_plans, sample_total, expected_span, validate_spans, validate_active, validate_plans,
}
use dataset_rt.Plan.Request.{
  IsRequest, GivenBudgets, given_budgets, count_positive-given, Front-given, expected_span-eq,
  local_bound, split_population-le, some_rows,
}

module _ (r : PlanRequest) where
  abbrev pub count : ℕ
  count = (rank_budget r.samples_per_epoch r.replica r.batch_size r.drop_last).0

  abbrev pub workers : ℕ
  workers = max 1 r.num_workers

  abbrev pub planning : RowSpan → List ℕ → Planning
  planning rank_span budgets = record {
    replica = r.replica;
    partitioning = r.worker_partition;
    shuffle = r.shuffle;
    seed = r.seed;
    drawn = r.drawn;
    row_count = r.config.row_count;
    rank_span = rank_span;
    active = count_positive budgets;
    full_pass = sum budgets == rank_span.length;
  }

module _ (r : PlanRequest) (v : IsRequest r) (drawn : (k : ℕ) → r.drawn k ≤ u64_max) where
  count-le : count r * r.replica.world_size ≤ 2 ^ 54
  count-le = omega (
    arith,
    v.member,
    v.samples_fit,
    v.group_fits,
    local_bound r.samples_per_epoch r.batch_size r.replica r.drop_last (omega (arith, v.member))
        v.some_batch,
  )

  count_alone-le : count r ≤ 2 ^ 54
  count_alone-le = grind (arith, count-le, v.member)

  -- From the rank's rows and the budgets to the plans.
  prepared :
      (rank_span : RowSpan)
      → rank_rows r.worker_partition r.config.row_count r.samples_per_epoch (count r) r.replica
        ≡ ok rank_span
      → rank_span.length ≤ u64_max
      → (g : GivenBudgets
          (count r)
          (workers r)
          (population_count r.worker_partition (workers r) rank_span)
          r.batch_size)
      → let budgets = g.given ++ replicate g.idle 0 in
        (plans : List WorkerPlan) × (prepare_partitions r ≡ ok plans)
        × PlansAt (planning r rank_span budgets) 0 rank_span.offset budgets plans
  unfolding prepare_partitions
  prepared rank_span rows fits g =
      let budgets = g.given ++ replicate g.idle 0 in
      let size = count_positive-given g.given g.idle g.positive in
      let planned : IsPlanning (planning r rank_span budgets) = record {
        rank_fits = omega (arith, v.member, v.group_fits);
        seed_fits = v.seed_fits;
        drawn_fits = drawn;
        rows_fit = fits;
        active_fits = omega (arith, size, g.everyone, v.workers_fit);
      } in
      let (plans, run, at) =
        plans_from_total (planning r rank_span budgets) 0 rank_span.offset budgets planned
          (Front-given (count_positive budgets) 0 g.idle g.given (omega (arith, size)))
          (omega (
            arith,
            length-append g.given (replicate g.idle 0),
            length-replicate {A = ℕ} g.idle 0,
            g.everyone,
            v.workers_fit,
          )) in
      (plans, rw (rows, g.returned) run, at)

  abbrev Checked : List WorkerPlan → Type 0
  Checked plans =
      validate_plans plans r.config.row_count r.samples_per_epoch r.worker_partition r.batch_size
        r.drop_last r.replica.rank r.replica.world_size
      ≡ ok tt

  abbrev expected : RowSpan
  expected =
      expected_span r.config.row_count r.samples_per_epoch (count r) r.replica.rank
        r.replica.world_size

  sum-given : (given : List ℕ) (idle : ℕ) → sum (given ++ replicate idle 0) ≡ sum given
  sum-given given idle = omega (arith, sum-append given (replicate idle 0), sum-replicate_zero idle)

  -- The samples add up, so what is left is the check of the spans.
  check_rest :
      (plans : List WorkerPlan)
      → sample_total (active_plans plans) ≡ count r
      → (count r ≡ 0)
        ⊎ (validate_active r.worker_partition r.config.row_count expected (active_plans plans)
            ≡ ok tt)
      → Checked plans
  unfolding validate_plans rank_budget
  check_rest plans total (inl none) = ground arith
  check_rest plans total (inr spans) = ground (arith, spans)

  module _ (rank_span : RowSpan) (given : List ℕ) (idle : ℕ)
      (mode : r.worker_partition ≡ split) where
    abbrev budgets : List ℕ
    budgets = given ++ replicate idle 0

    -- The plans of a rank that has samples cover its rows.
    total_size-eq :
        All (λ budget. 0 < budget) given
        → 0 < length given
        → length given ≤ rank_span.length
        → (total_size (planning r rank_span budgets) 0 budgets ≡ rank_span.length)
          × HasRows (planning r rank_span budgets) 0 budgets
    total_size-eq positive some_worker populated =
        elim (Bool-cases (sum budgets == rank_span.length)) [
          | inl full ↦ (
            total_size-full (planning r rank_span budgets) mode full 0 budgets
                ∙ (==_iff (sum budgets) rank_span.length).0 full,
            HasRows-full (planning r rank_span budgets) mode full 0 budgets,
          )
          | inr short ↦
              let active = count_positive-given given idle positive in
              (
                total_size-short (planning r rank_span budgets) mode short 0 idle given positive
                    ∙ rw active (sum-shares_all rank_span.length (length given) some_worker),
                HasRows-short (planning r rank_span budgets) mode short 0 idle given positive
                    (rw active some_worker) (rw active populated),
              )
        ]

    spans_accepted :
        (plans : List WorkerPlan)
        → PlansAt (planning r rank_span budgets) 0 rank_span.offset budgets plans
        → All (λ budget. 0 < budget) given
        → 0 < length given
        → length given ≤ rank_span.length
        → validate_spans rank_span (active_plans plans) ≡ ok tt
    unfolding validate_spans
    spans_accepted plans at positive some_worker populated =
        let (whole, rows) = total_size-eq positive some_worker populated in
        rw
          (
            follow_spans-eq (planning r rank_span budgets) 0 rank_span.offset budgets plans mode at
                rows,
            whole,
          )
          (ground arith)

  split_checked :
      (rank_span : RowSpan) (given : List ℕ) (idle : ℕ) (plans : List WorkerPlan)
      → r.worker_partition ≡ split
      → expected ≡ rank_span
      → PlansAt
          (planning r rank_span (given ++ replicate idle 0))
          0
          rank_span.offset
          (given ++ replicate idle 0)
          plans
      → All (λ budget. 0 < budget) given
      → sum given ≡ count r
      → length given ≤ rank_span.length
      → (count r ≡ 0)
        ⊎ (validate_active r.worker_partition r.config.row_count expected (active_plans plans)
            ≡ ok tt)
  unfolding validate_active
  split_checked rank_span [] idle plans mode same at positive total populated = inl (sym total)
  split_checked rank_span (budget ∷ given) idle plans mode same at positive total populated = inr (
      rw (mode, same)
        (spans_accepted rank_span (budget ∷ given) idle mode plans at positive (omega arith)
          populated))

  rank_span_of : RowSpan
  rank_span_of =
      span (split_population r.config.row_count r.samples_per_epoch (count r) r.replica.world_size)
        r.replica.world_size r.replica.rank

  accepted_split :
      r.worker_partition ≡ split
      → (plans : List WorkerPlan) × (prepare_partitions r ≡ ok plans) × Checked plans
  unfolding rank_rows rank_span_of population_count validate_active
  accepted_split mode =
      let w : 0 < r.replica.world_size = omega (arith, v.member) in
      let population =
        split_population r.config.row_count r.samples_per_epoch (count r) r.replica.world_size in
      let population-le =
        split_population-le r.config.row_count r.samples_per_epoch (count r) r.replica.world_size
          v.some_row v.rows_fit v.group_fits (omega (arith, count-le)) in
      let rows : rank_rows r.worker_partition r.config.row_count r.samples_per_epoch (count r)
            r.replica
          ≡ ok rank_span_of =
        rw mode (
          partition_rows-eq-span population r.replica.world_size r.replica.rank population-le
            (omega (arith, v.group_fits)) v.member) in
      let fits : rank_span_of.length ≤ u64_max = omega (
        arith,
        population-le,
        span_within population r.replica.world_size r.replica.rank v.member,
      ) in
      let same : population_count r.worker_partition (workers r) rank_span_of
          ≡ rank_span_of.length =
        rw mode in
      let has_rows =
        some_rows r.config.row_count r.samples_per_epoch (count r) r.replica.world_size
          r.replica.rank v.some_row w in
      let g =
        given_budgets (count r) (workers r)
          (population_count r.worker_partition (workers r) rank_span_of) r.batch_size
          (omega (arith, count_alone-le)) (omega arith) (rw same has_rows) v.some_batch in
      let (plans, run, at) = prepared rank_span_of rows fits g in
      let budgets = g.given ++ replicate g.idle 0 in
      let total =
        sample_total-active (planning r rank_span_of budgets) 0 rank_span_of.offset budgets plans at
        ∙ sum-given g.given g.idle
        ∙ g.total in
      (
        plans,
        run,
        check_rest plans total (
            split_checked rank_span_of g.given g.idle plans mode
              (expected_span-eq r.config.row_count r.samples_per_epoch (count r) r.replica.rank
                r.replica.world_size v.some_row w)
              at g.positive g.total (rw same at g.populated)),
      )

  replicate_checked :
      (rank_span : RowSpan) (budgets : List ℕ) (plans : List WorkerPlan)
      → r.worker_partition ≡ replicated
      → PlansAt (planning r rank_span budgets) 0 rank_span.offset budgets plans
      → validate_active r.worker_partition r.config.row_count expected (active_plans plans) ≡ ok tt
  unfolding validate_active
  replicate_checked rank_span budgets plans mode at =
      let complete =
        replica_complete (planning r rank_span budgets) 0 rank_span.offset budgets plans mode at in
      rw (mode, complete)

  accepted_replicate :
      r.worker_partition ≡ replicated
      → (plans : List WorkerPlan) × (prepare_partitions r ≡ ok plans) × Checked plans
  unfolding rank_rows population_count validate_active
  accepted_replicate mode =
      let rank_span : RowSpan = record { offset = 0; length = r.config.row_count } in
      let rows : rank_rows r.worker_partition r.config.row_count r.samples_per_epoch (count r)
            r.replica
          ≡ ok rank_span =
        rw mode in
      let same : population_count r.worker_partition (workers r) rank_span ≡ workers r = rw mode in
      let g =
        given_budgets (count r) (workers r)
          (population_count r.worker_partition (workers r) rank_span) r.batch_size
          (omega (arith, count_alone-le)) (omega arith) (inr (rw same (omega arith)))
          v.some_batch in
      let (plans, run, at) = prepared rank_span rows v.rows_fit g in
      let budgets = g.given ++ replicate g.idle 0 in
      let total =
        sample_total-active (planning r rank_span budgets) 0 0 budgets plans at
        ∙ sum-given g.given g.idle
        ∙ g.total in
      (plans, run, check_rest plans total (inr (replicate_checked rank_span budgets plans mode at)))

Partitioning-cases : (m : Partitioning) → (m ≡ split) ⊎ (m ≡ replicated)
Partitioning-cases split = inl refl
Partitioning-cases replicated = inr refl

-- On arguments within the loader's bounds, and with 64-bit random draws, `prepare_partitions`
-- returns plans, in either partitioning mode, and the independent check of the plans accepts them:
-- their samples add up to the rank's budget, and their populations are the whole one in replicate
-- mode, and in split mode consecutive, none empty and together exactly the rank's rows.
pub prepare_partitions_accepted :
    (r : PlanRequest)
    → IsRequest r
    → ((k : ℕ) → r.drawn k ≤ u64_max)
    → (plans : List WorkerPlan) × (prepare_partitions r ≡ ok plans)
      × (validate_plans plans r.config.row_count r.samples_per_epoch r.worker_partition r.batch_size
            r.drop_last r.replica.rank r.replica.world_size
          ≡ ok tt)
prepare_partitions_accepted r v drawn = elim (Partitioning-cases r.worker_partition) [
  | inl mode ↦ accepted_split r v drawn mode
  | inr mode ↦ accepted_replicate r v drawn mode
]
