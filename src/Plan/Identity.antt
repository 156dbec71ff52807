-- ===== src/Plan/Identity.antt =====
-- Whose plan is whose: the identities and the seeds of the plans that `prepare_partitions` returns.
use dataset_rt.Prelude.{
  ℕ, zero, suc, ◌+◌, ◌≡◌, sym, ◌∙◌, true, some, List, [], ◌∷◌, ◌==◌, sum, max, get_elem?, arith, ap,
}
use dataset_rt.Python.{nat, ok, >>=-elim}
use dataset_rt.Budget.{rank_budget, worker_budgets}
use dataset_rt.Seed.{derive_seed, reader_seed}
use dataset_rt.Seed.Derivation.{derive_seed_distinct}
use dataset_rt.Plan.{
  WorkerPlan, Planning, PlanRequest, rank_rows, population_count, worker_plan, population_size,
  optional_seed, draft_plan, plans_from, count_positive, prepare_partitions,
}

worker_plan-eq-ok :
    (plan : WorkerPlan) {result : WorkerPlan} → worker_plan plan ≡ ok result → result ≡ plan
unfolding worker_plan
worker_plan-eq-ok plan h = ground arith

-- The plan of the worker at a position, as far as it names its consumer.
record Identified (p : Planning) (worker : ℕ) (plan : WorkerPlan) : Type 0 where
  rank_lem : plan.rank ≡ p.replica.rank
  worker_lem : plan.worker_id ≡ worker
  seed_lem :
      reader_seed p.shuffle
        (optional_seed p.seed)
        (p.drawn worker)
        (nat p.replica.rank)
        (nat worker)
      ≡ ok plan.seed

-- One round of the loop: the plan of its worker, and the plans of the rest.
plans_from-cons :
    (p : Planning) (worker offset budget : ℕ) (budgets : List ℕ) (plans : List WorkerPlan)
    → plans_from p worker offset (budget ∷ budgets) ≡ ok plans
    → (plan : WorkerPlan) × (rest : List WorkerPlan) × (size : ℕ) × (plans ≡ plan ∷ rest)
      × Identified p worker plan
      × (plans_from p (suc worker) (offset + size) budgets ≡ ok rest)
unfolding plans_from
plans_from-cons p worker offset budget budgets plans run =
    >>=-elim (population_size p worker budget) _ run λ size _ run₁.
      >>=-elim
        (reader_seed p.shuffle (optional_seed p.seed) (p.drawn worker) (nat p.replica.rank)
          (nat worker))
        _ run₁
        λ seed seed-eq run₂.
          >>=-elim (worker_plan (draft_plan p worker offset size budget seed)) _ run₂
            λ plan plan-eq run₃.
              let same = worker_plan-eq-ok (draft_plan p worker offset size budget seed) plan-eq in
              >>=-elim (plans_from p (suc worker) (offset + size) budgets) _ run₃ λ rest rest-eq e.
                (
                  plan,
                  rest,
                  size,
                  cc,
                  record {
                    rank_lem = ap (λ (x : WorkerPlan). x.rank) same;
                    worker_lem = ap (λ (x : WorkerPlan). x.worker_id) same;
                    seed_lem = seed-eq ∙ ap (λ (x : WorkerPlan). ok x.seed) (sym same);
                  },
                  rest-eq,
                )

plans_from-Identified :
    (p : Planning) (worker offset i : ℕ) (budgets : List ℕ) (plans : List WorkerPlan)
    (plan : WorkerPlan)
    → plans_from p worker offset budgets ≡ ok plans
    → get_elem? plans i ≡ some plan
    → Identified p (worker + i) plan
plans_from-Identified p worker offset i [] plans plan run found = unfold plans_from in cc
plans_from-Identified p worker offset zero (budget ∷ budgets) plans plan run found =
    let (first, rest, size, e, identified, _) =
      plans_from-cons p worker offset budget budgets plans run in
    let first-found : some first ≡ some plan = rw e at found in
    let same : plan ≡ first = cc in
    let here : worker + 0 ≡ worker = omega arith in rw (here, same) identified
plans_from-Identified p worker offset (suc i) (budget ∷ budgets) plans plan run found =
    let (first, rest, size, e, _, later) =
      plans_from-cons p worker offset budget budgets plans run in
    let shift : suc worker + i ≡ worker + suc i = omega arith in
    rw (← shift) (
      plans_from-Identified p (suc worker) (offset + size) i budgets rest plan later
        (rw e at found))

-- Every plan at position `i` of a successful result is for worker `i` of the request's rank, and
-- holds the seed that `reader_seed` gives that worker.
pub prepare_partitions_identity :
    (r : PlanRequest) (plans : List WorkerPlan) (i : ℕ) (plan : WorkerPlan)
    → prepare_partitions r ≡ ok plans
    → get_elem? plans i ≡ some plan
    → (plan.rank ≡ r.replica.rank)
      × (plan.worker_id ≡ i)
      × (reader_seed r.shuffle (optional_seed r.seed) (r.drawn i) (nat r.replica.rank) (nat i)
          ≡ ok plan.seed)
unfolding prepare_partitions
prepare_partitions_identity r plans i plan run found =
    let count = (rank_budget r.samples_per_epoch r.replica r.batch_size r.drop_last).0 in
    let workers = max 1 r.num_workers in
    >>=-elim (rank_rows r.worker_partition r.config.row_count r.samples_per_epoch count r.replica) _
      run
      λ rank_span _ run₁.
        >>=-elim
          (worker_budgets count workers (population_count r.worker_partition workers rank_span)
            r.batch_size)
          _ run₁
          λ budgets _ run₂.
            let p : Planning = record {
              replica = r.replica;
              partitioning = r.worker_partition;
              shuffle = r.shuffle;
              seed = r.seed;
              drawn = r.drawn;
              row_count = r.config.row_count;
              rank_span = rank_span;
              active = count_positive budgets;
              full_pass = sum budgets == rank_span.length;
            } in
            let named =
              plans_from-Identified p 0 rank_span.offset i budgets plans plan run₂ found in
            let here : 0 + i ≡ i = omega arith in
            (named.rank_lem, named.worker_lem ∙ here, rw here at named.seed_lem)

-- When ranks plan shuffled loaders from one seed, each with any worker count, no two consumers
-- anywhere share a sampling seed: plans with the same seed are of the same rank and worker.
pub prepare_partitions_seeds :
    (r t : PlanRequest) (base i j : ℕ) (plans others : List WorkerPlan) (x y : WorkerPlan)
    → r.shuffle ≡ true
    → t.shuffle ≡ true
    → r.seed ≡ some base
    → t.seed ≡ some base
    → prepare_partitions r ≡ ok plans
    → prepare_partitions t ≡ ok others
    → get_elem? plans i ≡ some x
    → get_elem? others j ≡ some y
    → x.seed ≡ y.seed
    → (r.replica.rank ≡ t.replica.rank) × (i ≡ j)
unfolding reader_seed optional_seed
prepare_partitions_seeds r t base i j plans others x y rs ts rb tb run run' found found' same =
    let (_, _, ex) = prepare_partitions_identity r plans i x run found in
    let (_, _, ey) = prepare_partitions_identity t others j y run' found' in
    let dx : derive_seed (nat base) (nat r.replica.rank) (nat i) ≡ ok x.seed = rw (rs, rb) at ex in
    let dy : derive_seed (nat base) (nat t.replica.rank) (nat j) ≡ ok y.seed = rw (ts, tb) at ey in
    derive_seed_distinct base r.replica.rank t.replica.rank i j x.seed dx (rw same dy)
