-- ===== src/Reader/Consumers.antt =====
-- Every consumer of a loader finds the plan that was prepared for it.
use dataset_rt.Prelude.{
  ℕ, zero, suc, ◌+◌, ◌<◌, ◌≡◌, refl, ap, sym, ◌∙◌, subst, max, ◌==◌, Bool, Bool-cases, true, Option,
  none, some, List, [], ◌∷◌, ◌++◌, length, replicate, get_elem?, arith, inl, inr, pos, String,
  range, min, ◌/◌, ◌%◌, ◌-◌, length-append, length-replicate, length-range_from,
}
use dataset_rt.Python.{nat, traverse, ok-injective, Result, ok, ◌>>=◌, >>=-elim}
use dataset_rt.Partition.{ReplicaIdentity}
use dataset_rt.Config.{ReaderConfig, DatasetConfiguration}
use dataset_rt.Budget.{rank_budget, add_last, worker_budgets, part_budget}
use dataset_rt.Seed.{reader_seed}
use dataset_rt.Plan.{
  population_size, optional_seed, worker_plan, draft_plan, rank_rows, population_count, Planning,
  plans_from, WorkerPlan, PlanRequest, prepare_partitions,
}
use dataset_rt.Plan.Identity.{prepare_partitions_identity}
use dataset_rt.Dataset.{Native, CachedDataset}
use dataset_rt.Dataset.Recipe.{from_configuration-len}
use dataset_rt.Selection.{population_selection}
use dataset_rt.Reader.{WorkerInfo, plan_for, worker_plan_of, selected, create_dataset}

elem_at :
    (plans : List WorkerPlan) (i : ℕ)
    → i < length plans
    → (plan : WorkerPlan) × (get_elem? plans i ≡ some plan)
elem_at [] i h = absurd (omega (arith, h))
elem_at (plan ∷ plans) zero h = (plan, refl)
elem_at (plan ∷ plans) (suc i) h = elem_at plans i (omega (arith, h))

plan_for-prepared :
    (replica : ReplicaIdentity) (plans : List WorkerPlan) (i : ℕ) (plan : WorkerPlan)
    → get_elem? plans i ≡ some plan
    → plan.rank ≡ replica.rank
    → plan.worker_id ≡ i
    → plan_for replica plans i (length plans) ≡ ok plan
unfolding plan_for
plan_for-prepared replica plans i plan at rank id =
    let count : (length plans == length plans) ≡ true = ground arith in
    let same_rank : (plan.rank == replica.rank) ≡ true = ground (arith, rank) in
    let same_id : (plan.worker_id == i) ≡ true = ground (arith, id) in
    rw (count, plan_for)
      (rw (at, plan_for) (rw (same_rank, plan_for) (rw (same_id, plan_for) refl)))

-- The consumers of a loader: the main process alone, or each of its workers.
abbrev pub IsConsumer : ℕ → Option WorkerInfo → Type 0
IsConsumer processes none = processes ≡ 0
IsConsumer processes (some info) = (info.num_workers ≡ processes) × (info.id < processes)

abbrev pub consumer_id : Option WorkerInfo → ℕ
consumer_id none = 0
consumer_id (some info) = info.id

length-traverse :
    (f : ℕ → Result ℕ) (xs ys : List ℕ) → traverse f xs ≡ ok ys → length ys ≡ length xs
unfolding traverse
length-traverse f [] ys h = ap length (sym (ok-injective h))
length-traverse f (x ∷ xs) ys h = >>=-elim (f x) _ h λ y _ rest.
    >>=-elim (traverse f xs) _ rest λ later is_later done.
      sym (ap length (ok-injective done)) ∙ ap suc (length-traverse f xs later is_later)

length-add_last :
    (xs : List ℕ) (tail : ℕ) (ys : List ℕ) → add_last xs tail ≡ ok ys → length ys ≡ length xs
unfolding add_last
length-add_last [] tail ys h = cc
length-add_last (x ∷ []) tail ys h = ap length (sym (ok-injective h))
length-add_last (x ∷ y ∷ xs) tail ys h =
    >>=-elim (add_last (y ∷ xs) tail) _ h λ later is_later done.
      sym (ap length (ok-injective done)) ∙ ap suc (length-add_last (y ∷ xs) tail later is_later)

spread_length :
    (samples workers populations batch_size : ℕ) (budgets : List ℕ)
    → (let batches = samples / batch_size in
        let active = min workers (min populations (max 1 batches)) in
        traverse (part_budget batches active batch_size) (range active) >>= λ given.
        add_last given (samples % batch_size) >>= λ spread.
        ok (spread ++ replicate (workers - active) 0))
      ≡ ok budgets
    → length budgets ≡ workers
spread_length samples workers populations batch_size budgets h =
    let batches = samples / batch_size in
    let active = min workers (min populations (max 1 batches)) in
    >>=-elim (traverse (part_budget batches active batch_size) (range active)) _ h
      λ given is_given rest.
        >>=-elim (add_last given (samples % batch_size)) _ rest λ spread is_spread done.
          let e = ap length (sym (ok-injective done)) in
          omega (
            arith,
            e,
            length-append spread (replicate (workers - active) 0),
            length-replicate (workers - active) (let z : ℕ = 0 in z),
            length-add_last given (samples % batch_size) spread is_spread,
            length-traverse (part_budget batches active batch_size) (range active) given is_given,
            length-range_from 0 active,
          )

length-worker_budgets :
    (samples workers populations batch_size : ℕ) (budgets : List ℕ)
    → worker_budgets samples workers populations batch_size ≡ ok budgets
    → length budgets ≡ workers
unfolding worker_budgets
length-worker_budgets samples workers populations batch_size budgets h =
    elim (Bool-cases (samples == 0)) [
      | inl done ↦ sym (ap length (ok-injective (rw done at h))) ∙ length-replicate workers 0
      | inr some_sample ↦ elim (Bool-cases (populations == 0)) [
        | inl bare ↦ cc (rw bare at (rw some_sample at h))
        | inr some_population ↦ elim (Bool-cases (batch_size == 0)) [
          | inl nothing ↦ cc (rw nothing at (rw some_population at (rw some_sample at h)))
          | inr some_batch ↦
              spread_length samples workers populations batch_size budgets
                (rw some_batch at (rw some_population at (rw some_sample at h)))
        ]
      ]
    ]

length-plans_from :
    (p : Planning) (worker offset : ℕ) (budgets : List ℕ) (plans : List WorkerPlan)
    → plans_from p worker offset budgets ≡ ok plans
    → length plans ≡ length budgets
unfolding plans_from
length-plans_from p worker offset [] plans h = ap length (sym (ok-injective h))
length-plans_from p worker offset (budget ∷ budgets) plans h =
    >>=-elim (population_size p worker budget) _ h λ size _ h1.
      >>=-elim
        (reader_seed p.shuffle (optional_seed p.seed) (p.drawn worker) (nat p.replica.rank)
          (nat worker))
        _ h1
        λ seed _ h2.
          >>=-elim (worker_plan (draft_plan p worker offset size budget seed)) _ h2 λ plan _ h3.
            >>=-elim (plans_from p (suc worker) (offset + size) budgets) _ h3 λ later is_later done.
              sym (ap length (ok-injective done))
              ∙ ap suc (length-plans_from p (suc worker) (offset + size) budgets later is_later)

-- As many plans are prepared as the loader has consumers.
length-prepare_partitions :
    (r : PlanRequest) (plans : List WorkerPlan)
    → prepare_partitions r ≡ ok plans
    → length plans ≡ max 1 r.num_workers
unfolding prepare_partitions
length-prepare_partitions r plans h =
    let count = (rank_budget r.samples_per_epoch r.replica r.batch_size r.drop_last).0 in
    let workers = max 1 r.num_workers in
    >>=-elim (rank_rows r.worker_partition r.config.row_count r.samples_per_epoch count r.replica) _
      h
      λ rank_span _ h1.
        let populations = population_count r.worker_partition workers rank_span in
        >>=-elim (worker_budgets count workers populations r.batch_size) _ h1
          λ budgets is_budgets h2.
            length-plans_from _ 0 rank_span.offset budgets plans h2
            ∙ length-worker_budgets count workers populations r.batch_size budgets is_budgets

-- Each consumer of a loader, the main process where there are no workers and otherwise any worker
-- by its identity, finds a plan among those that were prepared for its rank, and it is the one
-- that names that consumer.
pub consumer_finds_plan :
    (r : PlanRequest) (plans : List WorkerPlan) (info : Option WorkerInfo)
    → prepare_partitions r ≡ ok plans
    → IsConsumer r.num_workers info
    → (plan : WorkerPlan) × (worker_plan_of r.replica plans info ≡ ok plan)
      × (plan.rank ≡ r.replica.rank)
      × (plan.worker_id ≡ consumer_id info)
unfolding worker_plan_of
consumer_finds_plan r plans none h serial =
    let count : length plans ≡ 1 = length-prepare_partitions r plans h ∙ ap (max 1) serial in
    let (plan, at) = elem_at plans 0 (omega (arith, count)) in
    let (rank, id, _) = prepare_partitions_identity r plans 0 plan h at in
    (
      plan,
      subst (λ (n : ℕ). plan_for r.replica plans 0 n ≡ ok plan) count
          (plan_for-prepared r.replica plans 0 plan at rank id),
      rank,
      id,
    )
consumer_finds_plan r plans (some info) h (workers, below) =
    let count : length plans ≡ info.num_workers =
      omega (arith, length-prepare_partitions r plans h, workers, below) in
    let (plan, at) = elem_at plans info.id (omega (arith, count, workers, below)) in
    let (rank, id, _) = prepare_partitions_identity r plans info.id plan h at in
    (
      plan,
      subst (λ (n : ℕ). plan_for r.replica plans info.id n ≡ ok plan) count
          (plan_for-prepared r.replica plans info.id plan at rank id),
      rank,
      id,
    )

module _ (native : Native) where
  -- The reader that is made of a plan emits the plan's quota and reads with the plan's seed.
  pub create_dataset-plan :
      (resolve : String → String) (row_index : List ℕ → native.Table) (order : List ℕ)
      (config : DatasetConfiguration) (metadata : native.Table) (shuffle : Bool) (threads : ℕ)
      (plan : WorkerPlan) (dataset : CachedDataset native)
      → create_dataset native resolve row_index order config metadata shuffle threads plan
        ≡ ok dataset
      → (native.len dataset.inner ≡ plan.sample_count)
        × (dataset.recipe.reader_config.seed ≡ pos plan.seed)
        × (dataset.recipe.reader_config.shuffle ≡ shuffle)
  unfolding create_dataset
  create_dataset-plan resolve row_index order config metadata shuffle threads plan dataset h =
      >>=-elim
        (population_selection order config.row_count (pos plan.offset) (pos plan.population_size)
          plan.partition_seed)
        _ h
        λ selection _ made.
          let (size, _, settings, _) =
            from_configuration-len native resolve
              (record config {
                num_workers = threads;
                epoch_len = plan.sample_count;
                row_count = plan.population_size;
                reader_config = record (config.reader_config) {
                  shuffle = shuffle;
                  seed = pos plan.seed;
                };
              })
              metadata (selected native row_index selection) dataset made in
          (
            size,
            ap (λ (c : ReaderConfig). c.seed) settings,
            ap (λ (c : ReaderConfig). c.shuffle) settings,
          )
