-- ===== src/Plan/Order/Sequential.antt =====
-- What sequential readers of the selected rows deliver passes the check, in whatever order it comes.
use dataset_rt.Prelude.{
  if◌then◌else◌, ℕ, zero, suc, ◌+◌, ◌<◌, ◌%◌, ◌==◌, ◌≡◌, refl, ap, sym, ◌∙◌, subst, ◌||◌, pos,
  Bool-cases, true, false, Option, none, some, List, [], ◌∷◌, map, range_from, get_elem?, get_or,
  length, All, arith, inl, inr,
}
use dataset_rt.Python.{Result, ok, err}
use dataset_rt.Selection.{population_selection, is_whole, cyclic, selected_rows, partial_selection}
use dataset_rt.Plan.{WorkerPlan}
use dataset_rt.Plan.Order.{Identity, item, count_up, check_identity, check_order}
use native.Mathlib.Nat.{add-mod-mod, mod-lt, mod-eq_of_lt}

-- The row that a reader delivers k-th: sequential readers go through their selection again and again.
abbrev pub row_read : Result (Option (List ℕ)) → ℕ → ℕ → ℕ
row_read (ok (some rows)) size k = get_or rows (k % size) 0
row_read (ok none) size k = k % size
row_read (err error) size k = 0

-- A batch of workers that deliver in some order, by what each has delivered before.
abbrev pub reading : (ℕ → ℕ → ℕ) → (ℕ → ℕ) → List ℕ → List Identity
reading row delivered [] = []
reading row delivered (worker ∷ workers) =
    record { position = row worker (delivered worker); worker = worker }
    ∷ reading row (λ w. if w == worker then suc (delivered w) else delivered w) workers

-- The rows of the worker of a plan without a partition seed.
unfoldable pub row_of : List WorkerPlan → ℕ → ℕ → ℕ → ℕ
unfolding population_selection
row_of partitions population worker k = elim (get_elem? partitions worker) [
  | none ↦ 0
  | some plan ↦
      row_read
        (population_selection [] population (pos plan.offset) (pos plan.population_size) none)
        plan.population_size k
]

get_or-range :
    (f : ℕ → ℕ) (start n i : ℕ) → i < n → get_or (map f (range_from start n)) i 0 ≡ f (start + i)
get_or-range f start zero i h = absurd (omega (arith, h))
get_or-range f start (suc n) zero h = ap f (omega arith)
get_or-range f start (suc n) (suc i) h =
    get_or-range f (suc start) n i (omega (arith, h)) ∙ ap f (omega arith)

row_read-eq :
    (offset size population k : ℕ)
    → 0 < population
    → 0 < size
    → row_read (population_selection [] population (pos offset) (pos size) none) size k
      ≡ (offset + k % size) % population
unfolding population_selection is_whole selected_rows partial_selection cyclic
row_read-eq offset size population k some_row some_size =
    let below : k % size < size = mod-lt k some_size in
    elim (Bool-cases (is_whole none (pos offset) (pos size) population)) [
      | inl whole ↦
          let at : offset ≡ 0 = ground (arith, whole) in
          let same : size ≡ population = ground (arith, whole) in
          let found : population_selection [] population (pos offset) (pos size) none ≡ ok none =
            ground (arith, whole) in
          rw found (
            sym (mod-eq_of_lt (omega (arith, below, same)))
            ∙ ap (λ (n : ℕ). n % population) (omega (arith, at)))
      | inr part ↦
          let found : population_selection [] population (pos offset) (pos size) none
              ≡ ok (some (cyclic offset size population)) =
            ground (arith, part) in
          let sum : k % size + offset ≡ offset + k % size = omega arith in
          rw found (
            get_or-range (λ (i : ℕ). (i + offset % population) % population) 0 size (k % size) below
            ∙ ap (λ (i : ℕ). (i + offset % population) % population) (omega arith)
            ∙ add-mod-mod (k % size) offset population
            ∙ ap (λ (i : ℕ). i % population) sum)
    ]

elem-or : (ns : List ℕ) (i : ℕ) → i < length ns → get_elem? ns i ≡ some (get_or ns i 0)
elem-or [] i h = absurd (omega (arith, h))
elem-or (n ∷ ns) zero h = refl
elem-or (n ∷ ns) (suc i) h = elem-or ns i (omega (arith, h))

length-count_up : (i : ℕ) (ns : List ℕ) → length (count_up i ns) ≡ length ns
unfolding count_up
length-count_up zero [] = refl
length-count_up (suc i) [] = refl
length-count_up zero (n ∷ ns) = refl
length-count_up (suc i) (n ∷ ns) = ap suc (length-count_up i ns)

-- A worker with a counter and a plan that has rows.
abbrev pub IsReader : List WorkerPlan → ℕ → ℕ → Type 0
IsReader partitions counted worker =
    (worker < counted)
    × ((plan : WorkerPlan) × (get_elem? partitions worker ≡ some plan) × (0 < plan.population_size))

check_identity-row :
    (partitions : List WorkerPlan) (population worker : ℕ) (counters : List ℕ)
    → 0 < population
    → IsReader partitions (length counters) worker
    → check_identity partitions population
        (record {
          position = row_of partitions population worker (get_or counters worker 0);
          worker = worker;
        })
        counters
      ≡ ok (count_up worker counters)
unfolding check_identity item row_of
check_identity-row partitions population worker counters some_row (counted, (plan, at, some_size)) =
    let seen = get_or counters worker 0 in
    let expected = (plan.offset + seen % plan.population_size) % population in
    let read = row_read-eq plan.offset plan.population_size population seen some_row some_size in
    let sized : (plan.population_size == 0 || population == 0) ≡ false =
      ground (arith, some_size, some_row) in
    let same : (expected == expected) ≡ true = ground arith in
    rw (at, check_identity, item, row_of)
      (rw (elem-or counters worker counted, check_identity, item)
        (rw sized (rw read (rw same refl))))

get_or-count_up :
    (worker w : ℕ) (counters : List ℕ)
    → w < length counters
    → get_or (count_up worker counters) w 0
      ≡ (if w == worker then suc (get_or counters w 0) else get_or counters w 0)
unfolding count_up
get_or-count_up worker w [] h = absurd (omega (arith, h))
get_or-count_up zero zero (n ∷ ns) h = refl
get_or-count_up zero (suc w) (n ∷ ns) h =
    let other : (suc w == 0) ≡ false = ground arith in rw other refl
get_or-count_up (suc worker) zero (n ∷ ns) h =
    let other : (0 == suc worker) ≡ false = ground arith in rw other refl
get_or-count_up (suc worker) (suc w) (n ∷ ns) h = elim (Bool-cases (w == worker)) [
  | inl same ↦
      let also : (suc w == suc worker) ≡ true = ground (arith, same) in
      rw also (get_or-count_up worker w ns (omega (arith, h)) ∙ rw same refl)
  | inr other ↦
      let also : (suc w == suc worker) ≡ false = ground (arith, other) in
      rw also (get_or-count_up worker w ns (omega (arith, h)) ∙ rw other refl)
]

-- The counters say what each reader has delivered.
abbrev pub Counts : List ℕ → (ℕ → ℕ) → Type 0
Counts counters delivered = (w : ℕ) → w < length counters → get_or counters w 0 ≡ delivered w

Counts-next :
    (worker : ℕ) (counters : List ℕ) (delivered : ℕ → ℕ)
    → Counts counters delivered
    → Counts
        (count_up worker counters)
        (λ w. if w == worker then suc (delivered w) else delivered w)
Counts-next worker counters delivered counts w h =
    let within : w < length counters = omega (arith, h, length-count_up worker counters) in
    get_or-count_up worker w counters within
    ∙ ap (λ (n : ℕ). if w == worker then suc n else n) (counts w within)

-- How often a worker delivers.
abbrev pub deliveries_of : ℕ → List ℕ → ℕ
deliveries_of w [] = 0
deliveries_of w (worker ∷ workers) = (if w == worker then 1 else 0) + deliveries_of w workers

-- The batches of sequential readers are accepted in whatever order the workers deliver: each reader
-- goes again and again through the rows that its plan selects, from where the counters say that it
-- is, where the workers of the batch have plans with rows, and counters, and the dataset has a row.
-- Behind the batch the counters have grown by what each worker delivered in it.
pub check_order-reading :
    (partitions : List WorkerPlan) (population : ℕ) (workers : List ℕ) (counters : List ℕ)
    (delivered : ℕ → ℕ)
    → 0 < population
    → Counts counters delivered
    → All (λ worker. IsReader partitions (length counters) worker) workers
    → (after : List ℕ) × (check_order partitions population
          (reading (row_of partitions population) delivered workers)
          counters
        ≡ ok after)
      × Counts after (λ w. delivered w + deliveries_of w workers)
unfolding check_order
check_order-reading partitions population [] counters delivered some_row counts readers =
    (counters, refl, λ w h. omega (arith, counts w h))
check_order-reading partitions population (worker ∷ workers) counters delivered some_row counts
      (reader, readers) =
    let (after, run, counted) =
      check_order-reading partitions population workers (count_up worker counters)
        (λ w. if w == worker then suc (delivered w) else delivered w) some_row
        (Counts-next worker counters delivered counts)
        (subst (λ (n : ℕ). All (λ w. IsReader partitions n w) workers)
          (sym (length-count_up worker counters)) readers) in
    let here : get_or counters worker 0 ≡ delivered worker = counts worker reader.0 in
    let accepted = check_identity-row partitions population worker counters some_row reader in
    (after, rw (← here) (rw (accepted, check_order) run), λ w h. ground (arith, counted w h))
