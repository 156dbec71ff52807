-- ===== src/Reader/Ownership.antt =====
-- Native reader state belongs to one process.
use dataset_rt.Prelude.{
  ℕ, ◌≡◌, ◌≢◌, refl, ◌==◌, ==_iff, Bool-cases, Option, List, arith, inl, inr, subst,
}
use dataset_rt.Python.{Result, ok, err, runtime_error, >>=-elim, ok-injective}
use dataset_rt.Plan.{WorkerPlan}
use dataset_rt.Dataset.{Native, CachedDataset}
use dataset_rt.Reader.{
  WorkerInfo, ReaderInputs, ReaderState, pending, empty, local, worker_plan_of, owned_by,
  open_reader, setup,
}

module _ (native : Native) (window : native.Handle → ℕ → List native.Sample) where
  -- The process that a reader is bound to.
  abbrev pub BoundTo : ℕ → ReaderState native → Type 0
  BoundTo pid pending = ⊥
  BoundTo pid (empty owner) = owner ≡ pid
  BoundTo pid (local reader) = reader.pid ≡ pid

  open_reader-BoundTo :
      (create : WorkerPlan → Result (CachedDataset native)) (pid : ℕ) (recipe : WorkerPlan)
      (state : ReaderState native)
      → open_reader native window create pid recipe ≡ ok state
      → BoundTo pid state
  unfolding open_reader
  open_reader-BoundTo create pid recipe state h = elim (Bool-cases (recipe.sample_count == 0)) [
    | inl idle ↦ subst (BoundTo pid) (ok-injective (rw idle at h)) refl
    | inr busy ↦
        >>=-elim (create recipe) _ (rw busy at h)
          λ dataset created done. subst (BoundTo pid) (ok-injective done) refl
  ]

  owned_by-ok :
      (pid owner : ℕ) (held state : ReaderState native)
      → owned_by native window pid owner held ≡ ok state
      → (owner ≡ pid) × (held ≡ state)
  unfolding owned_by
  owned_by-ok pid owner held state h = elim (Bool-cases (owner == pid)) [
    | inl same ↦ (ground (arith, same), ok-injective (rw same at h))
    | inr other ↦ (ground (arith, other), ground (arith, other))
  ]

  setup-BoundTo :
      (create : WorkerPlan → Result (CachedDataset native)) (inputs : ReaderInputs)
      (info : Option WorkerInfo) (pid : ℕ) (before state : ReaderState native)
      → setup native window create inputs info pid before ≡ ok state
      → BoundTo pid state
  unfolding setup
  setup-BoundTo create inputs info pid pending state h =
      >>=-elim (worker_plan_of inputs.replica inputs.partitions info) _ h
        λ recipe _ opened. open_reader-BoundTo create pid recipe state opened
  setup-BoundTo create inputs info pid (empty owner) state h =
      let (same, kept) = owned_by-ok pid owner (empty owner) state h in
      subst (BoundTo pid) kept same
  setup-BoundTo create inputs info pid (local reader) state h =
      let (same, kept) = owned_by-ok pid reader.pid (local reader) state h in
      subst (BoundTo pid) kept same

  bound-again :
      (create : WorkerPlan → Result (CachedDataset native)) (inputs : ReaderInputs)
      (info : Option WorkerInfo) (pid : ℕ) (state : ReaderState native)
      → BoundTo pid state
      → setup native window create inputs info pid state ≡ ok state
  unfolding setup owned_by
  bound-again create inputs info pid pending bound = absurd bound
  bound-again create inputs info pid (empty owner) bound = ground (arith, ==_iff owner pid)
  bound-again create inputs info pid (local reader) bound = ground (arith, ==_iff reader.pid pid)

  bound-elsewhere :
      (create : WorkerPlan → Result (CachedDataset native)) (inputs : ReaderInputs)
      (info : Option WorkerInfo) (pid other : ℕ) (state : ReaderState native)
      → BoundTo pid state
      → other ≢ pid
      → setup native window create inputs info other state
        ≡ err (runtime_error "DatasetRT loader native state belongs to another PID")
  unfolding setup owned_by
  bound-elsewhere create inputs info pid other pending bound ne = absurd bound
  bound-elsewhere create inputs info pid other (empty owner) bound ne =
      ground (arith, ==_iff owner other, ne)
  bound-elsewhere create inputs info pid other (local reader) bound ne =
      ground (arith, ==_iff reader.pid other, ne)

  -- A reader that was set up, from any state, is bound to the process that did it: setting it up
  -- again there changes nothing, and any other process is refused.
  pub setup_owned :
      (create : WorkerPlan → Result (CachedDataset native)) (inputs : ReaderInputs)
      (info : Option WorkerInfo) (pid other : ℕ) (before state : ReaderState native)
      → setup native window create inputs info pid before ≡ ok state
      → other ≢ pid
      → (setup native window create inputs info pid state ≡ ok state)
        × (setup native window create inputs info other state
            ≡ err (runtime_error "DatasetRT loader native state belongs to another PID"))
  setup_owned create inputs info pid other before state h ne =
      let bound = setup-BoundTo create inputs info pid before state h in
      (
        bound-again create inputs info pid state bound,
        bound-elsewhere create inputs info pid other state bound ne,
      )
