-- ===== src/Reader/Stream.antt =====
-- Passes follow the native draw streams: nothing is skipped or repeated between passes.
use dataset_rt.Prelude.{
  ℕ, zero, suc, ◌≤◌, ◌<◌, ◌≡◌, refl, ap, ap₂, sym, ◌∙◌, subst, min, Option, none, some,
  Option-cases, Bool-cases, ◌==◌, List, [], ◌∷◌, ◌++◌, append_assoc, append-nil, length, arith, inl,
  inr,
}
use dataset_rt.Python.{Result, ok, Result-cases, >>=-elim}
use dataset_rt.Dataset.{Native, CachedDataset}
use dataset_rt.Plan.{WorkerPlan}
use dataset_rt.Reader.{
  WorkerInfo, ReaderInputs, pending, local, worker_plan_of, open_reader, setup, LocalReader,
  draw_from, draw, draws, run_pass, run_passes,
}

module _ (native : Native) (window : native.Handle → ℕ → List native.Sample) where
  open native use {Handle, Sample}

  -- The windows of a dataset, one behind another.
  abbrev pub windows : Handle → ℕ → List Sample
  windows h zero = []
  windows h (suc k) = windows h k ++ window h k

  -- What was drawn since the reader was set up is what its windows held, less what is left.
  abbrev pub Follows : Handle → List Sample → LocalReader native → Type 0
  Follows h drawn reader =
      (drawn ++ reader.stream ≡ windows h reader.started) × (reader.dataset.inner ≡ h)

  -- The same, behind one call of `next`.
  abbrev Drawn :
      Handle → List Sample → LocalReader native → Option (Sample × LocalReader native) → Type 0
  Drawn h before reader none = Follows h before (record reader { started = suc reader.started })
  Drawn h before reader (some (sample, later)) = Follows h (before ++ (sample ∷ [])) later

  draw_from-Drawn :
      (h : Handle) (before : List Sample) (reader : LocalReader native) (stream fresh : List Sample)
      → reader.stream ≡ stream
      → window h reader.started ≡ fresh
      → Follows h before reader
      → Drawn h before reader (draw_from native window reader stream fresh)
  unfolding draw_from
  draw_from-Drawn h before reader (x ∷ stream) fresh e f (follows, same) = (
    append_assoc before (x ∷ []) stream
        ∙ ap (λ (rest : List Sample). before ++ rest) (sym e)
        ∙ follows,
    same,
  )
  draw_from-Drawn h before reader [] (x ∷ stream) e f (follows, same) = (
    append_assoc before (x ∷ []) stream
        ∙ ap₂ ◌++◌
            (sym (append-nil before) ∙ ap (λ (r : List Sample). before ++ r) (sym e) ∙ follows)
            (sym f),
    same,
  )
  draw_from-Drawn h before reader [] [] e f (follows, same) = (
    follows
        ∙ sym (append-nil (windows h reader.started))
        ∙ ap (λ (r : List Sample). windows h reader.started ++ r) (sym f),
    same,
  )

  draw-Drawn :
      (h : Handle) (before : List Sample) (reader : LocalReader native)
      → Follows h before reader
      → Drawn h before reader (draw native window reader)
  unfolding draw
  draw-Drawn h before reader follows =
      draw_from-Drawn h before reader reader.stream (window reader.dataset.inner reader.started)
        refl (ap (λ (g : Handle). window g reader.started) (sym follows.1)) follows

  module _ {T : Type 0} (transform : Sample → Result T) where
    draws-Follows :
        (h : Handle) (count : ℕ) (before : List Sample) (reader : LocalReader native)
        → Follows h before reader
        → let pass = draws native window transform count reader in
          Follows h (before ++ pass.drawn) pass.reader
    unfolding draws
    draws-Follows h zero before reader (follows, same) =
        (ap (λ (r : List Sample). r ++ reader.stream) (append-nil before) ∙ follows, same)
    draws-Follows h (suc count) before reader follows =
        elim (Option-cases (draw native window reader)) [
          | inl ended ↦
              let done = subst (Drawn h before reader) ended (draw-Drawn h before reader follows) in
              rw (ended, draws) (rw (append-nil before) done)
          | inr ((sample, later), drawn) ↦
              let done = subst (Drawn h before reader) drawn (draw-Drawn h before reader follows) in
              elim (Result-cases (transform sample)) [
                | inl (result, good) ↦
                    let rest = draws-Follows h count (before ++ (sample ∷ [])) later done in
                    rw (drawn, draws)
                      (rw (good, draws) (rw (← append_assoc before (sample ∷ []) _) rest))
                | inr (error, bad) ↦ rw (drawn, draws) (rw (bad, draws) done)
              ]
        ]

    run_passes-Follows :
        (h : Handle) (wants : List ℕ) (before : List Sample) (reader : LocalReader native)
        → Follows h before reader
        → let passes = run_passes native window transform wants reader in
          Follows h (before ++ passes.0) passes.1
    unfolding run_passes run_pass
    run_passes-Follows h [] before reader follows = rw (append-nil before) follows
    run_passes-Follows h (wanted ∷ more) before reader follows =
        let count = min wanted (native.len reader.dataset.inner) in
        let pass = draws native window transform count reader in
        let here = draws-Follows h count before reader follows in
        let rest = run_passes-Follows h more (before ++ pass.drawn) pass.reader here in
        rw (← append_assoc before pass.drawn _) rest

  open_reader-Follows :
      (create : WorkerPlan → Result (CachedDataset native)) (pid : ℕ) (recipe : WorkerPlan)
      (reader : LocalReader native)
      → open_reader native window create pid recipe ≡ ok (local reader)
      → Follows reader.dataset.inner [] reader
  unfolding open_reader
  open_reader-Follows create pid recipe reader h = elim (Bool-cases (recipe.sample_count == 0)) [
    | inl idle ↦ ground (arith, idle)
    | inr busy ↦
        >>=-elim (create recipe) _ (rw busy at h) λ dataset created done. (ground arith, refl)
  ]

  -- Over any passes, each to its end or given up after any number of samples, a reader that was set
  -- up draws its dataset's windows in order: what the passes drew, and then what is left of the
  -- last window, are the windows it opened, with nothing skipped or repeated.
  pub passes_follow :
      {T : Type 0} (transform : Sample → Result T)
      (create : WorkerPlan → Result (CachedDataset native)) (inputs : ReaderInputs)
      (info : Option WorkerInfo) (pid : ℕ) (wants : List ℕ) (reader : LocalReader native)
      → setup native window create inputs info pid (pending) ≡ ok (local reader)
      → let passes = run_passes native window transform wants reader in
        passes.0 ++ passes.1.stream ≡ windows reader.dataset.inner passes.1.started
  unfolding setup
  passes_follow transform create inputs info pid wants reader h =
      >>=-elim (worker_plan_of inputs.replica inputs.partitions info) _ h λ recipe _ opened.
        (run_passes-Follows transform reader.dataset.inner wants [] reader
          (open_reader-Follows create pid recipe reader opened)).0

  draw-some :
      (reader : LocalReader native) (stream fresh : List Sample)
      → 0 < length fresh
      → (sample : Sample) × (later : LocalReader native) × (draw_from native window reader stream
            fresh
          ≡ some (sample, later))
        × (later.dataset ≡ reader.dataset)
  unfolding draw_from
  draw-some reader (x ∷ stream) fresh more = (x, record reader { stream = stream }, refl, refl)
  draw-some reader [] (x ∷ stream) more =
      (x, record reader { started = suc reader.started; stream = stream }, refl, refl)
  draw-some reader [] [] more = absurd (omega (arith, more))

  module _ {T : Type 0} (transform : Sample → Result T) where
    draws-emitted :
        (h : Handle) (count : ℕ) (reader : LocalReader native)
        → ((k : ℕ) → 0 < length (window h k))
        → ((x : Sample) → (y : T) × (transform x ≡ ok y))
        → reader.dataset.inner ≡ h
        → let pass = draws native window transform count reader in
          (length pass.emitted ≡ count) × (pass.failure ≡ none)
    unfolding draws draw
    draws-emitted h zero reader full good same = (refl, refl)
    draws-emitted h (suc count) reader full good same =
        let fresh = window reader.dataset.inner reader.started in
        let more : 0 < length fresh = rw same (full reader.started) in
        let (sample, later, drawn, kept) = draw-some reader reader.stream fresh more in
        let (result, delivered) = good sample in
        let rest =
          draws-emitted h count later full good
            (ap (λ (d : CachedDataset native). d.inner) kept ∙ same) in
        rw (drawn, draws) (rw (delivered, draws) (ap suc rest.0, rest.1))

  -- A pass that is not given up delivers exactly the quota of its dataset, where no window of the
  -- native reader is empty and the transform does not raise.
  pub run_pass-emitted :
      {T : Type 0} (transform : Sample → Result T) (wanted : ℕ) (reader : LocalReader native)
      → ((k : ℕ) → 0 < length (window reader.dataset.inner k))
      → ((x : Sample) → (y : T) × (transform x ≡ ok y))
      → native.len reader.dataset.inner ≤ wanted
      → let pass = run_pass native window transform wanted reader in
        (length pass.emitted ≡ native.len reader.dataset.inner) × (pass.failure ≡ none)
  unfolding run_pass
  run_pass-emitted transform wanted reader full good whole =
      let e : min wanted (native.len reader.dataset.inner) ≡ native.len reader.dataset.inner =
        omega (arith, whole) in
      rw e (
        draws-emitted transform reader.dataset.inner (native.len reader.dataset.inner) reader full
          good refl)
