-- ===== src/Writer/Unique.antt =====
-- What `_preflight` promises: one outcome for each source, and no destination twice.
use dataset_rt.Prelude.{
  ℕ, suc, ◌≡◌, ◌≢◌, refl, ap, sym, ◌∙◌, true, false, none, List, [], ◌∷◌, map, arith, length,
  length-map, All, Option-cases, inl, inr, Bool-cases,
}
use dataset_rt.Writer.{Text, text_eq, about, CacheWriteResult}
use dataset_rt.Writer.Names.Segment.{text_eq_refl}
use dataset_rt.Writer.Jobs.{
  CacheSource, Job, source_job, refused, jobs, errors, read_jobs, destination_identity, seen_before,
  find_duplicate, refuse, preflight,
}

module _ (casefold normalize : Text → Text) where
  -- The destinations of the jobs that were not refused.
  abbrev pub destinations : List Job → List Text
  destinations [] = []
  destinations (source_job name source ∷ all) =
      destination_identity casefold normalize name ∷ destinations all
  destinations (refused name message ∷ all) = destinations all

  -- No destination is among the seen ones, nor among those before it.
  abbrev pub Fresh : List Text → List Text → Type 0
  Fresh seen [] = Unit
  Fresh seen (identity ∷ rest) =
      (seen_before casefold normalize identity seen ≡ false) × Fresh (identity ∷ seen) rest

  find_duplicate-none :
      (seen : List Text) (all : List Job)
      → find_duplicate casefold normalize seen all ≡ none
      → Fresh seen (destinations all)
  unfolding find_duplicate
  find_duplicate-none seen [] h = tt
  find_duplicate-none seen (refused name message ∷ all) h = find_duplicate-none seen all h
  find_duplicate-none seen (source_job name source ∷ all) h = (
    ground arith,
    find_duplicate-none (destination_identity casefold normalize name ∷ seen) all (ground arith),
  )

  -- All different.
  abbrev pub Distinct : List Text → Type 0
  Distinct [] = Unit
  Distinct (identity ∷ rest) = All (λ other. identity ≢ other) rest × Distinct rest

  Fresh-ne :
      (identity : Text) (seen rest : List Text)
      → seen_before casefold normalize identity seen ≡ true
      → Fresh seen rest
      → All (λ other. identity ≢ other) rest
  unfolding seen_before
  Fresh-ne identity seen [] held fresh = tt
  Fresh-ne identity seen (other ∷ rest) held (here, later) = (
    λ same. cc (ap (λ (t : Text). seen_before casefold normalize t seen) same),
    Fresh-ne identity (other ∷ seen) rest (ground arith) later,
  )

  Fresh-Distinct : (seen rest : List Text) → Fresh seen rest → Distinct rest
  unfolding seen_before
  Fresh-Distinct seen [] fresh = tt
  Fresh-Distinct seen (identity ∷ rest) (here, later) = (
    Fresh-ne identity (identity ∷ seen) rest (ground (arith, text_eq_refl identity)) later,
    Fresh-Distinct (identity ∷ seen) rest later,
  )

  length-read_jobs :
      (index : ℕ) (sources : List CacheSource)
      → length (read_jobs casefold normalize index sources) ≡ length sources
  unfolding read_jobs
  length-read_jobs index [] = refl
  length-read_jobs index (source ∷ sources) = ap suc (length-read_jobs (suc index) sources)

  text_eq_sound : (s t : Text) → text_eq s t ≡ true → s ≡ t
  text_eq_sound [] [] h = refl
  text_eq_sound [] (c ∷ t) h = cc
  text_eq_sound (b ∷ s) [] h = cc
  text_eq_sound (b ∷ s) (c ∷ t) h =
      let same : b ≡ c = ground arith in let rest = text_eq_sound s t (ground arith) in cc

  -- What was seen is not met again.
  abbrev Unseen : List Text → List Text → Type 0
  Unseen seen [] = Unit
  Unseen seen (identity ∷ rest) =
      (seen_before casefold normalize identity seen ≡ false) × Unseen seen rest

  Unseen-cons :
      (identity : Text) (seen rest : List Text)
      → All (λ other. identity ≢ other) rest
      → Unseen seen rest
      → Unseen (identity ∷ seen) rest
  unfolding seen_before
  Unseen-cons identity seen [] ne unseen = tt
  Unseen-cons identity seen (other ∷ rest) (here, later) (first, others) = (
    elim (Bool-cases (text_eq other identity)) [
      | inl same ↦ absurd (here (sym (text_eq_sound other identity same)))
      | inr different ↦ ground arith
    ],
    Unseen-cons identity seen rest later others,
  )

  find_duplicate-Distinct :
      (seen : List Text) (all : List Job)
      → Distinct (destinations all)
      → Unseen seen (destinations all)
      → find_duplicate casefold normalize seen all ≡ none
  unfolding find_duplicate
  find_duplicate-Distinct seen [] d u = refl
  find_duplicate-Distinct seen (refused name message ∷ all) d u =
      find_duplicate-Distinct seen all d u
  find_duplicate-Distinct seen (source_job name source ∷ all) (ne, d) (first, u) = rw first (
      find_duplicate-Distinct (destination_identity casefold normalize name ∷ seen) all d
        (Unseen-cons (destination_identity casefold normalize name) seen (destinations all) ne u))

  Unseen-nil : (rest : List Text) → Unseen [] rest
  unfolding seen_before
  Unseen-nil [] = tt
  Unseen-nil (identity ∷ rest) = (refl, Unseen-nil rest)

-- An accepted request has one job or refusal for each source, and no two of its jobs have the same
-- folded and normalized name.
pub preflight_accepts :
    (casefold normalize : Text → Text) (sources : List CacheSource) (all : List Job)
    → preflight casefold normalize sources ≡ jobs all
    → (length all ≡ length sources)
      × Distinct casefold normalize (destinations casefold normalize all)
unfolding preflight
preflight_accepts casefold normalize sources all h =
    let read = read_jobs casefold normalize 0 sources in
    elim (Option-cases (find_duplicate casefold normalize [] read)) [
      | inl unique ↦
          let same : all ≡ read = ground (arith, unique) in
          rw same (
            length-read_jobs casefold normalize 0 sources,
            Fresh-Distinct casefold normalize [] (destinations casefold normalize read)
                (find_duplicate-none casefold normalize [] read unique),
          )
      | inr (name, twice) ↦ ground (arith, twice)
    ]

-- A refused request has one error for each source, and its jobs are not all for different
-- destinations.
pub preflight_refuses :
    (casefold normalize : Text → Text) (sources : List CacheSource)
    (refusals : List CacheWriteResult)
    → preflight casefold normalize sources ≡ errors refusals
    → (length refusals ≡ length sources)
      × (¬ Distinct casefold normalize
          (destinations casefold normalize (read_jobs casefold normalize 0 sources)))
unfolding preflight
preflight_refuses casefold normalize sources refusals h =
    let read = read_jobs casefold normalize 0 sources in
    elim (Option-cases (find_duplicate casefold normalize [] read)) [
      | inl unique ↦ ground (arith, unique)
      | inr (name, twice) ↦
          let same : refusals
              ≡ map (refuse casefold normalize (about "duplicate generated cache path: " name))
                  read =
            ground (arith, twice) in
          (
            rw same (length-map _ read ∙ length-read_jobs casefold normalize 0 sources),
            λ distinct. cc (
              twice,
              find_duplicate-Distinct casefold normalize [] read distinct
                  (Unseen-nil casefold normalize (destinations casefold normalize read)),
            ),
          )
    ]
