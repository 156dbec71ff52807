-- ===== src/Writer/Told.antt =====
-- What a call of `write_parallel` of dataset_rt/writer.py tells of each job, by the outcomes that were
-- recorded.
use dataset_rt.Prelude.{
  ℕ, suc, ◌≡◌, refl, ap, ◌==◌, none, some, Option-cases, List, [], ◌∷◌, ◌++◌, length, arith, inl,
  inr, ◌⊎◌, Bool-cases,
}
use dataset_rt.Writer.{Text, Message, CacheWriteResult, success, failure}
use dataset_rt.Writer.Jobs.{Job, source_job, refused}
use dataset_rt.Writer.Pool.{Outcomes}
use dataset_rt.Writer.Ledger.{held}
use dataset_rt.Writer.Results.{get, missing, public_result, ordered_outcomes, outcome_of}

-- What a call tells of a recorded outcome: a cache that was written is below the caller's path.
abbrev Delivered : Text → CacheWriteResult → CacheWriteResult → Type 0
Delivered path (success name written) told = told ≡ success name (path ++ (47 ∷ name))
Delivered path (failure name message) told = told ≡ failure name message

-- What a call tells of a job without an outcome: the job's own error, or that of the pool.
abbrev Undone : Message → Job → CacheWriteResult → Type 0
Undone message (source_job name source) told = told ≡ failure name message
Undone message (refused name own) told = told ≡ failure name own

abbrev Recorded : ℕ → CacheWriteResult → Outcomes → Type 0
Recorded index recorded [] = ⊥
Recorded index recorded ((key, value) ∷ outcomes) =
    ((key ≡ index) × (value ≡ recorded)) ⊎ Recorded index recorded outcomes

-- One result for each job, from an index: the recorded outcome of the job, or its error where there
-- is none.
abbrev pub Told : Text → Outcomes → Message → ℕ → List Job → List CacheWriteResult → Type 0
Told path outcomes message index [] [] = Unit
Told path outcomes message index [] (told ∷ all) = ⊥
Told path outcomes message index (job ∷ rest) [] = ⊥
Told path outcomes message index (job ∷ rest) (told ∷ all) =
    (((recorded : CacheWriteResult) × Recorded index recorded outcomes
        × Delivered path recorded told)
      ⊎ ((held index outcomes ≡ 0) × Undone message job told))
    × Told path outcomes message (suc index) rest all

get-some :
    (index : ℕ) (outcomes : Outcomes) (recorded : CacheWriteResult)
    → get index outcomes ≡ some recorded
    → Recorded index recorded outcomes
unfolding get
get-some index [] recorded h = cc
get-some index ((key, value) ∷ outcomes) recorded h = elim (Bool-cases (key == index)) [
  | inl same ↦ inl (ground (arith, same), cc (rw same at h))
  | inr different ↦ inr (get-some index outcomes recorded (rw different at h))
]

get-none : (index : ℕ) (outcomes : Outcomes) → get index outcomes ≡ none → held index outcomes ≡ 0
unfolding get
get-none index [] h = refl
get-none index ((key, value) ∷ outcomes) h = elim (Bool-cases (key == index)) [
  | inl same ↦ cc (rw same at h)
  | inr different ↦ ground (arith, different, get-none index outcomes (rw different at h))
]

public_result-Delivered :
    (path : Text) (recorded : CacheWriteResult)
    → Delivered path recorded (public_result path recorded)
unfolding public_result
public_result-Delivered path (success name written) = refl
public_result-Delivered path (failure name message) = refl

missing-Undone :
    (path : Text) (message : Message) (job : Job)
    → Undone message job (public_result path (missing message job))
unfolding public_result missing
missing-Undone path message (source_job name source) = refl
missing-Undone path message (refused name own) = refl

pub ordered_outcomes-Told :
    (message : Message) (path : Text) (outcomes : Outcomes) (index : ℕ) (all : List Job)
    → Told path outcomes message index all (ordered_outcomes message path outcomes index all)
unfolding ordered_outcomes outcome_of
ordered_outcomes-Told message path outcomes index [] = tt
ordered_outcomes-Told message path outcomes index (job ∷ all) = (
  elim (Option-cases (get index outcomes)) [
    | inl nothing ↦
        rw (nothing, outcome_of)
          (inr (get-none index outcomes nothing, missing-Undone path message job))
    | inr (recorded, found) ↦
        rw (found, outcome_of)
          (inl (
            recorded,
            get-some index outcomes recorded found,
            public_result-Delivered path recorded,
          ))
  ],
  ordered_outcomes-Told message path outcomes (suc index) all,
)

pub length-Told :
    (path : Text) (outcomes : Outcomes) (message : Message) (index : ℕ) (all : List Job)
    (told : List CacheWriteResult)
    → Told path outcomes message index all told
    → length told ≡ length all
length-Told path outcomes message index [] [] h = refl
length-Told path outcomes message index [] (result ∷ told) h = absurd h
length-Told path outcomes message index (job ∷ all) [] h = absurd h
length-Told path outcomes message index (job ∷ all) (result ∷ told) (here, later) =
    ap suc (length-Told path outcomes message (suc index) all told later)
