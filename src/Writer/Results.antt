-- ===== src/Writer/Results.antt =====
-- `_ordered_outcomes` of dataset_rt/writer.py, and what the ledger gives for it: supervision that
-- ends without a failure has exactly one outcome for each job.
use dataset_rt.Prelude.{
  ℕ, zero, suc, ◌+◌, ◌≤◌, ◌<◌, ◌≡◌, refl, ltb, ◌==◌, Option, none, some, List, [], ◌∷◌, ◌++◌,
  length, if◌then◌else◌, arith, inl, inr, Bool-cases,
}
use dataset_rt.Writer.{Text, Message, CacheWriteResult, success, failure}
use dataset_rt.Writer.Jobs.{Job, source_job, refused}
use dataset_rt.Writer.Pool.{Outcomes}
use dataset_rt.Writer.Supervise.{
  Supervision, Supervised, complete, pool_failure, interrupted, running,
}
use dataset_rt.Writer.Ledger.{one, held, taken, IsLedger}

-- `outcomes.get(index)`
unfoldable pub get : ℕ → Outcomes → Option CacheWriteResult
get index [] = none
get index ((key, value) ∷ outcomes) =
    let rest = get index outcomes in if key == index then some value else rest

-- The outcome of a job that has none: its own error, or the failure of the pool.
unfoldable pub missing : Message → Job → CacheWriteResult
missing message (source_job name source) = failure name message
missing message (refused name own) = failure name own

-- `path / name`
abbrev pub join : Text → Text → Text
join path name = path ++ (47 ∷ name)

unfoldable pub public_result : Text → CacheWriteResult → CacheWriteResult
public_result path (success name written) = success name (join path name)
public_result path (failure name message) = failure name message

unfoldable pub outcome_of : Message → Text → Outcomes → ℕ → Job → CacheWriteResult
unfolding get missing public_result
outcome_of message path outcomes index job = elim (get index outcomes) [
  | none ↦ public_result path (missing message job)
  | some result ↦ public_result path result
]

-- The results of the jobs, from an index.
unfoldable pub ordered_outcomes : Message → Text → Outcomes → ℕ → List Job → List CacheWriteResult
unfolding outcome_of
ordered_outcomes message path outcomes index [] = []
ordered_outcomes message path outcomes index (job ∷ all) =
    outcome_of message path outcomes index job
    ∷ ordered_outcomes message path outcomes (suc index) all

-- How many of the indices below a bound have entries, counted with their entries.
abbrev total : ℕ → Outcomes → ℕ
total zero outcomes = 0
total (suc n) outcomes = held n outcomes + total n outcomes

total-cons :
    (n key : ℕ) (value : CacheWriteResult) (outcomes : Outcomes)
    → total n ((key, value) ∷ outcomes) ≡ taken key n + total n outcomes
total-cons zero key value outcomes = ground arith
total-cons (suc n) key value outcomes = ground (arith, total-cons n key value outcomes)

total-nil : (n : ℕ) → total n [] ≡ 0
total-nil zero = refl
total-nil (suc n) = omega (arith, total-nil n)

one_self : (i : ℕ) → one i i ≡ 1
one_self i = ground arith

length-total :
    (n : ℕ) (outcomes : Outcomes)
    → ((i : ℕ) → n ≤ i → held i outcomes ≡ 0)
    → length outcomes ≤ total n outcomes
length-total n [] h = omega arith
length-total n ((key, value) ∷ outcomes) h =
    let rest = length-total n outcomes (λ i le. omega (arith, h i le)) in
    elim (Bool-cases (ltb key n)) [
      | inl below ↦ ground (arith, below, rest, total-cons n key value outcomes)
      | inr above ↦ absurd (ground (arith, above, one_self key, h key))
    ]

total-le : (n : ℕ) (outcomes : Outcomes) → ((i : ℕ) → held i outcomes ≤ 1) → total n outcomes ≤ n
total-le zero outcomes h = omega arith
total-le (suc n) outcomes h = omega (arith, h n, total-le n outcomes h)

-- A bound that is reached leaves no index out.
total-full :
    (n : ℕ) (outcomes : Outcomes)
    → ((i : ℕ) → held i outcomes ≤ 1)
    → n ≤ total n outcomes
    → (i : ℕ) → i < n
    → held i outcomes ≡ 1
total-full zero outcomes h full i lt = omega arith
total-full (suc n) outcomes h full i lt = elim (Bool-cases (i == n)) [
  | inl same ↦
      let e : i ≡ n = ground (arith, same) in rw e (omega (arith, h n, total-le n outcomes h))
  | inr different ↦ total-full n outcomes h (omega (arith, h n)) i (ground (arith, different))
]

pub ledger-full :
    (count : ℕ) (s : Supervision)
    → IsLedger count s
    → count ≤ length s.outcomes
    → (i : ℕ) → i < count
    → held i s.outcomes ≡ 1
ledger-full count s (balanced, queue) full =
    let most : (i : ℕ) → held i s.outcomes ≤ 1 = λ i. ground (arith, balanced i) in
    let none_above : (i : ℕ) → count ≤ i → held i s.outcomes ≡ 0 =
      λ i le. ground (arith, balanced i) in
    total-full count s.outcomes most (omega (arith, full, length-total count s.outcomes none_above))

-- The state that supervision leaves.
abbrev pub left_by : Supervised → Supervision
left_by (complete s) = s
left_by (pool_failure message s) = s
left_by (interrupted verdict s) = s
left_by (running s) = s

abbrev pub Settled : ℕ → Supervised → Type 0
Settled count (complete s) = (i : ℕ) → i < count → held i s.outcomes ≡ 1
Settled count ended = Unit
