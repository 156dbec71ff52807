-- ===== src/Writer/Outcome.antt =====
-- What supervision promises.
use dataset_rt.Prelude.{
  ℕ, suc, ◌+◌, ◌<◌, ◌≡◌, refl, subst, ap₂, leb, leb→le, some, List, [], ◌∷◌, length, arith, inl,
  inr, Bool-cases, ◌==◌,
}
use dataset_rt.Writer.{Text, Message, CacheWriteResult}
use dataset_rt.Writer.Jobs.{Job}
use dataset_rt.Writer.Pool.{
  Outcomes, Verdict, fine, stopped, keyboard_interrupt, system_exit, system_error,
}
use dataset_rt.Writer.Supervise.{
  Supervision, Round, assign, poll_round, after_polls, Supervised, complete, pool_failure,
  interrupted, supervise,
}
use dataset_rt.Writer.Ledger.{held, IsLedger, assign-IsLedger, polls-IsLedger}
use dataset_rt.Writer.Results.{get, ordered_outcomes, outcome_of, ledger-full, left_by, Settled}

-- How a call of `supervise` relates to the ledger.
abbrev Kept : ℕ → Supervised → Type 0
Kept count ended = IsLedger count (left_by ended) × Settled count ended

Verdict-cases :
    (verdict : Verdict) (next : Supervised) (left : Supervision) (count : ℕ)
    → Kept count next
    → IsLedger count left
    → Kept count (elim verdict as (λ v. Supervised) [
      | fine ↦ next
      | stopped message ↦ pool_failure message left
      | keyboard_interrupt text ↦ interrupted (keyboard_interrupt text) left
      | system_exit status ↦ interrupted (system_exit status) left
      | system_error error ↦ interrupted (system_error error) left
    ])
Verdict-cases fine next left count kept ledger = kept
Verdict-cases (stopped message) next left count kept ledger = (ledger, tt)
Verdict-cases (keyboard_interrupt text) next left count kept ledger = (ledger, tt)
Verdict-cases (system_exit status) next left count kept ledger = (ledger, tt)
Verdict-cases (system_error error) next left count kept ledger = (ledger, tt)

-- Supervision keeps the ledger on every way to end: of the jobs taken from the queue each has at
-- most one outcome or one worker, and of the others none has either. Where it ends without a
-- failure, every job has exactly one outcome.
pub supervise-IsLedger :
    (count timeout : ℕ) (rounds : List Round) (s : Supervision)
    → IsLedger count s
    → IsLedger count (left_by (supervise count timeout rounds s))
      × Settled count (supervise count timeout rounds s)
unfolding supervise
supervise-IsLedger count timeout [] s ledger = elim (Bool-cases (leb count (length s.outcomes))) [
  | inl full ↦ rw full (ledger, ledger-full count s ledger (leb→le count (length s.outcomes) full))
  | inr short ↦ rw short (ledger, tt)
]
supervise-IsLedger count timeout (round ∷ rounds) s ledger =
    let polls = poll_round round s in
    let left = after_polls s polls in
    let kept = polls-IsLedger round count s ledger in
    let rest =
      supervise-IsLedger count timeout rounds (assign round.attempts timeout left)
        (assign-IsLedger round.attempts timeout count left kept) in
    elim (Bool-cases (leb count (length s.outcomes))) [
      | inl full ↦
          rw full (ledger, ledger-full count s ledger (leb→le count (length s.outcomes) full))
      | inr short ↦ rw short (
          Verdict-cases polls.verdict
            (supervise count timeout rounds (assign round.attempts timeout left)) left count rest
            kept)
    ]

get-held :
    (i : ℕ) (outcomes : Outcomes)
    → held i outcomes ≡ 1
    → (result : CacheWriteResult) × (get i outcomes ≡ some result)
unfolding get
get-held i [] h = absurd (omega (arith, h))
get-held i ((key, value) ∷ outcomes) h = elim (Bool-cases (key == i)) [
  | inl same ↦ (value, rw same refl)
  | inr different ↦
      let (result, found) = get-held i outcomes (ground (arith, different, h)) in
      (result, rw different found)
]

ordered_outcomes-message :
    (first second : Message) (path : Text) (outcomes : Outcomes) (index : ℕ) (all : List Job)
    → ((i : ℕ) → i < index + length all → held i outcomes ≡ 1)
    → ordered_outcomes first path outcomes index all
      ≡ ordered_outcomes second path outcomes index all
unfolding ordered_outcomes outcome_of
ordered_outcomes-message first second path outcomes index [] h = refl
ordered_outcomes-message first second path outcomes index (job ∷ all) h =
    let (result, found) = get-held index outcomes (h index (omega arith)) in
    let rest =
      ordered_outcomes-message first second path outcomes (suc index) all
        (λ i lt. h i (omega arith)) in
    rw (found, ordered_outcomes, outcome_of) (ap₂ ◌∷◌ refl rest)

-- When supervision from a state that keeps the ledger ends without a failure, the results do not
-- depend on the message for jobs that have no outcome: every job has one.
pub complete_ignores_failure :
    (first second : Message) (path : Text) (timeout : ℕ) (rounds : List Round) (all : List Job)
    (s left : Supervision)
    → IsLedger (length all) s
    → supervise (length all) timeout rounds s ≡ complete left
    → ordered_outcomes first path left.outcomes 0 all
      ≡ ordered_outcomes second path left.outcomes 0 all
complete_ignores_failure first second path timeout rounds all s left ledger h =
    let kept = supervise-IsLedger (length all) timeout rounds s ledger in
    let settled : Settled (length all) (complete left) = subst (Settled (length all)) h kept.1 in
    ordered_outcomes-message first second path left.outcomes 0 all (λ i lt. settled i (omega arith))
