-- ===== src/Writer/Ledger.antt =====
-- The ledger of the writer pool: at every step of supervision each job that was taken from the
-- queue has one outcome or one worker, and no other job has either.
use dataset_rt.Prelude.{
  ℕ, suc, ◌+◌, ◌≤◌, ◌≡◌, refl, ltb, ◌==◌, Option, Option-cases, none, some, List, [], ◌∷◌, length,
  if◌then◌else◌, arith, inl, inr, ◌⊎◌, Bool-cases,
}
use dataset_rt.Writer.{Text, CacheWriteResult, failure}
use dataset_rt.Writer.Jobs.{Job, source_job, refused}
use dataset_rt.Writer.Pool.{
  WriterState, starting, idle, active, Outcomes, put, Sight, Attempt, Dispatched, dispatch,
  declined, assigned, Report, ready, finished, keyboard, exited, failed, unknown, Received, report,
  broken, take_report, take_message, poll, poll_all, raises,
}
use dataset_rt.Writer.Supervise.{
  Supervision, fill_idle, fill, fill_all, Round, assign, poll_round, after_polls,
}

abbrev pub one : ℕ → ℕ → ℕ
one i key = if key == i then 1 else 0

-- How many entries of the outcomes are for an index.
abbrev pub held : ℕ → Outcomes → ℕ
held i [] = 0
held i ((key, value) ∷ outcomes) = one i key + held i outcomes

abbrev pub holds : ℕ → WriterState → ℕ
holds i (starting deadline) = 0
holds i idle = 0
holds i (active index deadline destination) = one i index

abbrev pub works : WriterState → ℕ
works (starting deadline) = 0
works idle = 0
works (active index deadline destination) = 1

-- How many workers have the job of an index, and how many have a job.
abbrev pub busy : ℕ → List WriterState → ℕ
busy i [] = 0
busy i (worker ∷ workers) = holds i worker + busy i workers

abbrev pub working : List WriterState → ℕ
working [] = 0
working (worker ∷ workers) = works worker + working workers

abbrev pub taken : ℕ → ℕ → ℕ
taken i next_index = if ltb i next_index then 1 else 0

held-put :
    (i key : ℕ) (value : CacheWriteResult) (outcomes : Outcomes)
    → held key outcomes ≡ 0
    → held i (put key value outcomes) ≡ held i outcomes + one i key
unfolding put
held-put i key value [] h = omega arith
held-put i key value ((other, kept) ∷ outcomes) h = elim (Bool-cases (other == key)) [
  | inl same ↦ ground (arith, same)
  | inr different ↦
      let rest = held-put i key value outcomes (ground (arith, different)) in
      rw different (omega (arith, rest))
]

one_self : (i : ℕ) → one i i ≡ 1
one_self i = ground arith

abbrev Single : Outcomes → WriterState → Type 0
Single outcomes worker = (i : ℕ) → held i outcomes + holds i worker ≤ 1

take_report-held :
    (sight : Sight) (sent : Report) (worker : WriterState) (outcomes : Outcomes)
    (cleaned : List Text)
    → Single outcomes worker
    → (i : ℕ)
    → let turn = take_report sight sent worker outcomes cleaned in
      held i turn.outcomes + holds i turn.state ≤ held i outcomes + holds i worker
unfolding take_report
take_report-held sight ready worker outcomes cleaned single i = omega arith
take_report-held sight (finished result) (active index deadline destination) outcomes cleaned single
      i =
    let put_in = held-put i index result outcomes (omega (arith, single index, one_self index)) in
    elim (Option-cases sight.removal) [
      | inl whole ↦ rw (whole, take_report) (omega (arith, put_in))
      | inr (error, failing) ↦ rw (failing, take_report) (omega (arith, put_in))
    ]
take_report-held sight (finished result) idle outcomes cleaned single i = omega arith
take_report-held sight (finished result) (starting deadline) outcomes cleaned single i = omega arith
take_report-held sight (keyboard text) worker outcomes cleaned single i = omega arith
take_report-held sight (exited status) worker outcomes cleaned single i = omega arith
take_report-held sight (failed text) worker outcomes cleaned single i = omega arith
take_report-held sight unknown worker outcomes cleaned single i = omega arith

take_message-held :
    (sight : Sight) (message : Option Received) (worker : WriterState) (outcomes : Outcomes)
    (cleaned : List Text)
    → Single outcomes worker
    → (i : ℕ)
    → let turn = take_message sight message worker outcomes cleaned in
      held i turn.outcomes + holds i turn.state ≤ held i outcomes + holds i worker
unfolding take_message
take_message-held sight none worker outcomes cleaned single i = omega arith
take_message-held sight (some (broken text)) worker outcomes cleaned single i = omega arith
take_message-held sight (some (report sent)) worker outcomes cleaned single i =
    take_report-held sight sent worker outcomes cleaned single i

poll-held :
    (sight : Sight) (worker : WriterState) (outcomes : Outcomes) (cleaned : List Text)
    → Single outcomes worker
    → (i : ℕ)
    → let turn = poll sight worker outcomes cleaned in
      held i turn.outcomes + holds i turn.state ≤ held i outcomes + holds i worker
unfolding poll
poll-held sight worker outcomes cleaned single i =
    take_message-held sight sight.message worker outcomes cleaned single i

poll_all-held :
    (see : ℕ → Sight) (number : ℕ) (workers : List WriterState) (outcomes : Outcomes)
    (cleaned : List Text)
    → ((i : ℕ) → held i outcomes + busy i workers ≤ 1)
    → (i : ℕ)
    → let polls = poll_all see number workers outcomes cleaned in
      held i polls.outcomes + busy i polls.workers ≤ held i outcomes + busy i workers
unfolding poll_all
poll_all-held see number [] outcomes cleaned single i = omega arith
poll_all-held see number (worker ∷ workers) outcomes cleaned single i =
    let here = poll-held (see number) worker outcomes cleaned (λ j. omega (arith, single j)) in
    let turn = poll (see number) worker outcomes cleaned in
    elim (Bool-cases (raises turn.verdict)) [
      | inl raised ↦ rw raised (omega (arith, here i))
      | inr going ↦
          let rest =
            poll_all-held see (suc number) workers turn.outcomes turn.cleaned
              (λ j. omega (arith, single j, here j)) i in
          rw going (omega (arith, here i, rest))
    ]

-- The ledger: a job has at most one outcome or worker, none if it was not taken, and the queue
-- holds the rest.
abbrev pub Balanced : Outcomes → List WriterState → ℕ → Type 0
Balanced outcomes workers next_index =
    (i : ℕ) → held i outcomes + busy i workers ≤ taken i next_index

abbrev pub IsLedger : ℕ → Supervision → Type 0
IsLedger count s =
    Balanced s.outcomes s.workers s.next_index × (s.next_index + length s.waiting ≡ count)

pub Dispatched-cases :
    (d : Dispatched)
    → ((result : CacheWriteResult) × (d ≡ declined result))
      ⊎ ((deadline : ℕ) × (destination : Text) × (d ≡ assigned deadline destination))
Dispatched-cases (declined result) = inl (result, refl)
Dispatched-cases (assigned deadline destination) = inr (deadline, destination, refl)

-- The others' jobs are `others`.
fill_idle-held :
    (attempts : ℕ → Attempt) (timeout index : ℕ) (waiting : List Job) (outcomes : Outcomes)
    (others : ℕ → ℕ)
    → ((i : ℕ) → held i outcomes + others i ≤ taken i index)
    → let filled = fill_idle attempts timeout index waiting outcomes in
      ((i : ℕ)
        → held i filled.outcomes + holds i filled.state + others i ≤ taken i filled.next_index)
      × (filled.next_index + length filled.waiting ≡ index + length waiting)
unfolding fill_idle
fill_idle-held attempts timeout index [] outcomes others h = (λ i. omega (arith, h i), refl)
fill_idle-held attempts timeout index (refused name message ∷ waiting) outcomes others h =
    let result = failure name message in
    let fresh : held index outcomes ≡ 0 = ground (arith, h index) in
    let rest =
      fill_idle-held attempts timeout (suc index) waiting (put index result outcomes) others
        (λ i. ground (arith, h i, held-put i index result outcomes fresh)) in
    (rest.0, omega (arith, rest.1))
fill_idle-held attempts timeout index (source_job name source ∷ waiting) outcomes others h =
    let fresh : held index outcomes ≡ 0 = ground (arith, h index) in
    elim (Dispatched-cases (dispatch (attempts index) name timeout)) [
      | inl (result, undone) ↦
          let rest =
            fill_idle-held attempts timeout (suc index) waiting (put index result outcomes) others
              (λ i. ground (arith, h i, held-put i index result outcomes fresh)) in
          rw (undone, fill_idle) (rest.0, omega (arith, rest.1))
      | inr (deadline, destination, done) ↦
          rw (done, fill_idle) (λ i. ground (arith, h i), omega arith)
    ]

fill-held :
    (attempts : ℕ → Attempt) (timeout : ℕ) (worker : WriterState) (index : ℕ) (waiting : List Job)
    (outcomes : Outcomes) (others : ℕ → ℕ)
    → ((i : ℕ) → held i outcomes + holds i worker + others i ≤ taken i index)
    → let filled = fill attempts timeout worker index waiting outcomes in
      ((i : ℕ)
        → held i filled.outcomes + holds i filled.state + others i ≤ taken i filled.next_index)
      × (filled.next_index + length filled.waiting ≡ index + length waiting)
unfolding fill
fill-held attempts timeout idle index waiting outcomes others h =
    fill_idle-held attempts timeout index waiting outcomes others (λ i. omega (arith, h i))
fill-held attempts timeout (starting deadline) index waiting outcomes others h = (h, refl)
fill-held attempts timeout (active held_index deadline destination) index waiting outcomes others
      h =
    (h, refl)

fill_all-held :
    (attempts : ℕ → Attempt) (timeout : ℕ) (cleaned : List Text) (workers : List WriterState)
    (index : ℕ) (waiting : List Job) (outcomes : Outcomes) (others : ℕ → ℕ)
    → ((i : ℕ) → held i outcomes + busy i workers + others i ≤ taken i index)
    → let s = fill_all attempts timeout cleaned workers index waiting outcomes in
      ((i : ℕ) → held i s.outcomes + busy i s.workers + others i ≤ taken i s.next_index)
      × (s.next_index + length s.waiting ≡ index + length waiting)
unfolding fill_all
fill_all-held attempts timeout cleaned [] index waiting outcomes others h = (h, refl)
fill_all-held attempts timeout cleaned (worker ∷ workers) index waiting outcomes others h =
    let filled = fill attempts timeout worker index waiting outcomes in
    let here =
      fill-held attempts timeout worker index waiting outcomes (λ i. busy i workers + others i)
        (λ i. omega (arith, h i)) in
    let rest =
      fill_all-held attempts timeout cleaned workers filled.next_index filled.waiting
        filled.outcomes (λ i. holds i filled.state + others i) (λ i. omega (arith, here.0 i)) in
    (λ i. omega (arith, rest.0 i), omega (arith, rest.1, here.1))

pub assign-IsLedger :
    (attempts : ℕ → Attempt) (timeout count : ℕ) (s : Supervision)
    → IsLedger count s
    → IsLedger count (assign attempts timeout s)
unfolding assign
assign-IsLedger attempts timeout count s (balanced, queue) =
    let all =
      fill_all-held attempts timeout s.cleaned s.workers s.next_index s.waiting s.outcomes (λ i. 0)
        (λ i. omega (arith, balanced i)) in
    (λ i. omega (arith, all.0 i), omega (arith, all.1, queue))

taken_le : (i n : ℕ) → taken i n ≤ 1
taken_le i n = ground arith

pub polls-IsLedger :
    (round : Round) (count : ℕ) (s : Supervision)
    → IsLedger count s
    → IsLedger count (after_polls s (poll_round round s))
unfolding after_polls poll_round
polls-IsLedger round count s (balanced, queue) =
    let single : (j : ℕ) → held j s.outcomes + busy j s.workers ≤ 1 =
      λ j. omega (arith, balanced j, taken_le j s.next_index) in
    let all = poll_all-held round.sights 0 s.workers s.outcomes s.cleaned single in
    (λ i. omega (arith, all i, balanced i), queue)
