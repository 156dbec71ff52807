-- ===== src/Writer/Progress.antt =====
-- Progress of supervision: idle workers are given the waiting jobs, and a worker that stays silent
-- past its deadline ends the pool.
use dataset_rt.Prelude.{
  ℕ, zero, suc, ◌+◌, ◌≤◌, ◌≡◌, refl, subst, leb, le→leb, Bool, true, false, none, some, List, [],
  ◌∷◌, length, get_elem?, if◌then◌else◌, arith, inl, inr, ◌⊎◌, Bool-cases, Option-cases,
}
use dataset_rt.Writer.{Text, failure}
use dataset_rt.Writer.Jobs.{Job, source_job, refused}
use dataset_rt.Writer.Pool.{
  WriterState, starting, idle, active, Outcomes, put, Verdict, fine, stopped, keyboard_interrupt,
  system_exit, system_error, Attempt, Sight, dispatch, check_child, take_message, poll, Polls,
  poll_all, raises, first_failure,
}
use dataset_rt.Writer.Supervise.{
  Supervision, Round, assign, poll_round, after_polls, fill_idle, fill, fill_all, Supervised,
  complete, pool_failure, interrupted, running, supervise,
}
use dataset_rt.Writer.Ledger.{Dispatched-cases}

abbrev NotIdle : WriterState → Type 0
NotIdle idle = ⊥
NotIdle (starting deadline) = Unit
NotIdle (active index deadline destination) = Unit

-- No worker of the list is idle.
abbrev pub NoneIdle : List WriterState → Type 0
NoneIdle [] = Unit
NoneIdle (worker ∷ workers) = NotIdle worker × NoneIdle workers

fill_idle-NotIdle :
    (attempts : ℕ → Attempt) (timeout index : ℕ) (waiting : List Job) (outcomes : Outcomes)
    → let filled = fill_idle attempts timeout index waiting outcomes in
      (filled.waiting ≡ []) ⊎ NotIdle filled.state
unfolding fill_idle
fill_idle-NotIdle attempts timeout index [] outcomes = inl refl
fill_idle-NotIdle attempts timeout index (refused name message ∷ waiting) outcomes =
    fill_idle-NotIdle attempts timeout (suc index) waiting
      (put index (failure name message) outcomes)
fill_idle-NotIdle attempts timeout index (source_job name source ∷ waiting) outcomes =
    elim (Dispatched-cases (dispatch (attempts index) name timeout)) [
      | inl (result, undone) ↦
          rw (undone, fill_idle)
            (fill_idle-NotIdle attempts timeout (suc index) waiting (put index result outcomes))
      | inr (deadline, destination, done) ↦ rw (done, fill_idle) (inr tt)
    ]

fill-NotIdle :
    (attempts : ℕ → Attempt) (timeout : ℕ) (worker : WriterState) (index : ℕ) (waiting : List Job)
    (outcomes : Outcomes)
    → let filled = fill attempts timeout worker index waiting outcomes in
      (filled.waiting ≡ []) ⊎ NotIdle filled.state
unfolding fill
fill-NotIdle attempts timeout idle index waiting outcomes =
    fill_idle-NotIdle attempts timeout index waiting outcomes
fill-NotIdle attempts timeout (starting deadline) index waiting outcomes = inr tt
fill-NotIdle attempts timeout (active held deadline destination) index waiting outcomes = inr tt

fill-empty :
    (attempts : ℕ → Attempt) (timeout : ℕ) (worker : WriterState) (index : ℕ) (waiting : List Job)
    (outcomes : Outcomes)
    → waiting ≡ []
    → (fill attempts timeout worker index waiting outcomes).waiting ≡ []
unfolding fill fill_idle
fill-empty attempts timeout idle index waiting outcomes h = rw h refl
fill-empty attempts timeout (starting deadline) index waiting outcomes h = h
fill-empty attempts timeout (active held deadline destination) index waiting outcomes h = h

fill_all-empty :
    (attempts : ℕ → Attempt) (timeout : ℕ) (cleaned : List Text) (workers : List WriterState)
    (index : ℕ) (waiting : List Job) (outcomes : Outcomes)
    → waiting ≡ []
    → (fill_all attempts timeout cleaned workers index waiting outcomes).waiting ≡ []
unfolding fill_all
fill_all-empty attempts timeout cleaned [] index waiting outcomes h = h
fill_all-empty attempts timeout cleaned (worker ∷ workers) index waiting outcomes h =
    let filled = fill attempts timeout worker index waiting outcomes in
    fill_all-empty attempts timeout cleaned workers filled.next_index filled.waiting filled.outcomes
      (fill-empty attempts timeout worker index waiting outcomes h)

fill_all-NoneIdle :
    (attempts : ℕ → Attempt) (timeout : ℕ) (cleaned : List Text) (workers : List WriterState)
    (index : ℕ) (waiting : List Job) (outcomes : Outcomes)
    → let s = fill_all attempts timeout cleaned workers index waiting outcomes in
      (s.waiting ≡ []) ⊎ NoneIdle s.workers
unfolding fill_all
fill_all-NoneIdle attempts timeout cleaned [] index waiting outcomes = inr tt
fill_all-NoneIdle attempts timeout cleaned (worker ∷ workers) index waiting outcomes =
    let filled = fill attempts timeout worker index waiting outcomes in
    let rest =
      fill_all-NoneIdle attempts timeout cleaned workers filled.next_index filled.waiting
        filled.outcomes in
    elim (fill-NotIdle attempts timeout worker index waiting outcomes) [
      | inl spent ↦ inl (
          fill_all-empty attempts timeout cleaned workers filled.next_index filled.waiting
            filled.outcomes spent)
      | inr given ↦ elim rest [ inl spent ↦ inl spent | inr others ↦ inr (given, others) ]
    ]

-- After every assignment, whatever fails to be dispatched, no job waits or no worker is idle.
pub assign_keeps_busy :
    (attempts : ℕ → Attempt) (timeout : ℕ) (s : Supervision)
    → ((assign attempts timeout s).waiting ≡ []) ⊎ NoneIdle (assign attempts timeout s).workers
unfolding assign
assign_keeps_busy attempts timeout s =
    fill_all-NoneIdle attempts timeout s.cleaned s.workers s.next_index s.waiting s.outcomes

-- The deadline that a worker is held to.
abbrev pub Overdue : ℕ → WriterState → Type 0
Overdue clock idle = ⊥
Overdue clock (starting deadline) = deadline ≤ clock
Overdue clock (active index deadline destination) = deadline ≤ clock

abbrev Bad : Verdict → Type 0
Bad fine = ⊥
Bad (stopped message) = Unit
Bad (keyboard_interrupt text) = Unit
Bad (system_exit status) = Unit
Bad (system_error error) = Unit

check_child-Bad :
    (sight : Sight) (worker : WriterState)
    → Overdue sight.clock worker
    → Bad (check_child sight worker)
unfolding check_child
check_child-Bad sight idle late = absurd late
check_child-Bad sight (starting deadline) late = elim (Option-cases sight.exit_code) [
  | inl alive ↦ rw (alive, le→leb deadline sight.clock late) tt
  | inr (code, dead) ↦ rw dead tt
]
check_child-Bad sight (active index deadline destination) late =
    elim (Option-cases sight.exit_code) [
      | inl alive ↦ rw (alive, le→leb deadline sight.clock late) tt
      | inr (code, dead) ↦ rw dead tt
    ]

poll-Bad :
    (sight : Sight) (worker : WriterState) (outcomes : Outcomes) (cleaned : List Text)
    → sight.message ≡ none
    → Overdue sight.clock worker
    → Bad (poll sight worker outcomes cleaned).verdict
unfolding poll take_message
poll-Bad sight worker outcomes cleaned silent late = rw silent (check_child-Bad sight worker late)

first_failure-Bad-left : (v w : Verdict) → Bad v → Bad (first_failure v w)
unfolding first_failure
first_failure-Bad-left fine w b = absurd b
first_failure-Bad-left (stopped message) fine b = tt
first_failure-Bad-left (stopped message) (stopped later) b = tt
first_failure-Bad-left (stopped message) (keyboard_interrupt text) b = tt
first_failure-Bad-left (stopped message) (system_exit status) b = tt
first_failure-Bad-left (stopped message) (system_error error) b = tt
first_failure-Bad-left (keyboard_interrupt text) w b = tt
first_failure-Bad-left (system_exit status) w b = tt
first_failure-Bad-left (system_error error) w b = tt

first_failure-Bad-right : (v w : Verdict) → Bad w → Bad (first_failure v w)
unfolding first_failure
first_failure-Bad-right fine w b = b
first_failure-Bad-right (stopped message) w b = first_failure-Bad-left (stopped message) w tt
first_failure-Bad-right (keyboard_interrupt text) w b = tt
first_failure-Bad-right (system_exit status) w b = tt
first_failure-Bad-right (system_error error) w b = tt

raises-Bad : (v : Verdict) → raises v ≡ true → Bad v
unfolding raises
raises-Bad fine h = cc
raises-Bad (stopped message) h = tt
raises-Bad (keyboard_interrupt text) h = tt
raises-Bad (system_exit status) h = tt
raises-Bad (system_error error) h = tt

if-Bad :
    (b : Bool) (p q : Polls)
    → (b ≡ true → Bad p.verdict)
    → Bad q.verdict
    → Bad (if b then p else q).verdict
if-Bad true p q left right = left refl
if-Bad false p q left right = right

poll_all-Bad :
    (see : ℕ → Sight) (number place at_number : ℕ) (workers : List WriterState)
    (outcomes : Outcomes) (cleaned : List Text) (worker : WriterState)
    → at_number ≡ place + number
    → get_elem? workers place ≡ some worker
    → (see at_number).message ≡ none
    → Overdue (see at_number).clock worker
    → Bad (poll_all see number workers outcomes cleaned).verdict
unfolding poll_all
poll_all-Bad see number place at_number [] outcomes cleaned worker e at silent late = cc
poll_all-Bad see number zero at_number (first ∷ workers) outcomes cleaned worker e at silent late =
    let turn = poll (see number) first outcomes cleaned in
    let here : at_number ≡ number = omega (arith, e) in
    let same : worker ≡ first = cc at in
    let bad : Bad turn.verdict =
      poll-Bad (see number) first outcomes cleaned
        (subst (λ (n : ℕ). (see n).message ≡ none) here silent)
        (subst (λ (w : WriterState). Overdue (see number).clock w) same
          (subst (λ (n : ℕ). Overdue (see n).clock worker) here late)) in
    if-Bad (raises turn.verdict) _ _ (λ _. bad) (first_failure-Bad-left turn.verdict _ bad)
poll_all-Bad see number (suc place) at_number (first ∷ workers) outcomes cleaned worker e at silent
      late =
    let turn = poll (see number) first outcomes cleaned in
    let rest =
      poll_all-Bad see (suc number) place at_number workers turn.outcomes turn.cleaned worker
        (omega (arith, e)) at silent late in
    if-Bad (raises turn.verdict) _ _ (raises-Bad turn.verdict)
      (first_failure-Bad-right turn.verdict _ rest)

-- Supervision ended within the rounds it was given.
abbrev pub IsEnd : Supervised → Type 0
IsEnd (complete s) = Unit
IsEnd (pool_failure message s) = Unit
IsEnd (interrupted verdict s) = Unit
IsEnd (running s) = ⊥

verdict-IsEnd :
    (verdict : Verdict) (next : Supervised) (left : Supervision)
    → Bad verdict
    → IsEnd (elim verdict as (λ v. Supervised) [
      | fine ↦ next
      | stopped message ↦ pool_failure message left
      | keyboard_interrupt text ↦ interrupted (keyboard_interrupt text) left
      | system_exit status ↦ interrupted (system_exit status) left
      | system_error error ↦ interrupted (system_error error) left
    ])
verdict-IsEnd fine next left bad = absurd bad
verdict-IsEnd (stopped message) next left bad = tt
verdict-IsEnd (keyboard_interrupt text) next left bad = tt
verdict-IsEnd (system_exit status) next left bad = tt
verdict-IsEnd (system_error error) next left bad = tt

-- A starting or active worker that sends nothing by its deadline ends supervision in that round,
-- whatever the other workers do.
pub silent_worker_ends :
    (count timeout place : ℕ) (round : Round) (rounds : List Round) (s : Supervision)
    (worker : WriterState)
    → get_elem? s.workers place ≡ some worker
    → (round.sights place).message ≡ none
    → Overdue (round.sights place).clock worker
    → IsEnd (supervise count timeout (round ∷ rounds) s)
unfolding supervise poll_round
silent_worker_ends count timeout place round rounds s worker at silent late =
    let polls = poll_round round s in
    let left = after_polls s polls in
    let next = supervise count timeout rounds (assign round.attempts timeout left) in
    let bad : Bad polls.verdict =
      poll_all-Bad round.sights 0 place place s.workers s.outcomes s.cleaned worker (omega arith) at
        silent late in
    elim (Bool-cases (leb count (length s.outcomes))) [
      | inl full ↦ rw full tt
      | inr short ↦ rw short (verdict-IsEnd polls.verdict next left bad)
    ]
