-- ===== src/Writer/Supervise.antt =====
-- `_supervise` of dataset_rt/writer.py, round by round. What a round observes is an argument.
use dataset_rt.Prelude.{ℕ, suc, leb, List, [], ◌∷◌, length, if◌then◌else◌}
use dataset_rt.Writer.{Text, Message, failure}
use dataset_rt.Writer.Jobs.{Job, source_job, refused}
use dataset_rt.Writer.Pool.{
  WriterState, starting, idle, active, Outcomes, put, Sight, Attempt, declined, assigned, dispatch,
  Verdict, fine, stopped, keyboard_interrupt, system_exit, system_error, Polls, poll_all,
}

-- The state of `_supervise`: `waiting` holds the jobs from `next_index` on.
pub record Supervision : Type 0 where
  pub workers : List WriterState
  pub next_index : ℕ
  pub waiting : List Job
  pub outcomes : Outcomes
  pub cleaned : List Text

-- A worker and the jobs behind its turn to be given work.
pub record Filled : Type 0 where
  pub state : WriterState
  pub next_index : ℕ
  pub waiting : List Job
  pub outcomes : Outcomes

-- The inner loop at an idle worker: refused and undeliverable jobs get their outcome at once, and
-- the first job that is dispatched ends it.
unfoldable pub fill_idle : (ℕ → Attempt) → ℕ → ℕ → List Job → Outcomes → Filled
unfolding dispatch put
fill_idle attempts timeout index [] outcomes = record {
  state = idle;
  next_index = index;
  waiting = [];
  outcomes = outcomes;
}
fill_idle attempts timeout index (refused name message ∷ waiting) outcomes =
    fill_idle attempts timeout (suc index) waiting (put index (failure name message) outcomes)
fill_idle attempts timeout index (source_job name source ∷ waiting) outcomes =
    elim (dispatch (attempts index) name timeout) [
      | declined result ↦ fill_idle attempts timeout (suc index) waiting (put index result outcomes)
      | assigned deadline destination ↦ record {
        state = active index deadline destination;
        next_index = suc index;
        waiting = waiting;
        outcomes = outcomes;
      }
    ]

unfoldable pub fill : (ℕ → Attempt) → ℕ → WriterState → ℕ → List Job → Outcomes → Filled
unfolding fill_idle
fill attempts timeout idle index waiting outcomes =
    fill_idle attempts timeout index waiting outcomes
fill attempts timeout (starting deadline) index waiting outcomes = record {
  state = starting deadline;
  next_index = index;
  waiting = waiting;
  outcomes = outcomes;
}
fill attempts timeout (active held deadline destination) index waiting outcomes = record {
  state = active held deadline destination;
  next_index = index;
  waiting = waiting;
  outcomes = outcomes;
}

unfoldable pub fill_all :
    (ℕ → Attempt) → ℕ → List Text → List WriterState → ℕ → List Job → Outcomes → Supervision
unfolding fill
fill_all attempts timeout cleaned [] index waiting outcomes = record {
  workers = [];
  next_index = index;
  waiting = waiting;
  outcomes = outcomes;
  cleaned = cleaned;
}
fill_all attempts timeout cleaned (worker ∷ workers) index waiting outcomes =
    let filled = fill attempts timeout worker index waiting outcomes in
    let rest =
      fill_all attempts timeout cleaned workers filled.next_index filled.waiting filled.outcomes in
    record {
      workers = filled.state ∷ rest.workers;
      next_index = rest.next_index;
      waiting = rest.waiting;
      outcomes = rest.outcomes;
      cleaned = rest.cleaned;
    }

-- What the parent observes in one round: a sight of each worker, by its place in the pool, and
-- an attempt to dispatch each job, by its index.
pub record Round : Type 0 where
  pub sights : ℕ → Sight
  pub attempts : ℕ → Attempt

-- How supervision stands: `Ok(None)`, `Err(Failed(message))`, an exception, or no end within the
-- rounds. Each carries the state it leaves.
pub data Supervised : Type 0 where
  complete : Supervision → Supervised
  pool_failure : Message → Supervision → Supervised
  interrupted : Verdict → Supervision → Supervised
  running : Supervision → Supervised

-- What is left when a round ends after its polls.
unfoldable pub after_polls : Supervision → Polls → Supervision
after_polls s polls = record {
  workers = polls.workers;
  next_index = s.next_index;
  waiting = s.waiting;
  outcomes = polls.outcomes;
  cleaned = polls.cleaned;
}

unfoldable pub assign : (ℕ → Attempt) → ℕ → Supervision → Supervision
unfolding fill_all
assign attempts timeout s =
    fill_all attempts timeout s.cleaned s.workers s.next_index s.waiting s.outcomes

unfoldable pub poll_round : Round → Supervision → Polls
unfolding poll_all
poll_round round s = poll_all round.sights 0 s.workers s.outcomes s.cleaned

-- The loop, for `count` jobs.
unfoldable pub supervise : ℕ → ℕ → List Round → Supervision → Supervised
unfolding assign poll_round after_polls
supervise count timeout [] s = if leb count (length s.outcomes) then complete s else running s
supervise count timeout (round ∷ rounds) s =
    let polls = poll_round round s in
    let left = after_polls s polls in
    let next = supervise count timeout rounds (assign round.attempts timeout left) in
    if leb count (length s.outcomes) then complete s else elim polls.verdict [
      | fine ↦ next
      | stopped message ↦ pool_failure message left
      | keyboard_interrupt text ↦ interrupted (keyboard_interrupt text) left
      | system_exit status ↦ interrupted (system_exit status) left
      | system_error error ↦ interrupted (system_error error) left
    ]
