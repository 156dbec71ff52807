-- ===== src/Writer/Pool.antt =====
-- The parent's side of the writer pool: `Idle`, `Starting`, `Active`, `_poll`, `_dispatch` and
-- `_supervise` of dataset_rt/writer.py. What the parent observes, a child's message, its exit
-- code, the clock, the outcome of pickling and the state of the temporary path, is an argument of
-- the step that observes it. The clock counts ticks.
use dataset_rt.Prelude.{
  ℕ, suc, ◌+◌, leb, ◌==◌, Bool, true, false, Option, none, some, List, [], ◌∷◌, if◌then◌else◌,
}
use dataset_rt.Writer.{
  Text, Message, fixed, about, CacheWriteResult, failure, Raised, diagnostic, ExitStatus,
}

-- `Starting | Idle | Active`
pub data WriterState : Type 0 where
  starting : (deadline : ℕ) → WriterState
  idle : WriterState
  active : (index deadline : ℕ) (destination : Text) → WriterState

-- What a child sends. `unknown` is an object of any other shape.
pub data Report : Type 0 where
  ready : Report
  finished : CacheWriteResult → Report
  keyboard : Text → Report
  exited : ExitStatus → Report
  failed : Text → Report
  unknown : Report

-- What `_receive` gives: a report, or the failure of the pipe.
pub data Received : Type 0 where
  report : Report → Received
  broken : Text → Received

-- What one call of `_poll` observes; the exit code is already printed, and `removal` is the error of
-- the system that the removal of the destination raises.
pub record Sight : Type 0 where
  pub message : Option Received
  pub exit_code : Option Text
  pub clock : ℕ
  pub removal : Option Raised

-- `dict[int, CacheWriteResult]`
abbrev pub Outcomes : Type 0
Outcomes = List (ℕ × CacheWriteResult)

-- `outcomes[index] = result`
unfoldable pub put : ℕ → CacheWriteResult → Outcomes → Outcomes
put index result [] = (index, result) ∷ []
put index result ((key, value) ∷ outcomes) =
    let rest = put index result outcomes in
    if key == index then (index, result) ∷ outcomes else (key, value) ∷ rest

-- How a call of `_poll` ends: with `Ok(None)`, with `Err(Failed(message))`, or with
-- `KeyboardInterrupt`, `SystemExit` or an error of the system.
pub data Verdict : Type 0 where
  fine : Verdict
  stopped : Message → Verdict
  keyboard_interrupt : Text → Verdict
  system_exit : ExitStatus → Verdict
  system_error : Raised → Verdict

-- The worker, the outcomes and the destinations that were cleaned, after a call of `_poll`.
pub record Turn : Type 0 where
  pub state : WriterState
  pub outcomes : Outcomes
  pub cleaned : List Text
  pub verdict : Verdict

unfoldable pub expired : ℕ → WriterState → Bool
expired clock (starting deadline) = leb deadline clock
expired clock idle = false
expired clock (active index deadline destination) = leb deadline clock

-- The checks behind the message: the exit code, then the deadline.
unfoldable pub check_child : Sight → WriterState → Verdict
unfolding expired
check_child sight state = elim sight.exit_code [
  | none ↦
      if expired sight.clock state then stopped (fixed "writer process timeout exceeded") else fine
  | some code ↦ stopped (about "writer child exited with code " code)
]

abbrev pub violation : Verdict
violation = stopped (fixed "writer protocol violation")

unfoldable pub take_report : Sight → Report → WriterState → Outcomes → List Text → Turn
unfolding check_child
take_report sight ready state outcomes cleaned = record {
  state = idle;
  outcomes = outcomes;
  cleaned = cleaned;
  verdict = check_child sight idle;
}
take_report sight (finished result) (active index deadline destination) outcomes cleaned =
    elim sight.removal [
      | none ↦ record {
        state = idle;
        outcomes = put index result outcomes;
        cleaned = destination ∷ cleaned;
        verdict = check_child sight idle;
      }
      | some error ↦ record {
        state = idle;
        outcomes = put index result outcomes;
        cleaned = cleaned;
        verdict = system_error error;
      }
    ]
take_report sight (finished result) idle outcomes cleaned = record {
  state = idle;
  outcomes = outcomes;
  cleaned = cleaned;
  verdict = violation;
}
take_report sight (finished result) (starting deadline) outcomes cleaned = record {
  state = starting deadline;
  outcomes = outcomes;
  cleaned = cleaned;
  verdict = violation;
}
take_report sight (keyboard text) state outcomes cleaned = record {
  state = state;
  outcomes = outcomes;
  cleaned = cleaned;
  verdict = keyboard_interrupt text;
}
take_report sight (exited status) state outcomes cleaned = record {
  state = state;
  outcomes = outcomes;
  cleaned = cleaned;
  verdict = system_exit status;
}
take_report sight (failed text) state outcomes cleaned = record {
  state = state;
  outcomes = outcomes;
  cleaned = cleaned;
  verdict = stopped (about "" text);
}
take_report sight unknown state outcomes cleaned = record {
  state = state;
  outcomes = outcomes;
  cleaned = cleaned;
  verdict = violation;
}

unfoldable pub take_message : Sight → Option Received → WriterState → Outcomes → List Text → Turn
unfolding take_report check_child
take_message sight none state outcomes cleaned = record {
  state = state;
  outcomes = outcomes;
  cleaned = cleaned;
  verdict = check_child sight state;
}
take_message sight (some (broken text)) state outcomes cleaned = record {
  state = state;
  outcomes = outcomes;
  cleaned = cleaned;
  verdict = stopped (about "" text);
}
take_message sight (some (report sent)) state outcomes cleaned =
    take_report sight sent state outcomes cleaned

-- A ready completion is collected before the exit code and the deadline are looked at.
unfoldable pub poll : Sight → WriterState → Outcomes → List Text → Turn
unfolding take_message
poll sight state outcomes cleaned = take_message sight sight.message state outcomes cleaned

-- The workers after every call of `_poll` of a round.
pub record Polls : Type 0 where
  pub workers : List WriterState
  pub outcomes : Outcomes
  pub cleaned : List Text
  pub verdict : Verdict

-- The first `Err` of the list decides, unless a later call raises.
unfoldable pub first_failure : Verdict → Verdict → Verdict
first_failure (stopped message) fine = stopped message
first_failure (stopped message) (stopped later) = stopped message
first_failure (stopped message) (keyboard_interrupt text) = keyboard_interrupt text
first_failure (stopped message) (system_exit status) = system_exit status
first_failure (stopped message) (system_error error) = system_error error
first_failure fine later = later
first_failure (keyboard_interrupt text) later = keyboard_interrupt text
first_failure (system_exit status) later = system_exit status
first_failure (system_error error) later = system_error error

unfoldable pub raises : Verdict → Bool
raises fine = false
raises (stopped message) = false
raises (keyboard_interrupt text) = true
raises (system_exit status) = true
raises (system_error error) = true

-- `[_poll(worker, outcomes) for worker in workers]`, worker by worker from a number. A call that
-- raises leaves the workers behind it as they are.
unfoldable pub poll_all : (ℕ → Sight) → ℕ → List WriterState → Outcomes → List Text → Polls
unfolding poll first_failure raises
poll_all see number [] outcomes cleaned = record {
  workers = [];
  outcomes = outcomes;
  cleaned = cleaned;
  verdict = fine;
}
poll_all see number (worker ∷ workers) outcomes cleaned =
    let turn = poll (see number) worker outcomes cleaned in
    let rest = poll_all see (suc number) workers turn.outcomes turn.cleaned in
    if raises turn.verdict
    then record {
      workers = turn.state ∷ workers;
      outcomes = turn.outcomes;
      cleaned = turn.cleaned;
      verdict = turn.verdict;
    }
    else record {
      workers = turn.state ∷ rest.workers;
      outcomes = rest.outcomes;
      cleaned = rest.cleaned;
      verdict = first_failure turn.verdict rest.verdict;
    }

-- What `_destination` finds: an error of the system, a path that exists, or a free path.
pub data DestinationCheck : Type 0 where
  unreadable : Raised → DestinationCheck
  occupied : Text → DestinationCheck
  free : Text → DestinationCheck

-- What one call of `_dispatch` observes.
pub record Attempt : Type 0 where
  pub pickling : Option Raised
  pub destination : DestinationCheck
  pub clock : ℕ

-- `CacheWriteError | Active`
pub data Dispatched : Type 0 where
  declined : CacheWriteResult → Dispatched
  assigned : (deadline : ℕ) (destination : Text) → Dispatched

dispatch_to : ℕ → Text → ℕ → DestinationCheck → Dispatched
dispatch_to clock name timeout (unreadable error) =
    declined (failure name (about "destination preflight failed: " (diagnostic error)))
dispatch_to clock name timeout (occupied path) =
    declined (failure name (about "refusing unowned temporary cache: " path))
dispatch_to clock name timeout (free path) = assigned (clock + timeout) path

unfoldable pub dispatch : Attempt → Text → ℕ → Dispatched
unfolding dispatch_to
dispatch attempt name timeout = elim attempt.pickling [
  | some error ↦ declined (failure name (about "source serialization failed: " (diagnostic error)))
  | none ↦ dispatch_to attempt.clock name timeout attempt.destination
]
