-- ===== src/Writer/Child.antt =====
-- The child's side of the writer pool: `_run_source` and `_worker` of dataset_rt/writer.py. What the
-- native writer does with a source, and what the mailbox gives, are arguments; sending succeeds.
pub mod Protocol
use dataset_rt.Prelude.{
  List, [], ◌∷◌, ◌++◌, ℕ, take, Option, none, some, String, str_eq, if◌then◌else◌,
}
use dataset_rt.Writer.{
  Text, Message, about, CacheWriteResult, success, failure, Raised, diagnostic, ExitCode,
  exit_status,
}
use dataset_rt.Writer.Pool.{Report, ready, finished, keyboard, exited, failed}

-- An exception that leaves the loop: process-level control flow, or any other.
pub data Escape : Type 0 where
  keyboard_interrupt : Raised → Escape
  system_exit : Raised → ExitCode → Escape
  crash : Raised → Escape

-- How `write_cache` ends: with records, with a `ValueError` or a `RuntimeError`, or otherwise.
pub data NativeWrite : Type 0 where
  records : List (String × Text × Text) → NativeWrite
  source_error : Raised → NativeWrite
  escaped : Escape → NativeWrite

pub data Ran : Type 0 where
  outcome : CacheWriteResult → Ran
  raised : Escape → Ran

-- A `ValueError` that `_run_source` raises itself.
abbrev invalid : Ran
invalid = raised (crash (record { type_name = []; rendered = none }))

unfoldable pub narrow_record : String → Text → Text → Ran
narrow_record status name detail =
    if str_eq status "success"
    then outcome (success name detail)
    else if str_eq status "error"
    then outcome (failure name (about "" (take 2048 detail)))
    else invalid

-- `_run_source`
unfoldable pub run_source : Text → NativeWrite → Ran
unfolding narrow_record
run_source name (source_error error) = outcome (failure name (about "" (diagnostic error)))
run_source name (escaped escape) = raised escape
run_source name (records ((status, written, detail) ∷ [])) = narrow_record status written detail
run_source name (records _) = invalid

-- What `jobs.get()` gives, and what the job is written with.
pub data Delivery : Type 0 where
  stop : Delivery
  undecodable : Raised → Delivery
  stranger : Delivery
  job : (name : Text) → NativeWrite → Delivery
  interruption : Escape → Delivery

-- How the process ends; a child whose mailbox is empty waits.
pub data Ending : Type 0 where
  returned : Ending
  crashed : Ending
  waiting : Ending

pub record ChildRun : Type 0 where
  pub sent : List Report
  pub ending : Ending

-- The handlers behind the loop.
unfoldable pub handle : Escape → ChildRun
unfolding exit_status
handle (keyboard_interrupt error) = record {
  sent = keyboard (diagnostic error) ∷ [];
  ending = returned;
}
handle (system_exit error given) = record {
  sent = exited (exit_status error given) ∷ [];
  ending = returned;
}
handle (crash error) = record { sent = []; ending = crashed }

abbrev send : Report → ChildRun → ChildRun
send message rest = record { sent = message ∷ rest.sent; ending = rest.ending }

unfoldable pub after_source : Ran → ChildRun → ChildRun
unfolding handle
after_source (outcome result) rest = send (finished result) rest
after_source (raised escape) rest = handle escape

-- The loop over the mailbox.
unfoldable pub serve : List Delivery → ChildRun
unfolding run_source after_source
serve [] = record { sent = []; ending = waiting }
serve (stop ∷ deliveries) = record { sent = []; ending = returned }
serve (undecodable error ∷ deliveries) = record {
  sent = failed (diagnostic error) ∷ [];
  ending = returned;
}
serve (stranger ∷ deliveries) = record { sent = []; ending = crashed }
serve (interruption escape ∷ deliveries) = handle escape
serve (job name write ∷ deliveries) = after_source (run_source name write) (serve deliveries)

-- `_worker`, whose native runtime may fail to start.
unfoldable pub worker : Option Escape → List Delivery → ChildRun
unfolding serve
worker (some escape) deliveries = handle escape
worker none deliveries = send ready (serve deliveries)
