-- ===== src/Writer/Stop.antt =====
-- Shutdown: `TemporaryDestination.cleanup`, `WriterProcess.stop` and `_stop_all` of
-- dataset_rt/writer.py. What `is_alive` answers at each of the calls, whether the mailbox is full and
-- what the temporary path of the destination is and how `rmtree` ends are arguments.
pub mod Release
use dataset_rt.Prelude.{
  ℕ, Bool, true, false, Option, none, some, List, [], ◌∷◌, ◌++◌, ◌&&◌, not, if◌then◌else◌,
}
use dataset_rt.Writer.{Text, Raised}
use dataset_rt.Writer.Pool.{WriterState, starting, idle, active}

-- The answers of `is_alive`, in the order of the calls in `stop`.
pub record Shutdown : Type 0 where
  pub alive_at_entry : Bool
  pub alive_behind_mailbox : Bool
  pub alive_behind_terminate : Bool
  pub alive_behind_kill : Bool
  pub mailbox_full : Bool
  pub is_dir : Bool
  pub is_symlink : Bool
  pub removal : Option Raised

-- An exception of `stop`.
pub data StopError : Type 0 where
  full : StopError
  still_alive : StopError
  not_removed : Raised → StopError

pub data Signal : Type 0 where
  stop_message terminate kill join : Signal

pub record Stopped : Type 0 where
  pub signals : List Signal
  pub state : WriterState
  pub cleaned : List Text
  pub error : Option StopError

-- `cleanup`: the destinations that are removed, and the error of the removal.
unfoldable pub cleanup : Shutdown → Text → List Text × Option StopError
cleanup x destination =
    if x.is_dir && not x.is_symlink
    then elim x.removal as (λ o. List Text × Option StopError) [
      | none ↦ (destination ∷ [], none)
      | some raised ↦ ([], some (not_removed raised))
    ]
    else ([], none)

-- The end of `stop`, where the child is dead: the worker gives up its destination, then removes it.
unfoldable pub release : Shutdown → WriterState → List Signal → Stopped
unfolding cleanup
release x (active index deadline destination) signals =
    let removed = cleanup x destination in
    record { signals = signals; state = idle; cleaned = removed.0; error = removed.1 }
release x state signals = record { signals = signals; state = state; cleaned = []; error = none }

-- `stop` behind the message to an idle child.
unfoldable pub force : Shutdown → WriterState → List Signal → Stopped
unfolding release
force x state sent =
    let ended = sent ++ (if x.alive_behind_mailbox then terminate ∷ join ∷ [] else join ∷ []) in
    if x.alive_behind_terminate
    then (if x.alive_behind_kill
        then record {
          signals = ended ++ (kill ∷ join ∷ []);
          state = state;
          cleaned = [];
          error = some still_alive;
        }
        else release x state (ended ++ (kill ∷ join ∷ [])))
    else release x state ended

-- `stop`; the fourth call of `is_alive` repeats the third where the child was not killed.
unfoldable pub stop : Shutdown → WriterState → Stopped
unfolding force
stop x idle =
    if x.alive_at_entry
    then (if x.mailbox_full
        then record { signals = []; state = idle; cleaned = []; error = some full }
        else force x idle (stop_message ∷ join ∷ []))
    else force x idle []
stop x state = force x state []

-- `_stop_all`: what is cleaned, the states, and the first error.
pub record AllStopped : Type 0 where
  pub states : List WriterState
  pub cleaned : List Text
  pub error : Option StopError

abbrev pub earlier : Option StopError → Option StopError → Option StopError
earlier none later = later
earlier (some error) later = some error

unfoldable pub stop_all : List (Shutdown × WriterState) → AllStopped
unfolding stop
stop_all [] = record { states = []; cleaned = []; error = none }
stop_all ((x, state) ∷ workers) =
    let stopped = stop x state in
    let rest = stop_all workers in
    record {
      states = stopped.state ∷ rest.states;
      cleaned = stopped.cleaned ++ rest.cleaned;
      error = earlier stopped.error rest.error;
    }
