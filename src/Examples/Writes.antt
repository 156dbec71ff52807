-- ===== src/Examples/Writes.antt =====
-- Instances of the theorems on the parallel writer.
use dataset_rt.Prelude.{ℕ, ◌≡◌, ◌↔◌, ◌⊎◌, refl, arith, none, some, List, [], ◌∷◌, false, true}
use dataset_rt.Writer.{Text, Message, fixed, about, CacheWriteResult, success, failure}
use dataset_rt.Writer.Names.{validate_source_name, accepted}
use dataset_rt.Writer.Names.Segment.{IsSegment, validate_source_name_exact}
use dataset_rt.Writer.Jobs.{CacheSource, Job, source_job, read, preflight, read_jobs}
use dataset_rt.Writer.Unique.{destinations, Distinct, preflight_accepts, preflight_refuses}
use dataset_rt.Writer.Pool.{starting, idle, Sight, Attempt, free, report, ready, finished}
use dataset_rt.Writer.Supervise.{Supervision, Round, assign, supervise}
use dataset_rt.Writer.Ledger.{IsLedger}
use dataset_rt.Writer.Results.{left_by, Settled}
use dataset_rt.Writer.Parallel.{opened}
use dataset_rt.Writer.Stop.{Shutdown}
use dataset_rt.Writer.Outcome.{supervise-IsLedger}
use dataset_rt.Writer.Progress.{NoneIdle, IsEnd, assign_keeps_busy, silent_worker_ends}

abbrev same : Text → Text
same t = t

abbrev source : ℕ → ℕ → CacheSource
source letter identity = record { name = read (letter ∷ []); identity = identity }

abbrev sources : List CacheSource
sources = source 97 0 ∷ source 98 1 ∷ []

abbrev all_jobs : List Job
all_jobs = source_job (97 ∷ []) (source 97 0) ∷ source_job (98 ∷ []) (source 98 1) ∷ []

validate_source_name_exact_example :
    (validate_source_name same (97 ∷ []) ≡ accepted (97 ∷ [])) ↔ IsSegment same (97 ∷ [])
validate_source_name_exact_example = validate_source_name_exact same (97 ∷ [])

preflight_accepts_example : (◌≡◌ {A = ℕ} 2 2) × Distinct same same ((97 ∷ []) ∷ (98 ∷ []) ∷ [])
unfolding preflight validate_source_name dataset_rt.Writer.Names.contains
    dataset_rt.Writer.Names.encoded_length dataset_rt.Writer.Names.encoded_size
preflight_accepts_example = preflight_accepts same same sources all_jobs refl

abbrev twice : List CacheSource
twice = source 97 0 ∷ source 97 1 ∷ []

abbrev refusal : CacheWriteResult
refusal = failure (97 ∷ []) (about "duplicate generated cache path: " (97 ∷ []))

preflight_refuses_example :
    (◌≡◌ {A = ℕ} 2 2)
    × (¬ Distinct same same (destinations same same (read_jobs same same 0 twice)))
unfolding preflight validate_source_name dataset_rt.Writer.Names.contains
    dataset_rt.Writer.Names.encoded_length dataset_rt.Writer.Names.encoded_size
preflight_refuses_example = preflight_refuses same same twice (refusal ∷ refusal ∷ []) refl

abbrev silent : Sight
silent = record { message = none; exit_code = none; clock = 3; removal = none }

abbrev says_ready : Sight
says_ready = record { message = some (report ready); exit_code = none; clock = 3; removal = none }

abbrev says_done : Sight
says_done = record {
  message = some (report (finished (success (97 ∷ []) (98 ∷ []))));
  exit_code = none;
  clock = 3;
  removal = none;
}

abbrev attempt : ℕ → Attempt
attempt index = record { pickling = none; destination = free (index ∷ []); clock = 4 }

abbrev ready_round : Round
ready_round = record { sights = λ worker. says_ready; attempts = attempt }

abbrev done_round : Round
done_round = record { sights = λ worker. says_done; attempts = attempt }

abbrev silent_round : Round
silent_round = record { sights = λ worker. silent; attempts = attempt }

abbrev rounds : List Round
rounds = ready_round ∷ done_round ∷ done_round ∷ []

abbrev fresh : Supervision
fresh = opened all_jobs (starting 10 ∷ [])

fresh-IsLedger : IsLedger 2 fresh
fresh-IsLedger = (λ i. ground arith, refl)

supervise-IsLedger_example :
    IsLedger 2 (left_by (supervise 2 10 rounds fresh)) × Settled 2 (supervise 2 10 rounds fresh)
supervise-IsLedger_example = supervise-IsLedger 2 10 rounds fresh fresh-IsLedger

abbrev written : CacheWriteResult
written = success (97 ∷ []) (98 ∷ [])

abbrev finished_pool : Supervision
finished_pool = record {
  workers = idle ∷ [];
  next_index = 2;
  waiting = [];
  outcomes = (0, written) ∷ (1, written) ∷ [];
  cleaned = (1 ∷ []) ∷ (0 ∷ []) ∷ [];
}

-- A worker that is alive until it reads the end of its mailbox.
abbrev obedient : Shutdown
obedient = record {
  alive_at_entry = true;
  alive_behind_mailbox = false;
  alive_behind_terminate = false;
  alive_behind_kill = false;
  mailbox_full = false;
  is_dir = false;
  is_symlink = false;
  removal = none;
}

assign_keeps_busy_example :
    ((assign attempt 10 fresh).waiting ≡ []) ⊎ NoneIdle (assign attempt 10 fresh).workers
assign_keeps_busy_example = assign_keeps_busy attempt 10 fresh

silent_worker_ends_example :
    IsEnd (supervise 2 10 (silent_round ∷ []) (opened all_jobs (starting 2 ∷ [])))
silent_worker_ends_example =
    silent_worker_ends 2 10 0 silent_round [] (opened all_jobs (starting 2 ∷ [])) (starting 2) refl
      refl (omega arith)
