-- ===== src/Writer/Parallel.antt =====
-- `write_parallel` of dataset_rt/writer.py: preflight, the start of the pool, supervision, the
-- shutdown and the ordered results. How each `_start` ends, and what the shutdown of each worker
-- meets, are arguments; an error in resolving the path is one of the first start.
use dataset_rt.Prelude.{ℕ, zero, suc, ◌+◌, min, none, some, List, [], ◌∷◌, length}
use dataset_rt.Writer.{Text, fixed, about, CacheWriteResult, Raised, diagnostic}
use dataset_rt.Writer.Jobs.{CacheSource, Job, Preflight, jobs, errors, preflight}
use dataset_rt.Writer.Pool.{WriterState, starting, Verdict, system_error}
use dataset_rt.Writer.Supervise.{
  Supervision, Round, Supervised, complete, pool_failure, interrupted, running, supervise,
}
use dataset_rt.Writer.Results.{ordered_outcomes, left_by}
use dataset_rt.Writer.Stop.{Shutdown, StopError, stop_all}

-- How a call of `_start` ends: with an error of the system, or at a time of the clock.
pub data Startup : Type 0 where
  unstarted : Raised → Startup
  started : (clock : ℕ) → Startup

-- The workers that were started, and the error that stopped the start.
pub data Pool : Type 0 where
  pool : List WriterState → Pool
  start_failed : Raised → List WriterState → Pool

start_next : ℕ → Startup → Pool → Pool
start_next timeout (unstarted error) rest = start_failed error []
start_next timeout (started clock) (start_failed error workers) =
    start_failed error (starting (clock + timeout) ∷ workers)
start_next timeout (started clock) (pool workers) = pool (starting (clock + timeout) ∷ workers)

-- The loop that starts the pool, from a number.
unfoldable pub start_all : (ℕ → Startup) → ℕ → ℕ → ℕ → Pool
unfolding start_next
start_all startups timeout number zero = pool []
start_all startups timeout number (suc count) =
    start_next timeout (startups number) (start_all startups timeout (suc number) count)

-- How `write_parallel` ends: with its results, with an exception of a child, with the first error
-- of the shutdown, or not within the rounds.
pub data Written : Type 0 where
  results : List CacheWriteResult → Written
  propagated : Verdict → Written
  stop_failed : StopError → Written
  unfinished : Written

-- Behind the `try` block, before the shutdown: an error of the system is a failure of the pool.
unfoldable pub finish_pool : Text → List Job → Supervised → Written
finish_pool path all (complete s) =
    results (ordered_outcomes (fixed "writer pool stopped") path s.outcomes 0 all)
finish_pool path all (pool_failure message s) =
    results (ordered_outcomes message path s.outcomes 0 all)
finish_pool path all (interrupted (system_error error) s) =
    results
      (ordered_outcomes (about "writer pool failed: " (diagnostic error)) path s.outcomes 0 all)
finish_pool path all (interrupted verdict s) = propagated verdict
finish_pool path all (running s) = unfinished

-- Each worker with what its shutdown meets, from a number.
unfoldable pub shutdowns_of : (ℕ → Shutdown) → ℕ → List WriterState → List (Shutdown × WriterState)
shutdowns_of shutdowns number [] = []
shutdowns_of shutdowns number (worker ∷ workers) =
    (shutdowns number, worker) ∷ shutdowns_of shutdowns (suc number) workers

-- The `finally` block: an error of the shutdown replaces what the call would end with.
unfoldable pub close_pool : (ℕ → Shutdown) → List WriterState → Written → Written
unfolding shutdowns_of stop_all
close_pool shutdowns workers unfinished = unfinished
close_pool shutdowns workers ended = elim (stop_all (shutdowns_of shutdowns 0 workers)).error [
  | none ↦ ended
  | some error ↦ stop_failed error
]

abbrev pub opened : List Job → List WriterState → Supervision
opened all workers = record {
  workers = workers;
  next_index = 0;
  waiting = all;
  outcomes = [];
  cleaned = [];
}

unfoldable pub run_pool : (ℕ → Shutdown) → Text → ℕ → List Round → List Job → Pool → Written
unfolding finish_pool close_pool
run_pool shutdowns path timeout rounds all (pool workers) =
    let ended = supervise (length all) timeout rounds (opened all workers) in
    close_pool shutdowns (left_by ended).workers (finish_pool path all ended)
run_pool shutdowns path timeout rounds all (start_failed error workers) =
    close_pool shutdowns workers
      (results (ordered_outcomes (about "writer pool failed: " (diagnostic error)) path [] 0 all))

unfoldable pub run_jobs :
    (ℕ → Startup) → (ℕ → Shutdown) → Text → ℕ → ℕ → List Round → Preflight → Written
unfolding run_pool start_all
run_jobs startups shutdowns path processes timeout rounds (errors refusals) = results refusals
run_jobs startups shutdowns path processes timeout rounds (jobs []) = results []
run_jobs startups shutdowns path processes timeout rounds (jobs (job ∷ all)) =
    run_pool shutdowns path timeout rounds (job ∷ all)
      (start_all startups timeout 0 (min processes (length (job ∷ all))))

unfoldable pub write_parallel :
    (Text → Text)
    → (Text → Text)
    → (ℕ → Startup)
    → (ℕ → Shutdown)
    → Text
    → ℕ
    → ℕ
    → List Round
    → List CacheSource
    → Written
unfolding run_jobs
write_parallel casefold normalize startups shutdowns path processes timeout rounds sources =
    run_jobs startups shutdowns path processes timeout rounds (preflight casefold normalize sources)
