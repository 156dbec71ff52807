-- ===== src/Writer/Ending.antt =====
-- How a call of `write_parallel` of dataset_rt/writer.py ends: what it tells of each source, and the
-- part that the shutdown of the pool has in it.
use dataset_rt.Prelude.{ℕ, ◌≡◌, ◌≢◌, Option, none, some, List, length}
use dataset_rt.Writer.{Text, Message, fixed, about, diagnostic, Raised}
use dataset_rt.Writer.Jobs.{Job}
use dataset_rt.Writer.Pool.{system_error}
use dataset_rt.Writer.Supervise.{
  Supervision, Round, Supervised, pool_failure, interrupted, running, supervise,
}
use dataset_rt.Writer.Results.{left_by}
use dataset_rt.Writer.Stop.{Shutdown, StopError, stop_all}
use dataset_rt.Writer.Told.{Told}
use dataset_rt.Writer.Parallel.{
  Pool, pool, start_failed, Written, results, propagated, stop_failed, unfinished, opened,
  shutdowns_of,
}

-- How the `try` block ends: a pool that does not start ends as supervision does that meets an error
-- of the system at once.
abbrev pub attempted : ℕ → List Round → List Job → Pool → Supervised
attempted timeout rounds all (pool workers) =
    supervise (length all) timeout rounds (opened all workers)
attempted timeout rounds all (start_failed error workers) =
    interrupted (system_error error) (opened all workers)

-- The error of a job that the pool left without an outcome.
abbrev pub pool_message : Supervised → Message
pool_message (pool_failure message s) = message
pool_message (interrupted (system_error error) s) = about "writer pool failed: " (diagnostic error)
pool_message ended = fixed "writer pool stopped"

-- How the `try` block bears out the end of a call: its results are those of the outcomes it left, an
-- exception is the one that interrupted it and no error of the system, and it is without an end
-- where the call is.
abbrev pub FromPool : Text → List Job → Supervised → Written → Type 0
FromPool path all ended (results told) =
    Told path (left_by ended).outcomes (pool_message ended) 0 all told
FromPool path all ended (propagated verdict) =
    ((left : Supervision) × (ended ≡ interrupted verdict left))
    × ((error : Raised) → verdict ≢ system_error error)
FromPool path all ended (stop_failed error) = ⊥
FromPool path all ended unfinished = (left : Supervision) × (ended ≡ running left)

-- The first error of the shutdown of the workers that are left.
abbrev pub shutdown_error : (ℕ → Shutdown) → Supervised → Option StopError
shutdown_error shutdowns ended = (stop_all (shutdowns_of shutdowns 0 (left_by ended).workers)).error

-- The end of a call whose shutdown has its part in it.
abbrev pub Accounts : (ℕ → Shutdown) → Text → List Job → Supervised → Written → Type 0
Accounts shutdowns path all ended (results told) =
    (shutdown_error shutdowns ended ≡ none)
    × FromPool path all ended (results told)
    × (length told ≡ length all)
Accounts shutdowns path all ended (propagated verdict) =
    (shutdown_error shutdowns ended ≡ none) × FromPool path all ended (propagated verdict)
Accounts shutdowns path all ended (stop_failed error) = shutdown_error shutdowns ended ≡ some error
Accounts shutdowns path all ended unfinished = FromPool path all ended unfinished
