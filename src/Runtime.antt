-- ===== src/Runtime.antt =====
-- `DatasetRuntime` of dataset_rt/runtime.py: `_cache_write_result`, `_successful_cache_paths`, the
-- error summary, `_write_sources`, `cached_dataset` and `from_cache_sources`. What the native writer
-- returns is an argument, and `spell` makes the path of a text.
pub mod Sources
use dataset_rt.Prelude.{
  ℕ, ltb, ◌&&◌, not, map, Bool, true, false, List, [], ◌∷◌, String, str_eq, if◌then◌else◌,
}
use dataset_rt.Python.{Result, ok, err, Error, value_error, ◌>>=◌, traverse}
use dataset_rt.Config.{ReaderConfig}
use dataset_rt.Dataset.{Native, CachedDataset, load}
use dataset_rt.Writer.{Text, Message, about, CacheWriteResult, success, failure}
use dataset_rt.Writer.Jobs.{CacheSource}
use dataset_rt.Writer.Pool.{Verdict}
use dataset_rt.Writer.Supervise.{Round}
use dataset_rt.Writer.Stop.{Shutdown, StopError}
use dataset_rt.Writer.Parallel.{
  Startup, Written, results, propagated, stop_failed, unfinished, write_parallel,
}

-- A status, a source's name, and a path or a message.
abbrev pub RawResult : Type 0
RawResult = String × Text × Text

unfoldable pub cache_write_result : RawResult → Result CacheWriteResult
cache_write_result (status, source_name, detail) =
    if str_eq status "success"
    then ok (success source_name detail)
    else if str_eq status "error"
    then ok (failure source_name (about "" detail))
    else err (value_error "unknown cache write result status")

unfoldable pub successful_cache_paths : List CacheWriteResult → List Text
successful_cache_paths [] = []
successful_cache_paths (success source_name path ∷ outcomes) =
    path ∷ successful_cache_paths outcomes
successful_cache_paths (failure source_name message ∷ outcomes) = successful_cache_paths outcomes

-- The summary of the failures, before it is joined to a text.
pub data Summary : Type 0 where
  no_sources : Summary
  no_caches : List (Text × Message) → Summary

unfoldable pub failures : List CacheWriteResult → List (Text × Message)
failures [] = []
failures (success source_name path ∷ outcomes) = failures outcomes
failures (failure source_name message ∷ outcomes) = (source_name, message) ∷ failures outcomes

unfoldable pub format_error : List CacheWriteResult → Summary
unfolding failures
format_error outcomes = elim (failures outcomes) [
  | [] ↦ no_sources
  | (first ∷ others) ↦ no_caches (first ∷ others)
]

-- How a call that writes ends: with outcomes, with an error, with an exception of a child, with
-- an error of the shutdown, or not within the rounds of its supervision.
pub data Ended (A : Type 0) : Type 0 where
  returned : A → Ended A
  failed : Error → Ended A
  propagated_from : Verdict → Ended A
  stop_failed_from : StopError → Ended A
  unended : Ended A

-- What the pool and the native writer meet.
pub record Writing : Type 0 where
  pub casefold : Text → Text
  pub normalize : Text → Text
  pub startups : ℕ → Startup
  pub shutdowns : ℕ → Shutdown
  pub rounds : List Round
  pub native : Result (List RawResult)

-- The fields of `WriterConfig` that choose how to write.
pub record Processes : Type 0 where
  pub num_processes : ℕ
  pub process_timeout : ℕ
  pub profiled : Bool

unfoldable pub of_pool : Written → Ended (List CacheWriteResult)
of_pool (results outcomes) = returned outcomes
of_pool (propagated verdict) = propagated_from verdict
of_pool (stop_failed error) = stop_failed_from error
of_pool unfinished = unended

unfoldable pub of_native : Result (List CacheWriteResult) → Ended (List CacheWriteResult)
of_native (ok outcomes) = returned outcomes
of_native (err error) = failed error

-- `_write_sources`
unfoldable pub write_sources :
    Writing → Processes → Text → List CacheSource → Ended (List CacheWriteResult)
unfolding cache_write_result of_pool of_native traverse
write_sources w config path sources =
    if ltb 0 config.num_processes && not config.profiled
    then of_pool (
        write_parallel w.casefold w.normalize w.startups w.shutdowns path config.num_processes
          config.process_timeout w.rounds sources)
    else of_native (w.native >>= λ raw. traverse cache_write_result raw)

module _ (native : Native) where
  -- `cached_dataset`
  unfoldable pub cached_dataset :
      (String → String) → List String → ReaderConfig → ℕ → Result (CachedDataset native)
  cached_dataset resolve paths config num_workers = load native resolve paths config num_workers

  pub data SourcesResult : Type 0 where
    dataset_success : CachedDataset native → List CacheWriteResult → SourcesResult
    dataset_error : List CacheWriteResult → Summary → SourcesResult

  unfoldable pub loaded :
      List CacheWriteResult → Result (CachedDataset native) → Ended SourcesResult
  loaded outcomes (ok dataset) = returned (dataset_success dataset outcomes)
  loaded outcomes (err error) = failed error

  unfoldable pub load_successes :
      (Text → String)
      → (String → String)
      → ReaderConfig
      → ℕ
      → List CacheWriteResult
      → List Text
      → Ended SourcesResult
  unfolding loaded cached_dataset
  load_successes spell resolve config num_workers outcomes [] =
      returned (dataset_error outcomes (format_error outcomes))
  load_successes spell resolve config num_workers outcomes (path ∷ paths) =
      loaded outcomes (cached_dataset resolve (map spell (path ∷ paths)) config num_workers)

  unfoldable pub after_writing :
      (Text → String)
      → (String → String)
      → ReaderConfig
      → ℕ
      → Ended (List CacheWriteResult)
      → Ended SourcesResult
  unfolding load_successes successful_cache_paths
  after_writing spell resolve config num_workers (returned outcomes) =
      load_successes spell resolve config num_workers outcomes (successful_cache_paths outcomes)
  after_writing spell resolve config num_workers (failed error) = failed error
  after_writing spell resolve config num_workers (propagated_from verdict) = propagated_from verdict
  after_writing spell resolve config num_workers (stop_failed_from error) = stop_failed_from error
  after_writing spell resolve config num_workers unended = unended

  -- `from_cache_sources`
  unfoldable pub from_cache_sources :
      (Text → String)
      → (String → String)
      → Writing
      → Processes
      → Text
      → ReaderConfig
      → ℕ
      → List CacheSource
      → Ended SourcesResult
  unfolding after_writing write_sources
  from_cache_sources spell resolve w writer_config path config num_workers sources =
      after_writing spell resolve config num_workers (write_sources w writer_config path sources)
