-- ===== src/Runtime/Sources.antt =====
-- The dataset of written sources is that of the successful ones, in the order of the sources.
use dataset_rt.Prelude.{◌≡◌, ◌≢◌, map, List, [], ◌∷◌, String, ◌⊎◌, ℕ}
use dataset_rt.Python.{err, Error}
use dataset_rt.Config.{ReaderConfig}
use dataset_rt.Dataset.{Native}
use dataset_rt.Writer.{Text, Message, CacheWriteResult, success, failure}
use dataset_rt.Runtime.{
  Ended, returned, failed, no_sources, no_caches, SourcesResult, dataset_success, dataset_error,
  cached_dataset,
}

module _ (native : Native) where
  -- The paths of all the successes, in order, and the names and messages of outcomes that all failed.
  abbrev pub Successes : List CacheWriteResult → List Text → Type 0
  Successes [] [] = Unit
  Successes [] (found ∷ paths) = ⊥
  Successes (success name path ∷ outcomes) [] = ⊥
  Successes (success name path ∷ outcomes) (found ∷ paths) =
      (found ≡ path) × Successes outcomes paths
  Successes (failure name message ∷ outcomes) paths = Successes outcomes paths

  abbrev pub AllFailed : List CacheWriteResult → List (Text × Message) → Type 0
  AllFailed [] [] = Unit
  AllFailed [] (told ∷ others) = ⊥
  AllFailed (success name path ∷ outcomes) told = ⊥
  AllFailed (failure name message ∷ outcomes) [] = ⊥
  AllFailed (failure name message ∷ outcomes) (told ∷ others) =
      (told ≡ (name, message)) × AllFailed outcomes others

  -- A dataset of every successful cache, in order, or no success and an account of every failure.
  abbrev pub Audited : (Text → String) → (String → String) → SourcesResult native → Type 0
  Audited spell resolve (dataset_success dataset outcomes) =
      (paths : List Text) × Successes outcomes paths
      × (paths ≢ [])
      × (dataset.recipe.cache_paths ≡ map resolve (map spell paths))
  Audited spell resolve (dataset_error outcomes summary) =
      ((outcomes ≡ []) × (summary ≡ no_sources))
      ⊎ ((outcomes ≢ [])
          × ((told : List (Text × Message)) × (summary ≡ no_caches told) × AllFailed outcomes told))

  abbrev outcomes_of : SourcesResult native → List CacheWriteResult
  outcomes_of (dataset_success dataset outcomes) = outcomes
  outcomes_of (dataset_error outcomes summary) = outcomes

  -- How a call ends behind outcomes: with an audited result, or with the error of the native load.
  abbrev pub Accounted :
      (Text → String)
      → (String → String)
      → ReaderConfig
      → ℕ
      → List CacheWriteResult
      → Ended (SourcesResult native)
      → Type 0
  Accounted spell resolve config num_workers outcomes ended =
      ((result : SourcesResult native) × (ended ≡ returned result)
        × (outcomes_of result ≡ outcomes)
        × Audited spell resolve result)
      ⊎ ((paths : List Text) × (e : Error) × Successes outcomes paths
          × (cached_dataset native resolve (map spell paths) config num_workers ≡ err e)
          × (ended ≡ failed e))
