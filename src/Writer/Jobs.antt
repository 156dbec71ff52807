-- ===== src/Writer/Jobs.antt =====
-- `SourceJob` and `_preflight` of dataset_rt/writer.py: names are read and validated, and two
-- jobs for one destination refuse the whole request before any source is iterated.
use dataset_rt.Prelude.{
  ℕ, zero, suc, ◌+◌, ◌/◌, ◌%◌, ltb, Option, none, some, ◌++◌, Bool, false, ◌||◌, List, [], ◌∷◌, map,
  if◌then◌else◌,
}
use dataset_rt.Writer.{
  Text, text_eq, Message, fixed, about, CacheWriteResult, failure, Raised, diagnostic,
}
use dataset_rt.Writer.Names.{NameResult, accepted, rejected, validate_source_name}

-- What reading `source.name` gives.
pub data NameRead : Type 0 where
  read : Text → NameRead
  raised : Raised → NameRead

-- A source, by its name and its place in the program.
pub record CacheSource : Type 0 where
  pub name : NameRead
  pub identity : ℕ

-- `SourceJob | CacheWriteError`
pub data Job : Type 0 where
  source_job : (name : Text) → CacheSource → Job
  refused : (name : Text) → Message → Job

-- `Result[list[SourceJob | CacheWriteError], list[CacheWriteError]]`
pub data Preflight : Type 0 where
  jobs : List Job → Preflight
  errors : List CacheWriteResult → Preflight

unfoldable pub job_name : Job → Text
job_name (source_job name source) = name
job_name (refused name message) = name

-- `str(n)`: the digits of a number, for fuel above it.
decimal_from : ℕ → ℕ → Text → Text
decimal_from zero n text = text
decimal_from (suc fuel) n text =
    let longer = (48 + n % 10) ∷ text in
    let rest = decimal_from fuel (n / 10) longer in if ltb n 10 then longer else rest

-- `f"source[{index}]"`
unfoldable pub source_label : ℕ → Text
unfolding decimal_from
source_label index =
    (115 ∷ 111 ∷ 117 ∷ 114 ∷ 99 ∷ 101 ∷ 91 ∷ []) ++ (decimal_from (suc index) index [] ++ (93 ∷ []))

check_name : ℕ → CacheSource → NameResult → Job
check_name index source (accepted name) = source_job name source
check_name index source (rejected message) = refused (source_label index) (fixed message)

module _ (casefold normalize : Text → Text) where
  read_job : ℕ → CacheSource → NameRead → Job
  unfolding check_name
  read_job index source (read name) = check_name index source (validate_source_name casefold name)
  read_job index source (raised error) = refused (source_label index) (about "" (diagnostic error))

  -- The first loop, from an index.
  unfoldable pub read_jobs : ℕ → List CacheSource → List Job
  unfolding read_job
  read_jobs index [] = []
  read_jobs index (source ∷ sources) =
      read_job index source source.name ∷ read_jobs (suc index) sources

  unfoldable pub destination_identity : Text → Text
  destination_identity name = normalize (casefold name)

  unfoldable pub seen_before : Text → List Text → Bool
  seen_before identity [] = false
  seen_before identity (other ∷ seen) = text_eq identity other || seen_before identity seen

  -- The second loop: the name of the first job whose destination was seen before.
  unfoldable pub find_duplicate : List Text → List Job → Option Text
  unfolding destination_identity seen_before
  find_duplicate seen [] = none
  find_duplicate seen (refused name message ∷ rest_jobs) = find_duplicate seen rest_jobs
  find_duplicate seen (source_job name source ∷ rest_jobs) =
      let rest = find_duplicate (destination_identity name ∷ seen) rest_jobs in
      if seen_before (destination_identity name) seen then some name else rest

  unfoldable pub refuse : Message → Job → CacheWriteResult
  refuse message (source_job name source) = failure name message
  refuse message (refused name own) = failure name own

  refuse_all : List Job → Option Text → Preflight
  unfolding refuse
  refuse_all all none = jobs all
  refuse_all all (some name) =
      errors (map (refuse (about "duplicate generated cache path: " name)) all)

  unfoldable pub preflight : List CacheSource → Preflight
  unfolding read_jobs find_duplicate refuse_all
  preflight sources = let all = read_jobs 0 sources in refuse_all all (find_duplicate [] all)
