-- ===== src/Options.antt =====
-- Loader options: `LoaderOptions` and `ResolvedWorkers` of
-- dataset_rt/integrations/loader_options.py. Arguments are values of any type; `maxsize` is the
-- platform's `sys.maxsize`, `methods` its start methods, and a context is what `get_context` gives
-- for one of these names.
pub mod Workers
use dataset_rt.Prelude.{
  ℕ, ◌-◌, ◌^◌, min, ℤ, pos, pos_part, ltb_ℤ, leb_ℤ, ltb, ◌==◌, Bool, true, false, ◌||◌, ◌&&◌, not,
  Option, none, some, List, [], ◌∷◌, String, str_eq, if◌then◌else◌,
}
use dataset_rt.Python.{
  Value, null, bool, int, str, opaque, Result, ok, err, Error, value_error, ◌>>=◌, ◌>>◌, raise_if,
}
use dataset_rt.Resources.{Setting, auto, count, WorkerCounts, LocalWorldSize, resolve_worker_counts}
use dataset_rt.Plan.{Partitioning, split, replicate}

-- A float, in some unit.
pub data Float : Type 0 where
  not_finite : Float
  finite : ℤ → Float

-- A process context: a name, a context object, or any other object.
pub data Context : Type 0 where
  named : String → Context
  context_object : ℕ → Context
  other_context : Context

pub record LoaderOptions : Type 0 where
  pub shuffle : Value
  pub seed : Value
  pub samples_per_epoch : Value
  pub partition : Value
  pub batch_size : Value
  pub num_workers : Value
  pub native_num_workers : Value
  pub drop_last : Value
  pub pin_memory : Value
  pub persistent_workers : Value
  pub timeout : Float
  pub context : Context
  pub prefetch : Value
  pub verbose : Value

abbrev pub max_sample_budget : ℕ → ℕ
max_sample_budget maxsize = min maxsize (2 ^ 53)

abbrev pub within : ℤ → ℕ → ℕ → Bool
within value minimum maximum = leb_ℤ (pos minimum) value && leb_ℤ value (pos maximum)

-- `_validate_count`
unfoldable pub validate_count : String → ℕ → ℕ → Value → Result (Unit {0})
validate_count name minimum maximum (str s) = raise_if (not (str_eq s "auto")) (value_error name)
validate_count name minimum maximum (int value) =
    raise_if (not (within value minimum maximum)) (value_error name)
validate_count name minimum maximum _ = err (value_error name)

unfoldable pub require_bool : String → Value → Result (Unit {0})
require_bool name (bool b) = ok tt
require_bool name _ = err (value_error name)

unfoldable pub require_int : String → ℕ → Value → Result (Unit {0})
require_int name maximum (int value) = raise_if (not (within value 1 maximum)) (value_error name)
require_int name maximum _ = err (value_error name)

unfoldable pub validate_samples : ℕ → Value → Result (Unit {0})
unfolding require_int
validate_samples maxsize null = ok tt
validate_samples maxsize value = require_int "samples_per_epoch" (max_sample_budget maxsize) value

unfoldable pub validate_timeout : Float → Result (Unit {0})
validate_timeout not_finite = err (value_error "timeout must be finite and nonnegative")
validate_timeout (finite t) =
    raise_if (ltb_ℤ t (pos 0)) (value_error "timeout must be finite and nonnegative")

unfoldable pub validate_persistence : Value → Result (Unit {0})
validate_persistence (bool b) = ok tt
validate_persistence (str s) = raise_if (not (str_eq s "auto")) (value_error "persistent_workers")
validate_persistence _ = err (value_error "persistent_workers")

-- `_validate_seed`; by now `shuffle` is a boolean.
unfoldable pub validate_seed : Value → Value → Result (Unit {0})
validate_seed shuffle (str s) = raise_if (not (str_eq s "random")) (value_error "seed")
validate_seed (bool true) (int seed) =
    raise_if (not (leb_ℤ (pos 0) seed && ltb_ℤ seed (pos (2 ^ 64)))) (value_error "seed")
validate_seed shuffle (int seed) = err (value_error "seed requires shuffle=True")
validate_seed shuffle _ = err (value_error "seed")

abbrev is_method : String → List String → Bool
is_method name [] = false
is_method name (method ∷ methods) = str_eq name method || is_method name methods

-- `_validate_context`
unfoldable pub validate_context : List String → Context → Result (Unit {0})
validate_context methods (context_object o) = ok tt
validate_context methods (named name) =
    raise_if (not (str_eq name "inherit" || is_method name methods))
      (value_error "multiprocessing_context")
validate_context methods other_context = err (value_error "multiprocessing_context")

unfoldable pub validate_partition : Value → Result (Unit {0})
validate_partition null = ok tt
validate_partition (str s) =
    raise_if (not (str_eq s "split" || str_eq s "replicate")) (value_error "worker_partition")
validate_partition _ = err (value_error "worker_partition")

-- `__post_init__`
unfoldable pub validate_options : ℕ → List String → LoaderOptions → Result (Unit {0})
unfolding validate_count require_bool require_int validate_samples validate_timeout
    validate_persistence validate_seed validate_context validate_partition
validate_options maxsize methods o = do
  validate_count "num_workers" 0 (2 ^ 32 - 1) o.num_workers
  validate_count "native_num_workers" 1 maxsize o.native_num_workers
  require_bool "shuffle" o.shuffle
  require_bool "drop_last" o.drop_last
  require_bool "pin_memory" o.pin_memory
  require_bool "verbose" o.verbose
  require_int "batch_size" maxsize o.batch_size
  validate_samples maxsize o.samples_per_epoch
  validate_timeout o.timeout
  validate_count "prefetch_factor" 1 maxsize o.prefetch
  validate_persistence o.persistent_workers
  validate_seed o.shuffle o.seed
  validate_context methods o.context
  validate_partition o.partition

-- `int | Literal["auto"]`, of a value that was validated as such.
abbrev pub setting : Value → Setting
setting (int value) = count (pos_part value)
setting _ = auto

pub record ResolvedWorkers : Type 0 where
  pub counts : WorkerCounts
  pub persistent : Bool
  pub prefetch : Option ℕ
  pub context : Option Context

-- `_resolve_persistence`
unfoldable pub resolve_persistence : Value → ℕ → Result Bool
resolve_persistence (str s) processes = do
  raise_if (not (str_eq s "auto")) (value_error "persistent_workers must be a boolean or 'auto'")
  ok (ltb 0 processes)
resolve_persistence (bool true) processes = do
  raise_if (processes == 0) (value_error "persistent_workers=True requires num_workers > 0")
  ok true
resolve_persistence (bool false) processes = ok false
resolve_persistence _ processes = err (value_error "persistent_workers must be a boolean or 'auto'")

-- `_resolve_prefetch`
unfoldable pub resolve_prefetch : Value → ℕ → Result (Option ℕ)
resolve_prefetch (str s) processes = do
  raise_if (not (str_eq s "auto"))
      (value_error "prefetch_factor must be a positive integer or 'auto'")
  ok (if ltb 0 processes then some 2 else none)
resolve_prefetch (bool b) processes = do
  raise_if (processes == 0) (value_error "prefetch_factor requires num_workers > 0")
  ok (some (if b then 1 else 0))
resolve_prefetch (int value) processes = do
  raise_if (processes == 0) (value_error "prefetch_factor requires num_workers > 0")
  ok (some (pos_part value))
resolve_prefetch _ processes =
    err (value_error "prefetch_factor must be a positive integer or 'auto'")

-- `_resolve_context`
unfoldable pub resolve_context : Context → ℕ → Option Context
resolve_context context processes = if processes == 0 then none else some context

abbrev pub is_zero : Float → Bool
is_zero (finite t) = leb_ℤ t (pos 0) && leb_ℤ (pos 0) t
is_zero not_finite = false

-- `resolve_workers`
unfoldable pub resolve_workers : LoaderOptions → ℕ → ℕ → LocalWorldSize → Result ResolvedWorkers
unfolding resolve_persistence resolve_prefetch resolve_context
resolve_workers o world_size cpus environment = do
  counts ←
      resolve_worker_counts (setting o.num_workers) (setting o.native_num_workers) world_size cpus
        environment
  raise_if (counts.processes == 0 && not (is_zero o.timeout))
      (value_error "timeout must be zero with num_workers=0")
  persistent ← resolve_persistence o.persistent_workers counts.processes
  prefetch ← resolve_prefetch o.prefetch counts.processes
  ok (record {
    counts = counts;
    persistent = persistent;
    prefetch = prefetch;
    context = resolve_context o.context counts.processes;
  })

-- `resolved_seed`
unfoldable pub resolved_seed : Value → Option ℕ
resolved_seed (int seed) = some (pos_part seed)
resolved_seed _ = none

-- `resolved_partition`
unfoldable pub resolved_partition : Bool → Value → Partitioning
resolved_partition shuffle (str s) = if str_eq s "split" then split else replicate
resolved_partition true _ = replicate
resolved_partition false _ = split
