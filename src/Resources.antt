-- ===== src/Resources.antt =====
-- Worker counts: `native_worker_count` and `loading_worker_count` of dataset_rt/resources.py, and
-- `local_rank_count` and `resolve_worker_counts` of dataset_rt/integrations/loading.py. The CPU
-- count and the launcher's environment variable are arguments.
pub mod Capacity
pub mod Cgroups
pub mod Limits
pub mod Available
use dataset_rt.Prelude.{
  ℕ, ◌-◌, ◌*◌, ◌/◌, min, max, ℤ, pos, pos_part, ltb_ℤ, leb_ℤ, ltb, ◌==◌, Bool, true, false, ◌||◌,
  ◌&&◌, not, Option, none, some, if◌then◌else◌,
}
use dataset_rt.Python.{Result, ok, err, value_error, ◌>>=◌, ◌>>◌, raise_if}

unfoldable pub native_worker_count : ℤ → ℤ → ℤ → Result ℕ
native_worker_count cpu_count num_workers local_ranks = do
  raise_if (ltb_ℤ cpu_count (pos 1) || (ltb_ℤ num_workers (pos 0) || ltb_ℤ local_ranks (pos 1)))
      (value_error "CPU and rank budgets must be positive; loading workers nonnegative")
  ok (max 1 (min 4 (pos_part cpu_count / (max 1 (pos_part num_workers) * pos_part local_ranks))))

unfoldable pub loading_worker_count : ℤ → ℤ → Result ℕ
loading_worker_count cpu_count local_ranks = do
  raise_if (ltb_ℤ cpu_count (pos 1) || ltb_ℤ local_ranks (pos 1))
      (value_error "CPU and rank budgets must be positive")
  ok (min 4 (pos_part cpu_count / pos_part local_ranks - 1))

-- `LOCAL_WORLD_SIZE`: not set, or what `int` makes of it.
pub data LocalWorldSize : Type 0 where
  unset : LocalWorldSize
  malformed : LocalWorldSize
  configured : ℤ → LocalWorldSize

unfoldable pub configured_ranks : ℕ → LocalWorldSize → Result ℕ
configured_ranks world_size unset = ok world_size
configured_ranks world_size malformed = err (value_error "invalid literal for int()")
configured_ranks world_size (configured ranks) = do
  raise_if (not (leb_ℤ (pos 1) ranks && leb_ℤ ranks (pos world_size)))
      (value_error "LOCAL_WORLD_SIZE must be between one and the distributed world size")
  ok (pos_part ranks)

unfoldable pub local_rank_count : ℕ → LocalWorldSize → Result ℕ
unfolding configured_ranks
local_rank_count world_size environment =
    if ltb 1 world_size then configured_ranks world_size environment else ok world_size

-- `int | Literal["auto"]`
pub data Setting : Type 0 where
  auto : Setting
  count : ℕ → Setting

pub record WorkerCounts : Type 0 where
  pub processes : ℕ
  pub native_threads : ℕ

unfoldable pub resolve_processes : Setting → ℕ → ℕ → Result ℕ
unfolding loading_worker_count
resolve_processes auto cpus ranks = loading_worker_count (pos cpus) (pos ranks)
resolve_processes (count processes) cpus ranks = ok processes

unfoldable pub resolve_threads : Setting → ℕ → ℕ → ℕ → Result ℕ
unfolding native_worker_count
resolve_threads auto cpus processes ranks =
    native_worker_count (pos cpus) (pos processes) (pos ranks)
resolve_threads (count threads) cpus processes ranks = ok threads

abbrev observed_counts : Setting → Setting → ℕ → ℕ → LocalWorldSize → Result WorkerCounts
observed_counts num_workers native_num_workers world_size cpus environment = do
  ranks ← local_rank_count world_size environment
  processes ← resolve_processes num_workers cpus ranks
  threads ← resolve_threads native_num_workers cpus processes ranks
  ok (record { processes = processes; native_threads = threads })

-- Two explicit counts are taken as they are; otherwise the CPU budget is observed.
unfoldable pub resolve_worker_counts :
    Setting → Setting → ℕ → ℕ → LocalWorldSize → Result WorkerCounts
unfolding local_rank_count resolve_processes resolve_threads
resolve_worker_counts (count processes) (count threads) world_size cpus environment =
    ok (record { processes = processes; native_threads = threads })
resolve_worker_counts auto native_num_workers world_size cpus environment =
    observed_counts auto native_num_workers world_size cpus environment
resolve_worker_counts (count processes) auto world_size cpus environment =
    observed_counts (count processes) auto world_size cpus environment

-- Native threads for an explicit count of loading processes.
unfoldable pub automatic_native_workers : ℕ → ℕ → ℕ → LocalWorldSize → Result ℕ
unfolding resolve_worker_counts
automatic_native_workers num_workers world_size cpus environment = do
  counts ← resolve_worker_counts (count num_workers) auto world_size cpus environment
  ok counts.native_threads
