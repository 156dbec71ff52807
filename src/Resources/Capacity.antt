-- ===== src/Resources/Capacity.antt =====
-- The automatic counts stay within the CPUs.
use dataset_rt.Prelude.{ℕ, zero, suc, ◌*◌, ◌/◌, ◌≤◌, ◌<◌, ◌≡◌, ap, subst, max, pos, arith}
use dataset_rt.Python.{Result, ok, err, >>=-elim}
use dataset_rt.Resources.{
  native_worker_count, loading_worker_count, LocalWorldSize, local_rank_count, auto, WorkerCounts,
  resolve_processes, resolve_threads, resolve_worker_counts,
}
use native.Mathlib.Nat.{le-div_iff_mul-le}

share_fits :
    (total part n : ℕ) → 0 < part → part ≤ total → n ≤ max 1 (total / part) → n * part ≤ total
share_fits total part n positive enough h =
    let some : 1 ≤ total / part = (le-div_iff_mul-le positive).1 (omega (arith, enough)) in
    (le-div_iff_mul-le positive).0 (omega (arith, h, some))

-- The processes of all ranks of a machine fit its CPUs.
loading-fits :
    (cpus ranks n : ℕ)
    → ranks ≤ cpus
    → loading_worker_count (pos cpus) (pos ranks) ≡ ok n
    → max 1 n * ranks ≤ cpus
unfolding loading_worker_count
loading-fits cpus ranks n enough h =
    share_fits cpus ranks (max 1 n) (ground (arith, h)) enough (ground (arith, h))

le_suc_mul : (n p : ℕ) → n ≤ max 1 (suc p) * n
le_suc_mul n p = let e : max 1 (suc p) ≡ suc p = omega arith in rw e (grind arith)

processes_of : Result WorkerCounts → ℕ
processes_of (ok counts) = counts.processes
processes_of (err error) = 0

threads_of : Result WorkerCounts → ℕ
threads_of (ok counts) = counts.native_threads
threads_of (err error) = 0

le-mul_of_pos : (n p : ℕ) → n ≤ max 1 p * n
le-mul_of_pos n zero = omega arith
le-mul_of_pos n (suc p) = le_suc_mul n p

native-fits :
    (cpus ranks processes n : ℕ)
    → max 1 processes * ranks ≤ cpus
    → native_worker_count (pos cpus) (pos processes) (pos ranks) ≡ ok n
    → n * (max 1 processes * ranks) ≤ cpus
unfolding native_worker_count
native-fits cpus ranks processes n enough h =
    let some_rank : 0 < ranks = ground (arith, h) in
    let part = max 1 processes * ranks in
    let product : ranks ≤ part = le-mul_of_pos ranks processes in
    share_fits cpus part n (omega (arith, some_rank, product)) enough (ground (arith, h))

-- Every rank of a machine that leaves both counts to the library can have a CPU for each of its
-- native threads: the threads of all processes of all local ranks are no more than the CPUs, where
-- there is a CPU for each rank.
pub automatic_counts_fit :
    (world_size cpus ranks : ℕ) (environment : LocalWorldSize) (counts : WorkerCounts)
    → local_rank_count world_size environment ≡ ok ranks
    → ranks ≤ cpus
    → resolve_worker_counts auto auto world_size cpus environment ≡ ok counts
    → counts.native_threads * (max 1 counts.processes * ranks) ≤ cpus
unfolding resolve_worker_counts resolve_processes resolve_threads processes_of threads_of
automatic_counts_fit world_size cpus ranks environment counts local enough h =
    >>=-elim (local_rank_count world_size environment) _ h λ found is_found rest.
      let same : found ≡ ranks = cc (is_found, local) in
      >>=-elim (loading_worker_count (pos cpus) (pos found)) _ rest λ processes is_processes after.
        >>=-elim (native_worker_count (pos cpus) (pos processes) (pos found)) _ after
          λ threads is_threads last.
            let here : processes ≡ counts.processes = ap processes_of last in
            let there : threads ≡ counts.native_threads = ap threads_of last in
            let first = loading-fits cpus ranks processes enough (
              subst (λ (r : ℕ). loading_worker_count (pos cpus) (pos r) ≡ ok processes) same
                is_processes) in
            let second = native-fits cpus ranks processes threads first (
              subst (λ (r : ℕ). native_worker_count (pos cpus) (pos processes) (pos r) ≡ ok threads)
                same is_threads) in
            subst (λ (t : ℕ). t * (max 1 counts.processes * ranks) ≤ cpus) there
              (subst (λ (p : ℕ). threads * (max 1 p * ranks) ≤ cpus) here second)
