-- ===== src/Loader/Bounds.antt =====
-- What the loader's validation establishes for the planning behind it.
use dataset_rt.Prelude.{
  ℕ, ◌≤◌, ◌<◌, ◌-◌, ◌^◌, ◌≡◌, refl, subst, ◌==◌, ltb, leb, not, ◌&&◌, ◌||◌, pos, negsuc, Bool,
  Bool-cases, Option-cases, true, false, Option, none, some, List, arith, inl, inr, String,
  if◌then◌else◌,
}
use dataset_rt.Python.{
  Value, null, bool, int, str, opaque, nat, ok, err, value_error, ◌>>=◌, raise_if, >>=-elim,
  ok-injective,
}
use dataset_rt.Partition.{u64_max, require_u64, ReplicaIdentity, replica_identity, IsReplica}
use dataset_rt.Resources.{
  LocalWorldSize, WorkerCounts, Setting, auto, count, local_rank_count, loading_worker_count,
  resolve_processes, resolve_threads, resolve_worker_counts,
}
use dataset_rt.Options.{
  LoaderOptions, ResolvedWorkers, setting, max_sample_budget, is_zero, resolve_persistence,
  resolve_prefetch, validate_count, require_bool, require_int, validate_options, resolve_workers,
}
use dataset_rt.Seed.{common_seed}
use dataset_rt.Plan.Loop.{SeedFits}
use dataset_rt.Loader.{Process, whole, capture_replica, epoch_samples}

replica_identity-IsReplica :
    (rank world_size : Value) (r : ReplicaIdentity)
    → replica_identity rank world_size ≡ ok r
    → IsReplica r
unfolding replica_identity
replica_identity-IsReplica (int (pos rank)) (int (pos world_size)) r h =
    >>=-elim (raise_if (leb (2 ^ 32) rank) _) _ h λ _ _ h1.
      >>=-elim (raise_if (world_size == 0 || ltb (2 ^ 32) world_size) _) _ h1 λ _ fits h2.
        >>=-elim (raise_if (leb world_size rank) _) _ h2 λ _ member done.
          subst IsReplica (ok-injective done) (ground (arith, member), ground (arith, fits))
replica_identity-IsReplica _ _ r h = cc

pub capture_replica-IsReplica :
    (p : Process) (r : ReplicaIdentity) → capture_replica p ≡ ok r → IsReplica r
unfolding capture_replica
capture_replica-IsReplica p r h = elim (Bool-cases p.in_worker) [
  | inl inside ↦ cc (rw inside at h)
  | inr outside ↦ elim (Option-cases p.group) [
    | inl alone ↦ replica_identity-IsReplica (nat 0) (nat 1) r (rw alone at (rw outside at h))
    | inr ((rank, world_size), grouped) ↦
        replica_identity-IsReplica (int rank) (int world_size) r (rw grouped at (rw outside at h))
  ]
]

batch-positive :
    (maxsize : ℕ) (v : Value) → require_int "batch_size" maxsize v ≡ ok tt → 0 < whole v
unfolding require_int
batch-positive maxsize (int (pos n)) h = ground (arith, h)
batch-positive maxsize (int (negsuc n)) h = absurd (ground (arith, h))
batch-positive maxsize null h = cc
batch-positive maxsize (bool b) h = cc
batch-positive maxsize (str s) h = cc
batch-positive maxsize opaque h = cc

-- The counts that the validation read.
pub record Validated (o : LoaderOptions) : Type 0 where
  pub processes : validate_count "num_workers" 0 (2 ^ 32 - 1) o.num_workers ≡ ok tt
  pub some_batch : 0 < whole o.batch_size

pub validate_options-Validated :
    (maxsize : ℕ) (methods : List String) (o : LoaderOptions)
    → validate_options maxsize methods o ≡ ok tt
    → Validated o
unfolding validate_options
validate_options-Validated maxsize methods o h =
    >>=-elim (validate_count "num_workers" 0 (2 ^ 32 - 1) o.num_workers) _ h λ _ processes h1.
      >>=-elim (validate_count "native_num_workers" 1 maxsize o.native_num_workers) _ h1 λ _ _ h2.
        >>=-elim (require_bool "shuffle" o.shuffle) _ h2 λ _ _ h3.
          >>=-elim (require_bool "drop_last" o.drop_last) _ h3 λ _ _ h4.
            >>=-elim (require_bool "pin_memory" o.pin_memory) _ h4 λ _ _ h5.
              >>=-elim (require_bool "verbose" o.verbose) _ h5 λ _ _ h6.
                >>=-elim (require_int "batch_size" maxsize o.batch_size) _ h6 λ _ batch _. record {
                  processes = processes;
                  some_batch = batch-positive maxsize o.batch_size batch;
                }

count-below :
    (v : Value) (n : ℕ)
    → validate_count "num_workers" 0 (2 ^ 32 - 1) v ≡ ok tt
    → setting v ≡ count n
    → n < 2 ^ 32
unfolding validate_count
count-below (int (pos m)) n valid same = ground (arith, valid, same)
count-below (int (negsuc m)) n valid same = absurd (ground (arith, valid))
count-below (str s) n valid same = cc
count-below null n valid same = cc
count-below (bool b) n valid same = cc
count-below opaque n valid same = cc

processes-below :
    (s t : Setting) (world_size cpus : ℕ) (environment : LocalWorldSize) (w : WorkerCounts)
    → ((n : ℕ) → s ≡ count n → n < 2 ^ 32)
    → resolve_worker_counts s t world_size cpus environment ≡ ok w
    → w.processes < 2 ^ 32
unfolding resolve_worker_counts resolve_processes loading_worker_count
processes-below (count n) (count m) world_size cpus environment w below h =
    subst (λ (c : WorkerCounts). c.processes < 2 ^ 32) (ok-injective h) (below n refl)
processes-below auto t world_size cpus environment w below h =
    >>=-elim (local_rank_count world_size environment) _ h λ ranks _ h1.
      >>=-elim (loading_worker_count (pos cpus) (pos ranks)) _ h1 λ n loading h2.
        >>=-elim (resolve_threads t cpus n ranks) _ h2 λ threads _ done.
          subst (λ (c : WorkerCounts). c.processes < 2 ^ 32) (ok-injective done)
            (ground (arith, loading))
processes-below (count n) auto world_size cpus environment w below h =
    >>=-elim (local_rank_count world_size environment) _ h λ ranks _ h1.
      >>=-elim (resolve_threads auto cpus n ranks) _ h1 λ threads _ done.
        subst (λ (c : WorkerCounts). c.processes < 2 ^ 32) (ok-injective done) (below n refl)

pub resolve_workers-below :
    (o : LoaderOptions) (world_size cpus : ℕ) (environment : LocalWorldSize) (w : ResolvedWorkers)
    → validate_count "num_workers" 0 (2 ^ 32 - 1) o.num_workers ≡ ok tt
    → resolve_workers o world_size cpus environment ≡ ok w
    → w.counts.processes < 2 ^ 32
unfolding resolve_workers
resolve_workers-below o world_size cpus environment w valid h =
    >>=-elim
      (resolve_worker_counts (setting o.num_workers) (setting o.native_num_workers) world_size cpus
        environment)
      _ h
      λ counts found h1.
        >>=-elim (raise_if (counts.processes == 0 && not (is_zero o.timeout)) (value_error _)) _ h1
          λ _ _ h2.
            >>=-elim (resolve_persistence o.persistent_workers counts.processes) _ h2 λ _ _ h3.
              >>=-elim (resolve_prefetch o.prefetch counts.processes) _ h3 λ _ _ done.
                subst (λ (r : ResolvedWorkers). r.counts.processes < 2 ^ 32) (ok-injective done)
                  (processes-below (setting o.num_workers) (setting o.native_num_workers) world_size
                    cpus environment counts (λ n same. count-below o.num_workers n valid same)
                    found)

samples-le :
    (maxsize size n : ℕ)
    → (if not (leb 1 size && leb size (max_sample_budget maxsize))
        then err (value_error "inherited samples_per_epoch")
        else ok size)
      ≡ ok n
    → n ≤ 2 ^ 53
samples-le maxsize size n h = ground (arith, h)

pub epoch_samples-le :
    (maxsize : ℕ) (v : Value) (inherited n : ℕ)
    → epoch_samples maxsize v inherited ≡ ok n
    → n ≤ 2 ^ 53
unfolding epoch_samples
epoch_samples-le maxsize null inherited n h = samples-le maxsize inherited n h
epoch_samples-le maxsize (int m) inherited n h = samples-le maxsize (whole (int m)) n h
epoch_samples-le maxsize (bool b) inherited n h = samples-le maxsize 0 n h
epoch_samples-le maxsize (str s) inherited n h = samples-le maxsize 0 n h
epoch_samples-le maxsize opaque inherited n h = samples-le maxsize 0 n h

required-SeedFits :
    (v : Value) (found : Option ℕ)
    → (require_u64 "seed" v >>= λ s. ok (some s)) ≡ ok found
    → SeedFits found
unfolding require_u64
required-SeedFits (int (pos n)) found h =
    >>=-elim (require_u64 "seed" (int (pos n))) (λ s. ok (some s)) h
      λ s fits done. subst SeedFits (ok-injective done) (ground (arith, fits))
required-SeedFits (int (negsuc n)) found h = cc
required-SeedFits null found h = cc
required-SeedFits (bool b) found h = cc
required-SeedFits (str s) found h = cc
required-SeedFits opaque found h = cc

pub common_seed-SeedFits :
    (replica : ReplicaIdentity) (shuffle : Bool) (seed : Option Value) (drawn : ℕ)
    (broadcast : Value → Value) (found : Option ℕ)
    → drawn ≤ u64_max
    → common_seed replica shuffle seed drawn broadcast ≡ ok found
    → SeedFits found
unfolding common_seed require_u64
common_seed-SeedFits replica false (some seed) drawn broadcast found fits h =
    subst SeedFits (ok-injective h) tt
common_seed-SeedFits replica false none drawn broadcast found fits h =
    subst SeedFits (ok-injective h) tt
common_seed-SeedFits replica true (some seed) drawn broadcast found fits h =
    required-SeedFits seed found h
common_seed-SeedFits replica true none drawn broadcast found fits h =
    elim (Bool-cases (replica.world_size == 1)) [
      | inl alone ↦ subst SeedFits (ok-injective (rw alone at h)) fits
      | inr grouped ↦
          required-SeedFits (broadcast (if replica.rank == 0 then nat drawn else nat 0)) found
            (rw grouped at h)
    ]
