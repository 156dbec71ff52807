-- ===== src/Partition/Workers.antt =====
-- `worker_rows` splits the rows over all loading workers of all ranks, whose worker counts may
-- differ from rank to rank.
use dataset_rt.Prelude.{ℕ, ◌+◌, ◌-◌, ◌^◌, ◌≤◌, ◌<◌, max, ◌≡◌, arith}
use dataset_rt.Python.{nat, ok}
use dataset_rt.Partition.{
  u64_max, RowSpan, ReplicaIdentity, require_u64, span, partition_rows, worker_rows,
}
use dataset_rt.Partition.Spans.{Holds, require_u64-nat, partition_rows-eq-span}
use dataset_rt.Partition.Coverage.{span_covers, span_disjoint, span_within}

abbrev pub replica : ℕ → ℕ → ReplicaIdentity
replica rank world_size = record { rank = rank; world_size = world_size }

-- The rows of one worker: a span of its rank's span.
worker_span : (count world_size rank workers worker : ℕ) → RowSpan
worker_span count world_size rank workers worker =
    let rank_span = span count world_size rank in
    let local = span rank_span.length (max 1 workers) worker in
    record { offset = rank_span.offset + local.offset; length = local.length }

module _ (count world_size rank workers worker : ℕ) where
  worker_rows-eq-worker_span :
      count ≤ u64_max
      → world_size ≤ 2 ^ 32
      → workers ≤ u64_max
      → rank < world_size
      → worker < max 1 workers
      → worker_rows (nat count) (replica rank world_size) (nat workers) (nat worker)
        ≡ ok (worker_span count world_size rank workers worker)
  unfolding worker_rows worker_span
  worker_rows-eq-worker_span c w k r l = rw (
    require_u64-nat "num_workers" workers k,
    partition_rows-eq-span count world_size rank c (omega arith) r,
    partition_rows-eq-span (span count world_size rank).length (max 1 workers) worker
        (omega (arith, span_within count world_size rank r)) (omega arith) l,
  )

  worker_rows-eq-ok :
      (s : RowSpan)
      → worker_rows (nat count) (replica rank world_size) (nat workers) (nat worker) ≡ ok s
      → (count ≤ u64_max)
        × (rank < world_size)
        × (worker < max 1 workers)
        × (s ≡ worker_span count world_size rank workers worker)
  unfolding worker_rows partition_rows require_u64 worker_span
  worker_rows-eq-ok s h = (ground arith, ground arith, ground arith, ground arith)

  -- A worker's row lies in its rank's span, and in its own part of that span.
  worker_span_inner :
      (row : ℕ)
      → worker < max 1 workers
      → Holds row (worker_span count world_size rank workers worker)
      → Holds row (span count world_size rank)
        × Holds
            (row - (span count world_size rank).offset)
            (span (span count world_size rank).length (max 1 workers) worker)
  unfolding worker_span
  worker_span_inner row l h =
      let inside = span_within (span count world_size rank).length (max 1 workers) worker l in
      (omega (arith, inside, h), omega (arith, inside, h))

-- Every row below `count` is read by some worker of some rank, whatever number of workers each
-- rank starts, for rank and worker counts within the bounds of their types.
pub worker_rows_covers :
    (count world_size row : ℕ) (workers : ℕ → ℕ)
    → count ≤ u64_max
    → world_size ≤ 2 ^ 32
    → ((rank : ℕ) → workers rank ≤ u64_max)
    → row < count
    → 0 < world_size
    → (rank worker : ℕ) × (s : RowSpan) × (rank < world_size)
      × (worker < max 1 (workers rank))
      × (worker_rows (nat count) (replica rank world_size) (nat (workers rank)) (nat worker) ≡ ok s)
      × Holds row s
unfolding worker_span
worker_rows_covers count world_size row workers c w k h p =
    let (rank, r, held) = span_covers count world_size row p h in
    let rank_span = span count world_size rank in
    let (worker, l, local) =
      span_covers rank_span.length (max 1 (workers rank)) (row - rank_span.offset) (omega arith)
        (omega (arith, held)) in
    (
      rank,
      worker,
      worker_span count world_size rank (workers rank) worker,
      r,
      l,
      worker_rows-eq-worker_span count world_size rank (workers rank) worker c w (k rank) r l,
      omega (arith, held, local),
    )

-- Two workers, of ranks that may start different numbers of them, share a row only if they are
-- the same worker of the same rank.
pub worker_rows_disjoint :
    (count world_size row i j a b : ℕ) (workers : ℕ → ℕ) (s t : RowSpan)
    → worker_rows (nat count) (replica i world_size) (nat (workers i)) (nat a) ≡ ok s
    → worker_rows (nat count) (replica j world_size) (nat (workers j)) (nat b) ≡ ok t
    → Holds row s
    → Holds row t
    → (i ≡ j) × (a ≡ b)
worker_rows_disjoint count world_size row i j a b workers s t hs ht ms mt =
    let (_, _, la, es) = worker_rows-eq-ok count world_size i (workers i) a s hs in
    let (_, _, lb, et) = worker_rows-eq-ok count world_size j (workers j) b t ht in
    let (oi, ni) = worker_span_inner count world_size i (workers i) a row la (rw es at ms) in
    let (oj, nj) = worker_span_inner count world_size j (workers j) b row lb (rw et at mt) in
    let e : i ≡ j = span_disjoint count world_size row i j oi oj in
    let nj' = rw (← e) at nj in
    (
      e,
      span_disjoint (span count world_size i).length (max 1 (workers i))
          (row - (span count world_size i).offset) a b ni nj',
    )
