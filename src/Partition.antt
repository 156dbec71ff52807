-- ===== src/Partition.antt =====
-- Row partitions: `RowSpan` of dataset_rt/records.py, and `ReplicaIdentity`, `_require_u64`,
-- `partition_rows` and `worker_rows` of dataset_rt/integrations/loading.py.
pub mod Spans
pub mod Coverage
pub mod Workers
use dataset_rt.Prelude.{
  ℕ, ◌+◌, ◌-◌, ◌*◌, ◌/◌, ◌%◌, ◌^◌, ◌<◌, ◌≤◌, min, max, String, ◌||◌, pos, ltb, leb, ◌==◌,
  if◌then◌else◌,
}
use dataset_rt.Python.{Value, int, nat, Result, ok, err, value_error, ◌>>=◌, ◌>>◌, raise_if}

abbrev pub u64_max : ℕ
u64_max = 2 ^ 64 - 1

pub record RowSpan : Type 0 where
  pub offset : ℕ
  pub length : ℕ

-- The narrowed integer. A boolean or any other object, a negative number and a number past the
-- 64 bits are refused.
unfoldable pub require_u64 : String → Value → Result ℕ
require_u64 name (int (pos n)) =
    if leb n u64_max then ok n else err (value_error "must be a u64 integer")
require_u64 name _ = err (value_error "must be a u64 integer")

-- `divmod(count, parts)`: the first `extra` spans are one row longer.
unfoldable pub span : ℕ → ℕ → ℕ → RowSpan
span count parts part_id =
    let size = count / parts in
    let extra = count % parts in
    record {
      offset = part_id * size + min part_id extra;
      length = size + (if ltb part_id extra then 1 else 0);
    }

unfoldable pub partition_rows : Value → Value → Value → Result RowSpan
partition_rows count parts part_id = do
  rows ← require_u64 "count" count
  total ← require_u64 "parts" parts
  part ← require_u64 "part_id" part_id
  raise_if (total == 0 || leb total part)
      (value_error "part_id must belong to a positive partition count")
  ok (span rows total part)

-- The validated model: both fields are within their bounds, and the rank is in its group.
pub record ReplicaIdentity : Type 0 where
  pub rank : ℕ
  pub world_size : ℕ

unfoldable pub replica_identity : Value → Value → Result ReplicaIdentity
replica_identity (int (pos rank)) (int (pos world_size)) = do
  raise_if (leb (2 ^ 32) rank) (value_error "rank")
  raise_if (world_size == 0 || ltb (2 ^ 32) world_size) (value_error "world_size")
  raise_if (leb world_size rank) (value_error "rank must be smaller than world_size")
  ok (record { rank = rank; world_size = world_size })
replica_identity _ _ = err (value_error "rank and world_size")

-- What a `ReplicaIdentity` was validated for.
abbrev pub IsReplica : ReplicaIdentity → Type 0
IsReplica r = (r.rank < r.world_size) × (r.world_size ≤ 2 ^ 32)

unfoldable pub worker_rows : Value → ReplicaIdentity → Value → Value → Result RowSpan
worker_rows count replica num_workers worker_id = do
  workers ← require_u64 "num_workers" num_workers
  rank_span ← partition_rows count (nat replica.world_size) (nat replica.rank)
  local ← partition_rows (nat rank_span.length) (nat (max 1 workers)) worker_id
  ok (record { offset = rank_span.offset + local.offset; length = local.length })
