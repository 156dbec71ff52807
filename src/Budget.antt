-- ===== src/Budget.antt =====
-- Sample budgets: `rank_budget` and `worker_budgets` of dataset_rt/integrations/loading.py.
pub mod Spread
pub mod Shares
pub mod Ranks
pub mod Workers
use dataset_rt.Prelude.{
  ℕ, ◌+◌, ◌-◌, ◌*◌, ◌/◌, ◌%◌, ◌^◌, min, max, Bool, not, ◌&&◌, List, [], ◌∷◌, ◌++◌, Option, none,
  some, ltb, ◌==◌, if◌then◌else◌, replicate, range,
}
use dataset_rt.Python.{
  Value, nat, Result, ok, err, value_error, index_error, zero_division, ◌>>=◌, traverse,
}
use dataset_rt.Partition.{ReplicaIdentity, partition_rows}

pub data Action : Type 0 where
  padded discarded : Action

-- What the warning says: the requested and the effective samples, and their distance.
pub record Adjustment : Type 0 where
  pub requested : ℕ
  pub effective : ℕ
  pub action : Action
  pub amount : ℕ

-- The samples of each rank. A replica has a positive `world_size`, and the batch size is positive,
-- so no division is by zero.
unfoldable pub local_budget : ℕ → ℕ → ℕ → Bool → ℕ
local_budget samples ranks batch_size drop_last =
    if drop_last then samples / (ranks * batch_size) * batch_size else (samples + ranks - 1) / ranks

-- The local budget, and the warning that rank zero issues.
unfoldable pub rank_budget : ℕ → ReplicaIdentity → ℕ → Bool → ℕ × Option Adjustment
unfolding local_budget
rank_budget samples replica batch_size drop_last =
    let ranks = replica.world_size in
    let local = local_budget samples ranks batch_size drop_last in
    let effective = local * ranks in
    (
      local,
      if not (effective == samples) && replica.rank == 0
          then some (record {
            requested = samples;
            effective = effective;
            action = if ltb samples effective then padded else discarded;
            amount = effective - samples + (samples - effective);
          })
          else none,
    )

-- `budgets[-1] += tail`
unfoldable pub add_last : List ℕ → ℕ → Result (List ℕ)
add_last [] tail = err (index_error "list index out of range")
add_last (x ∷ []) tail = ok ((x + tail) ∷ [])
add_last (x ∷ y ∷ rest) tail = do rest' ← add_last (y ∷ rest) tail; ok (x ∷ rest')

-- The length of a part, in samples.
unfoldable pub part_budget : ℕ → ℕ → ℕ → ℕ → Result ℕ
part_budget batches active batch_size i = do
  rows ← partition_rows (nat batches) (nat active) (nat i)
  ok (rows.length * batch_size)

-- Samples, workers, populations and batch size, in this order.
unfoldable pub worker_budgets : ℕ → ℕ → ℕ → ℕ → Result (List ℕ)
unfolding add_last part_budget traverse
worker_budgets samples workers populations batch_size =
    if samples == 0
    then ok (replicate workers 0)
    else if populations == 0
    then err (value_error "samples_per_epoch requires a nonempty population")
    else if batch_size == 0
    then err zero_division
    else do
      let batches = samples / batch_size
      let active = min workers (min populations (max 1 batches))
      budgets ← traverse (part_budget batches active batch_size) (range active)
      spread ← add_last budgets (samples % batch_size)
      ok (spread ++ replicate (workers - active) 0)
