-- ===== src/Budget/Ranks.antt =====
-- What `rank_budget` promises: equal ranks, and the adjustment of the global budget within bounds
-- and announced.
use native.Mathlib.Nat.{mod-lt, mul-mod_left, div-add-mod', mul-pos}
use dataset_rt.Prelude.{
  ℕ, ◌+◌, ◌-◌, ◌*◌, ◌/◌, ◌%◌, ◌≤◌, ◌<◌, ◌≡◌, ◌⊎◌, inl, inr, true, false, Bool, some, none, Option,
  arith, not, ◌&&◌, ◌==◌, ltb, if◌then◌else◌, Bool-cases,
}
use dataset_rt.Partition.{ReplicaIdentity}
use dataset_rt.Budget.{Adjustment, padded, discarded, local_budget, rank_budget}

-- Without dropping, the ranks together read every requested sample, and fewer than one more per
-- rank.
pub rank_budget_pads :
    (samples batch_size : ℕ) (replica : ReplicaIdentity)
    → 0 < replica.world_size
    → let local = (rank_budget samples replica batch_size false).0 in
      (samples ≤ local * replica.world_size)
      × (local * replica.world_size < samples + replica.world_size)
unfolding rank_budget
rank_budget_pads samples batch_size replica w =
    let d = div-add-mod' (samples + replica.world_size - 1) replica.world_size in
    let m = mod-lt (samples + replica.world_size - 1) w in
    (omega (arith, d, m), omega (arith, d, m))

-- With dropping, each rank reads whole batches, the ranks together read no more than the requested
-- samples, and what they leave is less than one batch per rank.
pub rank_budget_discards :
    (samples batch_size : ℕ) (replica : ReplicaIdentity)
    → 0 < replica.world_size
    → 0 < batch_size
    → let local = (rank_budget samples replica batch_size true).0 in
      (local % batch_size ≡ 0)
      × (local * replica.world_size ≤ samples)
      × (samples < local * replica.world_size + replica.world_size * batch_size)
unfolding rank_budget
rank_budget_discards samples batch_size replica w b =
    let round = replica.world_size * batch_size in
    let d = div-add-mod' samples round in
    let m = mod-lt samples (mul-pos w b) in
    let e : samples / round * batch_size * replica.world_size ≡ samples / round * round =
      grind arith in
    (mul-mod_left (samples / round) batch_size, omega (arith, e, d, m), omega (arith, e, d, m))

adjust : ℕ → ℕ → ℕ → Option Adjustment
adjust samples effective rank =
    if not (effective == samples) && rank == 0
    then some (record {
      requested = samples;
      effective = effective;
      action = if ltb samples effective then padded else discarded;
      amount = effective - samples + (samples - effective);
    })
    else none

adjust_lem :
    (samples effective rank : ℕ) (w : Adjustment)
    → adjust samples effective rank ≡ some w
    → (rank ≡ 0)
      × (w.requested ≡ samples)
      × (w.effective ≡ effective)
      × (0 < w.amount)
      × (((w.action ≡ padded) × (w.effective ≡ w.requested + w.amount))
          ⊎ ((w.action ≡ discarded) × (w.requested ≡ w.effective + w.amount)))
unfolding adjust
adjust_lem samples effective rank w h =
    (ground arith, ground arith, ground arith, ground arith, direction)
  where
    direction :
        ((w.action ≡ padded) × (w.effective ≡ w.requested + w.amount))
        ⊎ ((w.action ≡ discarded) × (w.requested ≡ w.effective + w.amount))
    direction = elim (Bool-cases (ltb samples effective)) [
      | inl more ↦ inl (ground arith, ground arith)
      | inr less ↦ inr (ground arith, ground arith)
    ]

-- Any warning comes from rank zero, names the requested and the effective samples, and says
-- rightly which way and by how much, which is not nothing, they differ.
pub rank_budget_warning :
    (samples batch_size : ℕ) (replica : ReplicaIdentity) (drop_last : Bool) (w : Adjustment)
    → (rank_budget samples replica batch_size drop_last).1 ≡ some w
    → (replica.rank ≡ 0)
      × (w.requested ≡ samples)
      × (w.effective ≡ (rank_budget samples replica batch_size drop_last).0 * replica.world_size)
      × (0 < w.amount)
      × (((w.action ≡ padded) × (w.effective ≡ w.requested + w.amount))
          ⊎ ((w.action ≡ discarded) × (w.requested ≡ w.effective + w.amount)))
unfolding rank_budget adjust
rank_budget_warning samples batch_size replica drop_last w h =
    adjust_lem samples
      (local_budget samples replica.world_size batch_size drop_last * replica.world_size)
      replica.rank w h
