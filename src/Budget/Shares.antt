-- ===== src/Budget/Shares.antt =====
-- Sums over the budgets that `worker_budgets` of dataset_rt/integrations/loading.py builds: of
-- samples, and of the batches that Torch will make of them.
use native.Mathlib.Nat.{mul-add-div_right, div-add-mod'}
use dataset_rt.Prelude.{
  ℕ, zero, suc, ◌+◌, ◌-◌, ◌*◌, ◌/◌, ◌%◌, ◌<◌, ◌≡◌, refl, ◌∙◌, List, [], ◌∷◌, ◌++◌, map, arith,
  replicate, range_from, sum, sum-append, length, length-map, length-range_from,
}
use mathlib.Core.List.{map-append}
use dataset_rt.Partition.{span}
use dataset_rt.Partition.Spans.{span-zero, span-suc, span_end}
use dataset_rt.Budget.Spread.{shares, spread}

pub sum-shares :
    (batches active i n : ℕ)
    → (span batches active i).offset + sum (shares batches active i n)
      ≡ (span batches active (i + n)).offset
sum-shares batches active i zero = ground arith
sum-shares batches active i (suc n) =
    let e : suc i + n ≡ i + suc n = omega arith in
    rw (← e) (omega (arith, sum-shares batches active (suc i) n, span-suc batches active i))

pub sum-shares_all :
    (batches active : ℕ) → 0 < active → sum (shares batches active 0 active) ≡ batches
sum-shares_all batches active h =
    let e : 0 + active ≡ active = omega arith in
    omega (
      arith,
      rw e at (sum-shares batches active 0 active),
      span-zero batches active,
      span_end batches active h,
    )

pub length-shares : (batches active n : ℕ) → length (shares batches active 0 n) ≡ n
length-shares batches active n = length-map _ (range_from 0 n) ∙ length-range_from 0 n

pub sum-spread :
    (batch_size tail k : ℕ) (ks : List ℕ)
    → sum (spread batch_size tail (k ∷ ks)) ≡ sum (k ∷ ks) * batch_size + tail
sum-spread batch_size tail k [] = omega arith
sum-spread batch_size tail k (k' ∷ ks) = omega (arith, sum-spread batch_size tail k' ks)

pub length-spread :
    (batch_size tail : ℕ) (ks : List ℕ) → length (spread batch_size tail ks) ≡ length ks
length-spread batch_size tail [] = refl
length-spread batch_size tail (k ∷ []) = refl
length-spread batch_size tail (k ∷ k' ∷ ks) = omega (arith, length-spread batch_size tail (k' ∷ ks))

-- Torch's length of a loader over `samples`: whole batches, and the incomplete one.
abbrev pub full_batches : ℕ → ℕ → ℕ
full_batches batch_size samples = samples / batch_size

abbrev pub all_batches : ℕ → ℕ → ℕ
all_batches batch_size samples = (samples + batch_size - 1) / batch_size

pub full_batches-mul-add :
    (batch_size k t : ℕ)
    → 0 < batch_size
    → full_batches batch_size (k * batch_size + t) ≡ k + full_batches batch_size t
full_batches-mul-add batch_size k t h = mul-add-div_right h k t

pub all_batches-mul-add :
    (batch_size k t : ℕ)
    → 0 < batch_size
    → all_batches batch_size (k * batch_size + t) ≡ k + all_batches batch_size t
all_batches-mul-add batch_size k t h =
    let e : k * batch_size + t + batch_size - 1 ≡ k * batch_size + (t + batch_size - 1) =
      omega arith in
    rw e (mul-add-div_right h k (t + batch_size - 1))

module _ (f : ℕ → ℕ) (batch_size : ℕ) (f-mul-add : (k t : ℕ) → f (k * batch_size + t) ≡ k + f t)
    (f-zero : f 0 ≡ 0) where
  f-mul : (k : ℕ) → f (k * batch_size) ≡ k
  f-mul k =
      let e : k * batch_size + 0 ≡ k * batch_size = omega arith in
      omega (arith, rw e at (f-mul-add k 0), f-zero)

  sum-map-spread :
      (tail k : ℕ) (ks : List ℕ)
      → sum (map f (spread batch_size tail (k ∷ ks))) ≡ sum (k ∷ ks) + f tail
  sum-map-spread tail k [] = omega (arith, f-mul-add k tail)
  sum-map-spread tail k (k' ∷ ks) = omega (arith, f-mul k, sum-map-spread tail k' ks)

  sum-map-replicate : (n : ℕ) → sum (map f (replicate n 0)) ≡ 0
  sum-map-replicate zero = refl
  sum-map-replicate (suc n) = omega (arith, f-zero, sum-map-replicate n)

  -- A count of batches that is additive over whole batches has the total of the undivided budget.
  pub sum-map-budgets :
      (samples active idle : ℕ)
      → 0 < active
      → 0 < batch_size
      → sum (
          map f (
            spread batch_size (samples % batch_size) (shares (samples / batch_size) active 0 active)
            ++ replicate idle 0))
        ≡ f samples
  sum-map-budgets samples zero idle h b = elim h [ ]
  sum-map-budgets samples (suc n) idle h b =
      let ks = shares (samples / batch_size) (suc n) 1 n in
      let k = (span (samples / batch_size) (suc n) 0).length in
      rw
        (
          map-append f (spread batch_size (samples % batch_size) (k ∷ ks)) (replicate idle 0),
          sum-append (map f (spread batch_size (samples % batch_size) (k ∷ ks)))
              (map f (replicate idle 0)),
          sum-map-replicate idle,
          sum-map-spread (samples % batch_size) k ks,
        )
        (omega (
          arith,
          sum-shares_all (samples / batch_size) (suc n) h,
          rw div-add-mod' at (f-mul-add (samples / batch_size) (samples % batch_size)),
        ))
