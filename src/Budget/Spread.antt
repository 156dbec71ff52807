-- ===== src/Budget/Spread.antt =====
-- The budgets that `worker_budgets` builds, as a plain list: whole batches, and a tail at the last.

use dataset_rt.Prelude.{
  ℕ, zero, suc, ◌+◌, ◌-◌, ◌*◌, ◌/◌, ◌%◌, ◌≤◌, ◌<◌, min, max, ◌≡◌, ap, ◌∙◌, refl, false, List, [],
  ◌∷◌, ◌++◌, map, arith, ◌==◌, replicate, range, range_from,
}
use dataset_rt.Python.{Result, ok, traverse}
use dataset_rt.Partition.{u64_max, span}
use dataset_rt.Partition.Spans.{partition_rows-eq-span}
use dataset_rt.Budget.{add_last, part_budget, worker_budgets}

traverse-range_from :
    (f : ℕ → Result ℕ) (g : ℕ → ℕ) (i n end : ℕ)
    → i + n ≡ end
    → ((k : ℕ) → k < end → f k ≡ ok (g k))
    → traverse f (range_from i n) ≡ ok (map g (range_from i n))
unfolding traverse
traverse-range_from f g i zero end e h = refl
traverse-range_from f g i (suc n) end e h =
    rw (h i (omega arith), traverse-range_from f g (suc i) n end (omega arith) h)

-- The batches of each active worker.
abbrev pub shares : ℕ → ℕ → ℕ → ℕ → List ℕ
shares batches active i n = map (λ k. (span batches active k).length) (range_from i n)

-- `shares` in samples, the tail added to the last.
abbrev pub spread : ℕ → ℕ → List ℕ → List ℕ
spread batch_size tail [] = []
spread batch_size tail (k ∷ []) = (k * batch_size + tail) ∷ []
spread batch_size tail (k ∷ k' ∷ ks) = (k * batch_size) ∷ spread batch_size tail (k' ∷ ks)

map-shares :
    (batches active batch_size i n : ℕ)
    → map (λ k. (span batches active k).length * batch_size) (range_from i n)
      ≡ map (λ k. k * batch_size) (shares batches active i n)
map-shares batches active batch_size i zero = refl
map-shares batches active batch_size i (suc n) = rw (map-shares batches active batch_size (suc i) n)

add_last-spread :
    (batch_size tail k : ℕ) (ks : List ℕ)
    → add_last (map (λ k. k * batch_size) (k ∷ ks)) tail ≡ ok (spread batch_size tail (k ∷ ks))
unfolding add_last
add_last-spread batch_size tail k [] = refl
add_last-spread batch_size tail k (k' ∷ ks) = rw (add_last-spread batch_size tail k' ks)

part_budget-eq :
    (batches active batch_size k : ℕ)
    → batches ≤ u64_max
    → active ≤ u64_max
    → k < active
    → part_budget batches active batch_size k ≡ ok ((span batches active k).length * batch_size)
unfolding part_budget
part_budget-eq batches active batch_size k b a h =
    rw (partition_rows-eq-span batches active k b a h)

all_parts :
    (batches active batch_size : ℕ)
    → batches ≤ u64_max
    → active ≤ u64_max
    → traverse (part_budget batches active batch_size) (range active)
      ≡ ok (map (λ k. k * batch_size) (shares batches active 0 active))
all_parts batches active batch_size b a =
    traverse-range_from (part_budget batches active batch_size) _ 0 active active (omega arith)
      (λ k h. part_budget-eq batches active batch_size k b a h)
    ∙ ap ok (map-shares batches active batch_size 0 active)

==-false : (n : ℕ) → 0 < n → (n == 0) ≡ false
==-false n h = ground arith

abbrev pub active_of : ℕ → ℕ → ℕ → ℕ → ℕ
active_of samples workers populations batch_size =
    min workers (min populations (max 1 (samples / batch_size)))

add_last-shares :
    (batches active batch_size tail : ℕ)
    → 0 < active
    → add_last (map (λ k. k * batch_size) (shares batches active 0 active)) tail
      ≡ ok (spread batch_size tail (shares batches active 0 active))
add_last-shares batches zero batch_size tail h = elim h [ ]
add_last-shares batches (suc n) batch_size tail h =
    add_last-spread batch_size tail (span batches (suc n) 0).length (shares batches (suc n) 1 n)

-- The result of `worker_budgets` on a positive budget.
pub worker_budgets-eq-spread :
    (samples workers populations batch_size : ℕ)
    → 0 < samples
    → samples ≤ u64_max
    → 0 < workers
    → 0 < populations
    → 0 < batch_size
    → let active = active_of samples workers populations batch_size in
      worker_budgets samples workers populations batch_size
      ≡ ok (
          spread batch_size (samples % batch_size) (shares (samples / batch_size) active 0 active)
          ++ replicate (workers - active) 0)
unfolding worker_budgets
worker_budgets-eq-spread samples workers populations batch_size s u w p b =
    let active = active_of samples workers populations batch_size in
    let few : samples / batch_size ≤ samples = omega arith in
    rw (
      ==-false samples s,
      ==-false populations p,
      ==-false batch_size b,
      all_parts (samples / batch_size) active batch_size (omega arith) (omega arith),
      add_last-shares (samples / batch_size) active batch_size (samples % batch_size) (omega arith),
    )
