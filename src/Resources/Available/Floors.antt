-- ===== src/Resources/Available/Floors.antt =====
-- The processors that are available, by whole processors: each limit is rounded down by itself.
use dataset_rt.Prelude.{
  ℕ, ◌/◌, ◌<◌, min, max, ◌==◌, ◌≡◌, Option, none, some, List, [], ◌∷◌, ◌⊎◌, if◌then◌else◌,
}
use dataset_rt.Python.{Result, ok, err, Error}
use dataset_rt.Resources.Limits.{Fraction}

-- The least of whole processors.
abbrev pub least_whole : ℕ → List Fraction → ℕ
least_whole n [] = n
least_whole n (f ∷ fs) = least_whole (min n (f.numerator / f.denominator)) fs

-- The processors of the mask, where there is one that is not empty.
abbrev pub mask_bound : ℕ → Option (Result ℕ) → ℕ
mask_bound cpus none = cpus
mask_bound cpus (some (err error)) = cpus
mask_bound cpus (some (ok affinity)) = if affinity == 0 then cpus else min cpus affinity

-- How many processors there are, by the mask and the limits.
abbrev pub Outcome : ℕ → Result Fraction → Result (List Fraction) → ℕ → Type 0
Outcome bound mask limits n =
    (0 < n)
    × (((found : List Fraction) × (limits ≡ ok found) × (n ≡ max 1 (least_whole bound found)))
        ⊎ ((n ≡ 1) × (((e : Error) × (mask ≡ err e)) ⊎ ((e : Error) × (limits ≡ err e)))))
