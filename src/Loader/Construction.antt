-- ===== src/Loader/Construction.antt =====
-- What a call of `make_dataloader` leaves behind, and what its loader is made of.
use dataset_rt.Prelude.{ℕ, ◌≡◌, Bool, true, List, ◌∷◌, ◌⊎◌}
use dataset_rt.Python.{ok, err, Error}
use dataset_rt.Export.Artifacts.{ConstructionArtifacts, discard}
use dataset_rt.Loader.{Prepared, Constructed}

-- Either a loader with a directory that was not there, or an error and the directories there were,
-- beside the new one where it could not be removed.
abbrev pub Settled : Bool → ℕ → List ℕ → Constructed → Type 0
Settled kept fresh directories out =
    ((prepared : Prepared) × (out.loader ≡ ok prepared) × (out.directories ≡ fresh ∷ directories))
    ⊎ ((e : Error) × (out.loader ≡ err e)
        × ((out.directories ≡ directories)
            ⊎ ((kept ≡ true) × (out.directories ≡ fresh ∷ directories))))

-- The artifacts that are made are in a new directory, which their owner can discard unless it is
-- kept.
abbrev Made : Bool → ℕ → ℕ → List ℕ → ConstructionArtifacts × List ℕ → Type 0
Made kept fresh pid directories made =
    ((discard made.0 pid kept made.1 ≡ directories)
      ⊎ ((kept ≡ true) × (discard made.0 pid kept made.1 ≡ fresh ∷ directories)))
    × (made.1 ≡ fresh ∷ directories)
