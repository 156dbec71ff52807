-- ===== src/Export/Artifacts.antt =====
-- `ConstructionArtifacts` of dataset_rt/reconstruction.py, the directories of exports. Which
-- directories there are, and what `mkdtemp` and `rmtree` do, are arguments.
use dataset_rt.Prelude.{
  ℕ, ◌==◌, not, ◌&&◌, Bool, true, false, Option, none, some, List, [], ◌∷◌, String, if◌then◌else◌,
}
use dataset_rt.Python.{Result, ok, value_error, os_error, ◌>>◌, raise_if}

-- `ConstructionArtifacts`, by the number of its directory, over the directories that there are.
pub record ConstructionArtifacts : Type 0 where
  pub directory : ℕ
  pub pid : ℕ
  pub temporary : Bool

unfoldable pub remove_directory : ℕ → List ℕ → List ℕ
remove_directory directory [] = []
remove_directory directory (other ∷ others) =
    let rest = remove_directory directory others in
    if other == directory then rest else other ∷ rest

-- `create`: a work directory has to exist, and `mkdtemp` raises or gives a directory that was not
-- there.
unfoldable pub create_artifacts :
    (String → Bool)
    → Bool
    → ℕ
    → ℕ
    → Option String
    → List ℕ
    → Result (ConstructionArtifacts × List ℕ)
create_artifacts is_directory unmade fresh pid none directories = do
  raise_if unmade os_error
  ok (record { directory = fresh; pid = pid; temporary = true }, fresh ∷ directories)
create_artifacts is_directory unmade fresh pid (some work_dir) directories = do
  raise_if (not (is_directory work_dir)) (value_error "work_dir")
  raise_if unmade os_error
  ok (record { directory = fresh; pid = pid; temporary = false }, fresh ∷ directories)

-- `discard`: `rmtree` ignores its errors, and a directory that it could not remove is kept.
unfoldable pub discard : ConstructionArtifacts → ℕ → Bool → List ℕ → List ℕ
unfolding remove_directory
discard artifacts pid kept directories =
    if artifacts.pid == pid && not kept
    then remove_directory artifacts.directory directories
    else directories

-- `__del__`
unfoldable pub release : ConstructionArtifacts → ℕ → Bool → List ℕ → List ℕ
unfolding discard
release artifacts pid kept directories =
    if artifacts.temporary then discard artifacts pid kept directories else directories
