-- ===== src/Dataset/Manifests.antt =====
-- `update_manifests` of dataset_rt/dataset.py: the native records become typed outcomes.
use dataset_rt.Prelude.{
  ℕ, ◌≡◌, refl, subst, pos, leb_ℤ, Bool, true, false, ◌&&◌, Option, none, some, List, [], ◌∷◌,
  String, str_eq, if◌then◌else◌, arith, Bool-cases, inl, inr,
}
use dataset_rt.Python.{
  Value, int, Result, ok, err, value_error, ◌>>=◌, traverse, >>=-elim, ok-injective,
}

-- The native status text, and what it is narrowed to.
pub data Status : Type 0 where
  updated unchanged durability_unknown : Status

pub record ManifestUpdateEntry : Type 0 where
  pub path : String
  pub cache_id : ℕ
  pub status : Status

-- `Path | AbsentManifestTarget`
pub data ManifestTarget : Type 0 where
  target : String → ManifestTarget
  absent : String → ManifestTarget

-- `Result[ManifestUpdateReport, ManifestUpdateError]`
pub data ManifestUpdate : Type 0 where
  report : List ManifestUpdateEntry → ManifestUpdate
  failed : ManifestTarget → String → List ManifestUpdateEntry → ManifestUpdate

-- One native record: path, identity and status.
pub record RawEntry : Type 0 where
  pub path : String
  pub cache_id : ℕ
  pub status : String

-- What the native call returns.
pub record RawUpdate : Type 0 where
  pub success : Bool
  pub records : List RawEntry
  pub failed_path : Option String
  pub message : String

unfoldable pub read_status : String → Result Status
read_status status =
    if str_eq status "updated"
    then ok updated
    else if str_eq status "unchanged"
    then ok unchanged
    else if str_eq status "durability_unknown"
    then ok durability_unknown
    else err (value_error "invalid native manifest update status")

unfoldable pub read_entry : RawEntry → Result ManifestUpdateEntry
read_entry raw = do
  status ← read_status raw.status
  ok (record { path = raw.path; cache_id = raw.cache_id; status = status })

unfoldable pub failed_target : Option String → ManifestTarget
failed_target none = absent "request has no filesystem target"
failed_target (some path) = target path

unfoldable pub conclude : RawUpdate → List ManifestUpdateEntry → ManifestUpdate
unfolding failed_target
conclude raw entries =
    if raw.success
    then report entries
    else failed (failed_target raw.failed_path) raw.message entries

unfoldable pub is_three : Value → Bool
is_three (int n) = leb_ℤ n (pos 3) && leb_ℤ (pos 3) n
is_three _ = false

unfoldable pub narrow_update : RawUpdate → Result ManifestUpdate
unfolding conclude
narrow_update raw = do entries ← traverse read_entry raw.records; ok (conclude raw entries)

unfoldable pub update_manifests : (ℕ → RawUpdate) → Value → Result ManifestUpdate
unfolding is_three narrow_update
update_manifests native version =
    if is_three version
    then narrow_update (native 3)
    else ok (
        failed (absent "unsupported migration request")
          "unsupported manifest migration target; expected integer 3" [])

-- The entries that an outcome retains.
abbrev pub entries_of : ManifestUpdate → List ManifestUpdateEntry
entries_of (report entries) = entries
entries_of (failed at message entries) = entries

abbrev pub is_report : ManifestUpdate → Bool
is_report (report entries) = true
is_report (failed at message entries) = false

-- An entry is of the record at its place.
abbrev pub Retains : List RawEntry → List ManifestUpdateEntry → Type 0
Retains [] [] = Unit
Retains [] (entry ∷ entries) = ⊥
Retains (raw ∷ records) [] = ⊥
Retains (raw ∷ records) (entry ∷ entries) =
    (entry.path ≡ raw.path)
    × (entry.cache_id ≡ raw.cache_id)
    × (read_status raw.status ≡ ok entry.status)
    × Retains records entries

traverse-Retains :
    (records : List RawEntry) (entries : List ManifestUpdateEntry)
    → traverse read_entry records ≡ ok entries
    → Retains records entries
unfolding traverse read_entry
traverse-Retains [] [] h = tt
traverse-Retains [] (entry ∷ entries) h = cc
traverse-Retains (raw ∷ records) out h = >>=-elim (read_entry raw) _ h λ entry is_entry rest.
    >>=-elim (read_status raw.status) _ is_entry λ status is_status made.
      >>=-elim (traverse read_entry records) _ rest λ entries is_entries done.
        let later = traverse-Retains records entries is_entries in
        let e : entry ∷ entries ≡ out = ok-injective done in
        subst (Retains (raw ∷ records)) e
          (ground arith, ground arith, ground (arith, is_status), later)

-- A migration that returns keeps every record that the native call completed, in order and with
-- its path, identity and status, whether it succeeded or stopped, and is a report exactly if the
-- native call succeeded.
pub update_manifests-Retains :
    (native : ℕ → RawUpdate) (out : ManifestUpdate)
    → update_manifests native (int (pos 3)) ≡ ok out
    → Retains (native 3).records (entries_of out) × (is_report out ≡ (native 3).success)
unfolding update_manifests conclude
update_manifests-Retains native out h =
    >>=-elim (traverse read_entry (native 3).records) _ h λ entries is_entries done.
      let kept = traverse-Retains (native 3).records entries is_entries in
      let e : conclude (native 3) entries ≡ out = ok-injective done in
      subst
        (λ (o : ManifestUpdate).
          Retains (native 3).records (entries_of o) × (is_report o ≡ (native 3).success))
        e
        (elim (Bool-cases (native 3).success) [
          | inl done_all ↦ rw done_all (kept, refl)
          | inr stopped ↦ rw stopped (kept, refl)
        ])
