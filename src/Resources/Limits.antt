-- ===== src/Resources/Limits.antt =====
-- The limits of the control groups: `_cpuset_limit`, `_directory_limits` and `_linux_limits` of
-- dataset_rt/resources.py. A fraction keeps the terms it is made of.
pub mod Ranges
pub mod Levels
pub mod Positive
use dataset_rt.Prelude.{
  ℕ, zero, suc, ◌+◌, ◌-◌, ◌==◌, ◌&&◌, ◌||◌, not, ℤ, pos, negsuc, pos_part, neg_part, ltb_ℤ, leb_ℤ,
  Bool, true, false, Option, none, some, List, [], ◌∷◌, ◌++◌, length, take, drop, if◌then◌else◌,
}
use dataset_rt.Python.{
  Result, ok, err, Error, value_error, os_error, ◌>>=◌, ◌>>◌, raise_if, traverse,
}
use dataset_rt.Writer.{Text, text_eq}
use dataset_rt.Resources.Cgroups.{
  Reading, parse_int, split, Membership, Mount, Version, unified, separate, cpu, cpuset, contains,
  memberships, mounts,
}

pub record Fraction : Type 0 where
  pub numerator : ℕ
  pub denominator : ℕ

-- A range of processors, from its first to its last.
unfoldable pub range_of : Reading → Text → Result (ℤ × ℤ)
unfolding parse_int split
range_of r item = elim (split 45 item) as (λ ends. Result (ℤ × ℤ)) [
  | [] ↦ err (value_error "invalid cgroup CPU set")
  | (first ∷ []) ↦ do start ← parse_int r first; ok (start, start)
  | (first ∷ last ∷ []) ↦ do start ← parse_int r first; end ← parse_int r last; ok (start, end)
  | (first ∷ _ ∷ _ ∷ _) ↦ do start ← parse_int r first; err (value_error "invalid cgroup CPU set")
]

-- `end - start + 1`, where the end is not before the start.
abbrev pub span_count : ℤ → ℤ → ℕ
span_count start end = suc (pos_part end + neg_part start) - (pos_part start + neg_part end)

-- The loop, behind `count` processors up to `previous`.
unfoldable pub count_ranges : Reading → ℕ → ℤ → List Text → Result ℕ
unfolding range_of
count_ranges r count previous [] = ok count
count_ranges r count previous (item ∷ items) = do
  ends ← range_of r item
  raise_if (leb_ℤ ends.0 previous || ltb_ℤ ends.1 ends.0) (value_error "invalid cgroup CPU set")
  count_ranges r (count + span_count ends.0 ends.1) ends.1 items

abbrev counted : Result ℕ → Result (Option ℕ)
counted (ok n) = ok (some n)
counted (err error) = err error

unfoldable pub cpuset_limit : Reading → Text → Result (Option ℕ)
unfolding split count_ranges
cpuset_limit r [] = ok none
cpuset_limit r (c ∷ value) = counted (count_ranges r 0 (negsuc 0) (split 44 (c ∷ value)))

-- The files of a directory, as `_read_optional` reads them.
pub record Files : Type 0 where
  pub cpu_max : Result (Option Text)
  pub cpuset_effective : Result (Option Text)
  pub cfs_quota : Result (Option Text)
  pub cfs_period : Result (Option Text)
  pub cpuset_cpus : Result (Option Text)

-- The word max
abbrev pub max_word : Text
max_word = 109 ∷ 97 ∷ 120 ∷ []

-- `Fraction(quota, period)` of a positive period, which is to be positive.
unfoldable pub positive_limit : ℤ → ℤ → Result (List Fraction)
positive_limit quota period = do
  raise_if (leb_ℤ quota (pos 0)) (value_error "invalid cgroup CPU quota")
  ok (record { numerator = pos_part quota; denominator = pos_part period } ∷ [])

unfoldable pub share_of : Reading → List Text → Result (List Fraction)
unfolding parse_int positive_limit
share_of r (quota ∷ period ∷ []) = do
  ticks ← parse_int r period
  raise_if (leb_ℤ ticks (pos 0)) (value_error "invalid cgroup CPU period")
  if text_eq quota max_word
      then ok []
      else (do share ← parse_int r quota; positive_limit share ticks)
share_of r _ = err (value_error "values to unpack")

unfoldable pub unified_quota : Reading → Option Text → Result (List Fraction)
unfolding share_of
unified_quota r none = ok []
unified_quota r (some maximum) = share_of r (r.words none maximum)

unfoldable pub separate_quota : Reading → Option Text → Option Text → Result (List Fraction)
unfolding parse_int
separate_quota r none none = ok []
separate_quota r (some quota) none = err (value_error "incomplete cgroup CPU quota")
separate_quota r none (some period) = err (value_error "incomplete cgroup CPU quota")
separate_quota r (some quota) (some period) = do
  ticks ← parse_int r period
  raise_if (leb_ℤ ticks (pos 0)) (value_error "invalid cgroup CPU quota")
  share ← parse_int r quota
  raise_if ((leb_ℤ share (pos 0) && leb_ℤ (pos 0) share) || ltb_ℤ share (negsuc 0))
      (value_error "invalid cgroup CPU quota")
  ok (
      if ltb_ℤ (pos 0) share
      then record { numerator = pos_part share; denominator = pos_part ticks } ∷ []
      else [])

unfoldable pub set_limits : Reading → Option Text → Result (List Fraction)
unfolding cpuset_limit
set_limits r none = ok []
set_limits r (some cpus) = do
  count ← cpuset_limit r cpus
  ok (elim count as (λ o. List Fraction) [
    | none ↦ []
    | some n ↦ record { numerator = n; denominator = 1 } ∷ []
  ])

unfoldable pub version_limits :
    Reading → Files → List Text → Version → Result (List Fraction × Option Text)
unfolding unified_quota separate_quota
version_limits r files controllers unified = do
  maximum ← files.cpu_max
  limits ← unified_quota r maximum
  cpus ← files.cpuset_effective
  ok (limits, cpus)
version_limits r files controllers separate = do
  limits ←
      if contains cpu controllers
      then (do quota ← files.cfs_quota; period ← files.cfs_period; separate_quota r quota period)
      else ok []
  cpus ← if contains cpuset controllers then files.cpuset_cpus else ok none
  ok (limits, cpus)

unfoldable pub directory_limits : Reading → Files → Mount → Result (List Fraction)
unfolding version_limits set_limits
directory_limits r files mount = do
  quota ← version_limits r files mount.controllers mount.version
  sets ← set_limits r quota.1
  ok (quota.0 ++ sets)

-- Paths by their parts.
unfoldable pub path_eq : List Text → List Text → Bool
path_eq [] [] = true
path_eq [] (part ∷ parts) = false
path_eq (part ∷ parts) [] = false
path_eq (part ∷ parts) (other ∷ others) = text_eq part other && path_eq parts others

unfoldable pub is_relative_to : List Text → List Text → Bool
is_relative_to path [] = true
is_relative_to [] (part ∷ root) = false
is_relative_to (part ∷ path) (other ∷ root) = text_eq part other && is_relative_to path root

unfoldable pub parent : List Text → List Text
parent [] = []
parent (part ∷ []) = []
parent (part ∷ other ∷ parts) = part ∷ parent (other ∷ parts)

-- The directories that the loop visits, from `current` up to the mount, on fuel.
unfoldable pub climb : ℕ → List Text → List Text → Option (List (List Text))
unfolding path_eq parent
climb zero mount_path current = none
climb (suc fuel) mount_path current =
    let rest = climb fuel mount_path (parent current) in
    if path_eq current mount_path
    then some (current ∷ [])
    else elim rest [ none ↦ none | some above ↦ some (current ∷ above) ]

abbrev is_none : List Text → Bool
is_none [] = true
is_none (text ∷ texts) = false

intersects : List Text → List Text → Bool
intersects [] others = false
intersects (text ∷ texts) others = contains text others || intersects texts others

-- Whether a hierarchy does not hold the process.
unfoldable pub skips : Mount → Membership → Bool
unfolding intersects
skips mount membership = elim mount.version [
  | unified ↦ not (is_none membership.controllers)
  | separate ↦ not (intersects membership.controllers mount.controllers)
]

unfoldable pub relative : Mount → Membership → List Text
unfolding is_relative_to
relative mount membership =
    if is_relative_to membership.path mount.root
    then drop (length mount.root) membership.path
    else membership.path

unfoldable pub concat : List (List Fraction) → List Fraction
concat [] = []
concat (limits ∷ all) = limits ++ concat all

unfoldable pub visited : Mount → Membership → List (List Text)
unfolding climb relative
visited mount membership =
    let path = relative mount membership in
    elim (climb (suc (length path)) mount.path (mount.path ++ path)) as (λ o. List (List Text)) [
      | none ↦ []
      | some directories ↦ directories
    ]

unfoldable pub member_limits :
    Reading → (List Text → Files) → Mount → Membership → Result (List Fraction)
unfolding skips visited directory_limits concat traverse
member_limits r files mount membership = if skips mount membership then ok [] else (do
  all ←
      traverse (λ directory. directory_limits r (files directory) mount) (visited mount membership)
  ok (concat all))

unfoldable pub mount_limits :
    Reading → (List Text → Files) → List Membership → Mount → Result (List Fraction)
unfolding member_limits
mount_limits r files members mount = do
  all ← traverse (member_limits r files mount) members
  ok (concat all)

unfoldable pub linux_limits :
    Reading → (List Text → Files) → Result Text → Result Text → Result (List Fraction)
unfolding mount_limits
linux_limits r files cgroup_text mountinfo_text = do
  text ← cgroup_text
  members ← memberships r text
  lines ← mountinfo_text
  mounted ← mounts r lines
  all ← traverse (mount_limits r files members) mounted
  ok (concat all)
