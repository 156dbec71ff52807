-- ===== src/Resources/Available.antt =====
-- `available_cpu_count` of dataset_rt/resources.py: what the machine, the affinity mask and the
-- control groups leave. What the operating system answers is an argument.
pub mod Floors
use dataset_rt.Prelude.{
  ℕ, zero, suc, ◌*◌, ◌/◌, max, ltb, ◌==◌, Bool, true, false, Option, none, some, List, [], ◌∷◌,
  if◌then◌else◌,
}
use dataset_rt.Python.{Result, ok, err, Error}
use dataset_rt.Writer.{Text}
use dataset_rt.Resources.Cgroups.{Reading}
use dataset_rt.Resources.Limits.{Fraction, Files, linux_limits}

-- `affinity` is none where the system has no affinity masks, and otherwise the size of the process's
-- mask, or an error. Errors are those that the function catches.
pub record Machine : Type 0 where
  pub cpu_count : Option ℕ
  pub affinity : Option (Result ℕ)
  pub linux : Bool
  pub reading : Reading
  pub files : List Text → Files
  pub cgroup_text : Result Text
  pub mountinfo_text : Result Text

-- `os.cpu_count() or 1`
unfoldable pub whole_machine : Option ℕ → ℕ
whole_machine none = 1
whole_machine (some n) = if n == 0 then 1 else n

-- `min(limit, constraint)`
unfoldable pub lesser : Fraction → Fraction → Fraction
lesser limit constraint =
    if ltb (constraint.numerator * limit.denominator) (limit.numerator * constraint.denominator)
    then constraint
    else limit

unfoldable pub least : Fraction → List Fraction → Fraction
unfolding lesser
least limit [] = limit
least limit (constraint ∷ constraints) = least (lesser limit constraint) constraints

abbrev pub whole_fraction : ℕ → Fraction
whole_fraction n = record { numerator = n; denominator = 1 }

-- `if affinity: limit = min(limit, Fraction(affinity))`
unfoldable pub masked : ℕ → Option (Result ℕ) → Result Fraction
unfolding lesser
masked cpus none = ok (whole_fraction cpus)
masked cpus (some (err error)) = err error
masked cpus (some (ok affinity)) = ok (
    if affinity == 0
    then whole_fraction cpus
    else lesser (whole_fraction cpus) (whole_fraction affinity))

unfoldable pub constraints : Machine → Result (List Fraction)
unfolding linux_limits
constraints m =
    if m.linux then linux_limits m.reading m.files m.cgroup_text m.mountinfo_text else ok []

-- `max(1, limit.numerator // limit.denominator)`
unfoldable pub rounded : Fraction → ℕ
rounded limit = max 1 (limit.numerator / limit.denominator)

-- An error in the mask or in the limits leaves one processor.
unfoldable pub constrained : Result Fraction → Result (List Fraction) → ℕ
unfolding least rounded
constrained (err error) limits = 1
constrained (ok limit) (err error) = 1
constrained (ok limit) (ok found) = rounded (least limit found)

unfoldable pub available_cpu_count : Machine → ℕ
unfolding whole_machine masked constraints constrained
available_cpu_count m = constrained (masked (whole_machine m.cpu_count) m.affinity) (constraints m)
