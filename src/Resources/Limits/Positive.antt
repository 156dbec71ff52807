-- ===== src/Resources/Limits/Positive.antt =====
-- Every limit that is found has a positive denominator.
use dataset_rt.Prelude.{
  ℕ, ◌<◌, ◌≡◌, ap, subst, ℤ, pos, negsuc, pos_part, leb_ℤ, ltb_ℤ, ◌&&◌, ◌||◌, Bool-cases, Option,
  none, some, List, [], ◌∷◌, ◌++◌, All, arith, inl, inr, if◌then◌else◌,
}
use dataset_rt.Python.{
  Result, ok, Error, value_error, ◌>>=◌, raise_if, traverse, >>=-elim, ok-injective,
}
use dataset_rt.Writer.{Text, text_eq}
use dataset_rt.Resources.Cgroups.{
  Reading, parse_int, Membership, Mount, Version, unified, separate, memberships, mounts, contains,
  cpu, cpuset,
}
use dataset_rt.Resources.Limits.{
  Fraction, Files, cpuset_limit, positive_limit, share_of, unified_quota, separate_quota,
  set_limits, version_limits, directory_limits, skips, visited, concat, member_limits, mount_limits,
  linux_limits, max_word,
}

abbrev pub IsFraction : Fraction → Type 0
IsFraction f = 0 < f.denominator

All-append :
    (xs ys : List Fraction) → All IsFraction xs → All IsFraction ys → All IsFraction (xs ++ ys)
All-append [] ys px py = py
All-append (x ∷ xs) ys (p, px) py = (p, All-append xs ys px py)

-- What holds of the results of a call that returns holds of those of all calls.
traverse-concat :
    {A : Type 0} (call : A → Result (List Fraction)) (items : List A) (all : List (List Fraction))
    → ((a : A) (fs : List Fraction) → call a ≡ ok fs → All IsFraction fs)
    → traverse call items ≡ ok all
    → All IsFraction (concat all)
unfolding traverse concat
traverse-concat call [] all each h =
    subst (λ (l : List (List Fraction)). All IsFraction (concat l)) (ok-injective h) tt
traverse-concat call (item ∷ items) all each h = >>=-elim (call item) _ h λ first found rest.
    >>=-elim (traverse call items) _ rest λ others is_others done.
      subst (λ (l : List (List Fraction)). All IsFraction (concat l)) (ok-injective done)
        (All-append first (concat others) (each item first found)
          (traverse-concat call items others each is_others))

kept : {xs ys : List Fraction} → xs ≡ ys → All IsFraction xs → All IsFraction ys
kept same all = subst (λ (l : List Fraction). All IsFraction l) same all

positive_limit-IsFraction :
    (quota period : ℤ) (fs : List Fraction)
    → 0 < pos_part period
    → positive_limit quota period ≡ ok fs
    → All IsFraction fs
unfolding positive_limit
positive_limit-IsFraction quota period fs p h =
    >>=-elim (raise_if (leb_ℤ quota (pos 0)) _) _ h λ _ _ done. kept (ok-injective done) (p, tt)

positive-ticks :
    (ticks : ℤ) (e : Error) → raise_if (leb_ℤ ticks (pos 0)) e ≡ ok tt → 0 < pos_part ticks
positive-ticks (pos n) e h = ground (arith, h)
positive-ticks (negsuc n) e h = absurd (ground (arith, h))

share_of-IsFraction :
    (r : Reading) (words : List Text) (fs : List Fraction)
    → share_of r words ≡ ok fs
    → All IsFraction fs
unfolding share_of
share_of-IsFraction r [] fs h = cc
share_of-IsFraction r (_ ∷ []) fs h = cc
share_of-IsFraction r (_ ∷ _ ∷ _ ∷ _) fs h = cc
share_of-IsFraction r (quota ∷ period ∷ []) fs h = >>=-elim (parse_int r period) _ h λ ticks _ h1.
    >>=-elim (raise_if (leb_ℤ ticks (pos 0)) (value_error _)) _ h1 λ _ valid h2.
      elim (Bool-cases (text_eq quota max_word)) [
        | inl unlimited ↦ kept (ok-injective (rw unlimited at h2)) tt
        | inr limited ↦
            >>=-elim (parse_int r quota) _ (rw limited at h2) λ share _ h3.
              positive_limit-IsFraction share ticks fs (positive-ticks ticks _ valid) h3
      ]

unified_quota-IsFraction :
    (r : Reading) (maximum : Option Text) (fs : List Fraction)
    → unified_quota r maximum ≡ ok fs
    → All IsFraction fs
unfolding unified_quota
unified_quota-IsFraction r none fs h = kept (ok-injective h) tt
unified_quota-IsFraction r (some maximum) fs h = share_of-IsFraction r (r.words none maximum) fs h

separate_quota-IsFraction :
    (r : Reading) (quota period : Option Text) (fs : List Fraction)
    → separate_quota r quota period ≡ ok fs
    → All IsFraction fs
unfolding separate_quota
separate_quota-IsFraction r none none fs h = kept (ok-injective h) tt
separate_quota-IsFraction r none (some period) fs h = cc
separate_quota-IsFraction r (some quota) none fs h = cc
separate_quota-IsFraction r (some quota) (some period) fs h =
    >>=-elim (parse_int r period) _ h λ ticks _ h1.
      >>=-elim (raise_if (leb_ℤ ticks (pos 0)) (value_error _)) _ h1 λ _ valid h2.
        >>=-elim (parse_int r quota) _ h2 λ share _ h3.
          >>=-elim
            (raise_if ((leb_ℤ share (pos 0) && leb_ℤ (pos 0) share) || ltb_ℤ share (negsuc 0))
              (value_error _))
            _ h3
            λ _ _ done. elim (Bool-cases (ltb_ℤ (pos 0) share)) [
              | inl limited ↦
                  kept (ok-injective (rw limited at done)) (positive-ticks ticks _ valid, tt)
              | inr unlimited ↦ kept (ok-injective (rw unlimited at done)) tt
            ]

counted_fraction :
    (count : Option ℕ)
    → All IsFraction (elim count as (λ o. List Fraction) [
      | none ↦ []
      | some n ↦ record { numerator = n; denominator = 1 } ∷ []
    ])
counted_fraction none = tt
counted_fraction (some n) = (omega arith, tt)

set_limits-IsFraction :
    (r : Reading) (cpus : Option Text) (fs : List Fraction)
    → set_limits r cpus ≡ ok fs
    → All IsFraction fs
unfolding set_limits
set_limits-IsFraction r none fs h = kept (ok-injective h) tt
set_limits-IsFraction r (some cpus) fs h =
    >>=-elim (cpuset_limit r cpus) _ h
      λ count _ done. kept (ok-injective done) (counted_fraction count)

version_limits-IsFraction :
    (r : Reading) (files : Files) (controllers : List Text) (version : Version)
    (out : List Fraction × Option Text)
    → version_limits r files controllers version ≡ ok out
    → All IsFraction out.0
unfolding version_limits
version_limits-IsFraction r files controllers unified out h =
    >>=-elim files.cpu_max _ h λ maximum _ h1.
      >>=-elim (unified_quota r maximum) _ h1 λ limits found h2.
        >>=-elim files.cpuset_effective _ h2 λ cpus _ done.
          kept (ap (λ (pair : List Fraction × Option Text). pair.0) (ok-injective done))
            (unified_quota-IsFraction r maximum limits found)
version_limits-IsFraction r files controllers separate out h =
    elim (Bool-cases (contains cpu controllers)) [
      | inr without ↦
          >>=-elim (if contains cpuset controllers then files.cpuset_cpus else ok none) _
            (rw without at h)
            λ cpus _ done.
              kept (ap (λ (pair : List Fraction × Option Text). pair.0) (ok-injective done)) tt
      | inl with_quota ↦
          >>=-elim
            (files.cfs_quota >>= λ quota.
              files.cfs_period >>= λ period. separate_quota r quota period)
            _ (rw with_quota at h)
            λ limits found h1.
              >>=-elim (if contains cpuset controllers then files.cpuset_cpus else ok none) _ h1
                λ cpus _ done.
                  kept (ap (λ (pair : List Fraction × Option Text). pair.0) (ok-injective done)) (
                    >>=-elim files.cfs_quota _ found λ quota _ h2.
                      >>=-elim files.cfs_period _ h2
                        λ period _ h3. separate_quota-IsFraction r quota period limits h3)
    ]

directory_limits-IsFraction :
    (r : Reading) (files : Files) (mount : Mount) (fs : List Fraction)
    → directory_limits r files mount ≡ ok fs
    → All IsFraction fs
unfolding directory_limits
directory_limits-IsFraction r files mount fs h =
    >>=-elim (version_limits r files mount.controllers mount.version) _ h λ quota is_quota rest.
      >>=-elim (set_limits r quota.1) _ rest λ sets is_sets done.
        subst (λ (l : List Fraction). All IsFraction l) (ok-injective done)
          (All-append quota.0 sets
            (version_limits-IsFraction r files mount.controllers mount.version quota is_quota)
            (set_limits-IsFraction r quota.1 sets is_sets))

member_limits-IsFraction :
    (r : Reading) (files : List Text → Files) (mount : Mount) (member : Membership)
    (fs : List Fraction)
    → member_limits r files mount member ≡ ok fs
    → All IsFraction fs
unfolding member_limits
member_limits-IsFraction r files mount member fs h = elim (Bool-cases (skips mount member)) [
  | inl skipped ↦
      subst (λ (l : List Fraction). All IsFraction l)
        (ok-injective (rw (skipped, member_limits) at h)) tt
  | inr held ↦
      >>=-elim
        (traverse (λ directory. directory_limits r (files directory) mount) (visited mount member))
        _ (rw (held, member_limits) at h)
        λ all found done.
          subst (λ (l : List Fraction). All IsFraction l) (ok-injective done)
            (traverse-concat (λ directory. directory_limits r (files directory) mount)
              (visited mount member) all
              (λ directory fs each. directory_limits-IsFraction r (files directory) mount fs each)
              found)
]

pub linux_limits-IsFraction :
    (r : Reading) (files : List Text → Files) (cgroup_text mountinfo_text : Result Text)
    (fs : List Fraction)
    → linux_limits r files cgroup_text mountinfo_text ≡ ok fs
    → All IsFraction fs
unfolding linux_limits mount_limits
linux_limits-IsFraction r files cgroup_text mountinfo_text fs h =
    >>=-elim cgroup_text _ h λ text _ h1. >>=-elim (memberships r text) _ h1 λ members _ h2.
      >>=-elim mountinfo_text _ h2 λ lines _ h3. >>=-elim (mounts r lines) _ h3 λ mounted _ h4.
        >>=-elim (traverse (mount_limits r files members) mounted) _ h4 λ all found done.
          subst (λ (l : List Fraction). All IsFraction l) (ok-injective done)
            (traverse-concat (mount_limits r files members) mounted all
              (λ mount fs each.
                >>=-elim (traverse (member_limits r files mount) members) _ each
                  λ some_all here end.
                    subst (λ (l : List Fraction). All IsFraction l) (ok-injective end)
                      (traverse-concat (member_limits r files mount) members some_all
                        (λ member gs one. member_limits-IsFraction r files mount member gs one)
                        here))
              found)
