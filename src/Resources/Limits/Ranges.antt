-- ===== src/Resources/Limits/Ranges.antt =====
-- The count of a processor set is that of its processors.
use dataset_rt.Prelude.{
  ℕ, zero, suc, ◌+◌, ◌≤◌, ◌≡◌, refl, ap, ◌∙◌, subst, ◌||◌, inl, inr, ℤ, pos, negsuc, pos_part,
  leb_ℤ, ltb_ℤ, some, List, [], ◌∷◌, ◌++◌, length, length-append, length-range_from, range_from,
  arith,
}
use dataset_rt.Python.{ok, value_error, raise_if, traverse, >>=-elim, ok-injective, Result-cases}
use dataset_rt.Writer.{Text}
use dataset_rt.Resources.Cgroups.{Reading, split}
use dataset_rt.Resources.Limits.{range_of, span_count, count_ranges, cpuset_limit}

-- The processors of ranges, in their order.
abbrev pub cpus_of : List (ℤ × ℤ) → List ℕ
cpus_of [] = []
cpus_of ((start, end) ∷ ranges) =
    range_from (pos_part start) (span_count start end) ++ cpus_of ranges

-- Each number is larger than those before it.
abbrev pub Ascending : ℕ → List ℕ → Type 0
Ascending bound [] = Unit
Ascending bound (n ∷ ns) = (bound ≤ n) × Ascending (suc n) ns

raised : {low high : ℕ} (ns : List ℕ) → low ≤ high → Ascending high ns → Ascending low ns
raised [] h a = tt
raised (n ∷ ns) h (first, a) = (omega (arith, h, first), a)

Ascending-range :
    (bound start count : ℕ) (rest : List ℕ)
    → bound ≤ start
    → Ascending (start + count) rest
    → Ascending bound (range_from start count ++ rest)
Ascending-range bound start zero rest low later =
    raised rest (omega (arith, low))
      (subst (λ (b : ℕ). Ascending b rest) (let e : start + 0 ≡ start = omega arith in e) later)
Ascending-range bound start (suc count) rest low later = (
  low,
  Ascending-range (suc start) (suc start) count rest (omega arith)
      (subst (λ (b : ℕ). Ascending b rest) (omega arith) later),
)

-- `previous`, by the smallest processor that may follow.
abbrev last : ℕ → ℤ
last zero = negsuc 0
last (suc previous) = pos previous

record Fits (bound : ℕ) (start end : ℤ) : Type 0 where
  low : bound ≤ pos_part start
  next : end ≡ last (pos_part start + span_count start end)

valid-Fits :
    (bound : ℕ) (start end : ℤ)
    → raise_if (leb_ℤ start (last bound) || ltb_ℤ end start) (value_error "invalid cgroup CPU set")
      ≡ ok tt
    → Fits bound start end
valid-Fits zero (pos s) (pos e) h =
    let ordered : s ≤ e = ground (arith, h) in
    let after : suc e ≡ s + span_count (pos s) (pos e) = omega (arith, ordered) in
    record { low = omega arith; next = ap last after }
valid-Fits (suc b) (pos s) (pos e) h =
    let ordered : s ≤ e = ground (arith, h) in
    let after : suc e ≡ s + span_count (pos s) (pos e) = omega (arith, ordered) in
    record { low = ground (arith, h); next = ap last after }
valid-Fits zero (pos s) (negsuc e) h = absurd (ground (arith, h))
valid-Fits (suc b) (pos s) (negsuc e) h = absurd (ground (arith, h))
valid-Fits zero (negsuc s) end h = absurd (ground (arith, h))
valid-Fits (suc b) (negsuc s) end h = absurd (ground (arith, h))

count_ranges-Ascending :
    (r : Reading) (count bound n : ℕ) (items : List Text)
    → count_ranges r count (last bound) items ≡ ok n
    → (ranges : List (ℤ × ℤ)) × (traverse (range_of r) items ≡ ok ranges)
      × (count + length (cpus_of ranges) ≡ n)
      × Ascending bound (cpus_of ranges)
unfolding count_ranges traverse
count_ranges-Ascending r count bound n [] h =
    ([], refl, (let e : count + 0 ≡ count = omega arith in e) ∙ ok-injective h, tt)
count_ranges-Ascending r count bound n (item ∷ items) h =
    >>=-elim (range_of r item) _ h λ ends found h1.
      >>=-elim (raise_if (leb_ℤ ends.0 (last bound) || ltb_ℤ ends.1 ends.0) (value_error _)) _ h1
        λ _ valid h2.
          let fits = valid-Fits bound ends.0 ends.1 valid in
          let next = pos_part ends.0 + span_count ends.0 ends.1 in
          let (ranges, parsed, total, ascending) =
            count_ranges-Ascending r (count + span_count ends.0 ends.1) next n items (
              subst
                (λ (previous : ℤ).
                  count_ranges r (count + span_count ends.0 ends.1) previous items ≡ ok n)
                fits.next h2) in
          (
            ends ∷ ranges,
            rw (found, traverse) (rw (parsed, traverse) refl),
            omega (
              arith,
              total,
              length-append (range_from (pos_part ends.0) (span_count ends.0 ends.1))
                  (cpus_of ranges),
              length-range_from (pos_part ends.0) (span_count ends.0 ends.1),
            ),
            Ascending-range bound (pos_part ends.0) (span_count ends.0 ends.1) (cpus_of ranges)
                fits.low ascending,
          )

-- A processor set that is accepted is a list of ranges whose processors are named in ascending order,
-- none of them twice, and the limit is how many they are.
pub cpuset_limit-Ascending :
    (r : Reading) (c n : ℕ) (value : Text)
    → cpuset_limit r (c ∷ value) ≡ ok (some n)
    → (ranges : List (ℤ × ℤ)) × (traverse (range_of r) (split 44 (c ∷ value)) ≡ ok ranges)
      × (length (cpus_of ranges) ≡ n)
      × Ascending 0 (cpus_of ranges)
unfolding cpuset_limit
cpuset_limit-Ascending r c n value h =
    elim (Result-cases (count_ranges r 0 (negsuc 0) (split 44 (c ∷ value)))) [
      | inr (error, refused) ↦ cc (rw (refused, cpuset_limit) at h)
      | inl (m, done) ↦
          let same : m ≡ n = cc (rw (done, cpuset_limit) at h) in
          let (ranges, parsed, total, ascending) =
            count_ranges-Ascending r 0 0 n (split 44 (c ∷ value)) (done ∙ ap ok same) in
          (ranges, parsed, omega (arith, total), ascending)
    ]
