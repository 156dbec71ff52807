-- ===== src/Partition/Coverage.antt =====
-- `partition_rows` splits the rows: nothing is lost, nothing is shared, and the parts are even.
use dataset_rt.Prelude.{
  ℕ, zero, suc, ◌+◌, ◌≤◌, ◌<◌, ◌≡◌, inl, inr, arith, ltb, ltb→lt, leb, leb→le, Bool-cases,
}
use dataset_rt.Python.{nat, ok}
use dataset_rt.Partition.{u64_max, RowSpan, require_u64, span, partition_rows}
use dataset_rt.Partition.Spans.{Holds, partition_rows-eq-span, span-zero, span-suc, span_end}

-- A row before the end of the first `n` spans lies in one of them.
find_span :
    (count parts row n : ℕ)
    → row < (span count parts n).offset
    → (part : ℕ) × (part < n) × Holds row (span count parts part)
find_span count parts row zero h = absurd (omega (arith, span-zero count parts))
find_span count parts row (suc n) h = elim (Bool-cases (leb (span count parts n).offset row)) [
  | inl after ↦ (n, omega arith, (leb→le _ _ after, omega (arith, span-suc count parts n)))
  | inr before ↦
      let found = find_span count parts row n (ground arith) in
      (found.0, omega (arith, found.1), found.2)
]

-- A later span begins at or past the end of an earlier one.
pub span_order :
    (count parts i j : ℕ)
    → i < j
    → (span count parts i).offset + (span count parts i).length ≤ (span count parts j).offset
span_order count parts i zero h = elim h [ ]
span_order count parts i (suc j) h = elim (Bool-cases (ltb i j)) [
  | inl before ↦
      omega (arith, span_order count parts i j (ltb→lt _ _ before), span-suc count parts j)
  | inr last ↦ let e : i ≡ j = ground arith in rw e (omega (arith, span-suc count parts j))
]

pub span_disjoint :
    (count parts row i j : ℕ)
    → Holds row (span count parts i)
    → Holds row (span count parts j)
    → i ≡ j
span_disjoint count parts row i j a b = elim (Bool-cases (ltb i j)) [
  | inl before ↦ absurd (omega (arith, span_order count parts i j (ltb→lt _ _ before), a, b))
  | inr after ↦ elim (Bool-cases (ltb j i)) [
    | inl before ↦ absurd (omega (arith, span_order count parts j i (ltb→lt _ _ before), a, b))
    | inr same ↦ ground arith
  ]
]

pub span_covers :
    (count parts row : ℕ)
    → 0 < parts
    → row < count
    → (part : ℕ) × (part < parts) × Holds row (span count parts part)
span_covers count parts row p h = find_span count parts row parts (rw (span_end count parts p) h)

-- A span of the partition ends at the last row or before.
pub span_within :
    (count parts part : ℕ)
    → part < parts
    → (span count parts part).offset + (span count parts part).length ≤ count
span_within count parts part h =
    omega (arith, span_order count parts part parts h, span_end count parts (omega arith))

-- Each row below `count` lies in the span that `partition_rows` returns for some part, for any
-- positive number of parts, if both counts fit 64 bits.
pub partition_rows_covers :
    (count parts row : ℕ)
    → count ≤ u64_max
    → parts ≤ u64_max
    → row < count
    → 0 < parts
    → (part : ℕ) × (s : RowSpan) × (part < parts)
      × (partition_rows (nat count) (nat parts) (nat part) ≡ ok s)
      × Holds row s
partition_rows_covers count parts row c p h pos =
    let (part, lt, holds) = span_covers count parts row pos h in
    (part, span count parts part, lt, partition_rows-eq-span count parts part c p lt, holds)

-- What a successful call was checked for, and its result.
pub partition_rows-eq-ok :
    (count parts part : ℕ) (s : RowSpan)
    → partition_rows (nat count) (nat parts) (nat part) ≡ ok s
    → (count ≤ u64_max) × (parts ≤ u64_max) × (part < parts) × (s ≡ span count parts part)
unfolding partition_rows require_u64
partition_rows-eq-ok count parts part s h = (ground arith, ground arith, ground arith, ground arith)

-- Two spans of one partition that share a row belong to the same part, and no span reaches past
-- the last row.
pub partition_rows_disjoint :
    (count parts row i j : ℕ) (s t : RowSpan)
    → partition_rows (nat count) (nat parts) (nat i) ≡ ok s
    → partition_rows (nat count) (nat parts) (nat j) ≡ ok t
    → Holds row s
    → Holds row t
    → (i ≡ j) × (row < count)
partition_rows_disjoint count parts row i j s t ei ej a b =
    let (_, _, lt, es) = partition_rows-eq-ok count parts i s ei in
    let (_, _, _, et) = partition_rows-eq-ok count parts j t ej in
    let a' : Holds row (span count parts i) = rw es at a in
    let b' : Holds row (span count parts j) = rw et at b in
    (span_disjoint count parts row i j a' b', omega (arith, span_within count parts i lt))

-- Any two parts differ by at most one row, and an earlier part is no shorter than a later one.
pub partition_rows_balanced :
    (count parts i j : ℕ) (s t : RowSpan)
    → partition_rows (nat count) (nat parts) (nat i) ≡ ok s
    → partition_rows (nat count) (nat parts) (nat j) ≡ ok t
    → i ≤ j
    → (t.length ≤ s.length) × (s.length ≤ t.length + 1)
unfolding partition_rows require_u64 span
partition_rows_balanced count parts i j s t ei ej h = ground arith
