-- ===== src/Partition/Spans.antt =====
-- The spans of one partition lie end to end, from the first row to the last.
use native.Mathlib.Nat.{div-add-mod, mod-lt}
use dataset_rt.Prelude.{ℕ, suc, ◌+◌, ◌≤◌, ◌<◌, ◌≡◌, arith}
use dataset_rt.Python.{nat, ok}
use dataset_rt.Partition.{u64_max, RowSpan, require_u64, span, partition_rows}

abbrev pub Holds : ℕ → RowSpan → Type 0
Holds row s = (s.offset ≤ row) × (row < s.offset + s.length)

pub require_u64-nat : (name : _) (n : ℕ) → n ≤ u64_max → require_u64 name (nat n) ≡ ok n
unfolding require_u64
require_u64-nat name n h = ground arith

pub require_u64-eq-ok :
    (name : _) (n : ℕ) {m : ℕ} → require_u64 name (nat n) ≡ ok m → (n ≤ u64_max) × (m ≡ n)
unfolding require_u64
require_u64-eq-ok name n h = (ground arith, ground arith)

-- In range the validated call is `span`.
pub partition_rows-eq-span :
    (count parts part : ℕ)
    → count ≤ u64_max
    → parts ≤ u64_max
    → part < parts
    → partition_rows (nat count) (nat parts) (nat part) ≡ ok (span count parts part)
unfolding partition_rows require_u64
partition_rows-eq-span count parts part c p k = ground arith

pub span-zero : (count parts : ℕ) → (span count parts 0).offset ≡ 0
unfolding span
span-zero count parts = omega arith

pub span-suc :
    (count parts part : ℕ)
    → (span count parts (suc part)).offset
      ≡ (span count parts part).offset + (span count parts part).length
unfolding span
span-suc count parts part = ground arith

-- The span that would follow the last one begins at the end.
pub span_end : (count parts : ℕ) → 0 < parts → (span count parts parts).offset ≡ count
unfolding span
span_end count parts h = grind (arith, div-add-mod count parts, mod-lt count h)
