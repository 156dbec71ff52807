-- ===== src/Bits.antt =====
-- Bit operations at every width, as arithmetic: exclusive or, masks, shifts and packed fields.
mod Step
pub mod Xor
pub mod Fields
use dataset_rt.Prelude.{ℕ, ◌*◌, ◌/◌, ◌^◌}

infixl 55 ◌<<<◌ ◌>>>◌
abbrev pub ◌<<<◌ : ℕ → ℕ → ℕ
x <<< k = x * 2 ^ k

abbrev pub ◌>>>◌ : ℕ → ℕ → ℕ
x >>> k = x / 2 ^ k
