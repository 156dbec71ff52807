-- ===== src/Bits/Xor.antt =====
-- The laws of exclusive or that undo it, and its shifts.
use Prim.Native.Nat.{differ, bit_xor-bitwise}
use native.Mathlib.Nat.{pow-suc, div-one, div-div-eq-div-mul}
use dataset_rt.Prelude.{
  ℕ, zero, suc, ◌+◌, ◌/◌, ◌%◌, ◌^◌, ◌≤◌, ◌<◌, bit_xor, ◌≡◌, refl, sym, ◌∙◌, arith,
}
use dataset_rt.Bits.{◌>>>◌}
use dataset_rt.Bits.Step.{bit_xor-step}

differ-lt : (x y : ℕ) → x < 2 → y < 2 → differ x y < 2
differ-lt zero y p q = q
differ-lt (suc x) zero p q = p
differ-lt (suc x) (suc y) p q = differ-lt x y (omega arith) (omega arith)

differ_comm : (x y : ℕ) → differ x y ≡ differ y x
differ_comm zero zero = refl
differ_comm zero (suc y) = refl
differ_comm (suc x) zero = refl
differ_comm (suc x) (suc y) = differ_comm x y

differ_cancel : (x y : ℕ) → x < 2 → y < 2 → differ (differ x y) y ≡ x
differ_cancel zero zero p q = refl
differ_cancel zero (suc zero) p q = refl
differ_cancel (suc zero) zero p q = refl
differ_cancel (suc zero) (suc zero) p q = refl
differ_cancel (suc (suc x)) y p q = absurd (omega arith)
differ_cancel x (suc (suc y)) p q = absurd (omega arith)

pub bit_xor-half : (a b : ℕ) → bit_xor a b / 2 ≡ bit_xor (a / 2) (b / 2)
bit_xor-half a b =
    omega (arith, bit_xor-step a b, differ-lt (a % 2) (b % 2) (omega arith) (omega arith))

bit_xor-parity : (a b : ℕ) → bit_xor a b % 2 ≡ differ (a % 2) (b % 2)
bit_xor-parity a b =
    omega (arith, bit_xor-step a b, differ-lt (a % 2) (b % 2) (omega arith) (omega arith))

-- Two numbers with the same halves and the same lowest digits are the same.
digit_ext : (x y : ℕ) → x / 2 ≡ y / 2 → x % 2 ≡ y % 2 → x ≡ y
digit_ext x y h p = omega arith

bit_xor-cancel_fuel : (n a b : ℕ) → a ≤ n → b ≤ n → bit_xor (bit_xor a b) b ≡ a
bit_xor-cancel_fuel zero zero zero p q = refl
bit_xor-cancel_fuel zero zero (suc b) p q = absurd (omega arith)
bit_xor-cancel_fuel zero (suc a) b p q = absurd (omega arith)
bit_xor-cancel_fuel (suc n) a b p q =
    digit_ext (bit_xor (bit_xor a b) b) a
      (rw (bit_xor-half (bit_xor a b) b, bit_xor-half a b)
        (bit_xor-cancel_fuel n (a / 2) (b / 2) (omega arith) (omega arith)))
      (rw (bit_xor-parity (bit_xor a b) b, bit_xor-parity a b)
        (differ_cancel (a % 2) (b % 2) (omega arith) (omega arith)))

pub bit_xor-cancel : (a b : ℕ) → bit_xor (bit_xor a b) b ≡ a
bit_xor-cancel a b = bit_xor-cancel_fuel (a + b) a b (omega arith) (omega arith)

bit_xor_comm_fuel : (n a b : ℕ) → a ≤ n → b ≤ n → bit_xor a b ≡ bit_xor b a
bit_xor_comm_fuel zero zero zero p q = refl
bit_xor_comm_fuel zero zero (suc b) p q = absurd (omega arith)
bit_xor_comm_fuel zero (suc a) b p q = absurd (omega arith)
bit_xor_comm_fuel (suc n) a b p q =
    digit_ext (bit_xor a b) (bit_xor b a)
      (rw (bit_xor-half a b, bit_xor-half b a)
        (bit_xor_comm_fuel n (a / 2) (b / 2) (omega arith) (omega arith)))
      (rw (bit_xor-parity a b, bit_xor-parity b a) (differ_comm (a % 2) (b % 2)))

pub bit_xor_comm : (a b : ℕ) → bit_xor a b ≡ bit_xor b a
bit_xor_comm a b = bit_xor_comm_fuel (a + b) a b (omega arith) (omega arith)

pub bit_xor-zero : (a : ℕ) → bit_xor a 0 ≡ a
bit_xor-zero a = bit_xor_comm a 0 ∙ bit_xor-bitwise 0 a

pub shift-suc : (k x : ℕ) → x >>> suc k ≡ (x >>> k) / 2
shift-suc k x = rw pow-suc (sym (div-div-eq-div-mul x (2 ^ k) 2))

-- A shift goes inside.
pub shift-bit_xor : (k a b : ℕ) → bit_xor a b >>> k ≡ bit_xor (a >>> k) (b >>> k)
shift-bit_xor zero a b = simp div-one
shift-bit_xor (suc k) a b =
    rw (shift-suc k (bit_xor a b), shift-suc k a, shift-suc k b, shift-bit_xor k a b)
      (bit_xor-half (a >>> k) (b >>> k))

pub bit_xor-lt : (k a b : ℕ) → a < 2 ^ k → b < 2 ^ k → bit_xor a b < 2 ^ k
bit_xor-lt zero a b p q =
    let ea : a ≡ 0 = omega arith in let eb : b ≡ 0 = omega arith in rw (ea, eb) (omega arith)
bit_xor-lt (suc k) a b p q = omega (
  arith,
  pow-suc 2 k,
  bit_xor-half a b,
  bit_xor-lt k (a / 2) (b / 2) (omega (arith, pow-suc 2 k)) (omega (arith, pow-suc 2 k)),
)
