-- ===== src/Bits/Fields.antt =====
-- `|` of disjoint fields is a sum, and `&` with a low mask is a remainder.
use native.Mathlib.Nat.{
  pow-suc, one-le-pow, mod-lt, mod-eq_of_lt, div-add-mod, add-mul-mod_self_left,
}
use dataset_rt.Prelude.{
  ℕ, zero, suc, ◌+◌, ◌-◌, ◌*◌, ◌/◌, ◌%◌, ◌^◌, ◌≤◌, ◌<◌, bit_and, bit_or, ◌≡◌, refl, ap, ◌∙◌, arith,
}
use dataset_rt.Bits.{◌<<<◌}
use dataset_rt.Bits.Step.{bit_and-step, bit_or-step}

-- Both operations against zero, by the number of digits.
zero_right : (n a : ℕ) → a ≤ n → (bit_or a 0 ≡ a) × (bit_and a 0 ≡ 0)
zero_right zero zero h = (refl, refl)
zero_right zero (suc a) h = absurd (omega arith)
zero_right (suc n) a h =
    let (o, d) = zero_right n (a / 2) (omega arith) in
    (omega (arith, bit_or-step a 0, o), omega (arith, bit_and-step a 0, d))

-- One binary place more: a factor of two.
next_place : (k q : ℕ) → (2 ^ suc k ≡ 2 ^ k * 2) × (q * 2 ^ suc k ≡ q * 2 ^ k * 2)
next_place k q = (pow-suc 2 k, omega (arith, ap (λ (t : ℕ). q * t) (pow-suc 2 k)))

pub bit_or-shift : (k high low : ℕ) → low < 2 ^ k → bit_or (high <<< k) low ≡ high * 2 ^ k + low
bit_or-shift zero high low h = ground (arith, zero_right high high)
bit_or-shift (suc k) high low h =
    let (p, q) = next_place k high in
    let half : high * 2 ^ suc k / 2 ≡ high * 2 ^ k = omega (arith, q) in
    let rest = bit_or-shift k high (low / 2) (omega (arith, p)) in
    omega (arith, rw half at (bit_or-step (high * 2 ^ suc k) low), q, rest)

-- The remainder by twice a number keeps the lowest digit.
mod_double : (a n : ℕ) → 0 < n → a % (n * 2) ≡ a / 2 % n * 2 + a % 2
mod_double a n h =
    let low : a / 2 % n * 2 + a % 2 < n * 2 = omega (arith, mod-lt (a / 2) h) in
    let split : a ≡ a / 2 % n * 2 + a % 2 + n * 2 * (a / 2 / n) =
      omega (arith, div-add-mod (a / 2) n) in
    ap (λ (t : ℕ). t % (n * 2)) split
    ∙ add-mul-mod_self_left (a / 2 % n * 2 + a % 2) (n * 2) (a / 2 / n)
    ∙ mod-eq_of_lt low

pub bit_and-mask : (k a : ℕ) → bit_and a (2 ^ k - 1) ≡ a % 2 ^ k
bit_and-mask zero a = omega (arith, (zero_right a a (omega arith)).1)
bit_and-mask (suc k) a =
    let p = (next_place k 0).0 in
    let low = one-le-pow k 2 in
    let half : (2 ^ suc k - 1) / 2 ≡ 2 ^ k - 1 = omega (arith, p) in
    let odd : (2 ^ suc k - 1) % 2 ≡ 1 = omega (arith, p) in
    bit_and-step a (2 ^ suc k - 1)
    ∙ rw (half, odd, p, bit_and-mask k (a / 2), mod_double a (2 ^ k) (omega arith)) (omega arith)
