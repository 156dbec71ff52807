-- ===== src/Seed/Mixing.antt =====
-- `_mix_u64` permutes the 64-bit numbers: each of its steps has an inverse.
use dataset_rt.Prelude.{ℕ, ◌*◌, ◌%◌, ◌^◌, ◌<◌, bit_xor, ◌≡◌, sym, ap, ◌∙◌, arith}
use dataset_rt.Bits.{◌>>>◌}
use dataset_rt.Bits.Xor.{bit_xor-cancel, bit_xor-zero, shift-bit_xor, bit_xor-lt}
use dataset_rt.Bits.Fields.{bit_and-mask}
use dataset_rt.Seed.{first_factor, second_factor, mix_u64}

-- `value ^ (value >> k)`, and what undoes it where three shifts leave nothing.
abbrev pub shift_mix : ℕ → ℕ → ℕ
shift_mix k value = bit_xor value (value >>> k)

abbrev pub unshift_mix : ℕ → ℕ → ℕ
unshift_mix k value = bit_xor value (bit_xor (value >>> k) (value >>> k >>> k))

module _ (k x : ℕ) (gone : x >>> k >>> k >>> k ≡ 0) where
  unshift-shift : unshift_mix k (shift_mix k x) ≡ x
  unshift-shift = rw (
    shift-bit_xor k x (x >>> k),
    shift-bit_xor k (x >>> k) (x >>> k >>> k),
    gone,
    bit_xor-zero (x >>> k >>> k),
    bit_xor-cancel (x >>> k) (x >>> k >>> k),
    bit_xor-cancel x (x >>> k),
  )

  shift-unshift : shift_mix k (unshift_mix k x) ≡ x
  shift-unshift =
      let w = bit_xor (x >>> k) (x >>> k >>> k) in
      rw (
        shift-bit_xor k x w,
        shift-bit_xor k (x >>> k) (x >>> k >>> k),
        gone,
        bit_xor-zero (x >>> k >>> k),
        bit_xor-cancel x w,
      )

abbrev word : ℕ
word = 2 ^ 64

shift_mix-lt : (k x : ℕ) → x < word → shift_mix k x < word
shift_mix-lt k x h = bit_xor-lt 64 x (x >>> k) h (omega arith)

unshift_mix-lt : (k x : ℕ) → x < word → unshift_mix k x < word
unshift_mix-lt k x h =
    bit_xor-lt 64 x (bit_xor (x >>> k) (x >>> k >>> k)) h
      (bit_xor-lt 64 (x >>> k) (x >>> k >>> k) (omega arith) (omega arith))

-- Multiplication by an odd factor, and by its inverse modulo 2 ^ 64.
abbrev pub scale : ℕ → ℕ → ℕ
scale factor x = x * factor % word

unscale_first : (x : ℕ) → x < word → scale 0x96de1b173f119089 (scale first_factor x) ≡ x
unscale_first x h = omega arith

unscale_second : (x : ℕ) → x < word → scale 0x319642b2d24d8ec3 (scale second_factor x) ≡ x
unscale_second x h = omega arith

scale_first : (x : ℕ) → x < word → scale first_factor (scale 0x96de1b173f119089 x) ≡ x
scale_first x h = omega arith

scale_second : (x : ℕ) → x < word → scale second_factor (scale 0x319642b2d24d8ec3 x) ≡ x
scale_second x h = omega arith

-- The finalizer as a composition of five invertible steps.
mix_u64-eq :
    (x : ℕ)
    → mix_u64 x
      ≡ shift_mix 31 (scale second_factor (shift_mix 27 (scale first_factor (shift_mix 30 x))))
unfolding mix_u64
mix_u64-eq x = simp (bit_and-mask 64)

-- The inverse of the finalizer.
pub unmix_u64 : ℕ → ℕ
unmix_u64 x =
    unshift_mix 30
      (scale 0x96de1b173f119089 (unshift_mix 27 (scale 0x319642b2d24d8ec3 (unshift_mix 31 x))))

-- On the 64-bit numbers `mix_u64` has a two-sided inverse within the same range, so distinct
-- values stay distinct and every value is reached.
pub mix_u64_permutes :
    (x : ℕ)
    → x < 2 ^ 64
    → (mix_u64 x < 2 ^ 64)
      × (unmix_u64 x < 2 ^ 64)
      × (unmix_u64 (mix_u64 x) ≡ x)
      × (mix_u64 (unmix_u64 x) ≡ x)
unfolding unmix_u64
mix_u64_permutes x h =
    let a = shift_mix 30 x in
    let b = scale first_factor a in
    let c = shift_mix 27 b in
    let d = scale second_factor c in
    let a-lt = shift_mix-lt 30 x h in
    let b-lt : b < word = omega arith in
    let c-lt = shift_mix-lt 27 b b-lt in
    let d-lt : d < word = omega arith in
    let p = unshift_mix 31 x in
    let q = scale 0x319642b2d24d8ec3 p in
    let r = unshift_mix 27 q in
    let s = scale 0x96de1b173f119089 r in
    let p-lt = unshift_mix-lt 31 x h in
    let q-lt : q < word = omega arith in
    let r-lt = unshift_mix-lt 27 q q-lt in
    let s-lt : s < word = omega arith in
    (
      rw (mix_u64-eq x) (shift_mix-lt 31 d d-lt),
      unshift_mix-lt 30 s s-lt,
      rw (
        mix_u64-eq x,
        unshift-shift 31 d (omega arith),
        unscale_second c c-lt,
        unshift-shift 27 b (omega arith),
        unscale_first a a-lt,
        unshift-shift 30 x (omega arith),
      ),
      rw (
        mix_u64-eq (unshift_mix 30 s),
        shift-unshift 30 s (omega arith),
        scale_first r r-lt,
        shift-unshift 27 q (omega arith),
        scale_second p p-lt,
        shift-unshift 31 x (omega arith),
      ),
    )

pub mix_u64-lt : (x : ℕ) → x < 2 ^ 64 → mix_u64 x < 2 ^ 64
mix_u64-lt x h = (mix_u64_permutes x h).0

pub mix_u64-injective : (x y : ℕ) → x < 2 ^ 64 → y < 2 ^ 64 → mix_u64 x ≡ mix_u64 y → x ≡ y
mix_u64-injective x y p q e =
    sym (mix_u64_permutes x p).2 ∙ ap unmix_u64 e ∙ (mix_u64_permutes y q).2
