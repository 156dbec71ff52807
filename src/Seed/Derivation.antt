-- ===== src/Seed/Derivation.antt =====
-- Every consumer of a loader has a seed of its own, and all ranks take the same common seed.
use dataset_rt.Prelude.{
  ℕ, ◌+◌, ◌*◌, ◌^◌, ◌≤◌, ◌<◌, bit_xor, ◌≡◌, ◌≢◌, ap, sym, ◌∙◌, arith, true, none, some,
  if◌then◌else◌, ◌==◌,
}
use dataset_rt.Python.{Value, nat, ok}
use dataset_rt.Partition.{u64_max, ReplicaIdentity, require_u64}
use dataset_rt.Bits.Xor.{bit_xor-cancel, bit_xor_comm, bit_xor-lt}
use dataset_rt.Bits.Fields.{bit_or-shift}
use dataset_rt.Seed.{domain, mix_u64, derive_seed, common_seed}
use dataset_rt.Seed.Mixing.{mix_u64-lt, mix_u64-injective}

abbrev pub slot : ℕ → ℕ → ℕ
slot rank worker = rank * 2 ^ 32 + worker

abbrev pub key : ℕ → ℕ
key base = mix_u64 (bit_xor base domain)

key-lt : (base : ℕ) → base ≤ u64_max → key base < 2 ^ 64
key-lt base h =
    mix_u64-lt (bit_xor base domain) (bit_xor-lt 64 base domain (omega arith) (omega arith))

pub derive_seed-eq :
    (base rank worker : ℕ)
    → base ≤ u64_max
    → rank < 2 ^ 32
    → worker < 2 ^ 32
    → derive_seed (nat base) (nat rank) (nat worker)
      ≡ ok (mix_u64 (bit_xor (slot rank worker) (key base)))
unfolding derive_seed require_u64
derive_seed-eq base rank worker b r w = ground (arith, bit_or-shift 32 rank worker w)

-- What a successful derivation was checked for, and its result.
pub derive_seed-eq-ok :
    (base rank worker : ℕ) {s : ℕ}
    → derive_seed (nat base) (nat rank) (nat worker) ≡ ok s
    → (base ≤ u64_max)
      × (rank < 2 ^ 32)
      × (worker < 2 ^ 32)
      × (s ≡ mix_u64 (bit_xor (slot rank worker) (key base)))
unfolding derive_seed require_u64
derive_seed-eq-ok base rank worker h = (
  ground arith,
  ground arith,
  ground arith,
  ground (arith, bit_or-shift 32 rank worker (ground arith)),
)

-- The slot and the key can be had back from what the finalizer is given.
mixed-lt :
    (base rank worker : ℕ)
    → base ≤ u64_max
    → rank < 2 ^ 32
    → worker < 2 ^ 32
    → bit_xor (slot rank worker) (key base) < 2 ^ 64
mixed-lt base rank worker b r w =
    bit_xor-lt 64 (slot rank worker) (key base) (omega arith) (key-lt base b)

-- A rank and a worker that fit 32 bits have a seed for every 64-bit base, and it fits 64 bits.
pub derive_seed_total :
    (base rank worker : ℕ)
    → base ≤ u64_max
    → rank < 2 ^ 32
    → worker < 2 ^ 32
    → (s : ℕ) × (derive_seed (nat base) (nat rank) (nat worker) ≡ ok s) × (s < 2 ^ 64)
derive_seed_total base rank worker b r w = (
  mix_u64 (bit_xor (slot rank worker) (key base)),
  derive_seed-eq base rank worker b r w,
  mix_u64-lt _ (mixed-lt base rank worker b r w),
)

-- From one base, only the same rank and the same worker get the same seed.
pub derive_seed_distinct :
    (base i j a b s : ℕ)
    → derive_seed (nat base) (nat i) (nat a) ≡ ok s
    → derive_seed (nat base) (nat j) (nat b) ≡ ok s
    → (i ≡ j) × (a ≡ b)
derive_seed_distinct base i j a b s p q =
    let (u, hi, ha, es) = derive_seed-eq-ok base i a p in
    let (_, hj, hb, et) = derive_seed-eq-ok base j b q in
    let same =
      mix_u64-injective _ _ (mixed-lt base i a u hi ha) (mixed-lt base j b u hj hb) (sym es ∙ et) in
    let slots : slot i a ≡ slot j b =
      sym (bit_xor-cancel (slot i a) (key base))
      ∙ ap (λ (t : ℕ). bit_xor t (key base)) same
      ∙ bit_xor-cancel (slot j b) (key base) in
    (omega arith, omega arith)

-- One rank and worker get the same seed from two bases only if the bases are the same.
pub derive_seed_bases :
    (base other rank worker s : ℕ)
    → derive_seed (nat base) (nat rank) (nat worker) ≡ ok s
    → derive_seed (nat other) (nat rank) (nat worker) ≡ ok s
    → base ≡ other
derive_seed_bases base other rank worker s p q =
    let (u, r, w, es) = derive_seed-eq-ok base rank worker p in
    let (v, _, _, et) = derive_seed-eq-ok other rank worker q in
    let same =
      mix_u64-injective _ _ (mixed-lt base rank worker u r w) (mixed-lt other rank worker v r w)
        (sym es ∙ et) in
    let keys : key base ≡ key other =
      sym (bit_xor-cancel (key base) (slot rank worker))
      ∙ ap (λ (t : ℕ). bit_xor t (slot rank worker))
          (bit_xor_comm (key base) (slot rank worker)
            ∙ same
            ∙ bit_xor_comm (slot rank worker) (key other))
      ∙ bit_xor-cancel (key other) (slot rank worker) in
    let bases =
      mix_u64-injective (bit_xor base domain) (bit_xor other domain)
        (bit_xor-lt 64 base domain (omega arith) (omega arith))
        (bit_xor-lt 64 other domain (omega arith) (omega arith)) keys in
    sym (bit_xor-cancel base domain)
    ∙ ap (λ (t : ℕ). bit_xor t domain) bases
    ∙ bit_xor-cancel other domain

-- A broadcast leaves in every rank what rank zero drew. With it, in a group of several ranks, every
-- rank that shuffles without an explicit seed resolves to that draw, whatever it drew itself.
pub common_seed_agrees :
    (replica : ReplicaIdentity) (drawn drawn_at_zero : ℕ) (broadcast : Value → Value)
    → replica.world_size ≢ 1
    → drawn_at_zero ≤ u64_max
    → broadcast (if replica.rank == 0 then nat drawn else nat 0) ≡ nat drawn_at_zero
    → common_seed replica true none drawn broadcast ≡ ok (some drawn_at_zero)
unfolding common_seed require_u64
common_seed_agrees replica drawn drawn_at_zero broadcast several fits received = ground arith
