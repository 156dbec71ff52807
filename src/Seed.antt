-- ===== src/Seed.antt =====
-- Sampling seeds: `_mix_u64`, `derive_seed`, `reader_seed` and `common_seed` of
-- dataset_rt/integrations/loading.py.
pub mod Mixing
pub mod Derivation
use dataset_rt.Prelude.{
  ℕ, ◌*◌, ◌^◌, bit_and, bit_or, bit_xor, Bool, ◌||◌, Option, none, some, leb, ◌==◌, if◌then◌else◌,
}
use dataset_rt.Python.{Value, nat, Result, ok, value_error, ◌>>=◌, ◌>>◌, raise_if}
use dataset_rt.Partition.{u64_max, ReplicaIdentity, require_u64}
use dataset_rt.Bits.{◌<<<◌, ◌>>>◌}

abbrev pub first_factor : ℕ
first_factor = 0xbf58476d1ce4e5b9

abbrev pub second_factor : ℕ
second_factor = 0x94d049bb133111eb

-- The three assignments of the finalizer.
unfoldable pub mix_u64 : ℕ → ℕ
mix_u64 value =
    let once = bit_and (bit_xor value (value >>> 30) * first_factor) u64_max in
    let twice = bit_and (bit_xor once (once >>> 27) * second_factor) u64_max in
    bit_xor twice (twice >>> 31)

-- "DSRTRSED" in ASCII.
abbrev pub domain : ℕ
domain = 0x4453545253454544

unfoldable pub derive_seed : Value → Value → Value → Result ℕ
unfolding mix_u64
derive_seed base_seed rank_id worker_id = do
  base ← require_u64 "base_seed" base_seed
  rank ← require_u64 "rank_id" rank_id
  worker ← require_u64 "worker_id" worker_id
  raise_if (leb (2 ^ 32) rank || leb (2 ^ 32) worker)
      (value_error "rank_id and worker_id must fit u32")
  let slot = bit_or (rank <<< 32) worker
  let key = mix_u64 (bit_xor base domain)
  ok (mix_u64 (bit_xor slot key))

-- `drawn` is what `secrets.randbits(64)` would give.
unfoldable pub reader_seed : Bool → Option Value → ℕ → Value → Value → Result ℕ
reader_seed shuffle none drawn rank_id worker_id =
    if shuffle then derive_seed (nat drawn) rank_id worker_id else ok 0
reader_seed shuffle (some seed) drawn rank_id worker_id =
    if shuffle then derive_seed seed rank_id worker_id else ok 0

-- `broadcast` is torch's `broadcast_object_list(values, src=0)` on a list of one value: it takes
-- what this rank offers to what it holds afterwards.
unfoldable pub common_seed :
    ReplicaIdentity → Bool → Option Value → ℕ → (Value → Value) → Result (Option ℕ)
common_seed replica shuffle (some seed) drawn broadcast =
    if shuffle then (do s ← require_u64 "seed" seed; ok (some s)) else ok none
common_seed replica shuffle none drawn broadcast =
    if shuffle
    then (if replica.world_size == 1 then ok (some drawn) else (do
      s ← require_u64 "seed" (broadcast (if replica.rank == 0 then nat drawn else nat 0))
      ok (some s)))
    else ok none
