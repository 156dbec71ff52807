-- ===== src/Config/Compression/Policies.antt =====
-- The union of the compression policies is unambiguous, and reads what it wrote.
use dataset_rt.Prelude.{
  ℕ, ◌≤◌, ◌≡◌, refl, ◌&&◌, ltb_ℤ, leb_ℤ, ℤ, pos, true, Option, none, some, String, arith,
}
use dataset_rt.Python.{ok, err, Error, value_error}
use dataset_rt.Config.Compression.{
  Datum, whole, Mapping, lookup, RecordCompression, no_compression, lz4_fast, lz4_hc, brotli,
  CompressionAlgo, none_algo, lz4_algo, Policy, record_policy, shard_policy, bounded, validate_fast,
  validate_hc, validate_brotli, validate_mode, validate_record, is_present, validate_ratio,
  validate_legacy, validate_policy, dump_record, dump_policy,
}

-- The bounds of the fields.
abbrev pub IsRecord : RecordCompression → Type 0
IsRecord no_compression = Unit
IsRecord (lz4_fast acceleration) = (1 ≤ acceleration) × (acceleration ≤ 65537)
IsRecord (lz4_hc level) = (1 ≤ level) × (level ≤ 12)
IsRecord (brotli level) = level ≤ 11

abbrev pub IsPolicy : Policy → Type 0
IsPolicy (record_policy compression) = IsRecord compression
IsPolicy (shard_policy algo ratio) = ltb_ℤ (pos 0) ratio ≡ true

bounded-eq :
    (default minimum maximum n : ℕ)
    → minimum ≤ n
    → n ≤ maximum
    → bounded default minimum maximum (some (whole (pos n))) ≡ ok n
unfolding bounded
bounded-eq default minimum maximum n low high =
    let within : (leb_ℤ (pos minimum) (pos n) && leb_ℤ (pos n) (pos maximum)) ≡ true =
      ground (arith, low, high) in
    rw within refl

record_dumped : (c : RecordCompression) → IsRecord c → validate_record (dump_record c) ≡ ok c
unfolding validate_record dump_record
record_dumped no_compression v = refl
record_dumped (lz4_fast acceleration) (low, high) =
    rw (bounded-eq 1 1 65537 acceleration low high, validate_fast) refl
record_dumped (lz4_hc level) (low, high) = rw (bounded-eq 9 1 12 level low high, validate_hc) refl
record_dumped (brotli level) high =
    rw (bounded-eq 5 0 11 level (omega arith) high, validate_brotli) refl

has_mode :
    (fields : Mapping) (mode : Option Datum) (c : RecordCompression)
    → validate_mode fields mode ≡ ok c
    → is_present mode ≡ true
unfolding validate_mode is_present
has_mode fields none c h = cc
has_mode fields (some value) c h = refl

module _ (unit : ℤ) (scale : ℤ → ℤ) (float : String → Option ℤ) where
  -- No mapping is accepted both as one of the new policies and as the legacy one, so that it does not
  -- matter in which order a union tries its members: the legacy policy refuses every mapping that a
  -- new policy accepts.
  pub policies_disjoint :
      (fields : Mapping) (c : RecordCompression)
      → validate_record fields ≡ ok c
      → (e : Error) × (validate_legacy unit scale float fields ≡ err e)
  unfolding validate_record validate_legacy
  policies_disjoint fields c h = (
    value_error "compression options belong to NoCompression, Lz4Fast, Lz4HC, or Brotli",
    rw (has_mode fields (lookup "mode" fields) c h, validate_legacy) refl,
  )

  legacy_dumped :
      (algo : CompressionAlgo) (ratio : ℤ)
      → ltb_ℤ (pos 0) ratio ≡ true
      → validate_policy unit scale float (dump_policy (shard_policy algo ratio))
        ≡ ok (shard_policy algo ratio)
  unfolding validate_policy validate_record validate_legacy validate_ratio dump_policy
  legacy_dumped none_algo ratio v = rw v refl
  legacy_dumped lz4_algo ratio v = rw v refl

  -- A compression policy within its bounds, new or legacy, that is dumped with a writer's
  -- configuration is read back as it was.
  pub validate-dump_policy :
      (policy : Policy)
      → IsPolicy policy
      → validate_policy unit scale float (dump_policy policy) ≡ ok policy
  unfolding validate_policy dump_policy
  validate-dump_policy (record_policy c) v = rw (record_dumped c v, validate_policy) refl
  validate-dump_policy (shard_policy algo ratio) v = legacy_dumped algo ratio v
