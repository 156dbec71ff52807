-- ===== src/Config/Compression.antt =====
-- Compression policies of dataset_rt/config.py: `ShardCompression`, `NoCompression`, `Lz4Fast`,
-- `Lz4HC`, `Brotli`, and the union of them that a `WriterConfig` holds. A mapping is an association
-- list, and `float` is what a text reads as, in some unit.
pub mod Policies
use dataset_rt.Prelude.{
  ℕ, ◌&&◌, ◌||◌, not, ℤ, pos, negsuc, pos_part, leb_ℤ, ltb_ℤ, Bool, true, false, Option, none, some,
  List, [], ◌∷◌, String, str_eq, if◌then◌else◌,
}
use dataset_rt.Python.{Result, ok, err, Error, value_error, ◌>>=◌, ◌>>◌, raise_if}

-- A value of a mapping: a text, an integer, a float in the unit, or anything else.
pub data Datum : Type 0 where
  word : String → Datum
  whole : ℤ → Datum
  real : ℤ → Datum
  other : Datum

abbrev pub Mapping : Type 0
Mapping = List (String × Datum)

unfoldable pub lookup : String → Mapping → Option Datum
lookup name [] = none
lookup name ((key, value) ∷ fields) =
    let rest = lookup name fields in if str_eq key name then some value else rest

-- `RecordCompression`
pub data RecordCompression : Type 0 where
  no_compression : RecordCompression
  lz4_fast : (acceleration : ℕ) → RecordCompression
  lz4_hc : (level : ℕ) → RecordCompression
  brotli : (level : ℕ) → RecordCompression

pub data CompressionAlgo : Type 0 where
  none_algo lz4_algo : CompressionAlgo

-- `RecordCompression | ShardCompression`
pub data Policy : Type 0 where
  record_policy : RecordCompression → Policy
  shard_policy : CompressionAlgo → (ratio : ℤ) → Policy

-- A field of one literal, which is its default.
unfoldable pub literal : String → Option Datum → Result (Unit {0})
literal expected none = ok tt
literal expected (some (word value)) =
    raise_if (not (str_eq value expected)) (value_error "literal")
literal expected (some _) = err (value_error "literal")

-- A strict integer within bounds.
unfoldable pub bounded : ℕ → ℕ → ℕ → Option Datum → Result ℕ
bounded default minimum maximum none = ok default
bounded default minimum maximum (some (whole value)) = do
  raise_if (not (leb_ℤ (pos minimum) value && leb_ℤ value (pos maximum))) (value_error "bounds")
  ok (pos_part value)
bounded default minimum maximum (some _) = err (value_error "integer")

is_among : String → List String → Bool
is_among name [] = false
is_among name (known ∷ others) = str_eq name known || is_among name others

-- `extra="forbid"`
unfoldable pub forbid_extra : List String → Mapping → Result (Unit {0})
unfolding is_among
forbid_extra names [] = ok tt
forbid_extra names ((key, value) ∷ fields) = do
  raise_if (not (is_among key names)) (value_error "extra fields are forbidden")
  forbid_extra names fields

unfoldable pub validate_none : Mapping → Result RecordCompression
unfolding literal lookup forbid_extra
validate_none fields = do
  literal "none" (lookup "algo" fields)
  forbid_extra ("algo" ∷ "mode" ∷ []) fields
  ok no_compression

unfoldable pub validate_fast : Mapping → Result RecordCompression
unfolding literal lookup forbid_extra bounded
validate_fast fields = do
  literal "lz4" (lookup "algo" fields)
  acceleration ← bounded 1 1 65537 (lookup "acceleration" fields)
  forbid_extra ("algo" ∷ "mode" ∷ "acceleration" ∷ []) fields
  ok (lz4_fast acceleration)

unfoldable pub validate_hc : Mapping → Result RecordCompression
unfolding literal lookup forbid_extra bounded
validate_hc fields = do
  literal "lz4" (lookup "algo" fields)
  level ← bounded 9 1 12 (lookup "level" fields)
  forbid_extra ("algo" ∷ "mode" ∷ "level" ∷ []) fields
  ok (lz4_hc level)

unfoldable pub validate_brotli : Mapping → Result RecordCompression
unfolding literal lookup forbid_extra bounded
validate_brotli fields = do
  literal "brotli" (lookup "algo" fields)
  level ← bounded 5 0 11 (lookup "level" fields)
  forbid_extra ("algo" ∷ "mode" ∷ "level" ∷ []) fields
  ok (brotli level)

-- `Field(discriminator="mode")`: the mode has to be there, whatever its default.
unfoldable pub validate_mode : Mapping → Option Datum → Result RecordCompression
unfolding validate_none validate_fast validate_hc validate_brotli
validate_mode fields (some (word mode)) =
    if str_eq mode "none"
    then validate_none fields
    else if str_eq mode "fast"
    then validate_fast fields
    else if str_eq mode "hc"
    then validate_hc fields
    else if str_eq mode "brotli"
    then validate_brotli fields
    else err (value_error "mode")
validate_mode fields _ = err (value_error "mode")

unfoldable pub validate_record : Mapping → Result RecordCompression
unfolding validate_mode
validate_record fields = validate_mode fields (lookup "mode" fields)

unfoldable pub is_present : Option Datum → Bool
is_present none = false
is_present (some value) = true

unfoldable pub validate_algo : Option Datum → Result CompressionAlgo
validate_algo none = ok none_algo
validate_algo (some (word value)) =
    if str_eq value "none"
    then ok none_algo
    else if str_eq value "lz4"
    then ok lz4_algo
    else err (value_error "algo")
validate_algo (some _) = err (value_error "algo")

-- `gt=0.0`
abbrev positive : ℤ → Result ℤ
positive ratio = if ltb_ℤ (pos 0) ratio then ok ratio else err (value_error "ratio")

module _ (unit : ℤ) (scale : ℤ → ℤ) (float : String → Option ℤ) where
  unfoldable pub validate_ratio : Option Datum → Result ℤ
  validate_ratio none = ok unit
  validate_ratio (some (whole n)) = positive (scale n)
  validate_ratio (some (real r)) = positive r
  validate_ratio (some (word value)) = elim (float value) as (λ o. Result ℤ) [
    | none ↦ err (value_error "ratio")
    | some r ↦ positive r
  ]
  validate_ratio (some other) = err (value_error "ratio")

  -- `ShardCompression`, of a mapping that has none of the new options.
  unfoldable pub validate_legacy : Mapping → Result Policy
  unfolding lookup is_present validate_algo validate_ratio
  validate_legacy fields = do
    raise_if
        (is_present (lookup "mode" fields)
          || (is_present (lookup "level" fields) || is_present (lookup "acceleration" fields)))
        (value_error "compression options belong to NoCompression, Lz4Fast, Lz4HC, or Brotli")
    algo ← validate_algo (lookup "algo" fields)
    ratio ← validate_ratio (lookup "ratio" fields)
    ok (shard_policy algo ratio)

  -- The union: a member that accepts the mapping.
  unfoldable pub validate_policy : Mapping → Result Policy
  unfolding validate_record validate_legacy
  validate_policy fields = elim (validate_record fields) as (λ r. Result Policy) [
    | ok compression ↦ ok (record_policy compression)
    | err error ↦ validate_legacy fields
  ]

-- `model_dump`
unfoldable pub dump_record : RecordCompression → Mapping
dump_record no_compression = ("algo", word "none") ∷ ("mode", word "none") ∷ []
dump_record (lz4_fast acceleration) =
    ("algo", word "lz4") ∷ ("mode", word "fast") ∷ ("acceleration", whole (pos acceleration)) ∷ []
dump_record (lz4_hc level) =
    ("algo", word "lz4") ∷ ("mode", word "hc") ∷ ("level", whole (pos level)) ∷ []
dump_record (brotli level) =
    ("algo", word "brotli") ∷ ("mode", word "brotli") ∷ ("level", whole (pos level)) ∷ []

abbrev algo_name : CompressionAlgo → String
algo_name none_algo = "none"
algo_name lz4_algo = "lz4"

unfoldable pub dump_policy : Policy → Mapping
unfolding dump_record
dump_policy (record_policy compression) = dump_record compression
dump_policy (shard_policy algo ratio) = ("algo", word (algo_name algo)) ∷ ("ratio", real ratio) ∷ []
