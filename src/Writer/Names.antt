-- ===== src/Writer/Names.antt =====
-- `validate_source_name` of dataset_rt/writer.py.
pub mod Segment
use dataset_rt.Prelude.{
  ℕ, ◌+◌, ◌≡◌, ◌≤◌, ◌≢◌, ◌↔◌, refl, String, Bool, true, false, ◌&&◌, ◌||◌, Option, none, some, [],
  ◌∷◌, Option-cases, ltb, leb, ◌==◌, if◌then◌else◌, arith, inl, inr,
}
use dataset_rt.Writer.{Text, text_eq}

pub data NameResult : Type 0 where
  accepted : Text → NameResult
  rejected : String → NameResult

-- The bytes of a code point in UTF-8. A lone surrogate has none.
unfoldable pub encoded_size : ℕ → Option ℕ
encoded_size c =
    if ltb c 0x80
    then some 1
    else if ltb c 0x800
    then some 2
    else if leb 0xd800 c && leb c 0xdfff
    then none
    else if ltb c 0x10000
    then some 3
    else some 4

unfoldable pub plus : Option ℕ → Option ℕ → Option ℕ
plus (some a) (some b) = some (a + b)
plus _ _ = none

-- `len(name.encode())`, or none where it raises `UnicodeEncodeError`.
unfoldable pub encoded_length : Text → Option ℕ
unfolding plus
encoded_length [] = some 0
encoded_length (c ∷ text) = plus (encoded_size c) (encoded_length text)

-- `c in text`, for one character.
unfoldable pub contains : ℕ → Text → Bool
contains c [] = false
contains c (d ∷ text) = c == d || contains c text

abbrev dot : Text
dot = 46 ∷ []

abbrev dot_dot : Text
dot_dot = 46 ∷ 46 ∷ []

abbrev tmp : Text
tmp = 116 ∷ 109 ∷ 112 ∷ []

abbrev pub is_empty : Text → Bool
is_empty [] = true
is_empty (c ∷ text) = false

-- Whether a folded name is one of the reserved ones.
abbrev pub reserved : Text → Bool
reserved folded = text_eq folded dot || text_eq folded dot_dot || text_eq folded tmp

unfoldable pub check_length : Text → Option ℕ → NameResult
check_length name none = rejected "CacheSource.name must be valid UTF-8"
check_length name (some size) =
    if ltb 255 size
    then rejected "CacheSource.name exceeds the supported filesystem component limit"
    else accepted name

module _ (casefold : Text → Text) where
  unfoldable pub validate_source_name : Text → NameResult
  unfolding check_length
  validate_source_name name =
      if is_empty name || reserved (casefold name)
      then rejected "CacheSource.name must be a non-reserved plain path segment"
      else if contains 47 name || contains 0 name
      then rejected "CacheSource.name must be a plain path segment"
      else check_length name (encoded_length name)
