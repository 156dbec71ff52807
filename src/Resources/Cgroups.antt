-- ===== src/Resources/Cgroups.antt =====
-- Control groups: `_memberships`, `_unescape_mount`, `_mounts`, `_cpuset_limit`, `_directory_limits`
-- and `_linux_limits` of dataset_rt/resources.py. A text is a list of code points. What Python makes of
-- a text as an integer, as lines, as words and as the parts of an absolute path is an argument, and
-- so is what the files of a directory hold.
use dataset_rt.Prelude.{
  ℕ, zero, suc, ◌==◌, ◌&&◌, ◌||◌, not, ℤ, Bool, true, false, Option, none, some, List, [], ◌∷◌,
  length, drop, get_elem?, if◌then◌else◌,
}
use dataset_rt.Python.{Result, ok, err, value_error, index_error, ◌>>=◌, traverse}
use dataset_rt.Writer.{Text, text_eq}

-- `words n` is `split(maxsplit=n)`, and `parts` the parts of a path behind its root.
pub record Reading : Type 0 where
  pub int : Text → Option ℤ
  pub lines : Text → List Text
  pub words : Option ℕ → Text → List Text
  pub parts : Text → Option (List Text)

unfoldable pub parse_int : Reading → Text → Result ℤ
parse_int r value = elim (r.int value) as (λ o. Result ℤ) [
  | none ↦ err (value_error "invalid literal for int()")
  | some n ↦ ok n
]

abbrev first_piece : ℕ → List Text → List Text
first_piece c [] = (c ∷ []) ∷ []
first_piece c (piece ∷ pieces) = (c ∷ piece) ∷ pieces

-- `value.split(separator)`, for one code point.
unfoldable pub split : ℕ → Text → List Text
split separator [] = [] ∷ []
split separator (c ∷ value) =
    let rest = split separator value in if c == separator then [] ∷ rest else first_piece c rest

unfoldable pub starts_with : Text → Text → Bool
starts_with [] value = true
starts_with (c ∷ prefix) [] = false
starts_with (c ∷ prefix) (d ∷ value) = c == d && starts_with prefix value

-- `before, after = value.split(separator, 1)`
abbrev put_before : ℕ → Option (Text × Text) → Option (Text × Text)
put_before c none = none
put_before c (some (before, after)) = some (c ∷ before, after)

unfoldable pub split_once : Text → Text → Option (Text × Text)
unfolding starts_with
split_once separator [] = none
split_once separator (c ∷ value) =
    let rest = split_once separator value in
    if starts_with separator (c ∷ value)
    then some ([], drop (length separator) (c ∷ value))
    else put_before c rest

unfoldable pub contains : Text → List Text → Bool
contains name [] = false
contains name (other ∷ others) = text_eq name other || contains name others

-- `_absolute_path`
unfoldable pub absolute_path : Reading → Text → Result (List Text)
unfolding contains
absolute_path r value = elim (r.parts value) as (λ o. Result (List Text)) [
  | none ↦ err (value_error "invalid cgroup path")
  | some parts ↦
      if contains (46 ∷ 46 ∷ []) parts then err (value_error "invalid cgroup path") else ok parts
]

pub record Membership : Type 0 where
  pub controllers : List Text
  pub path : List Text

pub data Version : Type 0 where
  unified : Version
  separate : Version

pub record Mount : Type 0 where
  pub root : List Text
  pub path : List Text
  pub version : Version
  pub controllers : List Text

-- `filter(None, …)`
unfoldable pub not_empty : List Text → List Text
not_empty [] = []
not_empty ([] ∷ texts) = not_empty texts
not_empty ((c ∷ text) ∷ texts) = (c ∷ text) ∷ not_empty texts

abbrev unpack : Option (Text × Text) → Result (Text × Text)
unpack none = err (value_error "not enough values to unpack")
unpack (some pair) = ok pair

unfoldable pub membership : Reading → Text → Result Membership
unfolding split_once not_empty split parse_int absolute_path
membership r line = do
  front ← unpack (split_once (58 ∷ []) line)
  behind ← unpack (split_once (58 ∷ []) front.1)
  hierarchy ← parse_int r front.0
  path ← absolute_path r behind.1
  ok (record { controllers = not_empty (split 44 behind.0); path = path })

unfoldable pub memberships : Reading → Text → Result (List Membership)
unfolding membership traverse
memberships r text = traverse (membership r) (r.lines text)

-- `value.replace(escaped, character)` for an escape of four code points; `skip` counts what is left of
-- the escape that was replaced.
unfoldable pub replace : Text → ℕ → ℕ → Text → Text
unfolding starts_with
replace escaped character skip [] = []
replace escaped character (suc skip) (c ∷ value) = replace escaped character skip value
replace escaped character zero (c ∷ value) =
    let replaced = replace escaped character 3 value in
    let kept = replace escaped character 0 value in
    if starts_with escaped (c ∷ value) then character ∷ replaced else c ∷ kept

-- `_unescape_mount`: \040, \011, \012 and \134, one behind the other.
unfoldable pub unescape_mount : Text → Text
unfolding replace
unescape_mount value = replace (92 ∷ 49 ∷ 51 ∷ 52 ∷ []) 92 0 (
    replace (92 ∷ 48 ∷ 49 ∷ 50 ∷ []) 10 0
      (replace (92 ∷ 48 ∷ 49 ∷ 49 ∷ []) 9 0 (replace (92 ∷ 48 ∷ 52 ∷ 48 ∷ []) 32 0 value)))

-- cgroup, cgroup2, cpu and cpuset
abbrev pub cgroup : Text
cgroup = 99 ∷ 103 ∷ 114 ∷ 111 ∷ 117 ∷ 112 ∷ []

abbrev pub cgroup2 : Text
cgroup2 = 99 ∷ 103 ∷ 114 ∷ 111 ∷ 117 ∷ 112 ∷ 50 ∷ []

abbrev pub cpu : Text
cpu = 99 ∷ 112 ∷ 117 ∷ []

abbrev pub cpuset : Text
cpuset = 99 ∷ 112 ∷ 117 ∷ 115 ∷ 101 ∷ 116 ∷ []

unfoldable pub field : List Text → ℕ → Result Text
field fields i = elim (get_elem? fields i) as (λ o. Result Text) [
  | none ↦ err (index_error "list index out of range")
  | some text ↦ ok text
]

abbrev three : List Text → Result (Text × Text)
three (filesystem ∷ _ ∷ options ∷ []) = ok (filesystem, options)
three _ = err (value_error "values to unpack")

abbrev version_of : Text → Version
version_of filesystem = if text_eq filesystem cgroup2 then unified else separate

unfoldable pub cgroup_mount : Reading → Text → Text → Text → Result (Option Mount)
unfolding field absolute_path unescape_mount split contains
cgroup_mount r before filesystem options = do
  let fields = r.words none before
  root_text ← field fields 3
  root ← absolute_path r (unescape_mount root_text)
  path_text ← field fields 4
  path ← absolute_path r (unescape_mount path_text)
  let controllers = split 44 options
  ok (
      if text_eq filesystem cgroup2 || (contains cpu controllers || contains cpuset controllers)
      then some (record {
        root = root;
        path = path;
        version = version_of filesystem;
        controllers = controllers;
      })
      else none)

-- A line of the mounts, where it is one of a control group for processors.
unfoldable pub mount : Reading → Text → Result (Option Mount)
unfolding split_once cgroup_mount
mount r line = do
  halves ← unpack (split_once (32 ∷ 45 ∷ 32 ∷ []) line)
  named ← three (r.words (some 2) halves.1)
  if not (text_eq named.0 cgroup || text_eq named.0 cgroup2)
      then ok none
      else cgroup_mount r halves.0 named.0 named.1

abbrev present : List (Option Mount) → List Mount
present [] = []
present (none ∷ mounts) = present mounts
present (some mount ∷ mounts) = mount ∷ present mounts

unfoldable pub mounts : Reading → Text → Result (List Mount)
unfolding mount traverse
mounts r text = do found ← traverse (mount r) (r.lines text); ok (present found)
