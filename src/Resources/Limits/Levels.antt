-- ===== src/Resources/Limits/Levels.antt =====
-- The loop over the directories ends at the mount, and its limits are fractions.
use dataset_rt.Prelude.{
  ℕ, zero, suc, ◌≡◌, refl, ap, ◌∙◌, ◌==◌, append-nil, true, false, some, List, [], ◌∷◌, ◌++◌,
  length, arith,
}
use dataset_rt.Writer.{Text, text_eq}
use dataset_rt.Resources.Limits.{path_eq, parent, climb}

text_eq_refl : (t : Text) → text_eq t t ≡ true
text_eq_refl [] = refl
text_eq_refl (c ∷ t) = let same : (c == c) ≡ true = ground arith in rw same (text_eq_refl t)

path_eq_refl : (p : List Text) → path_eq p p ≡ true
unfolding path_eq
path_eq_refl [] = refl
path_eq_refl (part ∷ parts) = rw (text_eq_refl part) (path_eq_refl parts)

path_eq-longer :
    (base : List Text) (part : Text) (parts : List Text)
    → path_eq (base ++ (part ∷ parts)) base ≡ false
unfolding path_eq
path_eq-longer [] part parts = refl
path_eq-longer (b ∷ base) part parts = rw (text_eq_refl b) (path_eq-longer base part parts)

parent-append :
    (base : List Text) (part : Text) (parts : List Text)
    → parent (base ++ (part ∷ parts)) ≡ base ++ parent (part ∷ parts)
unfolding parent
parent-append [] part parts = refl
parent-append (b ∷ []) part parts = refl
parent-append (b ∷ d ∷ base) part parts =
    ap (λ rest. b ∷ rest) (parent-append (d ∷ base) part parts)

-- The directories from a path below the mount up to the mount.
abbrev pub levels : ℕ → List Text → List Text → List (List Text)
levels zero base path = base ∷ []
levels (suc n) base path = (base ++ path) ∷ levels n base (parent path)

length-parent :
    (part : Text) (parts : List Text) → suc (length (parent (part ∷ parts))) ≡ suc (length parts)
unfolding parent
length-parent part [] = refl
length-parent part (other ∷ parts) = ap suc (length-parent other parts)

climb-step :
    (fuel : ℕ) (base current : List Text) (above : List (List Text))
    → path_eq current base ≡ false
    → climb fuel base (parent current) ≡ some above
    → climb (suc fuel) base current ≡ some (current ∷ above)
unfolding climb
climb-step fuel base current above below rest = rw (below, climb) (rw (rest, climb) refl)

climb-levels :
    (n : ℕ) (base path : List Text)
    → length path ≡ n
    → climb (suc n) base (base ++ path) ≡ some (levels n base path)
unfolding climb
climb-levels zero base [] h = rw (append-nil base) (rw (path_eq_refl base, climb) refl)
climb-levels zero base (part ∷ parts) h = absurd (omega (arith, h))
climb-levels (suc n) base [] h = absurd (omega (arith, h))
climb-levels (suc n) base (part ∷ parts) h =
    climb-step (suc n) base (base ++ (part ∷ parts)) (levels n base (parent (part ∷ parts)))
      (path_eq-longer base part parts)
      (ap (climb (suc n) base) (parent-append base part parts)
        ∙ climb-levels n base (parent (part ∷ parts)) (omega (arith, h, length-parent part parts)))

-- The loop over the directories of a hierarchy ends with one more step than the path below the mount
-- has parts: it visits the path, each directory above it up to the mount, and none above the mount.
pub climb_ends :
    (base path : List Text)
    → climb (suc (length path)) base (base ++ path) ≡ some (levels (length path) base path)
climb_ends base path = climb-levels (length path) base path refl
