-- ===== src/Writer/Names/Segment.antt =====
-- The names that `validate_source_name` accepts, described without its tests.
use dataset_rt.Prelude.{
  ℕ, ◌+◌, ◌<◌, ◌≡◌, ap₂, ◌≤◌, ◌≢◌, ◌↔◌, ◌⊎◌, refl, Bool-cases, true, false, some, [], ◌∷◌, All,
  Option-cases, ltb, leb, if◌then◌else◌, arith, inl, inr,
}
use dataset_rt.Writer.{Text, text_eq}
use dataset_rt.Writer.Names.{
  accepted, encoded_size, plus, encoded_length, contains, check_length, validate_source_name,
}

-- A code point that UTF-8 encodes: no surrogate.
abbrev pub IsScalar : ℕ → Type 0
IsScalar c = (c < 55296) ⊎ (57343 < c)

-- The bytes of UTF-8: one more from each of the code points 128, 2048 and 65536 on.
abbrev pub utf8_width : ℕ → ℕ
utf8_width c =
    1
    + ((if leb 128 c then 1 else 0)
        + ((if leb 2048 c then 1 else 0) + (if leb 65536 c then 1 else 0)))

abbrev pub utf8_size : Text → ℕ
utf8_size [] = 0
utf8_size (c ∷ text) = utf8_width c + utf8_size text

-- A name that is one destination segment: it is not empty, folds to none of the names `.`, `..` and
-- `tmp`, has neither a slash nor a zero character nor a surrogate, and takes at most 255 bytes.
pub record IsSegment (casefold : Text → Text) (name : Text) : Type 0 where
  pub nonempty : name ≢ []
  pub not_dot : casefold name ≢ 46 ∷ []
  pub not_dot_dot : casefold name ≢ 46 ∷ 46 ∷ []
  pub not_tmp : casefold name ≢ 116 ∷ 109 ∷ 112 ∷ []
  pub plain : All (λ c. (c ≢ 47) × (c ≢ 0)) name
  pub scalar : All IsScalar name
  pub fits : utf8_size name ≤ 255

pub text_eq_refl : (s : Text) → text_eq s s ≡ true
text_eq_refl [] = refl
text_eq_refl (c ∷ s) = ground (arith, text_eq_refl s)

text_eq_sound : (a b : Text) → text_eq a b ≡ true → a ≡ b
text_eq_sound [] [] h = refl
text_eq_sound [] (d ∷ b) h = cc
text_eq_sound (c ∷ a) [] h = cc
text_eq_sound (c ∷ a) (d ∷ b) h =
    let rest : text_eq a b ≡ true = ground (arith, h) in
    let same : c ≡ d = ground (arith, h) in
    ap₂ (λ (x : ℕ) (y : Text). x ∷ y) same (text_eq_sound a b rest)

text_eq-false : (a b : Text) → a ≢ b → text_eq a b ≡ false
text_eq-false a b other = elim (Bool-cases (text_eq a b)) [
  | inl same ↦ absurd (other (text_eq_sound a b same))
  | inr different ↦ different
]

text_eq_ne : (a b : Text) → text_eq a b ≡ false → a ≢ b
text_eq_ne a b h same =
    let reflexive : text_eq b b ≡ true = text_eq_refl b in cc (h, same, reflexive)

contains-none : (c : ℕ) (text : Text) → contains c text ≡ false → All (λ d. d ≢ c) text
unfolding contains
contains-none c [] h = tt
contains-none c (d ∷ text) h =
    (λ same. ground (arith, h, same), contains-none c text (ground (arith, h)))

none-contains : (c : ℕ) (text : Text) → All (λ d. d ≢ c) text → contains c text ≡ false
unfolding contains
none-contains c [] h = refl
none-contains c (d ∷ text) (other, rest) = ground (arith, other, none-contains c text rest)

All-both :
    (a b : ℕ) (text : Text)
    → All (λ c. c ≢ a) text
    → All (λ c. c ≢ b) text
    → All (λ c. (c ≢ a) × (c ≢ b)) text
All-both a b [] h k = tt
All-both a b (c ∷ text) (h, hs) (k, ks) = ((h, k), All-both a b text hs ks)

All-left : (a b : ℕ) (text : Text) → All (λ c. (c ≢ a) × (c ≢ b)) text → All (λ c. c ≢ a) text
All-left a b [] h = tt
All-left a b (c ∷ text) ((h, _), hs) = (h, All-left a b text hs)

All-right : (a b : ℕ) (text : Text) → All (λ c. (c ≢ a) × (c ≢ b)) text → All (λ c. c ≢ b) text
All-right a b [] h = tt
All-right a b (c ∷ text) ((_, h), hs) = (h, All-right a b text hs)

encoded_size-some : (c n : ℕ) → encoded_size c ≡ some n → IsScalar c × (n ≡ utf8_width c)
unfolding encoded_size
encoded_size-some c n h = elim (Bool-cases (ltb c 55296)) [
  | inl low ↦ (inl (ground (arith, low)), ground (arith, low, h))
  | inr high ↦ (
    elim (Bool-cases (leb c 57343)) [
      | inl surrogate ↦ absurd (ground (arith, high, surrogate, h))
      | inr above ↦ inr (ground (arith, above))
    ],
    ground (arith, high, h),
  )
]

scalar-encoded_size : (c : ℕ) → IsScalar c → encoded_size c ≡ some (utf8_width c)
unfolding encoded_size
scalar-encoded_size c (inl low) = ground (arith, low)
scalar-encoded_size c (inr high) = ground (arith, high)

encoded_length-some :
    (text : Text) (n : ℕ) → encoded_length text ≡ some n → All IsScalar text × (n ≡ utf8_size text)
unfolding encoded_length plus
encoded_length-some [] n h = (tt, ground (arith, h))
encoded_length-some (c ∷ text) n h = elim (Option-cases (encoded_size c)) [
  | inl bad ↦ cc (rw (bad, encoded_length, plus) at h)
  | inr (size, first) ↦ elim (Option-cases (encoded_length text)) [
    | inl bad ↦ cc (rw (bad, encoded_length, plus) at (rw (first, encoded_length, plus) at h))
    | inr (rest, later) ↦
        let (scalar, width) = encoded_size-some c size first in
        let (scalars, widths) = encoded_length-some text rest later in
        let sum : some (size + rest) ≡ some n =
          rw (later, encoded_length, plus) at (rw (first, encoded_length, plus) at h) in
        ((scalar, scalars), ground (arith, sum, width, widths))
  ]
]

scalars-encoded_length :
    (text : Text) → All IsScalar text → encoded_length text ≡ some (utf8_size text)
unfolding encoded_length plus
scalars-encoded_length [] h = refl
scalars-encoded_length (c ∷ text) (scalar, scalars) =
    rw (scalar-encoded_size c scalar, scalars-encoded_length text scalars) refl

validate_source_name-accepts :
    (casefold : Text → Text) (name result : Text)
    → validate_source_name casefold name ≡ accepted result
    → IsSegment casefold name
unfolding validate_source_name check_length
validate_source_name-accepts casefold [] result h = cc
validate_source_name-accepts casefold (c ∷ name) result h =
    let folded = casefold (c ∷ name) in
    elim (Option-cases (encoded_length (c ∷ name))) [
      | inl bad ↦ ground (arith, bad, h)
      | inr (size, encodes) ↦
          let (scalars, same) = encoded_length-some (c ∷ name) size encodes in
          let bound : size ≤ 255 = ground (arith, encodes, h) in
          record {
            nonempty = λ e. cc;
            not_dot = text_eq_ne folded (46 ∷ []) (ground (arith, h));
            not_dot_dot = text_eq_ne folded (46 ∷ 46 ∷ []) (ground (arith, h));
            not_tmp = text_eq_ne folded (116 ∷ 109 ∷ 112 ∷ []) (ground (arith, h));
            plain =
                All-both 47 0 (c ∷ name) (contains-none 47 (c ∷ name) (ground (arith, h)))
                  (contains-none 0 (c ∷ name) (ground (arith, h)));
            scalar = scalars;
            fits = omega (arith, bound, same);
          }
    ]

validate_source_name_complete :
    (casefold : Text → Text) (name : Text)
    → IsSegment casefold name
    → validate_source_name casefold name ≡ accepted name
unfolding validate_source_name check_length
validate_source_name_complete casefold [] s = absurd (s.nonempty refl)
validate_source_name_complete casefold (c ∷ name) s =
    let folded = casefold (c ∷ name) in
    let no_dot = text_eq-false folded (46 ∷ []) s.not_dot in
    let no_dots = text_eq-false folded (46 ∷ 46 ∷ []) s.not_dot_dot in
    let no_tmp = text_eq-false folded (116 ∷ 109 ∷ 112 ∷ []) s.not_tmp in
    let no_slash = none-contains 47 (c ∷ name) (All-left 47 0 (c ∷ name) s.plain) in
    let no_nul = none-contains 0 (c ∷ name) (All-right 47 0 (c ∷ name) s.plain) in
    let encodes = scalars-encoded_length (c ∷ name) s.scalar in
    let within : ltb 255 (utf8_size (c ∷ name)) ≡ false = ground (arith, s.fits) in
    rw (no_dot, no_dots, no_tmp, no_slash, no_nul, encodes, within) refl

-- A name is accepted, and then unchanged, exactly if it is not empty, folds to none of the names
-- `.`, `..` and `tmp`, has no slash, no zero character and no surrogate, and takes at most 255 bytes
-- in UTF-8.
pub validate_source_name_exact :
    (casefold : Text → Text) (name : Text)
    → (validate_source_name casefold name ≡ accepted name) ↔ IsSegment casefold name
validate_source_name_exact casefold name =
    (validate_source_name-accepts casefold name name, validate_source_name_complete casefold name)
