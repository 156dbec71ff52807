-- ===== src/Selection/Agreement.antt =====
-- The two ways to select a worker's rows agree, and the shared order holds every row.
use dataset_rt.Prelude.{
  ℕ, zero, suc, ◌+◌, ◌-◌, ◌%◌, ◌≤◌, ◌<◌, ◌≡◌, refl, sym, ap, ap₂, ◌∙◌, min, pos, Option, none, some,
  List, [], ◌∷◌, ◌++◌, map, length, length-range_from, range, range_from, take, drop, get_or, leb,
  leb→le, le→leb, arith, inl, inr, Bool-cases, append-nil,
}
use native.Mathlib.Nat.{mod-eq_of_lt}
use dataset_rt.Python.{ok}
use dataset_rt.Selection.{
  fill_order, prepare_row_order, cyclic, pick, is_whole, partial_selection, ordered_rows,
  selected_rows, population_selection, taken_rows, select_population,
}

range_from-append :
    (i j m n k : ℕ) → j ≡ i + m → k ≡ m + n → range_from i m ++ range_from j n ≡ range_from i k
range_from-append i j zero n k e f = ap₂ range_from (omega (arith, e)) (omega (arith, f))
range_from-append i j (suc m) n zero e f = absurd (omega (arith, f))
range_from-append i j (suc m) n (suc k) e f =
    ap (λ (r : List ℕ). i ∷ r)
      (range_from-append (suc i) j m n k (omega (arith, e)) (omega (arith, f)))

range_from-empty : (i n : ℕ) → n ≡ 0 → range_from i n ≡ []
range_from-empty i n e = ap (range_from i) e

range_from-append-empty :
    (i j m n k : ℕ) → n ≡ 0 → k ≡ m → range_from i m ++ range_from j n ≡ range_from i k
range_from-append-empty i j m n k e f =
    rw (range_from-empty j n e) (append-nil (range_from i m) ∙ ap (range_from i) (sym f))

fill_order-done : (fuel start count : ℕ) → count ≤ start → fill_order fuel start count ≡ []
unfolding fill_order
fill_order-done zero start count h = refl
fill_order-done (suc fuel) start count h = rw (le→leb count start h) refl

-- The buffers, one behind another, hold every row once, in order.
fill_order-range :
    (fuel start count : ℕ)
    → count ≤ start + fuel
    → fill_order fuel start count ≡ range_from start (count - start)
unfolding fill_order
fill_order-range zero start count h =
    sym (range_from-empty start (count - start) (omega (arith, h)))
fill_order-range (suc fuel) start count h =
    let end = min count (start + 65536) in
    elim (Bool-cases (leb count start)) [
      | inl done ↦ rw done (sym (range_from-empty start (count - start) (ground (arith, done))))
      | inr more ↦
          let below : start < count = ground (arith, more) in
          rw (more, fill_order-range fuel (start + 65536) count (omega (arith, h)))
            (elim (Bool-cases (leb count (start + 65536))) [
              | inl last ↦
                  let le = leb→le count (start + 65536) last in
                  range_from-append-empty start (start + 65536) (end - start)
                    (count - (start + 65536)) (count - start) (omega (arith, le))
                    (omega (arith, le, below))
              | inr inner ↦
                  let lt : start + 65536 < count = ground (arith, inner) in
                  range_from-append start (start + 65536) (end - start) (count - (start + 65536))
                    (count - start) (omega (arith, lt)) (omega (arith, lt))
            ])
    ]

map-mod :
    (start size count from at : ℕ)
    → from + size + start ≤ count
    → at ≡ from + start
    → map (λ i. (i + start) % count) (range_from from size) ≡ range_from at size
map-mod start zero count from at h e = refl
map-mod start (suc size) count from at h e =
    ap₂ ◌∷◌ (mod-eq_of_lt (omega (arith, h)) ∙ sym e)
      (map-mod start size count (suc from) (suc at) (omega (arith, h)) (omega (arith, e)))

pick-shift :
    (x : ℕ) (order : List ℕ) (i n : ℕ)
    → pick (x ∷ order) (range_from (suc i) n) ≡ pick order (range_from i n)
unfolding pick
pick-shift x order i zero = refl
pick-shift x order i (suc n) =
    ap (λ (r : List ℕ). get_or order i 0 ∷ r) (pick-shift x order (suc i) n)

slice-pick :
    (order : List ℕ) (start size : ℕ)
    → start + size ≤ length order
    → take size (drop start order) ≡ pick order (range_from start size)
unfolding pick
slice-pick order zero zero h = refl
slice-pick [] zero (suc size) h = absurd (omega (arith, h))
slice-pick (x ∷ order) zero (suc size) h =
    ap (λ (r : List ℕ). x ∷ r)
      (slice-pick order zero size (omega (arith, h)) ∙ sym (pick-shift x order 0 size))
slice-pick [] (suc start) zero h = refl
slice-pick [] (suc start) (suc size) h = absurd (omega (arith, h))
slice-pick (x ∷ order) (suc start) size h =
    slice-pick order start size (omega (arith, h)) ∙ sym (pick-shift x order start size)

pick-cyclic :
    (order : List ℕ) (start count : ℕ) (rows : List ℕ)
    → map (λ i. get_or order ((i + start) % count) 0) rows
      ≡ pick order (map (λ i. (i + start) % count) rows)
unfolding pick
pick-cyclic order start count [] = refl
pick-cyclic order start count (row ∷ rows) =
    ap (λ (r : List ℕ). get_or order ((row + start) % count) 0 ∷ r)
      (pick-cyclic order start count rows)

-- The rows that a selection stands for.
abbrev pub rows_of : ℕ → Option (List ℕ) → List ℕ
rows_of count none = range count
rows_of count (some rows) = rows

-- The row order that is saved for a partition seed; without one none is, and none is read.
abbrev pub saved : (ℕ → List ℕ → List ℕ) → ℕ → Option ℕ → List ℕ
saved shuffle count none = []
saved shuffle count (some seed) = prepare_row_order shuffle count seed

abbrev Agree : (ℕ → ℕ → List ℕ) → List ℕ → ℕ → ℕ → ℕ → Option ℕ → Type 0
Agree permutation order count offset size seed =
    (selection : Option (List ℕ)) × (population_selection order count (pos offset) (pos size) seed
      ≡ ok selection)
    × (select_population permutation count (pos offset) (pos size) seed
        ≡ ok (rows_of count selection))

unordered-slice :
    (permutation : ℕ → ℕ → List ℕ) (count offset size : ℕ)
    → 0 < size
    → offset + size ≤ count
    → select_population permutation count (pos offset) (pos size) none ≡ ok (range_from offset size)
unfolding select_population taken_rows
unordered-slice permutation count offset size some_size fits =
    rw (le→leb (offset + size) count fits) (ground arith)

cyclic-start :
    (offset size count : ℕ)
    → offset % count + size ≤ count
    → cyclic offset size count ≡ range_from (offset % count) size
unfolding cyclic
cyclic-start offset size count fits =
    map-mod (offset % count) size count 0 (offset % count) (omega (arith, fits)) (omega arith)

cyclic-slice :
    (offset size count : ℕ)
    → 0 < size
    → offset + size ≤ count
    → cyclic offset size count ≡ range_from offset size
cyclic-slice offset size count some_size fits =
    let small : offset % count ≡ offset = mod-eq_of_lt (omega (arith, some_size, fits)) in
    cyclic-start offset size count (omega (arith, small, fits))
    ∙ ap (λ (i : ℕ). range_from i size) small

unordered :
    (permutation : ℕ → ℕ → List ℕ) (order : List ℕ) (count offset size : ℕ)
    → 0 < count
    → 0 < size
    → Agree permutation order count offset size none
unfolding population_selection select_population is_whole selected_rows partial_selection taken_rows
    cyclic
unordered permutation order count offset size some_row some_size =
    elim (Bool-cases (is_whole none (pos offset) (pos size) count)) [
      | inl whole ↦
          let at : offset ≡ 0 = ground (arith, whole) in
          let same : size ≡ count = ground (arith, whole) in
          (
            none,
            ground (arith, whole),
            unordered-slice permutation count offset size some_size (omega (arith, at, same))
                ∙ ap ok (ap₂ range_from at same),
          )
      | inr part ↦ (
        some (cyclic offset size count),
        ground (arith, part),
        elim (Bool-cases (leb (offset + size) count)) [
          | inl fits ↦
              let le = leb→le (offset + size) count fits in
              unordered-slice permutation count offset size some_size le
              ∙ ap ok (sym (cyclic-slice offset size count some_size le))
          | inr wraps ↦ ground (arith, wraps)
        ],
      )
    ]

ordered :
    (permutation : ℕ → ℕ → List ℕ) (order : List ℕ) (count offset size seed : ℕ)
    → 0 < count
    → 0 < size
    → order ≡ permutation seed count
    → length order ≡ count
    → Agree permutation order count offset size (some seed)
unfolding population_selection select_population is_whole selected_rows partial_selection taken_rows
    ordered_rows cyclic
ordered permutation order count offset size seed some_row some_size e len =
    let start = offset % count in
    let legacy : select_population permutation count (pos offset) (pos size) (some seed)
        ≡ ok (pick order (cyclic offset size count)) =
      rw e (ground arith) in
    elim (Bool-cases (leb (start + size) count)) [
      | inl fits ↦
          let le = leb→le (start + size) count fits in
          (
            some (take size (drop start order)),
            ground (arith, fits, len),
            legacy
                ∙ ap (λ (rows : List ℕ). ok (pick order rows)) (cyclic-start offset size count le)
                ∙ ap ok (sym (slice-pick order start size (omega (arith, le, len)))),
          )
      | inr wraps ↦ (
        some (map (λ i. get_or order ((i + start) % count) 0) (range size)),
        ground (arith, wraps, len),
        legacy ∙ ap ok (sym (pick-cyclic order start count (range size))),
      )
    ]

-- The saved order is the shuffle of every row, once each, in order.
pub prepare_row_order_shuffles :
    (shuffle : ℕ → List ℕ → List ℕ) (count seed : ℕ)
    → prepare_row_order shuffle count seed ≡ shuffle seed (range count)
unfolding prepare_row_order
prepare_row_order_shuffles shuffle count seed =
    let all : fill_order count 0 count ≡ range_from 0 (count - 0) =
      fill_order-range count 0 count (omega arith) in
    let zero_less : count - 0 ≡ count = omega arith in
    ap (shuffle seed) (all ∙ ap (range_from 0) zero_less)

-- For every accepted request the rows that a worker's reader selects from the row order that
-- `prepare_row_order` saved are those of the legacy table selection, in the same order, with or
-- without a partition seed: where a shuffle keeps the number of rows, and a permutation of a number
-- of rows is, as NumPy documents, the shuffle of the range of that number.
pub selections_agree :
    (permutation : ℕ → ℕ → List ℕ) (shuffle : ℕ → List ℕ → List ℕ) (count offset size : ℕ)
    (seed : Option ℕ)
    → 0 < count
    → 0 < size
    → ((s : ℕ) (rows : List ℕ) → length (shuffle s rows) ≡ length rows)
    → ((s n : ℕ) → permutation s n ≡ shuffle s (range n))
    → (selection : Option (List ℕ)) × (population_selection
          (saved shuffle count seed)
          count
          (pos offset)
          (pos size)
          seed
        ≡ ok selection)
      × (select_population permutation count (pos offset) (pos size) seed
          ≡ ok (rows_of count selection))
selections_agree permutation shuffle count offset size none some_row some_size keeps numpy =
    unordered permutation [] count offset size some_row some_size
selections_agree permutation shuffle count offset size (some seed) some_row some_size keeps numpy =
    let order = prepare_row_order_shuffles shuffle count seed in
    ordered permutation (prepare_row_order shuffle count seed) count offset size seed some_row
      some_size (order ∙ sym (numpy seed count))
      (ap (λ (rows : List ℕ). length rows) order
        ∙ keeps seed (range count)
        ∙ length-range_from 0 count)
