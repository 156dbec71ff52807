-- ===== src/Selection.antt =====
-- The rows of a worker: `prepare_row_order`, `population_selection` and `select_population` of
-- dataset_rt/reconstruction.py. A table is given by its row count, a selection by row positions.
-- The generator's `shuffle` and `permutation`, and the saved order, are arguments.
pub mod Agreement
use dataset_rt.Prelude.{
  ℕ, zero, suc, ◌+◌, ◌-◌, ◌%◌, ◌/◌, min, ℤ, pos, pos_part, ltb_ℤ, leb_ℤ, Bool, true, false, ◌&&◌,
  ◌||◌, not, Option, none, some, List, [], ◌∷◌, ◌++◌, map, length, range, range_from, take, drop,
  get_or, ltb, leb, ◌==◌, if◌then◌else◌,
}
use dataset_rt.Python.{Result, ok, err, value_error, ◌>>=◌, ◌>>◌, raise_if}

-- The loop that fills the order before it is shuffled, for fuel.
unfoldable pub fill_order : ℕ → ℕ → ℕ → List ℕ
fill_order zero start count = []
fill_order (suc fuel) start count =
    let end = min count (start + 65536) in
    let rest = fill_order fuel (start + 65536) count in
    if leb count start then [] else range_from start (end - start) ++ rest

-- The saved order; a buffer takes at least one row, so the row count is fuel enough.
unfoldable pub prepare_row_order : (ℕ → List ℕ → List ℕ) → ℕ → ℕ → List ℕ
unfolding fill_order
prepare_row_order shuffle count seed = shuffle seed (fill_order count 0 count)

-- `indices = arange(length); indices += offset % count; indices %= count`
unfoldable pub cyclic : ℕ → ℕ → ℕ → List ℕ
cyclic offset length count = map (λ i. (i + offset % count) % count) (range length)

-- `order[positions]`
unfoldable pub pick : List ℕ → List ℕ → List ℕ
pick order positions = map (λ i. get_or order i 0) positions

unfoldable pub is_whole : Option ℕ → ℤ → ℤ → ℕ → Bool
is_whole (some seed) offset length count = false
is_whole none offset length count =
    pos_part offset == 0 && leb_ℤ length (pos count) && leb_ℤ (pos count) length

unfoldable pub ordered_rows : List ℕ → ℕ → ℕ → ℕ → Result (List ℕ)
unfolding cyclic pick
ordered_rows order count offset size = do
  raise_if (not (length order == count))
      (value_error "partition order does not match metadata row count")
  let start = offset % count
  ok (
      if leb (start + size) count
      then take size (drop start order)
      else map (λ i. get_or order ((i + start) % count) 0) (range size))

unfoldable pub selected_rows : Option ℕ → List ℕ → ℕ → ℕ → ℕ → Result (List ℕ)
unfolding cyclic ordered_rows
selected_rows none order count offset size = ok (cyclic offset size count)
selected_rows (some seed) order count offset size = ordered_rows order count offset size

unfoldable pub partial_selection : Result (List ℕ) → Result (Option (List ℕ))
partial_selection (ok rows) = ok (some rows)
partial_selection (err error) = err error

-- No selection stands for the whole table.
unfoldable pub population_selection : List ℕ → ℕ → ℤ → ℤ → Option ℕ → Result (Option (List ℕ))
unfolding is_whole selected_rows partial_selection
population_selection order count offset size partition_seed = do
  raise_if (ltb_ℤ offset (pos 0) || leb_ℤ size (pos 0))
      (value_error "population selection requires a nonnegative offset and positive length")
  if is_whole partition_seed offset size count
      then ok none
      else partial_selection
          (selected_rows partition_seed order count (pos_part offset) (pos_part size))

unfoldable pub taken_rows : (ℕ → ℕ → List ℕ) → ℕ → ℕ → ℕ → Option ℕ → List ℕ
unfolding cyclic pick
taken_rows permutation count offset size none =
    if leb (offset + size) count then range_from offset size else cyclic offset size count
taken_rows permutation count offset size (some seed) =
    pick (permutation seed count) (cyclic offset size count)

-- The legacy selection, from a table.
unfoldable pub select_population : (ℕ → ℕ → List ℕ) → ℕ → ℤ → ℤ → Option ℕ → Result (List ℕ)
unfolding taken_rows
select_population permutation count offset size partition_seed = do
  raise_if (ltb_ℤ size (pos 0) || ltb_ℤ offset (pos 0))
      (value_error "population selection requires nonnegative offset and length")
  ok (
      if pos_part size == 0
      then []
      else taken_rows permutation count (pos_part offset) (pos_part size) partition_seed)
