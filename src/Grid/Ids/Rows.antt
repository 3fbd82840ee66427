-- ===== src/Grid/Ids/Rows.antt =====
-- The ids of `Grid::buildGlobalIds` (core/Grid.cpp) as matrix rows: each row of a rank's range is
-- the id of exactly one active cell, and the ranges of the ranks tile the global rows.
use mathlib.Core.Path.{subst}
use frehg.Prelude.{
  ℕ, zero, suc, ◌+◌, ◌-◌, ◌≤◌, ◌<◌, ◌≡◌, refl, arith, Option, some, ℤ, to_ℕ, sum_below,
  sum_below_find, sum_below_unique, sum_below-le, ◌↔◌, sym,
}
use frehg.Grid.Ids.{number_cells, scan_offset}
use frehg.Grid.Ids.Numbering.{before3, height, number_cells_lem}

module _ (nx_local ny_local nz : ℕ) (ktop : ℕ → ℕ → ℤ) (offset2 offset3 : ℕ) where
  abbrev gid3 : ℕ → ℕ → ℕ → Option ℕ
  gid3 = (number_cells nx_local ny_local nz ktop offset2 offset3).gid3

  -- The owned active cell (j, i, k) has the id `row`.
  abbrev pub HasRow : ℕ → ℕ → ℕ → ℕ → Type 0
  HasRow j i k row = (j < ny_local) × (i < nx_local) × (gid3 (suc j) (suc i) k ≡ some row)

  abbrev width : ℕ → ℕ
  width a = sum_below nx_local (height nx_local ny_local nz ktop a)

  abbrev tall : ℕ → ℕ → ℕ
  tall = height nx_local ny_local nz ktop

  row_place :
      (j i k row : ℕ)
      → HasRow j i k row
      → (to_ℕ (ktop j i) ≤ k)
        × (k < nz)
        × (row ≡ offset3 + (sum_below j width + sum_below i (tall j)) + (k - to_ℕ (ktop j i)))
  row_place j i k row (hj, hi, e) =
      let closed = ((number_cells_lem nx_local ny_local nz ktop offset2 offset3).2 j i hj hi).1 k in
      ground (arith, closed)

  -- Every row of the rank's range is the id of an owned cell.
  rows_hit :
      (n : ℕ)
      → n < before3 nx_local ny_local nz ktop ny_local 0
      → (j : ℕ) × (i : ℕ) × (k : ℕ) × HasRow j i k (offset3 + n)
  rows_hit n h =
      let (j, hj, jl, ju) = sum_below_find width ny_local n (omega arith) in
      let (i, hi, il, iu) =
        sum_below_find (tall j) nx_local (n - sum_below j width) (omega arith) in
      let closed =
        ((number_cells_lem nx_local ny_local nz ktop offset2 offset3).2 j i hj hi).1
          (to_ℕ (ktop j i) + (n - sum_below j width - sum_below i (tall j))) in
      (
        j,
        i,
        to_ℕ (ktop j i) + (n - sum_below j width - sum_below i (tall j)),
        (hj, hi, ground (arith, closed)),
      )

  -- A cell's row lies in the range of the rank.
  row_in_range :
      (j i k row : ℕ)
      → HasRow j i k row
      → (offset3 ≤ row) × (row < offset3 + before3 nx_local ny_local nz ktop ny_local 0)
  row_in_range j i k row h =
      let (lo, hi, e) = row_place j i k row h in
      omega (arith, sum_below-le (tall j) nx_local i h.1, sum_below-le width ny_local j h.0)

  level_unique : (j i k k' row : ℕ) → HasRow j i k row → HasRow j i k' row → k ≡ k'
  level_unique j i k k' row h h' =
      let (lo, hi, e) = row_place j i k row h in
      let (lo', hi', e') = row_place j i k' row h' in omega arith

  column_unique :
      (j i k i' k' row : ℕ) → HasRow j i k row → HasRow j i' k' row → (i ≡ i') × (k ≡ k')
  column_unique j i k i' k' row h h' =
      let (lo, hi, e) = row_place j i k row h in
      let (lo', hi', e') = row_place j i' k' row h' in
      let same : i ≡ i' =
        sum_below_unique (tall j) (row - offset3 - sum_below j width) i i' (omega arith)
          (omega arith) (omega arith) (omega arith) in
      (same, level_unique j i k k' row h (subst (λ t. HasRow j t k' row) (sym same) h'))

  row_unique :
      (j i k j' i' k' row : ℕ)
      → HasRow j i k row
      → HasRow j' i' k' row
      → (j ≡ j') × (i ≡ i') × (k ≡ k')
  row_unique j i k j' i' k' row h h' =
      let (lo, hi, e) = row_place j i k row h in
      let (lo', hi', e') = row_place j' i' k' row h' in
      let same : j ≡ j' =
        sum_below_unique width (row - offset3) j j' (omega arith)
          (omega (arith, sum_below-le (tall j) nx_local i h.1)) (omega arith)
          (omega (arith, sum_below-le (tall j') nx_local i' h'.1)) in
      let (si, sk) =
        column_unique j i k i' k' row h (subst (λ t. HasRow t i' k' row) (sym same) h') in
      (same, si, sk)

  -- A row lies in the rank's range exactly when it is the id of an owned active cell, and then of
  -- one cell only.
  pub rows_exact :
      (row : ℕ)
      → (((offset3 ≤ row) × (row < offset3 + before3 nx_local ny_local nz ktop ny_local 0))
          ↔ ((j : ℕ) × (i : ℕ) × (k : ℕ) × HasRow j i k row))
        × ((j i k j' i' k' : ℕ)
            → HasRow j i k row
            → HasRow j' i' k' row
            → (j ≡ j') × (i ≡ i') × (k ≡ k'))
  rows_exact row = (
    (
      λ (lo, hi).
          let back : offset3 + (row - offset3) ≡ row = omega arith in
          subst (λ t. (j : ℕ) × (i : ℕ) × (k : ℕ) × HasRow j i k t) back
            (rows_hit (row - offset3) (omega arith)),
      λ (j, i, k, h). row_in_range j i k row h,
    ),
    λ j i k j' i' k' h h'. row_unique j i k j' i' k' row h h',
  )

module _ (exscan : (ℕ → ℕ) → ℕ → ℕ) (counts : ℕ → ℕ)
    (exscan_sums : (rank : ℕ) → 0 < rank → exscan counts rank ≡ sum_below rank counts) where
  -- `MPI_Exscan` with `MPI_SUM` returns, on every rank but the first, the sum over the ranks before.
  scan_offset-sum : (rank : ℕ) → scan_offset exscan counts rank ≡ sum_below rank counts
  unfolding scan_offset
  scan_offset-sum zero = refl
  scan_offset-sum (suc rank) = ground (arith, exscan_sums (suc rank))

  -- The ranges of the ranks tile the global rows: each of the `size` ranks' rows together belongs to
  -- the range of exactly one rank.
  pub rank_ranges_tile :
      (size row : ℕ)
      → row < sum_below size counts
      → let Holds = λ (r : ℕ).
        (scan_offset exscan counts r ≤ row) × (row < scan_offset exscan counts r + counts r) in
        (r : ℕ) × (r < size) × Holds r × ((s : ℕ) → Holds s → s ≡ r)
  rank_ranges_tile size row h =
      let (r, r_lt, lo, hi) = sum_below_find counts size row h in
      (
        r,
        r_lt,
        rw (scan_offset-sum r) (lo, hi),
        λ s (slo, shi).
            sum_below_unique counts row s r (omega (arith, scan_offset-sum s))
              (omega (arith, scan_offset-sum s)) lo hi,
      )
