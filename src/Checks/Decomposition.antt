-- ===== src/Checks/Decomposition.antt =====
-- core/Grid.cpp at concrete grids.
use frehg.Prelude.{
  ℕ, zero, suc, ◌+◌, ◌*◌, ◌/◌, ◌%◌, ◌≤◌, ◌<◌, min, ◌≡◌, refl, ◌⊎◌, ◌↔◌, arith, some, none, ok,
  fatal, for_range, ℤ, pos, negsuc, sum_below, if◌then◌else◌, ◌==◌,
}
use frehg.Grid.Blocks.{block_size, block_start, block_sizes_balanced}
use frehg.Grid.Decomposition.{
  score_of, by_extent, try_candidate, fallback, refit, choose_decomposition,
}
use frehg.Grid.Decomposition.Choice.{choose_automatic_fits}
use frehg.Grid.Layout.{place}
use frehg.Grid.Layout.Tiling.{Owns, place_tiles, neighbours_mutual, neighbours_adjacent}
use frehg.Grid.Ids.{
  number_cells, number_cell, number_level, count_cells, count_cell, scan_offset, ktop_outside,
}
use frehg.Grid.Ids.Numbering.{before2, before3, id2, id3, number_cells_lem}
use frehg.Grid.Ids.Rows.{HasRow, rows_exact, rank_ranges_tile}
use frehg.Grid.Ids.Counting.{InRange, counted as expected_counts, count_cells_lem}

-- `MPI_Dims_create` for two dimensions, at the counts that the tests use.
abbrev dims : ℕ → ℕ × ℕ
dims n = if n % 2 == 0 then (n / 2, 2) else (n, 1)

-- Four ranks on a 1 x 9 grid: 2 x 2 blocks would be empty, 1 x 4 fit.
narrow : choose_decomposition 1 9 4 dims 0 0 ≡ ok (1, 4)
unfolding choose_decomposition refit by_extent fallback try_candidate for_range
narrow = refl

block_sizes_balanced_example :
    (block_start 10 4 1 ≡ sum_below 1 (block_size 10 4))
    × (sum_below 4 (block_size 10 4) ≡ 10)
    × (block_size 10 4 3 ≤ block_size 10 4 1)
    × (block_size 10 4 1 ≤ block_size 10 4 3 + 1)
block_sizes_balanced_example = block_sizes_balanced 10 4 1 3 (omega arith) (omega arith)

choose_automatic_fits_example :
    (d : ℕ × ℕ) × (choose_decomposition 1 9 4 dims 0 0 ≡ ok d)
    × (d.0 ≤ 1)
    × (d.1 ≤ 9)
    × ((d ≡ by_extent 1 9 4 (2, 2)) ⊎ (score_of 1 9 4 1 ≤ min (1 / d.0) (9 / d.1)))
choose_automatic_fits_example = choose_automatic_fits 1 9 4 dims 1 (omega arith) (omega arith) refl

place_tiles_example :
    (r : ℕ) × (r < 2 * 2)
    × Owns (place 5 4 2 2 r) 3 2
    × ((s : ℕ) → s < 2 * 2 → Owns (place 5 4 2 2 s) 3 2 → s ≡ r)
place_tiles_example =
    place_tiles 5 4 2 2 (omega arith) (omega arith) 3 2 (omega arith) (omega arith)

neighbours_mutual_example :
    (((place 5 4 2 2 0).east ≡ some 1) ↔ ((place 5 4 2 2 1).west ≡ some 0))
    × (((place 5 4 2 2 0).north ≡ some 1) ↔ ((place 5 4 2 2 1).south ≡ some 0))
neighbours_mutual_example = neighbours_mutual 5 4 2 2 (omega arith) (omega arith) 0 1 (omega arith)

neighbours_adjacent_example :
    let a = place 5 4 2 2 0 in
    let b = place 5 4 2 2 1 in
    (a.east ≡ some 1
      → (1 < 2 * 2) × (b.i0 ≡ a.i0 + a.nx_local) × (b.j0 ≡ a.j0) × (b.ny_local ≡ a.ny_local))
    × (a.north ≡ some 1
        → (1 < 2 * 2) × (b.j0 ≡ a.j0 + a.ny_local) × (b.i0 ≡ a.i0) × (b.nx_local ≡ a.nx_local))
neighbours_adjacent_example =
    neighbours_adjacent 5 4 2 2 (omega arith) (omega arith) 0 1 (omega arith)

-- A 2 x 2 block with 3 levels and a mask; one column is inactive.
abbrev mask : ℕ → ℕ → ℤ
mask zero i = pos i
mask (suc j) zero = pos 3
mask (suc j) (suc i) = pos 0

counted : count_cells 2 2 3 mask ≡ ok (record { two = 3; three = 8 })
unfolding count_cells for_range count_cell
counted = refl

rejected : count_cells 2 2 3 (λ j i. negsuc 0) ≡ fatal ktop_outside
unfolding count_cells for_range count_cell
rejected = refl

numbered : (number_cells 2 2 3 mask 10 20).gid3 2 2 1 ≡ some 26
unfolding number_cells for_range number_cell number_level
numbered = refl

rows_exact_example :
    (((20 ≤ 26) × (26 < 20 + before3 2 2 3 mask 2 0))
      ↔ ((j : ℕ) × (i : ℕ) × (k : ℕ) × HasRow 2 2 3 mask 10 20 j i k 26))
    × ((j i k j' i' k' : ℕ)
        → HasRow 2 2 3 mask 10 20 j i k 26
        → HasRow 2 2 3 mask 10 20 j' i' k' 26
        → (j ≡ j') × (i ≡ i') × (k ≡ k'))
rows_exact_example = rows_exact 2 2 3 mask 10 20 26

-- What `MPI_Exscan` leaves on the first rank is not defined: 99, say.
abbrev exscan : (ℕ → ℕ) → ℕ → ℕ
exscan counts zero = 99
exscan counts (suc r) = sum_below (suc r) counts

exscan_sums : (counts : ℕ → ℕ) (r : ℕ) → 0 < r → exscan counts r ≡ sum_below r counts
exscan_sums counts zero h = absurd (omega arith)
exscan_sums counts (suc r) h = refl

abbrev cells : ℕ → ℕ
cells r = r + 5

rank_ranges_tile_example :
    (r : ℕ) × (r < 3)
    × ((scan_offset exscan cells r ≤ 12) × (12 < scan_offset exscan cells r + cells r))
    × ((s : ℕ)
        → (scan_offset exscan cells s ≤ 12) × (12 < scan_offset exscan cells s + cells s)
        → s ≡ r)
rank_ranges_tile_example = rank_ranges_tile exscan cells (exscan_sums cells) 3 12 (omega arith)

number_cells_lem_example :
    let s = number_cells 2 2 3 mask 10 20 in
    (s.next2 ≡ 10 + before2 2 2 3 mask 2 0)
    × (s.next3 ≡ 20 + before3 2 2 3 mask 2 0)
    × ((j i : ℕ)
        → j < 2
        → i < 2
        → (s.gid2 (suc j) (suc i) ≡ id2 2 2 3 mask 10 j i)
          × ((k : ℕ) → s.gid3 (suc j) (suc i) k ≡ id3 2 2 3 mask 20 j i k))
    × ((a b : ℕ)
        → (a ≡ 0) ⊎ (b ≡ 0) ⊎ (2 < a) ⊎ (2 < b)
        → (s.gid2 a b ≡ none) × ((k : ℕ) → s.gid3 a b k ≡ none))
number_cells_lem_example = number_cells_lem 2 2 3 mask 10 20

count_cells_lem_example :
    ((count_cells 2 2 3 mask ≡ expected_counts 2 2 3 mask 2 0)
      ↔ ((j i : ℕ) → j < 2 → i < 2 → InRange 2 2 3 mask j i))
    × ((count_cells 2 2 3 mask ≡ fatal ktop_outside)
        ↔ ((j : ℕ) × (i : ℕ) × (j < 2) × (i < 2) × ¬ InRange 2 2 3 mask j i))
count_cells_lem_example = count_cells_lem 2 2 3 mask
