-- ===== src/Grid/Decomposition.antt =====
-- `Grid::chooseDecomposition` of core/Grid.cpp. `MPI_Dims_create(size, 2, dims)` is the parameter
-- `dims_create`, of which the code relies on the product of the two counts only.
pub mod Choice
use frehg.Prelude.{
  ℕ, ◌*◌, ◌/◌, ◌%◌, ◌≤◌, ◌<◌, min, max, ◌≡◌, Bool, true, false, ◌&&◌, ◌||◌, ltb, leb, ◌==◌,
  if◌then◌else◌, Option, none, some, Result, ok, fatal, for_range,
}

pub data GridError : Type 0 where
  bad_extents : GridError
  wrong_rank_count : GridError
  not_a_divisor : GridError
  empty_block : GridError

-- The candidate of the fallback loop that has the best score yet; `none` is the score -1.
pub record Best : Type 0 where
  pub x : ℕ
  pub score : Option ℕ

abbrev better : ℕ → Option ℕ → Bool
better s none = true
better s (some t) = ltb t s

module _ (nx ny size : ℕ) where
  -- A candidate that the loop does not skip.
  abbrev pub fits : ℕ → Bool
  fits c = size % c == 0 && leb c nx && leb (size / c) ny

  abbrev pub score_of : ℕ → ℕ
  score_of c = min (nx / c) (ny / (size / c))

  unfoldable pub try_candidate : ℕ → Best → Best
  try_candidate c b =
      if fits c && better (score_of c) b.score
      then record { x = c; score = some (score_of c) }
      else b

  unfoldable pub fallback : Best
  fallback = for_range size 1 try_candidate (record { x = 0; score = none })

  -- The larger count goes to the larger extent.
  unfoldable pub by_extent : ℕ × ℕ → ℕ × ℕ
  by_extent dims =
      let large = max dims.0 dims.1 in
      let small = min dims.0 dims.1 in if leb ny nx then (large, small) else (small, large)

  unfoldable pub refit : ℕ × ℕ → ℕ × ℕ
  refit layout =
      if ltb nx layout.0 || ltb ny layout.1
      then if ltb 0 fallback.x then (fallback.x, size / fallback.x) else layout
      else layout

  unfoldable pub choose_decomposition : (ℕ → ℕ × ℕ) → ℕ → ℕ → Result GridError (ℕ × ℕ)
  choose_decomposition dims_create req_x req_y =
      if ltb 0 req_x && ltb 0 req_y
      then if req_x * req_y == size then ok (req_x, req_y) else fatal wrong_rank_count
      else if ltb 0 req_x
      then if size % req_x == 0 then ok (req_x, size / req_x) else fatal not_a_divisor
      else if ltb 0 req_y
      then if size % req_y == 0 then ok (size / req_y, req_y) else fatal not_a_divisor
      else ok (refit (by_extent (dims_create size)))
