-- ===== src/Grid/Ids.antt =====
-- `Grid::buildGlobalIds` of core/Grid.cpp: the counts of active cells, their scan over the ranks,
-- and the numbering of the owned cells. An id of -1 is `none`. A field is a function of its
-- indices; the owned cells (j, i) stand at (j + 1, i + 1).
pub mod Levels
pub mod Numbering
pub mod Counting
pub mod Rows
use frehg.Prelude.{
  ℕ, suc, ◌+◌, ◌-◌, ◌≡◌, Bool, ◌&&◌, ◌||◌, ltb, leb, ◌==◌, if◌then◌else◌, Option, none, some,
  Result, ok, fatal, require, ◌>>=◌, ◌>>◌, for_range, ℤ, pos, negsuc, to_ℕ, sum_below,
}

pub data IdError : Type 0 where
  ktop_outside : IdError
  too_many_cells : IdError

pub record Counts : Type 0 where
  pub two : ℕ
  pub three : ℕ

pub record Ids : Type 0 where
  pub next2 : ℕ
  pub next3 : ℕ
  pub gid2 : ℕ → ℕ → Option ℕ
  pub gid3 : ℕ → ℕ → ℕ → Option ℕ

module _ (nx_local ny_local nz : ℕ) (ktop : ℕ → ℕ → ℤ) where
  abbrev check_ktop : ℤ → Bool
  check_ktop (pos n) = leb n nz
  check_ktop (negsuc n) = leb 1 0

  -- One cell of the counting loop.
  unfoldable pub count_cell : ℕ → ℕ → Result IdError Counts → Result IdError Counts
  count_cell j i r = do
    c ← r
    require (check_ktop (ktop j i)) ktop_outside
    let kt = to_ℕ (ktop j i)
    ok (if ltb kt nz then record { two = c.two + 1; three = c.three + (nz - kt) } else c)

  unfoldable pub count_cells : Result IdError Counts
  count_cells =
      for_range ny_local 0 (λ j. for_range nx_local 0 (count_cell j))
        (ok (record { two = 0; three = 0 }))

  unfoldable pub number_level : ℕ → ℕ → ℕ → Ids → Ids
  number_level jh ih k s = record s {
    next3 = s.next3 + 1;
    gid3 = λ a b c. if a == jh && b == ih && c == k then some s.next3 else s.gid3 a b c;
  }

  -- One cell of the numbering loop, with the loop over its levels.
  unfoldable pub number_cell : ℕ → ℕ → Ids → Ids
  number_cell j i s =
      let kt = to_ℕ (ktop j i) in
      let t = record s {
        next2 = s.next2 + 1;
        gid2 = λ a b. if a == j + 1 && b == i + 1 then some s.next2 else s.gid2 a b;
      } in
      if leb nz kt then s else for_range (nz - kt) kt (number_level (j + 1) (i + 1)) t

  unfoldable pub number_cells : ℕ → ℕ → Ids
  number_cells offset2 offset3 =
      for_range ny_local 0 (λ j. for_range nx_local 0 (number_cell j))
        (record { next2 = offset2; next3 = offset3; gid2 = λ a b. none; gid3 = λ a b c. none })

-- `MPI_Exscan` of the counts, whose result on rank 0 is undefined and is set to 0.
unfoldable pub scan_offset : ((ℕ → ℕ) → ℕ → ℕ) → (ℕ → ℕ) → ℕ → ℕ
scan_offset exscan counts rank = if rank == 0 then 0 else exscan counts rank

-- `buildGlobalIds` on one rank, given what the two collective calls return.
unfoldable pub build_global_ids :
    (limit nx_local ny_local nz : ℕ) (ktop : ℕ → ℕ → ℤ) (scan2 scan3 total2 total3 : ℕ)
    → Result IdError Ids
build_global_ids limit nx_local ny_local nz ktop scan2 scan3 total2 total3 = do
  c ← count_cells nx_local ny_local nz ktop
  require (leb total3 limit && leb total2 limit) too_many_cells
  ok (number_cells nx_local ny_local nz ktop scan2 scan3)
