-- ===== src/Grid/Layout.antt =====
-- The constructor `Grid::Grid` of core/Grid.cpp, up to the mask: the block that a rank owns and its
-- four neighbours. `none` is `MPI_PROC_NULL`; the vertical spacing is real-valued and is left out.
pub mod Tiling
use frehg.Prelude.{
  ℕ, ◌+◌, ◌-◌, ◌/◌, ◌%◌, ltb, leb, if◌then◌else◌, ◌&&◌, Option, none, some, Result, ok, fatal,
  require, ◌>>=◌, ◌>>◌,
}
use frehg.Grid.Blocks.{block_size, block_start}
use frehg.Grid.Decomposition.{GridError, bad_extents, empty_block, choose_decomposition}

pub record Layout : Type 0 where
  pub px : ℕ
  pub py : ℕ
  pub pi : ℕ
  pub pj : ℕ
  pub nx_local : ℕ
  pub ny_local : ℕ
  pub i0 : ℕ
  pub j0 : ℕ
  pub west : Option ℕ
  pub east : Option ℕ
  pub south : Option ℕ
  pub north : Option ℕ

-- The block and the neighbours of a rank under `px * py` blocks.
unfoldable pub place : (nx ny px py rank : ℕ) → Layout
place nx ny px py rank =
    let pi = rank % px in
    let pj = rank / px in
    record {
      px = px;
      py = py;
      pi = pi;
      pj = pj;
      nx_local = block_size nx px pi;
      ny_local = block_size ny py pj;
      i0 = block_start nx px pi;
      j0 = block_start ny py pj;
      west = if ltb 0 pi then some (rank - 1) else none;
      east = if ltb (pi + 1) px then some (rank + 1) else none;
      south = if ltb 0 pj then some (rank - px) else none;
      north = if ltb (pj + 1) py then some (rank + px) else none;
    }

module _ (dims_create : ℕ → ℕ × ℕ) (nx ny nz size req_x req_y : ℕ) where
  unfoldable pub build : ℕ → Result GridError Layout
  build rank = do
    require (leb 1 nx && leb 1 ny && leb 1 nz) bad_extents
    d ← choose_decomposition nx ny size dims_create req_x req_y
    let l = place nx ny d.0 d.1 rank
    require (leb 1 l.nx_local && leb 1 l.ny_local) empty_block
    ok l
