-- ===== src/Halo/Messages.antt =====
-- `planeIndices`, `HaloExchanger::planeCount`, `packEntry` and `unpackEntry` of
-- core/HaloExchanger.cpp: one field's plane in the message buffer of one direction.
use frehg.Prelude.{ℕ, ◌+◌, ◌*◌, Bool, true, false, not, ◌&&◌, ◌==◌, if◌then◌else◌, for_range}

pub data Direction : Type 0 where
  west east south north : Direction

-- The owned extents of a rank.
pub record Extents : Type 0 where
  pub nx_local : ℕ
  pub ny_local : ℕ
  pub nz : ℕ

-- `Entry::is3d` with `f2` or `f3`.
pub data Field (W : Type 0) : Type 0 where
  flat : (ℕ → ℕ → W) → Field W
  deep : (ℕ → ℕ → ℕ → W) → Field W

pub record PlaneIndices : Type 0 where
  pub send : ℕ
  pub recv : ℕ

unfoldable pub plane_indices : Direction → Extents → PlaneIndices
plane_indices Direction.west e = record { send = 1; recv = 0 }
plane_indices Direction.east e = record { send = e.nx_local; recv = e.nx_local + 1 }
plane_indices Direction.south e = record { send = 1; recv = 0 }
plane_indices Direction.north e = record { send = e.ny_local; recv = e.ny_local + 1 }

abbrev pub along_x : Direction → Bool
along_x Direction.west = true
along_x Direction.east = true
along_x Direction.south = false
along_x Direction.north = false

-- The cells of a row of the plane, and the index of the first one. A wide row takes the i-halo in.
abbrev pub row_cells : Extents → Direction → Bool → ℕ
row_cells e dir wide_rows =
    if along_x dir then e.ny_local else if wide_rows then e.nx_local + 2 else e.nx_local

abbrev pub row_start : Direction → Bool → ℕ
row_start dir wide_rows = if wide_rows && not (along_x dir) then 0 else 1

-- The kernels' `jj` and `ii`: the cell `r` of the row on the plane.
abbrev pub row_j : Direction → Bool → ℕ → ℕ → ℕ
row_j dir wide_rows plane r = if along_x dir then r + row_start dir wide_rows else plane

abbrev pub row_i : Direction → Bool → ℕ → ℕ → ℕ
row_i dir wide_rows plane r = if along_x dir then plane else r + row_start dir wide_rows

module _ {W : Type 0} where
  unfoldable pub plane_count : Extents → Field W → Direction → Bool → ℕ
  plane_count e (flat f) dir wide_rows = row_cells e dir wide_rows
  plane_count e (deep f) dir wide_rows = row_cells e dir wide_rows * e.nz

  abbrev pub write : ℕ → W → (ℕ → W) → ℕ → W
  write n v buf m = if m == n then v else buf m

  abbrev pub write2 : ℕ → ℕ → W → (ℕ → ℕ → W) → ℕ → ℕ → W
  write2 j i v f a b = if a == j && b == i then v else f a b

  abbrev pub write3 : ℕ → ℕ → ℕ → W → (ℕ → ℕ → ℕ → W) → ℕ → ℕ → ℕ → W
  write3 j i k v f a b c = if a == j && b == i && c == k then v else f a b c

  unfoldable pub pack_entry : Extents → Direction → Bool → Field W → ℕ → (ℕ → W) → ℕ → W
  unfolding plane_indices
  pack_entry e dir wide_rows (flat f) offset buf =
      let plane = (plane_indices dir e).send in
      for_range (row_cells e dir wide_rows) 0
        (λ r. write (offset + r) (f (row_j dir wide_rows plane r) (row_i dir wide_rows plane r)))
        buf
  pack_entry e dir wide_rows (deep f) offset buf =
      let plane = (plane_indices dir e).send in
      for_range (row_cells e dir wide_rows) 0
        (λ r. for_range e.nz 0 (λ k.
          write (offset + r * e.nz + k)
            (f (row_j dir wide_rows plane r) (row_i dir wide_rows plane r) k)))
        buf

  unfoldable pub unpack_entry : Extents → Direction → Bool → ℕ → (ℕ → W) → Field W → Field W
  unfolding plane_indices
  unpack_entry e dir wide_rows offset buf (flat f) =
      let plane = (plane_indices dir e).recv in
      flat (
        for_range (row_cells e dir wide_rows) 0
          (λ r.
            write2 (row_j dir wide_rows plane r) (row_i dir wide_rows plane r) (buf (offset + r)))
          f)
  unpack_entry e dir wide_rows offset buf (deep f) =
      let plane = (plane_indices dir e).recv in
      deep (
        for_range (row_cells e dir wide_rows) 0
          (λ r. for_range e.nz 0 (λ k.
            write3 (row_j dir wide_rows plane r) (row_i dir wide_rows plane r) k
              (buf (offset + r * e.nz + k))))
          f)
