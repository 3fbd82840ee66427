-- ===== src/Halo/Placement.antt =====
-- The mesh of the exchange (core/HaloExchanger.cpp) as core/Grid.cpp builds it: each rank has the
-- block and the neighbours of its `Layout`.
use frehg.Prelude.{ℕ, ◌+◌, ◌*◌, ◌<◌, ◌≡◌, sym, ap, Bool, arith, Option, some, if◌then◌else◌}
use frehg.Grid.Layout.{Layout, place}
use frehg.Grid.Layout.Tiling.{neighbours_mutual, neighbours_adjacent}
use frehg.Halo.Messages.{Direction, row_cells}
use frehg.Halo.Exchange.{Mesh}
use frehg.Halo.Exchange.Opposites.{IsMesh, opposite}

abbrev pub neighbour_of : Layout → Direction → Option ℕ
neighbour_of l Direction.west = l.west
neighbour_of l Direction.east = l.east
neighbour_of l Direction.south = l.south
neighbour_of l Direction.north = l.north

module _ (nx ny nz px py : ℕ) where
  abbrev pub mesh_of : Mesh
  mesh_of = record {
    ranks = px * py;
    extents = λ r. record {
      nx_local = (place nx ny px py r).nx_local;
      ny_local = (place nx ny px py r).ny_local;
      nz = nz;
    };
    neighbour = λ r. neighbour_of (place nx ny px py r);
  }

  module _ (px_pos : 0 < px) (py_pos : 0 < py) where
    abbrev at : ℕ → Layout
    at = place nx ny px py

    -- How the block of a rank's neighbour lies to its own.
    abbrev pub Lies : Direction → Layout → Layout → Type 0
    Lies Direction.west a b = (a.i0 ≡ b.i0 + b.nx_local) × (b.j0 ≡ a.j0) × (b.ny_local ≡ a.ny_local)
    Lies Direction.east a b = (b.i0 ≡ a.i0 + a.nx_local) × (b.j0 ≡ a.j0) × (b.ny_local ≡ a.ny_local)
    Lies Direction.south a b =
        (a.j0 ≡ b.j0 + b.ny_local) × (b.i0 ≡ a.i0) × (b.nx_local ≡ a.nx_local)
    Lies Direction.north a b =
        (b.j0 ≡ a.j0 + a.ny_local) × (b.i0 ≡ a.i0) × (b.nx_local ≡ a.nx_local)

    lower_neighbour :
        (r q : ℕ)
        → r < px * py
        → ((at r).west ≡ some q → q < px * py) × ((at r).south ≡ some q → q < px * py)
    unfolding place
    lower_neighbour r q h = (λ e. ground arith, λ e. ground arith)

    pub neighbour_place :
        (r q : ℕ) (d : Direction)
        → r < px * py
        → mesh_of.neighbour r d ≡ some q
        → (q < px * py) × Lies d (at r) (at q) × (mesh_of.neighbour q (opposite d) ≡ some r)
    neighbour_place r q Direction.east h e =
        let geometry = (neighbours_adjacent nx ny px py px_pos py_pos r q h).0 e in
        (
          geometry.0,
          (geometry.1, geometry.2, geometry.3),
          (neighbours_mutual nx ny px py px_pos py_pos r q geometry.0).0.0 e,
        )
    neighbour_place r q Direction.north h e =
        let geometry = (neighbours_adjacent nx ny px py px_pos py_pos r q h).1 e in
        (
          geometry.0,
          (geometry.1, geometry.2, geometry.3),
          (neighbours_mutual nx ny px py px_pos py_pos r q geometry.0).1.0 e,
        )
    neighbour_place r q Direction.west h e =
        let back = (neighbours_mutual nx ny px py px_pos py_pos q r h).0.1 e in
        let inside = (lower_neighbour r q h).0 e in
        let geometry = (neighbours_adjacent nx ny px py px_pos py_pos q r inside).0 back in
        (inside, (geometry.1, sym geometry.2, sym geometry.3), back)
    neighbour_place r q Direction.south h e =
        let back = (neighbours_mutual nx ny px py px_pos py_pos q r h).1.1 e in
        let inside = (lower_neighbour r q h).1 e in
        let geometry = (neighbours_adjacent nx ny px py px_pos py_pos q r inside).1 back in
        (inside, (geometry.1, sym geometry.2, sym geometry.3), back)

    pub mesh_of-IsMesh : IsMesh mesh_of
    mesh_of-IsMesh = record {
      inside = λ r q d h e. (neighbour_place r q d h e).0;
      mirrored = λ r q d h e. (neighbour_place r q d h e).2;
      same_rows = λ r q d wide h e. rows r q d wide (neighbour_place r q d h e).1;
    }
      where
        rows :
            (r q : ℕ) (d : Direction) (wide : Bool)
            → Lies d (at r) (at q)
            → row_cells (mesh_of.extents q) (opposite d) wide ≡ row_cells (mesh_of.extents r) d wide
        rows r q Direction.west wide l = l.2
        rows r q Direction.east wide l = l.2
        rows r q Direction.south wide l = ap (λ (n : ℕ). if wide then n + 2 else n) l.2
        rows r q Direction.north wide l = ap (λ (n : ℕ). if wide then n + 2 else n) l.2
