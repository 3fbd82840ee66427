-- ===== src/Surface/Setup.antt =====
-- swe/SurfaceSolver.cpp: what the constructor prepares. `read_raster` is the reader of rasters,
-- `all_min` the minimum over the ranks, and `exchange` the halo exchange of one field. A raster has
-- a value for each cell of the domain.
use Prim.Native.String.{String}
use frehg.Prelude.{
  ◌+◌, ◌-◌, ◌*◌, if◌then◌else◌, none, some, List, [], ◌∷◌, ◌++◌, map, get_elem?, Result, ok, fatal,
  ◌>>=◌, is_owned, Double, ◌⊕◌, ◌⊖◌, ◌≺◌, zero_real, one_real, negate,
}
use frehg.Config.Load.Types.{FileOrConstant}
use frehg.Config.Load.Outputs.{BcKind}
use frehg.Boundary.Kinds.{BcFace, BcCell}
use frehg.Boundary.Polygon.{Point, make_polygon}
use frehg.Boundary.Conditions.{RegionMesh, BoundaryCondition, holds_center, is_surface}
use frehg.Surface.State.{
  Field2, DeviceBcList, Settings, Surface, store, owned_kernel, reduce, global_i, global_j,
  edge_ghosts, for_members,
}

pub data SetupError : Type 0 where
  bad_raster : SetupError
  bad_region : SetupError
  bad_forcing : SetupError
  unaccepted_kind : String → SetupError

module _ {R : Type 0} ⦃double : Double R⦄ (s : Settings R) where
  unfoldable pub assign_interior_from_global : List R → Field2 R → Field2 R
  assign_interior_from_global values field =
      owned_kernel s
        (λ j i. elim (get_elem? values (global_j s j * s.nx + global_i s i)) [
          | none ↦ field j i
          | some x ↦ x
        ])
        field

  unfoldable pub assign_file_or_constant :
      (read_raster : String → Result SetupError (List R))
      → FileOrConstant R
      → Field2 R
      → Result SetupError (Field2 R)
  unfolding assign_interior_from_global
  assign_file_or_constant read_raster source field =
      if source.from_file
      then (read_raster source.file >>= λ values. ok (assign_interior_from_global values field))
      else ok (owned_kernel s (λ j i. source.constant) field)

  -- The bed after its reading: lifted so that no elevation of any rank is negative.
  unfoldable pub lift_bottom :
      (all_min : R → R) (exchange : Surface R → Surface R) → Surface R → Surface R
  unfolding reduce edge_ghosts
  lift_bottom all_min exchange u =
      let least = all_min (
        reduce s (λ j i value. if u.bottom j i ≺ value then u.bottom j i else value)
          double.infinity) in
      let offset = if least ≺ zero_real then negate least else zero_real in
      let lifted = record u {
        offset = offset;
        bottom = owned_kernel s (λ j i. u.bottom j i ⊕ offset) u.bottom;
      } in
      let exchanged = exchange lifted in
      record exchanged { bottom = edge_ghosts s.layout exchanged.bottom }

  unfoldable pub mesh_of : RegionMesh R
  mesh_of = record { layout = s.layout; nx = s.nx; ny = s.ny; dx = s.dx; dy = s.dy }

  -- `buildRainMask` and `buildEvapMask`: 1 in the owned cells but for those of the polygon.
  unfoldable pub build_mask : List (Point R) → Result SetupError (Field2 R)
  unfolding mesh_of
  build_mask [] =
      ok (λ j i. if is_owned s.layout.ny_local s.layout.nx_local j i then one_real else zero_real)
  build_mask (v ∷ vs) = elim (make_polygon (v ∷ vs)) [
    | fatal e ↦ fatal SetupError.bad_region
    | ok poly ↦ ok (λ j i.
        if is_owned s.layout.ny_local s.layout.nx_local j i
        then (if holds_center mesh_of poly j i then zero_real else one_real)
        else zero_real)
  ]

  -- The bed drop from the inward neighbour to a member, 0 on an adverse slope.
  unfoldable pub drop_of : Field2 R → BcCell → R
  drop_of bottom c =
      let inward : R = elim c.face [
        | BcFace.x_plus ↦ bottom c.j (c.i - 1)
        | BcFace.x_minus ↦ bottom c.j (c.i + 1)
        | BcFace.y_plus ↦ bottom (c.j - 1) c.i
        | BcFace.y_minus ↦ bottom (c.j + 1) c.i
        | _ ↦ bottom c.j c.i
      ] in
      let drop = inward ⊖ bottom c.j c.i in if zero_real ≺ drop then drop else zero_real

  abbrev pub list_of_condition : BoundaryCondition R → (BcCell → R) → DeviceBcList R
  list_of_condition bc drop = record {
    bc = bc;
    members = map (λ c. record { cell = c; bed_drop = drop c }) bc.cells;
    current = zero_real;
  }

  -- One condition: those of another target and the scalar ones are left to other modules.
  unfoldable pub add_condition : BoundaryCondition R → Surface R → Result SetupError (Surface R)
  unfolding drop_of
  add_condition bc u =
      let plain = list_of_condition bc (λ c. zero_real) in
      if is_surface bc.target
      then elim bc.kind [
        | BcKind.scalar_value ↦ ok u
        | BcKind.eta_kind ↦ ok (record u { eta_bcs = u.eta_bcs ++ (plain ∷ []) })
        | BcKind.discharge ↦ ok (record u { discharge_bcs = u.discharge_bcs ++ (plain ∷ []) })
        | BcKind.velocity ↦ ok (record u { velocity_bcs = u.velocity_bcs ++ (plain ∷ []) })
        | BcKind.outflow ↦ ok (record u {
          outflow_bcs = u.outflow_bcs ++ (list_of_condition bc (drop_of u.bottom) ∷ []);
        })
        | _ ↦ fatal (SetupError.unaccepted_kind bc.name)
      ]
      else ok u

  unfoldable pub add_conditions :
      List (BoundaryCondition R) → Surface R → Result SetupError (Surface R)
  unfolding add_condition
  add_conditions [] u = ok u
  add_conditions (bc ∷ rest) u = add_condition bc u >>= λ v. add_conditions rest v

  unfoldable pub mark_stages : Surface R → Surface R
  mark_stages u = record u {
    is_eta_bc = for_members (λ l m f. store m.cell.j m.cell.i one_real f) u.eta_bcs u.is_eta_bc;
  }

  unfoldable pub build_boundary_lists :
      (exchange : Surface R → Surface R)
      → List (BoundaryCondition R)
      → Surface R
      → Result SetupError (Surface R)
  unfolding add_conditions mark_stages
  build_boundary_lists exchange conditions u =
      add_conditions conditions u >>= λ v. ok (exchange (mark_stages v))

  -- The initial levels in the frame of the offset, none below the bed.
  unfoldable pub clamp_initial : Surface R → Surface R
  clamp_initial u = record u {
    eta =
        owned_kernel s
          (λ j i.
            let level = u.eta j i ⊕ u.offset in
            if level ≺ u.bottom j i then u.bottom j i else level)
          u.eta;
  }
