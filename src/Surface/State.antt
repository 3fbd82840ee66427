-- ===== src/Surface/State.antt =====
-- swe/SurfaceSolver.hpp: the members of `SurfaceSolver`, and the ranges of its kernels. A field
-- has a halo of one cell: the owned cells are 1 … ny_local by 1 … nx_local. What the constructor
-- fixes stands in `Settings`, what the steps change in `Surface`.
use frehg.Prelude.{
  ℕ, ◌+◌, ◌-◌, ◌==◌, leb, ltb, Bool, true, false, ◌&&◌, if◌then◌else◌, Option, none, some, List, [],
  ◌∷◌, is_owned, for_range, Double, ◌⊗◌,
}
use frehg.Grid.Layout.{Layout}
use frehg.Boundary.Kinds.{BcCell}
use frehg.Boundary.Conditions.{BoundaryCondition}

abbrev pub Field2 : Type 0 → Type 0
Field2 R = ℕ → ℕ → R

-- A member cell of a condition, with the bed drop that only an outflow condition uses.
pub record Member (R : Type 0) : Type 0 where
  pub cell : BcCell
  pub bed_drop : R

pub record DeviceBcList (R : Type 0) : Type 0 where
  pub bc : BoundaryCondition R
  pub members : List (Member R)
  pub current : R

pub record Settings (R : Type 0) : Type 0 where
  pub layout : Layout
  pub nx : ℕ
  pub ny : ℕ
  pub dx : R
  pub dy : R
  pub dt : R
  pub gravity : R
  pub visc_x : R
  pub visc_y : R
  pub min_depth : R
  pub wetting_face_depth : R
  pub thin_layer_depth : R
  pub chezy : Bool
  pub wind_enabled : Bool
  pub wind_attenuation : R
  pub bulk_evaporation : Bool

pub record SurfaceStepAudit (R : Type 0) : Type 0 where
  pub rain_volume : R
  pub evap_volume : R
  pub boundary_outflow : R
  pub bc_inflow : R
  pub clamp_volume : R

pub record Surface (R : Type 0) : Type 0 where
  pub rain : R
  pub evap : R
  pub wind_speed : R
  pub wind_omega : R
  pub wind_cd : R
  pub offset : R
  pub eta : Field2 R
  pub etan : Field2 R
  pub dept : Field2 R
  pub deptx : Field2 R
  pub depty : Field2 R
  pub bottom : Field2 R
  pub uu : Field2 R
  pub vv : Field2 R
  pub uy : Field2 R
  pub vx : Field2 R
  pub ex : Field2 R
  pub ey : Field2 R
  pub drag_x : Field2 R
  pub drag_y : Field2 R
  pub cd_x : Field2 R
  pub cd_y : Field2 R
  pub vs : Field2 R
  pub vsx : Field2 R
  pub vsy : Field2 R
  pub asx : Field2 R
  pub asy : Field2 R
  pub asz : Field2 R
  pub aszx : Field2 R
  pub aszy : Field2 R
  pub fu : Field2 R
  pub fv : Field2 R
  pub cflx : Field2 R
  pub cfly : Field2 R
  pub cfl_active : Field2 R
  pub sxp : Field2 R
  pub sxm : Field2 R
  pub syp : Field2 R
  pub sym_leg : Field2 R
  pub sct : Field2 R
  pub srhs : Field2 R
  pub eta_bc_value : Field2 R
  pub is_eta_bc : Field2 R
  pub rain_mask : Field2 R
  pub evap_mask : Field2 R
  pub friction_coef : Field2 R
  pub eta_bcs : List (DeviceBcList R)
  pub discharge_bcs : List (DeviceBcList R)
  pub velocity_bcs : List (DeviceBcList R)
  pub outflow_bcs : List (DeviceBcList R)
  pub audit : SurfaceStepAudit R

-- A domain edge: `MPI_PROC_NULL` in place of a neighbour.
abbrev pub is_edge : Option ℕ → Bool
is_edge none = true
is_edge (some rank) = false

-- `parallel_for` over `{j0, i0}` up to `{j1, i1}`, in which a cell gets the value of `new`.
abbrev pub kernel : {R : Type 0} → (j0 i0 j1 i1 : ℕ) → Field2 R → Field2 R → Field2 R
kernel j0 i0 j1 i1 new old j i =
    if leb j0 j && ltb j j1 && leb i0 i && ltb i i1 then new j i else old j i

-- One cell written.
abbrev pub store : {R : Type 0} → ℕ → ℕ → R → Field2 R → Field2 R
store j i x field b a = if b == j && a == i then x else field b a

module _ {R : Type 0} ⦃double : Double R⦄ (s : Settings R) where
  abbrev pub nyl : ℕ
  nyl = s.layout.ny_local

  abbrev pub nxl : ℕ
  nxl = s.layout.nx_local

  abbrev pub cell_area : R
  cell_area = s.dx ⊗ s.dy

  -- A kernel over the owned cells.
  abbrev pub owned_kernel : Field2 R → Field2 R → Field2 R
  owned_kernel new old j i = if is_owned nyl nxl j i then new j i else old j i

  -- `parallel_reduce` over the owned cells, in their order.
  unfoldable pub reduce : (ℕ → ℕ → R → R) → R → R
  reduce step start = for_range nyl 1 (λ j. for_range nxl 1 (λ i. step j i)) start

  -- The global indices of a local cell.
  abbrev pub global_i : ℕ → ℕ
  global_i i = s.layout.i0 + i - 1

  abbrev pub global_j : ℕ → ℕ
  global_j j = s.layout.j0 + j - 1

  -- The cell lies on a global domain edge.
  abbrev pub on_west : ℕ → Bool
  on_west i = global_i i == 0

  abbrev pub on_east : ℕ → Bool
  on_east i = global_i i == s.nx - 1

  abbrev pub on_south : ℕ → Bool
  on_south j = global_j j == 0

  abbrev pub on_north : ℕ → Bool
  on_north j = global_j j == s.ny - 1

-- The zero-gradient ghosts along the west and east edges, and along the south and north edges.
abbrev pub west_ghosts : {R : Type 0} → Layout → Field2 R → Field2 R
west_ghosts l f j i =
    if is_edge l.west && i == 0 && leb 1 j && ltb j (l.ny_local + 1) then f j 1 else f j i

abbrev pub east_ghosts : {R : Type 0} → Layout → Field2 R → Field2 R
east_ghosts l f j i =
    if is_edge l.east && i == l.nx_local + 1 && leb 1 j && ltb j (l.ny_local + 1)
    then f j l.nx_local
    else f j i

abbrev pub south_ghosts : {R : Type 0} → Layout → Field2 R → Field2 R
south_ghosts l f j i =
    if is_edge l.south && j == 0 && leb 1 i && ltb i (l.nx_local + 1) then f 1 i else f j i

abbrev pub north_ghosts : {R : Type 0} → Layout → Field2 R → Field2 R
north_ghosts l f j i =
    if is_edge l.north && j == l.ny_local + 1 && leb 1 i && ltb i (l.nx_local + 1)
    then f l.ny_local i
    else f j i

unfoldable pub edge_ghosts : {R : Type 0} → Layout → Field2 R → Field2 R
edge_ghosts l f = north_ghosts l (south_ghosts l (east_ghosts l (west_ghosts l f)))

-- A loop over the members of all lists, with the list of each.
abbrev pub each_member :
    {R S : Type 0} → (DeviceBcList R → Member R → S → S) → DeviceBcList R → List (Member R) → S → S
each_member body l [] x = x
each_member body l (m ∷ ms) x = each_member body l ms (body l m x)

abbrev pub for_members :
    {R S : Type 0} → (DeviceBcList R → Member R → S → S) → List (DeviceBcList R) → S → S
for_members body [] x = x
for_members body (l ∷ ls) x = for_members body ls (each_member body l l.members x)

-- A loop over the lists of one kind.
abbrev pub for_lists : {R S : Type 0} → (DeviceBcList R → S → S) → List (DeviceBcList R) → S → S
for_lists body [] x = x
for_lists body (l ∷ ls) x = for_lists body ls (body l x)
