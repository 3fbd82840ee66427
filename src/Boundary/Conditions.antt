-- ===== src/Boundary/Conditions.antt =====
-- bc/BoundarySet.cpp: the conditions of one rank with their member cells. A time series is read by
-- `read_series`, and `all_sum` is the sum over the ranks; the sub-communicators are left out.
mod Pushes
pub mod Members
use Prim.Native.String.{String}
use Prim.Native.String.{◌++◌ as join}
use frehg.Prelude.{
  ℕ, ◌+◌, ◌-◌, ◌==◌, Bool, true, false, ◌&&◌, ◌||◌, if◌then◌else◌, List, [], ◌∷◌, ◌++◌, length,
  Result, ok, fatal, require, not, ◌>>=◌, ◌>>◌, for_range, Double, ◌⊕◌, ◌⊗◌, zero_real,
}
use frehg.Grid.Layout.{Layout}
use frehg.Series.{TimeSeries, SeriesError}
use frehg.Series
use frehg.Config.Document.{str_eq}
use frehg.Config.Load.Outputs.{BcTarget, BcKind, BcScalar, BcForm, BoundaryConditionConfig}
use frehg.Boundary.Kinds.{BcFace, BcCell}
use frehg.Boundary.Polygon.{Polygon, PolygonError, make_polygon, contains}

pub data BoundaryError : Type 0 where
  bad_polygon : BoundaryError
  bad_series : BoundaryError
  no_cell : String → BoundaryError
  unknown_name : String → BoundaryError

pub record BoundaryCondition (R : Type 0) : Type 0 where
  pub name : String
  pub target : BcTarget
  pub kind : BcKind
  pub scalar_field : BcScalar
  pub form : BcForm
  pub constant : R
  pub hydrostatic_eta : R
  pub series : TimeSeries R
  pub cells : List BcCell
  pub global_cells : ℕ

-- What the conditions use of the grid.
pub record RegionMesh (R : Type 0) : Type 0 where
  pub layout : Layout
  pub nx : ℕ
  pub ny : ℕ
  pub dx : R
  pub dy : R

abbrev pub is_side : BcTarget → Bool
is_side BcTarget.groundwater_side = true
is_side _ = false

abbrev pub is_bottom : BcTarget → Bool
is_bottom BcTarget.groundwater_bottom = true
is_bottom _ = false

abbrev pub is_surface : BcTarget → Bool
is_surface BcTarget.surface_target = true
is_surface _ = false

abbrev pub is_edge_kind : BcKind → Bool
is_edge_kind BcKind.velocity = true
is_edge_kind BcKind.outflow = true
is_edge_kind _ = false

abbrev pub is_series : BcForm → Bool
is_series BcForm.series_form = true
is_series _ = false

-- `if (test) cells.push_back(c);`
unfoldable pub push_if : Bool → BcCell → List BcCell → List BcCell
push_if test c cells = if test then cells ++ (c ∷ []) else cells

module _ {R : Type 0} ⦃double : Double R⦄ where
  -- The value at a time.
  unfoldable pub condition_value : BoundaryCondition R → R → Result SeriesError R
  condition_value bc t = elim bc.form [
    | BcForm.constant_form ↦ ok bc.constant
    | BcForm.series_form ↦ Series.value double bc.series t
    | BcForm.gravity_form ↦ ok zero_real
    | BcForm.hydrostatic_form ↦ ok bc.hydrostatic_eta
  ]

  module _ (mesh : RegionMesh R) where
    abbrev pub cell_i : ℕ → ℕ
    cell_i i = mesh.layout.i0 + i - 1

    abbrev pub cell_j : ℕ → ℕ
    cell_j j = mesh.layout.j0 + j - 1

    -- `grid.xCenter` and `grid.yCenter`
    abbrev pub x_center : ℕ → R
    x_center i = (double.of_int i ⊕ double.scaled 5 1) ⊗ mesh.dx

    abbrev pub y_center : ℕ → R
    y_center j = (double.of_int j ⊕ double.scaled 5 1) ⊗ mesh.dy

    abbrev pub holds_center : Polygon R → ℕ → ℕ → Bool
    holds_center poly j i = contains poly (x_center (cell_i i)) (y_center (cell_j j))

    unfoldable pub append_side_faces : Polygon R → ℕ → ℕ → List BcCell → List BcCell
    append_side_faces poly j i cells =
        let on : BcFace → BcCell = λ face. record { j = j; i = i; face = face } in
        if holds_center poly j i
        then push_if (cell_j j == mesh.ny - 1) (on BcFace.y_plus) (
            push_if (cell_j j == 0) (on BcFace.y_minus) (
              push_if (cell_i i == mesh.nx - 1) (on BcFace.x_plus)
                (push_if (cell_i i == 0) (on BcFace.x_minus) cells)))
        else cells

    abbrev pub footprint_face : BcTarget → BcFace
    footprint_face target = if is_bottom target then BcFace.bottom_face else BcFace.top_face

    abbrev pub edge_faces : BcTarget → BcKind → Bool
    edge_faces target kind = is_side target || (is_surface target && is_edge_kind kind)

    unfoldable pub append_cell : BcTarget → BcKind → Polygon R → ℕ → ℕ → List BcCell → List BcCell
    unfolding append_side_faces
    append_cell target kind poly j i cells =
        if edge_faces target kind
        then append_side_faces poly j i cells
        else push_if (holds_center poly j i) (record { j = j; i = i; face = footprint_face target })
            cells

    unfoldable pub member_cells : BcTarget → BcKind → Polygon R → List BcCell
    unfolding append_cell
    member_cells target kind poly =
        for_range mesh.layout.ny_local 1
          (λ j. for_range mesh.layout.nx_local 1 (λ i. append_cell target kind poly j i)) []

    module _ (read_series : String → Result SeriesError (TimeSeries R)) (all_sum : ℕ → ℕ)
        (config_dir : String) where
      -- An empty series, which a condition of another form has.
      abbrev no_samples : TimeSeries R
      no_samples = record { times = []; values = [] }

      abbrev pub series_path : String → String
      series_path file = if str_eq config_dir "" then file else join config_dir (join "/" file)

      abbrev pub or_fail : {E A : Type 0} → BoundaryError → Result E A → Result BoundaryError A
      or_fail error (ok a) = ok a
      or_fail error (fatal e) = fatal error

      unfoldable pub build_condition :
          BoundaryConditionConfig R → Result BoundaryError (BoundaryCondition R)
      unfolding member_cells
      build_condition cfg = do
        series ←
            if is_series cfg.value.form
            then or_fail BoundaryError.bad_series (read_series (series_path cfg.value.series_file))
            else ok no_samples
        poly ← or_fail BoundaryError.bad_polygon (make_polygon cfg.polygon)
        let cells = member_cells cfg.target cfg.kind poly
        let total = all_sum (length cells)
        require (not (total == 0)) (BoundaryError.no_cell cfg.name)
        ok (record {
          name = cfg.name;
          target = cfg.target;
          kind = cfg.kind;
          scalar_field = cfg.scalar_field;
          form = cfg.value.form;
          constant = cfg.value.constant;
          hydrostatic_eta = cfg.value.hydrostatic_eta;
          series = series;
          cells = cells;
          global_cells = total;
        })

      unfoldable pub build_conditions :
          List (BoundaryConditionConfig R) → Result BoundaryError (List (BoundaryCondition R))
      unfolding build_condition
      build_conditions [] = ok []
      build_conditions (cfg ∷ rest) = do
        bc ← build_condition cfg
        others ← build_conditions rest
        ok (bc ∷ others)

  unfoldable pub by_name :
      String → List (BoundaryCondition R) → Result BoundaryError (BoundaryCondition R)
  by_name name [] = fatal (BoundaryError.unknown_name name)
  by_name name (bc ∷ rest) =
      let others = by_name name rest in if str_eq bc.name name then ok bc else others
