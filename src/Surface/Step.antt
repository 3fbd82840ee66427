-- ===== src/Surface/Step.antt =====
-- swe/SurfaceSolver.cpp: the step. `Halo` is what the steps use of the exchanger, and `Forcing`
-- what they read of the configuration: the bulk evaporation and the wind are other components.
pub mod Matrix
pub mod Bed
pub mod Rows
mod Terms
pub mod Balance
use frehg.Prelude.{
  ℕ, ◌+◌, ◌-◌, leb, ltb, Bool, true, false, ◌&&◌, if◌then◌else◌, Option, none, some, List, [], ◌∷◌,
  Result, ok, fatal, ◌>>=◌, Double, ◌⊕◌, ◌⊖◌, ◌⊗◌, ◌≺◌, zero_real,
}
use frehg.Series.{TimeSeries, SeriesError, value}
use frehg.Boundary.Conditions.{condition_value}
use frehg.Linear.System.{Ksp, System, SystemError}
use frehg.Surface.State.{
  Field2, DeviceBcList, Settings, SurfaceStepAudit, Surface, store, cell_area, owned_kernel, reduce,
  for_members,
}
use frehg.Surface.FreeSurface.{
  enforce_surf_bc, assemble_rhs, assemble_coefficients, apply_outflow_corrections,
}
use frehg.Surface.System.{Flow, fill_and_solve}
use frehg.Surface.Fluxes.{accumulate_boundary_fluxes}
use frehg.Surface.WetDry.{
  update_depth, update_geometry, cfl_limiter, flow_rates, apply_velocity_limiters,
}
use frehg.Surface.VelocityBoundary.{enforce_velo_bc, fill_velocity_ghost_corners}
use frehg.Surface.Momentum.{
  Elementary, momentum_source, update_drag_coef, update_velocity_field, interpolate_velocity,
}
use frehg.Surface.Sources.{evap_rain}

-- The registered names of the fields that a step exchanges.
pub data FieldName : Type 0 where
  swe_eta : FieldName
  swe_uu : FieldName
  swe_vv : FieldName
  swe_ex : FieldName
  swe_ey : FieldName
  swe_drag_x : FieldName
  swe_drag_y : FieldName
  swe_cfl_active : FieldName
  swe_fu : FieldName
  swe_fv : FieldName
  swe_eta_bc_value : FieldName

pub record Exchanger (R : Type 0) : Type 0 where
  pub exchange : List FieldName → Surface R → Surface R
  pub exchange_with_corners : List FieldName → Surface R → Surface R

pub record Wind (R : Type 0) : Type 0 where
  pub speed : R
  pub omega : R
  pub drag_cd : R

pub record Forcing (R : Type 0) : Type 0 where
  pub rain_series : Option (TimeSeries R)
  pub rain_constant : R
  pub evap_series : Option (TimeSeries R)
  pub evap_constant : R
  pub bulk_rate : R → Result SeriesError R
  pub wind_at : R → Result SeriesError (Wind R)

module _ {R : Type 0} ⦃double : Double R⦄ (s : Settings R) where
  abbrev pub rate_at : Option (TimeSeries R) → R → R → Result SeriesError R
  rate_at none constant t = ok constant
  rate_at (some series) constant t = value double series t

  unfoldable pub current_lists :
      (R → R) → R → List (DeviceBcList R) → Result SeriesError (List (DeviceBcList R))
  current_lists shift t [] = ok []
  current_lists shift t (l ∷ ls) = condition_value l.bc t >>= λ v.
      current_lists shift t ls >>= λ rest. ok (record l { current = shift v } ∷ rest)

  abbrev pub no_audit : SurfaceStepAudit R
  no_audit = record {
    rain_volume = zero_real;
    evap_volume = zero_real;
    boundary_outflow = zero_real;
    bc_inflow = zero_real;
    clamp_volume = zero_real;
  }

  unfoldable pub begin_step : Forcing R → R → Surface R → Result SeriesError (Surface R)
  unfolding current_lists
  begin_step forcing t u = do
    rain ← rate_at forcing.rain_series forcing.rain_constant t
    evap ←
        if s.bulk_evaporation
        then forcing.bulk_rate t
        else rate_at forcing.evap_series forcing.evap_constant t
    let calm : Wind R = record { speed = u.wind_speed; omega = u.wind_omega; drag_cd = u.wind_cd }
    wind ← if s.wind_enabled then forcing.wind_at t else ok calm
    stages ← current_lists (λ v. v ⊕ u.offset) t u.eta_bcs
    discharges ← current_lists (λ v. v) t u.discharge_bcs
    velocities ← current_lists (λ v. v) t u.velocity_bcs
    ok (record u {
      etan = u.eta;
      audit = no_audit;
      rain = rain;
      evap = evap;
      wind_speed = wind.speed;
      wind_omega = wind.omega;
      wind_cd = wind.drag_cd;
      eta_bc_value =
          for_members (λ l m f. store m.cell.j m.cell.i l.current f) stages u.eta_bc_value;
      eta_bcs = stages;
      discharge_bcs = discharges;
      velocity_bcs = velocities;
    })

  unfoldable pub owned_volume : Surface R → R
  owned_volume u = reduce s (λ j i sum. sum ⊕ u.dept j i ⊗ cell_area s) zero_real

  -- The largest Courant number of the owned cells.
  unfoldable pub max_cfl : Surface R → R
  max_cfl u =
      let larger : R → R → R = λ x v. if v ≺ x then x else v in
      reduce s (λ j i v. larger (u.cfly j i) (larger (u.cflx j i) v)) double.neg_infinity

  abbrev pub eta_absolute : Surface R → Field2 R
  eta_absolute u j i = u.eta j i ⊖ u.offset

  -- What follows the solve.
  unfoldable pub conclude : Surface R → Surface R
  unfolding accumulate_boundary_fluxes enforce_surf_bc cfl_limiter evap_rain
  conclude u = evap_rain s (cfl_limiter s (enforce_surf_bc s true (accumulate_boundary_fluxes s u)))

  module _ (lib : Elementary R) (halo : Exchanger R) where
    -- The end of `updateVelocity` and of `refreshDerivedState`.
    unfoldable pub settle_velocities : Bool → Surface R → Surface R
    unfolding enforce_velo_bc fill_velocity_ghost_corners interpolate_velocity
    settle_velocities edge_only u =
        let flows = halo.exchange (FieldName.swe_fu ∷ FieldName.swe_fv ∷ []) in
        let corners = halo.exchange_with_corners (FieldName.swe_uu ∷ FieldName.swe_vv ∷ []) in
        interpolate_velocity lib s
          (fill_velocity_ghost_corners s (corners (enforce_velo_bc s flows edge_only u)))

    -- The depths, the geometry and the drag of the current levels.
    unfoldable pub derive : Surface R → Surface R
    unfolding update_depth update_geometry update_drag_coef
    derive u = update_drag_coef lib s (update_geometry s (update_depth s u))

    unfoldable pub update_velocity : Surface R → Surface R
    unfolding settle_velocities derive update_velocity_field apply_velocity_limiters
    update_velocity u =
        let exchanged = halo.exchange (FieldName.swe_eta ∷ FieldName.swe_cfl_active ∷ []) u in
        settle_velocities false
          (apply_velocity_limiters s (update_velocity_field lib s (derive exchanged)))

    unfoldable pub refresh_derived_state : Surface R → Surface R
    unfolding settle_velocities derive flow_rates enforce_surf_bc
    refresh_derived_state u =
        let exchanged = halo.exchange (FieldName.swe_eta ∷ []) (enforce_surf_bc s false u) in
        let settled = settle_velocities true (flow_rates s (derive exchanged)) in
        record settled { cfl_active = λ j i. zero_real }

    abbrev has_stages : Surface R → Bool
    has_stages u = elim u.eta_bcs [ [] ↦ false | l ∷ ls ↦ true ]

    -- What the assembly reads of the neighbours.
    abbrev pub momentum_fields : Surface R → List FieldName
    momentum_fields u =
        FieldName.swe_ex
        ∷ FieldName.swe_ey
        ∷ FieldName.swe_drag_x
        ∷ FieldName.swe_drag_y
        ∷ (if has_stages u then FieldName.swe_eta_bc_value ∷ [] else [])

    -- `solveFreeSurface` up to the system.
    unfoldable pub assemble : Surface R → Surface R
    unfolding enforce_surf_bc momentum_source assemble_rhs assemble_coefficients
        apply_outflow_corrections
    assemble u =
        let staged = halo.exchange (FieldName.swe_eta ∷ []) (enforce_surf_bc s true u) in
        let moved = momentum_source lib s staged in
        let exchanged = halo.exchange (momentum_fields moved) moved in
        apply_outflow_corrections s (assemble_coefficients s (assemble_rhs s exchanged))

    module _ {K : Type 0} (petsc : Ksp R K) (all_sum : ℕ → ℕ) (gid : ℕ → ℕ → Option ℕ)
        (offset : ℕ) where
      unfoldable pub solve_free_surface : Flow R K → Result SystemError (Flow R K)
      unfolding assemble conclude fill_and_solve
      solve_free_surface f =
          fill_and_solve s gid offset petsc all_sum (record f { surface = assemble f.surface })
          >>= λ g. ok (record g { surface = conclude g.surface })
