-- ===== src/Surface/Initial.antt =====
-- swe/SurfaceSolver.cpp: `readBathymetry` and `applyInitialConditions`.
use frehg.Prelude.{Bool, if◌then◌else◌, List, [], ◌∷◌, Result, ok, fatal, ◌>>=◌, Double}
use Prim.Native.String.{String}
use frehg.Series.{SeriesError}
use frehg.Config.Load.Types.{FileOrConstant}
use frehg.Config.Load.Initial.{SurfaceInitialConfig}
use frehg.Surface.State.{Field2, Settings, Surface}
use frehg.Surface.Setup.{SetupError, assign_file_or_constant, lift_bottom, clamp_initial}
use frehg.Surface.Momentum.{Elementary}
use frehg.Surface.Step.{FieldName, Exchanger, Forcing, begin_step, refresh_derived_state}

module _ {R : Type 0} ⦃double : Double R⦄ (s : Settings R)
    (read_raster : String → Result SetupError (List R)) where
  unfoldable pub read_bathymetry :
      (all_min : R → R)
      → (exchange : Surface R → Surface R) → FileOrConstant R
      → Surface R
      → Result SetupError (Surface R)
  unfolding assign_file_or_constant lift_bottom
  read_bathymetry all_min exchange elevation u =
      assign_file_or_constant s read_raster elevation u.bottom >>= λ bottom.
      ok (lift_bottom s all_min exchange (record u { bottom = bottom }))

  -- A field that has an initial value only if the configuration has one.
  abbrev pub assign_if : Bool → FileOrConstant R → Field2 R → Result SetupError (Field2 R)
  assign_if given source field =
      if given then assign_file_or_constant s read_raster source field else ok field

  abbrev started : Result SeriesError (Surface R) → Result SetupError (Surface R)
  started (ok u) = ok u
  started (fatal e) = fatal SetupError.bad_forcing

  unfoldable pub apply_initial_conditions :
      Elementary R
      → Exchanger R
      → Forcing R
      → R
      → SurfaceInitialConfig R
      → Surface R
      → Result SetupError (Surface R)
  unfolding assign_file_or_constant clamp_initial begin_step refresh_derived_state
  apply_initial_conditions lib halo forcing t_start config u =
      assign_file_or_constant s read_raster config.eta u.eta >>= λ eta.
      assign_if config.has_uu config.uu u.uu >>= λ uu.
      assign_if config.has_vv config.vv u.vv >>= λ vv.
      let clamped = clamp_initial s (record u { eta = eta; uu = uu; vv = vv }) in
      let exchanged = halo.exchange (FieldName.swe_uu ∷ FieldName.swe_vv ∷ []) clamped in
      started (begin_step s forcing t_start exchanged) >>= λ begun.
      ok (refresh_derived_state s lib halo begun)
