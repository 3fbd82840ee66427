-- ===== src/Config/Schema/Root.antt =====
-- The later sections of the schema in `buildRootSchema` of core/ConfigSchema.cpp, and the whole of it.
use Prim.Native.String.{String}
use frehg.Prelude.{false, List, [], ◌∷◌, Double}
use frehg.Config.Schema.{
  Spec, KeyedSpecs, ◌⊕◌, need, may, map, one_of, text, path, nought, real, real_positive,
  real_non_negative, integer_seconds, polygon, file_or_constant,
}
use frehg.Config.Schema.Sections.{
  surface_variables, groundwater_variables, transport_variables, temperature_variables, soil_type,
  bc_entry, monitor_entry, simulation, domain, time, modules, surface_water, atmosphere, pair_xy,
}

module _ {R : Type 0} (double : Double R) where
  abbrev end : KeyedSpecs R
  end = KeyedSpecs.no_keys

  abbrev flag : Spec R
  flag = Spec.bool_spec

  abbrev choice : List String → Spec R
  choice allowed = Spec.enum_spec allowed

  abbrev pub groundwater : Spec R
  groundwater = map (
      may "scheme" (choice ("pca" ∷ []))
      ⊕ may "use_full3d" flag
      ⊕ need "timestep" (
          map (
            need "dt_init" (real_positive double)
            ⊕ need "dt_min" (real_positive double)
            ⊕ need "dt_max" (real_positive double)
            ⊕ may "dq_grow" (real_positive double)
            ⊕ may "dq_shrink" (real_positive double)
            ⊕ may "courant_max" (real_positive double)
            ⊕ end))
      ⊕ need "specific_storage" (real_non_negative double)
      ⊕ may "reallocation_surplus" (choice ("drop" ∷ "redistribute" ∷ []))
      ⊕ may "density_coupling" (
          map (
            may "enabled" flag
            ⊕ may "beta_saline" (real_non_negative double)
            ⊕ may "beta_saline_viscosity" (real_non_negative double)
            ⊕ may "thermal_expansion" (real_non_negative double)
            ⊕ may "reference_temperature" (real double)
            ⊕ may "reallocation_gradient" (choice ("freshwater" ∷ "density" ∷ []))
            ⊕ end))
      ⊕ may "evaporation"
          (map (need "mode" (choice ("bulk" ∷ [])) ⊕ need "region" (polygon double) ⊕ end))
      ⊕ end)

  abbrev soil : Spec R
  soil = map (
      need "types" (Spec.sequence_spec (soil_type double) 1)
      ⊕ need "map" (one_of (may "constant" text ⊕ may "file" path ⊕ end))
      ⊕ end)

  abbrev initial_conditions : Spec R
  initial_conditions = map (
      may "surface" (
        map (
          need "eta" (file_or_constant double)
          ⊕ may "uu" (file_or_constant double)
          ⊕ may "vv" (file_or_constant double)
          ⊕ end))
      ⊕ may "groundwater" (
          one_of (
            may "water_table" (file_or_constant double)
            ⊕ may "head" (file_or_constant double)
            ⊕ may "moisture" (file_or_constant double)
            ⊕ end))
      ⊕ may "transport" (
          map (
            may "surface" (file_or_constant double)
            ⊕ may "groundwater" (file_or_constant double)
            ⊕ end))
      ⊕ may "temperature" (
          map (
            may "surface" (file_or_constant double)
            ⊕ may "groundwater" (file_or_constant double)
            ⊕ end))
      ⊕ end)

  abbrev advection : Spec R
  advection = map (may "advection" (choice ("upwind" ∷ "superbee" ∷ [])) ⊕ end)

  abbrev limits : Spec R
  limits = map (may "min" (real double) ⊕ may "max" (real double) ⊕ end)

  abbrev transport : Spec R
  transport = map (
      may "scheme" advection
      ⊕ may "surface_diffusivity" (pair_xy double)
      ⊕ may "dispersion" (
          map (
            may "longitudinal" (real_non_negative double)
            ⊕ may "transverse" (real_non_negative double)
            ⊕ may "molecular" (real_non_negative double)
            ⊕ end))
      ⊕ may "bounds" limits
      ⊕ may "legacy_evap_allowance" flag
      ⊕ may "surface_update" (choice ("legacy" ∷ "consistent" ∷ []))
      ⊕ may "subsurface_update" (choice ("legacy" ∷ "consistent" ∷ []))
      ⊕ end)

  abbrev temperature : Spec R
  temperature = map (
      may "scheme" advection
      ⊕ may "surface_diffusivity" (pair_xy double)
      ⊕ may "thermal_conductivity" (real_positive double)
      ⊕ may "heat_capacity_water" (real_positive double)
      ⊕ may "heat_capacity_solid" (real_positive double)
      ⊕ may "dispersivity" (
          map (
            may "longitudinal" (real_non_negative double)
            ⊕ may "transverse" (real_non_negative double)
            ⊕ end))
      ⊕ may "bounds" limits
      ⊕ may "surface_exchange" (
          map (
            need "mode" (choice ("equilibrium" ∷ "bulk" ∷ []))
            ⊕ may "equilibrium" (
                map (
                  may "temperature" (real double) ⊕ may "coefficient" (real_positive double) ⊕ end))
            ⊕ end))
      ⊕ end)

  abbrev some_of : List String → Spec R
  some_of allowed = Spec.sequence_spec (choice allowed) 1

  abbrev output : Spec R
  output = map (
      need "filename" text
      ⊕ may "variables" (
          map (
            may "surface" (some_of surface_variables)
            ⊕ may "groundwater" (some_of groundwater_variables)
            ⊕ may "transport" (some_of transport_variables)
            ⊕ may "temperature" (some_of temperature_variables)
            ⊕ end))
      ⊕ may "monitors" (Spec.sequence_spec (monitor_entry double) 0)
      ⊕ may "checkpoint" (map (may "interval" (integer_seconds double (nought double)) ⊕ end))
      ⊕ end)

  abbrev linear_solver : Spec R
  linear_solver = map (
      may "preconditioner" (choice ("bjacobi-icc" ∷ "amg" ∷ "gamg" ∷ []))
      ⊕ may "mat_type" (choice ("aij" ∷ "aijkokkos" ∷ []))
      ⊕ may "rtol" (real_positive double)
      ⊕ may "atol" (real_non_negative double)
      ⊕ may "max_iterations" (Spec.int_spec (double.of_int 1))
      ⊕ may "reuse_max_solves" (Spec.int_spec (nought double))
      ⊕ may "reuse_iteration_factor" (Spec.real_spec (double.of_int 1) double.infinity false false)
      ⊕ end)

  abbrev solver : Spec R
  solver = map (
      may "surface" linear_solver
      ⊕ may "groundwater" linear_solver
      ⊕ may "petsc_options_file" text
      ⊕ end)

  abbrev restart : Spec R
  restart = map (may "enabled" flag ⊕ may "file" text ⊕ may "time" (real double) ⊕ end)

  unfoldable pub build_root_schema : Spec R
  build_root_schema = map (
      need "simulation" (simulation double)
      ⊕ need "domain" (domain double)
      ⊕ need "time" (time double)
      ⊕ need "modules" (modules double)
      ⊕ may "surface_water" (surface_water double)
      ⊕ may "atmosphere" (atmosphere double)
      ⊕ may "groundwater" groundwater
      ⊕ may "soil" soil
      ⊕ may "coupling" (map (may "mode" (choice ("sync" ∷ "subcycled" ∷ [])) ⊕ end))
      ⊕ may "initial_conditions" initial_conditions
      ⊕ may "boundary_conditions" (Spec.sequence_spec (bc_entry double) 0)
      ⊕ may "transport" transport
      ⊕ may "temperature" temperature
      ⊕ need "output" output
      ⊕ may "restart" restart
      ⊕ may "solver" solver
      ⊕ may "runtime" (map (may "gpu_aware_mpi" (choice ("auto" ∷ "on" ∷ "off" ∷ [])) ⊕ end))
      ⊕ end)
