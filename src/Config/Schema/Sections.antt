-- ===== src/Config/Schema/Sections.antt =====
-- The sections of the schema in `buildRootSchema` of core/ConfigSchema.cpp.
use Prim.Native.String.{String}
use frehg.Prelude.{true, false, List, [], ◌∷◌, ◌++◌, Double}
use frehg.Config.Schema.{
  Spec, KeyedSpecs, ◌⊕◌, need, may, map, one_of, text, nought, real, real_positive,
  real_non_negative, integer_seconds, int_or_auto, polygon, file_or_constant, file_map,
  series_or_constant,
}

abbrev pub surface_variables : List String
surface_variables = "eta" ∷ "depth" ∷ "uu" ∷ "vv" ∷ "seepage" ∷ []

abbrev pub groundwater_variables : List String
groundwater_variables = "hydraulic_head" ∷ "water_content" ∷ "qx" ∷ "qy" ∷ "qz" ∷ []

abbrev pub transport_variables : List String
transport_variables = "concentration" ∷ "concentration_surface" ∷ []

abbrev pub temperature_variables : List String
temperature_variables = "temperature" ∷ "temperature_surface" ∷ []

abbrev pub all_variables : List String
all_variables =
    surface_variables ++ groundwater_variables ++ transport_variables ++ temperature_variables

module _ {R : Type 0} (double : Double R) where
  abbrev end : KeyedSpecs R
  end = KeyedSpecs.no_keys

  abbrev flag : Spec R
  flag = Spec.bool_spec

  abbrev one : R
  one = double.of_int 1

  abbrev choice : List String → Spec R
  choice allowed = Spec.enum_spec allowed

  abbrev pub soil_type : Spec R
  soil_type = map (
      need "name" text
      ⊕ need "ksx" (real_non_negative double)
      ⊕ need "ksy" (real_non_negative double)
      ⊕ need "ksz" (real_non_negative double)
      ⊕ need "theta_s" (Spec.real_spec (nought double) one true false)
      ⊕ need "theta_r" (Spec.real_spec (nought double) one false false)
      ⊕ need "vg_alpha" (real_positive double)
      ⊕ need "vg_n" (Spec.real_spec one double.infinity true false)
      ⊕ may "aev" (Spec.real_spec double.neg_infinity (nought double) false false)
      ⊕ end)

  abbrev pub bc_value : Spec R
  bc_value = one_of (
      may "constant" (real double)
      ⊕ may "series" (file_map double)
      ⊕ may "gravity" flag
      ⊕ may "hydrostatic" (map (need "eta" (real double) ⊕ end))
      ⊕ end)

  abbrev pub bc_entry : Spec R
  bc_entry = map (
      need "name" text
      ⊕ need "region" (polygon double)
      ⊕ need "target"
          (choice ("surface" ∷ "groundwater_top" ∷ "groundwater_bottom" ∷ "groundwater_side" ∷ []))
      ⊕ need "kind" (
          choice (
            "eta" ∷ "discharge" ∷ "velocity" ∷ "outflow" ∷ "head" ∷ "flux" ∷ "scalar_value"
            ∷ "scalar_cauchy" ∷ []))
      ⊕ may "scalar" (choice ("salinity" ∷ "temperature" ∷ []))
      ⊕ may "value" bc_value
      ⊕ end)

  abbrev pub monitor_entry : Spec R
  monitor_entry = map (
      need "name" text
      ⊕ may "type" (choice ("point" ∷ []))
      ⊕ need "i" (Spec.int_spec (nought double))
      ⊕ need "j" (Spec.int_spec (nought double))
      ⊕ need "variables" (Spec.sequence_spec (choice all_variables) 1)
      ⊕ end)

  abbrev pub simulation : Spec R
  simulation = map (need "id" text ⊕ may "title" text ⊕ end)

  abbrev pub domain : Spec R
  domain = map (
      need "nx" (Spec.int_spec one)
      ⊕ need "ny" (Spec.int_spec one)
      ⊕ need "nz" (Spec.int_spec one)
      ⊕ need "dx" (real_positive double)
      ⊕ need "dy" (real_positive double)
      ⊕ need "dz" (real_positive double)
      ⊕ may "dz_stretch" (real_positive double)
      ⊕ need "bottom_elevation" (file_or_constant double)
      ⊕ may "follow_terrain" flag
      ⊕ may "terrain_layers" (choice ("scaled" ∷ "uniform" ∷ []))
      ⊕ may "decomposition"
          (map (may "mpi_nx" (int_or_auto double) ⊕ may "mpi_ny" (int_or_auto double) ⊕ end))
      ⊕ end)

  abbrev pub time : Spec R
  time = map (
      need "dt" (real_positive double)
      ⊕ may "t_start" (integer_seconds double (nought double))
      ⊕ need "t_end" (real_positive double)
      ⊕ need "output_interval" (integer_seconds double one)
      ⊕ end)

  abbrev pub modules : Spec R
  modules = map (
      may "surface_water" flag
      ⊕ may "groundwater" flag
      ⊕ may "transport" flag
      ⊕ may "temperature" flag
      ⊕ end)

  abbrev pub friction : Spec R
  friction = map (
      may "law" (choice ("manning" ∷ "chezy" ∷ []))
      ⊕ need "coefficient" (file_or_constant double)
      ⊕ may "thin_layer_depth" (real_positive double)
      ⊕ end)

  abbrev pub wind : Spec R
  wind = map (
      may "enabled" flag
      ⊕ may "law" (choice ("constant" ∷ "garratt" ∷ "smith-banke" ∷ "wu" ∷ "large-pond" ∷ []))
      ⊕ may "cd" (real_non_negative double)
      ⊕ may "cap" (real_positive double)
      ⊕ may "attenuation_depth" (real_positive double)
      ⊕ may "north_angle" (real double)
      ⊕ may "speed" (series_or_constant double)
      ⊕ may "direction" (series_or_constant double)
      ⊕ may "u10" (series_or_constant double)
      ⊕ may "v10" (series_or_constant double)
      ⊕ end)

  abbrev pub rainfall : Spec R
  rainfall = map (
      may "constant" (real double)
      ⊕ may "series" (file_map double)
      ⊕ may "exclude" (polygon double)
      ⊕ end)

  abbrev pub evaporation : Spec R
  evaporation = map (
      may "mode" (choice ("bulk" ∷ []))
      ⊕ may "constant" (real double)
      ⊕ may "series" (file_map double)
      ⊕ may "exclude" (polygon double)
      ⊕ end)

  abbrev pub pair_xy : Spec R
  pair_xy = map (may "x" (real_non_negative double) ⊕ may "y" (real_non_negative double) ⊕ end)

  abbrev pub surface_water : Spec R
  surface_water = map (
      may "gravity" (real_positive double)
      ⊕ need "friction" friction
      ⊕ may "viscosity" pair_xy
      ⊕ need "min_depth" (real_positive double)
      ⊕ need "wetting_face_depth" (real_positive double)
      ⊕ may "wind" wind
      ⊕ may "rainfall" rainfall
      ⊕ may "evaporation" evaporation
      ⊕ end)

  abbrev pub atmosphere : Spec R
  atmosphere = map (
      need "air_temperature" (series_or_constant double)
      ⊕ may "surface_temperature" (series_or_constant double)
      ⊕ need "pressure" (series_or_constant double)
      ⊕ may "specific_humidity" (series_or_constant double)
      ⊕ may "relative_humidity" (series_or_constant double)
      ⊕ need "wind_speed" (series_or_constant double)
      ⊕ may "shortwave" (series_or_constant double)
      ⊕ may "longwave_in" (series_or_constant double)
      ⊕ may "wind_speed_floor" (real_non_negative double)
      ⊕ end)
