-- ===== src/Config/Load/Subsurface.antt =====
-- The sections groundwater and soil in core/Config.hpp and core/Config.cpp.
use Prim.Native.String.{String}
use frehg.Prelude.{Result, ok, ◌>>=◌, if◌then◌else◌, Bool, true, false, List, Double}
use frehg.Config.Document.{Node, Reader, is_defined, sub, sub2}
use frehg.Config.Load.{
  YamlError, as_text, value_or, text_is, entries, as_real, real_at, flag_at, points,
}
use frehg.Config.Load.Types.{
  FileOrConstant, SeriesOrConstant, extract_file_or_constant, extract_series_or_constant,
}

pub data ReallocationSurplus : Type 0 where
  drop : ReallocationSurplus
  redistribute : ReallocationSurplus

pub data GroundwaterForm : Type 0 where
  water_table : GroundwaterForm
  head : GroundwaterForm
  moisture : GroundwaterForm

pub record GroundwaterTimestepConfig (R : Type 0) : Type 0 where
  pub dt_init : R
  pub dt_min : R
  pub dt_max : R
  pub dq_grow : R
  pub dq_shrink : R
  pub courant_max : R

pub record DensityCouplingConfig (R : Type 0) : Type 0 where
  pub enabled : Bool
  pub beta_saline : R
  pub beta_saline_viscosity : R
  pub thermal_expansion : R
  pub reference_temperature : R
  pub density_reallocation_gradient : Bool

pub record GroundwaterConfig (R : Type 0) : Type 0 where
  pub scheme : String
  pub use_full3d : Bool
  pub timestep : GroundwaterTimestepConfig R
  pub specific_storage : R
  pub reallocation_surplus : ReallocationSurplus
  pub density_coupling : DensityCouplingConfig R
  pub evaporation_enabled : Bool
  pub evaporation_polygon : List (R × R)

pub record SoilType (R : Type 0) : Type 0 where
  pub name : String
  pub ksx : R
  pub ksy : R
  pub ksz : R
  pub theta_s : R
  pub theta_r : R
  pub vg_alpha : R
  pub vg_n : R
  pub aev : R

pub record SoilMapConfig : Type 0 where
  pub from_file : Bool
  pub file : String
  pub constant_name : String

pub record SoilConfig (R : Type 0) : Type 0 where
  pub types : List (SoilType R)
  pub soil_map : SoilMapConfig

module _ {R : Type 0} (double : Double R) (reader : Reader R) where
  abbrev series_or_constant_of : Node → Result YamlError (SeriesOrConstant R)
  series_or_constant_of = extract_series_or_constant double reader

  abbrev file_or_constant_of : Node → Result YamlError (FileOrConstant R)
  file_or_constant_of = extract_file_or_constant double reader

  abbrev pub extract_timestep : Node → Result YamlError (GroundwaterTimestepConfig R)
  extract_timestep node = do
    dt_init ← as_real double reader (sub node "dt_init")
    dt_min ← as_real double reader (sub node "dt_min")
    dt_max ← as_real double reader (sub node "dt_max")
    dq_grow ← real_at double reader node "dq_grow" (double.scaled 1 2)
    dq_shrink ← real_at double reader node "dq_shrink" (double.scaled 2 2)
    courant_max ← real_at double reader node "courant_max" (double.of_int 2)
    ok (record {
      dt_init = dt_init;
      dt_min = dt_min;
      dt_max = dt_max;
      dq_grow = dq_grow;
      dq_shrink = dq_shrink;
      courant_max = courant_max;
    })

  abbrev pub extract_density_coupling : Node → Result YamlError (DensityCouplingConfig R)
  extract_density_coupling node = do
    enabled ← flag_at double reader node "enabled" false
    beta_saline ← real_at double reader node "beta_saline" (double.scaled 744 6)
    beta_saline_viscosity ← real_at double reader node "beta_saline_viscosity" (double.scaled 22 4)
    thermal_expansion ← real_at double reader node "thermal_expansion" (double.of_int 0)
    reference_temperature ← real_at double reader node "reference_temperature" (double.of_int 20)
    is_density ← text_is (sub node "reallocation_gradient") "freshwater" "density"
    ok (record {
      enabled = enabled;
      beta_saline = beta_saline;
      beta_saline_viscosity = beta_saline_viscosity;
      thermal_expansion = thermal_expansion;
      reference_temperature = reference_temperature;
      density_reallocation_gradient = is_density;
    })

  -- The defaults of `DensityCouplingConfig`.
  abbrev no_coupling : DensityCouplingConfig R
  no_coupling = record {
    enabled = false;
    beta_saline = double.scaled 744 6;
    beta_saline_viscosity = double.scaled 22 4;
    thermal_expansion = double.of_int 0;
    reference_temperature = double.of_int 20;
    density_reallocation_gradient = false;
  }

  abbrev pub extract_groundwater : Node → Result YamlError (GroundwaterConfig R)
  extract_groundwater node = do
    scheme ← value_or as_text (sub node "scheme") "pca"
    use_full3d ← flag_at double reader node "use_full3d" true
    timestep ← extract_timestep (sub node "timestep")
    specific_storage ← as_real double reader (sub node "specific_storage")
    is_redistribute ← text_is (sub node "reallocation_surplus") "drop" "redistribute"
    density_coupling ← value_or extract_density_coupling (sub node "density_coupling") no_coupling
    polygon ← points double reader (sub2 node "evaporation" "region")
    ok (record {
      scheme = scheme;
      use_full3d = use_full3d;
      timestep = timestep;
      specific_storage = specific_storage;
      reallocation_surplus =
          if is_redistribute then ReallocationSurplus.redistribute else ReallocationSurplus.drop;
      density_coupling = density_coupling;
      evaporation_enabled = is_defined (sub node "evaporation");
      evaporation_polygon = polygon;
    })

  abbrev pub extract_soil_type : Node → Result YamlError (SoilType R)
  extract_soil_type node = do
    name ← as_text (sub node "name")
    ksx ← as_real double reader (sub node "ksx")
    ksy ← as_real double reader (sub node "ksy")
    ksz ← as_real double reader (sub node "ksz")
    theta_s ← as_real double reader (sub node "theta_s")
    theta_r ← as_real double reader (sub node "theta_r")
    vg_alpha ← as_real double reader (sub node "vg_alpha")
    vg_n ← as_real double reader (sub node "vg_n")
    aev ← real_at double reader node "aev" (double.of_int 0)
    ok (record {
      name = name;
      ksx = ksx;
      ksy = ksy;
      ksz = ksz;
      theta_s = theta_s;
      theta_r = theta_r;
      vg_alpha = vg_alpha;
      vg_n = vg_n;
      aev = aev;
    })

  abbrev pub extract_soil_map : Node → Result YamlError SoilMapConfig
  extract_soil_map node =
      if is_defined (sub node "file")
      then (as_text (sub node "file") >>= λ file.
          ok (record { from_file = true; file = file; constant_name = "" }))
      else (as_text (sub node "constant") >>= λ name.
          ok (record { from_file = false; file = ""; constant_name = name }))

  abbrev pub extract_soil : Node → Result YamlError (SoilConfig R)
  extract_soil node = do
    types ← entries extract_soil_type (sub node "types")
    soil_map ← extract_soil_map (sub node "map")
    ok (record { types = types; soil_map = soil_map })
