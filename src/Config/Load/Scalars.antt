-- ===== src/Config/Load/Scalars.antt =====
-- The sections transport and temperature in core/Config.hpp and core/Config.cpp.
use frehg.Prelude.{Result, ok, ◌>>=◌, if◌then◌else◌, Bool, false, Double}
use frehg.Config.Document.{Node, Reader, is_defined, sub, sub2}
use frehg.Config.Load.{YamlError, value_or, text_is, real_at, flag_at}

pub data Advection : Type 0 where
  upwind : Advection
  superbee : Advection

pub data ExchangeMode : Type 0 where
  no_exchange : ExchangeMode
  equilibrium : ExchangeMode
  bulk_exchange : ExchangeMode

pub record TransportConfig (R : Type 0) : Type 0 where
  pub advection : Advection
  pub surface_diffusivity_x : R
  pub surface_diffusivity_y : R
  pub dispersion_longitudinal : R
  pub dispersion_transverse : R
  pub dispersion_molecular : R
  pub bound_min : R
  pub has_bound_max : Bool
  pub bound_max : R
  pub legacy_evap_allowance : Bool
  pub consistent_surface_update : Bool
  pub consistent_subsurface_update : Bool

pub record SurfaceExchangeConfig (R : Type 0) : Type 0 where
  pub mode : ExchangeMode
  pub equilibrium_temperature : R
  pub equilibrium_coefficient : R

pub record TemperatureConfig (R : Type 0) : Type 0 where
  pub advection : Advection
  pub surface_diffusivity_x : R
  pub surface_diffusivity_y : R
  pub thermal_conductivity : R
  pub heat_capacity_water : R
  pub heat_capacity_solid : R
  pub dispersivity_longitudinal : R
  pub dispersivity_transverse : R
  pub has_bound_min : Bool
  pub bound_min : R
  pub has_bound_max : Bool
  pub bound_max : R
  pub surface_exchange : SurfaceExchangeConfig R

module _ {R : Type 0} (double : Double R) (reader : Reader R) where
  abbrev pub advection_of : Node → Result YamlError Advection
  advection_of node =
      text_is (sub2 node "scheme" "advection") "upwind" "superbee" >>= λ is_superbee.
      ok (if is_superbee then Advection.superbee else Advection.upwind)

  abbrev pub extract_transport : Node → Result YamlError (TransportConfig R)
  extract_transport node = do
    advection ← advection_of node
    surface_diffusivity_x ←
        real_at double reader (sub node "surface_diffusivity") "x" (double.scaled 1 10)
    surface_diffusivity_y ←
        real_at double reader (sub node "surface_diffusivity") "y" (double.scaled 1 10)
    dispersion_longitudinal ←
        real_at double reader (sub node "dispersion") "longitudinal" (double.of_int 0)
    dispersion_transverse ←
        real_at double reader (sub node "dispersion") "transverse" (double.of_int 0)
    dispersion_molecular ←
        real_at double reader (sub node "dispersion") "molecular" (double.scaled 1 10)
    bound_min ← real_at double reader (sub node "bounds") "min" (double.of_int 0)
    bound_max ← real_at double reader (sub node "bounds") "max" (double.of_int 0)
    legacy_evap_allowance ← flag_at double reader node "legacy_evap_allowance" false
    consistent_surface_update ← text_is (sub node "surface_update") "legacy" "consistent"
    consistent_subsurface_update ← text_is (sub node "subsurface_update") "legacy" "consistent"
    ok (record {
      advection = advection;
      surface_diffusivity_x = surface_diffusivity_x;
      surface_diffusivity_y = surface_diffusivity_y;
      dispersion_longitudinal = dispersion_longitudinal;
      dispersion_transverse = dispersion_transverse;
      dispersion_molecular = dispersion_molecular;
      bound_min = bound_min;
      has_bound_max = is_defined (sub2 node "bounds" "max");
      bound_max = bound_max;
      legacy_evap_allowance = legacy_evap_allowance;
      consistent_surface_update = consistent_surface_update;
      consistent_subsurface_update = consistent_subsurface_update;
    })

  abbrev pub extract_exchange : Node → Result YamlError (SurfaceExchangeConfig R)
  extract_exchange node = do
    is_bulk ← text_is (sub node "mode") "equilibrium" "bulk"
    equilibrium_temperature ←
        real_at double reader (sub node "equilibrium") "temperature" (double.of_int 0)
    equilibrium_coefficient ←
        real_at double reader (sub node "equilibrium") "coefficient" (double.of_int 0)
    ok (record {
      mode = if is_bulk then ExchangeMode.bulk_exchange else ExchangeMode.equilibrium;
      equilibrium_temperature = equilibrium_temperature;
      equilibrium_coefficient = equilibrium_coefficient;
    })

  abbrev pub extract_temperature : Node → Result YamlError (TemperatureConfig R)
  extract_temperature node = do
    advection ← advection_of node
    surface_diffusivity_x ←
        real_at double reader (sub node "surface_diffusivity") "x" (double.scaled 1 10)
    surface_diffusivity_y ←
        real_at double reader (sub node "surface_diffusivity") "y" (double.scaled 1 10)
    thermal_conductivity ← real_at double reader node "thermal_conductivity" (double.of_int 0)
    heat_capacity_water ← real_at double reader node "heat_capacity_water" (double.of_int 4184000)
    heat_capacity_solid ← real_at double reader node "heat_capacity_solid" (double.of_int 0)
    dispersivity_longitudinal ←
        real_at double reader (sub node "dispersivity") "longitudinal" (double.of_int 0)
    dispersivity_transverse ←
        real_at double reader (sub node "dispersivity") "transverse" (double.of_int 0)
    bound_min ← real_at double reader (sub node "bounds") "min" (double.of_int 0)
    bound_max ← real_at double reader (sub node "bounds") "max" (double.of_int 0)
    surface_exchange ← value_or extract_exchange (sub node "surface_exchange") (record {
      mode = ExchangeMode.no_exchange;
      equilibrium_temperature = double.of_int 0;
      equilibrium_coefficient = double.of_int 0;
    })
    ok (record {
      advection = advection;
      surface_diffusivity_x = surface_diffusivity_x;
      surface_diffusivity_y = surface_diffusivity_y;
      thermal_conductivity = thermal_conductivity;
      heat_capacity_water = heat_capacity_water;
      heat_capacity_solid = heat_capacity_solid;
      dispersivity_longitudinal = dispersivity_longitudinal;
      dispersivity_transverse = dispersivity_transverse;
      has_bound_min = is_defined (sub2 node "bounds" "min");
      bound_min = bound_min;
      has_bound_max = is_defined (sub2 node "bounds" "max");
      bound_max = bound_max;
      surface_exchange = surface_exchange;
    })
