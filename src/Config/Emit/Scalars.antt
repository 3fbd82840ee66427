-- ===== src/Config/Emit/Scalars.antt =====
-- The sections transport and temperature of `resolvedConfigYaml`.
use Prim.Native.String.{String}
use frehg.Prelude.{if◌then◌else◌, Bool, ◌||◌}
use frehg.Config.Document.{Node, Fields}
use frehg.Config.Load.Sections.{ModulesConfig}
use frehg.Config.Load.Scalars.{
  Advection, ExchangeMode, TransportConfig, SurfaceExchangeConfig, TemperatureConfig,
}
use frehg.Config.Emit.{Writer, ◌▸◌, when, last, word, flag, group, number, real_field}

abbrev pub advection_name : Advection → String
advection_name Advection.superbee = "superbee"
advection_name Advection.upwind = "upwind"

abbrev pub update_name : Bool → String
update_name consistent = if consistent then "consistent" else "legacy"

module _ {R : Type 0} (writer : Writer R) where
  abbrev pub emit_transport : TransportConfig R → Node
  emit_transport c = Node.map_node (
      group "scheme" (word "advection" (advection_name c.advection) ▸ last)
      ▸ group "surface_diffusivity" (
          real_field writer "x" c.surface_diffusivity_x
          ▸ real_field writer "y" c.surface_diffusivity_y
          ▸ last)
      ▸ group "dispersion" (
          real_field writer "longitudinal" c.dispersion_longitudinal
          ▸ real_field writer "transverse" c.dispersion_transverse
          ▸ real_field writer "molecular" c.dispersion_molecular
          ▸ last)
      ▸ group "bounds" (
          real_field writer "min" c.bound_min
          ▸ when c.has_bound_max "max" (number writer c.bound_max) last)
      ▸ flag "legacy_evap_allowance" c.legacy_evap_allowance
      ▸ word "surface_update" (update_name c.consistent_surface_update)
      ▸ word "subsurface_update" (update_name c.consistent_subsurface_update)
      ▸ last)

  abbrev pub emit_exchange : ExchangeMode → SurfaceExchangeConfig R → Fields
  emit_exchange ExchangeMode.no_exchange c = last
  emit_exchange ExchangeMode.bulk_exchange c =
      group "surface_exchange" (word "mode" "bulk" ▸ last) ▸ last
  emit_exchange ExchangeMode.equilibrium c =
      group "surface_exchange" (
        word "mode" "equilibrium"
        ▸ group "equilibrium" (
            real_field writer "temperature" c.equilibrium_temperature
            ▸ real_field writer "coefficient" c.equilibrium_coefficient
            ▸ last)
        ▸ last)
      ▸ last

  -- The parameters are written for the modules that are on.
  abbrev pub emit_temperature : ModulesConfig → TemperatureConfig R → Node
  emit_temperature on c = Node.map_node (
      group "scheme" (word "advection" (advection_name c.advection) ▸ last)
      ▸ when on.surface_water "surface_diffusivity"
          (Node.map_node (
            real_field writer "x" c.surface_diffusivity_x
            ▸ real_field writer "y" c.surface_diffusivity_y
            ▸ last))
          (real_field writer "heat_capacity_water" c.heat_capacity_water
            ▸ when on.groundwater "thermal_conductivity" (number writer c.thermal_conductivity) (
                when on.groundwater "heat_capacity_solid" (number writer c.heat_capacity_solid) (
                  when on.groundwater "dispersivity"
                    (Node.map_node (
                      real_field writer "longitudinal" c.dispersivity_longitudinal
                      ▸ real_field writer "transverse" c.dispersivity_transverse
                      ▸ last))
                    (when (c.has_bound_min || c.has_bound_max) "bounds"
                      (Node.map_node (
                        when c.has_bound_min "min" (number writer c.bound_min)
                          (when c.has_bound_max "max" (number writer c.bound_max) last)))
                      (emit_exchange c.surface_exchange.mode c.surface_exchange))))))
