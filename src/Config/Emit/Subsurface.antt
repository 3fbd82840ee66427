-- ===== src/Config/Emit/Subsurface.antt =====
-- The sections groundwater and soil of `resolvedConfigYaml`.
use Prim.Native.String.{String}
use frehg.Prelude.{if◌then◌else◌}
use frehg.Config.Document.{Node}
use frehg.Config.Load.Sections.{ModulesConfig}
use frehg.Config.Load.Subsurface.{
  ReallocationSurplus, GroundwaterTimestepConfig, DensityCouplingConfig, GroundwaterConfig,
  SoilType, SoilMapConfig, SoilConfig,
}
use frehg.Config.Emit.{
  Writer, ◌▸◌, when, last, word, flag, group, list_of, number, real_field, emit_polygon,
}

abbrev pub surplus_name : ReallocationSurplus → String
surplus_name ReallocationSurplus.redistribute = "redistribute"
surplus_name ReallocationSurplus.drop = "drop"

abbrev pub emit_soil_map : SoilMapConfig → Node
emit_soil_map c =
    Node.map_node
      (if c.from_file then word "file" c.file ▸ last else word "constant" c.constant_name ▸ last)

module _ {R : Type 0} (writer : Writer R) where
  abbrev pub emit_timestep : GroundwaterTimestepConfig R → Node
  emit_timestep c = Node.map_node (
      real_field writer "dt_init" c.dt_init
      ▸ real_field writer "dt_min" c.dt_min
      ▸ real_field writer "dt_max" c.dt_max
      ▸ real_field writer "dq_grow" c.dq_grow
      ▸ real_field writer "dq_shrink" c.dq_shrink
      ▸ real_field writer "courant_max" c.courant_max
      ▸ last)

  -- The coefficients are written for the modules that are on.
  abbrev pub emit_density_coupling : ModulesConfig → DensityCouplingConfig R → Node
  emit_density_coupling on c = Node.map_node (
      flag "enabled" c.enabled
      ▸ word "reallocation_gradient"
          (if c.density_reallocation_gradient then "density" else "freshwater")
      ▸ when on.transport "beta_saline" (number writer c.beta_saline) (
          when on.transport "beta_saline_viscosity" (number writer c.beta_saline_viscosity) (
            when on.temperature "thermal_expansion" (number writer c.thermal_expansion) (
              when on.temperature "reference_temperature" (number writer c.reference_temperature)
                last))))

  abbrev pub emit_groundwater : ModulesConfig → GroundwaterConfig R → Node
  emit_groundwater on c = Node.map_node (
      word "scheme" c.scheme
      ▸ flag "use_full3d" c.use_full3d
      ▸ ("timestep", emit_timestep c.timestep)
      ▸ real_field writer "specific_storage" c.specific_storage
      ▸ word "reallocation_surplus" (surplus_name c.reallocation_surplus)
      ▸ ("density_coupling", emit_density_coupling on c.density_coupling)
      ▸ when c.evaporation_enabled "evaporation"
          (Node.map_node (
            word "mode" "bulk"
            ▸ group "region" (("polygon", emit_polygon writer c.evaporation_polygon) ▸ last)
            ▸ last))
          last)

  abbrev pub emit_soil_type : SoilType R → Node
  emit_soil_type c = Node.map_node (
      word "name" c.name
      ▸ real_field writer "ksx" c.ksx
      ▸ real_field writer "ksy" c.ksy
      ▸ real_field writer "ksz" c.ksz
      ▸ real_field writer "theta_s" c.theta_s
      ▸ real_field writer "theta_r" c.theta_r
      ▸ real_field writer "vg_alpha" c.vg_alpha
      ▸ real_field writer "vg_n" c.vg_n
      ▸ real_field writer "aev" c.aev
      ▸ last)

  abbrev pub emit_soil : SoilConfig R → Node
  emit_soil c = Node.map_node (
      ("types", Node.list_node (list_of emit_soil_type c.types))
      ▸ ("map", emit_soil_map c.soil_map)
      ▸ last)
