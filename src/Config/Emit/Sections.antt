-- ===== src/Config/Emit/Sections.antt =====
-- The sections simulation, domain, time, modules, output and restart of `resolvedConfigYaml`.
use Prim.Native.String.{String}
use frehg.Prelude.{if◌then◌else◌, Bool, not, ◌&&◌, List, ℤ, pos, lt_ℤ}
use frehg.Config.Document.{Node, str_eq}
use frehg.Config.Load.Sections.{
  SimulationConfig, TerrainLayers, DomainConfig, TimeConfig, ModulesConfig,
}
use frehg.Config.Load.Outputs.{MonitorConfig, OutputConfig, RestartConfig}
use frehg.Config.Emit.{
  Writer, ◌▸◌, when, last, word, flag, group, list_of, is_empty, real_field, integer,
  emit_file_or_constant,
}

abbrev pub emit_simulation : SimulationConfig → Node
emit_simulation c =
    Node.map_node
      (word "id" c.id ▸ when (not (str_eq c.title "")) "title" (Node.scalar c.title) last)

abbrev pub emit_modules : ModulesConfig → Node
emit_modules c = Node.map_node (
    flag "surface_water" c.surface_water
    ▸ flag "groundwater" c.groundwater
    ▸ flag "transport" c.transport
    ▸ flag "temperature" c.temperature
    ▸ last)

abbrev pub terrain_name : TerrainLayers → String
terrain_name TerrainLayers.uniform = "uniform"
terrain_name TerrainLayers.scaled = "scaled"

abbrev pub emit_texts : List String → Node
emit_texts names = Node.list_node (list_of Node.scalar names)

module _ {R : Type 0} (writer : Writer R) where
  abbrev pub auto_or_int : ℤ → Node
  auto_or_int n = Node.scalar (if lt_ℤ (pos 0) n then writer.text_of_int n else "auto")

  abbrev pub emit_domain : DomainConfig R → Node
  emit_domain c = Node.map_node (
      integer writer "nx" c.nx
      ▸ integer writer "ny" c.ny
      ▸ integer writer "nz" c.nz
      ▸ real_field writer "dx" c.dx
      ▸ real_field writer "dy" c.dy
      ▸ real_field writer "dz" c.dz
      ▸ real_field writer "dz_stretch" c.dz_stretch
      ▸ ("bottom_elevation", emit_file_or_constant writer c.bottom_elevation)
      ▸ flag "follow_terrain" c.follow_terrain
      ▸ when c.follow_terrain "terrain_layers" (Node.scalar (terrain_name c.terrain_layers)) (
          group "decomposition" (
            ("mpi_nx", auto_or_int c.decomposition.mpi_nx)
            ▸ ("mpi_ny", auto_or_int c.decomposition.mpi_ny)
            ▸ last)
          ▸ last))

  abbrev pub emit_time : TimeConfig R → Node
  emit_time c = Node.map_node (
      real_field writer "dt" c.dt
      ▸ real_field writer "t_start" c.t_start
      ▸ real_field writer "t_end" c.t_end
      ▸ real_field writer "output_interval" c.output_interval
      ▸ last)

  abbrev pub emit_monitor : MonitorConfig → Node
  emit_monitor c = Node.map_node (
      word "name" c.name
      ▸ integer writer "i" c.i
      ▸ integer writer "j" c.j
      ▸ ("variables", emit_texts c.variables)
      ▸ last)

  abbrev pub has_variables : OutputConfig R → Bool
  has_variables c = not (
      (is_empty c.surface_variables && is_empty c.groundwater_variables)
      && (is_empty c.transport_variables && is_empty c.temperature_variables))

  abbrev pub emit_output : OutputConfig R → Node
  emit_output c = Node.map_node (
      word "filename" c.filename
      ▸ when (has_variables c) "variables"
          (Node.map_node (
            when (not (is_empty c.surface_variables)) "surface" (emit_texts c.surface_variables) (
              when (not (is_empty c.groundwater_variables)) "groundwater"
                (emit_texts c.groundwater_variables)
                (when (not (is_empty c.transport_variables)) "transport"
                  (emit_texts c.transport_variables)
                  (when (not (is_empty c.temperature_variables)) "temperature"
                    (emit_texts c.temperature_variables) last)))))
          (when (not (is_empty c.monitors)) "monitors"
            (Node.list_node (list_of emit_monitor c.monitors))
            (group "checkpoint" (real_field writer "interval" c.checkpoint_interval ▸ last)
              ▸ last)))

  abbrev pub emit_restart : RestartConfig R → Node
  emit_restart c = Node.map_node (
      flag "enabled" c.enabled
      ▸ when c.enabled "file" (Node.scalar c.file)
          (when c.enabled "time" (Node.scalar (writer.text_of c.time)) last))
