-- ===== src/Config/Emit/Surface.antt =====
-- The sections surface_water and atmosphere of `resolvedConfigYaml`.
use Prim.Native.String.{String}
use frehg.Prelude.{if◌then◌else◌, Bool, true, false, not, List}
use frehg.Config.Document.{Node, Fields}
use frehg.Config.Load.Types.{SeriesOrConstant}
use frehg.Config.Load.Surface.{
  Law, DragLaw, EvapMode, FrictionConfig, WindConfig, SurfaceWaterConfig, AtmosphereConfig,
}
use frehg.Config.Emit.{
  Writer, ◌▸◌, when, last, word, flag, group, is_empty, real_field, emit_file_or_constant,
  series_fields, emit_series_or_constant, emit_polygon,
}

abbrev pub law_name : Law → String
law_name Law.chezy = "chezy"
law_name Law.manning = "manning"

abbrev pub drag_law_name : DragLaw → String
drag_law_name DragLaw.garratt = "garratt"
drag_law_name DragLaw.smith_banke = "smith-banke"
drag_law_name DragLaw.wu = "wu"
drag_law_name DragLaw.large_pond = "large-pond"
drag_law_name DragLaw.constant_law = "constant"

abbrev pub is_constant_law : DragLaw → Bool
is_constant_law DragLaw.constant_law = true
is_constant_law law = false

module _ {R : Type 0} (writer : Writer R) where
  abbrev pub emit_friction : FrictionConfig R → Node
  emit_friction c = Node.map_node (
      word "law" (law_name c.law)
      ▸ ("coefficient", emit_file_or_constant writer c.coefficient)
      ▸ real_field writer "thin_layer_depth" c.thin_layer_depth
      ▸ last)

  abbrev pub wind_input : WindConfig R → Fields
  wind_input c =
      if c.component_form
      then (("u10", emit_series_or_constant writer c.u10)
          ▸ ("v10", emit_series_or_constant writer c.v10)
          ▸ last)
      else (("speed", emit_series_or_constant writer c.speed)
          ▸ ("direction", emit_series_or_constant writer c.direction)
          ▸ last)

  abbrev pub emit_wind : WindConfig R → Node
  emit_wind c = Node.map_node (
      flag "enabled" c.enabled
      ▸ word "law" (drag_law_name c.law)
      ▸ (if is_constant_law c.law
          then real_field writer "cd" c.cd
          else real_field writer "cap" c.cap)
      ▸ real_field writer "attenuation_depth" c.attenuation_depth
      ▸ real_field writer "north_angle" c.north_angle
      ▸ wind_input c)

  -- A series or a constant with the region where it is off.
  abbrev pub emit_forcing : SeriesOrConstant R → List (R × R) → Node
  emit_forcing series polygon = Node.map_node (
      series_fields writer series (
        when (not (is_empty polygon)) "exclude"
          (Node.map_node (("polygon", emit_polygon writer polygon) ▸ last)) last))

  abbrev pub emit_evaporation : EvapMode → SurfaceWaterConfig R → Node
  emit_evaporation EvapMode.bulk c = Node.map_node (word "mode" "bulk" ▸ last)
  emit_evaporation EvapMode.prescribed c = emit_forcing c.evaporation c.evaporation_exclude_polygon

  abbrev pub emit_surface_water : SurfaceWaterConfig R → Node
  emit_surface_water c = Node.map_node (
      real_field writer "gravity" c.gravity
      ▸ ("friction", emit_friction c.friction)
      ▸ group "viscosity"
          (real_field writer "x" c.viscosity_x ▸ real_field writer "y" c.viscosity_y ▸ last)
      ▸ real_field writer "min_depth" c.min_depth
      ▸ real_field writer "wetting_face_depth" c.wetting_face_depth
      ▸ ("wind", emit_wind c.wind)
      ▸ ("rainfall", emit_forcing c.rainfall c.rainfall_exclude_polygon)
      ▸ ("evaporation", emit_evaporation c.evap_mode c)
      ▸ last)

  abbrev pub emit_atmosphere : AtmosphereConfig R → Node
  emit_atmosphere c = Node.map_node (
      ("air_temperature", emit_series_or_constant writer c.air_temperature)
      ▸ when c.has_surface_temperature "surface_temperature"
          (emit_series_or_constant writer c.surface_temperature)
          (("pressure", emit_series_or_constant writer c.pressure)
            ▸ (if c.humidity_is_relative
                then ("relative_humidity", emit_series_or_constant writer c.relative_humidity)
                else ("specific_humidity", emit_series_or_constant writer c.specific_humidity))
            ▸ ("wind_speed", emit_series_or_constant writer c.wind_speed)
            ▸ ("shortwave", emit_series_or_constant writer c.shortwave)
            ▸ ("longwave_in", emit_series_or_constant writer c.longwave_in)
            ▸ real_field writer "wind_speed_floor" c.wind_speed_floor
            ▸ last))
