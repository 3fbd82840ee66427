-- ===== src/Config/Emit/Boundaries.antt =====
-- The section boundary_conditions of `resolvedConfigYaml`.
pub mod Reload
use Prim.Native.String.{String}
use frehg.Prelude.{if◌then◌else◌, Bool, true, false, not, ◌&&◌, ◌||◌, List, [], ◌∷◌}
use frehg.Config.Document.{Node, Items, Fields}
use frehg.Config.Load.Outputs.{
  BcTarget, BcKind, BcScalar, BcForm, BcValueConfig, BoundaryConditionConfig,
}
use frehg.Config.Emit.{
  Writer, ◌▸◌, when, last, word, group, list_of, number, real_field, emit_polygon,
}

abbrev pub target_name : BcTarget → String
target_name BcTarget.surface_target = "surface"
target_name BcTarget.groundwater_top = "groundwater_top"
target_name BcTarget.groundwater_bottom = "groundwater_bottom"
target_name BcTarget.groundwater_side = "groundwater_side"

abbrev pub kind_name : BcKind → String
kind_name BcKind.eta_kind = "eta"
kind_name BcKind.discharge = "discharge"
kind_name BcKind.velocity = "velocity"
kind_name BcKind.outflow = "outflow"
kind_name BcKind.head_kind = "head"
kind_name BcKind.flux = "flux"
kind_name BcKind.scalar_value = "scalar_value"
kind_name BcKind.scalar_cauchy = "scalar_cauchy"

abbrev pub is_scalar_value : BcKind → Bool
is_scalar_value BcKind.scalar_value = true
is_scalar_value kind = false

abbrev pub is_temperature : BcScalar → Bool
is_temperature BcScalar.temperature_scalar = true
is_temperature BcScalar.salinity = false

abbrev pub takes_value : BcKind → Bool
takes_value BcKind.outflow = false
takes_value BcKind.scalar_cauchy = false
takes_value kind = true

module _ {R : Type 0} (writer : Writer R) where
  abbrev pub value_fields : BcForm → BcValueConfig R → Fields
  value_fields BcForm.constant_form v = real_field writer "constant" v.constant ▸ last
  value_fields BcForm.series_form v = group "series" (word "file" v.series_file ▸ last) ▸ last
  value_fields BcForm.gravity_form v = word "gravity" "true" ▸ last
  value_fields BcForm.hydrostatic_form v =
      group "hydrostatic" (real_field writer "eta" v.hydrostatic_eta ▸ last) ▸ last

  abbrev pub emit_boundary : BoundaryConditionConfig R → Node
  emit_boundary c = Node.map_node (
      word "name" c.name
      ▸ group "region" (("polygon", emit_polygon writer c.polygon) ▸ last)
      ▸ word "target" (target_name c.target)
      ▸ word "kind" (kind_name c.kind)
      ▸ when (is_scalar_value c.kind && is_temperature c.scalar_field) "scalar"
          (Node.scalar "temperature")
          (when (takes_value c.kind) "value" (Node.map_node (value_fields c.value.form c.value))
            last))

  -- The node beneath `boundary_conditions`, undefined where there is none.
  abbrev pub emit_boundaries : List (BoundaryConditionConfig R) → Node
  emit_boundaries [] = Node.undefined
  emit_boundaries (c ∷ cs) = Node.list_node (list_of emit_boundary (c ∷ cs))
