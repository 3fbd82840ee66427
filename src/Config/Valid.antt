-- ===== src/Config/Valid.antt =====
-- What a document without an error promises to the rest of the program.
pub mod Steps
use Prim.Native.String.{String}
use frehg.Prelude.{◌≡◌, refl, Bool, true, false, not, ◌&&◌, List, [], ◌∷◌, ◌++◌, Double}
use frehg.Config.Document.{Node, Reader, sub, sub2}
use frehg.Config.Check.{check_node}
use frehg.Config.Check.Conforms.{Conforms}
use frehg.Config.Check.Leaves.{append-nil_inv, add_error_if_none, not-false}
use frehg.Config.Check.Sound.{node_sound}
use frehg.Config.Schema.Root.{build_root_schema}
use frehg.Config.Cross.{Modules, modules_of, is_given, refuse, check_modules}
use frehg.Config.Cross.Temperature.{check_temperature}
use frehg.Config.Cross.Forcing.{check_time}
use frehg.Config.Cross.Flow.{
  check_subsurface_update, check_density_coupling, check_terrain_layers, check_timestep,
}
use frehg.Config.Cross.Boundaries.{check_boundary_conditions}
use frehg.Config.Cross.Outputs.{check_monitor_list}
use frehg.Config.Cross.Root.{check_sections, cross_checks, validate_root}

module _ {R : Type 0} (double : Double R) (reader : Reader R) where
  pub root_parts :
      (root : Node)
      → validate_root double reader root ≡ []
      → Conforms double reader (build_root_schema double) root
        × (cross_checks double reader root ≡ [])
  unfolding validate_root
  root_parts (Node.map_node given) h =
      let (schema, cross) =
        append-nil_inv
          (check_node double reader (build_root_schema double) [] (Node.map_node given)) _ h in
      (node_sound double reader _ [] _ schema, cross)
  root_parts _ h = absurd (cc)

  module _ (root : Node) where
    abbrev on : Modules
    on = modules_of reader root

    pub section_parts :
        check_sections double reader on root ≡ []
        → (check_modules on root ≡ []) × (check_time double reader root ≡ [])
    section_parts h =
        let (modules, h1) = append-nil_inv (check_modules on root) _ h in
        let (temperature, h2) = append-nil_inv (check_temperature on root) _ h1 in
        let (time, h3) = append-nil_inv (check_time double reader root) _ h2 in (modules, time)

    pub flow_parts :
        cross_checks double reader root ≡ []
        → (check_sections double reader on root ≡ []) × (check_timestep double reader root ≡ [])
    unfolding cross_checks
    flow_parts h =
        let (sections, h1) = append-nil_inv (check_sections double reader on root) _ h in
        let (update, h2) = append-nil_inv (check_subsurface_update on root) _ h1 in
        let (density, h3) = append-nil_inv (check_density_coupling double reader on root) _ h2 in
        let (layers, h4) = append-nil_inv (check_terrain_layers double reader root) _ h3 in
        let (timestep, h5) = append-nil_inv (check_timestep double reader root) _ h4 in
        (sections, timestep)

  -- The sections that the flow modules want are there.
  pub groundwater_given :
      (on : Modules) (root : Node)
      → check_modules on root ≡ []
      → on.groundwater ≡ true
      → is_given root "groundwater" ≡ true
  groundwater_given on root h gw =
      let need = λ (on_ : Bool) (name message : String).
        refuse (on_ && not (is_given root name)) (name ∷ []) message in
      let (h1, _) =
        append-nil_inv _
          (need on.temperature "temperature" "section is required when modules.temperature is true")
          h in
      let (h2, _) =
        append-nil_inv _
          (need on.transport "transport" "section is required when modules.transport is true") h1 in
      let (h3, _) =
        append-nil_inv _
          (need on.groundwater "soil" "section is required when modules.groundwater is true") h2 in
      let (_, h4) =
        append-nil_inv _
          (need on.groundwater "groundwater" "section is required when modules.groundwater is true")
          h3 in
      not-false _
        (rw gw at (add_error_if_none (on.groundwater && not (is_given root "groundwater")) _ _ h4))
