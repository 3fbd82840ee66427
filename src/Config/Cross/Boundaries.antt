-- ===== src/Config/Cross/Boundaries.antt =====
-- The rules on boundary conditions in `crossChecks` of core/ConfigSchema.cpp: names, and which kind
-- goes with which target, value and module.
pub mod Coupled
use Prim.Native.String.{String}
use frehg.Prelude.{ℕ, ◌+◌, if◌then◌else◌, Bool, true, false, not, ◌&&◌, ◌||◌, List, [], ◌∷◌, ◌++◌}
use frehg.Config.Document.{
  Node, Items, Fields, Reader, str_eq, is_defined, is_map, sub, text_or, flag_or,
}
use frehg.Config.Check.{Segment, Place, Problem, ConfigError, add_error_if, join_path, is_listed}
use frehg.Config.Cross.{Modules, is_given}

abbrev pub refuse_at : Place → Bool → String → List ConfigError
refuse_at where_ fails message = add_error_if fails where_ (Problem.rule message)

-- Whether a text is the first or the second one.
abbrev pub is_either : String → String → String → Bool
is_either s a b = str_eq s a || str_eq s b

-- `target` and `kind` of an entry, "" for an entry that has none.
abbrev pub target_of : Node → String
target_of bc = text_or "" (sub bc "target")

abbrev pub kind_of : Node → String
kind_of bc = text_or "" (sub bc "kind")

abbrev pub is_surface_target : String → Bool
is_surface_target target = str_eq target "surface"

abbrev pub is_soil_target : String → Bool
is_soil_target target = not (str_eq target "") && not (is_surface_target target)

abbrev pub check_target : Modules → Place → String → String → List ConfigError
check_target on where_ target kind =
    refuse_at where_ (is_surface_target target && not on.surface_water)
      "target surface requires modules.surface_water: true"
    ++ refuse_at where_ (is_soil_target target && not on.groundwater)
        "a groundwater target requires modules.groundwater: true"
    ++ refuse_at where_
        ((is_either kind "eta" "discharge" || is_either kind "velocity" "outflow")
          && is_soil_target target)
        "the kind applies to target surface only"
    ++ refuse_at where_ (is_either kind "head" "flux" && is_surface_target target)
        "the kind applies to groundwater targets only"
    ++ refuse_at where_
        ((str_eq kind "head" && str_eq target "groundwater_top")
          && (on.surface_water && on.groundwater))
        "target groundwater_top must be kind flux in coupled runs"

abbrev pub check_pinned : Modules → Place → String → String → List ConfigError
check_pinned on where_ target scalar =
    refuse_at where_ (str_eq scalar "temperature" && not on.temperature)
      "scalar: temperature requires modules.temperature: true"
    ++ refuse_at where_ (str_eq scalar "salinity" && not on.transport)
        "kind scalar_value requires modules.transport: true"
    ++ refuse_at where_
        (is_either target "groundwater_top" "groundwater_bottom"
          && not (str_eq scalar "temperature"))
        "scalar_value on a top or bottom is temperature-only"
    ++ refuse_at where_ (str_eq target "groundwater_top" && (on.surface_water && on.groundwater))
        "scalar_value on groundwater_top is rejected in coupled runs"

abbrev pub check_cauchy : Modules → Place → String → List ConfigError
check_cauchy on where_ target =
    refuse_at where_ (not on.transport) "kind scalar_cauchy requires modules.transport: true"
    ++ refuse_at where_ (not (str_eq target "groundwater_top"))
        "kind scalar_cauchy applies to target groundwater_top only"
    ++ refuse_at where_ (on.surface_water && on.groundwater)
        "kind scalar_cauchy applies to uncoupled groundwater runs only"

abbrev pub check_scalar : Modules → Place → Node → String → String → List ConfigError
check_scalar on where_ bc target kind =
    refuse_at (join_path where_ (Segment.key "scalar"))
      (is_given bc "scalar" && not (str_eq kind "scalar_value"))
      "the scalar selector applies to kind scalar_value only"
    ++ (if str_eq kind "scalar_value"
        then check_pinned on where_ target (text_or "salinity" (sub bc "scalar"))
        else [])
    ++ (if str_eq kind "scalar_cauchy" then check_cauchy on where_ target else [])

abbrev pub check_value_presence : Place → Node → String → List ConfigError
check_value_presence where_ bc kind =
    refuse_at (join_path where_ (Segment.key "value"))
      (str_eq kind "outflow" && is_given bc "value") "kind outflow takes no value"
    ++ refuse_at (join_path where_ (Segment.key "value"))
        (str_eq kind "scalar_cauchy" && is_given bc "value") "kind scalar_cauchy takes no value"
    ++ add_error_if
        ((not (is_either kind "outflow" "scalar_cauchy") && not (str_eq kind ""))
          && not (is_given bc "value"))
        where_ (Problem.missing_key "value")

module _ {R : Type 0} (reader : Reader R) where
  abbrev pub check_value : Place → Node → String → String → List ConfigError
  check_value where_ value target kind =
      let gravity = join_path where_ (Segment.key "gravity") in
      let hydrostatic = join_path where_ (Segment.key "hydrostatic") in
      refuse_at gravity (is_given value "gravity" && not (str_eq kind "flux"))
        "free drainage applies to kind flux only"
      ++ refuse_at gravity (is_given value "gravity" && not (str_eq target "groundwater_bottom"))
          "free drainage applies to target groundwater_bottom only"
      ++ refuse_at gravity (not (flag_or reader true (sub value "gravity")))
          "must be true when given"
      ++ refuse_at hydrostatic (is_given value "hydrostatic" && not (str_eq kind "head"))
          "hydrostatic values apply to kind head only"
      ++ refuse_at hydrostatic
          (is_given value "hydrostatic" && not (str_eq target "groundwater_side"))
          "hydrostatic values apply to target groundwater_side only"

  abbrev pub check_boundary : Modules → Place → Node → List ConfigError
  check_boundary on where_ bc =
      check_target on where_ (target_of bc) (kind_of bc)
      ++ check_scalar on where_ bc (target_of bc) (kind_of bc)
      ++ check_value_presence where_ bc (kind_of bc)
      ++ (if is_map (sub bc "value")
          then check_value (join_path where_ (Segment.key "value")) (sub bc "value") (target_of bc)
              (kind_of bc)
          else [])

  -- A name of an entry that an earlier one has; entries without a name pass.
  abbrev pub check_name : List String → Place → Node → List ConfigError
  check_name names where_ (Node.scalar name) =
      add_error_if (is_listed name names) (join_path where_ (Segment.key "name"))
        (Problem.rule "duplicate name")
  check_name names where_ node = []

  abbrev pub add_name : List String → Node → List String
  add_name names (Node.scalar name) = name ∷ names
  add_name names node = names

  abbrev pub check_boundaries : Modules → List String → ℕ → Items → List ConfigError
  check_boundaries on names n Items.no_items = []
  check_boundaries on names n (Items.item bc items) =
      let where_ = Segment.key "boundary_conditions" ∷ Segment.index n ∷ [] in
      (if is_map bc
        then check_name names where_ (sub bc "name") ++ check_boundary on where_ bc
        else [])
      ++ check_boundaries on (add_name names (sub bc "name")) (n + 1) items

  abbrev pub check_boundary_conditions : Modules → Node → List ConfigError
  check_boundary_conditions on (Node.list_node items) = check_boundaries on [] 0 items
  check_boundary_conditions on node = []
