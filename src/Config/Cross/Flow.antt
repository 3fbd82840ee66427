-- ===== src/Config/Cross/Flow.antt =====
-- The rules on the subsurface in `crossChecks` of core/ConfigSchema.cpp: the scalar update, the density
-- coupling, the layers of the terrain, the groundwater time step and the soil.
use Prim.Native.String.{String}
use frehg.Prelude.{ℕ, ◌+◌, if◌then◌else◌, false, not, ◌&&◌, ◌||◌, List, [], ◌∷◌, ◌++◌, Double}
use frehg.Config.Document.{
  Node, Items, Reader, str_eq, is_map, is_scalar, sub, sub2, text_or, real_or, flag_or,
}
use frehg.Config.Check.{Segment, Problem, ConfigError, add_error_if, is_listed}
use frehg.Config.Cross.{Modules, is_given, at_, refuse}

abbrev pub check_subsurface_update : Modules → Node → List ConfigError
check_subsurface_update on root =
    refuse
      (str_eq (text_or "" (sub2 root "transport" "subsurface_update")) "consistent"
        && not on.groundwater)
      ("transport" ∷ "subsurface_update" ∷ [])
      "subsurface_update: consistent requires modules.groundwater: true"

-- The names of the soil types before place `n`, the last one first, and the errors of the rest.
abbrev pub check_soil_names : List String → ℕ → Items → List String × List ConfigError
check_soil_names names n Items.no_items = (names, [])
check_soil_names names n (Items.item node items) = elim (sub node "name") [
  | Node.scalar name ↦
      let (all, errors) = check_soil_names (name ∷ names) (n + 1) items in
      (
        all,
        add_error_if (is_listed name names)
              (at_ ("soil" ∷ "types" ∷ []) ++ Segment.index n ∷ Segment.key "name" ∷ [])
              (Problem.rule "duplicate soil type name")
            ++ errors,
      )
  | _ ↦ check_soil_names names (n + 1) items
]

abbrev pub check_soil_types : Node → List String × List ConfigError
check_soil_types (Node.list_node items) = check_soil_names [] 0 items
check_soil_types node = ([], [])

abbrev pub check_soil : Node → List ConfigError
check_soil root =
    let soil = sub root "soil" in
    let (names, errors) = check_soil_types (sub soil "types") in
    let constant = sub2 soil "map" "constant" in
    if is_map soil
    then (errors
        ++ refuse (is_scalar constant && not (is_listed (text_or "" constant) names))
            ("soil" ∷ "map" ∷ "constant" ∷ []) "soil type is not defined in soil.types")
    else []

module _ {R : Type 0} (double : Double R) (reader : Reader R) where
  abbrev pub check_density_coupling : Modules → Node → List ConfigError
  check_density_coupling on root =
      let dc = sub2 root "groundwater" "density_coupling" in
      refuse
        (is_map dc
          && (flag_or reader false (sub dc "enabled") && (not on.transport && not on.temperature)))
        ("groundwater" ∷ "density_coupling" ∷ "enabled" ∷ [])
        "density coupling requires modules.transport or modules.temperature"
      ++ refuse
          (is_map dc
            && (not on.transport
                && (is_given dc "beta_saline" || is_given dc "beta_saline_viscosity")))
          ("groundwater" ∷ "density_coupling" ∷ [])
          "the saline coefficients require modules.transport: true"
      ++ refuse
          (is_map dc
            && (not on.temperature
                && (is_given dc "thermal_expansion" || is_given dc "reference_temperature")))
          ("groundwater" ∷ "density_coupling" ∷ [])
          "the thermal coefficients require modules.temperature: true"

  abbrev pub check_terrain_layers : Node → List ConfigError
  check_terrain_layers root =
      refuse
        (str_eq (text_or "" (sub2 root "domain" "terrain_layers")) "uniform"
          && not (flag_or reader false (sub2 root "domain" "follow_terrain")))
        ("domain" ∷ "terrain_layers" ∷ []) "'uniform' requires domain.follow_terrain: true"

  abbrev pub step_of : Node → String → R
  step_of timestep name = real_or reader (sub timestep name) (double.of_int 0)

  abbrev pub check_timestep : Node → List ConfigError
  check_timestep root =
      let ts = sub2 root "groundwater" "timestep" in
      refuse
        (is_map ts
          && ((is_given ts "dt_init" && (is_given ts "dt_min" && is_given ts "dt_max"))
              && not (
                  double.le (step_of ts "dt_min") (step_of ts "dt_init")
                  && double.le (step_of ts "dt_init") (step_of ts "dt_max"))))
        ("groundwater" ∷ "timestep" ∷ []) "requires dt_min <= dt_init <= dt_max"
