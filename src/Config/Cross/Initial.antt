-- ===== src/Config/Cross/Initial.antt =====
-- The initial conditions that the modules want, and the files that a run reads, in `crossChecks` of
-- core/ConfigSchema.cpp.
use frehg.Prelude.{false, not, ◌&&◌, List, [], ◌∷◌, ◌++◌}
use frehg.Config.Document.{Node, Reader, str_eq, sub, sub2, text_or, flag_or}
use frehg.Config.Check.{ConfigError}
use frehg.Config.Cross.{Modules, is_given, is_given2, refuse}

abbrev pub check_initial_conditions : Modules → Node → List ConfigError
check_initial_conditions on root =
    let ic = sub root "initial_conditions" in
    refuse (on.surface_water && not (is_given2 ic "surface" "eta"))
      ("initial_conditions" ∷ "surface" ∷ "eta" ∷ []) "required when modules.surface_water is true"
    ++ refuse (on.groundwater && not (is_given ic "groundwater"))
        ("initial_conditions" ∷ "groundwater" ∷ []) "required when modules.groundwater is true"
    ++ refuse (on.transport && (on.surface_water && not (is_given2 ic "transport" "surface")))
        ("initial_conditions" ∷ "transport" ∷ "surface" ∷ [])
        "required when transport and surface_water are enabled"
    ++ refuse (on.transport && (on.groundwater && not (is_given2 ic "transport" "groundwater")))
        ("initial_conditions" ∷ "transport" ∷ "groundwater" ∷ [])
        "required when transport and groundwater are enabled"
    ++ refuse (on.temperature && (on.surface_water && not (is_given2 ic "temperature" "surface")))
        ("initial_conditions" ∷ "temperature" ∷ "surface" ∷ [])
        "required when temperature and surface_water are enabled"
    ++ refuse (on.temperature && (on.groundwater && not (is_given2 ic "temperature" "groundwater")))
        ("initial_conditions" ∷ "temperature" ∷ "groundwater" ∷ [])
        "required when temperature and groundwater are enabled"

module _ {R : Type 0} (reader : Reader R) where
  abbrev pub check_restart : Node → List ConfigError
  check_restart root =
      let enabled = flag_or reader false (sub2 root "restart" "enabled") in
      let file = text_or "" (sub2 root "restart" "file") in
      refuse (enabled && str_eq file "") ("restart" ∷ "file" ∷ [])
        "required when restart.enabled is true"
      ++ refuse (enabled && (not (str_eq file "") && not (reader.exists file)))
          ("restart" ∷ "file" ∷ []) "restart file does not exist"

  abbrev pub check_options_file : Node → List ConfigError
  check_options_file root =
      let file = text_or "" (sub2 root "solver" "petsc_options_file") in
      refuse (not (str_eq file "") && not (reader.exists file))
        ("solver" ∷ "petsc_options_file" ∷ []) "options file does not exist"
