-- ===== src/Config/Cross/Temperature.antt =====
-- The rules of the `temperature` section in `crossChecks` of core/ConfigSchema.cpp.
use frehg.Prelude.{if◌then◌else◌, not, ◌&&◌, ◌||◌, List, [], ◌∷◌, ◌++◌}
use frehg.Config.Document.{Node, str_eq, is_defined, is_map, sub, text_or}
use frehg.Config.Check.{ConfigError}
use frehg.Config.Cross.{Modules, is_given, refuse}

abbrev pub check_thermal_keys : Modules → Node → List ConfigError
check_thermal_keys on temp =
    refuse ((on.groundwater && on.temperature) && not (is_given temp "thermal_conductivity"))
      ("temperature" ∷ "thermal_conductivity" ∷ []) "required when modules.groundwater is true"
    ++ refuse ((on.groundwater && on.temperature) && not (is_given temp "heat_capacity_solid"))
        ("temperature" ∷ "heat_capacity_solid" ∷ []) "required when modules.groundwater is true"
    ++ refuse (not on.groundwater && is_given temp "thermal_conductivity")
        ("temperature" ∷ "thermal_conductivity" ∷ [])
        "subsurface thermal parameter requires modules.groundwater: true"
    ++ refuse (not on.groundwater && is_given temp "heat_capacity_solid")
        ("temperature" ∷ "heat_capacity_solid" ∷ [])
        "subsurface thermal parameter requires modules.groundwater: true"
    ++ refuse (not on.groundwater && is_given temp "dispersivity")
        ("temperature" ∷ "dispersivity" ∷ [])
        "subsurface thermal parameter requires modules.groundwater: true"

abbrev pub check_exchange_mode : Modules → Node → Node → List ConfigError
check_exchange_mode on root exchange =
    let mode = text_or "" (sub exchange "mode") in
    let eq = sub exchange "equilibrium" in
    refuse (not on.surface_water) ("temperature" ∷ "surface_exchange" ∷ [])
      "requires modules.surface_water: true"
    ++ refuse
        (str_eq mode "equilibrium"
          && (not (is_defined eq)
              || (not (is_given eq "temperature") || not (is_given eq "coefficient"))))
        ("temperature" ∷ "surface_exchange" ∷ "equilibrium" ∷ [])
        "mode equilibrium requires equilibrium.temperature and equilibrium.coefficient"
    ++ refuse (str_eq mode "bulk" && is_defined eq)
        ("temperature" ∷ "surface_exchange" ∷ "equilibrium" ∷ [])
        "mode bulk takes no equilibrium block"
    ++ refuse (str_eq mode "bulk" && not (is_given root "atmosphere"))
        ("temperature" ∷ "surface_exchange" ∷ []) "mode bulk requires the atmosphere block"

abbrev pub check_temperature : Modules → Node → List ConfigError
check_temperature on root =
    let temp = sub root "temperature" in
    if is_map temp
    then (check_thermal_keys on temp
        ++ (if is_map (sub temp "surface_exchange")
            then check_exchange_mode on root (sub temp "surface_exchange")
            else [])
        ++ refuse (is_given temp "surface_diffusivity" && not on.surface_water)
            ("temperature" ∷ "surface_diffusivity" ∷ []) "requires modules.surface_water: true")
    else []
