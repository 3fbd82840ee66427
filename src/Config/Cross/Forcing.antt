-- ===== src/Config/Cross/Forcing.antt =====
-- The rules on time, rainfall, wind, evaporation and the atmosphere in `crossChecks` of
-- core/ConfigSchema.cpp.
use frehg.Prelude.{◌==◌, ltb, if◌then◌else◌, Bool, not, ◌&&◌, ◌||◌, List, [], ◌∷◌, ◌++◌, Double}
use frehg.Config.Document.{Node, Reader, str_eq, is_map, sub, sub2, text_or, real_or}
use frehg.Config.Check.{ConfigError}
use frehg.Config.Cross.{Modules, is_given, is_given2, refuse, how_many}

abbrev pub check_rainfall : Node → List ConfigError
check_rainfall root =
    let rainfall = sub2 root "surface_water" "rainfall" in
    refuse
      (is_map rainfall
        && not (how_many (is_given rainfall "constant") (is_given rainfall "series") == 1))
      ("surface_water" ∷ "rainfall" ∷ []) "exactly one of {constant, series} must be given"

abbrev pub check_wind_map : Node → List ConfigError
check_wind_map wind =
    let components = is_given wind "u10" || is_given wind "v10" in
    let compass = is_given wind "speed" || is_given wind "direction" in
    let is_constant = str_eq (text_or "constant" (sub wind "law")) "constant" in
    refuse (components && compass) ("surface_water" ∷ "wind" ∷ [])
      "give either the (u10, v10) component pair or the speed/direction pair, not both"
    ++ refuse (components && (not (is_given wind "u10") || not (is_given wind "v10")))
        ("surface_water" ∷ "wind" ∷ []) "the component form requires both u10 and v10"
    ++ refuse (is_constant && is_given wind "cap") ("surface_water" ∷ "wind" ∷ "cap" ∷ [])
        "the cap applies to the U10 laws only"
    ++ refuse (not is_constant && is_given wind "cd") ("surface_water" ∷ "wind" ∷ "cd" ∷ [])
        "cd is the constant law's coefficient"

abbrev pub check_wind : Node → List ConfigError
check_wind root =
    let wind = sub2 root "surface_water" "wind" in if is_map wind then check_wind_map wind else []

-- Whether evaporation from the surface, and from the soil, is of the bulk mode.
abbrev pub is_surface_bulk : Node → Bool
is_surface_bulk root = is_given (sub2 root "surface_water" "evaporation") "mode"

abbrev pub is_soil_bulk : Node → Bool
is_soil_bulk root = is_given2 root "groundwater" "evaporation"

abbrev pub check_atmosphere : Node → List ConfigError
check_atmosphere root =
    let atm = sub root "atmosphere" in
    refuse
      (is_map atm
        && not
            (how_many (is_given atm "specific_humidity") (is_given atm "relative_humidity") == 1))
      ("atmosphere" ∷ []) "exactly one of {specific_humidity, relative_humidity} must be given"
    ++ refuse
        (is_map atm
          && ((is_surface_bulk root || is_soil_bulk root)
              && not (is_given atm "surface_temperature")))
        ("atmosphere" ∷ "surface_temperature" ∷ [])
        "required when a bulk evaporation consumer is configured"

abbrev pub check_surface_evaporation : Node → List ConfigError
check_surface_evaporation root =
    let evap = sub2 root "surface_water" "evaporation" in
    let bulk = is_given evap "mode" in
    let present = how_many (is_given evap "constant") (is_given evap "series") in
    refuse (is_map evap && (bulk && (ltb 0 present || is_given evap "exclude")))
      ("surface_water" ∷ "evaporation" ∷ []) "mode: bulk takes no constant/series/exclude"
    ++ refuse (is_map evap && (not bulk && not (present == 1)))
        ("surface_water" ∷ "evaporation" ∷ []) "exactly one of {constant, series} must be given"
    ++ refuse (is_map evap && (bulk && not (is_given root "atmosphere")))
        ("surface_water" ∷ "evaporation" ∷ []) "mode: bulk requires the atmosphere block"

abbrev pub check_soil_evaporation : Modules → Node → List ConfigError
check_soil_evaporation on root =
    refuse (is_soil_bulk root && not (is_given root "atmosphere"))
      ("groundwater" ∷ "evaporation" ∷ []) "bulk soil evaporation requires the atmosphere block"
    ++ refuse (is_soil_bulk root && (on.surface_water && on.groundwater))
        ("groundwater" ∷ "evaporation" ∷ [])
        "bulk soil evaporation applies to uncoupled groundwater runs only"

module _ {R : Type 0} (double : Double R) (reader : Reader R) where
  abbrev pub check_time : Node → List ConfigError
  check_time root =
      let time = sub root "time" in
      let start = real_or reader (sub time "t_start") (double.of_int 0) in
      let end = real_or reader (sub time "t_end") (double.of_int 0) in
      refuse (is_map time && (is_given time "t_end" && not (double.lt start end)))
        ("time" ∷ "t_end" ∷ []) "must be greater than time.t_start"
