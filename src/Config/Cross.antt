-- ===== src/Config/Cross.antt =====
-- `crossChecks` of core/ConfigSchema.cpp: the rules between fields, one list of errors per block of the
-- source. The text of a problem is the fixed part of the source's message.
pub mod Temperature
pub mod Forcing
pub mod Flow
pub mod Initial
pub mod Boundaries
pub mod Outputs
pub mod Root
use Prim.Native.String.{String}
use frehg.Prelude.{ℕ, ◌==◌, if◌then◌else◌, Bool, true, false, not, ◌&&◌, ◌||◌, List, [], ◌∷◌, ◌++◌}
use frehg.Config.Document.{Node, Reader, is_defined, sub, sub2, flag_or}
use frehg.Config.Check.{Segment, Place, Problem, ConfigError, add_error_if}

-- The flags `sw`, `gw`, `tr` and `tp`.
pub record Modules : Type 0 where
  pub surface_water : Bool
  pub groundwater : Bool
  pub transport : Bool
  pub temperature : Bool

abbrev pub is_given : Node → String → Bool
is_given node name = is_defined (sub node name)

abbrev pub is_given2 : Node → String → String → Bool
is_given2 node name1 name2 = is_defined (sub2 node name1 name2)

abbrev pub at_ : List String → Place
at_ [] = []
at_ (name ∷ names) = Segment.key name ∷ at_ names

abbrev pub refuse : Bool → List String → String → List ConfigError
refuse fails names message = add_error_if fails (at_ names) (Problem.rule message)

abbrev pub how_many : Bool → Bool → ℕ
how_many a b = if a then (if b then 2 else 1) else (if b then 1 else 0)

module _ {R : Type 0} (reader : Reader R) where
  abbrev pub module_on : Node → String → Bool
  module_on root name = flag_or reader false (sub2 root "modules" name)

  abbrev pub modules_of : Node → Modules
  modules_of root = record {
    surface_water = module_on root "surface_water";
    groundwater = module_on root "groundwater";
    transport = module_on root "transport";
    temperature = module_on root "temperature";
  }

abbrev pub check_modules : Modules → Node → List ConfigError
check_modules on root =
    let dry = not on.surface_water && not on.groundwater in
    refuse dry ("modules" ∷ []) "at least one of surface_water/groundwater must be enabled"
    ++ refuse (on.transport && dry) ("modules" ∷ []) "transport requires a flow module"
    ++ refuse (on.temperature && dry) ("modules" ∷ []) "temperature requires a flow module"
    ++ refuse (on.surface_water && not (is_given root "surface_water")) ("surface_water" ∷ [])
        "section is required when modules.surface_water is true"
    ++ refuse (on.groundwater && not (is_given root "groundwater")) ("groundwater" ∷ [])
        "section is required when modules.groundwater is true"
    ++ refuse (on.groundwater && not (is_given root "soil")) ("soil" ∷ [])
        "section is required when modules.groundwater is true"
    ++ refuse (on.transport && not (is_given root "transport")) ("transport" ∷ [])
        "section is required when modules.transport is true"
    ++ refuse (on.temperature && not (is_given root "temperature")) ("temperature" ∷ [])
        "section is required when modules.temperature is true"
