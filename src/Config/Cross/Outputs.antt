-- ===== src/Config/Cross/Outputs.antt =====
-- The rules on output variables and monitors in `crossChecks` of core/ConfigSchema.cpp.
pub mod Monitored
use Prim.Native.String.{String}
use frehg.Prelude.{
  ℕ, ◌+◌, if◌then◌else◌, Bool, true, false, not, ◌&&◌, ◌||◌, List, [], ◌∷◌, ◌++◌, ℤ, pos, lt_ℤ,
  Double,
}
use frehg.Config.Document.{Node, Items, Reader, str_eq, is_map, sub, sub2, real_or}
use frehg.Config.Check.{Segment, Place, Problem, ConfigError, add_error_if, join_path, is_listed}
use frehg.Config.Cross.{Modules, is_given, refuse}
use frehg.Config.Cross.Boundaries.{refuse_at, check_name, add_name}
use frehg.Config.Schema.Sections.{surface_variables, groundwater_variables, transport_variables}

abbrev pub check_seepage : Modules → Items → List ConfigError
check_seepage on Items.no_items = []
check_seepage on (Items.item (Node.scalar s) items) =
    refuse (str_eq s "seepage" && not on.groundwater) ("output" ∷ "variables" ∷ "surface" ∷ [])
      "variable 'seepage' requires modules.groundwater: true"
    ++ check_seepage on items
check_seepage on (Items.item node items) = check_seepage on items

abbrev pub check_seepage_list : Modules → Node → List ConfigError
check_seepage_list on (Node.list_node items) = check_seepage on items
check_seepage_list on node = []

abbrev pub check_output_variables : Modules → Node → List ConfigError
check_output_variables on root =
    let vars = sub2 root "output" "variables" in
    refuse (is_given vars "surface" && not on.surface_water)
      ("output" ∷ "variables" ∷ "surface" ∷ []) "requires modules.surface_water: true"
    ++ refuse (is_given vars "groundwater" && not on.groundwater)
        ("output" ∷ "variables" ∷ "groundwater" ∷ []) "requires modules.groundwater: true"
    ++ refuse (is_given vars "transport" && not on.transport)
        ("output" ∷ "variables" ∷ "transport" ∷ []) "requires modules.transport: true"
    ++ check_seepage_list on (sub vars "surface")

-- Whether a variable belongs to a module that is off.
abbrev pub is_idle : Modules → String → Bool
is_idle on var =
    (is_listed var surface_variables && not on.surface_water)
    || ((is_listed var groundwater_variables && not on.groundwater)
        || (is_listed var transport_variables && not on.transport))

abbrev pub check_variables : Modules → Place → Items → List ConfigError
check_variables on where_ Items.no_items = []
check_variables on where_ (Items.item (Node.scalar var) items) =
    refuse_at (join_path where_ (Segment.key "variables")) (is_idle on var)
      "the variable belongs to a module that is not enabled"
    ++ check_variables on where_ items
check_variables on where_ (Items.item node items) = check_variables on where_ items

abbrev pub check_variable_list : Modules → Place → Node → List ConfigError
check_variable_list on where_ (Node.list_node items) = check_variables on where_ items
check_variable_list on where_ node = []

-- Whether an index lies outside [0, n), where n is known to be positive.
abbrev pub is_outside : ℤ → ℤ → Bool
is_outside n i = lt_ℤ (pos 0) n && (lt_ℤ i (pos 0) || not (lt_ℤ i n))

module _ {R : Type 0} (double : Double R) (reader : Reader R) where
  abbrev pub extent_of : Node → String → ℤ
  extent_of root name = double.to_long (real_or reader (sub2 root "domain" name) (double.of_int 0))

  -- The fallback of an index is -1.
  abbrev pub index_of : Node → String → ℤ
  index_of monitor name =
      double.to_long
        (real_or reader (sub monitor name) (double.sub (double.of_int 0) (double.of_int 1)))

  abbrev pub check_monitor : Modules → ℤ → ℤ → Place → Node → List ConfigError
  check_monitor on nx ny where_ monitor =
      refuse_at (join_path where_ (Segment.key "i")) (is_outside nx (index_of monitor "i"))
        "outside the domain"
      ++ refuse_at (join_path where_ (Segment.key "j")) (is_outside ny (index_of monitor "j"))
          "outside the domain"
      ++ check_variable_list on where_ (sub monitor "variables")

  abbrev pub check_monitors : Modules → ℤ → ℤ → List String → ℕ → Items → List ConfigError
  check_monitors on nx ny names n Items.no_items = []
  check_monitors on nx ny names n (Items.item monitor items) =
      let where_ = Segment.key "output" ∷ Segment.key "monitors" ∷ Segment.index n ∷ [] in
      (if is_map monitor
        then (check_name reader names where_ (sub monitor "name")
            ++ check_monitor on nx ny where_ monitor)
        else [])
      ++ check_monitors on nx ny (add_name reader names (sub monitor "name")) (n + 1) items

  abbrev pub check_monitor_list : Modules → Node → Node → List ConfigError
  check_monitor_list on root (Node.list_node items) =
      check_monitors on (extent_of root "nx") (extent_of root "ny") [] 0 items
  check_monitor_list on root node = []
