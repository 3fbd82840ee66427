-- ===== src/Checks/Documents.antt =====
-- Documents of the shape of a configuration, and a reader of whole numbers.
use Prim.Native.String.{String}
use frehg.Prelude.{
  ℕ, ◌+◌, ◌-◌, ◌*◌, ltb, ◌&&◌, if◌then◌else◌, Bool, true, false, Option, none, some, List, [], ◌∷◌,
  ℤ, pos,
}
use frehg.Config.Document.{Node, Items, Fields, Reader, str_eq}
use frehg.Config.Suggestion.{codes}

abbrev digits : ℕ → List ℕ → Option ℕ
digits n [] = some n
digits n (c ∷ cs) =
    let rest = digits (n * 10 + (c - 48)) cs in if ltb 47 c && ltb c 58 then rest else none

abbrev number : String → Option ℕ
number s = if str_eq s "" then none else digits 0 (codes s)

abbrev integer : String → Option ℤ
integer s = elim (number s) [ some n ↦ some (pos n) | none ↦ none ]

abbrev truth : String → Option Bool
truth s = if str_eq s "true" then some true else (if str_eq s "false" then some false else none)

abbrev pub reader : Reader ℕ
reader = record { double_of = number; bool_of = truth; int_of = integer; exists = λ s. true }

infixr 5 ◌▸◌
abbrev pub ◌▸◌ : String × Node → Fields → Fields
(key, node) ▸ rest = Fields.field key node rest

abbrev pub last_key : Fields
last_key = Fields.no_fields

abbrev pub leaf : String → String → String × Node
leaf key s = (key, Node.scalar s)

abbrev pub sect : String → Fields → String × Node
sect key given = (key, Node.map_node given)

abbrev pub only : String → Fields → String × Node
only key given = (key, Node.list_node (Items.item (Node.map_node given) Items.no_items))

abbrev timestep_section : String × Node
timestep_section =
    sect "timestep" (leaf "dt_init" "2" ▸ leaf "dt_min" "1" ▸ leaf "dt_max" "60" ▸ last_key)

abbrev domain_section : String × Node
domain_section = sect "domain" (
    leaf "nx" "4"
    ▸ leaf "ny" "1"
    ▸ leaf "nz" "8"
    ▸ leaf "dx" "1"
    ▸ leaf "dy" "1"
    ▸ leaf "dz" "1"
    ▸ sect "bottom_elevation" (leaf "constant" "0" ▸ last_key)
    ▸ last_key)

abbrev soil_section : String × Node
soil_section = sect "soil" (
    only "types" (
      leaf "name" "sand"
      ▸ leaf "ksx" "1"
      ▸ leaf "ksy" "1"
      ▸ leaf "ksz" "1"
      ▸ leaf "theta_s" "1"
      ▸ leaf "theta_r" "0"
      ▸ leaf "vg_alpha" "1"
      ▸ leaf "vg_n" "2"
      ▸ last_key)
    ▸ sect "map" (leaf "constant" "sand" ▸ last_key)
    ▸ last_key)

-- A column of soil without a surface.
abbrev pub column : Node
column = Node.map_node (
    sect "simulation" (leaf "id" "column" ▸ last_key)
    ▸ domain_section
    ▸ sect "time" (leaf "dt" "1" ▸ leaf "t_end" "3600" ▸ leaf "output_interval" "600" ▸ last_key)
    ▸ sect "modules" (leaf "groundwater" "true" ▸ last_key)
    ▸ sect "groundwater" (timestep_section ▸ leaf "specific_storage" "0" ▸ last_key)
    ▸ soil_section
    ▸ sect "initial_conditions"
        (sect "groundwater" (sect "head" (leaf "constant" "1" ▸ last_key) ▸ last_key) ▸ last_key)
    ▸ sect "output" (leaf "filename" "column.h5" ▸ last_key)
    ▸ last_key)

abbrev point : String → String → Node
point x y = Node.list_node (Items.item (Node.scalar x) (Items.item (Node.scalar y) Items.no_items))

abbrev corners : Items
corners =
    Items.item (point "0" "0")
      (Items.item (point "9" "0") (Items.item (point "9" "9") Items.no_items))

-- A boundary condition on the top of the soil.
abbrev pub top_flux : Node
top_flux = Node.map_node (
    leaf "name" "rain"
    ▸ sect "region" (("polygon", Node.list_node corners) ▸ last_key)
    ▸ leaf "target" "groundwater_top"
    ▸ leaf "kind" "flux"
    ▸ sect "value" (leaf "constant" "1" ▸ last_key)
    ▸ last_key)

abbrev pub gauge : String → Node
gauge name = Node.map_node (leaf "name" name ▸ leaf "i" "3" ▸ leaf "j" "0" ▸ last_key)

abbrev pub gauges : Items
gauges = Items.item (gauge "a") (Items.item (gauge "b") Items.no_items)
