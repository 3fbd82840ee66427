-- ===== src/Config/Document.antt =====
-- A YAML document as yaml-cpp presents it: the keys of a mapping are texts, a key that is missing
-- gives the undefined node. What the conversions `as<double>` and `as<bool>` make of a scalar, and
-- which files exist, are a `Reader`.
use Prim.Native.String.{String}
use text.Mathlib.Text
use frehg.Prelude.{ℕ, suc, Bool, true, false, if◌then◌else◌, Option, none, some, ℤ}

abbrev pub str_eq : String → String → Bool
str_eq a b = Text.◌==◌ a b

mutual
  pub data Node : Type 0 where
    undefined : Node
    null : Node
    scalar : String → Node
    list_node : Items → Node
    map_node : Fields → Node

  pub data Items : Type 0 where
    no_items : Items
    item : Node → Items → Items

  pub data Fields : Type 0 where
    no_fields : Fields
    field : String → Node → Fields → Fields

pub record Reader (R : Type 0) : Type 0 where
  pub double_of : String → Option R
  pub bool_of : String → Option Bool
  pub int_of : String → Option ℤ
  pub exists : String → Bool

abbrev pub is_defined : Node → Bool
is_defined Node.undefined = false
is_defined _ = true

abbrev pub is_map : Node → Bool
is_map (Node.map_node fs) = true
is_map _ = false

abbrev pub is_scalar : Node → Bool
is_scalar (Node.scalar s) = true
is_scalar _ = false

abbrev pub find : String → Fields → Node
find key Fields.no_fields = Node.undefined
find key (Fields.field k node fs) = let rest = find key fs in if str_eq k key then node else rest

-- `node[key]` on a mapping, and the lookup `sub` that is undefined on every other node.
abbrev pub sub : Node → String → Node
sub (Node.map_node fs) key = find key fs
sub _ key = Node.undefined

abbrev pub sub2 : Node → String → String → Node
sub2 node key1 key2 = sub (sub node key1) key2

abbrev pub size : Items → ℕ
size Items.no_items = 0
size (Items.item node rest) = suc (size rest)

-- The text of a scalar, else the fallback.
abbrev pub text_or : String → Node → String
text_or fallback (Node.scalar s) = s
text_or fallback _ = fallback

module _ {R : Type 0} (reader : Reader R) where
  abbrev pub node_as_double : Node → Option R
  node_as_double (Node.scalar s) = reader.double_of s
  node_as_double _ = none

  abbrev pub node_as_bool : Node → Option Bool
  node_as_bool (Node.scalar s) = reader.bool_of s
  node_as_bool _ = none

  abbrev pub flag_or : Bool → Node → Bool
  flag_or fallback node = elim (node_as_bool node) [ some value ↦ value | none ↦ fallback ]

  abbrev pub real_or : Node → R → R
  real_or node fallback = elim (node_as_double node) [ some value ↦ value | none ↦ fallback ]
