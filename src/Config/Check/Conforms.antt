-- ===== src/Config/Check/Conforms.antt =====
-- When a document conforms to a schema of core/ConfigSchema.cpp, as a relation.
use Prim.Native.String.{String}
use mathlib.Core.List.{Memᴰ}
use frehg.Prelude.{ℕ, ◌≤◌, ◌≡◌, Bool, true, false, some, List, Double}
use frehg.Config.Document.{
  Node, Items, Fields, Reader, is_defined, find, size, node_as_double, node_as_bool,
}
use frehg.Config.Schema.{Spec, KeyedSpecs}
use frehg.Config.Check.{names_of, present_count, is_whole, is_above_minimum, is_off_whole}

pub data OnlyKeys (names : List String) : Fields → Type 0 where
  no_key : OnlyKeys names Fields.no_fields
  known_key :
      {name : String} {node : Node} {given : Fields}
      → Memᴰ name names
      → OnlyKeys names given
      → OnlyKeys names (Fields.field name node given)

module _ {R : Type 0} (double : Double R) (reader : Reader R) where
  mutual
    pub data Conforms : Spec R → Node → Type 0 where
      a_map :
          {children : KeyedSpecs R} {given : Fields}
          → OnlyKeys (names_of children) given
          → Has false children given
          → Conforms (Spec.map_spec false children) (Node.map_node given)
      a_choice :
          {children : KeyedSpecs R} {given : Fields}
          → OnlyKeys (names_of children) given
          → Has true children given
          → present_count (names_of children) given ≡ 1
          → Conforms (Spec.map_spec true children) (Node.map_node given)
      a_bool :
          {node : Node} {value : Bool}
          → node_as_bool reader node ≡ some value
          → Conforms Spec.bool_spec node
      an_int :
          {least : R} {node : Node} {value : R}
          → node_as_double reader node ≡ some value
          → is_whole double reader value ≡ true
          → double.lt value least ≡ false
          → Conforms (Spec.int_spec least) node
      is_auto : {least : R} → Conforms (Spec.int_or_auto_spec least) (Node.scalar "auto")
      not_auto :
          {least : R} {node : Node} {value : R}
          → node_as_double reader node ≡ some value
          → is_whole double reader value ≡ true
          → double.lt value least ≡ false
          → Conforms (Spec.int_or_auto_spec least) node
      a_real :
          {least greatest : R} {exclusive whole : Bool} {node : Node} {value : R}
          → node_as_double reader node ≡ some value
          → is_above_minimum double reader least exclusive value ≡ true
          → double.le value greatest ≡ true
          → (whole ≡ true → is_off_whole double reader value ≡ false)
          → Conforms (Spec.real_spec least greatest exclusive whole) node
      a_string :
          {must_exist : Bool} {s : String}
          → (must_exist ≡ true → reader.exists s ≡ true)
          → Conforms (Spec.string_spec must_exist) (Node.scalar s)
      an_enum :
          {allowed : List String} {s : String}
          → Memᴰ s allowed
          → Conforms (Spec.enum_spec allowed) (Node.scalar s)
      a_sequence :
          {element : Spec R} {least : ℕ} {items : Items}
          → least ≤ size items
          → Each element items
          → Conforms (Spec.sequence_spec element least) (Node.list_node items)
      a_point :
          {x y : Node} {a b : R}
          → node_as_double reader x ≡ some a
          → node_as_double reader y ≡ some b
          → Conforms Spec.point2_spec (Node.list_node (Items.item x (Items.item y Items.no_items)))

    pub data Each : Spec R → Items → Type 0 where
      done : {element : Spec R} → Each element Items.no_items
      more :
          {element : Spec R} {node : Node} {items : Items}
          → Conforms element node
          → Each element items
          → Each element (Items.item node items)

    -- The children of a mapping: with `true` none of them is required by itself.
    pub data Has : Bool → KeyedSpecs R → Fields → Type 0 where
      enough : {any : Bool} {given : Fields} → Has any KeyedSpecs.no_keys given
      present :
          {any required : Bool} {name : String} {spec : Spec R} {rest : KeyedSpecs R}
          {given : Fields}
          → is_defined (find name given) ≡ true
          → Conforms spec (find name given)
          → Has any rest given
          → Has any (KeyedSpecs.keyed name required spec rest) given
      omitted :
          {any required : Bool} {name : String} {spec : Spec R} {rest : KeyedSpecs R}
          {given : Fields}
          → is_defined (find name given) ≡ false
          → (required ≡ true → any ≡ true)
          → Has any rest given
          → Has any (KeyedSpecs.keyed name required spec rest) given
