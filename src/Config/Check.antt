-- ===== src/Config/Check.antt =====
-- The walk of core/ConfigSchema.cpp over a document: `Context`, `checkMap` and `checkNode`, with the
-- list of the errors in the order in which they are added. A place is the list of its keys and
-- indices, the empty one for the whole document.
pub mod Conforms
pub mod Leaves
pub mod Sound
pub mod Complete
pub mod Lookup
use Prim.Native.String.{String}
use frehg.Prelude.{
  ℕ, zero, suc, ◌+◌, ◌==◌, ltb, if◌then◌else◌, Bool, true, false, not, ◌&&◌, ◌||◌, Option, none,
  some, List, [], ◌∷◌, ◌++◌, Double,
}
use frehg.Config.Document.{
  Node, Items, Fields, Reader, str_eq, is_defined, find, size, node_as_double, node_as_bool,
}
use frehg.Config.Schema.{Spec, KeyedSpecs}
use frehg.Config.Suggestion.{nearest_key}

pub data Segment : Type 0 where
  key : String → Segment
  index : ℕ → Segment

abbrev pub Place : Type 0
Place = List Segment

pub data Problem : Type 0 where
  expected_mapping : Problem
  unknown_key : String → Option String → Problem
  missing_key : String → Problem
  not_exactly_one : List String → ℕ → Problem
  expected_boolean : Problem
  expected_integer : Problem
  expected_auto_or_integer : Problem
  expected_number : Problem
  below_minimum : Problem
  above_maximum : Problem
  not_whole_seconds : Problem
  expected_string : Problem
  no_such_file : String → Problem
  expected_one_of : List String → Problem
  invalid_value : String → List String → Problem
  expected_list : Problem
  too_few : ℕ → Problem
  expected_point : Problem
  rule : String → Problem

pub record ConfigError : Type 0 where
  pub place : Place
  pub problem : Problem

abbrev pub add_error_if : Bool → Place → Problem → List ConfigError
add_error_if true where_ problem = record { place = where_; problem = problem } ∷ []
add_error_if false where_ problem = []

abbrev pub join_path : Place → Segment → Place
join_path where_ segment = where_ ++ segment ∷ []

abbrev pub is_listed : String → List String → Bool
is_listed name [] = false
is_listed name (a ∷ names) = let rest = is_listed name names in str_eq a name || rest

abbrev pub names_of : {R : Type 0} → KeyedSpecs R → List String
names_of KeyedSpecs.no_keys = []
names_of (KeyedSpecs.keyed name required spec rest) = name ∷ names_of rest

abbrev pub unknown_keys : Place → List String → Fields → List ConfigError
unknown_keys where_ names Fields.no_fields = []
unknown_keys where_ names (Fields.field name node given) =
    add_error_if (not (is_listed name names)) where_
      (Problem.unknown_key name (nearest_key name names))
    ++ unknown_keys where_ names given

abbrev pub present_count : List String → Fields → ℕ
present_count [] given = 0
present_count (name ∷ names) given =
    (if is_defined (find name given) then 1 else 0) + present_count names given

abbrev pub check_count : Bool → List String → Place → Fields → List ConfigError
check_count exactly_one names where_ given =
    add_error_if (exactly_one && not (present_count names given == 1)) where_
      (Problem.not_exactly_one names (present_count names given))

abbrev pub check_items : (Place → Node → List ConfigError) → Place → ℕ → Items → List ConfigError
check_items check where_ n Items.no_items = []
check_items check where_ n (Items.item node items) =
    check (join_path where_ (Segment.index n)) node ++ check_items check where_ (n + 1) items

module _ {R : Type 0} (double : Double R) (reader : Reader R) where
  abbrev pub check_bool : Place → Node → List ConfigError
  check_bool where_ node = elim (node_as_bool reader node) [
    | some value ↦ []
    | none ↦ add_error_if true where_ Problem.expected_boolean
  ]

  abbrev pub is_whole : R → Bool
  is_whole value = double.eq value (double.floor value)

  abbrev pub check_int : R → Place → Node → List ConfigError
  check_int least where_ node = elim (node_as_double reader node) [
    | none ↦ add_error_if true where_ Problem.expected_integer
    | some value ↦
        if is_whole value
        then add_error_if (double.lt value least) where_ Problem.below_minimum
        else add_error_if true where_ Problem.expected_integer
  ]

  abbrev pub is_auto : Node → Bool
  is_auto (Node.scalar s) = str_eq s "auto"
  is_auto node = false

  abbrev pub check_int_or_auto : R → Place → Node → List ConfigError
  check_int_or_auto least where_ node =
      if is_auto node then [] else (elim (node_as_double reader node) [
        | none ↦ add_error_if true where_ Problem.expected_auto_or_integer
        | some value ↦
            add_error_if (not (is_whole value) || double.lt value least) where_
              Problem.expected_auto_or_integer
      ])

  abbrev pub is_above_minimum : R → Bool → R → Bool
  is_above_minimum least exclusive value =
      if exclusive then double.lt least value else double.le least value

  abbrev pub is_off_whole : R → Bool
  is_off_whole value =
      double.lt (double.scaled 1 9) (double.fabs (double.sub value (double.round value)))

  abbrev pub check_real : R → R → Bool → Bool → Place → Node → List ConfigError
  check_real least greatest exclusive whole where_ node = elim (node_as_double reader node) [
    | none ↦ add_error_if true where_ Problem.expected_number
    | some value ↦
        add_error_if (not (is_above_minimum least exclusive value)) where_ Problem.below_minimum
        ++ add_error_if (not (double.le value greatest)) where_ Problem.above_maximum
        ++ add_error_if (whole && is_off_whole value) where_ Problem.not_whole_seconds
  ]

  abbrev pub check_string : Bool → Place → Node → List ConfigError
  check_string must_exist where_ (Node.scalar s) =
      add_error_if (must_exist && not (reader.exists s)) where_ (Problem.no_such_file s)
  check_string must_exist where_ node = add_error_if true where_ Problem.expected_string

  abbrev pub check_enum : List String → Place → Node → List ConfigError
  check_enum allowed where_ (Node.scalar s) =
      add_error_if (not (is_listed s allowed)) where_ (Problem.invalid_value s allowed)
  check_enum allowed where_ node = add_error_if true where_ (Problem.expected_one_of allowed)

  abbrev pub is_number : Node → Bool
  is_number node = elim (node_as_double reader node) [ some value ↦ true | none ↦ false ]

  abbrev pub is_pair : Node → Bool
  is_pair (Node.list_node (Items.item x (Items.item y Items.no_items))) = is_number x && is_number y
  is_pair node = false

  unfoldable mutual
    pub check_node : Spec R → Place → Node → List ConfigError
    check_node (Spec.map_spec exactly_one children) where_ (Node.map_node given) =
        unknown_keys where_ (names_of children) given
        ++ check_children children exactly_one where_ given
        ++ check_count exactly_one (names_of children) where_ given
    check_node (Spec.map_spec exactly_one children) where_ node =
        add_error_if true where_ Problem.expected_mapping
    check_node Spec.bool_spec where_ node = check_bool where_ node
    check_node (Spec.int_spec least) where_ node = check_int least where_ node
    check_node (Spec.real_spec least greatest exclusive whole) where_ node =
        check_real least greatest exclusive whole where_ node
    check_node (Spec.string_spec must_exist) where_ node = check_string must_exist where_ node
    check_node (Spec.enum_spec allowed) where_ node = check_enum allowed where_ node
    check_node (Spec.int_or_auto_spec least) where_ node = check_int_or_auto least where_ node
    check_node (Spec.sequence_spec element least) where_ (Node.list_node items) =
        add_error_if (ltb (size items) least) where_ (Problem.too_few least)
        ++ check_items (λ place node. check_node element place node) where_ 0 items
    check_node (Spec.sequence_spec element least) where_ node =
        add_error_if true where_ Problem.expected_list
    check_node Spec.point2_spec where_ node =
        add_error_if (not (is_pair node)) where_ Problem.expected_point

    pub check_children : KeyedSpecs R → Bool → Place → Fields → List ConfigError
    check_children KeyedSpecs.no_keys exactly_one where_ given = []
    check_children (KeyedSpecs.keyed name required spec rest) exactly_one where_ given =
        (if is_defined (find name given)
          then check_node spec (join_path where_ (Segment.key name)) (find name given)
          else add_error_if (required && not exactly_one) where_ (Problem.missing_key name))
        ++ check_children rest exactly_one where_ given
