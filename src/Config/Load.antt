-- ===== src/Config/Load.antt =====
-- The conversions of core/Config.cpp: a conversion that yaml-cpp refuses throws, which ends the load.
pub mod Types
pub mod Sections
pub mod Surface
pub mod Subsurface
pub mod Scalars
pub mod Outputs
pub mod Initial
pub mod Root
pub mod Total
use Prim.Native.String.{String}
use frehg.Prelude.{
  Result, ok, fatal, ◌>>=◌, if◌then◌else◌, Bool, true, false, Option, none, some, List, [], ◌∷◌, ℤ,
  pos, Double,
}
use frehg.Config.Document.{
  Node, Items, Reader, str_eq, is_defined, sub, node_as_double, node_as_bool,
}

pub data YamlError : Type 0 where
  bad_conversion : YamlError

abbrev pub converted : {A : Type 0} → Option A → Result YamlError A
converted (some a) = ok a
converted none = fatal YamlError.bad_conversion

abbrev pub as_text : Node → Result YamlError String
as_text (Node.scalar s) = ok s
as_text node = fatal YamlError.bad_conversion

-- `valueOr`: the fallback of a node that is not there.
abbrev pub value_or : {A : Type 0} → (Node → Result YamlError A) → Node → A → Result YamlError A
value_or convert node fallback = if is_defined node then convert node else ok fallback

abbrev pub text_is : Node → String → String → Result YamlError Bool
text_is node fallback wanted = value_or as_text node fallback >>= λ s. ok (str_eq s wanted)

-- One value for each entry, the loops over `types`, `monitors` and the points of a polygon.
abbrev pub each : {A : Type 0} → (Node → Result YamlError A) → Items → Result YamlError (List A)
each convert Items.no_items = ok []
each convert (Items.item node items) =
    convert node >>= λ a. each convert items >>= λ rest. ok (a ∷ rest)

abbrev pub entries : {A : Type 0} → (Node → Result YamlError A) → Node → Result YamlError (List A)
entries convert (Node.list_node items) = each convert items
entries convert node = ok []

module _ {R : Type 0} (double : Double R) (reader : Reader R) where
  abbrev pub as_real : Node → Result YamlError R
  as_real node = converted (node_as_double reader node)

  abbrev pub as_flag : Node → Result YamlError Bool
  as_flag node = converted (node_as_bool reader node)

  abbrev pub as_int : Node → Result YamlError ℤ
  as_int (Node.scalar s) = converted (reader.int_of s)
  as_int node = fatal YamlError.bad_conversion

  abbrev pub real_at : Node → String → R → Result YamlError R
  real_at node key fallback = value_or as_real (sub node key) fallback

  abbrev pub flag_at : Node → String → Bool → Result YamlError Bool
  flag_at node key fallback = value_or as_flag (sub node key) fallback

  abbrev pub int_or_auto_value : Node → Result YamlError ℤ
  int_or_auto_value Node.undefined = ok (pos 0)
  int_or_auto_value (Node.scalar s) = if str_eq s "auto" then ok (pos 0) else as_int (Node.scalar s)
  int_or_auto_value node = as_int node

  abbrev pub as_point : Node → Result YamlError (R × R)
  as_point (Node.list_node (Items.item x (Items.item y items))) =
      as_real x >>= λ a. as_real y >>= λ b. ok (a, b)
  as_point node = fatal YamlError.bad_conversion

  abbrev pub points : Node → Result YamlError (List (R × R))
  points node = entries as_point (sub node "polygon")
