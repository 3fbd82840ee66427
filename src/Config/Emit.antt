-- ===== src/Config/Emit.antt =====
-- `resolvedConfigYaml` of core/Config.cpp: the document that a configuration is written back to. How
-- numbers are written is a `Writer`.
pub mod Sections
pub mod Surface
pub mod Subsurface
pub mod Scalars
pub mod Boundaries
use Prim.Native.String.{String}
use frehg.Prelude.{ℕ, if◌then◌else◌, Bool, true, false, List, [], ◌∷◌, ℤ}
use frehg.Config.Document.{Node, Items, Fields}
use frehg.Config.Load.Types.{FileOrConstant, SeriesOrConstant}

pub record Writer (R : Type 0) : Type 0 where
  pub text_of : R → String
  pub text_of_int : ℤ → String

infixr 5 ◌▸◌
abbrev pub ◌▸◌ : String × Node → Fields → Fields
(key, node) ▸ rest = Fields.field key node rest

-- The key is written only when the test holds.
abbrev pub when : Bool → String → Node → Fields → Fields
when test key node rest = if test then Fields.field key node rest else rest

abbrev pub last : Fields
last = Fields.no_fields

abbrev pub word : String → String → String × Node
word key s = (key, Node.scalar s)

abbrev pub flag : String → Bool → String × Node
flag key b = (key, Node.scalar (if b then "true" else "false"))

abbrev pub group : String → Fields → String × Node
group key rest = (key, Node.map_node rest)

abbrev pub list_of : {A : Type 0} → (A → Node) → List A → Items
list_of emit [] = Items.no_items
list_of emit (a ∷ as_) = Items.item (emit a) (list_of emit as_)

abbrev pub is_empty : {A : Type 0} → List A → Bool
is_empty [] = true
is_empty (a ∷ as_) = false

module _ {R : Type 0} (writer : Writer R) where
  abbrev pub number : R → Node
  number v = Node.scalar (writer.text_of v)

  abbrev pub real_field : String → R → String × Node
  real_field key v = (key, number v)

  abbrev pub integer : String → ℤ → String × Node
  integer key n = (key, Node.scalar (writer.text_of_int n))

  abbrev pub emit_file_or_constant : FileOrConstant R → Node
  emit_file_or_constant v =
      Node.map_node
        (if v.from_file then word "file" v.file ▸ last else real_field "constant" v.constant ▸ last)

  -- The fields of `emitSeriesOrConstant`, on top of what is added behind them.
  abbrev pub series_fields : SeriesOrConstant R → Fields → Fields
  series_fields v rest =
      if v.from_series
      then group "series" (word "file" v.file ▸ last) ▸ rest
      else real_field "constant" v.constant ▸ rest

  abbrev pub emit_series_or_constant : SeriesOrConstant R → Node
  emit_series_or_constant v = Node.map_node (series_fields v last)

  abbrev pub emit_point : R × R → Node
  emit_point p = Node.list_node (Items.item (number p.0) (Items.item (number p.1) Items.no_items))

  abbrev pub emit_polygon : List (R × R) → Node
  emit_polygon polygon = Node.list_node (list_of emit_point polygon)
