-- ===== src/Config/Check/Complete.antt =====
-- The walk of core/ConfigSchema.cpp decides conformance to the schema.
use frehg.Prelude.{
  ℕ, ◌+◌, le→ltb, ◌≡◌, refl, ◌↔◌, inl, inr, Bool, true, false, Bool-cases, some, [], Double,
}
use frehg.Config.Document.{Node, Items, Fields, Reader, node_as_double, node_as_bool}
use frehg.Config.Schema.{Spec, KeyedSpecs}
use frehg.Config.Check.{
  Place, check_items, is_auto, is_whole, is_above_minimum, is_off_whole, is_number, is_pair,
  check_bool, check_int, check_real, check_int_or_auto, check_node, check_children,
}
use frehg.Config.Check.Conforms.{Conforms, Each, Has}
use frehg.Config.Check.Leaves.{unknown_keys_complete, Mem→is_listed}
use frehg.Config.Check.Sound.{node_sound}

module _ {R : Type 0} (double : Double R) (reader : Reader R) where
  bool_complete :
      (where_ : Place) (node : Node) {value : Bool}
      → node_as_bool reader node ≡ some value
      → check_bool double reader where_ node ≡ []
  bool_complete where_ node e = rw (e, check_bool) refl

  module _ (where_ : Place) (node : Node) {value : R}
      (e : node_as_double reader node ≡ some value) where
    module _ {least : R} (whole : is_whole double reader value ≡ true)
        (low : double.lt value least ≡ false) where
      int_complete : check_int double reader least where_ node ≡ []
      int_complete = rw (e, check_int) (rw (whole, low) refl)

      not_auto_complete : check_int_or_auto double reader least where_ node ≡ []
      not_auto_complete = elim (Bool-cases (is_auto double reader node)) [
        | inl auto ↦ rw (auto, check_int_or_auto) refl
        | inr other ↦ rw (other, e, check_int_or_auto) (rw (whole, low) refl)
      ]

    real_complete :
        (least greatest : R) (exclusive whole : Bool)
        → is_above_minimum double reader least exclusive value ≡ true
        → double.le value greatest ≡ true
        → (whole ≡ true → is_off_whole double reader value ≡ false)
        → check_real double reader least greatest exclusive whole where_ node ≡ []
    real_complete least greatest exclusive whole low high off = elim (Bool-cases whole) [
      | inl w ↦ rw (e, check_real) (rw (low, high, w, off w) refl)
      | inr w ↦ rw (e, check_real) (rw (low, high, w) refl)
    ]

  pair_complete :
      (x y : Node) {a b : R}
      → node_as_double reader x ≡ some a
      → node_as_double reader y ≡ some b
      → is_pair double reader (Node.list_node (Items.item x (Items.item y Items.no_items))) ≡ true
  pair_complete x y ea eb = rw (ea, eb, is_number) refl

  mutual
    unfolding check_node

    node_complete :
        {spec : Spec R} {node : Node} (where_ : Place)
        → Conforms double reader spec node
        → check_node double reader spec where_ node ≡ []
    node_complete where_ (Conforms.a_map only has) =
        rw (unknown_keys_complete where_ only, children_complete where_ has) refl
    node_complete where_ (Conforms.a_choice only has one) =
        rw (unknown_keys_complete where_ only, children_complete where_ has, one) refl
    node_complete where_ (Conforms.a_bool {node} e) = bool_complete where_ node e
    node_complete where_ (Conforms.an_int {node} e whole least) =
        int_complete where_ node e whole least
    node_complete where_ Conforms.is_auto = refl
    node_complete where_ (Conforms.not_auto {node} e whole least) =
        not_auto_complete where_ node e whole least
    node_complete where_
          (Conforms.a_real {least} {greatest} {exclusive} {whole} {node} e low high off) =
        real_complete where_ node e least greatest exclusive whole low high off
    node_complete where_ (Conforms.a_string {must_exist} exists) = elim (Bool-cases must_exist) [
      | inl m ↦ rw (m, exists m) refl
      | inr m ↦ rw m refl
    ]
    node_complete where_ (Conforms.an_enum m) = rw (Mem→is_listed m) refl
    node_complete where_ (Conforms.a_sequence enough each) =
        rw (le→ltb _ _ enough, items_complete where_ 0 each) refl
    node_complete where_ (Conforms.a_point {x} {y} ea eb) = rw (pair_complete x y ea eb) refl

    items_complete :
        {element : Spec R} {items : Items} (where_ : Place) (n : ℕ)
        → Each double reader element items
        → check_items (λ place node. check_node double reader element place node) where_ n items
          ≡ []
    items_complete where_ n Each.done = refl
    items_complete where_ n (Each.more c rest) =
        rw (node_complete _ c, items_complete where_ (n + 1) rest) refl

    children_complete :
        {exactly_one : Bool} {children : KeyedSpecs R} {given : Fields} (where_ : Place)
        → Has double reader exactly_one children given
        → check_children double reader children exactly_one where_ given ≡ []
    children_complete where_ Has.enough = refl
    children_complete where_ (Has.present e c rest) =
        rw (e, node_complete _ c, children_complete where_ rest) refl
    children_complete {exactly_one} where_ (Has.omitted {required} e r rest) =
        elim (Bool-cases required) [
          | inl q ↦ rw (e, children_complete where_ rest, q, r q) refl
          | inr q ↦ rw (e, children_complete where_ rest, q) refl
        ]

  -- The walk over a document adds no error exactly when the document conforms to the schema.
  pub check_node_iff :
      (spec : Spec R) (where_ : Place) (node : Node)
      → (check_node double reader spec where_ node ≡ []) ↔ Conforms double reader spec node
  check_node_iff spec where_ node =
      (node_sound double reader spec where_ node, node_complete where_)
