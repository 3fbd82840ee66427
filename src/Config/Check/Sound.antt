-- ===== src/Config/Check/Sound.antt =====
-- A document without an error conforms to its schema.
use Prim.Native.String.{String}
use frehg.Prelude.{
  ◌==◌, ltb, ltb→le, if◌then◌else◌, ◌≡◌, inl, inr, Bool, true, false, not, ◌&&◌, Bool-cases, [],
  ◌++◌, Double, arith,
}
use frehg.Config.Document.{Node, Fields, Reader, is_defined, find, size}
use frehg.Config.Schema.{Spec, KeyedSpecs}
use frehg.Config.Check.{
  Segment, Place, Problem, add_error_if, join_path, names_of, unknown_keys, present_count,
  check_count, check_node, check_children,
}
use frehg.Config.Check.Conforms.{OnlyKeys, Conforms, Has}
use frehg.Config.Check.Leaves.{
  append-nil_inv, add_error_if_none, unknown_keys_sound, not-false, items_sound, bool_sound,
  int_sound, real_sound, string_sound, enum_sound, int_or_auto_sound, pair_sound,
}

module _ {R : Type 0} (double : Double R) (reader : Reader R) where
  map_sound :
      (exactly_one : Bool) (children : KeyedSpecs R) (given : Fields)
      → OnlyKeys (names_of children) given
      → Has double reader exactly_one children given
      → exactly_one && not (present_count (names_of children) given == 1) ≡ false
      → Conforms double reader (Spec.map_spec exactly_one children) (Node.map_node given)
  map_sound true children given only has h = Conforms.a_choice only has (ground arith)
  map_sound false children given only has h = Conforms.a_map only has

  child_sound :
      {exactly_one required : Bool} (where_ : Place) {key : String} {spec : Spec R}
      {rest : KeyedSpecs R} {given : Fields}
      → ((node : Node)
          → check_node double reader spec (join_path where_ (Segment.key key)) node ≡ []
          → Conforms double reader spec node)
      → (if is_defined (find key given)
          then check_node double reader spec (join_path where_ (Segment.key key)) (find key given)
          else add_error_if (required && not exactly_one) where_ (Problem.missing_key key))
        ≡ []
      → Has double reader exactly_one rest given
      → Has double reader exactly_one (KeyedSpecs.keyed key required spec rest) given
  child_sound {exactly_one} {required} where_ {key} {given = given} ih h later =
      elim (Bool-cases (is_defined (find key given))) [
        | inl e ↦ Has.present e (ih _ (rw e at h)) later
        | inr e ↦
            let k = add_error_if_none _ _ _ (rw e at h) in
            Has.omitted e (λ r. not-false exactly_one (rw r at k)) later
      ]

  mutual
    unfolding check_node

    pub node_sound :
        (spec : Spec R) (where_ : Place) (node : Node)
        → check_node double reader spec where_ node ≡ []
        → Conforms double reader spec node
    node_sound (Spec.map_spec exactly_one children) where_ (Node.map_node given) h =
        let (before, one) =
          append-nil_inv
            (unknown_keys where_ (names_of children) given
              ++ check_children double reader children exactly_one where_ given)
            (check_count exactly_one (names_of children) where_ given) h in
        let (only, has) =
          append-nil_inv (unknown_keys where_ (names_of children) given)
            (check_children double reader children exactly_one where_ given) before in
        map_sound exactly_one children given
          (unknown_keys_sound where_ (names_of children) given only)
          (children_sound children exactly_one where_ given has) (add_error_if_none _ _ _ one)
    node_sound Spec.bool_spec where_ node h = bool_sound double reader where_ node h
    node_sound (Spec.int_spec least) where_ node h = int_sound double reader least where_ node h
    node_sound (Spec.real_spec least greatest exclusive whole) where_ node h =
        real_sound double reader least greatest exclusive whole where_ node h
    node_sound (Spec.string_spec must_exist) where_ node h =
        string_sound double reader must_exist where_ node h
    node_sound (Spec.enum_spec allowed) where_ node h =
        enum_sound double reader allowed where_ node h
    node_sound (Spec.int_or_auto_spec least) where_ node h =
        int_or_auto_sound double reader least where_ node h
    node_sound (Spec.sequence_spec element least) where_ (Node.list_node items) h =
        let (enough, each) =
          append-nil_inv (add_error_if (ltb (size items) least) where_ (Problem.too_few least)) _
            h in
        Conforms.a_sequence (ltb→le _ _ (add_error_if_none _ _ _ enough))
          (items_sound double reader (node_sound element) where_ 0 items each)
    node_sound Spec.point2_spec where_ node h =
        pair_sound double reader node (not-false _ (add_error_if_none _ _ _ h))
    node_sound _ where_ _ h = absurd (cc)

    children_sound :
        (children : KeyedSpecs R) (exactly_one : Bool) (where_ : Place) (given : Fields)
        → check_children double reader children exactly_one where_ given ≡ []
        → Has double reader exactly_one children given
    children_sound KeyedSpecs.no_keys exactly_one where_ given h = Has.enough
    children_sound (KeyedSpecs.keyed key required spec rest) exactly_one where_ given h =
        let (here, later) =
          append-nil_inv _ (check_children double reader rest exactly_one where_ given) h in
        child_sound where_ (node_sound spec (join_path where_ (Segment.key key))) here
          (children_sound rest exactly_one where_ given later)
