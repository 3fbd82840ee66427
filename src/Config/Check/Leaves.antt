-- ===== src/Config/Check/Leaves.antt =====
-- The checks of scalars and of keys by themselves: a check that stays silent means that the node
-- conforms.
use Prim.Native.String.{String}
use text.Mathlib.TextEquality.{eq_iff}
use mathlib.Core.List.{Memᴰ}
use frehg.Prelude.{
  ℕ, ◌+◌, ◌≡◌, refl, sym, ap, inl, inr, Bool, true, false, not, ◌&&◌, Bool-cases, Option-cases,
  some, List, [], ◌∷◌, ◌++◌, Double, arith,
}
use frehg.Config.Document.{Node, Items, Fields, Reader, str_eq, node_as_double, node_as_bool}
use frehg.Config.Schema.{Spec}
use frehg.Config.Check.{
  Place, Problem, add_error_if, is_listed, unknown_keys, check_items, is_whole, is_auto, is_number,
  is_above_minimum, is_off_whole, is_pair, check_bool, check_int, check_real, check_string,
  check_enum, check_int_or_auto, check_node,
}
use frehg.Config.Check.Conforms.{OnlyKeys, Conforms, Each}

pub append-nil_inv : {A : Type 0} (xs ys : List A) → xs ++ ys ≡ [] → (xs ≡ []) × (ys ≡ [])
append-nil_inv [] ys h = (refl, h)
append-nil_inv (x ∷ xs) ys h = absurd (cc)

pub add_error_if_none :
    (b : Bool) (where_ : Place) (problem : Problem) → add_error_if b where_ problem ≡ [] → b ≡ false
add_error_if_none true where_ problem h = absurd (cc)
add_error_if_none false where_ problem h = refl

three_quiet :
    (p q r : Bool) (where_ : Place) (a b c : Problem)
    → add_error_if p where_ a ++ add_error_if q where_ b ++ add_error_if r where_ c ≡ []
    → (p ≡ false) × (q ≡ false) × (r ≡ false)
three_quiet false false false where_ a b c h = (refl, refl, refl)
three_quiet true q r where_ a b c h = absurd (cc)
three_quiet false true r where_ a b c h = absurd (cc)
three_quiet false false true where_ a b c h = absurd (cc)

pub not-false : (b : Bool) → not b ≡ false → b ≡ true
not-false b h = ground arith

is_listed→Mem :
    (name : String) (names : List String) → is_listed name names ≡ true → Memᴰ name names
is_listed→Mem name [] h = absurd (cc)
is_listed→Mem name (a ∷ names) h = elim (Bool-cases (str_eq a name)) [
  | inl e ↦ Memᴰ.head (sym ((eq_iff a name).0 e))
  | inr e ↦ Memᴰ.tail (is_listed→Mem name names (rw e at h))
]

pub Mem→is_listed :
    {name : String} {names : List String} → Memᴰ name names → is_listed name names ≡ true
Mem→is_listed (Memᴰ.head {x} {xs} e) = rw ((eq_iff x _).1 (sym e)) refl
Mem→is_listed (Memᴰ.tail {x} {xs} m) = rw (Mem→is_listed m) (ground arith)

pub unknown_keys_sound :
    (where_ : Place) (names : List String) (given : Fields)
    → unknown_keys where_ names given ≡ []
    → OnlyKeys names given
unknown_keys_sound where_ names Fields.no_fields h = OnlyKeys.no_key
unknown_keys_sound where_ names (Fields.field name node given) h =
    let (here, later) = append-nil_inv _ _ h in
    OnlyKeys.known_key (is_listed→Mem name names (not-false _ (add_error_if_none _ _ _ here)))
      (unknown_keys_sound where_ names given later)

pub unknown_keys_complete :
    {names : List String} {given : Fields} (where_ : Place)
    → OnlyKeys names given
    → unknown_keys where_ names given ≡ []
unknown_keys_complete where_ OnlyKeys.no_key = refl
unknown_keys_complete where_ (OnlyKeys.known_key m rest) =
    rw (Mem→is_listed m) (unknown_keys_complete where_ rest)

module _ {R : Type 0} (double : Double R) (reader : Reader R) where
  module _ {spec : Spec R}
      (ih : (where_ : Place) (node : Node)
        → check_node double reader spec where_ node ≡ []
        → Conforms double reader spec node) where
    pub items_sound :
        (where_ : Place) (n : ℕ) (items : Items)
        → check_items (λ place node. check_node double reader spec place node) where_ n items ≡ []
        → Each double reader spec items
    items_sound where_ n Items.no_items h = Each.done
    items_sound where_ n (Items.item node items) h =
        let (here, later) = append-nil_inv _ _ h in
        Each.more (ih _ node here) (items_sound where_ (n + 1) items later)

  pub bool_sound :
      (where_ : Place) (node : Node)
      → check_bool double reader where_ node ≡ []
      → Conforms double reader Spec.bool_spec node
  bool_sound where_ node h = elim (Option-cases (node_as_bool reader node)) [
    | inl e ↦ absurd (let k = rw (e, check_bool) at h in cc)
    | inr (value, e) ↦ Conforms.a_bool e
  ]

  pub int_sound :
      (least : R) (where_ : Place) (node : Node)
      → check_int double reader least where_ node ≡ []
      → Conforms double reader (Spec.int_spec least) node
  int_sound least where_ node h = elim (Option-cases (node_as_double reader node)) [
    | inl e ↦ absurd (let k = rw (e, check_int) at h in cc)
    | inr (value, e) ↦
        let k = rw (e, check_int) at h in
        let whole : is_whole double reader value ≡ true = ground arith in
        let least' : double.lt value least ≡ false = ground arith in Conforms.an_int e whole least'
  ]

  pub real_sound :
      (least greatest : R) (exclusive whole : Bool) (where_ : Place) (node : Node)
      → check_real double reader least greatest exclusive whole where_ node ≡ []
      → Conforms double reader (Spec.real_spec least greatest exclusive whole) node
  real_sound least greatest exclusive whole where_ node h =
      elim (Option-cases (node_as_double reader node)) [
        | inl e ↦ absurd (let k = rw (e, check_real) at h in cc)
        | inr (value, e) ↦
            let (low, high, off) =
              three_quiet (not (is_above_minimum double reader least exclusive value))
                (not (double.le value greatest)) (whole && is_off_whole double reader value) where_
                _ _ _ (rw (e, check_real) at h) in
            Conforms.a_real e (not-false _ low) (not-false _ high) (λ w. rw w at off)
      ]

  pub string_sound :
      (must_exist : Bool) (where_ : Place) (node : Node)
      → check_string double reader must_exist where_ node ≡ []
      → Conforms double reader (Spec.string_spec must_exist) node
  string_sound must_exist where_ (Node.scalar s) h =
      let quiet = add_error_if_none _ _ _ h in
      Conforms.a_string (λ m. not-false (reader.exists s) (rw m at quiet))
  string_sound must_exist where_ Node.undefined h = absurd (cc)
  string_sound must_exist where_ Node.null h = absurd (cc)
  string_sound must_exist where_ (Node.list_node items) h = absurd (cc)
  string_sound must_exist where_ (Node.map_node fs) h = absurd (cc)

  pub enum_sound :
      (allowed : List String) (where_ : Place) (node : Node)
      → check_enum double reader allowed where_ node ≡ []
      → Conforms double reader (Spec.enum_spec allowed) node
  enum_sound allowed where_ (Node.scalar s) h =
      Conforms.an_enum (is_listed→Mem s allowed (not-false _ (add_error_if_none _ _ _ h)))
  enum_sound allowed where_ Node.undefined h = absurd (cc)
  enum_sound allowed where_ Node.null h = absurd (cc)
  enum_sound allowed where_ (Node.list_node items) h = absurd (cc)
  enum_sound allowed where_ (Node.map_node fs) h = absurd (cc)

  is_auto_inv : (node : Node) → is_auto double reader node ≡ true → node ≡ Node.scalar "auto"
  is_auto_inv (Node.scalar s) h = ap Node.scalar ((eq_iff s "auto").0 h)
  is_auto_inv Node.undefined h = absurd (cc)
  is_auto_inv Node.null h = absurd (cc)
  is_auto_inv (Node.list_node items) h = absurd (cc)
  is_auto_inv (Node.map_node fs) h = absurd (cc)

  pub int_or_auto_sound :
      (least : R) (where_ : Place) (node : Node)
      → check_int_or_auto double reader least where_ node ≡ []
      → Conforms double reader (Spec.int_or_auto_spec least) node
  int_or_auto_sound least where_ node h = elim (Bool-cases (is_auto double reader node)) [
    | inl auto ↦ rw (is_auto_inv node auto) Conforms.is_auto
    | inr other ↦ elim (Option-cases (node_as_double reader node)) [
      | inl e ↦ absurd (let k = rw (other, e, check_int_or_auto) at h in cc)
      | inr (value, e) ↦
          let k = add_error_if_none _ _ _ (rw (other, e, check_int_or_auto) at h) in
          let whole : is_whole double reader value ≡ true = ground arith in
          let least' : double.lt value least ≡ false = ground arith in
          Conforms.not_auto e whole least'
    ]
  ]

  number_inv :
      (node : Node)
      → is_number double reader node ≡ true
      → (a : R) × (node_as_double reader node ≡ some a)
  number_inv node h = elim (Option-cases (node_as_double reader node)) [
    | inl e ↦ absurd (let k = rw (e, is_number) at h in cc)
    | inr (a, e) ↦ (a, e)
  ]

  pub pair_sound :
      (node : Node)
      → is_pair double reader node ≡ true
      → Conforms double reader Spec.point2_spec node
  pair_sound (Node.list_node (Items.item x (Items.item y Items.no_items))) h =
      let (a, ea) = number_inv x (ground arith) in
      let (b, eb) = number_inv y (ground arith) in Conforms.a_point ea eb
  pair_sound _ h = absurd (cc)
