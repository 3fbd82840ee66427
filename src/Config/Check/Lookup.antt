-- ===== src/Config/Check/Lookup.antt =====
-- What conformance says of the node beneath a key.
use Prim.Native.String.{String}
use text.Mathlib.TextEquality.{eq_iff}
use frehg.Prelude.{
  ◌≡◌, refl, sym, ◌∙◌, inl, inr, if◌then◌else◌, Bool, true, false, Bool-cases, Option, none, some,
  Double,
}
use frehg.Config.Document.{
  Node, Fields, Reader, str_eq, is_defined, is_map, find, sub, node_as_double,
}
use frehg.Config.Schema.{Spec, KeyedSpecs}
use frehg.Config.Check.{is_above_minimum, is_off_whole}
use frehg.Config.Check.Conforms.{Conforms, Has}

-- The specification of a key, and whether the key is required.
abbrev pub spec_of : {R : Type 0} → String → KeyedSpecs R → Option (Bool × Spec R)
spec_of key KeyedSpecs.no_keys = none
spec_of key (KeyedSpecs.keyed name required spec rest) =
    let later = spec_of key rest in if str_eq name key then some (required, spec) else later

module _ {R : Type 0} (double : Double R) (reader : Reader R) where
  -- What the first of the children says, if it is the one of the key.
  has_first :
      (key name : String) {r required : Bool} {s spec : Spec R} (rest : KeyedSpecs R)
      → str_eq name key ≡ true
      → spec_of key (KeyedSpecs.keyed name r s rest) ≡ some (required, spec)
      → (name ≡ key) × (r ≡ required) × (s ≡ spec)
  has_first key name rest same e = let k = rw same at e in ((eq_iff name key).0 same, cc, cc)

  module _ {any required : Bool} {given : Fields} (key : String) {spec : Spec R} where
    has_child :
        {children : KeyedSpecs R}
        → Has double reader any children given
        → spec_of key children ≡ some (required, spec)
        → is_defined (find key given) ≡ true
        → Conforms double reader spec (find key given)
    has_child Has.enough e d = absurd (cc)
    has_child (Has.present {name} p c rest) e d = elim (Bool-cases (str_eq name key)) [
      | inl same ↦ let (n, _, s) = has_first key name _ same e in rw (sym n, sym s) c
      | inr other ↦ has_child rest (rw other at e) d
    ]
    has_child (Has.omitted {name} p q rest) e d = elim (Bool-cases (str_eq name key)) [
      | inl same ↦ let (n, _, s) = has_first key name _ same e in absurd (let k = rw n at p in cc)
      | inr other ↦ has_child rest (rw other at e) d
    ]

    required_given :
        {children : KeyedSpecs R}
        → Has double reader any children given
        → any ≡ false
        → required ≡ true
        → spec_of key children ≡ some (required, spec)
        → is_defined (find key given) ≡ true
    required_given Has.enough off on e = absurd (cc)
    required_given (Has.present {name} p c rest) off on e = elim (Bool-cases (str_eq name key)) [
      | inl same ↦ let (n, _, s) = has_first key name _ same e in rw (sym n) p
      | inr other ↦ required_given rest off on (rw other at e)
    ]
    required_given (Has.omitted {name} p q rest) off on e = elim (Bool-cases (str_eq name key)) [
      | inl same ↦ let (n, r, s) = has_first key name _ same e in let k = q (r ∙ on) in absurd (cc)
      | inr other ↦ required_given rest off on (rw other at e)
    ]

  -- The node beneath a key that is given conforms to the specification of the key.
  pub child :
      {exactly_one required : Bool} {children : KeyedSpecs R} {node : Node} (key : String)
      {spec : Spec R}
      → Conforms double reader (Spec.map_spec exactly_one children) node
      → spec_of key children ≡ some (required, spec)
      → is_defined (sub node key) ≡ true
      → Conforms double reader spec (sub node key)
  child key (Conforms.a_map only has) e d = has_child key has e d
  child key (Conforms.a_choice only has one) e d = has_child key has e d

  -- A required key of a mapping is given.
  pub required_child :
      {children : KeyedSpecs R} {node : Node} (key : String) {spec : Spec R}
      → Conforms double reader (Spec.map_spec false children) node
      → spec_of key children ≡ some (true, spec)
      → (is_defined (sub node key) ≡ true) × Conforms double reader spec (sub node key)
  required_child key (Conforms.a_map only has) e =
      let d = required_given key has refl refl e in (d, has_child key has e d)

  pub is_map_of_map :
      {exactly_one : Bool} {children : KeyedSpecs R} {node : Node}
      → Conforms double reader (Spec.map_spec exactly_one children) node
      → is_map node ≡ true
  is_map_of_map (Conforms.a_map only has) = refl
  is_map_of_map (Conforms.a_choice only has one) = refl

  pub real_value :
      {least greatest : R} {exclusive whole : Bool} {node : Node}
      → Conforms double reader (Spec.real_spec least greatest exclusive whole) node
      → (value : R) × (node_as_double reader node ≡ some value)
        × (is_above_minimum double reader least exclusive value ≡ true)
        × (double.le value greatest ≡ true)
        × (whole ≡ true → is_off_whole double reader value ≡ false)
  real_value (Conforms.a_real {value} e low high off) = (value, e, low, high, off)
