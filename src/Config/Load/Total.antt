-- ===== src/Config/Load/Total.antt =====
-- A section that conforms to the schema loads: none of its conversions throws.
pub mod Steps
pub mod Times
use Prim.Native.String.{String}
use mathlib.Core.List.{Memᴰ}
use frehg.Prelude.{
  ◌≡◌, refl, inl, inr, Result, ok, ◌>>=◌, if◌then◌else◌, Bool, true, false, Bool-cases, some, List,
  [], ◌∷◌, Double,
}
use frehg.Config.Document.{Node, Items, Reader, is_defined, sub, node_as_double}
use frehg.Config.Schema.{Spec, KeyedSpecs, polygon}
use frehg.Config.Check.Conforms.{Conforms, Each}
use frehg.Config.Check.Lookup.{spec_of, child, required_child}
use frehg.Config.Load.{
  YamlError, as_text, value_or, text_is, each, entries, as_real, as_flag, real_at, flag_at,
  as_point, points,
}

-- A conversion that returns, with a value that has a property.
abbrev pub Returns : {A : Type 0} → (A → Type 0) → Result YamlError A → Type 0
Returns {A} P m = (a : A) × (m ≡ ok a) × P a

abbrev pub Anything : {A : Type 0} → A → Type 0
Anything a = Unit

pub then_loads :
    {A B : Type 0} {P : A → Type 0} {Q : B → Type 0} {m : Result YamlError A}
    (f : A → Result YamlError B)
    → Returns P m
    → ((a : A) → P a → Returns Q (f a))
    → Returns Q (m >>= f)
then_loads f (a, e, p) next = let (b, e', q) = next a p in (b, rw e e', q)

module _ {R : Type 0} (double : Double R) (reader : Reader R) where
  pub real_loads :
      {least greatest : R} {exclusive whole : Bool} {node : Node}
      → Conforms double reader (Spec.real_spec least greatest exclusive whole) node
      → Returns (λ v. node_as_double reader node ≡ some v) (as_real double reader node)
  real_loads (Conforms.a_real {value} e low high off) = (value, rw e refl, e)

  pub flag_loads :
      {node : Node}
      → Conforms double reader Spec.bool_spec node
      → Returns Anything (as_flag double reader node)
  flag_loads (Conforms.a_bool {value} e) = (value, rw e refl, tt)

  pub text_loads :
      {must_exist : Bool} {node : Node}
      → Conforms double reader (Spec.string_spec must_exist) node
      → Returns Anything (as_text node)
  text_loads (Conforms.a_string {s} exists) = (s, refl, tt)

  pub choice_loads :
      {allowed : List String} {node : Node}
      → Conforms double reader (Spec.enum_spec allowed) node
      → Returns Anything (as_text node)
  choice_loads (Conforms.an_enum {s} m) = (s, refl, tt)

  -- An optional child loads if what conforms to its specification does.
  pub optional_loads :
      {A : Type 0} {exactly_one required : Bool} {children : KeyedSpecs R} {node : Node}
      {spec : Spec R} (convert : Node → Result YamlError A) (key : String) (fallback : A)
      → Conforms double reader (Spec.map_spec exactly_one children) node
      → spec_of key children ≡ some (required, spec)
      → (Conforms double reader spec (sub node key) → Returns Anything (convert (sub node key)))
      → Returns Anything (value_or convert (sub node key) fallback)
  optional_loads {node} convert key fallback c e loads =
      elim (Bool-cases (is_defined (sub node key))) [
        | inl d ↦
            let (a, e', _) = loads (child double reader key c e d) in (a, rw (d, value_or) e', tt)
        | inr d ↦ (fallback, rw (d, value_or) refl, tt)
      ]

  any_real :
      {least greatest : R} {exclusive whole : Bool} {node : Node}
      → Conforms double reader (Spec.real_spec least greatest exclusive whole) node
      → Returns Anything (as_real double reader node)
  any_real c = let (v, e, _) = real_loads c in (v, e, tt)

  module _ {exactly_one required : Bool} {children : KeyedSpecs R} {node : Node} (key : String)
      (c : Conforms double reader (Spec.map_spec exactly_one children) node) where
    pub real_at_loads :
        {least greatest : R} {exclusive whole : Bool} (fallback : R)
        → spec_of key children ≡ some (required, Spec.real_spec least greatest exclusive whole)
        → Returns Anything (real_at double reader node key fallback)
    real_at_loads fallback e = optional_loads (as_real double reader) key fallback c e any_real

    pub flag_at_loads :
        (fallback : Bool)
        → spec_of key children ≡ some (required, Spec.bool_spec)
        → Returns Anything (flag_at double reader node key fallback)
    flag_at_loads fallback e = optional_loads (as_flag double reader) key fallback c e flag_loads

    pub choice_at_loads :
        (fallback wanted : String) {allowed : List String}
        → spec_of key children ≡ some (required, Spec.enum_spec allowed)
        → Returns Anything (text_is (sub node key) fallback wanted)
    choice_at_loads fallback wanted e =
        then_loads _ (optional_loads as_text key fallback c e choice_loads) (λ s _. (_, refl, tt))

  points_each :
      {items : Items}
      → Each double reader Spec.point2_spec items
      → Returns Anything (each (as_point double reader) items)
  points_each Each.done = ([], refl, tt)
  points_each (Each.more (Conforms.a_point {a} {b} ea eb) rest) =
      let (l, e, _) = points_each rest in ((a, b) ∷ l, rw (ea, eb, e) refl, tt)

  points_loads :
      {least : _} {node : Node}
      → Conforms double reader (Spec.sequence_spec Spec.point2_spec least) node
      → Returns Anything (entries (as_point double reader) node)
  points_loads (Conforms.a_sequence enough each) = points_each each

  pub polygon_loads :
      {node : Node}
      → Conforms double reader (polygon double) node
      → Returns Anything (points double reader node)
  polygon_loads c = points_loads (required_child double reader "polygon" c refl).1
