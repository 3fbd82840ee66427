-- ===== src/Config/Schema.antt =====
-- The schema of core/ConfigSchema.cpp: its nodes, the abbreviations that build them, and the tree of
-- the whole document.
pub mod Sections
pub mod Root
use Prim.Native.String.{String}
use frehg.Prelude.{ℕ, Bool, true, false, List, [], ◌∷◌, Double}

-- A `Spec` with the members that its type uses; `required` stands with the key.
mutual
  pub data Spec (R : Type 0) : Type 0 where
    map_spec : Bool → KeyedSpecs R → Spec R
    bool_spec : Spec R
    int_spec : R → Spec R
    real_spec : R → R → Bool → Bool → Spec R
    string_spec : Bool → Spec R
    enum_spec : List String → Spec R
    int_or_auto_spec : R → Spec R
    sequence_spec : Spec R → ℕ → Spec R
    point2_spec : Spec R

  pub data KeyedSpecs (R : Type 0) : Type 0 where
    no_keys : KeyedSpecs R
    keyed : String → Bool → Spec R → KeyedSpecs R → KeyedSpecs R

infixr 5 ◌⊕◌
abbrev pub ◌⊕◌ : {R : Type 0} → (KeyedSpecs R → KeyedSpecs R) → KeyedSpecs R → KeyedSpecs R
f ⊕ rest = f rest

abbrev pub need : {R : Type 0} → String → Spec R → KeyedSpecs R → KeyedSpecs R
need key spec rest = KeyedSpecs.keyed key true spec rest

abbrev pub may : {R : Type 0} → String → Spec R → KeyedSpecs R → KeyedSpecs R
may key spec rest = KeyedSpecs.keyed key false spec rest

abbrev pub map : {R : Type 0} → KeyedSpecs R → Spec R
map children = Spec.map_spec false children

abbrev pub one_of : {R : Type 0} → KeyedSpecs R → Spec R
one_of children = Spec.map_spec true children

abbrev pub text : {R : Type 0} → Spec R
text = Spec.string_spec false

abbrev pub path : {R : Type 0} → Spec R
path = Spec.string_spec true

module _ {R : Type 0} (double : Double R) where
  abbrev pub nought : R
  nought = double.of_int 0

  abbrev pub real : Spec R
  real = Spec.real_spec double.neg_infinity double.infinity false false

  abbrev pub real_positive : Spec R
  real_positive = Spec.real_spec nought double.infinity true false

  abbrev pub real_non_negative : Spec R
  real_non_negative = Spec.real_spec nought double.infinity false false

  abbrev pub integer_seconds : R → Spec R
  integer_seconds least = Spec.real_spec least double.infinity false true

  abbrev pub int_or_auto : Spec R
  int_or_auto = Spec.int_or_auto_spec (double.of_int 1)

  abbrev pub polygon : Spec R
  polygon = map (need "polygon" (Spec.sequence_spec Spec.point2_spec 3) ⊕ KeyedSpecs.no_keys)

  abbrev pub file_or_constant : Spec R
  file_or_constant = one_of (may "constant" real ⊕ may "file" path ⊕ KeyedSpecs.no_keys)

  abbrev pub file_map : Spec R
  file_map = map (need "file" path ⊕ KeyedSpecs.no_keys)

  abbrev pub series_or_constant : Spec R
  series_or_constant = one_of (may "constant" real ⊕ may "series" file_map ⊕ KeyedSpecs.no_keys)
