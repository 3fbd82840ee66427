-- ===== src/Config/Cross/Boundaries/Coupled.antt =====
-- What a boundary condition on the top of the soil is in a coupled run.
use Prim.Native.String.{String}
use mathlib.Core.List.{Memᴰ}
use mathlib.Core.List.Memᴰ.{not-nil}
use frehg.Prelude.{◌≡◌, refl, Bool, true, List, [], ◌∷◌, Double, if◌then◌else◌}
use frehg.Config.Document.{Node, Reader, is_map, sub, text_or}
use frehg.Config.Schema.{Spec}
use frehg.Config.Schema.Sections.{bc_entry}
use frehg.Config.Check.{Segment, Place, join_path}
use frehg.Config.Check.Conforms.{Conforms}
use frehg.Config.Check.Leaves.{append-nil_inv}
use frehg.Config.Check.Lookup.{required_child}
use frehg.Config.Cross.{Modules}
use frehg.Config.Cross.Boundaries.{
  refuse_at, target_of, kind_of, check_target, check_pinned, check_cauchy, check_scalar,
  check_value_presence, check_value, check_boundary,
}

abbrev kinds : List String
kinds =
    "eta" ∷ "discharge" ∷ "velocity" ∷ "outflow" ∷ "head" ∷ "flux" ∷ "scalar_value"
    ∷ "scalar_cauchy" ∷ []

abbrev coupled : Bool → Bool → Modules
coupled transport temperature = record {
  surface_water = true;
  groundwater = true;
  transport = transport;
  temperature = temperature;
}

scalar_value_refused :
    (tr tp : Bool) (where_ : Place) (bc : Node)
    → check_scalar (coupled tr tp) where_ bc "groundwater_top" "scalar_value" ≡ []
    → ⊥
scalar_value_refused tr tp where_ bc h =
    let (h1, _) = append-nil_inv _ [] h in
    let (_, h2) =
      append-nil_inv _
        (check_pinned (coupled tr tp) where_ "groundwater_top"
          (text_or "salinity" (sub bc "scalar")))
        h1 in
    let (_, h3) =
      append-nil_inv _
        (refuse_at where_ true "scalar_value on groundwater_top is rejected in coupled runs") h2 in
    cc

scalar_cauchy_refused :
    (tr tp : Bool) (where_ : Place) (bc : Node)
    → check_scalar (coupled tr tp) where_ bc "groundwater_top" "scalar_cauchy" ≡ []
    → ⊥
scalar_cauchy_refused tr tp where_ bc h =
    let (_, h2) = append-nil_inv _ (check_cauchy (coupled tr tp) where_ "groundwater_top") h in
    let (_, h3) =
      append-nil_inv _
        (refuse_at where_ true "kind scalar_cauchy applies to uncoupled groundwater runs only")
        h2 in
    cc

later_kind :
    (tr tp : Bool) (where_ : Place) (bc : Node) (kind : String)
    → Memᴰ kind ("head" ∷ "flux" ∷ "scalar_value" ∷ "scalar_cauchy" ∷ [])
    → check_target (coupled tr tp) where_ "groundwater_top" kind ≡ []
    → check_scalar (coupled tr tp) where_ bc "groundwater_top" kind ≡ []
    → kind ≡ "flux"
later_kind tr tp where_ bc kind (Memᴰ.head e) h1 h2 = absurd (let k = rw e at h1 in cc)
later_kind tr tp where_ bc kind (Memᴰ.tail (Memᴰ.head e)) h1 h2 = e
later_kind tr tp where_ bc kind (Memᴰ.tail (Memᴰ.tail (Memᴰ.head e))) h1 h2 =
    absurd (scalar_value_refused tr tp where_ bc (rw e at h2))
later_kind tr tp where_ bc kind (Memᴰ.tail (Memᴰ.tail (Memᴰ.tail (Memᴰ.head e)))) h1 h2 =
    absurd (scalar_cauchy_refused tr tp where_ bc (rw e at h2))
later_kind tr tp where_ bc kind (Memᴰ.tail (Memᴰ.tail (Memᴰ.tail (Memᴰ.tail m)))) h1 h2 =
    absurd (not-nil m)

listed :
    {R : Type 0} (double : Double R) (reader : Reader R) (allowed : List String) (node : Node)
    → Conforms double reader (Spec.enum_spec allowed) node
    → Memᴰ (text_or "" node) allowed
listed double reader allowed node (Conforms.an_enum m) = m

kind_listed :
    {R : Type 0} (double : Double R) (reader : Reader R) (bc : Node)
    → Conforms double reader (bc_entry double) bc
    → Memᴰ (kind_of bc) kinds
kind_listed double reader bc c =
    listed double reader kinds (sub bc "kind") (required_child double reader "kind" c refl).1

-- Every kind but one is refused on the top of a coupled run.
top_kind :
    (tr tp : Bool) (where_ : Place) (bc : Node) (kind : String)
    → Memᴰ kind kinds
    → check_target (coupled tr tp) where_ "groundwater_top" kind ≡ []
    → check_scalar (coupled tr tp) where_ bc "groundwater_top" kind ≡ []
    → kind ≡ "flux"
top_kind tr tp where_ bc kind (Memᴰ.head e) h1 h2 = absurd (let k = rw e at h1 in cc)
top_kind tr tp where_ bc kind (Memᴰ.tail (Memᴰ.head e)) h1 h2 = absurd (let k = rw e at h1 in cc)
top_kind tr tp where_ bc kind (Memᴰ.tail (Memᴰ.tail (Memᴰ.head e))) h1 h2 =
    absurd (let k = rw e at h1 in cc)
top_kind tr tp where_ bc kind (Memᴰ.tail (Memᴰ.tail (Memᴰ.tail (Memᴰ.head e)))) h1 h2 =
    absurd (let k = rw e at h1 in cc)
top_kind tr tp where_ bc kind (Memᴰ.tail (Memᴰ.tail (Memᴰ.tail (Memᴰ.tail m)))) h1 h2 =
    later_kind tr tp where_ bc kind m h1 h2

-- An entry of a conforming document that applies to the top of the soil, and that no rule refuses in a
-- run with both flow modules, is of kind flux.
pub coupled_top_is_flux :
    {R : Type 0} (double : Double R) (reader : Reader R) (tr tp : Bool) (where_ : Place) (bc : Node)
    → Conforms double reader (bc_entry double) bc
    → check_boundary reader (coupled tr tp) where_ bc ≡ []
    → target_of bc ≡ "groundwater_top"
    → kind_of bc ≡ "flux"
coupled_top_is_flux double reader tr tp where_ bc c h top =
    let (h1, _) =
      append-nil_inv _
        (if is_map (sub bc "value")
          then check_value reader (join_path where_ (Segment.key "value")) (sub bc "value")
              (target_of bc) (kind_of bc)
          else [])
        h in
    let (h2, _) = append-nil_inv _ (check_value_presence where_ bc (kind_of bc)) h1 in
    let (target, scalar) =
      append-nil_inv (check_target (coupled tr tp) where_ (target_of bc) (kind_of bc))
        (check_scalar (coupled tr tp) where_ bc (target_of bc) (kind_of bc)) h2 in
    top_kind tr tp where_ bc (kind_of bc) (kind_listed double reader bc c) (rw top at target)
      (rw top at scalar)
