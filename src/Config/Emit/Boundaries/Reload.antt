-- ===== src/Config/Emit/Boundaries/Reload.antt =====
-- The boundary conditions that are written back load as they were.
use Prim.Native.String.{String}
use frehg.Prelude.{
  Result, ◌≡◌, refl, sym, Bool-cases, ◌&&◌, inl, inr, ok, Bool, true, false, some, All, arith, List,
  [], ◌∷◌, Double,
}
use frehg.Config.Document.{Node, Reader}
use frehg.Config.Load.{YamlError, each, as_point}
use frehg.Config.Load.Outputs.{
  BcTarget, BcKind, BcScalar, BcForm, BcValueConfig, BoundaryConditionConfig, target_from_string,
  kind_from_string, extract_bc_value, extract_boundary_condition, extract_boundary_conditions,
}
use frehg.Config.Emit.{Writer, list_of, emit_point}
use frehg.Config.Emit.Boundaries.{
  target_name, kind_name, is_scalar_value, is_temperature, takes_value, value_fields, emit_boundary,
  emit_boundaries,
}

target_reload : (t : BcTarget) → target_from_string (target_name t) ≡ t
target_reload BcTarget.surface_target = refl
target_reload BcTarget.groundwater_top = refl
target_reload BcTarget.groundwater_bottom = refl
target_reload BcTarget.groundwater_side = refl

kind_reload : (k : BcKind) → kind_from_string (kind_name k) ≡ k
kind_reload BcKind.eta_kind = refl
kind_reload BcKind.discharge = refl
kind_reload BcKind.velocity = refl
kind_reload BcKind.outflow = refl
kind_reload BcKind.head_kind = refl
kind_reload BcKind.flux = refl
kind_reload BcKind.scalar_value = refl
kind_reload BcKind.scalar_cauchy = refl

value_eq :
    {R : Type 0} (v : BcValueConfig R) {form : BcForm} {constant eta : R} {file : String}
    → v.form ≡ form
    → v.constant ≡ constant
    → v.series_file ≡ file
    → v.hydrostatic_eta ≡ eta
    → ◌≡◌ {A = Result YamlError (BcValueConfig R)}
        (ok
          (record { form = form; constant = constant; series_file = file; hydrostatic_eta = eta }))
        (ok v)
value_eq v e1 e2 e3 e4 = rw (sym e1, sym e2, sym e3, sym e4) refl

entry_eq :
    {R : Type 0} (c : BoundaryConditionConfig R) {field : BcScalar} {value : BcValueConfig R}
    → c.scalar_field ≡ field
    → c.value ≡ value
    → ◌≡◌ {A = Result YamlError (BoundaryConditionConfig R)}
        (ok (record c { scalar_field = field; value = value }))
        (ok c)
entry_eq c e1 e2 = rw (sym e1, sym e2) refl

plain_value :
    {R : Type 0} (v : BcValueConfig R) {form : BcForm} {constant eta : R} {file : String}
    → v.form ≡ form
    → v.constant ≡ constant
    → v.series_file ≡ file
    → v.hydrostatic_eta ≡ eta
    → v ≡ record { form = form; constant = constant; series_file = file; hydrostatic_eta = eta }
plain_value v e1 e2 e3 e4 = rw (sym e1, sym e2, sym e3, sym e4) refl

both : (a b : Bool) → a && b ≡ true → b ≡ true
both a b h = ground arith

temperature_field : (s : BcScalar) → is_temperature s ≡ true → s ≡ BcScalar.temperature_scalar
temperature_field BcScalar.temperature_scalar h = refl
temperature_field BcScalar.salinity h = absurd (cc)

salinity_field :
    (kind : BcKind) (s : BcScalar)
    → (is_scalar_value kind ≡ false → s ≡ BcScalar.salinity)
    → is_scalar_value kind && is_temperature s ≡ false
    → s ≡ BcScalar.salinity
salinity_field kind BcScalar.salinity h off = refl
salinity_field kind BcScalar.temperature_scalar h off = h (ground arith)

pinned_takes : (kind : BcKind) → takes_value kind ≡ false → is_scalar_value kind ≡ false
pinned_takes BcKind.outflow h = refl
pinned_takes BcKind.scalar_cauchy h = refl
pinned_takes _ h = absurd (cc)

module _ {R : Type 0} (double : Double R) (reader : Reader R) (writer : Writer R) where
  abbrev zero : R
  zero = double.of_int 0

  -- The values that a form does not use are those that the loader gives: the scalar of another kind
  -- is the salinity, and a kind without a value has the constant 0.
  abbrev pub IsPlainValue : BcForm → BcValueConfig R → Type 0
  IsPlainValue BcForm.constant_form v = (v.series_file ≡ "") × (v.hydrostatic_eta ≡ zero)
  IsPlainValue BcForm.series_form v = (v.constant ≡ zero) × (v.hydrostatic_eta ≡ zero)
  IsPlainValue BcForm.gravity_form v =
      (v.constant ≡ zero) × (v.series_file ≡ "") × (v.hydrostatic_eta ≡ zero)
  IsPlainValue BcForm.hydrostatic_form v = (v.constant ≡ zero) × (v.series_file ≡ "")

  abbrev pub IsPlain : BoundaryConditionConfig R → Type 0
  IsPlain c =
      (is_scalar_value c.kind ≡ false → c.scalar_field ≡ BcScalar.salinity)
      × (takes_value c.kind ≡ false
          → (c.value.form ≡ BcForm.constant_form) × (c.value.constant ≡ zero))
      × IsPlainValue c.value.form c.value

  module _ (exact : (v : R) → reader.double_of (writer.text_of v) ≡ some v) where
    points_reload :
        (l : List (R × R)) → each (as_point double reader) (list_of (emit_point writer) l) ≡ ok l
    points_reload [] = refl
    points_reload ((x, y) ∷ l) = rw (exact x, exact y, points_reload l) refl

    value_reload :
        (form : BcForm) (v : BcValueConfig R)
        → v.form ≡ form
        → IsPlainValue form v
        → extract_bc_value double reader (Node.map_node (value_fields writer form v)) ≡ ok v
    value_reload BcForm.constant_form v e (a, b) = rw (exact v.constant) (value_eq v e refl a b)
    value_reload BcForm.series_form v e (a, b) = value_eq v e a refl b
    value_reload BcForm.gravity_form v e (a, b, d) = value_eq v e a b d
    value_reload BcForm.hydrostatic_form v e (a, b) =
        rw (exact v.hydrostatic_eta) (value_eq v e a b refl)

    boundary_reload :
        (c : BoundaryConditionConfig R)
        → IsPlain c
        → extract_boundary_condition double reader (emit_boundary writer c) ≡ ok c
    boundary_reload c (scalar, none_taken, plain) = elim (Bool-cases (takes_value c.kind)) [
      | inl t ↦ elim (Bool-cases (is_scalar_value c.kind && is_temperature c.scalar_field)) [
        | inl s ↦
            rw
              (
                t,
                s,
                points_reload c.polygon,
                target_reload c.target,
                kind_reload c.kind,
                value_reload c.value.form c.value refl plain,
              )
              (entry_eq c (temperature_field c.scalar_field (both _ _ s)) refl)
        | inr s ↦
            rw
              (
                t,
                s,
                points_reload c.polygon,
                target_reload c.target,
                kind_reload c.kind,
                value_reload c.value.form c.value refl plain,
              )
              (entry_eq c (salinity_field c.kind c.scalar_field scalar s) refl)
      ]
      | inr t ↦
          let (form, constant) = none_taken t in
          let (file, eta) = rw form at plain in
          rw
            (
              t,
              pinned_takes c.kind t,
              points_reload c.polygon,
              target_reload c.target,
              kind_reload c.kind,
            )
            (entry_eq c (scalar (pinned_takes c.kind t))
              (plain_value c.value form constant file eta))
    ]

    entries_reload :
        (cs : List (BoundaryConditionConfig R))
        → All IsPlain cs
        → each (extract_boundary_condition double reader) (list_of (emit_boundary writer) cs)
          ≡ ok cs
    entries_reload [] plain = refl
    entries_reload (c ∷ cs) (p, ps) = rw (boundary_reload c p, entries_reload cs ps) refl

    -- If a number that is written reads as itself, then boundary conditions that are written back load as
    -- they were, provided that the parts that their forms do not use are as the loader leaves them.
    pub boundaries_reload :
        (cs : List (BoundaryConditionConfig R))
        → All IsPlain cs
        → extract_boundary_conditions double reader (emit_boundaries writer cs) ≡ ok cs
    boundaries_reload [] plain = refl
    boundaries_reload (c ∷ cs) plain = entries_reload (c ∷ cs) plain
