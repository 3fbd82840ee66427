-- ===== src/Checks/Reloads.antt =====
-- `resolvedConfigYaml` of core/Config.cpp, with numbers written as tallies.
use Prim.Native.String.{String}
use frehg.Prelude.{ℕ, zero, suc, ◌≡◌, refl, ap, ok, true, none, some, List, [], ◌∷◌}
use frehg.Config.Document.{Reader}
use frehg.Config.Load.Outputs.{
  BcTarget, BcKind, BcScalar, BcForm, BoundaryConditionConfig, extract_boundary_conditions,
}
use frehg.Config.Emit.{Writer}
use frehg.Config.Emit.Boundaries.{emit_boundaries}
use frehg.Config.Emit.Boundaries.Reload.{IsPlain, boundaries_reload}
use frehg.Checks.Numbers.{whole}

abbrev tally : ℕ → String
tally zero = String.[]
tally (suc n) = String.◌∷◌ "i" (tally n)

abbrev count_tally : String → ℕ
count_tally String.[] = 0
count_tally (String.◌∷◌ c s) = suc (count_tally s)

abbrev tallies : Reader ℕ
tallies = record {
  double_of = λ s. some (count_tally s);
  bool_of = λ s. none;
  int_of = λ s. none;
  exists = λ s. true;
}

abbrev strokes : Writer ℕ
strokes = record { text_of = tally; text_of_int = λ n. "" }

count_tally_lem : (n : ℕ) → count_tally (tally n) ≡ n
count_tally_lem zero = refl
count_tally_lem (suc n) = ap suc (count_tally_lem n)

abbrev tide : BoundaryConditionConfig ℕ
tide = record {
  name = "tide";
  polygon = (0, 0) ∷ (9, 0) ∷ (9, 5) ∷ [];
  target = BcTarget.groundwater_side;
  kind = BcKind.head_kind;
  scalar_field = BcScalar.salinity;
  value = record {
    form = BcForm.hydrostatic_form;
    constant = 0;
    series_file = "";
    hydrostatic_eta = 7;
  };
}

abbrev warm : BoundaryConditionConfig ℕ
warm = record {
  name = "warm";
  polygon = (1, 1) ∷ (2, 1) ∷ (2, 2) ∷ [];
  target = BcTarget.groundwater_bottom;
  kind = BcKind.scalar_value;
  scalar_field = BcScalar.temperature_scalar;
  value = record {
    form = BcForm.constant_form;
    constant = 12;
    series_file = "";
    hydrostatic_eta = 0;
  };
}

abbrev conditions : List (BoundaryConditionConfig ℕ)
conditions = tide ∷ warm ∷ []

tide-IsPlain : IsPlain whole tallies strokes tide
tide-IsPlain = (λ h. refl, λ h. absurd (cc), (refl, refl))

warm-IsPlain : IsPlain whole tallies strokes warm
warm-IsPlain = (λ h. absurd (cc), λ h. absurd (cc), (refl, refl))

boundaries_reload_example :
    extract_boundary_conditions whole tallies (emit_boundaries strokes conditions) ≡ ok conditions
boundaries_reload_example =
    boundaries_reload whole tallies strokes (λ v. ap some (count_tally_lem v)) conditions
      (tide-IsPlain, (warm-IsPlain, tt))
