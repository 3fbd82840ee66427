-- ===== src/Surface/Sources.antt =====
-- swe/SurfaceSources.cpp: rain, evaporation and the last clamp of a step.
use frehg.Prelude.{ℕ, Bool, if◌then◌else◌, Double, ◌⊕◌, ◌⊖◌, ◌⊗◌, ◌≺◌, zero_real, fmin}
use frehg.Surface.State.{Settings, Surface, cell_area, owned_kernel, reduce}

module _ {R : Type 0} ⦃double : Double R⦄ (s : Settings R) where
  unfoldable pub rain_kernel : Surface R → Surface R
  rain_kernel u = record u {
    eta = owned_kernel s (λ j i. u.eta j i ⊕ u.rain ⊗ s.dt ⊗ u.rain_mask j i) u.eta;
    audit = record u.audit {
      rain_volume =
          u.audit.rain_volume
          ⊕ reduce s (λ j i sum. sum ⊕ u.rain ⊗ s.dt ⊗ u.rain_mask j i ⊗ cell_area s) zero_real;
    };
  }

  -- What the bulk rate takes from a cell, no more than its depth.
  abbrev pub removed : Surface R → ℕ → ℕ → R
  removed u j i = fmin (u.evap ⊗ s.dt) (u.eta j i ⊖ u.bottom j i)

  abbrev pub is_wet : Surface R → ℕ → ℕ → Bool
  is_wet u j i = zero_real ≺ u.eta j i ⊖ u.bottom j i

  unfoldable pub bulk_evaporation_kernel : Surface R → Surface R
  bulk_evaporation_kernel u = record u {
    eta =
        owned_kernel s (λ j i. if is_wet u j i then u.eta j i ⊖ removed u j i else u.eta j i) u.eta;
    audit = record u.audit {
      evap_volume =
          u.audit.evap_volume
          ⊕ reduce s (λ j i sum. if is_wet u j i then sum ⊕ removed u j i ⊗ cell_area s else sum)
              zero_real;
    };
  }

  unfoldable pub evaporation_kernel : Surface R → Surface R
  evaporation_kernel u = record u {
    eta = owned_kernel s (λ j i. u.eta j i ⊖ u.evap ⊗ s.dt ⊗ u.evap_mask j i) u.eta;
    audit = record u.audit {
      evap_volume =
          u.audit.evap_volume
          ⊕ reduce s (λ j i sum. sum ⊕ u.evap ⊗ s.dt ⊗ u.evap_mask j i ⊗ cell_area s) zero_real;
    };
  }

  abbrev is_thin : Surface R → ℕ → ℕ → Bool
  is_thin u j i = u.eta j i ⊖ u.bottom j i ≺ s.min_depth

  unfoldable pub final_clamp : Surface R → Surface R
  final_clamp u = record u {
    eta = owned_kernel s (λ j i. if is_thin u j i then u.bottom j i else u.eta j i) u.eta;
    audit = record u.audit {
      clamp_volume =
          u.audit.clamp_volume
          ⊕ reduce s
              (λ j i acc.
                if is_thin u j i then acc ⊕ (u.bottom j i ⊖ u.eta j i) ⊗ cell_area s else acc)
              zero_real;
    };
  }

  unfoldable pub evap_rain : Surface R → Surface R
  unfolding rain_kernel bulk_evaporation_kernel evaporation_kernel final_clamp
  evap_rain u =
      let rained = rain_kernel u in
      final_clamp
        (if s.bulk_evaporation then bulk_evaporation_kernel rained else evaporation_kernel rained)
