-- ===== src/Surface/Step/Bed.antt =====
-- The levels that a step leaves.
use frehg.Prelude.{
  ℕ, ◌≡◌, refl, ◌⊎◌, inl, inr, true, false, if◌then◌else◌, Option, Bool-cases, Result, ok, fatal,
  ◌>>=◌, is_owned, Double, ◌⊖◌, ◌≺◌,
}
use frehg.Linear.System.{Ksp}
use frehg.Surface.State.{Settings, Surface, nyl, nxl}
use frehg.Surface.System.{Flow, fill_and_solve}
use frehg.Surface.Fluxes.{accumulate_boundary_fluxes}
use frehg.Surface.Momentum.{Elementary}
use frehg.Surface.Sources.{
  rain_kernel, bulk_evaporation_kernel, evaporation_kernel, final_clamp, evap_rain,
}
use frehg.Surface.FreeSurface.{enforce_surf_bc}
use frehg.Surface.WetDry.{cfl_limiter}
use frehg.Surface.Step.{Exchanger, assemble, conclude, solve_free_surface}

returned :
    {E A B : Type 0} (m : Result E A) (f : A → B) (b : B)
    → (m >>= λ a. ok (f a)) ≡ ok b
    → (a : A) × (b ≡ f a)
returned (ok a) f b e = (a, let k = e in cc)
returned (fatal x) f b e = absurd (let k = e in cc)

module _ {R : Type 0} ⦃double : Double R⦄ (s : Settings R) where
  -- An owned cell is dry, its level on the bed, or it is deeper than the least depth.
  abbrev pub DryOrDeep : Surface R → Type 0
  DryOrDeep u =
      (j i : ℕ)
      → is_owned (nyl s) (nxl s) j i ≡ true
      → (u.eta j i ≡ u.bottom j i) ⊎ (u.eta j i ⊖ u.bottom j i ≺ s.min_depth ≡ false)

  clamp-DryOrDeep : (u : Surface R) → DryOrDeep (final_clamp s u)
  unfolding final_clamp
  clamp-DryOrDeep u j i h = elim (Bool-cases (u.eta j i ⊖ u.bottom j i ≺ s.min_depth)) [
    | inl e ↦ inl (rw (h, e) refl)
    | inr e ↦ inr (rw (h, e) e)
  ]

  evap_rain-DryOrDeep : (u : Surface R) → DryOrDeep (evap_rain s u)
  unfolding evap_rain
  evap_rain-DryOrDeep u =
      let rained = rain_kernel s u in
      clamp-DryOrDeep (
        if s.bulk_evaporation
        then bulk_evaporation_kernel s rained
        else evaporation_kernel s rained)

  conclude-DryOrDeep : (u : Surface R) → DryOrDeep (conclude s u)
  unfolding conclude
  conclude-DryOrDeep u =
      evap_rain-DryOrDeep (cfl_limiter s (enforce_surf_bc s true (accumulate_boundary_fluxes s u)))

  module _ (lib : Elementary R) (halo : Exchanger R) {K : Type 0} (petsc : Ksp R K)
      (all_sum : ℕ → ℕ) (gid : ℕ → ℕ → Option ℕ) (offset : ℕ) where
    -- After a free-surface step that returns, the level of each owned cell is on the bed or not
    -- below the least depth above it.
    pub solve_free_surface-DryOrDeep :
        (f g : Flow R K)
        → solve_free_surface s lib halo petsc all_sum gid offset f ≡ ok g
        → DryOrDeep g.surface
    unfolding solve_free_surface
    solve_free_surface-DryOrDeep f g e =
        let solved =
          fill_and_solve s gid offset petsc all_sum
            (record f { surface = assemble s lib halo f.surface }) in
        let (h, same) = returned solved (λ h. record h { surface = conclude s h.surface }) g e in
        rw same (conclude-DryOrDeep h.surface)
