-- ===== src/Surface/Step/Balance.antt =====
-- The rows of the assembled system as balances of volume.
use frehg.Prelude.{
  ℕ, ◌+◌, ◌-◌, ◌≡◌, refl, ap, ◌∙◌, true, false, Option, List, [], ◌∷◌, is_owned, Double, ◌⊕◌, ◌⊖◌,
  ◌⊗◌, IsExact,
}
use frehg.Surface.State.{
  Field2, DeviceBcList, Settings, Surface, nyl, nxl, on_west, on_east, on_south, on_north,
  for_lists,
}
use frehg.Surface.FreeSurface.{
  leg_x, leg_y, diagonal, assemble_coefficients, release_outflow, apply_outflow_corrections,
}
use frehg.Surface.System.{row_entries, is_marked}
use frehg.Surface.Step.Rows.{live, row_product, EndsAround, MeetsStages, storage_area, balance}
use frehg.Surface.Step.Terms.{fold_all, side_residual, pair_up, as_term}

module _ {R : Type 0} ⦃double : Double R⦄ (exact : IsExact double) where
  module _ (s : Settings R) (gid : ℕ → ℕ → Option ℕ) (levels : Field2 R) where
    residual :
        (u : Surface R) (j i : ℕ)
        → is_marked u j i ≡ false
        → EndsAround s gid levels u j i
        → MeetsStages s gid levels u j i
        → row_product s gid levels (row_entries s u j i) j i ⊖ (row_entries s u j i).rhs
          ≡ (u.sct j i ⊗ levels j i ⊖ u.srhs j i)
            ⊖ live (on_west s i) (u.sxm j i) ⊗ levels j (i - 1)
            ⊖ live (on_east s i) (u.sxp j i) ⊗ levels j (i + 1)
            ⊖ live (on_south s j) (u.sym_leg j i) ⊗ levels (j - 1) i
            ⊖ live (on_north s j) (u.syp j i) ⊗ levels (j + 1) i
    unfolding row_entries
    residual u j i free (west, east, south, north) (at_w, at_e, at_s, at_n) =
        rw
          (
            free,
            as_term exact (gid j (i - 1)) _ _ _ west.0,
            as_term exact (gid j (i + 1)) _ _ _ east.0,
            as_term exact (gid (j - 1) i) _ _ _ south.0,
            as_term exact (gid (j + 1) i) _ _ _ north.0,
          )
          (side_residual exact (on_north s j) (is_marked u (j + 1) i) (u.syp j i) (levels (j + 1) i)
              (u.eta_bc_value (j + 1) i) _ _ north.1 at_n
            ∙ ap (λ x. x ⊖ live (on_north s j) (u.syp j i) ⊗ levels (j + 1) i)
                (side_residual exact (on_south s j) (is_marked u (j - 1) i) (u.sym_leg j i)
                    (levels (j - 1) i) (u.eta_bc_value (j - 1) i) _ _ south.1 at_s
                  ∙ ap (λ x. x ⊖ live (on_south s j) (u.sym_leg j i) ⊗ levels (j - 1) i)
                      (side_residual exact (on_east s i) (is_marked u j (i + 1)) (u.sxp j i)
                          (levels j (i + 1)) (u.eta_bc_value j (i + 1)) _ _ east.1 at_e
                        ∙ ap (λ x. x ⊖ live (on_east s i) (u.sxp j i) ⊗ levels j (i + 1))
                            (side_residual exact (on_west s i) (is_marked u j (i - 1)) (u.sxm j i)
                              (levels j (i - 1)) (u.eta_bc_value j (i - 1)) _ _ west.1 at_w))))

  module _ (s : Settings R) where
    -- What the coefficients of a cell are, in terms of the state that they are computed from.
    HasCoefficients : Surface R → Surface R → ℕ → ℕ → Type 0
    HasCoefficients w u j i =
        (u.sct j i ≡ diagonal s w j i)
        × (u.sxp j i ≡ leg_x s w j i)
        × (u.sxm j i ≡ leg_x s w j (i - 1))
        × (u.syp j i ≡ leg_y s w j i)
        × (u.sym_leg j i ≡ leg_y s w (j - 1) i)

    assembled :
        (w : Surface R) (j i : ℕ)
        → is_owned (nyl s) (nxl s) j i ≡ true
        → HasCoefficients w (assemble_coefficients s w) j i
    unfolding HasCoefficients assemble_coefficients
    assembled w j i h = rw h (refl, refl, refl, refl, refl)

    released :
        (ls : List (DeviceBcList R)) (w u : Surface R) (j i : ℕ)
        → HasCoefficients w u j i
        → HasCoefficients w (for_lists (release_outflow s) ls u) j i
    unfolding HasCoefficients release_outflow
    released [] w u j i h = h
    released (l ∷ ls) w u j i h = released ls w (release_outflow s l u) j i h

    corrected :
        (w u : Surface R) (j i : ℕ)
        → u ≡ apply_outflow_corrections s (assemble_coefficients s w)
        → is_owned (nyl s) (nxl s) j i ≡ true
        → HasCoefficients w u j i
    unfolding apply_outflow_corrections
    corrected w u j i e h =
        let filled = assemble_coefficients s w in
        rw e (released filled.outflow_bcs w filled j i (assembled w j i h))

    -- The diagonal applied to a level.
    diagonal-mul :
        (w : Surface R) (j i : ℕ) (x : R)
        → diagonal s w j i ⊗ x
          ≡ storage_area s w j i ⊗ x
            ⊕ live (on_east s i) (leg_x s w j i) ⊗ x
            ⊕ live (on_west s i) (leg_x s w j (i - 1)) ⊗ x
            ⊕ live (on_north s j) (leg_y s w j i) ⊗ x
            ⊕ live (on_south s j) (leg_y s w (j - 1) i) ⊗ x
    unfolding diagonal
    diagonal-mul w j i x =
        let a = storage_area s w j i in
        let e = live (on_east s i) (leg_x s w j i) in
        let d = live (on_west s i) (leg_x s w j (i - 1)) in
        let n = live (on_north s j) (leg_y s w j i) in
        let b = live (on_south s j) (leg_y s w (j - 1) i) in
        ap (λ y. y ⊗ x)
          (fold_all exact a (leg_x s w j i) (leg_x s w j (i - 1)) (leg_y s w j i)
            (leg_y s w (j - 1) i) (on_east s i) (on_west s i) (on_north s j) (on_south s j))
        ∙ exact.add-mul (a ⊕ e ⊕ d ⊕ n) b x
        ∙ ap (λ y. y ⊕ b ⊗ x)
            (exact.add-mul (a ⊕ e ⊕ d) n x
              ∙ ap (λ y. y ⊕ n ⊗ x)
                  (exact.add-mul (a ⊕ e) d x ∙ ap (λ y. y ⊕ d ⊗ x) (exact.add-mul a e x)))

    -- In exact arithmetic, for an owned cell without a prescribed stage, in a numbering that ends
    -- at the edges of the domain beyond which no stage is prescribed: at levels that are the
    -- prescribed ones in the neighbours that have a stage, the row of the assembled system less
    -- its right-hand side is the volume that the cell stores less the right-hand side before the
    -- elimination, plus what leaves through the four faces; nothing leaves through an edge.
    pub row-balance :
        (gid : ℕ → ℕ → Option ℕ) (levels : Field2 R) (w u : Surface R) (j i : ℕ)
        → u ≡ apply_outflow_corrections s (assemble_coefficients s w)
        → is_owned (nyl s) (nxl s) j i ≡ true
        → is_marked u j i ≡ false
        → EndsAround s gid levels u j i
        → MeetsStages s gid levels u j i
        → row_product s gid levels (row_entries s u j i) j i ⊖ (row_entries s u j i).rhs
          ≡ balance s w u levels j i
    unfolding HasCoefficients
    row-balance gid levels w u j i made owned free ends stages =
        let (center, east, west, north, south) = corrected w u j i made owned in
        let here = levels j i in
        let a = storage_area s w j i in
        let e = live (on_east s i) (leg_x s w j i) in
        let d = live (on_west s i) (leg_x s w j (i - 1)) in
        let n = live (on_north s j) (leg_y s w j i) in
        let b = live (on_south s j) (leg_y s w (j - 1) i) in
        let at_w = levels j (i - 1) in
        let at_e = levels j (i + 1) in
        let at_s = levels (j - 1) i in
        let at_n = levels (j + 1) i in
        residual s gid levels u j i free ends stages
        ∙ rw (center, east, west, north, south)
            (ap (λ y. y ⊖ u.srhs j i ⊖ d ⊗ at_w ⊖ e ⊗ at_e ⊖ b ⊗ at_s ⊖ n ⊗ at_n)
                (diagonal-mul w j i here)
              ∙ pair_up exact (a ⊗ here) (e ⊗ here) (d ⊗ here) (n ⊗ here) (b ⊗ here) (u.srhs j i)
                  (e ⊗ at_e) (d ⊗ at_w) (n ⊗ at_n) (b ⊗ at_s)
              ∙ rw
                  (
                    exact.mul-sub e here at_e,
                    exact.mul-sub d here at_w,
                    exact.mul-sub n here at_n,
                    exact.mul-sub b here at_s,
                  )
                  refl)
