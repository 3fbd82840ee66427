-- ===== src/Surface/Fluxes.antt =====
-- swe/FreeSurface.cpp: the volume that leaves through the edges of the domain and into the cells of
-- a prescribed stage, `accumulateBoundaryFluxes`.
use frehg.Prelude.{ℕ, ◌+◌, ◌-◌, Bool, if◌then◌else◌, Double, ◌⊕◌, ◌⊖◌, ◌⊗◌, zero_real, negate}
use frehg.Surface.State.{Settings, Surface, reduce, on_west, on_east, on_south, on_north}
use frehg.Surface.System.{is_marked}

module _ {R : Type 0} ⦃double : Double R⦄ (s : Settings R) where
  -- The explicit flux through the faces to the east and to the north of a cell.
  abbrev pub flux_x : Surface R → ℕ → ℕ → R
  flux_x u j i = s.dt ⊗ u.asx j i ⊗ u.ex j i

  abbrev pub flux_y : Surface R → ℕ → ℕ → R
  flux_y u j i = s.dt ⊗ u.asy j i ⊗ u.ey j i

  abbrev pub when_add : Bool → R → R → R
  when_add test x sum = if test then sum ⊕ x else sum

  abbrev pub when_sub : Bool → R → R → R
  when_sub test x sum = if test then sum ⊖ x else sum

  -- What one cell adds to the boundary outflow.
  unfoldable pub boundary_flux : Surface R → ℕ → ℕ → R → R
  boundary_flux u j i sum =
      let rise = λ (b a : ℕ). u.eta_bc_value b a ⊖ u.eta j i in
      if is_marked u j i
      then sum
      else when_add (is_marked u (j - 1) i)
          (negate s.dt ⊗ u.asy (j - 1) i ⊗ u.ey (j - 1) i ⊖ u.sym_leg j i ⊗ rise (j - 1) i)
          (when_add (is_marked u (j + 1) i) (flux_y u j i ⊖ u.syp j i ⊗ rise (j + 1) i) (
            when_add (is_marked u j (i - 1))
              (negate s.dt ⊗ u.asx j (i - 1) ⊗ u.ex j (i - 1) ⊖ u.sxm j i ⊗ rise j (i - 1))
              (when_add (is_marked u j (i + 1)) (flux_x u j i ⊖ u.sxp j i ⊗ rise j (i + 1)) (
                when_add (on_north s j) (flux_y u j i) (
                  when_sub (on_south s j) (flux_y u (j - 1) i) (
                    when_add (on_east s i) (flux_x u j i)
                      (when_sub (on_west s i) (flux_x u j (i - 1)) sum)))))))

  unfoldable pub accumulate_boundary_fluxes : Surface R → Surface R
  unfolding boundary_flux
  accumulate_boundary_fluxes u = record u {
    audit = record u.audit {
      boundary_outflow = u.audit.boundary_outflow ⊕ reduce s (λ j i. boundary_flux u j i) zero_real;
    };
  }
