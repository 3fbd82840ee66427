-- ===== src/Coupling/Step/Window.antt =====
-- The subcycled window of `Coupler::step` in coupling/Coupler.cpp.
use frehg.Prelude.{
  ℕ, zero, suc, ◌+◌, ◌≤◌, ◌<◌, ◌≡◌, refl, sym, ◌∙◌, arith, ◌⊎◌, inl, inr, true, false, Double,
  Bool-cases, Result, ok, fatal, ◌>>=◌, Failure, IsRaised, Ends, Result-cases, bind-Ends, map-Ends,
}
use frehg.Coupling.Exchange.{apply_seepage}
use frehg.Coupling.Step.{
  World, Solvers, Coupler, take_gw_step, fits_window, substep, subcycle, advance, open_window,
  close_window, step,
}

-- The errors in which a call of a solver ends.
pub data IsSolverError {E R V : Type 0} (solvers : Solvers E R V) (e : E) : Type 0 where
  of_begin : {t : R} {w : World R V} → solvers.begin_step t w ≡ fatal e → IsSolverError solvers e
  of_surface : {w : World R V} → solvers.solve_free_surface w ≡ fatal e → IsSolverError solvers e
  of_velocity : {w : World R V} → solvers.update_velocity w ≡ fatal e → IsSolverError solvers e
  of_subsurface :
      {t dtg : R} {w : World R V} → solvers.gw_step t dtg w ≡ fatal e → IsSolverError solvers e

module _ {E R V : Type 0} (double : Double R) (solvers : Solvers E R V) (t : R)
    (Clock Legal : R → Type 0) (rounds : R → ℕ)
    (next-Legal : (tt dtg : R) (w w' : World R V)
      → solvers.gw_step tt dtg w ≡ ok w'
      → Legal (solvers.next_dt w'))
    (advances : (x dtg : R)
      → Clock x
      → Legal dtg
      → double.le (double.add x dtg) (double.add t (double.scaled 1 9)) ≡ true
      → Clock (double.add x dtg) × (rounds (double.add x dtg) < rounds x)) where
  abbrev Returns : {A : Type 0} → (A → Type 0) → Result (Failure E) A → Type 0
  Returns = Ends (IsRaised (IsSolverError solvers))

  -- The end of a window: no further step fits, the step it leaves is legal, and the rounds bound the
  -- number of steps.
  abbrev Closed : Coupler R V → Coupler R V → Type 0
  Closed s out =
      (fits_window double solvers t out ≡ false)
      × Legal out.dtg
      × (out.last_surface_dt ≡ s.last_surface_dt)
      × (out.audit.substeps ≤ s.audit.substeps + rounds s.t_sub)

  -- What one subsurface step leaves.
  abbrev Stepped : Coupler R V → Coupler R V → Type 0
  Stepped s u =
      Legal u.dtg
      × (u.t_sub ≡ s.t_sub)
      × (u.last_surface_dt ≡ s.last_surface_dt)
      × (u.audit.substeps ≡ s.audit.substeps + 1)

  take_gw_step-Stepped :
      (tt dtg : R) (s : Coupler R V) → Returns (Stepped s) (take_gw_step double solvers tt dtg s)
  unfolding take_gw_step
  take_gw_step-Stepped time dtg s = elim (Result-cases (solvers.gw_step time dtg s.world)) [
    | inl (w, h) ↦ rw h (Ends.returns (next-Legal time dtg s.world w h, refl, refl, refl))
    | inr (e, h) ↦ rw h (Ends.fails (IsRaised.as_raised (IsSolverError.of_subsurface h)))
  ]

  subcycle_total :
      (fuel : ℕ) (s : Coupler R V)
      → rounds s.t_sub < fuel
      → Clock s.t_sub
      → Legal s.dtg
      → Returns (Closed s) (subcycle double solvers fuel t s)
  unfolding subcycle fits_window substep
  subcycle_total zero s lt clock legal = absurd (omega arith)
  subcycle_total (suc fuel) s lt clock legal = elim (Bool-cases (fits_window double solvers t s)) [
    | inr e ↦ rw e (Ends.returns (e, legal, refl, omega arith))
    | inl e ↦
        let tt = double.add s.t_sub s.dtg in
        let (later, fewer) = advances s.t_sub s.dtg clock legal e in
        rw e (
          bind-Ends (subcycle double solvers fuel t)
            (take_gw_step-Stepped tt s.dtg (record s { t_sub = tt }))
            (λ u (left, at, last, count).
              map-Ends (subcycle_total fuel u (rw at (omega arith)) (rw at later) left)
                (λ out (stop, next, same, most). (
                  stop,
                  next,
                  same ∙ last,
                  let bound = rw at at most in omega (arith, count, bound),
                ))))
  ]

  -- The end of a step.
  abbrev pub Stands : Coupler R V → R → Coupler R V → Type 0
  Stands s dt out =
      (out.last_surface_dt ≡ dt)
      × Legal out.dtg
      × (((s.sync ≡ true) × (out.t_sub ≡ t) × (out.audit.substeps ≡ 1))
          ⊎ ((s.sync ≡ false)
              × (fits_window double solvers t out ≡ false)
              × (out.audit.substeps ≤ rounds s.t_sub)))

  -- What the opening of the window leaves.
  abbrev Opened : Coupler R V → R → Coupler R V → Type 0
  Opened s dt u =
      (u.sync ≡ s.sync)
      × (u.t_sub ≡ s.t_sub)
      × (u.dtg ≡ s.dtg)
      × (u.last_surface_dt ≡ dt)
      × (u.audit.substeps ≡ 0)

  open_window-Opened :
      (nyl nxl : ℕ) (dt : R) (s : Coupler R V)
      → Returns (Opened s dt) (open_window double solvers nyl nxl t dt s)
  unfolding open_window
  open_window-Opened nyl nxl dt s =
      elim (Result-cases (solvers.begin_step t (solvers.set_time_step dt s.world))) [
        | inr (e, h) ↦ rw h (Ends.fails (IsRaised.as_raised (IsSolverError.of_begin h)))
        | inl (begun, h) ↦ elim (Result-cases (solvers.solve_free_surface begun)) [
          | inr (e, g) ↦ rw (h, g) (Ends.fails (IsRaised.as_raised (IsSolverError.of_surface g)))
          | inl (solved, g) ↦ rw (h, g) (Ends.returns (refl, refl, refl, refl, refl))
        ]
      ]

  advance_subcycled :
      (fuel : ℕ) (dt : R) (s : Coupler R V)
      → s.sync ≡ false
      → advance double solvers fuel t dt s ≡ subcycle double solvers fuel t s
  unfolding advance
  advance_subcycled fuel dt s e = rw e refl

  advance_lockstep :
      (fuel : ℕ) (dt : R) (s : Coupler R V)
      → s.sync ≡ true
      → advance double solvers fuel t dt s
        ≡ take_gw_step double solvers t dt (record s { t_sub = t })
  unfolding advance
  advance_lockstep fuel dt s e = rw e refl

  advance-Stands :
      (fuel : ℕ) (dt : R) (s u : Coupler R V)
      → rounds s.t_sub < fuel
      → Clock s.t_sub
      → Legal s.dtg
      → Opened s dt u
      → Returns (Stands s dt) (advance double solvers fuel t dt u)
  advance-Stands fuel dt s u lt clock legal (mode, at, step_left, last, none_yet) =
      elim (Bool-cases u.sync) [
        | inl e ↦ rw (advance_lockstep fuel dt u e) (
            map-Ends (take_gw_step-Stepped t dt (record u { t_sub = t }))
              (λ out (left, here, same, count).
                (same ∙ last, left, inl (sym mode ∙ e, here, omega (arith, count, none_yet)))))
        | inr e ↦ rw (advance_subcycled fuel dt u e) (
            map-Ends
              (subcycle_total fuel u (rw at (omega arith)) (rw at clock) (rw step_left legal))
              (λ out (stop, left, same, most). (
                same ∙ last,
                left,
                inr (
                  sym mode ∙ e,
                  stop,
                  let bound = rw at at most in omega (arith, bound, none_yet),
                ),
              )))
      ]

  close_window-Stands :
      (nyl nxl : ℕ) (cell_area dt : R) (s u : Coupler R V)
      → Stands s dt u
      → Returns (Stands s dt) (close_window double solvers nyl nxl cell_area dt u)
  unfolding close_window fits_window
  close_window-Stands nyl nxl cell_area dt s u h =
      let a = apply_seepage double dt u.min_depth nyl nxl u.world.shared in
      elim (Result-cases (solvers.update_velocity (record u.world { shared = a.shared }))) [
        | inr (e, g) ↦ rw g (Ends.fails (IsRaised.as_raised (IsSolverError.of_velocity g)))
        | inl (w, g) ↦ rw g (Ends.returns h)
      ]

  -- From a clock and a step that are admitted, with every step that the subsurface returns legal,
  -- and each legal step that fits after an admitted clock leading to an admitted clock with fewer
  -- rounds left: with fuel above the rounds of the clock a coupled step ends, by an error only if it
  -- is one in which a call of a solver ends. When it returns, in the lockstep mode it has taken one
  -- subsurface step and leaves no lag; in the subcycled mode it has taken at most the rounds of the
  -- clock, and no further step fits.
  pub step_total :
      (fuel nyl nxl : ℕ) (cell_area dt : R) (s : Coupler R V)
      → rounds s.t_sub < fuel
      → Clock s.t_sub
      → Legal s.dtg
      → Ends
          (IsRaised (IsSolverError solvers))
          (Stands s dt)
          (step double solvers fuel nyl nxl cell_area t dt s)
  unfolding step
  step_total fuel nyl nxl cell_area dt s lt clock legal =
      let close = close_window double solvers nyl nxl cell_area dt in
      let run = advance double solvers fuel t dt in
      bind-Ends (λ u. run u >>= close) (open_window-Opened nyl nxl dt s)
        (λ u opened.
          bind-Ends close (advance-Stands fuel dt s u lt clock legal opened)
            (close_window-Stands nyl nxl cell_area dt s))
