-- ===== src/Coupling/Step.antt =====
-- `Coupler` of coupling/Coupler.cpp. The surface and the subsurface solver are values of a type `V`
-- with the operations of `Solvers`; the fields that they share with the coupler are explicit.
-- A call of a solver returns, or ends in a fatal error, which leaves the step. A step runs
-- `out_of_fuel` in a subcycled window that did not end within the fuel.
pub mod Window
use frehg.Prelude.{
  ℕ, zero, suc, ◌+◌, Bool, if◌then◌else◌, Double, Result, ok, fatal, ◌>>=◌, Failure, out_of_fuel,
  attempt,
}
use frehg.Coupling.Exchange.{Shared, Applied, begin_window, apply_seepage, reduce_field}

pub record GwStepAudit (R : Type 0) : Type 0 where
  pub boundary_in : R
  pub ss_storage : R
  pub realloc_adjust : R
  pub realloc_dropped : R
  pub vloss : R
  pub cpl_exchanged : R
  pub cpl_bounce : R
  pub cpl_vent : R
  pub cpl_evap : R
  pub evap : R

pub record CouplingAudit (R : Type 0) : Type 0 where
  pub gw : GwStepAudit R
  pub applied : R
  pub discarded : R
  pub surface_gain : R
  pub accum_volume : R
  pub substeps : ℕ

pub record World (R V : Type 0) : Type 0 where
  pub solvers : V
  pub shared : Shared R

-- What the coupler calls of the surface and of the subsurface solver, with their errors `E`.
pub record Solvers (E R V : Type 0) : Type 0 where
  pub set_time_step : R → World R V → World R V
  pub begin_step : R → World R V → Result E (World R V)
  pub solve_free_surface : World R V → Result E (World R V)
  pub refresh_depth : World R V → World R V
  pub update_velocity : World R V → Result E (World R V)
  pub gw_step : R → R → World R V → Result E (World R V)
  pub next_dt : World R V → R
  pub audit : World R V → GwStepAudit R

pub record Coupler (R V : Type 0) : Type 0 where
  pub sync : Bool
  pub dt : R
  pub last_surface_dt : R
  pub dtg : R
  pub t_sub : R
  pub min_depth : R
  pub audit : CouplingAudit R
  pub world : World R V

module _ {R : Type 0} (double : Double R) where
  abbrev pub empty_gw_audit : GwStepAudit R
  empty_gw_audit =
      let z = double.of_int 0 in
      record {
        boundary_in = z;
        ss_storage = z;
        realloc_adjust = z;
        realloc_dropped = z;
        vloss = z;
        cpl_exchanged = z;
        cpl_bounce = z;
        cpl_vent = z;
        cpl_evap = z;
        evap = z;
      }

  abbrev pub empty_audit : CouplingAudit R
  empty_audit =
      let z = double.of_int 0 in
      record {
        gw = empty_gw_audit;
        applied = z;
        discarded = z;
        surface_gain = z;
        accum_volume = z;
        substeps = 0;
      }

  unfoldable pub add_audit : GwStepAudit R → GwStepAudit R → GwStepAudit R
  add_audit s a = record {
    boundary_in = double.add s.boundary_in a.boundary_in;
    ss_storage = double.add s.ss_storage a.ss_storage;
    realloc_adjust = double.add s.realloc_adjust a.realloc_adjust;
    realloc_dropped = double.add s.realloc_dropped a.realloc_dropped;
    vloss = double.add s.vloss a.vloss;
    cpl_exchanged = double.add s.cpl_exchanged a.cpl_exchanged;
    cpl_bounce = double.add s.cpl_bounce a.cpl_bounce;
    cpl_vent = double.add s.cpl_vent a.cpl_vent;
    cpl_evap = double.add s.cpl_evap a.cpl_evap;
    evap = double.add s.evap a.evap;
  }

  module _ {E V : Type 0} (solvers : Solvers E R V) where
    unfoldable pub next_dt : Coupler R V → R
    next_dt s = if s.sync then s.dtg else s.dt

    unfoldable pub gw_lag : R → Coupler R V → R
    gw_lag t s = if s.sync then double.of_int 0 else double.sub t s.t_sub

    unfoldable pub restore : R → R → R → Coupler R V → Coupler R V
    restore t dtg lag s = record s { dtg = dtg; t_sub = double.sub t lag }

    unfoldable pub take_gw_step : R → R → Coupler R V → Result (Failure E) (Coupler R V)
    unfolding add_audit
    take_gw_step tt dtg s = attempt (solvers.gw_step tt dtg s.world) >>= λ w. ok (record s {
      world = w;
      dtg = solvers.next_dt w;
      audit = record s.audit {
        gw = add_audit s.audit.gw (solvers.audit w);
        substeps = s.audit.substeps + 1;
      };
    })

    -- tSub_ + dtg_ <= t + 1.0e-9
    unfoldable pub fits_window : R → Coupler R V → Bool
    fits_window t s = double.le (double.add s.t_sub s.dtg) (double.add t (double.scaled 1 9))

    -- One round of the loop.
    unfoldable pub substep : Coupler R V → Result (Failure E) (Coupler R V)
    unfolding take_gw_step
    substep s = let tt = double.add s.t_sub s.dtg in take_gw_step tt s.dtg (record s { t_sub = tt })

    unfoldable pub subcycle : ℕ → R → Coupler R V → Result (Failure E) (Coupler R V)
    unfolding fits_window substep
    subcycle zero t s = fatal out_of_fuel
    subcycle (suc n) t s =
        let rest = (substep s >>= λ u. subcycle n t u) in if fits_window t s then rest else ok s

    unfoldable pub advance : ℕ → R → R → Coupler R V → Result (Failure E) (Coupler R V)
    unfolding subcycle
    advance fuel t dt s =
        if s.sync then take_gw_step t dt (record s { t_sub = t }) else subcycle fuel t s

    -- What precedes the subsurface: the surface solve, the new window and the cleared audit.
    unfoldable pub open_window : ℕ → ℕ → R → R → Coupler R V → Result (Failure E) (Coupler R V)
    open_window nyl nxl t dt s =
        attempt (solvers.begin_step t (solvers.set_time_step dt s.world)) >>= λ begun.
        attempt (solvers.solve_free_surface begun) >>= λ solved.
        let w = solvers.refresh_depth solved in
        ok (record s {
          last_surface_dt = dt;
          world = record w { shared = begin_window double nyl nxl w.shared };
          audit = empty_audit;
        })

    -- What follows it: the seepage, the velocities and the sums of the audit.
    unfoldable pub close_window : ℕ → ℕ → R → R → Coupler R V → Result (Failure E) (Coupler R V)
    close_window nyl nxl cell_area dt s =
        let a = apply_seepage double dt s.min_depth nyl nxl s.world.shared in
        attempt (solvers.update_velocity (record s.world { shared = a.shared })) >>= λ w.
        ok (record s {
          world = w;
          audit = record s.audit {
            applied = double.mul a.applied cell_area;
            discarded = double.mul a.discarded cell_area;
            surface_gain = double.mul (reduce_field double nyl nxl w.shared.gain) cell_area;
            accum_volume = double.mul (reduce_field double nyl nxl w.shared.seep_accum) cell_area;
          };
        })

    unfoldable pub step : ℕ → ℕ → ℕ → R → R → R → Coupler R V → Result (Failure E) (Coupler R V)
    unfolding open_window close_window advance
    step fuel nyl nxl cell_area t dt s = open_window nyl nxl t dt s >>= λ opened.
        advance fuel t dt opened >>= λ advanced. close_window nyl nxl cell_area dt advanced
