-- ===== src/Checks/Marches.antt =====
-- The time loops of driver/Simulation.cpp with steps of 3 up to the time 10.
use frehg.Prelude.{
  ℕ, ◌+◌, ◌-◌, ◌<◌, ◌≡◌, refl, arith, true, false, ltb, ◌==◌, Result, ok, fatal, Failure, raised,
  Ends, IsRaised, ◌≤◌, List, [], ◌∷◌,
}
use frehg.Driver.Loops.{
  Parts, Times, Loop, Written, run_groundwater_loop, run_coupled_loop, enter, march, round, goes_on,
  leave, run_loop, output_crossed, checkpoint_crossed, groundwater_advance, boundary_after,
  sequence,
}
use frehg.Driver.Loops.Errors.{IsCall, IsCallError}
use frehg.Driver.Loops.Ending.{Saved}
use frehg.Driver.Loops.Adaptive.{run_groundwater_loop_total, run_coupled_loop_total}
use frehg.Driver.Surface.{run_surface_loop}
use frehg.Driver.Surface.Indices
use frehg.Driver.Surface.Indices.{run_surface_loop_lem}
use frehg.Checks.Numbers.{whole}

-- The world counts the calls of the solvers.
abbrev calls : Parts ℕ ℕ ℕ
calls = record {
  coupled_step = λ t dt w. ok (w + 1);
  coupled_next_dt = λ w. 3;
  gw_step = λ t dt w. ok (w + 1);
  gw_next_dt = λ w. 3;
  gw_last_dtg = λ w. 3;
  begin_step = λ t w. ok w;
  solve_free_surface = λ w. ok w;
  update_velocity = λ w. ok w;
  step_transport = λ t dt dtg w. ok w;
  has_transport = false;
  has_temperature = false;
  record_monitors = λ t w. ok w;
  record_mass_audit = λ t w. ok w;
  record_gw_mass_audit = λ t w. ok w;
  record_transport_audit = λ t w. ok w;
  record_temperature_audit = λ t w. ok w;
  write_outputs = λ t w. ok w;
  write_checkpoint = λ dtg t step label w. ok w;
  flush_coupled = λ w. ok w;
  flush_surface = λ w. ok w;
  flush_groundwater = λ w. ok w;
  flush_run_record = λ finished w. ok w;
}

abbrev ten : Times ℕ
ten = record { dt = 3; t_end = 10; output_interval = 5; checkpoint_interval = 4 }

abbrev log_of : Result (Failure ℕ) (Loop ℕ ℕ) → List (Written ℕ)
log_of (fatal e) = []
log_of (ok s) = s.log

groundwater_log :
    log_of (run_groundwater_loop whole calls ten 12 0 2 0)
    ≡ Written.checkpoint 11 4 16 ∷ Written.output 10 ∷ Written.checkpoint 8 3 8 ∷ []
unfolding run_groundwater_loop run_loop march round goes_on leave output_crossed checkpoint_crossed
    groundwater_advance boundary_after enter sequence
groundwater_log = refl

abbrev LegalStep : ℕ → Type 0
LegalStep d = 0 < d

abbrev left_of : ℕ → ℕ
left_of t = 10 - t

-- The times that the loops reach.
abbrev InRun : ℕ → Type 0
InRun t = 0 ≤ t

left_falls :
    (t dt : ℕ)
    → InRun t
    → LegalStep dt
    → ltb t (10 - 1) ≡ true
    → InRun (t + dt) × (left_of (t + dt) < left_of t)
left_falls t dt c h e = (ground arith, ground arith)

eq_exact : (x y : ℕ) → x == y ≡ true → x ≡ y
eq_exact x y e = ground arith

-- Every count of calls will do.
abbrev AnyCount : ℕ → Type 0
AnyCount w = 0 ≤ w

counts :
    (call : ℕ → Result ℕ ℕ) (w v : ℕ) → IsCall calls call → AnyCount w → call w ≡ ok v → AnyCount v
counts call w v it g h = omega arith

no_calls : AnyCount 0
no_calls = omega arith

three_legal :
    (t dtg w v : ℕ) → AnyCount w → calls.gw_step t dtg w ≡ ok v → LegalStep (calls.gw_next_dt v)
three_legal t dtg w v g h = omega arith

three_asked : (w : ℕ) → AnyCount w → LegalStep (calls.coupled_next_dt w)
three_asked w g = omega arith

two_legal : 0 < 2
two_legal = omega arith

enough_fuel : 10 < 12
enough_fuel = omega arith

from_zero : InRun 0
from_zero = omega arith

run_groundwater_loop_total_example :
    Ends
      (IsRaised (IsCallError calls))
      (λ out. (ltb out.t (10 - 1) ≡ false) × Saved whole calls ten out)
      (run_groundwater_loop whole calls ten 12 0 2 0)
run_groundwater_loop_total_example =
    run_groundwater_loop_total whole calls ten InRun LegalStep left_of left_falls eq_exact AnyCount
      counts three_legal 12 0 2 0 from_zero two_legal no_calls enough_fuel

run_coupled_loop_total_example :
    Ends
      (IsRaised (IsCallError calls))
      (λ out. (ltb out.t (10 - 1) ≡ false) × Saved whole calls ten out)
      (run_coupled_loop whole calls ten 12 0 2 0)
run_coupled_loop_total_example =
    run_coupled_loop_total whole calls ten InRun LegalStep left_of left_falls eq_exact AnyCount
      counts three_asked 12 0 2 0 from_zero no_calls enough_fuel

run_surface_loop_lem_example :
    Ends
      (IsCallError calls)
      (Indices.Finished whole calls ten 0)
      (run_surface_loop whole calls ten 0 0)
run_surface_loop_lem_example = run_surface_loop_lem whole calls ten 0 eq_exact 0

-- A solver that diverges ends the loop.
diverged :
    run_groundwater_loop whole (record calls { gw_step = λ t dtg w. fatal 7 }) ten 12 0 2 0
    ≡ fatal (raised 7)
unfolding run_groundwater_loop run_loop march round goes_on groundwater_advance enter boundary_after
diverged = refl
