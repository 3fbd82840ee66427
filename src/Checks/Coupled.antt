-- ===== src/Checks/Coupled.antt =====
-- src/coupling at concrete numbers.
use frehg.Prelude.{
  ℕ, ◌+◌, ◌-◌, ◌≤◌, ◌<◌, ◌≡◌, refl, arith, ◌⊎◌, true, false, leb, ◌==◌, if◌then◌else◌, ok, fatal,
  Ends, IsRaised, out_of_fuel, raised, ℤ, lt_ℤ, pos, negsuc, for_range,
}
use frehg.Coupling.Exchange.{Shared, cell_of, apply_cell, apply_seepage, apply_at, add_discarded}
use frehg.Coupling.Exchange.Cells.{Seeps, apply_seepage-Seeps, seepage_bottom}
use frehg.Coupling.Step.{
  World, Solvers, Coupler, empty_audit, empty_gw_audit, step, fits_window, advance, subcycle,
  substep, take_gw_step, open_window,
}
use frehg.Coupling.Step.Window.{IsSolverError, Stands, step_total}
use frehg.Checks.Numbers.{whole, signed, lt_ℤ_irreflexive, add_grows}

-- Infiltration of 9 below a column of 4, and seepage elsewhere.
abbrev pond : Shared ℤ
pond = record {
  eta = λ j i. pos 14;
  dept = λ j i. pos 4;
  bottom = λ j i. pos 10;
  seep_accum = λ j i. if i == 1 then negsuc 8 else pos 2;
  avail = λ j i. pos 0;
  gain = λ j i. pos 0;
  qss = λ j i. pos 0;
}

clamped : (apply_seepage signed (pos 1) (pos 1) 2 2 pond).shared.eta 1 1 ≡ pos 10
unfolding apply_seepage apply_at apply_cell for_range
clamped = refl

lost : (apply_seepage signed (pos 1) (pos 1) 2 2 pond).discarded ≡ pos 10
unfolding apply_seepage apply_at apply_cell for_range add_discarded
lost = refl

apply_seepage-Seeps_example :
    let after = cell_of 1 1 (apply_seepage signed (pos 1) (pos 1) 2 2 pond).shared in
    ((true ≡ true) × Seeps signed (pos 1) (pos 1) (cell_of 1 1 pond) after)
    ⊎ ((true ≡ false) × (after ≡ cell_of 1 1 pond))
apply_seepage-Seeps_example = apply_seepage-Seeps signed (pos 1) (pos 1) 2 2 1 1 pond

seepage_bottom_example :
    lt_ℤ
      ((apply_seepage signed (pos 1) (pos 1) 2 2 pond).shared.eta 1 1)
      ((apply_seepage signed (pos 1) (pos 1) 2 2 pond).shared.bottom 1 1)
    ≡ false
seepage_bottom_example =
    seepage_bottom signed (pos 1) (pos 1) lt_ℤ_irreflexive add_grows 2 2 1 1 pond refl

abbrev still : World ℕ ℕ
still = record {
  solvers = 0;
  shared = record {
    eta = λ j i. 14;
    dept = λ j i. 4;
    bottom = λ j i. 10;
    seep_accum = λ j i. 0;
    avail = λ j i. 0;
    gain = λ j i. 0;
    qss = λ j i. 0;
  };
}

-- Solvers that count their calls; a subsurface step lasts 3.
abbrev counting : Solvers ℕ ℕ ℕ
counting = record {
  set_time_step = λ dt w. w;
  begin_step = λ t w. ok w;
  solve_free_surface = λ w. ok w;
  refresh_depth = λ w. w;
  update_velocity = λ w. ok w;
  gw_step = λ t dtg w. ok (record w { solvers = w.solvers + 1 });
  next_dt = λ w. 3;
  audit = λ w. empty_gw_audit whole;
}

abbrev coupled : Coupler ℕ ℕ
coupled = record {
  sync = false;
  dt = 10;
  last_surface_dt = 10;
  dtg = 2;
  t_sub = 0;
  min_depth = 1;
  audit = empty_audit whole;
  world = still;
}

abbrev LegalStep : ℕ → Type 0
LegalStep d = 0 < d

abbrev left_of : ℕ → ℕ
left_of x = 12 - x

three_pos :
    (t dtg : ℕ) (w w' : World ℕ ℕ)
    → counting.gw_step t dtg w ≡ ok w'
    → LegalStep (counting.next_dt w')
three_pos t dtg w w' h = omega arith

-- The clocks that the window can show.
abbrev InWindow : ℕ → Type 0
InWindow x = x ≤ 11

left_falls :
    (x dtg : ℕ)
    → InWindow x
    → LegalStep dtg
    → leb (x + dtg) (10 + 1) ≡ true
    → InWindow (x + dtg) × (left_of (x + dtg) < left_of x)
left_falls x dtg c h e = (ground arith, ground arith)

at_start : InWindow 0
at_start = omega arith

enough_fuel : 12 < 20
enough_fuel = omega arith

first_legal : 0 < 2
first_legal = omega arith

step_total_example :
    Ends
      (IsRaised (IsSolverError counting))
      (Stands whole counting 10 InWindow LegalStep left_of three_pos left_falls coupled 10)
      (step whole counting 20 2 2 1 10 10 coupled)
step_total_example =
    step_total whole counting 10 InWindow LegalStep left_of three_pos left_falls 20 2 2 1 10 coupled
      enough_fuel at_start first_legal

-- With three rounds the window ends, with two it does not.
steps_taken : step whole counting 2 2 2 1 10 10 coupled ≡ fatal out_of_fuel
unfolding step advance subcycle substep take_gw_step open_window fits_window
steps_taken = refl

-- The subsurface diverges.
diverges :
    step whole (record counting { gw_step = λ t dtg w. fatal 7 }) 20 2 2 1 10 10 coupled
    ≡ fatal (raised 7)
unfolding step advance subcycle substep take_gw_step open_window fits_window
diverges = refl
