-- ===== src/Checks/Flows.antt =====
-- The steps of the surface flow on the domain of two cells.
use mathlib.Core.Int.{ℤ, neg_ℤ}
use frehg.Prelude.{
  ℕ, ◌*◌, ◌+◌, ◌-◌, ◌==◌, ◌≡◌, refl, ◌⊎◌, inl, inr, Bool, true, false, ◌&&◌, ◌||◌, if◌then◌else◌,
  Option, none, some, List, [], ◌∷◌, Result, ok, fatal, Double, is_owned, ◌⊖◌, ◌⊗◌, ◌≺◌, zero_real,
}
use frehg.Prelude as Shared
use frehg.Grid.Layout.{place}
use frehg.Grid.Blocks.{block_size, block_start}
use frehg.Linear.System.{Ksp, set_values, solve}
use frehg.Surface.FreeSurface.{
  assemble_coefficients, apply_outflow_corrections, diagonal, leg, leg_x, leg_y,
}
use frehg.Surface.System.{Flow, row_of, row_entries, fill_coo}
use frehg.Surface.System.Numbered.{AreActive, numbered}
use frehg.Surface.WetDry.{apply_velocity_limiters}
use frehg.Surface.WetDry.Limits.{apply_velocity_limiters_lem}
use frehg.Surface.Step.{assemble, solve_free_surface}
use frehg.Surface.Step.Rows.{row_product, balance}
use frehg.Surface.Step.Balance.{row-balance}
use frehg.Surface.Step.Bed.{solve_free_surface-DryOrDeep}
use frehg.Surface.Step.Matrix.{Beside, fill_coo-numbered}
use frehg.Checks.Integers.{integer, integers, integers-IsExact}
use frehg.Checks.TwoCells.{z, one, two, settings, all, surface, gid, nothing, elementary, alone}

-- The row of the western cell: its leg to the east, 4, is in the diagonal and, with the stage, in the
-- right-hand side. The leg to the west has no column.
western_row :
    row_entries settings (assemble_coefficients settings surface) 1 1
    ≡ record { diag = integer 5; xm = neg_ℤ (integer 4); xp = z; ym = z; yp = z; rhs = integer 10 }
unfolding row_entries assemble_coefficients diagonal leg_x leg_y leg place block_size block_start
western_row = refl

-- The western cell beside the prescribed stage.
row-balance_example :
    let u = apply_outflow_corrections settings (assemble_coefficients settings surface) in
    row_product settings gid (all two) (row_entries settings u 1 1) 1 1
      ⊖ (row_entries settings u 1 1).rhs
    ≡ balance settings surface u (all two) 1 1
unfolding apply_outflow_corrections assemble_coefficients place block_size block_start
row-balance_example =
    row-balance integers-IsExact settings gid (all two) surface
      (apply_outflow_corrections settings (assemble_coefficients settings surface)) 1 1 refl refl
      refl
      (
        (refl, λ e. refl),
        (refl, λ e. absurd (let k = e in cc)),
        (refl, λ e. refl),
        (refl, λ e. refl),
      )
      (
        λ e. absurd (let k = e in cc),
        λ e. refl,
        λ e. absurd (let k = e in cc),
        λ e. absurd (let k = e in cc),
      )

-- One active level in each column.
abbrev flat_top : ℕ → ℕ → Shared.ℤ
flat_top j i = Shared.pos 0

all_active : AreActive 2 1 1 flat_top 0 0
all_active j i hj hi = refl

-- The two cells are neighbours in a row, with the rows 0 and 1.
fill_coo-numbered_example :
    let ids = numbered 2 1 1 flat_top 0 0 in
    let filled = fill_coo settings ids 0 (assemble settings elementary alone surface) nothing in
    filled.values (5 * row_of ids 0 1 1 + 2) ≡ filled.values (5 * row_of ids 0 1 2 + 1)
unfolding place block_size
fill_coo-numbered_example =
    fill_coo-numbered settings elementary alone 1 flat_top 0 0 all_active surface nothing 1 1 1 2 2
      1 Beside.eastward refl refl

-- The eastern face of the western cell is open, its northern face has no area and is not shut.
apply_velocity_limiters_lem_example :
    let w = apply_velocity_limiters settings surface in
    (w.uu 1 1 ≡ one)
    × (w.vv 1 1 ≡ z)
    × (w.fu 1 1 ≡ w.uu 1 1 ⊗ two)
    × (w.fv 1 1 ≡ w.vv 1 1 ⊗ z)
    × (w.cfl_active 1 1 ≡ z)
unfolding place block_size
apply_velocity_limiters_lem_example = apply_velocity_limiters_lem settings surface 1 1 refl

-- A linear solver that takes the matrix for the identity.
abbrev identity : Ksp ℤ (List ℤ)
identity = record {
  preallocate = λ rows cols k. k;
  write_values = λ values k. k;
  write_rhs = λ rhs k. rhs;
  set_operators = λ k. k;
  set_reuse = λ b k. k;
  set_up = λ k. k;
  run = λ k. k;
  diverged = λ k. false;
  iterations = λ k. 1;
  read_solution = λ k. k;
}

abbrev flow : Flow ℤ (List ℤ)
flow = record {
  surface = surface;
  system = record {
    n_local_rows = 2;
    n_coo = 10;
    pattern_set = true;
    reusable = false;
    rebuild_next = true;
    solves_since_rebuild = 0;
    baseline_iterations = 0;
    reuse_max_solves = Shared.pos 0;
    reuse_iteration_factor = z;
    solves = 0;
    total_iterations = 0;
    max_iterations = 0;
    rebuilds = 0;
    retries = 0;
    ksp = [];
  };
  wet_mask_hash = none;
}

abbrev after : {E A : Type 0} → Result E A → A → A
after (ok a) b = a
after (fatal e) b = b

abbrev solved : Flow ℤ (List ℤ)
solved = after (solve_free_surface settings elementary alone identity (λ n. n) gid 0 flow) flow

returns : solve_free_surface settings elementary alone identity (λ n. n) gid 0 flow ≡ ok solved
unfolding solve_free_surface set_values place block_size solve
returns = refl

solve_free_surface-DryOrDeep_example :
    (solved.surface.eta 1 1 ≡ solved.surface.bottom 1 1)
    ⊎ (solved.surface.eta 1 1 ⊖ solved.surface.bottom 1 1 ≺ z ≡ false)
unfolding place block_size
solve_free_surface-DryOrDeep_example =
    solve_free_surface-DryOrDeep settings elementary alone identity (λ n. n) gid 0 flow solved
      returns 1 1 refl
