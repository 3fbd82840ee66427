-- ===== src/Checks/Linear.antt =====
-- core/LinearSystem.cpp with a solver that diverges under a frozen preconditioner.
use frehg.Prelude.{
  ℕ, ◌*◌, ◌≤◌, ◌<◌, ◌≡◌, refl, Bool, true, false, [], ◌∷◌, ok, fatal, pos, ◌↔◌, ◌⊎◌,
}
use frehg.Linear.System.{Ksp, System, SystemError, construct, solve, set_values}
use frehg.Linear.Solve.{Diverges, solve-Diverges}
use frehg.Linear.Reuse.{Reachable, reuse_bounded}
use frehg.Checks.Numbers.{whole}

-- The solver state is the flag that freezes the preconditioner.
abbrev stiff : Ksp ℕ Bool
stiff = record {
  preallocate = λ rows cols k. k;
  write_values = λ values k. k;
  write_rhs = λ rhs k. k;
  set_operators = λ k. k;
  set_reuse = λ flag k. flag;
  set_up = λ k. k;
  run = λ k. k;
  diverged = λ k. k;
  iterations = λ k. 7;
  read_solution = λ k. 4 ∷ [];
}

abbrev fresh : System ℕ Bool
fresh = construct whole stiff 1 false (pos 2) 1 false

abbrev solved_system : System ℕ Bool → System ℕ Bool
unfolding solve
solved_system s = elim (solve whole stiff (5 ∷ []) 1 s) [ ok (t, x) ↦ t | fatal e ↦ s ]

-- The second solve meets the frozen preconditioner and is repeated under a new one.
retried : (solved_system (solved_system fresh)).retries ≡ 1
unfolding solve construct
retried = refl

early_values : set_values whole stiff (5 ∷ []) fresh ≡ fatal SystemError.values_before_pattern
unfolding set_values construct
early_values = refl

fresh-Reachable : Reachable whole stiff fresh
fresh-Reachable = Reachable.constructed 1 false (pos 2) 1 false

first-Reachable : Reachable whole stiff (solved_system fresh)
unfolding solve construct
first-Reachable =
    Reachable.solved (5 ∷ []) (4 ∷ []) 1 fresh (solved_system fresh) fresh-Reachable refl

reuse_bounded_example :
    ((solved_system fresh).solves ≤ (solved_system fresh).rebuilds * 2)
    × ((solved_system fresh).solves_since_rebuild ≤ 2)
    × (((solved_system fresh).rebuild_next ≡ true)
        ⊎ ((solved_system fresh).solves_since_rebuild < 2))
    × ((solved_system fresh).retries ≤ (solved_system fresh).rebuilds)
    × ((solved_system fresh).rebuilds ≤ (solved_system fresh).solves)
unfolding solve construct
reuse_bounded_example = reuse_bounded whole stiff (solved_system fresh) 2 first-Reachable refl refl

abbrev plain : System ℕ Bool
plain = construct whole stiff 1 true (pos 2) 1 false

plain-Reachable : Reachable whole stiff (solved_system plain)
unfolding solve construct
plain-Reachable =
    Reachable.solved (5 ∷ []) (4 ∷ []) 1 plain (solved_system plain)
      (Reachable.constructed 1 true (pos 2) 1 false) refl

solve-Diverges_example :
    (solve whole stiff (5 ∷ []) 1 (solved_system fresh) ≡ fatal SystemError.solver_diverged)
    ↔ Diverges whole stiff (5 ∷ []) (solved_system fresh)
unfolding solve construct
solve-Diverges_example = solve-Diverges whole stiff (5 ∷ []) (solved_system fresh) refl
