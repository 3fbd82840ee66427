-- ===== src/Linear/Solve.antt =====
-- What `LinearSystem::solve` of core/LinearSystem.cpp returns.
use frehg.Prelude.{◌≡◌, true, false, length, List, arith, ◌⊎◌, ◌↔◌, fatal, Double}
use frehg.Linear.System.{Ksp, System, SystemError, solve, finish, first_attempt, retry}

module _ {R K : Type 0} (double : Double R) (petsc : Ksp R K) where
  -- The first attempt diverges without reuse or with a fresh preconditioner, or the retry does too.
  abbrev pub Diverges : List R → System R K → Type 0
  Diverges rhs s =
      (petsc.diverged (first_attempt double petsc rhs s) ≡ true)
      × ((s.reusable ≡ false)
          ⊎ (s.rebuild_next ≡ true)
          ⊎ (petsc.diverged (retry double petsc (first_attempt double petsc rhs s)) ≡ true))

  -- With vectors of the right size, a solve fails by divergence exactly when its first attempt
  -- diverges and either that was made with a fresh preconditioner (or without reuse), or the
  -- retry diverges too.
  pub solve-Diverges :
      (rhs : List R) (s : System R K)
      → length rhs ≡ s.n_local_rows
      → (solve double petsc rhs s.n_local_rows s ≡ fatal SystemError.solver_diverged)
        ↔ Diverges rhs s
  unfolding solve finish
  solve-Diverges rhs s h = (there, back)
    where
      there :
          solve double petsc rhs s.n_local_rows s ≡ fatal SystemError.solver_diverged
          → Diverges rhs s
      there e = ground arith

      back :
          Diverges rhs s
          → solve double petsc rhs s.n_local_rows s ≡ fatal SystemError.solver_diverged
      back d = ground arith
