-- ===== src/Linear/System.antt =====
-- `LinearSystem` of core/LinearSystem.cpp in a release build: its state, the solve with the retry
-- under a stale preconditioner, and the reuse policy. PETSc's objects (matrix, vectors and solver)
-- are one value of the parameter type `K`, its calls the fields of `Ksp`.
use frehg.Prelude.{
  ℕ, ◌+◌, max, Bool, true, false, not, ◌&&◌, ◌||◌, ltb, leb, ◌==◌, if◌then◌else◌, List, length,
  Result, ok, require, ◌>>◌, ℤ, pos, negsuc, Double,
}

-- MatSetPreallocationCOO, MatSetValuesCOO, VecGetArrayWrite, KSPSetOperators,
-- KSPSetReusePreconditioner, KSPSetUp, KSPSolve, KSPGetConvergedReason (is it negative),
-- KSPGetIterationNumber, VecGetArrayRead.
pub record Ksp (R K : Type 0) : Type 0 where
  pub preallocate : List ℤ → List ℤ → K → K
  pub write_values : List R → K → K
  pub write_rhs : List R → K → K
  pub set_operators : K → K
  pub set_reuse : Bool → K → K
  pub set_up : K → K
  pub run : K → K
  pub diverged : K → Bool
  pub iterations : K → ℕ
  pub read_solution : K → List R

pub data SystemError : Type 0 where
  pattern_lengths_differ : SystemError
  values_before_pattern : SystemError
  wrong_value_count : SystemError
  wrong_vector_size : SystemError
  solver_diverged : SystemError

pub record System (R K : Type 0) : Type 0 where
  pub n_local_rows : ℕ
  pub n_coo : ℕ
  pub pattern_set : Bool
  pub reusable : Bool
  pub rebuild_next : Bool
  pub solves_since_rebuild : ℕ
  pub baseline_iterations : ℕ
  pub reuse_max_solves : ℤ
  pub reuse_iteration_factor : R
  pub solves : ℕ
  pub total_iterations : ℕ
  pub max_iterations : ℕ
  pub rebuilds : ℕ
  pub retries : ℕ
  pub ksp : K

-- n > 0 and n >= m for an `int` on the right (left).
abbrev pub is_positive : ℤ → Bool
is_positive (pos n) = ltb 0 n
is_positive (negsuc n) = false

abbrev pub reaches : ℕ → ℤ → Bool
reaches n (pos m) = leb m n
reaches n (negsuc m) = true

module _ {R K : Type 0} (double : Double R) (petsc : Ksp R K) where
  -- The end of the constructor: `icc` says that the preconditioner is bjacobi-icc.
  unfoldable pub construct : ℕ → Bool → ℤ → R → K → System R K
  construct rows icc max_solves factor k = record {
    n_local_rows = rows;
    n_coo = 0;
    pattern_set = false;
    reusable = not icc && is_positive max_solves;
    rebuild_next = true;
    solves_since_rebuild = 0;
    baseline_iterations = 0;
    reuse_max_solves = max_solves;
    reuse_iteration_factor = factor;
    solves = 0;
    total_iterations = 0;
    max_iterations = 0;
    rebuilds = 0;
    retries = 0;
    ksp = k;
  }

  unfoldable pub force_rebuild : System R K → System R K
  force_rebuild s = record s { rebuild_next = true }

  unfoldable pub set_pattern : List ℤ → List ℤ → System R K → Result SystemError (System R K)
  set_pattern rows cols s = do
    require (length rows == length cols) SystemError.pattern_lengths_differ
    ok (record s {
      n_coo = length rows;
      ksp = petsc.preallocate rows cols s.ksp;
      pattern_set = true;
    })

  unfoldable pub set_values : List R → System R K → Result SystemError (System R K)
  set_values values s = do
    require s.pattern_set SystemError.values_before_pattern
    require (length values == s.n_coo) SystemError.wrong_value_count
    ok (record s { ksp = petsc.write_values values s.ksp })

  abbrev pub solve_once : K → K
  solve_once k = petsc.run (petsc.set_up k)

  -- The bookkeeping of a solve that converged.
  unfoldable pub freeze : System R K → System R K
  freeze s = record s {
    ksp = petsc.set_reuse true s.ksp;
    baseline_iterations = petsc.iterations s.ksp;
    solves_since_rebuild = 0;
    rebuild_next = false;
    rebuilds = s.rebuilds + 1;
  }

  -- n > reuseIterationFactor_ * baseline + 2.0
  abbrev pub is_slow : ℕ → R → ℕ → Bool
  is_slow n factor baseline =
      let trigger = double.add (double.mul factor (double.of_int baseline)) (double.of_int 2) in
      double.lt trigger (double.of_int n)

  unfoldable pub is_due : ℕ → System R K → Bool
  is_due n s =
      is_slow n s.reuse_iteration_factor s.baseline_iterations
      || reaches s.solves_since_rebuild s.reuse_max_solves

  unfoldable pub mark_due : ℕ → System R K → System R K
  unfolding is_due
  mark_due n s = if is_due n s then record s { rebuild_next = true } else s

  unfoldable pub age : System R K → System R K
  age s = record s { solves_since_rebuild = s.solves_since_rebuild + 1 }

  unfoldable pub schedule : Bool → ℕ → System R K → System R K
  unfolding freeze mark_due age
  schedule rebuilt n s =
      if s.reusable
      then mark_due n (age (if rebuilt then freeze s else s))
      else record s { rebuilds = s.rebuilds + 1 }

  unfoldable pub count_solve : ℕ → System R K → System R K
  count_solve n s = record s {
    solves = s.solves + 1;
    total_iterations = s.total_iterations + n;
    max_iterations = max s.max_iterations n;
  }

  -- What follows the last attempt.
  unfoldable pub finish : Bool → System R K → Result SystemError (System R K × List R)
  unfolding schedule count_solve
  finish rebuilt s = do
    require (not (petsc.diverged s.ksp)) SystemError.solver_diverged
    let n = petsc.iterations s.ksp
    let t = count_solve n (schedule rebuilt n s)
    ok (t, petsc.read_solution t.ksp)

  -- The solver after the first attempt and after the retry.
  unfoldable pub first_attempt : List R → System R K → K
  first_attempt rhs s =
      let k = petsc.set_operators (petsc.write_rhs rhs s.ksp) in
      solve_once (if s.reusable && s.rebuild_next then petsc.set_reuse false k else k)

  unfoldable pub retry : K → K
  retry k = solve_once (petsc.set_operators (petsc.set_reuse false k))

  unfoldable pub solve : List R → ℕ → System R K → Result SystemError (System R K × List R)
  unfolding finish first_attempt retry
  solve rhs solution_size s = do
    require (length rhs == s.n_local_rows && solution_size == s.n_local_rows)
        SystemError.wrong_vector_size
    let rebuilt = s.reusable && s.rebuild_next
    let k = first_attempt rhs s
    if petsc.diverged k && s.reusable && not rebuilt
        then finish true (record s { retries = s.retries + 1; ksp = retry k })
        else finish rebuilt (record s { ksp = k })
