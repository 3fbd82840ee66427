-- ===== src/Linear/Reuse.antt =====
-- The reuse policy of `LinearSystem` in core/LinearSystem.cpp over any sequence of calls.
mod Schedule
use frehg.Prelude.{
  ℕ, zero, suc, ◌+◌, ◌*◌, ◌≤◌, ◌<◌, max, ◌≡◌, refl, Bool, true, false, not, ◌&&◌, ◌||◌, ◌==◌,
  length, List, arith, ◌⊎◌, inl, inr, Result, ok, fatal, require, ◌>>=◌, ◌>>◌, Double, Bool-cases,
  lt→ltb, leb, if◌then◌else◌, ℤ, pos, negsuc,
}
use frehg.Linear.System.{
  Ksp, System, SystemError, construct, force_rebuild, set_pattern, set_values, solve, finish,
  first_attempt, retry, schedule, freeze, age, mark_due, is_due, count_solve, reaches, is_positive,
}
use frehg.Linear.Reuse.Schedule.{Scheduled, Kept, Pending, schedule-Kept, construct-Kept, force_lem}

module _ {R K : Type 0} (double : Double R) (petsc : Ksp R K) where
  -- The states that a constructor and calls that return can reach.
  pub data Reachable : System R K → Type 0 where
    constructed :
        (rows : ℕ) (icc : Bool) (limit : ℤ) (factor : R) (k : K)
        → Reachable (construct double petsc rows icc limit factor k)
    forced : (s : System R K) → Reachable s → Reachable (force_rebuild double petsc s)
    patterned :
        (rows cols : List ℤ) (s t : System R K)
        → Reachable s
        → set_pattern double petsc rows cols s ≡ ok t
        → Reachable t
    valued :
        (values : List R) (s t : System R K)
        → Reachable s
        → set_values double petsc values s ≡ ok t
        → Reachable t
    solved :
        (rhs x : List R) (size : ℕ) (s t : System R K)
        → Reachable s
        → solve double petsc rhs size s ≡ ok (t, x)
        → Reachable t

  finish-Kept :
      (rebuilt : Bool) (s t : System R K) (x : List R)
      → Pending double petsc rebuilt s
      → finish double petsc rebuilt s ≡ ok (t, x)
      → Kept double petsc t
  unfolding finish
  finish-Kept rebuilt s t x h e = elim (Bool-cases (petsc.diverged s.ksp)) [
    | inl d ↦ absurd (ground arith)
    | inr d ↦
        let n = petsc.iterations s.ksp in
        let last : count_solve double petsc n (schedule double petsc rebuilt n s) ≡ t =
          ground arith in
        rw (← last) (schedule-Kept double petsc rebuilt n s h)
  ]

  solve-finish :
      (rhs x : List R) (size : ℕ) (s t : System R K)
      → solve double petsc rhs size s ≡ ok (t, x)
      → (finish double petsc
            (s.reusable && s.rebuild_next)
            (record s { ksp = first_attempt double petsc rhs s })
          ≡ ok (t, x))
        ⊎ ((s.reusable ≡ true)
            × (s.rebuild_next ≡ false)
            × (finish double petsc true (record s {
              retries = s.retries + 1;
              ksp = retry double petsc (first_attempt double petsc rhs s);
            })
                ≡ ok (t, x)))
  unfolding solve
  solve-finish rhs x size s t e = ground arith

  solve-Kept :
      (rhs x : List R) (size : ℕ) (s t : System R K)
      → Kept double petsc s
      → solve double petsc rhs size s ≡ ok (t, x)
      → Kept double petsc t
  solve-Kept rhs x size s t h e = elim (solve-finish rhs x size s t e) [
    | inl f ↦
        finish-Kept _ _ t x
          (s.retries, 0, omega arith, omega arith, λ z. refl, λ z. refl, λ a b. ground arith, h) f
    | inr (a, b, f) ↦
        finish-Kept true _ t x
          (
            s.retries,
            1,
            refl,
            omega arith,
            λ z. absurd (ground arith),
            λ z. absurd (ground arith),
            λ z w. b,
            h,
          )
          f
  ]

  set_pattern-Kept :
      (rows cols : List ℤ) (s t : System R K)
      → Kept double petsc s
      → set_pattern double petsc rows cols s ≡ ok t
      → Kept double petsc t
  unfolding set_pattern
  set_pattern-Kept rows cols s t h e = elim (Bool-cases (length rows == length cols)) [
    | inl same ↦
        let last : record s {
          n_coo = length rows;
          ksp = petsc.preallocate rows cols s.ksp;
          pattern_set = true;
        }
            ≡ t =
          ground arith in
        rw (← last) h
    | inr other ↦ absurd (ground arith)
  ]

  set_values-Kept :
      (values : List R) (s t : System R K)
      → Kept double petsc s
      → set_values double petsc values s ≡ ok t
      → Kept double petsc t
  unfolding set_values
  set_values-Kept values s t h e = elim (Bool-cases (s.pattern_set && length values == s.n_coo)) [
    | inl same ↦
        let last : record s { ksp = petsc.write_values values s.ksp } ≡ t = ground arith in
        rw (← last) h
    | inr other ↦ absurd (ground arith)
  ]

  Reachable-Kept : (s : System R K) → Reachable s → Kept double petsc s
  unfolding force_rebuild
  Reachable-Kept s (constructed rows icc limit factor k) =
      construct-Kept double petsc rows icc limit factor k
  Reachable-Kept s (forced t r) = force_lem double petsc _ _ _ _ _ _ _ (Reachable-Kept t r)
  Reachable-Kept s (patterned rows cols t u r e) =
      set_pattern-Kept rows cols t s (Reachable-Kept t r) e
  Reachable-Kept s (valued values t u r e) = set_values-Kept values t s (Reachable-Kept t r) e
  Reachable-Kept s (solved rhs x size t u r e) = solve-Kept rhs x size t s (Reachable-Kept t r) e

  -- With a limit of `m` solves per preconditioner, the state after any calls that return has had at
  -- most `m` solves per build, the last build has served `m` at most, the next solve builds once it
  -- has served `m`, and there are no more retries than builds, no more builds than solves.
  pub reuse_bounded :
      (s : System R K) (m : ℕ)
      → Reachable s
      → s.reusable ≡ true
      → s.reuse_max_solves ≡ pos m
      → (s.solves ≤ s.rebuilds * m)
        × (s.solves_since_rebuild ≤ m)
        × ((s.rebuild_next ≡ true) ⊎ (s.solves_since_rebuild < m))
        × (s.retries ≤ s.rebuilds)
        × (s.rebuilds ≤ s.solves)
  reuse_bounded s m r e f = bounded (rw (e, f) at (Reachable-Kept s r))
    where
      bounded :
          Scheduled double petsc
            (pos m)
            true
            s.rebuild_next
            s.solves_since_rebuild
            s.solves
            s.rebuilds
            s.retries
          → (s.solves ≤ s.rebuilds * m)
            × (s.solves_since_rebuild ≤ m)
            × ((s.rebuild_next ≡ true) ⊎ (s.solves_since_rebuild < m))
            × (s.retries ≤ s.rebuilds)
            × (s.rebuilds ≤ s.solves)
      bounded (a, b, c, d, g, k) =
          (elim k [ inl (u, v, w) ↦ grind arith | inr u ↦ omega arith ], b, c, d, g)

  -- Without reuse every solve that returned has built the preconditioner, and none was repeated.
  plain_rebuilds :
      (s : System R K)
      → Reachable s
      → s.reusable ≡ false
      → (s.rebuilds ≡ s.solves) × (s.retries ≡ 0)
  plain_rebuilds s r e = rw e at (Reachable-Kept s r)
