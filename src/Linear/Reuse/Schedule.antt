-- ===== src/Linear/Reuse/Schedule.antt =====
-- What the bookkeeping after a solve of `LinearSystem` in core/LinearSystem.cpp keeps.
use frehg.Prelude.{
  ℕ, zero, suc, ◌+◌, ◌*◌, ◌≤◌, ◌<◌, ◌≡◌, refl, Bool, true, false, ◌||◌, arith, ◌⊎◌, inl, inr,
  Double, Bool-cases, lt→ltb, leb, if◌then◌else◌, ℤ, pos, negsuc,
}
use frehg.Linear.System.{
  Ksp, System, construct, schedule, freeze, age, mark_due, is_due, is_slow, count_solve, reaches,
}

module _ {R K : Type 0} (double : Double R) (petsc : Ksp R K) where
  -- With reuse a preconditioner serves `limit` solves at most: `since` counts those of the last one.
  abbrev pub Scheduled : ℤ → Bool → Bool → ℕ → ℕ → ℕ → ℕ → Type 0
  Scheduled limit false due since solves rebuilds retries = (rebuilds ≡ solves) × (retries ≡ 0)
  Scheduled (negsuc m) true due since solves rebuilds retries = ⊥
  Scheduled (pos m) true due since solves rebuilds retries =
      (0 < m)
      × (since ≤ m)
      × (due ≡ true ⊎ since < m)
      × (retries ≤ rebuilds)
      × (rebuilds ≤ solves)
      × (((rebuilds ≡ 0) × (solves ≡ 0) × (due ≡ true)) ⊎ (solves + m ≤ rebuilds * m + since))

  abbrev pub Kept : System R K → Type 0
  Kept s =
      Scheduled s.reuse_max_solves s.reusable s.rebuild_next s.solves_since_rebuild s.solves
        s.rebuilds s.retries

  rebuilt_lem :
      (limit : ℤ) (late due : Bool) (since solves rebuilds retries r : ℕ)
      → r ≤ 1
      → Scheduled limit true due since solves rebuilds retries
      → Scheduled limit true
          (if late || reaches 1 limit then true else false)
          1
          (solves + 1)
          (rebuilds + 1)
          (retries + r)
  rebuilt_lem (negsuc m) late due since solves rebuilds retries r le h = absurd h
  rebuilt_lem (pos m) late due since solves rebuilds retries r le (a, b, c, d, e, f) = (
    omega arith,
    omega arith,
    ground arith,
    omega arith,
    omega arith,
    inr (elim f [ inl (g, h, i) ↦ grind arith | inr g ↦ grind arith ]),
  )

  reused_lem :
      (limit : ℤ) (late : Bool) (since solves rebuilds retries : ℕ)
      → Scheduled limit true false since solves rebuilds retries
      → Scheduled limit true
          (if late || reaches (since + 1) limit then true else false)
          (since + 1)
          (solves + 1)
          rebuilds
          retries
  reused_lem (negsuc m) late since solves rebuilds retries h = absurd h
  reused_lem (pos m) late since solves rebuilds retries (a, b, c, d, e, f) = (
    a,
    omega (arith, since_below),
    due_below,
    d,
    omega arith,
    inr (elim f [ inl (g, h, i) ↦ absurd (ground arith) | inr g ↦ omega arith ]),
  )
    where
      since_below : since < m
      since_below = ground arith

      due_below : ((if late || leb m (since + 1) then true else false) ≡ true) ⊎ (since + 1 < m)
      due_below = ground arith

  plain_lem :
      (limit : ℤ) (due : Bool) (since solves rebuilds retries : ℕ)
      → Scheduled limit false due since solves rebuilds retries
      → Scheduled limit false due since (solves + 1) (rebuilds + 1) retries
  plain_lem limit due since solves rebuilds retries h = (omega arith, h.1)

  mark_lem :
      (n : ℕ) (u : System R K)
      → Scheduled u.reuse_max_solves u.reusable
          (if is_due double petsc n u then true else u.rebuild_next)
          u.solves_since_rebuild
          (u.solves + 1)
          u.rebuilds
          u.retries
      → Kept (count_solve double petsc n (mark_due double petsc n u))
  unfolding count_solve mark_due
  mark_lem n u h = elim (Bool-cases (is_due double petsc n u)) [
    | inl e ↦ rw e (rw e at h)
    | inr e ↦ rw e (rw e at h)
  ]

  schedule_reusable :
      (rebuilt : Bool) (n : ℕ) (s : System R K)
      → s.reusable ≡ true
      → schedule double petsc rebuilt n s
        ≡ mark_due double petsc n (age double petsc (if rebuilt then freeze double petsc s else s))
  unfolding schedule
  schedule_reusable rebuilt n s e = rw e refl

  -- Before the bookkeeping: the retry, when there was one, is counted, the solve is not.
  abbrev pub Pending : Bool → System R K → Type 0
  Pending rebuilt s =
      (q : ℕ) × (r : ℕ) × (s.retries ≡ q + r)
      × (r ≤ 1)
      × (rebuilt ≡ false → r ≡ 0)
      × (s.reusable ≡ false → r ≡ 0)
      × (s.reusable ≡ true → rebuilt ≡ false → s.rebuild_next ≡ false)
      × Scheduled s.reuse_max_solves s.reusable s.rebuild_next s.solves_since_rebuild s.solves
          s.rebuilds q

  reusable-Kept :
      (rebuilt : Bool) (n : ℕ) (s : System R K)
      → Pending rebuilt s
      → s.reusable ≡ true
      → Kept (count_solve double petsc n (schedule double petsc rebuilt n s))
  unfolding freeze is_due age
  reusable-Kept true n s (q, r, eq, le, still, plain, reused, h) e =
      rw (schedule_reusable true n s e) (
        mark_lem n (age double petsc (freeze double petsc s)) (
          rw (e, eq)
            (rebuilt_lem s.reuse_max_solves
              (is_slow double petsc n s.reuse_iteration_factor (petsc.iterations s.ksp))
              s.rebuild_next s.solves_since_rebuild s.solves s.rebuilds q r le (rw e at h))))
  reusable-Kept false n s (q, r, eq, le, still, plain, reused, h) e =
      let none_yet : r ≡ 0 = still refl in
      let same : s.retries ≡ q = omega arith in
      let idle : s.rebuild_next ≡ false = reused e refl in
      rw (schedule_reusable false n s e) (
        mark_lem n (age double petsc s) (
          rw (e, same, idle)
            (reused_lem s.reuse_max_solves
              (is_slow double petsc n s.reuse_iteration_factor s.baseline_iterations)
              s.solves_since_rebuild s.solves s.rebuilds q (rw (e, idle) at h))))

  plain-Kept :
      (rebuilt : Bool) (n : ℕ) (s : System R K)
      → Pending rebuilt s
      → s.reusable ≡ false
      → Kept (count_solve double petsc n (schedule double petsc rebuilt n s))
  unfolding count_solve schedule
  plain-Kept rebuilt n s (q, r, eq, le, still, plain, reused, h) e =
      let none_yet : r ≡ 0 = plain e in
      let same : s.retries ≡ q = omega arith in
      rw (e, same)
        (plain_lem s.reuse_max_solves s.rebuild_next s.solves_since_rebuild s.solves s.rebuilds q
          (rw e at h))

  pub schedule-Kept :
      (rebuilt : Bool) (n : ℕ) (s : System R K)
      → Pending rebuilt s
      → Kept (count_solve double petsc n (schedule double petsc rebuilt n s))
  schedule-Kept rebuilt n s h = elim (Bool-cases s.reusable) [
    | inl e ↦ reusable-Kept rebuilt n s h e
    | inr e ↦ plain-Kept rebuilt n s h e
  ]

  pub construct-Kept :
      (rows : ℕ) (icc : Bool) (limit : ℤ) (factor : R) (k : K)
      → Kept (construct double petsc rows icc limit factor k)
  unfolding construct
  construct-Kept rows true (negsuc m) factor k = (refl, refl)
  construct-Kept rows true (pos m) factor k = (refl, refl)
  construct-Kept rows false (negsuc m) factor k = (refl, refl)
  construct-Kept rows false (pos zero) factor k = (refl, refl)
  construct-Kept rows false (pos (suc m)) factor k =
      rw (lt→ltb 0 (suc m) (omega arith))
        (omega arith, omega arith, inl refl, omega arith, omega arith, inl (refl, refl, refl))

  pub force_lem :
      (limit : ℤ) (reusable due : Bool) (since solves rebuilds retries : ℕ)
      → Scheduled limit reusable due since solves rebuilds retries
      → Scheduled limit reusable true since solves rebuilds retries
  force_lem limit false due since solves rebuilds retries h = h
  force_lem (negsuc m) true due since solves rebuilds retries h = h
  force_lem (pos m) true due since solves rebuilds retries (a, b, c, d, e, f) =
      (a, b, inl refl, d, e, elim f [ inl (g, h, i) ↦ inl (g, h, refl) | inr g ↦ inr g ])
