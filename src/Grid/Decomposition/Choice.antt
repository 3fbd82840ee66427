-- ===== src/Grid/Decomposition/Choice.antt =====
-- What `Grid::chooseDecomposition` (core/Grid.cpp) chooses: the count of ranks is kept, and the
-- automatic layout fits the grid whenever some layout does.
use native.Mathlib.Nat.{mul_comm, div-add-mod}
use frehg.Prelude.{
  ℕ, suc, ◌*◌, ◌/◌, ◌%◌, ◌≤◌, ◌<◌, min, ◌≡◌, refl, ◌⊎◌, inl, inr, true, false, arith, ltb, some,
  none, ok, Bool-cases, for_range_inv, ltb→lt, ltb→le, lt→ltb, ap, ◌||◌, ◌∙◌,
}
use frehg.Grid.Decomposition.{
  Best, fits, score_of, try_candidate, fallback, by_extent, refit, choose_decomposition,
}

module _ (nx ny size : ℕ) where
  -- The loop has seen the candidates below `c`: none of them fits and nothing is kept, or the kept
  -- one fits and no fitting one has a higher score.
  abbrev NoneSeen : ℕ → Best → Type 0
  NoneSeen c b =
      (b.x ≡ 0) × (b.score ≡ none) × ((d : ℕ) → 0 < d → d < c → fits nx ny size d ≡ false)

  abbrev BestSeen : ℕ → Best → Type 0
  BestSeen c b =
      (0 < b.x)
      × (b.x < c)
      × (fits nx ny size b.x ≡ true)
      × (b.score ≡ some (score_of nx ny size b.x))
      × ((d : ℕ)
          → 0 < d
          → d < c
          → fits nx ny size d ≡ true
          → score_of nx ny size d ≤ score_of nx ny size b.x)

  below-suc : (d c : ℕ) → d < suc c → (d < c) ⊎ (d ≡ c)
  below-suc d c h = elim (Bool-cases (ltb d c)) [
    | inl e ↦ inl (ground arith)
    | inr e ↦ inr (ground arith)
  ]

  Seen-try :
      (c : ℕ) (b : Best)
      → 0 < c
      → NoneSeen c b ⊎ BestSeen c b
      → NoneSeen (suc c) (try_candidate nx ny size c b)
        ⊎ BestSeen (suc c) (try_candidate nx ny size c b)
  unfolding try_candidate
  Seen-try c b h (inl (ex, es, no_fit)) = elim (Bool-cases (fits nx ny size c)) [
    | inl e ↦
        rw (e, es)
          (inr (
            h,
            omega arith,
            e,
            refl,
            λ d p q f. elim (below-suc d c q) [
              | inl l ↦ cc (no_fit d p l)
              | inr r ↦ rw r (omega arith)
            ],
          ))
    | inr e ↦
        rw e
          (inl (ex, es, λ d p q. elim (below-suc d c q) [ inl l ↦ no_fit d p l | inr r ↦ rw r e ]))
  ]
  Seen-try c b h (inr (px, pc, pf, ps, most)) = elim (Bool-cases (fits nx ny size c)) [
    | inl e ↦ elim (Bool-cases (ltb (score_of nx ny size b.x) (score_of nx ny size c))) [
      | inl more ↦
          rw (e, ps, more)
            (inr (
              h,
              omega arith,
              e,
              refl,
              λ d p q f. elim (below-suc d c q) [
                | inl l ↦ omega (arith, most d p l f, ltb→lt _ _ more)
                | inr r ↦ rw r (omega arith)
              ],
            ))
      | inr less ↦
          rw (e, ps, less)
            (inr (
              px,
              omega arith,
              pf,
              refl,
              λ d p q f. elim (below-suc d c q) [
                | inl l ↦ most d p l f
                | inr r ↦ rw r (ltb→le _ _ less)
              ],
            ))
    ]
    | inr e ↦ rw e (
        inr (
          px,
          omega arith,
          pf,
          ps,
          λ d p q f. elim (below-suc d c q) [
            | inl l ↦ most d p l f
            | inr r ↦ cc (ap (fits nx ny size) r)
          ],
        ))
  ]

  fallback_seen :
      NoneSeen (suc size) (fallback nx ny size) ⊎ BestSeen (suc size) (fallback nx ny size)
  unfolding fallback
  fallback_seen =
      (for_range_inv (λ c b. (0 < c) × (NoneSeen c b ⊎ BestSeen c b)) (try_candidate nx ny size)
        (suc size) (λ c b k (h, s). (omega arith, Seen-try c b h s)) size 1 _ (omega arith)
        (omega arith, inl (refl, refl, λ d p q. absurd (omega arith)))).1

  mod-product : (c : ℕ) → size % c ≡ 0 → c * (size / c) ≡ size
  mod-product c exact = omega (arith, div-add-mod size c)

  divides-product : (c : ℕ) → fits nx ny size c ≡ true → c * (size / c) ≡ size
  divides-product c f = mod-product c (ground arith)

  fits-bounds : (c : ℕ) → fits nx ny size c ≡ true → (c ≤ nx) × (size / c ≤ ny)
  fits-bounds c f = ground arith

  -- The kept candidate and its cofactor.
  fallback-product :
      0 < (fallback nx ny size).x
      → (fallback nx ny size).x * (size / (fallback nx ny size).x) ≡ size
  fallback-product h = elim fallback_seen [
    | inl s ↦ absurd (omega (arith, s.0))
    | inr s ↦ divides-product (fallback nx ny size).x s.2
  ]

  by_extent-product :
      (dims : ℕ × ℕ)
      → (by_extent nx ny size dims).0 * (by_extent nx ny size dims).1 ≡ dims.0 * dims.1
  unfolding by_extent
  by_extent-product dims = grind (arith, mul_comm)

  refit-product :
      (layout : ℕ × ℕ)
      → layout.0 * layout.1 ≡ size
      → (refit nx ny size layout).0 * (refit nx ny size layout).1 ≡ size
  unfolding refit
  refit-product layout h = ground (arith, fallback-product)

  fallback_found :
      (c : ℕ)
      → 0 < c
      → c ≤ size
      → fits nx ny size c ≡ true
      → (0 < (fallback nx ny size).x)
        × (fits nx ny size (fallback nx ny size).x ≡ true)
        × (score_of nx ny size c ≤ score_of nx ny size (fallback nx ny size).x)
  fallback_found c h k f = elim fallback_seen [
    | inl s ↦ cc (s.2 c h (omega arith))
    | inr s ↦ (s.0, s.2, s.4 c h (omega arith) f)
  ]

  refit-fits :
      (layout : ℕ × ℕ) (c : ℕ)
      → 0 < c
      → c ≤ size
      → fits nx ny size c ≡ true
      → ((refit nx ny size layout).0 ≤ nx) × ((refit nx ny size layout).1 ≤ ny)
  unfolding refit
  refit-fits layout c h k f =
      let found = fallback_found c h k f in
      let small = fits-bounds (fallback nx ny size).x found.1 in
      ground (arith, found.0, small.0, small.1)

  refit-score :
      (layout : ℕ × ℕ) (c : ℕ)
      → 0 < c
      → c ≤ size
      → fits nx ny size c ≡ true
      → let d = refit nx ny size layout in
        (d ≡ layout) ⊎ (score_of nx ny size c ≤ min (nx / d.0) (ny / d.1))
  unfolding refit
  refit-score layout c h k f =
      let found = fallback_found c h k f in
      elim (Bool-cases (ltb nx layout.0 || ltb ny layout.1)) [
        | inl e ↦ rw (e, lt→ltb _ _ found.0) (inr found.2)
        | inr e ↦ rw e (inl refl)
      ]

  module _ (dims_create : ℕ → ℕ × ℕ) where
    -- Whenever a layout is chosen, its two counts multiply to the number of ranks, provided that
    -- those of `MPI_Dims_create` do.
    choose_decomposition-product :
        (req_x req_y : ℕ) {d : ℕ × ℕ}
        → (dims_create size).0 * (dims_create size).1 ≡ size
        → choose_decomposition nx ny size dims_create req_x req_y ≡ ok d
        → d.0 * d.1 ≡ size
    unfolding choose_decomposition
    choose_decomposition-product req_x req_y h e =
        let layout = by_extent nx ny size (dims_create size) in
        let product : layout.0 * layout.1 ≡ size = by_extent-product (dims_create size) ∙ h in
        let kept = refit-product layout product in
        ground (arith, mod-product req_x, mod-product req_y, mul_comm (size / req_y) req_y, kept)

    -- With nothing requested, and some divisor `c` of the rank count that leaves no block empty, the
    -- chosen layout leaves no block empty either. If the layout of `MPI_Dims_create` has to be
    -- replaced, then by one whose smaller block extent is at least that of `c`.
    pub choose_automatic_fits :
        (c : ℕ)
        → 0 < c
        → c ≤ size
        → fits nx ny size c ≡ true
        → (d : ℕ × ℕ) × (choose_decomposition nx ny size dims_create 0 0 ≡ ok d)
          × (d.0 ≤ nx)
          × (d.1 ≤ ny)
          × ((d ≡ by_extent nx ny size (dims_create size))
              ⊎ (score_of nx ny size c ≤ min (nx / d.0) (ny / d.1)))
    unfolding choose_decomposition
    choose_automatic_fits c h k f =
        let layout = by_extent nx ny size (dims_create size) in
        let (w, l) = refit-fits layout c h k f in
        (refit nx ny size layout, refl, w, l, refit-score layout c h k f)
