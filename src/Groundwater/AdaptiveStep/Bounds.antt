-- ===== src/Groundwater/AdaptiveStep/Bounds.antt =====
-- The bounds of the step that gw/AdaptiveStep.cpp chooses.
use frehg.Prelude.{
  ℕ, zero, suc, ◌+◌, ◌<◌, ◌≤◌, ◌≡◌, refl, arith, ◌⊎◌, inl, inr, true, false, Bool-cases, Double,
  for_range, leb, leb→le,
}
use frehg.Groundwater.AdaptiveStep.{
  Cells, Limits, is_skipped, courant_step, lower_courant, sweep3, dq_max, courant_min, clamped_step,
  scaled_step, cap, local_step, adapt_time_step,
}

module _ {R : Type 0} (double : Double R) (limits : Limits R)
    (total : (x y : R) → double.lt x y ≡ false → double.le y x ≡ true)
    (lt_le : (x y : R) → double.lt x y ≡ true → double.le x y ≡ true)
    (transitive : (x y z : R) → double.le x y ≡ true → double.le y z ≡ true → double.le x z ≡ true)
    (reflexive : (x : R) → double.le x x ≡ true) where
  cap_le :
      (c : Cells R) (limit x : R)
      → (double.le (cap double limits c limit x) limit ≡ true)
        × (double.le (cap double limits c limit x) x ≡ true)
  cap_le c limit x = elim (Bool-cases (double.lt limit x)) [
    | inl e ↦ rw e (reflexive limit, lt_le limit x e)
    | inr e ↦ rw e (total limit x e, reflexive x)
  ]

  abbrev Bounded : R → R → Type 0
  Bounded courant x =
      (double.le limits.dt_min x ≡ true)
      × (double.le x limits.dt_max ≡ true)
      × ((double.le x courant ≡ true) ⊎ (x ≡ limits.dt_min))

  clamped_step-Bounded :
      (c : Cells R) (dtg dq courant : R)
      → double.le limits.dt_min limits.dt_max ≡ true
      → Bounded courant (clamped_step double limits c dtg dq courant)
  unfolding clamped_step
  clamped_step-Bounded c dtg dq courant order =
      let y = cap double limits c courant (scaled_step double limits c dtg dq) in
      let x = cap double limits c limits.dt_max y in
      let (low, below) = cap_le c limits.dt_max y in
      let (limit, other) = cap_le c courant (scaled_step double limits c dtg dq) in
      elim (Bool-cases (double.lt x limits.dt_min)) [
        | inl e ↦ rw e (reflexive limits.dt_min, order, inr refl)
        | inr e ↦ rw e (total x limits.dt_min e, low, inl (transitive x y courant below limit))
      ]

  abbrev Lowers : (R → R) → Type 0
  Lowers f = (v : R) → double.le (f v) v ≡ true

  fold-Lowers :
      (body : ℕ → R → R) → ((m : ℕ) → Lowers (body m)) → (n i : ℕ) → Lowers (for_range n i body)
  unfolding for_range
  fold-Lowers body h zero i v = reflexive v
  fold-Lowers body h (suc n) i v =
      transitive (for_range n (i + 1) body (body i v)) (body i v) v
        (fold-Lowers body h n (i + 1) (body i v)) (h i v)

  -- A round that brings the value to `x` or below keeps it there.
  fold_hit :
      (body : ℕ → R → R)
      → ((m : ℕ) → Lowers (body m))
      → (x : R) (m : ℕ) → ((v : R) → double.le (body m v) x ≡ true)
      → (n i : ℕ) (v : R) → i ≤ m
      → m < i + n
      → double.le (for_range n i body v) x ≡ true
  unfolding for_range
  fold_hit body h x m hit zero i v a b = absurd (omega arith)
  fold_hit body h x m hit (suc n) i v a b = elim (Bool-cases (leb m i)) [
    | inl e ↦
        let here : m ≡ i = omega (arith, leb→le m i e) in
        transitive (for_range n (i + 1) body (body i v)) (body i v) x
          (fold-Lowers body h n (i + 1) (body i v)) (rw here at (hit v))
    | inr e ↦ fold_hit body h x m hit n (i + 1) (body i v) (ground arith) (omega arith)
  ]

  module _ (highest : R) (c : Cells R) (nyl nxl nz : ℕ) where
    abbrev lower : ℕ → ℕ → ℕ → R → R
    lower = lower_courant double limits c

    lower-Lowers : (j i k : ℕ) → Lowers (lower j i k)
    unfolding lower_courant
    lower-Lowers j i k v = elim (Bool-cases (is_skipped double limits c j i k)) [
      | inl e ↦ rw e (reflexive v)
      | inr e ↦ elim (Bool-cases (double.lt (c.wc j i k) (c.wcs j i k))) [
        | inr g ↦ rw (e, g) (reflexive v)
        | inl g ↦ elim (Bool-cases (double.lt (courant_step double limits c j i k) v)) [
          | inl f ↦ rw (e, g, f) (lt_le (courant_step double limits c j i k) v f)
          | inr f ↦ rw (e, g, f) (reflexive v)
        ]
      ]
    ]

    -- The cells that the Courant limit reads.
    abbrev pub Limited : ℕ → ℕ → ℕ → Type 0
    Limited j i k =
        (is_skipped double limits c j i k ≡ false)
        × (double.lt (c.wc j i k) (c.wcs j i k) ≡ true)
        × (1 ≤ j)
        × (j < 1 + nyl)
        × (1 ≤ i)
        × (i < 1 + nxl)
        × (k < nz)

    lower_hit :
        (j i k : ℕ)
        → Limited j i k
        → (v : R) → double.le (lower j i k v) (courant_step double limits c j i k) ≡ true
    unfolding lower_courant
    lower_hit j i k (e, g, low_j, high_j, low_i, high_i, high_k) v =
        elim (Bool-cases (double.lt (courant_step double limits c j i k) v)) [
          | inl f ↦ rw (e, g, f) (reflexive (courant_step double limits c j i k))
          | inr f ↦ rw (e, g, f) (total (courant_step double limits c j i k) v f)
        ]

    courant_min-le :
        (j i k : ℕ)
        → Limited j i k
        → double.le
            (courant_min double limits c highest nyl nxl nz)
            (courant_step double limits c j i k)
          ≡ true
    unfolding courant_min sweep3
    courant_min-le j i k h =
        let (e, g, low_j, high_j, low_i, high_i, high_k) = h in
        fold_hit (λ a. for_range nxl 1 (λ b. for_range nz 0 (λ d. lower a b d)))
          (λ a. fold-Lowers _ (λ b. fold-Lowers _ (λ d. lower-Lowers a b d) nz 0) nxl 1)
          (courant_step double limits c j i k) j
          (λ v.
            fold_hit (λ b. for_range nz 0 (λ d. lower j b d))
              (λ b. fold-Lowers _ (λ d. lower-Lowers j b d) nz 0)
              (courant_step double limits c j i k) i
              (λ u.
                fold_hit (λ d. lower j i d) (λ d. lower-Lowers j i d)
                  (courant_step double limits c j i k) k (lower_hit j i k h) nz 0 u (omega arith)
                  (omega arith))
              nxl 1 v low_i high_i)
          nyl 1 highest low_j high_j

  -- With `<` and `≤` a total order without NaN, `min_all` the least of the values of the ranks, and
  -- dt_min ≤ dt_max: the step that all ranks take next lies in [dt_min, dt_max], and it is within the
  -- Courant limit of every unsaturated active cell below the top of its column on every rank, or at
  -- most dt_min.
  pub adapt_time_step-Bounded :
      (lowest highest : R) (cells : ℕ → Cells R) (nyl nxl : ℕ → ℕ) (nz ranks : ℕ)
      (min_all : (ℕ → R) → R) (dtg : R)
      (least : (f : ℕ → R) (r : ℕ) → r < ranks → double.le (min_all f) (f r) ≡ true)
      (attained : (f : ℕ → R) → (r : ℕ) × (r < ranks) × (min_all f ≡ f r))
      → double.le limits.dt_min limits.dt_max ≡ true
      → (double.le limits.dt_min
            (adapt_time_step double limits lowest highest cells nyl nxl nz min_all dtg)
          ≡ true)
        × (double.le
              (adapt_time_step double limits lowest highest cells nyl nxl nz min_all dtg)
              limits.dt_max
            ≡ true)
        × ((r j i k : ℕ)
            → r < ranks
            → Limited highest (cells r) (nyl r) (nxl r) nz j i k
            → (double.le
                  (adapt_time_step double limits lowest highest cells nyl nxl nz min_all dtg)
                  (courant_step double limits (cells r) j i k)
                ≡ true)
              ⊎ (double.le
                    (adapt_time_step double limits lowest highest cells nyl nxl nz min_all dtg)
                    limits.dt_min
                  ≡ true))
  unfolding adapt_time_step local_step
  adapt_time_step-Bounded lowest highest cells nyl nxl nz ranks min_all dtg least attained order =
      let (q, lt, same) = attained all in
      let (low, high, limit) = local q in
      (rw same low, rw same high, λ r j i k less cell. within r j i k less cell (local r))
    where
      all : ℕ → R
      all r = local_step double limits (cells r) lowest highest (nyl r) (nxl r) nz dtg

      local :
          (r : ℕ) → Bounded (courant_min double limits (cells r) highest (nyl r) (nxl r) nz) (all r)
      local r =
          clamped_step-Bounded (cells r) dtg
            (dq_max double limits (cells r) lowest (nyl r) (nxl r) nz dtg)
            (courant_min double limits (cells r) highest (nyl r) (nxl r) nz) order

      within :
          (r j i k : ℕ)
          → r < ranks
          → Limited highest (cells r) (nyl r) (nxl r) nz j i k
          → Bounded (courant_min double limits (cells r) highest (nyl r) (nxl r) nz) (all r)
          → (double.le (min_all all) (courant_step double limits (cells r) j i k) ≡ true)
            ⊎ (double.le (min_all all) limits.dt_min ≡ true)
      within r j i k less cell (low, high, inl below) = inl (
          transitive (min_all all) (all r) (courant_step double limits (cells r) j i k)
            (least all r less)
            (transitive (all r) (courant_min double limits (cells r) highest (nyl r) (nxl r) nz)
              (courant_step double limits (cells r) j i k) below
              (courant_min-le highest (cells r) (nyl r) (nxl r) nz j i k cell)))
      within r j i k less cell (low, high, inr floor) = inr (rw floor at (least all r less))
