-- ===== src/Coupling/Exchange/Cells.antt =====
-- What the kernels of coupling/Exchange.cpp do to each cell.
use frehg.Prelude.{
  ℕ, ◌≡◌, ◌∙◌, ◌⊎◌, refl, arith, ◌==◌, Bool, true, false, ◌&&◌, ◌||◌, if◌then◌else◌, Double,
  is_owned, sweep_lem, Bool-cases, inl, inr,
}
use frehg.Coupling.Exchange.{
  Shared, Cell, Applied, cell_of, write, apply_cell, apply_at, apply_seepage,
}

write_here : {A : Type 0} (j i : ℕ) (x : A) (f : ℕ → ℕ → A) → write j i x f j i ≡ x
write_here j i x f = ground arith

write_away :
    {A : Type 0} (j i a b : ℕ) (x : A) (f : ℕ → ℕ → A)
    → (a == j && b == i) ≡ false
    → write j i x f a b ≡ f a b
write_away j i a b x f h = rw h refl

rebuild :
    {R : Type 0} (c d : Cell R)
    → d.dept ≡ c.dept
    → d.bottom ≡ c.bottom
    → record {
      eta = d.eta;
      dept = c.dept;
      bottom = c.bottom;
      seep_accum = d.seep_accum;
      gain = d.gain;
      qss = d.qss;
    }
      ≡ d
rebuild c d e f = rw (← e, ← f) refl

module _ {R : Type 0} (double : Double R) (dt min_depth : R) where
  keeps :
      (c : Cell R)
      → ((apply_cell double dt min_depth c).dept ≡ c.dept)
        × ((apply_cell double dt min_depth c).bottom ≡ c.bottom)
  unfolding apply_cell
  keeps c = (ground arith, ground arith)

  apply_here :
      (j i : ℕ) (s : Applied R)
      → cell_of j i (apply_at double dt min_depth j i s).shared
        ≡ apply_cell double dt min_depth (cell_of j i s.shared)
  unfolding apply_at
  apply_here j i s =
      let self : (j == j && i == i) ≡ true = ground arith in
      let (dept, bottom) = keeps (cell_of j i s.shared) in
      rw self (
        rebuild (cell_of j i s.shared) (apply_cell double dt min_depth (cell_of j i s.shared)) dept
          bottom)

  apply_away :
      (j i a b : ℕ) (s : Applied R)
      → (a == j && b == i) ≡ false
      → cell_of a b (apply_at double dt min_depth j i s).shared ≡ cell_of a b s.shared
  unfolding apply_at
  apply_away j i a b s h = rw h refl

  -- The seepage treats each owned cell once, and no other.
  apply_seepage_lem :
      (nyl nxl a b : ℕ) (f : Shared R)
      → cell_of a b (apply_seepage double dt min_depth nyl nxl f).shared ≡ (
          if is_owned nyl nxl a b
          then apply_cell double dt min_depth (cell_of a b f)
          else cell_of a b f)
  unfolding apply_seepage
  apply_seepage_lem nyl nxl a b f =
      sweep_lem (λ s j i. cell_of j i s.shared) (λ j i. apply_cell double dt min_depth)
        (apply_at double dt min_depth) apply_here apply_away nyl nxl a b
        (record { shared = f; applied = double.of_int 0; discarded = double.of_int 0 })

  -- A cell before and after the seepage `a` of a window. Infiltration takes the level down to the
  -- bottom at most, and what it took is gained; exfiltration onto water, or of more than the least
  -- depth, raises the level and is gained. Both empty the accumulated seepage. Other exfiltration
  -- stays accumulated.
  abbrev pub Seeps : Cell R → Cell R → Type 0
  Seeps c d =
      let a = c.seep_accum in
      let zero_real = double.of_int 0 in
      (d.qss ≡ double.div a dt)
      × (d.dept ≡ c.dept)
      × (d.bottom ≡ c.bottom)
      × (((double.lt a zero_real ≡ true)
            × (((double.lt (double.add c.eta a) c.bottom ≡ true) × (d.eta ≡ c.bottom))
                ⊎ ((double.lt (double.add c.eta a) c.bottom ≡ false)
                    × (d.eta ≡ double.add c.eta a)))
            × (d.gain ≡ double.add c.gain (double.sub d.eta c.eta))
            × (d.seep_accum ≡ zero_real))
          ⊎ ((double.lt a zero_real ≡ false)
              × ((double.lt min_depth c.dept ≡ true) ⊎ (double.lt min_depth a ≡ true))
              × (d.eta ≡ double.add c.eta a)
              × (d.gain ≡ double.add c.gain a)
              × (d.seep_accum ≡ zero_real))
          ⊎ ((double.lt a zero_real ≡ false)
              × (double.lt min_depth c.dept ≡ false)
              × (double.lt min_depth a ≡ false)
              × (d.eta ≡ c.eta)
              × (d.gain ≡ c.gain)
              × (d.seep_accum ≡ a)))

  apply_cell-Seeps : (c : Cell R) → Seeps c (apply_cell double dt min_depth c)
  unfolding apply_cell
  apply_cell-Seeps c = elim (Bool-cases (double.lt c.seep_accum (double.of_int 0))) [
    | inl e ↦ elim (Bool-cases (double.lt (double.add c.eta c.seep_accum) c.bottom)) [
      | inl g ↦ rw (e, g) (refl, refl, refl, inl (refl, inl (refl, refl), refl, refl))
      | inr g ↦ rw (e, g) (refl, refl, refl, inl (refl, inr (refl, refl), refl, refl))
    ]
    | inr e ↦ elim (Bool-cases (double.lt min_depth c.dept)) [
      | inl g ↦ rw (e, g) (refl, refl, refl, inr (inl (refl, inl refl, refl, refl, refl)))
      | inr g ↦ elim (Bool-cases (double.lt min_depth c.seep_accum)) [
        | inl f ↦ rw (e, g, f) (refl, refl, refl, inr (inl (refl, inr refl, refl, refl, refl)))
        | inr f ↦ rw (e, g, f) (refl, refl, refl, inr (inr (refl, refl, refl, refl, refl, refl)))
      ]
    ]
  ]

  -- After the seepage over the owned block: each owned cell has seeped once, from what it held
  -- before, and every other cell is as before.
  pub apply_seepage-Seeps :
      (nyl nxl a b : ℕ) (f : Shared R)
      → let before = cell_of a b f in
        let after = cell_of a b (apply_seepage double dt min_depth nyl nxl f).shared in
        ((is_owned nyl nxl a b ≡ true) × Seeps before after)
        ⊎ ((is_owned nyl nxl a b ≡ false) × (after ≡ before))
  apply_seepage-Seeps nyl nxl a b f = elim (Bool-cases (is_owned nyl nxl a b)) [
    | inl e ↦ inl (e, rw (apply_seepage_lem nyl nxl a b f, e) (apply_cell-Seeps (cell_of a b f)))
    | inr e ↦ inr (e, apply_seepage_lem nyl nxl a b f ∙ rw e refl)
  ]

  module _ (irreflexive : (x : R) → double.lt x x ≡ false)
      (grows : (x a b : R)
        → double.lt a (double.of_int 0) ≡ false
        → double.lt x b ≡ false
        → double.lt (double.add x a) b ≡ false) where
    lowered_bottom : (x b : R) → double.lt (if double.lt x b then b else x) b ≡ false
    lowered_bottom x b = elim (Bool-cases (double.lt x b)) [
      | inl e ↦ rw e (irreflexive b)
      | inr e ↦ rw e e
    ]

    apply_cell_bottom :
        (c : Cell R)
        → double.lt c.eta c.bottom ≡ false
        → double.lt (apply_cell double dt min_depth c).eta (apply_cell double dt min_depth c).bottom
          ≡ false
    unfolding apply_cell
    apply_cell_bottom c h = elim (Bool-cases (double.lt c.seep_accum (double.of_int 0))) [
      | inl e ↦ rw e (lowered_bottom (double.add c.eta c.seep_accum) c.bottom)
      | inr e ↦ elim (Bool-cases (double.lt min_depth c.dept || double.lt min_depth c.seep_accum)) [
        | inl g ↦ rw (e, g) (grows c.eta c.seep_accum c.bottom e h)
        | inr g ↦ rw (e, g) h
      ]
    ]

    -- With comparison irreflexive and the sum with a number that is not negative not below the
    -- other one: no level that was not below its bottom falls below it.
    pub seepage_bottom :
        (nyl nxl a b : ℕ) (f : Shared R)
        → double.lt (f.eta a b) (f.bottom a b) ≡ false
        → double.lt
            ((apply_seepage double dt min_depth nyl nxl f).shared.eta a b)
            ((apply_seepage double dt min_depth nyl nxl f).shared.bottom a b)
          ≡ false
    seepage_bottom nyl nxl a b f h =
        from_cell (cell_of a b (apply_seepage double dt min_depth nyl nxl f).shared) _
          (apply_seepage_lem nyl nxl a b f) (either (is_owned nyl nxl a b))
      where
        from_cell :
            (x y : Cell R)
            → x ≡ y
            → double.lt y.eta y.bottom ≡ false
            → double.lt x.eta x.bottom ≡ false
        from_cell x y e g = rw e g

        either :
            (o : Bool)
            → double.lt
                (if o then apply_cell double dt min_depth (cell_of a b f) else cell_of a b f).eta
                (if o then apply_cell double dt min_depth (cell_of a b f) else cell_of a b f).bottom
              ≡ false
        either true = apply_cell_bottom (cell_of a b f) h
        either false = h
