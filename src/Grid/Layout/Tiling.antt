-- ===== src/Grid/Layout/Tiling.antt =====
-- The blocks of all ranks (core/Grid.cpp) tile the grid, and the neighbours are the adjacent blocks.
use native.Mathlib.Nat.{div-add-mod', mod-lt}
use frehg.Prelude.{ℕ, suc, ◌+◌, ◌-◌, ◌*◌, ◌/◌, ◌%◌, ◌≤◌, ◌<◌, ◌≡◌, ◌↔◌, arith, some, ap, sym}
use frehg.Grid.Blocks.{block_size, block_start, block_start-suc, InBlock, InBlock-owner, InBlock-eq}
use frehg.Grid.Layout.{Layout, place}

-- The block of the layout holds the global cell (i, j).
abbrev pub Owns : Layout → ℕ → ℕ → Type 0
Owns l i j = (l.i0 ≤ i) × (i < l.i0 + l.nx_local) × (l.j0 ≤ j) × (j < l.j0 + l.ny_local)

module _ (nx ny px py : ℕ) (px_pos : 0 < px) (py_pos : 0 < py) where
  divmod : (p q : ℕ) → p < px → ((q * px + p) % px ≡ p) × ((q * px + p) / px ≡ q)
  divmod p q h = (grind arith, grind arith)

  rank-lt : (p q : ℕ) → p < px → q < py → q * px + p < px * py
  rank-lt p q h k = grind arith

  pub row-lt : (r : ℕ) → r < px * py → r / px < py
  row-lt r h = grind arith

  next_column : (r : ℕ) → r % px + 1 < px → ((r + 1) % px ≡ r % px + 1) × ((r + 1) / px ≡ r / px)
  next_column r h =
      let e : r + 1 ≡ (r / px) * px + (r % px + 1) = omega (arith, div-add-mod' r px) in
      rw e (divmod (r % px + 1) (r / px) h)

  next_row : (r : ℕ) → ((r + px) % px ≡ r % px) × ((r + px) / px ≡ r / px + 1)
  next_row r =
      let e : r + px ≡ (r / px + 1) * px + r % px = omega (arith, div-add-mod' r px) in
      rw e (divmod (r % px) (r / px + 1) (mod-lt r px_pos))

  -- Every cell of the grid lies in the block of exactly one rank.
  pub place_tiles :
      (i j : ℕ)
      → i < nx
      → j < ny
      → (r : ℕ) × (r < px * py)
        × Owns (place nx ny px py r) i j
        × ((s : ℕ) → s < px * py → Owns (place nx ny px py s) i j → s ≡ r)
  unfolding place
  place_tiles i j hi hj =
      let (p, p_lt, p_in) = InBlock-owner nx px i px_pos hi in
      let (q, q_lt, q_in) = InBlock-owner ny py j py_pos hj in
      let (em, ed) = divmod p q p_lt in
      (
        q * px + p,
        rank-lt p q p_lt q_lt,
        rw (em, ed) (p_in.0, p_in.1, q_in.0, q_in.1),
        λ s hs o.
            let i_in : InBlock nx px i (s % px) = (o.0, o.1) in
            let j_in : InBlock ny py j (s / px) = (o.2, o.3) in
            omega (
              arith,
              InBlock-eq nx px i (s % px) p i_in p_in,
              div-add-mod' s px,
              ap (λ (t : ℕ). t * px) (InBlock-eq ny py j (s / px) q j_in q_in),
            ),
      )

  prev_column :
      (s : ℕ) → 0 < s % px → (0 < s) × ((s - 1) % px + 1 ≡ s % px) × ((s - 1) / px ≡ s / px)
  prev_column s h =
      let small : s % px - 1 < px = omega (arith, mod-lt s px_pos) in
      let e : s - 1 ≡ (s / px) * px + (s % px - 1) = omega (arith, div-add-mod' s px) in
      let (m, d) = divmod (s % px - 1) (s / px) small in
      (omega (arith, div-add-mod' s px), rw e (omega (arith, m)), rw e d)

  prev_row :
      (s : ℕ) → 0 < s / px → (px ≤ s) × ((s - px) % px ≡ s % px) × ((s - px) / px + 1 ≡ s / px)
  prev_row s h =
      let e : s ≡ (s / px - 1) * px + (s % px + px) = grind (arith, div-add-mod' s px) in
      let up = next_row (s - px) in
      let fits : px ≤ s = omega (arith, e) in
      let back : s - px + px ≡ s = omega arith in
      (fits, sym (rw back at up.0), sym (rw back at up.1))

  east_iff :
      (r s : ℕ) → ((place nx ny px py r).east ≡ some s) ↔ ((place nx ny px py s).west ≡ some r)
  unfolding place
  east_iff r s = (λ h. ground (arith, next_column r), λ h. ground (arith, prev_column s))

  north_iff :
      (r s : ℕ)
      → s < px * py
      → ((place nx ny px py r).north ≡ some s) ↔ ((place nx ny px py s).south ≡ some r)
  unfolding place
  north_iff r s h = (λ e. ground (arith, next_row r), λ e. ground (arith, prev_row s, row-lt s h))

  -- Two ranks see one another: the one is the other's eastern neighbour exactly when the other is
  -- its western one, and so for north and south.
  pub neighbours_mutual :
      (r s : ℕ)
      → s < px * py
      → (((place nx ny px py r).east ≡ some s) ↔ ((place nx ny px py s).west ≡ some r))
        × (((place nx ny px py r).north ≡ some s) ↔ ((place nx ny px py s).south ≡ some r))
  neighbours_mutual r s h = (east_iff r s, north_iff r s h)

  east_step :
      (r s : ℕ)
      → r < px * py
      → (place nx ny px py r).east ≡ some s
      → (s % px ≡ suc (r % px)) × (s / px ≡ r / px) × (s < px * py)
  unfolding place
  east_step r s h e =
      let facts : (s ≡ r + 1) × (r % px + 1 < px) = ground arith in
      let (m, d) = next_column r facts.1 in
      let bound = rank-lt (r % px + 1) (r / px) facts.1 (row-lt r h) in
      rw facts.0 (omega (arith, m), d, omega (arith, div-add-mod' r px, bound))

  north_step :
      (r s : ℕ)
      → (place nx ny px py r).north ≡ some s
      → (s % px ≡ r % px) × (s / px ≡ suc (r / px)) × (s < px * py)
  unfolding place
  north_step r s e =
      let facts : (s ≡ r + px) × (r / px + 1 < py) = ground arith in
      let (m, d) = next_row r in
      let bound = rank-lt (r % px) (r / px + 1) (mod-lt r px_pos) facts.1 in
      rw facts.0 (m, omega (arith, d), omega (arith, div-add-mod' r px, bound))

  -- The block east of a rank's block begins where that one ends and spans the same rows; the block
  -- to the north begins where it ends and spans the same columns.
  pub neighbours_adjacent :
      (r s : ℕ)
      → r < px * py
      → let a = place nx ny px py r in
        let b = place nx ny px py s in
        (a.east ≡ some s
          → (s < px * py) × (b.i0 ≡ a.i0 + a.nx_local) × (b.j0 ≡ a.j0) × (b.ny_local ≡ a.ny_local))
        × (a.north ≡ some s
            → (s < px * py)
              × (b.j0 ≡ a.j0 + a.ny_local)
              × (b.i0 ≡ a.i0)
              × (b.nx_local ≡ a.nx_local))
  neighbours_adjacent r s h = (λ e. east_geometry e, λ e. north_geometry e)
    where
      east_geometry :
          (place nx ny px py r).east ≡ some s
          → (s < px * py)
            × ((place nx ny px py s).i0 ≡ (place nx ny px py r).i0 + (place nx ny px py r).nx_local)
            × ((place nx ny px py s).j0 ≡ (place nx ny px py r).j0)
            × ((place nx ny px py s).ny_local ≡ (place nx ny px py r).ny_local)
      east_geometry e =
          let (m, d, bound) = east_step r s h e in
          unfold place in
          (
            bound,
            rw m (block_start-suc nx px (r % px)),
            ap (block_start ny py) d,
            ap (block_size ny py) d,
          )

      north_geometry :
          (place nx ny px py r).north ≡ some s
          → (s < px * py)
            × ((place nx ny px py s).j0 ≡ (place nx ny px py r).j0 + (place nx ny px py r).ny_local)
            × ((place nx ny px py s).i0 ≡ (place nx ny px py r).i0)
            × ((place nx ny px py s).nx_local ≡ (place nx ny px py r).nx_local)
      north_geometry e =
          let (m, d, bound) = north_step r s e in
          unfold place in
          (
            bound,
            rw d (block_start-suc ny py (r / px)),
            ap (block_start nx px) m,
            ap (block_size nx px) m,
          )
