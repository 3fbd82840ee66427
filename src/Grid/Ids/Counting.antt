-- ===== src/Grid/Ids/Counting.antt =====
-- The counting loop of `Grid::buildGlobalIds` (core/Grid.cpp) and its check of the mask.
use frehg.Prelude.{
  ℕ, suc, ◌<◌, ◌≡◌, refl, true, arith, Result, ok, fatal, for_range_all, ℤ, ◌⊎◌, inl, inr, ◌↔◌,
  ◌&&◌, ◌==◌, Bool-cases, ◌∙◌,
}
use frehg.Grid.Ids.{IdError, Counts, ktop_outside, check_ktop, count_cell, count_cells}
use frehg.Grid.Ids.Numbering.{before2, before3}

module _ (nx_local ny_local nz : ℕ) (ktop : ℕ → ℕ → ℤ) where
  abbrev pub InRange : ℕ → ℕ → Type 0
  InRange j i = check_ktop nx_local ny_local nz ktop (ktop j i) ≡ true

  abbrev pub counted : ℕ → ℕ → Result IdError Counts
  counted j i = ok (record {
    two = before2 nx_local ny_local nz ktop j i;
    three = before3 nx_local ny_local nz ktop j i;
  })

  -- The state of the loop before the cell (row, i): the counts so far with every value seen in
  -- range, or the error with a cell of the block whose value is not.
  abbrev Seen : ℕ → ℕ → Result IdError Counts → Type 0
  Seen row i r =
      ((r ≡ counted row i)
        × ((a b : ℕ) → (a < row) × (b < nx_local) ⊎ (a ≡ row) × (b < i) → InRange a b))
      ⊎ ((r ≡ fatal ktop_outside)
          × ((a : ℕ) × (b : ℕ) × (a < ny_local) × (b < nx_local) × ¬ InRange a b))

  count_cell-ok :
      (j i : ℕ)
      → InRange j i
      → count_cell nx_local ny_local nz ktop j i (counted j i) ≡ counted j (suc i)
  unfolding count_cell
  count_cell-ok j i h = ground arith

  count_cell-Seen :
      (j i : ℕ) (r : Result IdError Counts)
      → j < ny_local
      → i < nx_local
      → Seen j i r
      → Seen j (suc i) (count_cell nx_local ny_local nz ktop j i r)
  count_cell-Seen j i r hj hi (inr (e, bad)) = inr (unfold count_cell in rw e refl, bad)
  count_cell-Seen j i r hj hi (inl (e, seen)) =
      elim (Bool-cases (check_ktop nx_local ny_local nz ktop (ktop j i))) [
        | inl good ↦ inl (
          rw e (count_cell-ok j i good),
          λ a b h. elim (Bool-cases (a == j && b == i)) [
            | inl here ↦ let at : (a ≡ j) × (b ≡ i) = ground arith in rw (at.0, at.1) good
            | inr other ↦ seen a b (ground arith)
          ],
        )
        | inr bad ↦ inr (unfold count_cell in rw (e, bad) refl, (j, i, hj, hi, λ good. cc))
      ]

  next_row : (j : ℕ) (r : Result IdError Counts) → Seen j nx_local r → Seen (suc j) 0 r
  next_row j r (inl (e, seen)) = inl (e ∙ ground arith, λ a b h. seen a b (ground arith))
  next_row j r (inr bad) = inr bad

  count_cells-Seen : Seen ny_local 0 (count_cells nx_local ny_local nz ktop)
  unfolding count_cells
  count_cells-Seen =
      for_range_all (λ j. Seen j 0) _ ny_local
        (λ j r hj s.
          next_row j _
            (for_range_all (λ i. Seen j i) _ nx_local (λ i t hi. count_cell-Seen j i t hj hi) r s))
        _ (inl (refl, λ a b h. absurd (ground arith)))

  -- The loop returns the numbers of active columns and of active cells of the block exactly when
  -- every value of the mask lies in [0, nz], and the error exactly when some value does not.
  pub count_cells_lem :
      ((count_cells nx_local ny_local nz ktop ≡ counted ny_local 0)
        ↔ ((j i : ℕ) → j < ny_local → i < nx_local → InRange j i))
      × ((count_cells nx_local ny_local nz ktop ≡ fatal ktop_outside)
          ↔ ((j : ℕ) × (i : ℕ) × (j < ny_local) × (i < nx_local) × ¬ InRange j i))
  count_cells_lem = elim count_cells-Seen [
    | inl (e, seen) ↦ (
      (λ _ j i hj hi. seen j i (inl (hj, hi)), λ _. e),
      (λ f. absurd (cc), λ (j, i, hj, hi, bad). absurd (bad (seen j i (inl (hj, hi))))),
    )
    | inr (e, (a, b, ha, hb, bad)) ↦ (
      (λ f. absurd (cc), λ all. absurd (bad (all a b ha hb))),
      (λ _. (a, b, ha, hb, bad), λ _. e),
    )
  ]
