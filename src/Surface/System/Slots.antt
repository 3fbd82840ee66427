-- ===== src/Surface/System/Slots.antt =====
-- The slots of the flat arrays: every owned cell has its entries in those of its row.
use frehg.Prelude.{
  ℕ, ◌+◌, ◌*◌, ◌≡◌, ◌≢◌, refl, arith, ◌==◌, ◌≤◌, ◌<◌, inl, inr, true, ◌&&◌, Bool-cases, for_range,
  for_range_inv, for_range_reach, is_owned, Option, Double,
}
use frehg.Surface.State.{Settings, Surface, nyl, nxl}
use frehg.Surface.System.{Entries, Coo, row_of, row_entries, write_entries, fill_coo}

module _ {R : Type 0} where
  -- The slots of a row hold given entries.
  abbrev pub Holds : ℕ → Entries R → Coo R → Type 0
  Holds row e c =
      (c.values (5 * row) ≡ e.diag)
      × (c.values (5 * row + 1) ≡ e.xm)
      × (c.values (5 * row + 2) ≡ e.xp)
      × (c.values (5 * row + 3) ≡ e.ym)
      × (c.values (5 * row + 4) ≡ e.yp)
      × (c.rhs row ≡ e.rhs)

  write-Holds : (row : ℕ) (e : Entries R) (c : Coo R) → Holds row e (write_entries row e c)
  unfolding write_entries
  write-Holds row e c =
      (ground arith, ground arith, ground arith, ground arith, ground arith, ground arith)

  write_away :
      (row other : ℕ) (e f : Entries R) (c : Coo R)
      → row ≢ other
      → Holds row e c
      → Holds row e (write_entries other f c)
  unfolding write_entries
  write_away row other e f c h (d, xm, xp, ym, yp, b) =
      (ground arith, ground arith, ground arith, ground arith, ground arith, ground arith)

module _ {R : Type 0} ⦃double : Double R⦄ (s : Settings R) (gid : ℕ → ℕ → Option ℕ)
    (offset : ℕ) where
  abbrev pub IsCell : ℕ → ℕ → Type 0
  IsCell j i = is_owned (nyl s) (nxl s) j i ≡ true

  -- No two owned cells have one row.
  abbrev pub HasDistinctRows : Type 0
  HasDistinctRows =
      (j i b a : ℕ)
      → IsCell j i
      → IsCell b a
      → row_of gid offset j i ≡ row_of gid offset b a
      → (j ≡ b) × (i ≡ a)

  module _ (distinct : HasDistinctRows) (u : Surface R) (j i : ℕ) (owned : IsCell j i) where
    HasEntries : Coo R → Type 0
    HasEntries c = Holds (row_of gid offset j i) (row_entries s u j i) c

    step : ℕ → ℕ → Coo R → Coo R
    step b a c = write_entries (row_of gid offset b a) (row_entries s u b a) c

    step_keeps : (b a : ℕ) (c : Coo R) → IsCell b a → HasEntries c → HasEntries (step b a c)
    unfolding HasEntries step
    step_keeps b a c cell h = elim (Bool-cases (b == j && a == i)) [
      | inl same ↦
          let row : b ≡ j = ground arith in
          let column : a ≡ i = ground arith in
          rw (row, column) (write-Holds (row_of gid offset j i) (row_entries s u j i) c)
      | inr apart ↦
          write_away (row_of gid offset j i) (row_of gid offset b a) (row_entries s u j i)
            (row_entries s u b a) c
            (λ e. let (p, q) = distinct j i b a owned cell e in absurd (ground arith)) h
    ]

    row_keeps :
        (b : ℕ) (c : Coo R)
        → 1 ≤ b
        → b < 1 + nyl s
        → HasEntries c
        → HasEntries (for_range (nxl s) 1 (step b) c)
    row_keeps b c low high h =
        (for_range_inv (λ a d. (1 ≤ a) × HasEntries d) (step b) (1 + nxl s)
          (λ a d less (from, g). (omega arith, step_keeps b a d (ground arith) g)) (nxl s) 1 c refl
          (omega arith, h)).1

    -- After the fill the slots of an owned cell's row hold its entries.
    pub fill_coo-HasEntries :
        (c : Coo R)
        → Holds (row_of gid offset j i) (row_entries s u j i) (fill_coo s gid offset u c)
    unfolding fill_coo HasEntries step
    fill_coo-HasEntries c =
        for_range_reach HasEntries (λ b. for_range (nxl s) 1 (step b)) 1 (1 + nyl s)
          (λ b d low high h. row_keeps b d low high h) j (ground arith)
          (λ d.
            for_range_reach HasEntries (step j) 1 (1 + nxl s)
              (λ a e low high h. step_keeps j a e (ground arith) h) i (ground arith)
              (λ e. write-Holds (row_of gid offset j i) (row_entries s u j i) e) (nxl s) 1 d
              (omega arith) refl (inr (ground arith)))
          (nyl s) 1 c (omega arith) refl (inr (ground arith))
