-- ===== src/Surface/System/Numbered.antt =====
-- The numbering of `Grid` gives the owned cells rows of their own, if all columns are active.
use frehg.Prelude.{
  ℕ, zero, suc, ◌+◌, ◌<◌, ◌≡◌, refl, sym, ap, ◌∙◌, arith, false, leb, Option, some, ℤ, to_ℕ,
  sum_below, sum_below-le, sum_below_unique, Double,
}
use frehg.Grid.Ids.{number_cells}
use frehg.Grid.Ids.Numbering.{active, before2, number_cells_lem}
use frehg.Surface.State.{Settings, nyl, nxl}
use frehg.Surface.System.{row_of}
use frehg.Surface.System.Slots.{HasDistinctRows}

row_of-some :
    (gid : ℕ → ℕ → Option ℕ) (offset j i n : ℕ)
    → gid j i ≡ some (offset + n)
    → row_of gid offset j i ≡ n
row_of-some gid offset j i n e = rw (e, row_of) (omega arith)

module _ (nx_local ny_local nz : ℕ) (ktop : ℕ → ℕ → ℤ) (offset2 offset3 : ℕ) where
  -- No owned column is inactive.
  abbrev pub AreActive : Type 0
  AreActive = (j i : ℕ) → j < ny_local → i < nx_local → leb nz (to_ℕ (ktop j i)) ≡ false

  abbrev pub numbered : ℕ → ℕ → Option ℕ
  numbered = (number_cells nx_local ny_local nz ktop offset2 offset3).gid2

  module _ (all : AreActive) where
    act : ℕ → ℕ → ℕ
    act = active nx_local ny_local nz ktop

    one : (j i : ℕ) → j < ny_local → i < nx_local → act j i ≡ 1
    unfolding act
    one j i hj hi = rw (all j i hj hi) refl

    column_unique :
        (j i a : ℕ)
        → j < ny_local
        → i < nx_local
        → a < nx_local
        → sum_below i (act j) ≡ sum_below a (act j)
        → i ≡ a
    column_unique j i a hj hi ha e =
        sum_below_unique (act j) (sum_below i (act j)) i a (omega arith)
          (omega (arith, one j i hj hi)) (omega (arith, e)) (omega (arith, e, one j a hj ha))

    before_unique :
        (j i b a : ℕ)
        → j < ny_local
        → i < nx_local
        → b < ny_local
        → a < nx_local
        → before2 nx_local ny_local nz ktop j i ≡ before2 nx_local ny_local nz ktop b a
        → (j ≡ b) × (i ≡ a)
    unfolding act
    before_unique j i b a hj hi hb ha e =
        let width : ℕ → ℕ = λ k. sum_below nx_local (act k) in
        let fits = sum_below-le (act j) nx_local i hi in
        let fits' = sum_below-le (act b) nx_local a ha in
        let one_here = one j i hj hi in
        let one_there = one b a hb ha in
        let row : j ≡ b =
          sum_below_unique width (before2 nx_local ny_local nz ktop j i) j b (omega arith)
            (omega arith) (omega arith) (omega arith) in
        (row, column_unique j i a hj hi ha (let k = rw (← row) at e in omega (arith, k)))

    numbered_row :
        (j i : ℕ)
        → j < ny_local
        → i < nx_local
        → row_of numbered offset2 (suc j) (suc i) ≡ before2 nx_local ny_local nz ktop j i
    numbered_row j i hj hi =
        let id = ((number_cells_lem nx_local ny_local nz ktop offset2 offset3).2 j i hj hi).0 in
        row_of-some numbered offset2 (suc j) (suc i) (before2 nx_local ny_local nz ktop j i)
          (id ∙ rw (all j i hj hi) refl)

    pub numbered-HasDistinctRows :
        {R : Type 0} ⦃double : Double R⦄ (s : Settings R)
        → nyl s ≡ ny_local
        → nxl s ≡ nx_local
        → HasDistinctRows s numbered offset2
    numbered-HasDistinctRows s ey ex zero i b a here there e = absurd (ground arith)
    numbered-HasDistinctRows s ey ex (suc j) zero b a here there e = absurd (ground arith)
    numbered-HasDistinctRows s ey ex (suc j) (suc i) zero a here there e = absurd (ground arith)
    numbered-HasDistinctRows s ey ex (suc j) (suc i) (suc b) zero here there e =
        absurd (ground arith)
    numbered-HasDistinctRows s ey ex (suc j) (suc i) (suc b) (suc a) here there e =
        let hj : j < ny_local = ground arith in
        let hi : i < nx_local = ground arith in
        let hb : b < ny_local = ground arith in
        let ha : a < nx_local = ground arith in
        let (p, q) =
          before_unique j i b a hj hi hb ha
            (sym (numbered_row j i hj hi) ∙ e ∙ numbered_row b a hb ha) in
        (ap suc p, ap suc q)
