-- ===== src/Surface/Step/Rows.antt =====
-- The rows of the free-surface system and the balances that they stand for.
use frehg.Prelude.{
  ℕ, ◌+◌, ◌-◌, ◌≡◌, Bool, true, false, if◌then◌else◌, Option, none, some, Double, ◌⊕◌, ◌⊖◌, ◌⊗◌,
  zero_real,
}
use frehg.Surface.State.{Field2, Settings, Surface, cell_area, on_west, on_east, on_south, on_north}
use frehg.Surface.FreeSurface.{leg_x, leg_y, is_dry}
use frehg.Surface.System.{Entries, is_marked}

-- A column that is no cell.
abbrev pub is_missing : Option ℕ → Bool
is_missing none = true
is_missing (some g) = false

module _ {R : Type 0} ⦃double : Double R⦄ where
  -- The leg of a side, which is closed at an edge.
  abbrev pub live : Bool → R → R
  live edge side = if edge then zero_real else side

  -- An entry times the level of its column; a column that is no cell is left out.
  abbrev pub column_term : Option ℕ → R → R → R
  column_term none a x = zero_real
  column_term (some g) a x = a ⊗ x

  -- The volume that leaves through a side towards a cell of the level `there`.
  abbrev pub outflow : Bool → R → R → R → R
  outflow edge side here there = live edge side ⊗ (here ⊖ there)

  module _ (s : Settings R) (gid : ℕ → ℕ → Option ℕ) (levels : Field2 R) where
    -- The row of a cell, applied to levels.
    abbrev pub row_product : Entries R → ℕ → ℕ → R
    row_product e j i =
        e.diag ⊗ levels j i
        ⊕ column_term (gid j (i - 1)) e.xm (levels j (i - 1))
        ⊕ column_term (gid j (i + 1)) e.xp (levels j (i + 1))
        ⊕ column_term (gid (j - 1) i) e.ym (levels (j - 1) i)
        ⊕ column_term (gid (j + 1) i) e.yp (levels (j + 1) i)

    -- The numbering has no id exactly beyond the edges of the domain, and no cell there has a stage.
    abbrev pub EndsAt : Bool → Surface R → ℕ → ℕ → Type 0
    EndsAt edge u j i = (is_missing (gid j i) ≡ edge) × (edge ≡ true → is_marked u j i ≡ false)

    -- The levels are the prescribed ones at the cells that have a stage.
    abbrev pub MeetsStage : Surface R → ℕ → ℕ → Type 0
    MeetsStage u j i = is_marked u j i ≡ true → levels j i ≡ u.eta_bc_value j i

    -- The same about the four neighbours of a cell.
    abbrev pub EndsAround : Surface R → ℕ → ℕ → Type 0
    EndsAround u j i =
        EndsAt (on_west s i) u j (i - 1)
        × EndsAt (on_east s i) u j (i + 1)
        × EndsAt (on_south s j) u (j - 1) i
        × EndsAt (on_north s j) u (j + 1) i

    abbrev pub MeetsStages : Surface R → ℕ → ℕ → Type 0
    MeetsStages u j i =
        MeetsStage u j (i - 1)
        × MeetsStage u j (i + 1)
        × MeetsStage u (j - 1) i
        × MeetsStage u (j + 1) i

  module _ (s : Settings R) where
    -- The area through which a cell stores volume.
    abbrev pub storage_area : Surface R → ℕ → ℕ → R
    storage_area w j i = if is_dry s w j i then cell_area s else w.asz j i

    -- A balanced row in terms of the legs.
    abbrev pub balance : Surface R → Surface R → Field2 R → ℕ → ℕ → R
    balance w u levels j i =
        let here = levels j i in
        (storage_area w j i ⊗ here ⊖ u.srhs j i)
        ⊕ outflow (on_east s i) (leg_x s w j i) here (levels j (i + 1))
        ⊕ outflow (on_west s i) (leg_x s w j (i - 1)) here (levels j (i - 1))
        ⊕ outflow (on_north s j) (leg_y s w j i) here (levels (j + 1) i)
        ⊕ outflow (on_south s j) (leg_y s w (j - 1) i) here (levels (j - 1) i)
