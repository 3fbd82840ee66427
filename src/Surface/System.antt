-- ===== src/Surface/System.antt =====
-- swe/FreeSurface.cpp and swe/SurfaceSolver.cpp: the sparsity pattern of the free-surface system,
-- its values, and the solve. The system is that of `Linear`. A column that is no cell is −1, which PETSc leaves out.
pub mod Slots
pub mod Numbered
use frehg.Prelude.{
  ℕ, zero, suc, ◌+◌, ◌-◌, ◌*◌, ◌==◌, Bool, false, not, if◌then◌else◌, Option, none, some, List, [],
  ◌∷◌, get_elem?, ℤ, pos, negsuc, Result, ok, ◌>>=◌, for_range, Double, ◌⊕◌, ◌⊗◌, ◌≺◌, zero_real,
  negate,
}
use frehg.Linear.System.{Ksp, System, SystemError, force_rebuild, set_pattern, set_values, solve}
use frehg.Surface.State.{Settings, Surface, cell_area, nyl, nxl, owned_kernel}

-- A flat array of `n` values.
unfoldable pub listed : {A : Type 0} → ℕ → ℕ → (ℕ → A) → List A
listed zero k f = []
listed (suc n) k f = f k ∷ listed n (k + 1) f

abbrev pub set_slot : {A : Type 0} → ℕ → A → (ℕ → A) → ℕ → A
set_slot k x f l = if l == k then x else f l

-- What the fill kernel writes for one cell: [diag, xm, xp, ym, yp] and the right-hand side.
pub record Entries (R : Type 0) : Type 0 where
  pub diag : R
  pub xm : R
  pub xp : R
  pub ym : R
  pub yp : R
  pub rhs : R

pub record Coo (R : Type 0) : Type 0 where
  pub values : ℕ → R
  pub rhs : ℕ → R

-- The slots of one row.
unfoldable pub write_entries : {R : Type 0} → ℕ → Entries R → Coo R → Coo R
write_entries row e c =
    let base = 5 * row in
    record {
      values = set_slot (base + 4) e.yp (
          set_slot (base + 3) e.ym
            (set_slot (base + 2) e.xp (set_slot (base + 1) e.xm (set_slot base e.diag c.values))));
      rhs = set_slot row e.rhs c.rhs;
    }

pub record Pattern : Type 0 where
  pub coo_rows : ℕ → ℤ
  pub coo_cols : ℕ → ℤ

-- The surface with its system; `none` is the initial hash −1, which no mask has.
pub record Flow (R K : Type 0) : Type 0 where
  pub surface : Surface R
  pub system : System R K
  pub wet_mask_hash : Option ℕ

abbrev pub column_of : Option ℕ → ℤ
column_of none = negsuc 0
column_of (some n) = pos n

-- The two-dimensional numbering of `Grid`, whose owned cells all have an id.
module _ (gid : ℕ → ℕ → Option ℕ) (offset : ℕ) where
  abbrev pub row_of : ℕ → ℕ → ℕ
  row_of j i = elim (gid j i) [ none ↦ 0 | some g ↦ g - offset ]

  unfoldable pub pattern_row : ℕ → ℕ → Pattern → Pattern
  pattern_row j i p =
      let row = column_of (gid j i) in
      let base = 5 * row_of j i in
      record {
        coo_rows = for_range 5 0 (λ leg. set_slot (base + leg) row) p.coo_rows;
        coo_cols = set_slot (base + 4) (column_of (gid (j + 1) i)) (
            set_slot (base + 3) (column_of (gid (j - 1) i)) (
              set_slot (base + 2) (column_of (gid j (i + 1)))
                (set_slot (base + 1) (column_of (gid j (i - 1))) (set_slot base row p.coo_cols))));
      }

module _ {R : Type 0} ⦃double : Double R⦄ where
  abbrev pub is_marked : Surface R → ℕ → ℕ → Bool
  is_marked u j i = not (double.eq (u.is_eta_bc j i) zero_real)

  -- A prescribed-stage column: its value moves to the right-hand side.
  abbrev pub eliminate : Bool → R → R → R → R
  eliminate marked side value b = if marked then b ⊕ side ⊗ value else b

  abbrev pub off_diagonal : Bool → R → R
  off_diagonal marked side = if marked then zero_real else negate side

module _ {R : Type 0} ⦃double : Double R⦄ (s : Settings R) where
  unfoldable pub row_entries : Surface R → ℕ → ℕ → Entries R
  row_entries u j i =
      if is_marked u j i
      then record {
        diag = cell_area s;
        xm = zero_real;
        xp = zero_real;
        ym = zero_real;
        yp = zero_real;
        rhs = u.eta_bc_value j i ⊗ cell_area s;
      }
      else record {
        diag = u.sct j i;
        xm = off_diagonal (is_marked u j (i - 1)) (u.sxm j i);
        xp = off_diagonal (is_marked u j (i + 1)) (u.sxp j i);
        ym = off_diagonal (is_marked u (j - 1) i) (u.sym_leg j i);
        yp = off_diagonal (is_marked u (j + 1) i) (u.syp j i);
        rhs = eliminate (is_marked u (j + 1) i) (u.syp j i) (u.eta_bc_value (j + 1) i) (
            eliminate (is_marked u (j - 1) i) (u.sym_leg j i) (u.eta_bc_value (j - 1) i) (
              eliminate (is_marked u j (i + 1)) (u.sxp j i) (u.eta_bc_value j (i + 1)) (
                eliminate (is_marked u j (i - 1)) (u.sxm j i) (u.eta_bc_value j (i - 1))
                  (u.srhs j i))));
      }

  module _ (gid : ℕ → ℕ → Option ℕ) (offset : ℕ) where
    abbrev pub cells : ℕ
    cells = nyl s * nxl s

    unfoldable pub fill_coo : Surface R → Coo R → Coo R
    unfolding row_entries write_entries
    fill_coo u c =
        for_range (nyl s) 1
          (λ j.
            for_range (nxl s) 1 (λ i. write_entries (row_of gid offset j i) (row_entries u j i)))
          c

    -- The sum of `gid + 1` over the wet cells.
    unfoldable pub wet_mask : Surface R → ℕ
    wet_mask u =
        for_range (nyl s) 1
          (λ j. for_range (nxl s) 1 (λ i sum.
            if zero_real ≺ u.dept j i
            then elim (gid j i) [ none ↦ sum | some g ↦ sum + (g + 1) ]
            else sum))
          0

    abbrev pub same_hash : ℕ → Option ℕ → Bool
    same_hash n none = false
    same_hash n (some m) = n == m

    unfoldable pub scatter : List R → Surface R → Surface R
    scatter solution u = record u {
      eta =
          owned_kernel s
            (λ j i. elim (get_elem? solution (row_of gid offset j i)) [
              | none ↦ zero_real
              | some x ↦ x
            ])
            u.eta;
    }

    module _ {K : Type 0} (petsc : Ksp R K) (all_sum : ℕ → ℕ) where
      unfoldable pub build_coo_pattern : System R K → Result SystemError (System R K)
      unfolding listed pattern_row
      build_coo_pattern system =
          let empty : Pattern = record { coo_rows = λ k. pos 0; coo_cols = λ k. pos 0 } in
          let p =
            for_range (nyl s) 1 (λ j. for_range (nxl s) 1 (λ i. pattern_row gid offset j i))
              empty in
          set_pattern double petsc (listed (5 * cells) 0 p.coo_rows)
            (listed (5 * cells) 0 p.coo_cols) system

      -- The rebuild that a changed wet mask forces.
      unfoldable pub watch_mask : Flow R K → Flow R K
      unfolding wet_mask
      watch_mask f =
          if f.system.reusable
          then (let hash = all_sum (wet_mask f.surface) in
              if same_hash hash f.wet_mask_hash then f else record f {
                wet_mask_hash = some hash;
                system = force_rebuild double petsc f.system;
              })
          else f

      unfoldable pub fill_and_solve : Flow R K → Result SystemError (Flow R K)
      unfolding watch_mask fill_coo scatter listed
      fill_and_solve f =
          let g = watch_mask f in
          let c = fill_coo g.surface (record { values = λ k. zero_real; rhs = λ k. zero_real }) in
          set_values double petsc (listed (5 * cells) 0 c.values) g.system >>= λ valued.
          solve double petsc (listed cells 0 c.rhs) cells valued >>= λ (solved, solution).
          ok (record g { system = solved; surface = scatter solution g.surface })
