-- ===== src/Coupling/Exchange.antt =====
-- coupling/Exchange.cpp: the infiltration budget of a window, the seepage applied to the surface,
-- and the sums of the audit. A parallel reduction is a loop over the owned cells in their order.
pub mod Cells
use frehg.Prelude.{ℕ, ◌+◌, ◌==◌, Bool, ◌&&◌, ◌||◌, if◌then◌else◌, Double, for_range}

-- The fields that the coupler and the two solvers share.
pub record Shared (R : Type 0) : Type 0 where
  pub eta : ℕ → ℕ → R
  pub dept : ℕ → ℕ → R
  pub bottom : ℕ → ℕ → R
  pub seep_accum : ℕ → ℕ → R
  pub avail : ℕ → ℕ → R
  pub gain : ℕ → ℕ → R
  pub qss : ℕ → ℕ → R

-- What `applySeepage` reads and writes of one cell, and the two sums.
pub record Cell (R : Type 0) : Type 0 where
  pub eta : R
  pub dept : R
  pub bottom : R
  pub seep_accum : R
  pub gain : R
  pub qss : R

abbrev pub cell_of : {R : Type 0} → ℕ → ℕ → Shared R → Cell R
cell_of j i f = record {
  eta = f.eta j i;
  dept = f.dept j i;
  bottom = f.bottom j i;
  seep_accum = f.seep_accum j i;
  gain = f.gain j i;
  qss = f.qss j i;
}

abbrev pub write : {A : Type 0} → ℕ → ℕ → A → (ℕ → ℕ → A) → ℕ → ℕ → A
write j i x f a b = if a == j && b == i then x else f a b

-- The fields and the two sums.
pub record Applied (R : Type 0) : Type 0 where
  pub shared : Shared R
  pub applied : R
  pub discarded : R

module _ {R : Type 0} (double : Double R) where
  unfoldable pub begin_window : ℕ → ℕ → Shared R → Shared R
  begin_window nyl nxl f =
      for_range nyl 1
        (λ j. for_range nxl 1 (λ i g. record g {
          avail = write j i (g.dept j i) g.avail;
          gain = write j i (double.of_int 0) g.gain;
        }))
        f

  -- The level after an infiltration of `a`, which is negative.
  abbrev pub lowered : R → Cell R → R
  lowered a c = let eta = double.add c.eta a in if double.lt eta c.bottom then c.bottom else eta

  unfoldable pub apply_cell : R → R → Cell R → Cell R
  apply_cell dt min_depth cell =
      let a = cell.seep_accum in
      let c = record cell { qss = double.div a dt } in
      if double.lt a (double.of_int 0)
      then record c {
        eta = lowered a c;
        gain = double.add c.gain (double.sub (lowered a c) c.eta);
        seep_accum = double.of_int 0;
      }
      else if double.lt min_depth c.dept || double.lt min_depth a
      then record c {
        eta = double.add c.eta a;
        gain = double.add c.gain a;
        seep_accum = double.of_int 0;
      }
      else c

  -- What one cell adds to `applied` and to `discarded`, if anything.
  unfoldable pub add_applied : R → Cell R → R → R
  add_applied min_depth c sum =
      let a = c.seep_accum in
      if double.lt a (double.of_int 0)
      then double.add sum (double.sub (lowered a c) c.eta)
      else if double.lt min_depth c.dept || double.lt min_depth a
      then double.add sum a
      else sum

  unfoldable pub add_discarded : Cell R → R → R
  add_discarded c sum =
      let a = c.seep_accum in
      if double.lt a (double.of_int 0)
      then double.add sum (double.sub (double.sub (lowered a c) c.eta) a)
      else sum

  unfoldable pub apply_at : R → R → ℕ → ℕ → Applied R → Applied R
  unfolding apply_cell add_applied add_discarded
  apply_at dt min_depth j i s =
      let f = s.shared in
      let c = apply_cell dt min_depth (cell_of j i f) in
      record {
        shared = record f {
          eta = write j i c.eta f.eta;
          gain = write j i c.gain f.gain;
          seep_accum = write j i c.seep_accum f.seep_accum;
          qss = write j i c.qss f.qss;
        };
        applied = add_applied min_depth (cell_of j i f) s.applied;
        discarded = add_discarded (cell_of j i f) s.discarded;
      }

  unfoldable pub apply_seepage : R → R → ℕ → ℕ → Shared R → Applied R
  unfolding apply_at
  apply_seepage dt min_depth nyl nxl f =
      for_range nyl 1 (λ j. for_range nxl 1 (apply_at dt min_depth j))
        (record { shared = f; applied = double.of_int 0; discarded = double.of_int 0 })

  -- The sum of a field over the owned cells, as `reduceAudit` makes it.
  unfoldable pub reduce_field : ℕ → ℕ → (ℕ → ℕ → R) → R
  reduce_field nyl nxl f =
      for_range nyl 1 (λ j. for_range nxl 1 (λ i sum. double.add sum (f j i))) (double.of_int 0)
