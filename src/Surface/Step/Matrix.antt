-- ===== src/Surface/Step/Matrix.antt =====
-- The matrix that a step assembles.
use frehg.Prelude.{
  ℕ, ◌+◌, ◌*◌, Option, ℤ, ◌-◌, arith, ◌≡◌, refl, ◌∙◌, sym, inl, inr, Bool, true, false,
  if◌then◌else◌, List, [], ◌∷◌, Bool-cases, is_owned, Double, zero_real,
}
use frehg.Surface.State.{DeviceBcList, Settings, Surface, nyl, nxl, for_lists}
use frehg.Surface.FreeSurface.{
  enforce_surf_bc, assemble_coefficients, assemble_rhs, release_outflow, apply_outflow_corrections,
}
use frehg.Surface.System.{Coo, row_of, row_entries, fill_coo, is_marked, off_diagonal}
use frehg.Surface.System.Numbered.{AreActive, numbered, numbered-HasDistinctRows}
use frehg.Surface.System.Slots.{Holds, HasDistinctRows, fill_coo-HasEntries}
use frehg.Surface.Momentum.{Elementary, momentum_source}
use frehg.Surface.Step.{FieldName, Exchanger, momentum_fields, assemble}

-- A cell and its neighbour to the east or to the north, with the slots of their entries for each
-- other.
pub data Beside : (j i b a slot back : ℕ) → Type 0 where
  eastward : {j i : ℕ} → Beside j i j (i + 1) 2 1
  northward : {j i : ℕ} → Beside j i (j + 1) i 4 3

module _ {R : Type 0} ⦃double : Double R⦄ (s : Settings R) where
  -- The legs on the two sides of a face agree.
  HasLegs : Surface R → Type 0
  HasLegs u =
      (j i : ℕ)
      → (is_owned (nyl s) (nxl s) j i ≡ true
          → is_owned (nyl s) (nxl s) j (i + 1) ≡ true
          → u.sxp j i ≡ u.sxm j (i + 1))
        × (is_owned (nyl s) (nxl s) j i ≡ true
            → is_owned (nyl s) (nxl s) (j + 1) i ≡ true
            → u.syp j i ≡ u.sym_leg (j + 1) i)

  coefficients-HasLegs : (u : Surface R) → HasLegs (assemble_coefficients s u)
  unfolding HasLegs assemble_coefficients
  coefficients-HasLegs u j i =
      let back : i + 1 - 1 ≡ i = omega arith in
      let down : j + 1 - 1 ≡ j = omega arith in
      (λ a b. rw (a, b, back) refl, λ a b. rw (a, b, down) refl)

  release_legs :
      (ls : List (DeviceBcList R)) (u : Surface R)
      → HasLegs u
      → HasLegs (for_lists (release_outflow s) ls u)
  unfolding release_outflow HasLegs
  release_legs [] u h = h
  release_legs (l ∷ ls) u h = release_legs ls (release_outflow s l u) h

  -- Entries on the two sides of a face, of which each may be prescribed.
  across :
      (here there : Bool) (side side' : R)
      → side ≡ side'
      → (if here then zero_real else off_diagonal there side)
        ≡ (if there then zero_real else off_diagonal here side')
  across true true a b e = refl
  across true false a b e = refl
  across false true a b e = refl
  across false false a b e = rw e refl

  -- The entry for the cell to the east, and those for the other neighbours.
  one_entry :
      (u : Surface R) (j i : ℕ)
      → let side =
          λ (there : Bool) (x : R). if is_marked u j i then zero_real else off_diagonal there x in
        let e = row_entries s u j i in
        (e.xp ≡ side (is_marked u j (i + 1)) (u.sxp j i))
        × (e.xm ≡ side (is_marked u j (i - 1)) (u.sxm j i))
        × (e.yp ≡ side (is_marked u (j + 1) i) (u.syp j i))
        × (e.ym ≡ side (is_marked u (j - 1) i) (u.sym_leg j i))
  unfolding row_entries
  one_entry u j i = elim (Bool-cases (is_marked u j i)) [
    | inl e ↦ rw e (refl, refl, refl, refl)
    | inr e ↦ rw e (refl, refl, refl, refl)
  ]

  -- The entries of two neighbours for each other agree.
  abbrev pub IsSymmetric : Surface R → Type 0
  IsSymmetric u =
      (j i : ℕ)
      → (is_owned (nyl s) (nxl s) j i ≡ true
          → is_owned (nyl s) (nxl s) j (i + 1) ≡ true
          → (row_entries s u j i).xp ≡ (row_entries s u j (i + 1)).xm)
        × (is_owned (nyl s) (nxl s) j i ≡ true
            → is_owned (nyl s) (nxl s) (j + 1) i ≡ true
            → (row_entries s u j i).yp ≡ (row_entries s u (j + 1) i).ym)

  entries-IsSymmetric : (u : Surface R) → HasLegs u → IsSymmetric u
  unfolding HasLegs
  entries-IsSymmetric u h j i =
      let back : i + 1 - 1 ≡ i = omega arith in
      let down : j + 1 - 1 ≡ j = omega arith in
      (
        λ a b.
            (one_entry u j i).0
            ∙ across (is_marked u j i) (is_marked u j (i + 1)) (u.sxp j i) (u.sxm j (i + 1))
                ((h j i).0 a b)
            ∙ sym (rw back at ((one_entry u j (i + 1)).1)),
        λ a b.
            (one_entry u j i).2
            ∙ across (is_marked u j i) (is_marked u (j + 1) i) (u.syp j i) (u.sym_leg (j + 1) i)
                ((h j i).1 a b)
            ∙ sym (rw down at ((one_entry u (j + 1) i).3)),
      )

  assemble-IsSymmetric :
      (lib : Elementary R) (halo : Exchanger R) (u : Surface R)
      → IsSymmetric (assemble s lib halo u)
  unfolding assemble apply_outflow_corrections
  assemble-IsSymmetric lib halo u =
      let staged = halo.exchange (FieldName.swe_eta ∷ []) (enforce_surf_bc s true u) in
      let moved = momentum_source lib s staged in
      let exchanged = halo.exchange (momentum_fields s lib halo moved) moved in
      let filled = assemble_coefficients s (assemble_rhs s exchanged) in
      entries-IsSymmetric (apply_outflow_corrections s filled)
        (release_legs filled.outflow_bcs filled (coefficients-HasLegs (assemble_rhs s exchanged)))

  -- The values filled in are symmetric, if no two owned cells have one row.
  fill_coo-symmetric :
      (lib : Elementary R) (halo : Exchanger R) (gid : ℕ → ℕ → Option ℕ) (offset : ℕ)
      → HasDistinctRows s gid offset
      → (u : Surface R) (c : Coo R) (j i b a slot back : ℕ) → Beside j i b a slot back
      → is_owned (nyl s) (nxl s) j i ≡ true
      → is_owned (nyl s) (nxl s) b a ≡ true
      → let filled = fill_coo s gid offset (assemble s lib halo u) c in
        filled.values (5 * row_of gid offset j i + slot)
        ≡ filled.values (5 * row_of gid offset b a + back)
  fill_coo-symmetric lib halo gid offset distinct u c j i b a slot back side here there =
      let v = assemble s lib halo u in
      between side here there (fill_coo-HasEntries s gid offset distinct v j i here c)
        (fill_coo-HasEntries s gid offset distinct v b a there c)
    where
      between :
          {j i b a slot back : ℕ}
          → Beside j i b a slot back
          → is_owned (nyl s) (nxl s) j i ≡ true
          → is_owned (nyl s) (nxl s) b a ≡ true
          → let v = assemble s lib halo u in
            let filled = fill_coo s gid offset v c in
            Holds (row_of gid offset j i) (row_entries s v j i) filled
            → Holds (row_of gid offset b a) (row_entries s v b a) filled
            → filled.values (5 * row_of gid offset j i + slot)
              ≡ filled.values (5 * row_of gid offset b a + back)
      between (Beside.eastward {j = j} {i = i}) owned owned' p q =
          p.2 ∙ (assemble-IsSymmetric lib halo u j i).0 owned owned' ∙ sym q.1
      between (Beside.northward {j = j} {i = i}) owned owned' p q =
          p.4 ∙ (assemble-IsSymmetric lib halo u j i).1 owned owned' ∙ sym q.3

  -- In the numbering of the grid, with all owned columns active: the values that a step fills into
  -- the system are symmetric, with the prescribed stages eliminated. For two owned cells side by
  -- side, the slot of one for the other and the slot of the other for the one hold the same value.
  pub fill_coo-numbered :
      (lib : Elementary R) (halo : Exchanger R) (nz : ℕ) (ktop : ℕ → ℕ → ℤ) (offset2 offset3 : ℕ)
      → AreActive (nxl s) (nyl s) nz ktop offset2 offset3
      → (u : Surface R) (c : Coo R) (j i b a slot back : ℕ) → Beside j i b a slot back
      → is_owned (nyl s) (nxl s) j i ≡ true
      → is_owned (nyl s) (nxl s) b a ≡ true
      → let gid = numbered (nxl s) (nyl s) nz ktop offset2 offset3 in
        let filled = fill_coo s gid offset2 (assemble s lib halo u) c in
        filled.values (5 * row_of gid offset2 j i + slot)
        ≡ filled.values (5 * row_of gid offset2 b a + back)
  fill_coo-numbered lib halo nz ktop offset2 offset3 all =
      fill_coo-symmetric lib halo (numbered (nxl s) (nyl s) nz ktop offset2 offset3) offset2
        (numbered-HasDistinctRows (nxl s) (nyl s) nz ktop offset2 offset3 all s refl refl)
