-- ===== src/Grid/Ids/Numbering.antt =====
-- The numbering loop of `Grid::buildGlobalIds` (core/Grid.cpp) against a closed form: the id of a
-- cell is the rank's offset and the number of active cells that stand before it, in row order.
use frehg.Prelude.{
  ℕ, zero, suc, ◌+◌, ◌-◌, ◌≤◌, ◌<◌, ◌≡◌, refl, Bool, true, false, ◌&&◌, ◌||◌, arith, ltb, leb, ◌==◌,
  if◌then◌else◌, Option, none, some, Bool-cases, inl, inr, for_range_all, ℤ, to_ℕ, sum_below, ◌∙◌,
  ◌⊎◌,
}
use frehg.Grid.Ids.{Ids, number_cell, number_cells}
use frehg.Grid.Ids.Levels.{number_column}

module _ (nx_local ny_local nz : ℕ) (ktop : ℕ → ℕ → ℤ) where
  -- The number of active levels of a column, and 1 for a column with any.
  abbrev pub height : ℕ → ℕ → ℕ
  height j i = nz - to_ℕ (ktop j i)

  abbrev pub active : ℕ → ℕ → ℕ
  active j i = if leb nz (to_ℕ (ktop j i)) then 0 else 1

  abbrev pub before2 : ℕ → ℕ → ℕ
  before2 j i = sum_below j (λ a. sum_below nx_local (active a)) + sum_below i (active j)

  abbrev pub before3 : ℕ → ℕ → ℕ
  before3 j i = sum_below j (λ a. sum_below nx_local (height a)) + sum_below i (height j)

  -- The ids in closed form.
  abbrev pub id2 : (offset2 : ℕ) → ℕ → ℕ → Option ℕ
  id2 offset2 j i = if leb nz (to_ℕ (ktop j i)) then none else some (offset2 + before2 j i)

  abbrev pub id3 : (offset3 : ℕ) → ℕ → ℕ → ℕ → Option ℕ
  id3 offset3 j i k =
      if leb (to_ℕ (ktop j i)) k && ltb k nz
      then some (offset3 + before3 j i + (k - to_ℕ (ktop j i)))
      else none

  -- The cell stored at (a, b) comes before the cell (row, i).
  abbrev seen : ℕ → ℕ → ℕ → ℕ → Bool
  seen row i zero b = leb 1 0
  seen row i (suc j) zero = leb 1 0
  seen row i (suc j) (suc c) = (ltb j row && ltb c nx_local) || (j == row && ltb c i)

  module _ (offset2 offset3 : ℕ) where
    abbrev at2 : ℕ → ℕ → Option ℕ
    at2 zero b = none
    at2 (suc j) zero = none
    at2 (suc j) (suc i) = id2 offset2 j i

    abbrev at3 : ℕ → ℕ → ℕ → Option ℕ
    at3 zero b k = none
    at3 (suc j) zero k = none
    at3 (suc j) (suc i) k = id3 offset3 j i k

    record Numbered (row i : ℕ) (s : Ids) : Type 0 where
      next2_eq : s.next2 ≡ offset2 + before2 row i
      next3_eq : s.next3 ≡ offset3 + before3 row i
      gid2_eq : (a b : ℕ) → s.gid2 a b ≡ (if seen row i a b then at2 a b else none)
      gid3_eq : (a b k : ℕ) → s.gid3 a b k ≡ (if seen row i a b then at3 a b k else none)

  module _ (offset2 offset3 : ℕ) where
    -- What one more cell does to the closed form of the ids seen: nothing, where it is inactive.
    skip2 :
        (j i a b : ℕ)
        → leb nz (to_ℕ (ktop j i)) ≡ true
        → (if seen j i a b then at2 offset2 offset3 a b else none)
          ≡ (if seen j (suc i) a b then at2 offset2 offset3 a b else none)
    skip2 j i zero b e = refl
    skip2 j i (suc a) zero e = refl
    skip2 j i (suc a) (suc b) e = ground arith

    skip3 :
        (j i a b k : ℕ)
        → leb nz (to_ℕ (ktop j i)) ≡ true
        → (if seen j i a b then at3 offset2 offset3 a b k else none)
          ≡ (if seen j (suc i) a b then at3 offset2 offset3 a b k else none)
    skip3 j i zero b k e = refl
    skip3 j i (suc a) zero k e = refl
    skip3 j i (suc a) (suc b) k e = ground arith

    write2 :
        (j i a b : ℕ)
        → i < nx_local
        → leb nz (to_ℕ (ktop j i)) ≡ false
        → (if a == j + 1 && b == i + 1
            then some (offset2 + before2 j i)
            else if seen j i a b
            then at2 offset2 offset3 a b
            else none)
          ≡ (if seen j (suc i) a b then at2 offset2 offset3 a b else none)
    write2 j i zero b h e = ground arith
    write2 j i (suc a) zero h e = ground arith
    write2 j i (suc a) (suc b) h e = ground arith

    write3 :
        (j i a b k : ℕ)
        → i < nx_local
        → leb nz (to_ℕ (ktop j i)) ≡ false
        → (if a == j + 1 && b == i + 1 && (leb (to_ℕ (ktop j i)) k && ltb k nz)
            then some (offset3 + before3 j i + (k - to_ℕ (ktop j i)))
            else if seen j i a b
            then at3 offset2 offset3 a b k
            else none)
          ≡ (if seen j (suc i) a b then at3 offset2 offset3 a b k else none)
    write3 j i zero b k h e = ground arith
    write3 j i (suc a) zero k h e = ground arith
    write3 j i (suc a) (suc b) k h e = ground arith

    number_cell-Numbered :
        (j i : ℕ) (s : Ids)
        → i < nx_local
        → Numbered offset2 offset3 j i s
        → Numbered offset2 offset3 j (suc i) (number_cell nx_local ny_local nz ktop j i s)
    unfolding number_cell
    number_cell-Numbered j i s h v = elim (Bool-cases (leb nz (to_ℕ (ktop j i)))) [
      | inl e ↦ rw e (record {
        next2_eq = rw e (omega (arith, v.next2_eq));
        next3_eq =
            let none_active : nz - to_ℕ (ktop j i) ≡ 0 = ground arith in
            rw none_active (omega (arith, v.next3_eq));
        gid2_eq = λ a b. v.gid2_eq a b ∙ skip2 j i a b e;
        gid3_eq = λ a b k. v.gid3_eq a b k ∙ skip3 j i a b k e;
      })
      | inr e ↦
          let t : Ids = record s {
            next2 = s.next2 + 1;
            gid2 = λ a b. if a == j + 1 && b == i + 1 then some s.next2 else s.gid2 a b;
          } in
          let l =
            number_column nx_local ny_local nz ktop (j + 1) (i + 1) (to_ℕ (ktop j i)) t
              (ground arith) in
          rw e (record {
            next2_eq = rw (l.same2, e) (omega (arith, v.next2_eq));
            next3_eq =
                let below : to_ℕ (ktop j i) ≤ nz = ground arith in
                omega (arith, v.next3_eq, l.advanced);
            gid2_eq = λ a b. rw (l.same_gid2 a b, v.gid2_eq a b, v.next2_eq) (write2 j i a b h e);
            gid3_eq =
                λ a b k. rw (l.column a b k, v.gid3_eq a b k, v.next3_eq) (write3 j i a b k h e);
          })
    ]

    next_row :
        (j : ℕ) (s : Ids)
        → Numbered offset2 offset3 j nx_local s
        → Numbered offset2 offset3 (suc j) 0 s
    next_row j s v = record {
      next2_eq = omega (arith, v.next2_eq);
      next3_eq = omega (arith, v.next3_eq);
      gid2_eq = λ a b. v.gid2_eq a b ∙ row2 a b;
      gid3_eq = λ a b k. v.gid3_eq a b k ∙ row3 a b k;
    }
      where
        row2 :
            (a b : ℕ)
            → (if seen j nx_local a b then at2 offset2 offset3 a b else none)
              ≡ (if seen (suc j) 0 a b then at2 offset2 offset3 a b else none)
        row2 zero b = refl
        row2 (suc a) zero = refl
        row2 (suc a) (suc b) = ground arith

        row3 :
            (a b k : ℕ)
            → (if seen j nx_local a b then at3 offset2 offset3 a b k else none)
              ≡ (if seen (suc j) 0 a b then at3 offset2 offset3 a b k else none)
        row3 zero b k = refl
        row3 (suc a) zero k = refl
        row3 (suc a) (suc b) k = ground arith

    number_cells-Numbered :
        Numbered offset2 offset3 ny_local 0 (number_cells nx_local ny_local nz ktop offset2 offset3)
    unfolding number_cells
    number_cells-Numbered =
        for_range_all (λ j. Numbered offset2 offset3 j 0) _ ny_local
          (λ j s _ v. next_row j _ (
            for_range_all (λ i. Numbered offset2 offset3 j i) _ nx_local
              (λ i t h. number_cell-Numbered j i t h) s v))
          _
          (record {
            next2_eq = omega arith;
            next3_eq = omega arith;
            gid2_eq = λ a b. start2 a b;
            gid3_eq = λ a b k. start3 a b k;
          })
      where
        start2 : (a b : ℕ) → none ≡ (if seen 0 0 a b then at2 offset2 offset3 a b else none)
        start2 zero b = refl
        start2 (suc a) zero = refl
        start2 (suc a) (suc b) = ground arith

        start3 : (a b k : ℕ) → none ≡ (if seen 0 0 a b then at3 offset2 offset3 a b k else none)
        start3 zero b k = refl
        start3 (suc a) zero k = refl
        start3 (suc a) (suc b) k = ground arith

    -- After the loop every owned cell has the id of the closed form, a cell outside the owned block
    -- has none, and the counters stand behind the last id.
    pub number_cells_lem :
        let s = number_cells nx_local ny_local nz ktop offset2 offset3 in
        (s.next2 ≡ offset2 + before2 ny_local 0)
        × (s.next3 ≡ offset3 + before3 ny_local 0)
        × ((j i : ℕ)
            → j < ny_local
            → i < nx_local
            → (s.gid2 (suc j) (suc i) ≡ id2 offset2 j i)
              × ((k : ℕ) → s.gid3 (suc j) (suc i) k ≡ id3 offset3 j i k))
        × ((a b : ℕ)
            → (a ≡ 0) ⊎ (b ≡ 0) ⊎ (ny_local < a) ⊎ (nx_local < b)
            → (s.gid2 a b ≡ none) × ((k : ℕ) → s.gid3 a b k ≡ none))
    number_cells_lem =
        let v = number_cells-Numbered in
        (
          v.next2_eq,
          v.next3_eq,
          λ j i hj hi. (
            v.gid2_eq (suc j) (suc i) ∙ ground arith,
            λ k. v.gid3_eq (suc j) (suc i) k ∙ ground arith,
          ),
          λ a b out. (
            v.gid2_eq a b ∙ unseen a b (at2 offset2 offset3 a b) out,
            λ k. v.gid3_eq a b k ∙ unseen a b (at3 offset2 offset3 a b k) out,
          ),
        )
      where
        unseen :
            (a b : ℕ) (o : Option ℕ)
            → (a ≡ 0) ⊎ (b ≡ 0) ⊎ (ny_local < a) ⊎ (nx_local < b)
            → (if seen ny_local 0 a b then o else none) ≡ none
        unseen zero b o h = refl
        unseen (suc a) zero o h = refl
        unseen (suc a) (suc b) o h = ground arith
