-- ===== src/Grid/Ids/Levels.antt =====
-- The loop of `Grid::buildGlobalIds` (core/Grid.cpp) over the levels of one column.
use frehg.Prelude.{
  ℕ, suc, ◌+◌, ◌-◌, ◌≤◌, ◌≡◌, refl, ◌&&◌, arith, ltb, leb, ◌==◌, if◌then◌else◌, some, for_range,
  for_range_inv, ℤ,
}
use frehg.Grid.Ids.{Ids, number_level}

module _ (nx_local ny_local nz : ℕ) (ktop : ℕ → ℕ → ℤ) where
  -- The loop over the levels of one column.
  pub record Levels (jh ih kt k : ℕ) (s t : Ids) : Type 0 where
    pub same2 : t.next2 ≡ s.next2
    pub same_gid2 : (a b : ℕ) → t.gid2 a b ≡ s.gid2 a b
    pub advanced : t.next3 + kt ≡ s.next3 + k
    pub column :
        (a b c : ℕ)
        → t.gid3 a b c ≡ (
            if a == jh && b == ih && (leb kt c && ltb c k)
            then some (s.next3 + (c - kt))
            else s.gid3 a b c)

  number_level-Levels :
      (jh ih kt k : ℕ) (s t : Ids)
      → kt ≤ k
      → Levels jh ih kt k s t
      → Levels jh ih kt (suc k) s (number_level nx_local ny_local nz ktop jh ih k t)
  unfolding number_level
  number_level-Levels jh ih kt k s t h l = record {
    same2 = l.same2;
    same_gid2 = l.same_gid2;
    advanced = omega (arith, l.advanced);
    column = λ a b c. ground (arith, l.column a b c, l.advanced);
  }

  pub number_column :
      (jh ih kt : ℕ) (s : Ids)
      → kt ≤ nz
      → Levels jh ih kt nz s
          (for_range (nz - kt) kt (number_level nx_local ny_local nz ktop jh ih) s)
  number_column jh ih kt s h =
      (for_range_inv (λ k t. (kt ≤ k) × Levels jh ih kt k s t) _ nz
        (λ k t _ (g, l). (omega arith, number_level-Levels jh ih kt k s t g l)) (nz - kt) kt s
        (omega arith)
        (
          omega arith,
          record {
            same2 = refl;
            same_gid2 = λ a b. refl;
            advanced = refl;
            column = λ a b c. ground arith;
          },
        )).1
