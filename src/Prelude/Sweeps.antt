-- ===== src/Prelude/Sweeps.antt =====
-- A kernel over the owned cells, `{1, 1}` up to `{ny + 1, nx + 1}`, that treats each cell by itself.
use Prim.Native.Nat.{ℕ, zero, suc, ◌+◌}
use mathlib.Core.Path.{◌≡◌, ◌∙◌}
use mathlib.Core.Logic.{inl, inr}
use mathlib.Core.Bool.{Bool, true, false, ◌&&◌}
use native.Mathlib.Omega.{arith}
use frehg.Prelude.Tests.{ltb, leb, ◌==◌, if◌then◌else◌, Bool-cases}
use frehg.Prelude.Loops.{for_range}

abbrev pub is_owned : ℕ → ℕ → ℕ → ℕ → Bool
is_owned ny nx a b = leb 1 a && ltb a (1 + ny) && leb 1 b && ltb b (1 + nx)

module _ {S C : Type 0} (look : S → ℕ → ℕ → C) (new : ℕ → ℕ → C → C) (body : ℕ → ℕ → S → S)
    (here : (j i : ℕ) (s : S) → look (body j i s) j i ≡ new j i (look s j i))
    (away : (j i a b : ℕ) (s : S)
      → (a == j && b == i) ≡ false
      → look (body j i s) a b ≡ look s a b) where
  sweep_row :
      (n i j a b : ℕ) (s : S)
      → look (for_range n i (body j) s) a b
        ≡ (if a == j && leb i b && ltb b (i + n) then new a b (look s a b) else look s a b)
  unfolding for_range
  sweep_row zero i j a b s = ground arith
  sweep_row (suc n) i j a b s = elim (Bool-cases (a == j && b == i)) [
    | inl e ↦
        let inside : a == j && leb i b && ltb b (i + suc n) ≡ true = ground arith in
        let past : a == j && leb (i + 1) b && ltb b (i + 1 + n) ≡ false = ground arith in
        let row : a ≡ j = ground arith in
        let column : b ≡ i = ground arith in
        rw inside
          ((rw past at (sweep_row n (i + 1) j a b (body j i s))) ∙ (rw (row, column) (here j i s)))
    | inr e ↦
        let same : (a == j && leb (i + 1) b && ltb b (i + 1 + n))
            ≡ (a == j && leb i b && ltb b (i + suc n)) =
          ground arith in
        rw (same, away j i a b s e) at (sweep_row n (i + 1) j a b (body j i s))
  ]

  sweep_rows :
      (nx m k a b : ℕ) (s : S)
      → look (for_range m k (λ j. for_range nx 1 (body j)) s) a b ≡ (
          if leb k a && ltb a (k + m) && leb 1 b && ltb b (1 + nx)
          then new a b (look s a b)
          else look s a b)
  unfolding for_range
  sweep_rows nx zero k a b s = ground arith
  sweep_rows nx (suc m) k a b s = elim (Bool-cases (a == k)) [
    | inl e ↦
        let past : leb (k + 1) a && ltb a (k + 1 + m) && leb 1 b && ltb b (1 + nx) ≡ false =
          ground arith in
        let same : (a == k && leb 1 b && ltb b (1 + nx))
            ≡ (leb k a && ltb a (k + suc m) && leb 1 b && ltb b (1 + nx)) =
          ground arith in
        (rw past at (sweep_rows nx m (k + 1) a b (for_range nx 1 (body k) s)))
        ∙ (rw same at (sweep_row nx 1 k a b s))
    | inr e ↦
        let other : a == k && leb 1 b && ltb b (1 + nx) ≡ false = ground arith in
        let same : (leb (k + 1) a && ltb a (k + 1 + m) && leb 1 b && ltb b (1 + nx))
            ≡ (leb k a && ltb a (k + suc m) && leb 1 b && ltb b (1 + nx)) =
          ground arith in
        rw (same, rw other at (sweep_row nx 1 k a b s)) at
          (sweep_rows nx m (k + 1) a b (for_range nx 1 (body k) s))
  ]

  -- Each owned cell is treated once, from what it held before, and the others are left alone.
  pub sweep_lem :
      (ny nx a b : ℕ) (s : S)
      → look (for_range ny 1 (λ j. for_range nx 1 (body j)) s) a b
        ≡ (if is_owned ny nx a b then new a b (look s a b) else look s a b)
  sweep_lem ny nx a b s = sweep_rows nx ny 1 a b s
