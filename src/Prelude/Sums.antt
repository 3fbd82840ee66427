-- ===== src/Prelude/Sums.antt =====
-- Sums of `f 0 + … + f (n - 1)`, and which summand an offset falls into.
use Prim.Native.Nat.{ℕ, zero, suc, ◌+◌, ◌≤◌, ◌<◌}
use mathlib.Core.Path.{◌≡◌}
use mathlib.Core.Logic.{inl, inr}
use native.Mathlib.Omega.{arith}
use frehg.Prelude.Tests.{ltb, ltb→lt, ltb→le, Bool-cases}

abbrev pub sum_below : ℕ → (ℕ → ℕ) → ℕ
sum_below zero f = 0
sum_below (suc n) f = sum_below n f + f n

pub sum_below-le : (f : ℕ → ℕ) (m i : ℕ) → i < m → sum_below i f + f i ≤ sum_below m f
sum_below-le f zero i h = elim h [ ]
sum_below-le f (suc m) i h = elim (Bool-cases (ltb i m)) [
  | inl e ↦ omega (arith, sum_below-le f m i (ltb→lt i m e))
  | inr e ↦ let e' : i ≡ m = omega (arith, ltb→le i m e) in rw e' (omega arith)
]

pub sum_below_find :
    (f : ℕ → ℕ) (m n : ℕ)
    → n < sum_below m f
    → (i : ℕ) × (i < m) × (sum_below i f ≤ n) × (n < sum_below i f + f i)
sum_below_find f zero n h = absurd (omega arith)
sum_below_find f (suc m) n h = elim (Bool-cases (ltb n (sum_below m f))) [
  | inl e ↦
      let (i, lt, low, high) = sum_below_find f m n (ltb→lt _ _ e) in (i, omega arith, low, high)
  | inr e ↦ (m, omega arith, ltb→le _ _ e, h)
]

pub sum_below_unique :
    (f : ℕ → ℕ) (n i k : ℕ)
    → sum_below i f ≤ n
    → n < sum_below i f + f i
    → sum_below k f ≤ n
    → n < sum_below k f + f k
    → i ≡ k
sum_below_unique f n i k a b c d = elim (Bool-cases (ltb i k)) [
  | inl e ↦ absurd (omega (arith, sum_below-le f k i (ltb→lt i k e)))
  | inr e ↦ elim (Bool-cases (ltb k i)) [
    | inl g ↦ absurd (omega (arith, sum_below-le f i k (ltb→lt k i g)))
    | inr g ↦ omega (arith, ltb→le i k e, ltb→le k i g)
  ]
]
