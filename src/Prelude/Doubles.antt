-- ===== src/Prelude/Doubles.antt =====
-- The arithmetic of `real_t` that the source uses: `scaled m e` is the literal m / 10^e. Nothing is
-- assumed of it here: a theorem that needs a law names it.
use Prim.Native.Nat.{ℕ}
use mathlib.Core.Bool.{Bool}
use frehg.Prelude.Signed.{ℤ}

pub record Double (R : Type 0) : Type 0 where
  pub of_int : ℕ → R
  pub scaled : ℕ → ℕ → R
  pub add : R → R → R
  pub sub : R → R → R
  pub mul : R → R → R
  pub div : R → R → R
  pub lt : R → R → Bool
  pub le : R → R → Bool
  pub eq : R → R → Bool
  pub floor : R → R
  pub ceil : R → R
  pub to_long : R → ℤ
  pub llround : R → ℤ
  pub of_long : ℤ → R
  pub fabs : R → R
  pub infinity : R
  pub neg_infinity : R
  pub round : R → R
