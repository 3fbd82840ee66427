-- ===== src/Prelude/Reals.antt =====
-- `real_t` in the notation of the source: a circled or curved operator that takes the arithmetic from
-- the instance. `fmax` and `fmin` are those of Kokkos.
use mathlib.Core.Bool.{Bool}
use frehg.Prelude.Tests.{if◌then◌else◌}
use frehg.Prelude.Doubles.{Double}

module _ {R : Type 0} ⦃double : Double R⦄ where
  infixl 65 ◌⊕◌ ◌⊖◌
  infixl 70 ◌⊗◌ ◌⊘◌
  infix 50 ◌≺◌ ◌≼◌
  abbrev pub ◌⊕◌ : R → R → R
  a ⊕ b = double.add a b

  abbrev pub ◌⊖◌ : R → R → R
  a ⊖ b = double.sub a b

  abbrev pub ◌⊗◌ : R → R → R
  a ⊗ b = double.mul a b

  abbrev pub ◌⊘◌ : R → R → R
  a ⊘ b = double.div a b

  abbrev pub ◌≺◌ : R → R → Bool
  a ≺ b = double.lt a b

  abbrev pub ◌≼◌ : R → R → Bool
  a ≼ b = double.le a b

  abbrev pub zero_real : R
  zero_real = double.of_int 0

  abbrev pub one_real : R
  one_real = double.of_int 1

  -- `-a`
  abbrev pub negate : R → R
  negate a = double.sub (double.of_int 0) a

  abbrev pub fmax : R → R → R
  fmax a b = if double.lt a b then b else a

  abbrev pub fmin : R → R → R
  fmin a b = if double.lt b a then b else a
