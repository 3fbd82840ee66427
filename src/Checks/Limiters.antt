-- ===== src/Checks/Limiters.antt =====
-- transport/Limiters.hpp on whole numbers.
use frehg.Prelude.{◌≡◌, refl, true, leb}
use frehg.Limiter.{superbee_phi, low_slope, high_slope, superbee_bounds}
use frehg.Checks.Numbers.{whole}
use frehg.Checks.Steps.{total, lt_le, transitive, reflexive}

steep : superbee_phi whole 5 ≡ 2
unfolding superbee_phi low_slope high_slope
steep = refl

superbee_bounds_example :
    (leb 0 (superbee_phi whole 5) ≡ true) × (leb (superbee_phi whole 5) 2 ≡ true)
superbee_bounds_example = superbee_bounds whole lt_le total transitive reflexive refl refl 5
