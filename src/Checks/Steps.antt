-- ===== src/Checks/Steps.antt =====
-- gw/AdaptiveStep.cpp on two ranks, with whole numbers in the place of `real_t`.
use frehg.Prelude.{
  ℕ, zero, suc, ◌+◌, ◌<◌, ◌≡◌, refl, arith, ◌⊎◌, inl, inr, true, false, ltb, leb, if◌then◌else◌,
  Bool-cases, some, for_range,
}
use frehg.Groundwater.AdaptiveStep.{
  Cells, Limits, adapt_time_step, courant_step, local_step, courant_min, dq_max, sweep3, raise_dq,
  lower_courant, flux_change, clamped_step, scaled_step,
}
use frehg.Groundwater.AdaptiveStep.Bounds.{Limited, adapt_time_step-Bounded}
use frehg.Checks.Numbers.{whole}

-- Columns of three cells; the ranks differ in the slope of the conductivity.
abbrev soil_of_rank : ℕ → Cells ℕ
soil_of_rank r = record {
  gid = λ j i k. some k;
  qx = λ j i k. 0;
  qy = λ j i k. 0;
  qz_f = λ j i k. 0;
  ax = λ j i k. 1;
  ay = λ j i k. 1;
  dz = λ j i k. 2;
  wc = λ j i k. k;
  wcs = λ j i k. 2;
  dk_dwc = λ j i k. 4 + r;
}

abbrev limits : Limits ℕ
limits = record { area_z = 1; courant_max = 10; dq_shrink = 3; dq_grow = 1; dt_min = 1; dt_max = 8 }

abbrev two_ranks : (ℕ → ℕ) → ℕ
two_ranks f = if ltb (f 0) (f 1) then f 0 else f 1

next_step : adapt_time_step whole limits 0 100 soil_of_rank (λ r. 2) (λ r. 2) 3 two_ranks 7 ≡ 4
unfolding adapt_time_step local_step courant_min dq_max sweep3 raise_dq lower_courant flux_change
    courant_step clamped_step scaled_step for_range
next_step = refl

pub total : (x y : ℕ) → ltb x y ≡ false → leb y x ≡ true
total x y h = ground arith

pub lt_le : (x y : ℕ) → ltb x y ≡ true → leb x y ≡ true
lt_le x y h = ground arith

pub transitive : (x y z : ℕ) → leb x y ≡ true → leb y z ≡ true → leb x z ≡ true
transitive x y z h k = ground arith

pub reflexive : (x : ℕ) → leb x x ≡ true
reflexive x = ground arith

least : (f : ℕ → ℕ) (r : ℕ) → r < 2 → leb (two_ranks f) (f r) ≡ true
least f zero h = ground arith
least f (suc zero) h = ground arith
least f (suc (suc r)) h = absurd (omega arith)

attained : (f : ℕ → ℕ) → (r : ℕ) × (r < 2) × (two_ranks f ≡ f r)
attained f = elim (Bool-cases (ltb (f 0) (f 1))) [
  | inl e ↦ (0, omega arith, rw e refl)
  | inr e ↦ (1, omega arith, rw e refl)
]

adapt_time_step-Bounded_example :
    (leb 1 (adapt_time_step whole limits 0 100 soil_of_rank (λ r. 2) (λ r. 2) 3 two_ranks 7) ≡ true)
    × (leb (adapt_time_step whole limits 0 100 soil_of_rank (λ r. 2) (λ r. 2) 3 two_ranks 7) 8
        ≡ true)
    × ((r j i k : ℕ)
        → r < 2
        → Limited whole limits total lt_le transitive reflexive 100 (soil_of_rank r) 2 2 3 j i k
        → (leb
              (adapt_time_step whole limits 0 100 soil_of_rank (λ r. 2) (λ r. 2) 3 two_ranks 7)
              (courant_step whole limits (soil_of_rank r) j i k)
            ≡ true)
          ⊎ (leb (adapt_time_step whole limits 0 100 soil_of_rank (λ r. 2) (λ r. 2) 3 two_ranks 7) 1
              ≡ true))
adapt_time_step-Bounded_example =
    adapt_time_step-Bounded whole limits total lt_le transitive reflexive 0 100 soil_of_rank
      (λ r. 2) (λ r. 2) 3 2 two_ranks 7 least attained refl
