-- ===== src/Groundwater/AdaptiveStep.antt =====
-- `RichardsSolver::adaptTimeStep` of gw/AdaptiveStep.cpp. An id below 0 is `none`. The slope of the
-- conductivity that gw/VanGenuchten.hpp computes for a cell is a field. `MPI_Allreduce` with
-- `MPI_MIN` is a function of the values of all ranks.
pub mod Bounds
use frehg.Prelude.{
  ℕ, ◌+◌, ◌-◌, ◌==◌, Bool, true, false, ◌||◌, if◌then◌else◌, Option, none, some, Double, for_range,
}

pub record Cells (R : Type 0) : Type 0 where
  pub gid : ℕ → ℕ → ℕ → Option ℕ
  pub qx : ℕ → ℕ → ℕ → R
  pub qy : ℕ → ℕ → ℕ → R
  pub qz_f : ℕ → ℕ → ℕ → R
  pub ax : ℕ → ℕ → ℕ → R
  pub ay : ℕ → ℕ → ℕ → R
  pub dz : ℕ → ℕ → ℕ → R
  pub wc : ℕ → ℕ → ℕ → R
  pub wcs : ℕ → ℕ → ℕ → R
  pub dk_dwc : ℕ → ℕ → ℕ → R

-- The members that steer the step.
pub record Limits (R : Type 0) : Type 0 where
  pub area_z : R
  pub courant_max : R
  pub dq_shrink : R
  pub dq_grow : R
  pub dt_min : R
  pub dt_max : R

abbrev pub is_inactive : Option ℕ → Bool
is_inactive none = true
is_inactive (some id) = false

module _ {R : Type 0} (double : Double R) (limits : Limits R) (c : Cells R) where
  -- Neither an inactive cell nor the top of a column counts.
  abbrev pub is_skipped : ℕ → ℕ → ℕ → Bool
  is_skipped j i k = is_inactive (c.gid j i k) || (k == 0 || is_inactive (c.gid j i (k - 1)))

  unfoldable pub flux_change : R → ℕ → ℕ → ℕ → R
  flux_change dtg j i k =
      let qin =
        double.add
          (double.add (double.div (c.qx j i k) (c.ax j i k)) (double.div (c.qy j i k) (c.ay j i k)))
          (double.div (c.qz_f j i (k + 1)) limits.area_z) in
      let qou =
        double.add
          (double.add (double.div (c.qx j (i - 1) k) (c.ax j i k))
            (double.div (c.qy (j - 1) i k) (c.ay j i k)))
          (double.div (c.qz_f j i k) limits.area_z) in
      double.div (double.mul (double.fabs (double.sub qin qou)) dtg) (c.dz j i k)

  unfoldable pub raise_dq : R → ℕ → ℕ → ℕ → R → R
  raise_dq dtg j i k value =
      if is_skipped j i k
      then value
      else if double.lt value (flux_change dtg j i k)
      then flux_change dtg j i k
      else value

  unfoldable pub courant_step : ℕ → ℕ → ℕ → R
  courant_step j i k = double.div (double.mul limits.courant_max (c.dz j i k)) (c.dk_dwc j i k)

  unfoldable pub lower_courant : ℕ → ℕ → ℕ → R → R
  lower_courant j i k value =
      if is_skipped j i k
      then value
      else if double.lt (c.wc j i k) (c.wcs j i k)
      then (if double.lt (courant_step j i k) value then courant_step j i k else value)
      else value

  -- The reductions over the owned cells. A reducer starts from its neutral value, not from what its
  -- variable held: the lowest number of the type for the maximum, the highest for the minimum.
  unfoldable pub sweep3 : ℕ → ℕ → ℕ → (ℕ → ℕ → ℕ → R → R) → R → R
  sweep3 nyl nxl nz body =
      for_range nyl 1 (λ j. for_range nxl 1 (λ i. for_range nz 0 (λ k. body j i k)))

  unfoldable pub dq_max : R → ℕ → ℕ → ℕ → R → R
  unfolding raise_dq flux_change sweep3
  dq_max lowest nyl nxl nz dtg = sweep3 nyl nxl nz (raise_dq dtg) lowest

  unfoldable pub courant_min : R → ℕ → ℕ → ℕ → R
  unfolding lower_courant courant_step sweep3
  courant_min highest nyl nxl nz = sweep3 nyl nxl nz lower_courant highest

  -- The factors 0.75 and 1.25, and the clamps in their order.
  unfoldable pub scaled_step : R → R → R
  scaled_step dtg dq =
      if double.lt limits.dq_shrink dq
      then double.mul dtg (double.scaled 75 2)
      else if double.lt dq limits.dq_grow
      then double.mul dtg (double.scaled 125 2)
      else dtg

  abbrev pub cap : R → R → R
  cap limit x = if double.lt limit x then limit else x

  abbrev pub lift : R → R → R
  lift limit x = if double.lt x limit then limit else x

  unfoldable pub clamped_step : R → R → R → R
  unfolding scaled_step
  clamped_step dtg dq courant =
      lift limits.dt_min (cap limits.dt_max (cap courant (scaled_step dtg dq)))

  unfoldable pub local_step : (lowest highest : R) → ℕ → ℕ → ℕ → R → R
  unfolding dq_max courant_min clamped_step
  local_step lowest highest nyl nxl nz dtg =
      clamped_step dtg (dq_max lowest nyl nxl nz dtg) (courant_min highest nyl nxl nz)

-- `dtgNext_` on every rank.
unfoldable pub adapt_time_step :
    {R : Type 0} (double : Double R) (limits : Limits R) (lowest highest : R) (cells : ℕ → Cells R)
    (nyl nxl : ℕ → ℕ) (nz : ℕ) (min_all : (ℕ → R) → R)
    → R
    → R
unfolding local_step
adapt_time_step double limits lowest highest cells nyl nxl nz min_all dtg =
    min_all (λ r. local_step double limits (cells r) lowest highest (nyl r) (nxl r) nz dtg)
