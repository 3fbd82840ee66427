-- ===== src/Surface/Momentum.antt =====
-- swe/Momentum.cpp and swe/SweFormulas.hpp: the explicit momentum with its drag factors, the drag
-- coefficients, the velocities after the solve, and their interpolation to the other faces.
use frehg.Prelude.{
  ℕ, ◌+◌, ◌-◌, ◌||◌, if◌then◌else◌, Double, ◌⊕◌, ◌⊖◌, ◌⊗◌, ◌⊘◌, ◌≺◌, ◌≼◌, zero_real, one_real, fmax,
}
use frehg.Surface.State.{Field2, Settings, Surface, cell_area, owned_kernel}

-- The functions of the mathematical library.
pub record Elementary (R : Type 0) : Type 0 where
  pub sqrt : R → R
  pub pow : R → R → R
  pub exp : R → R
  pub cos : R → R
  pub sin : R → R

module _ {R : Type 0} ⦃double : Double R⦄ (lib : Elementary R) where
  unfoldable pub cfl_damped_advection : R → R → R → R
  cfl_damped_advection adv velocity cfl =
      let low = double.scaled 5 1 in
      let high = double.scaled 7 1 in
      if double.eq velocity zero_real || high ≺ cfl
      then zero_real
      else if low ≺ cfl
      then adv ⊗ (high ⊖ cfl) ⊘ (high ⊖ low)
      else adv

  unfoldable pub manning_drag : R → R → R → R → R
  manning_drag gravity n depth thin =
      let third = λ (k : ℕ). double.of_int k ⊘ double.of_int 3 in
      gravity ⊗ n ⊗ n ⊘ lib.pow depth (if depth ≺ thin then third 2 else third 1)

  unfoldable pub chezy_drag : R → R → R
  chezy_drag gravity c = gravity ⊘ (c ⊗ c)

  unfoldable pub point_implicit_factor : R → R → R → R → R
  point_implicit_factor dt drag speed area =
      one_real ⊘ (double.scaled 5 1 ⊗ dt ⊗ drag ⊗ speed ⊗ area ⊕ one_real)

  unfoldable pub wind_stress : R → R → R → R → R → R
  wind_stress drag speed u v omega =
      let relative = speed ⊖ u ⊗ lib.cos omega ⊖ v ⊗ lib.sin omega in
      double.scaled 1225 3 ⊗ drag ⊗ relative ⊗ relative

  unfoldable pub wind_stress_attenuated : R → R → R → R → R
  wind_stress_attenuated tau depth thin attenuation =
      if depth ≺ thin
      then (if depth ≺ double.scaled 5 1 ⊗ thin
          then zero_real
          else tau ⊗ lib.exp (attenuation ⊗ (depth ⊖ thin) ⊘ thin))
      else tau

  module _ (s : Settings R) where
    -- Upwind: the slope behind the flow of speed `v`.
    unfoldable pub upwind_terms : R → R → R → R → R
    upwind_terms v back here front =
        (v ⊕ double.fabs v) ⊗ (here ⊖ back) ⊕ (v ⊖ double.fabs v) ⊗ (front ⊖ here)

    -- The advection of the field `f` at a face, where the flow has the speeds `p` and `q`.
    unfoldable pub upwind_advection : Field2 R → R → R → ℕ → ℕ → R
    unfolding upwind_terms
    upwind_advection f p q j i =
        double.scaled 5 1 ⊘ s.dx ⊗ upwind_terms p (f j (i - 1)) (f j i) (f j (i + 1))
        ⊕ double.scaled 5 1 ⊘ s.dy ⊗ upwind_terms q (f (j - 1) i) (f j i) (f (j + 1) i)

    unfoldable pub diffusion_x : Surface R → ℕ → ℕ → R
    diffusion_x u j i =
        let f = u.uu in
        if zero_real ≺ u.vsx j i
        then s.visc_x
            ⊘ u.vsx j i
            ⊘ s.dx
            ⊗ (u.asx j i ⊗ (f j (i + 1) ⊖ f j i) ⊖ u.asx j i ⊗ (f j i ⊖ f j (i - 1)))
          ⊕ s.visc_y
            ⊘ u.vsx j i
            ⊘ s.dy
            ⊗ (u.asy j i ⊗ (f (j + 1) i ⊖ f j i) ⊖ u.asy (j - 1) i ⊗ (f j i ⊖ f (j - 1) i))
        else zero_real

    unfoldable pub diffusion_y : Surface R → ℕ → ℕ → R
    diffusion_y u j i =
        let f = u.vv in
        if zero_real ≺ u.vsy j i
        then s.visc_x
            ⊘ u.vsy j i
            ⊘ s.dx
            ⊗ (u.asx j i ⊗ (f j (i + 1) ⊖ f j i) ⊖ u.asx j (i - 1) ⊗ (f j i ⊖ f j (i - 1)))
          ⊕ s.visc_y
            ⊘ u.vsy j i
            ⊘ s.dy
            ⊗ (u.asy j i ⊗ (f (j + 1) i ⊖ f j i) ⊖ u.asy j i ⊗ (f j i ⊖ f (j - 1) i))
        else zero_real

    -- The area of a face over its volume, 0 where the volume is.
    abbrev pub area_over : R → R → R
    area_over area volume = if zero_real ≺ volume then area ⊘ volume else zero_real

    unfoldable pub factor_x : Surface R → ℕ → ℕ → R
    unfolding point_implicit_factor
    factor_x u j i =
        point_implicit_factor s.dt (u.cd_x j i)
          (lib.sqrt (u.uu j i ⊗ u.uu j i ⊕ u.vx j i ⊗ u.vx j i))
          (area_over (u.aszx j i) (u.vsx j i))

    unfoldable pub factor_y : Surface R → ℕ → ℕ → R
    unfolding point_implicit_factor
    factor_y u j i =
        point_implicit_factor s.dt (u.cd_y j i)
          (lib.sqrt (u.uy j i ⊗ u.uy j i ⊕ u.vv j i ⊗ u.vv j i))
          (area_over (u.aszy j i) (u.vsy j i))

    -- What the wind adds at a face of depth `depth`, `share` being its part along the face's axis.
    unfoldable pub wind_push : Surface R → ℕ → ℕ → R → R → R → R
    unfolding wind_stress wind_stress_attenuated
    wind_push u j i depth share e =
        let tau = wind_stress u.wind_cd u.wind_speed (u.uu j i) (u.vv j i) u.wind_omega in
        let stress = wind_stress_attenuated tau depth s.thin_layer_depth s.wind_attenuation in
        if zero_real ≺ depth then e ⊕ s.dt ⊗ stress ⊗ share ⊘ (depth ⊗ double.of_int 998) else e

    unfoldable pub source_x : Surface R → ℕ → ℕ → R
    unfolding upwind_advection diffusion_x cfl_damped_advection wind_push
    source_x u j i =
        let adv = upwind_advection u.uu (u.uu j i) (u.vx j i) j i in
        let damped = cfl_damped_advection adv (u.uu j i) (u.cflx j i) in
        let e = u.uu j i ⊕ s.dt ⊗ (diffusion_x u j i ⊖ damped) in
        if s.wind_enabled then wind_push u j i (u.deptx j i) (lib.cos u.wind_omega) e else e

    unfoldable pub source_y : Surface R → ℕ → ℕ → R
    unfolding upwind_advection diffusion_y cfl_damped_advection wind_push
    source_y u j i =
        let adv = upwind_advection u.vv (u.uy j i) (u.vv j i) j i in
        let damped = cfl_damped_advection adv (u.vv j i) (u.cfly j i) in
        let e = u.vv j i ⊕ s.dt ⊗ (diffusion_y u j i ⊖ damped) in
        if s.wind_enabled then wind_push u j i (u.depty j i) (lib.sin u.wind_omega) e else e

    unfoldable pub momentum_source : Surface R → Surface R
    unfolding factor_x factor_y source_x source_y
    momentum_source u = record u {
      drag_x = owned_kernel s (factor_x u) u.drag_x;
      drag_y = owned_kernel s (factor_y u) u.drag_y;
      ex = owned_kernel s (λ j i. source_x u j i ⊗ factor_x u j i) u.ex;
      ey = owned_kernel s (λ j i. source_y u j i ⊗ factor_y u j i) u.ey;
    }

    unfoldable pub drag_coefficient : Surface R → ℕ → ℕ → R
    unfolding chezy_drag manning_drag
    drag_coefficient u j i =
        let faces =
          fmax (fmax (u.deptx j i) (u.deptx j (i - 1))) (fmax (u.depty j i) (u.depty (j - 1) i)) in
        let depth =
          if u.vs j i ≼ zero_real then fmax faces s.min_depth else u.vs j i ⊘ cell_area s in
        if s.chezy
        then chezy_drag s.gravity (u.friction_coef j i)
        else manning_drag s.gravity (u.friction_coef j i) depth s.thin_layer_depth

    unfoldable pub update_drag_coef : Surface R → Surface R
    unfolding drag_coefficient
    update_drag_coef u = record u {
      cd_x = owned_kernel s (drag_coefficient u) u.cd_x;
      cd_y = owned_kernel s (drag_coefficient u) u.cd_y;
    }

    unfoldable pub update_velocity_field : Surface R → Surface R
    update_velocity_field u = record u {
      uu =
          owned_kernel s
            (λ j i.
              (u.ex j i
                ⊖ s.gravity
                  ⊗ s.dt
                  ⊗ area_over (u.asx j i) (u.vsx j i)
                  ⊗ (u.eta j (i + 1) ⊖ u.eta j i))
              ⊗ u.drag_x j i)
            u.uu;
      vv =
          owned_kernel s
            (λ j i.
              (u.ey j i
                ⊖ s.gravity
                  ⊗ s.dt
                  ⊗ area_over (u.asy j i) (u.vsy j i)
                  ⊗ (u.eta (j + 1) i ⊖ u.eta j i))
              ⊗ u.drag_y j i)
            u.vv;
    }

    unfoldable pub interpolate_velocity : Surface R → Surface R
    interpolate_velocity u =
        let quarter = double.scaled 25 2 in
        record u {
          uy =
              owned_kernel s
                (λ j i.
                  quarter ⊗ (u.uu j i ⊕ u.uu j (i - 1) ⊕ u.uu (j + 1) i ⊕ u.uu (j + 1) (i - 1)))
                u.uy;
          vx =
              owned_kernel s
                (λ j i.
                  quarter ⊗ (u.vv j i ⊕ u.vv (j - 1) i ⊕ u.vv j (i + 1) ⊕ u.vv (j - 1) (i + 1)))
                u.vx;
        }
