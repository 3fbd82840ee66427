-- ===== src/Surface/WetDry/Limits.antt =====
-- The limiters of the velocity, face by face.
use frehg.Prelude.{
  ℕ, ◌+◌, ◌≡◌, refl, arith, Bool, true, ◌&&◌, ◌||◌, if◌then◌else◌, is_owned, Double, ◌⊗◌, ◌≺◌,
  zero_real,
}
use frehg.Surface.State.{Settings, Surface, nyl, nxl}
use frehg.Surface.WetDry.{
  limit, is_limited, limit_velocities, flow_rates, courant_numbers, apply_velocity_limiters,
}

module _ {R : Type 0} ⦃double : Double R⦄ (s : Settings R) where
  -- A face is shut: its area has vanished, the cell that the flow leaves is thin, or the wetting of
  -- a cell beside it is limited.
  abbrev pub is_shut : (least area here there : R) → Bool → R → Bool
  is_shut least area here there limited v =
      (area ≺ least)
      || ((here ≺ s.wetting_face_depth) && (zero_real ≺ v))
      || ((there ≺ s.wetting_face_depth) && (v ≺ zero_real))
      || limited

  limit_lem :
      (least area here there : R) (limited : Bool) (v : R)
      → limit s least area here there limited v
        ≡ (if is_shut least area here there limited v then zero_real else v)
  unfolding limit
  limit_lem least area here there limited v = ground arith

  -- The velocity limiters at an owned cell: the velocity of each of its two faces becomes 0 if the
  -- face is shut, and stays otherwise; the flow rates are those of the new velocities, and the flag
  -- of limited wetting is cleared.
  pub apply_velocity_limiters_lem :
      (u : Surface R) (j i : ℕ)
      → is_owned (nyl s) (nxl s) j i ≡ true
      → let w = apply_velocity_limiters s u in
        let east =
          is_shut
            (s.wetting_face_depth ⊗ s.dy)
            (u.asx j i)
            (u.dept j i)
            (u.dept j (i + 1))
            (is_limited s u j i || is_limited s u j (i + 1))
            (u.uu j i) in
        let north =
          is_shut
            (s.wetting_face_depth ⊗ s.dx)
            (u.asy j i)
            (u.dept j i)
            (u.dept (j + 1) i)
            (is_limited s u j i || is_limited s u (j + 1) i)
            (u.vv j i) in
        (w.uu j i ≡ (if east then zero_real else u.uu j i))
        × (w.vv j i ≡ (if north then zero_real else u.vv j i))
        × (w.fu j i ≡ w.uu j i ⊗ u.asx j i)
        × (w.fv j i ≡ w.vv j i ⊗ u.asy j i)
        × (w.cfl_active j i ≡ zero_real)
  unfolding apply_velocity_limiters limit_velocities flow_rates courant_numbers
  apply_velocity_limiters_lem u j i h =
      rw h (limit_lem _ _ _ _ _ _, limit_lem _ _ _ _ _ _, refl, refl, refl)
