-- ===== src/Surface/VelocityBoundary.antt =====
-- swe/WetDry.cpp: the velocities at the boundaries, `enforceVeloBc` and `fillVelocityGhostCorners`.
use frehg.Prelude.{
  ℕ, ◌+◌, ◌-◌, ◌==◌, Bool, not, ◌&&◌, ◌||◌, if◌then◌else◌, Double, ◌⊕◌, ◌⊖◌, ◌⊗◌, ◌⊘◌, ◌≺◌,
  zero_real, negate,
}
use frehg.Boundary.Kinds.{BcFace, BcCell}
use frehg.Surface.State.{
  Field2, Settings, Surface, is_edge, store, nyl, nxl, on_west, on_east, on_south, on_north,
  edge_ghosts, for_members,
}

module _ {R : Type 0} ⦃double : Double R⦄ (s : Settings R) where
  -- The prescribed velocity of a face, with its flow rate.
  unfoldable pub prescribe_velocity : BcCell → R → Surface R → Surface R
  prescribe_velocity c v u = elim c.face [
    | BcFace.x_minus ↦ record u { uu = store c.j 0 v u.uu; fu = store c.j 0 (v ⊗ u.asx c.j 0) u.fu }
    | BcFace.x_plus ↦ record u {
      uu = store c.j c.i v u.uu;
      fu = store c.j c.i (v ⊗ u.asx c.j c.i) u.fu;
    }
    | BcFace.y_minus ↦ record u { vv = store 0 c.i v u.vv; fv = store 0 c.i (v ⊗ u.asy 0 c.i) u.fv }
    | BcFace.y_plus ↦ record u {
      vv = store c.j c.i v u.vv;
      fv = store c.j c.i (v ⊗ u.asy c.j c.i) u.fv;
    }
    | _ ↦ u
  ]

  -- `(area > 0) ? flow / area : 0`
  abbrev pub flow_speed : R → R → R
  flow_speed flow area = if zero_real ≺ area then flow ⊘ area else zero_real

  abbrev when_store : Bool → ℕ → ℕ → R → Field2 R → Field2 R
  when_store test j i x f = if test then store j i x f else f

  -- The velocities that close the mass balance of a prescribed-stage cell at a domain edge. With
  -- `edge_only` those of the east and north faces stay.
  unfoldable pub stage_velocity : Bool → BcCell → Surface R → Surface R
  stage_velocity edge_only c u =
      let j = c.j in
      let i = c.i in
      let ax = u.asx j i in
      let ay = u.asy j i in
      let fw = (u.eta j i ⊖ u.etan j i) ⊗ u.asz j i ⊘ s.dt in
      let west = negate (u.fu j i) ⊖ u.fv j i ⊕ u.fv (j - 1) i ⊖ fw in
      let east = u.fu j (i - 1) ⊖ u.fv j i ⊕ u.fv (j - 1) i ⊖ fw in
      let south = negate (u.fv j i) ⊖ u.fu j i ⊕ u.fu j (i - 1) ⊖ fw in
      let north = u.fv (j - 1) i ⊖ u.fu j i ⊕ u.fu j (i - 1) ⊖ fw in
      record u {
        uu =
            when_store (on_east s i && not edge_only) j i (flow_speed east ax)
              (when_store (on_west s i) j 0 (flow_speed (negate west) ax) u.uu);
        vv =
            when_store (on_north s j && not edge_only) j i (flow_speed north ay)
              (when_store (on_south s j) 0 i (flow_speed (negate south) ay) u.vv);
      }

  -- Up to the exchange of the flow rates.
  unfoldable pub velocity_ghosts : Surface R → Surface R
  unfolding edge_ghosts prescribe_velocity
  velocity_ghosts u =
      for_members (λ l m. prescribe_velocity m.cell l.current) u.velocity_bcs
        (record u { uu = edge_ghosts s.layout u.uu; vv = edge_ghosts s.layout u.vv })

  -- `exchange` is that of `swe_Fu` and `swe_Fv`; without a stage condition nothing follows it.
  unfoldable pub enforce_velo_bc : (exchange : Surface R → Surface R) → Bool → Surface R → Surface R
  unfolding velocity_ghosts stage_velocity
  enforce_velo_bc exchange edge_only u =
      let exchanged = exchange (velocity_ghosts u) in
      for_members (λ l m. stage_velocity edge_only m.cell) exchanged.eta_bcs exchanged

  abbrev south_corners : Field2 R → Field2 R
  south_corners f j i =
      if is_edge s.layout.south && j == 0 && (i == 0 || i == nxl s + 1) then f 1 i else f j i

  abbrev north_corners : Field2 R → Field2 R
  north_corners f j i =
      if is_edge s.layout.north && j == nyl s + 1 && (i == 0 || i == nxl s + 1)
      then f (nyl s) i
      else f j i

  unfoldable pub fill_velocity_ghost_corners : Surface R → Surface R
  fill_velocity_ghost_corners u = record u {
    uu = north_corners (south_corners u.uu);
    vv = north_corners (south_corners u.vv);
  }
