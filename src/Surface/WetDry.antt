-- ===== src/Surface/WetDry.antt =====
-- swe/WetDry.cpp: the depths and the geometry of the faces, and the limiters of wetting and of the
-- velocity.
pub mod Limits
use frehg.Prelude.{
  ℕ, ◌+◌, ◌-◌, ◌==◌, Bool, true, false, not, ◌&&◌, ◌||◌, if◌then◌else◌, List, [], ◌∷◌, Double, ◌⊕◌,
  ◌⊖◌, ◌⊗◌, ◌⊘◌, ◌≺◌, ◌≼◌, zero_real, one_real, negate, fmax,
}
use frehg.Boundary.Kinds.{BcFace, BcCell}
use frehg.Surface.State.{
  Field2, Member, DeviceBcList, Settings, Surface, is_edge, kernel, store, nyl, nxl, owned_kernel,
  on_west, on_east, on_south, on_north, edge_ghosts, for_members,
}

module _ {R : Type 0} ⦃double : Double R⦄ (s : Settings R) where
  unfoldable pub center_depth : Surface R → ℕ → ℕ → R
  center_depth u j i = let d = u.eta j i ⊖ u.bottom j i in if d ≼ s.min_depth then zero_real else d

  -- The depth at a face between two cells: the higher level over the higher bottom.
  unfoldable pub face_depth : R → R → R → R → R
  face_depth eta eta' bottom bottom' = fmax (fmax eta eta' ⊖ fmax bottom bottom') zero_real

  unfoldable pub update_depth : Surface R → Surface R
  unfolding center_depth face_depth
  update_depth u = record u {
    dept = kernel 0 0 (nyl s + 2) (nxl s + 2) (center_depth u) u.dept;
    deptx =
        kernel 1 0 (nyl s + 1) (nxl s + 1)
          (λ j i. face_depth (u.eta j i) (u.eta j (i + 1)) (u.bottom j i) (u.bottom j (i + 1)))
          u.deptx;
    depty =
        kernel 0 1 (nyl s + 1) (nxl s + 1)
          (λ j i. face_depth (u.eta j i) (u.eta (j + 1) i) (u.bottom j i) (u.bottom (j + 1) i))
          u.depty;
  }

  abbrev pub half : R
  half = double.scaled 5 1

  unfoldable pub cell_geometry : Surface R → Surface R
  cell_geometry u =
      let whole_box = kernel 0 0 (nyl s + 2) (nxl s + 2) in
      record u {
        vs = whole_box (λ j i. u.dept j i ⊗ s.dx ⊗ s.dy) u.vs;
        asz = whole_box (λ j i. if zero_real ≺ u.dept j i then s.dx ⊗ s.dy else zero_real) u.asz;
        asx = whole_box (λ j i. if s.nx == 1 then zero_real else u.deptx j i ⊗ s.dy) u.asx;
        asy = whole_box (λ j i. if s.ny == 1 then zero_real else u.depty j i ⊗ s.dx) u.asy;
      }

  unfoldable pub face_geometry : Surface R → Surface R
  face_geometry u =
      let faces_x = kernel 1 0 (nyl s + 1) (nxl s + 1) in
      let faces_y = kernel 0 1 (nyl s + 1) (nxl s + 1) in
      record u {
        vsx = faces_x (λ j i. half ⊗ (u.vs j i ⊕ u.vs j (i + 1))) u.vsx;
        aszx = faces_x (λ j i. half ⊗ (u.asz j i ⊕ u.asz j (i + 1))) u.aszx;
        vsy = faces_y (λ j i. half ⊗ (u.vs j i ⊕ u.vs (j + 1) i)) u.vsy;
        aszy = faces_y (λ j i. half ⊗ (u.asz j i ⊕ u.asz (j + 1) i)) u.aszy;
      }

  unfoldable pub west_geometry : Surface R → Surface R
  west_geometry u =
      let ghosts = kernel 1 0 (nyl s + 1) 1 in
      record u {
        vs = ghosts (λ j i. u.vs j 1) u.vs;
        asy = ghosts (λ j i. u.asy j 1) u.asy;
        asz = ghosts (λ j i. u.asz j 1) u.asz;
        vsx = ghosts (λ j i. u.vs j 1) u.vsx;
        aszx = ghosts (λ j i. u.asz j 1) u.aszx;
      }

  unfoldable pub south_geometry : Surface R → Surface R
  south_geometry u =
      let ghosts = kernel 0 1 1 (nxl s + 1) in
      record u {
        vs = ghosts (λ j i. u.vs 1 i) u.vs;
        asx = ghosts (λ j i. u.asx 1 i) u.asx;
        asz = ghosts (λ j i. u.asz 1 i) u.asz;
        vsy = ghosts (λ j i. u.vs 1 i) u.vsy;
        aszy = ghosts (λ j i. u.asz 1 i) u.aszy;
      }

  unfoldable pub update_geometry : Surface R → Surface R
  unfolding cell_geometry face_geometry west_geometry south_geometry
  update_geometry u =
      let inner = face_geometry (cell_geometry u) in
      let west = if is_edge s.layout.west then west_geometry inner else inner in
      if is_edge s.layout.south then south_geometry west else west

  -- A dry cell that the solve has wetted with no wet neighbour.
  unfoldable pub is_isolated : Surface R → ℕ → ℕ → Bool
  is_isolated u j i =
      let wet = λ (b a : ℕ). zero_real ≺ u.dept b a in
      (u.dept j i ≼ zero_real)
      && (zero_real ≺ u.eta j i ⊖ u.bottom j i)
      && not (wet j (i + 1) || wet j (i - 1) || wet (j + 1) i || wet (j - 1) i)

  unfoldable pub dry_isolated : Surface R → Surface R
  unfolding is_isolated
  dry_isolated u = record u {
    eta = owned_kernel s (λ j i. if is_isolated u j i then u.bottom j i else u.eta j i) u.eta;
    cfl_active =
        owned_kernel s (λ j i. if is_isolated u j i then one_real else u.cfl_active j i)
          u.cfl_active;
  }

  unfoldable pub dry_small : Surface R → Surface R
  dry_small u = record u {
    eta =
        owned_kernel s
          (λ j i.
            let diff = u.eta j i ⊖ u.bottom j i in
            if (zero_real ≺ diff) && (diff ≺ s.min_depth) then u.bottom j i else u.eta j i)
          u.eta;
  }

  unfoldable pub cfl_limiter : Surface R → Surface R
  unfolding dry_isolated dry_small
  cfl_limiter u = dry_small (dry_isolated u)

  abbrev zero_if : Bool → R → R
  zero_if test v = if test then zero_real else v

  abbrev pub is_limited : Surface R → ℕ → ℕ → Bool
  is_limited u j i = double.eq (u.cfl_active j i) one_real

  -- The tests on the velocity of a face, one after the other: of area `area`, from a cell of depth
  -- `here` to one of depth `there`.
  unfoldable pub limit : (least area here there : R) → Bool → R → R
  limit least area here there limited v =
      let thin = s.wetting_face_depth in
      let v1 = zero_if (area ≺ least) v in
      let v2 = zero_if ((here ≺ thin) && (zero_real ≺ v1)) v1 in
      let v3 = zero_if ((there ≺ thin) && (v2 ≺ zero_real)) v2 in zero_if limited v3

  unfoldable pub limit_velocities : Surface R → Surface R
  unfolding limit
  limit_velocities u = record u {
    uu =
        owned_kernel s
          (λ j i.
            limit (s.wetting_face_depth ⊗ s.dy) (u.asx j i) (u.dept j i) (u.dept j (i + 1))
              (is_limited u j i || is_limited u j (i + 1)) (u.uu j i))
          u.uu;
    vv =
        owned_kernel s
          (λ j i.
            limit (s.wetting_face_depth ⊗ s.dx) (u.asy j i) (u.dept j i) (u.dept (j + 1) i)
              (is_limited u j i || is_limited u (j + 1) i) (u.vv j i))
          u.vv;
  }

  unfoldable pub flow_rates : Surface R → Surface R
  flow_rates u = record u {
    fu = owned_kernel s (λ j i. u.uu j i ⊗ u.asx j i) u.fu;
    fv = owned_kernel s (λ j i. u.vv j i ⊗ u.asy j i) u.fv;
  }

  unfoldable pub courant_numbers : Surface R → Surface R
  courant_numbers u = record u {
    cflx = owned_kernel s (λ j i. double.fabs (u.uu j i ⊗ s.dt ⊘ s.dx)) u.cflx;
    cfly = owned_kernel s (λ j i. double.fabs (u.vv j i ⊗ s.dt ⊘ s.dy)) u.cfly;
    cfl_active = owned_kernel s (λ j i. zero_real) u.cfl_active;
  }

  unfoldable pub apply_velocity_limiters : Surface R → Surface R
  unfolding limit_velocities flow_rates courant_numbers
  apply_velocity_limiters u = courant_numbers (flow_rates (limit_velocities u))
