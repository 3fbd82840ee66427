-- ===== src/Surface/FreeSurface.antt =====
-- swe/FreeSurface.cpp, up to the system: the levels at the boundaries, the right-hand side, the
-- coefficients of the 5-point matrix, and the corrections at outflow faces.
use frehg.Prelude.{ℕ, ◌+◌, ◌-◌, Bool, if◌then◌else◌, Double, ◌⊕◌, ◌⊖◌, ◌⊗◌, ◌⊘◌, ◌≺◌, zero_real}
use frehg.Boundary.Kinds.{BcFace, BcCell}
use frehg.Surface.State.{
  Field2, Member, DeviceBcList, Settings, Surface, store, cell_area, owned_kernel, reduce, on_west,
  on_east, on_south, on_north, edge_ghosts, each_member, for_members, for_lists,
}

-- `if (edge) sct -= leg;`
abbrev pub fold_leg : {R : Type 0} ⦃double : Double R⦄ → Bool → R → R → R
fold_leg edge side sct = if edge then sct ⊖ side else sct

module _ {R : Type 0} ⦃double : Double R⦄ (s : Settings R) where
  -- The cell outside the domain that an edge face of a member borders on.
  abbrev pub store_ghost : BcCell → R → Field2 R → Field2 R
  store_ghost c x f = elim c.face [
    | BcFace.x_plus ↦ store c.j (c.i + 1) x f
    | BcFace.x_minus ↦ store c.j (c.i - 1) x f
    | BcFace.y_plus ↦ store (c.j + 1) c.i x f
    | BcFace.y_minus ↦ store (c.j - 1) c.i x f
    | _ ↦ f
  ]

  -- `eta(j, i) < bottom(j, i)` of the clamp.
  abbrev below_bed : Surface R → ℕ → ℕ → Bool
  below_bed u j i = u.eta j i ≺ u.bottom j i

  unfoldable pub clamp_eta : Surface R → Surface R
  clamp_eta u = record u {
    eta = owned_kernel s (λ j i. if below_bed u j i then u.bottom j i else u.eta j i) u.eta;
    audit = record u.audit {
      clamp_volume =
          u.audit.clamp_volume
          ⊕ reduce s
              (λ j i acc.
                if below_bed u j i then acc ⊕ (u.bottom j i ⊖ u.eta j i) ⊗ cell_area s else acc)
              zero_real;
    };
  }

  unfoldable pub prescribe_stage : Surface R → Surface R
  prescribe_stage u = record u {
    eta = for_members (λ l m eta. store m.cell.j m.cell.i l.current eta) u.eta_bcs u.eta;
  }

  unfoldable pub outflow_ghosts : Surface R → Surface R
  outflow_ghosts u = record u {
    eta =
        for_members (λ l m eta. store_ghost m.cell (eta m.cell.j m.cell.i ⊖ m.bed_drop) eta)
          u.outflow_bcs u.eta;
  }

  unfoldable pub enforce_surf_bc : Bool → Surface R → Surface R
  unfolding clamp_eta prescribe_stage outflow_ghosts
  enforce_surf_bc prescribed u =
      let clamped = clamp_eta u in
      let staged = if prescribed then prescribe_stage clamped else clamped in
      outflow_ghosts (record staged { eta = edge_ghosts s.layout staged.eta })

  -- The divergence of the explicit momentum.
  abbrev pub explicit_divergence : Surface R → ℕ → ℕ → R
  explicit_divergence u j i =
      u.asx j i ⊗ u.ex j i
      ⊖ u.asx j (i - 1) ⊗ u.ex j (i - 1)
      ⊕ u.asy j i ⊗ u.ey j i
      ⊖ u.asy (j - 1) i ⊗ u.ey (j - 1) i

  unfoldable pub interior_rhs : Surface R → Surface R
  interior_rhs u = record u {
    srhs = owned_kernel s (λ j i. u.eta j i ⊗ u.asz j i ⊖ s.dt ⊗ explicit_divergence u j i) u.srhs;
  }

  -- A list whose members each add a volume, to the right-hand side and, in sum, to the inflow.
  abbrev pub add_inflow : (Member R → R) → DeviceBcList R → Surface R → Surface R
  add_inflow volume l u = record u {
    srhs =
        each_member (λ l m f. store m.cell.j m.cell.i (f m.cell.j m.cell.i ⊕ volume m) f) l
          l.members u.srhs;
    audit = record u.audit {
      bc_inflow = u.audit.bc_inflow ⊕ each_member (λ l m sum. sum ⊕ volume m) l l.members zero_real;
    };
  }

  unfoldable pub discharge_rhs : Surface R → Surface R
  discharge_rhs u =
      for_lists (λ l. add_inflow (λ m. l.current ⊗ s.dt ⊘ double.of_int l.bc.global_cells) l)
        u.discharge_bcs u

  -- The volume through a face with a prescribed velocity.
  unfoldable pub velocity_volume : Surface R → BcCell → R → R
  velocity_volume u c v = elim c.face [
    | BcFace.x_minus ↦ s.dt ⊗ u.asx c.j 0 ⊗ v
    | BcFace.x_plus ↦ s.dt ⊗ u.asx c.j c.i ⊗ (u.ex c.j c.i ⊖ v)
    | BcFace.y_minus ↦ s.dt ⊗ u.asy 0 c.i ⊗ v
    | BcFace.y_plus ↦ s.dt ⊗ u.asy c.j c.i ⊗ (u.ey c.j c.i ⊖ v)
    | _ ↦ zero_real
  ]

  unfoldable pub velocity_rhs : Surface R → Surface R
  unfolding velocity_volume
  velocity_rhs u =
      for_lists (λ l w. add_inflow (λ m. velocity_volume w m.cell l.current) l w) u.velocity_bcs u

  unfoldable pub assemble_rhs : Surface R → Surface R
  unfolding interior_rhs discharge_rhs velocity_rhs
  assemble_rhs u = velocity_rhs (discharge_rhs (interior_rhs u))

  abbrev pub coef : R
  coef = s.gravity ⊗ s.dt ⊗ s.dt

  -- The leg of a face of area `a`, factor `d` and volume `v`.
  unfoldable pub leg : R → R → R → R
  leg a d v = if zero_real ≺ v then coef ⊗ a ⊗ a ⊗ d ⊘ v else zero_real

  -- The legs of the face to the east of a cell and of the face to its north.
  unfoldable pub leg_x : Surface R → ℕ → ℕ → R
  unfolding leg
  leg_x u j i = leg (u.asx j i) (u.drag_x j i) (u.vsx j i)

  unfoldable pub leg_y : Surface R → ℕ → ℕ → R
  unfolding leg
  leg_y u j i = leg (u.asy j i) (u.drag_y j i) (u.vsy j i)

  abbrev pub is_dry : Surface R → ℕ → ℕ → Bool
  is_dry u j i = double.eq (u.dept j i) zero_real

  unfoldable pub diagonal : Surface R → ℕ → ℕ → R
  unfolding leg_x leg_y
  diagonal u j i =
      let sxp = leg_x u j i in
      let sxm = leg_x u j (i - 1) in
      let syp = leg_y u j i in
      let sym_leg = leg_y u (j - 1) i in
      let area = if is_dry u j i then cell_area s else u.asz j i in
      fold_leg (on_north s j) syp (
        fold_leg (on_south s j) sym_leg (
          fold_leg (on_east s i) sxp
            (fold_leg (on_west s i) sxm (area ⊕ sxp ⊕ sxm ⊕ syp ⊕ sym_leg))))

  unfoldable pub assemble_coefficients : Surface R → Surface R
  unfolding diagonal
  assemble_coefficients u = record u {
    sxp = owned_kernel s (λ j i. leg_x u j i) u.sxp;
    sxm = owned_kernel s (λ j i. leg_x u j (i - 1)) u.sxm;
    syp = owned_kernel s (λ j i. leg_y u j i) u.syp;
    sym_leg = owned_kernel s (λ j i. leg_y u (j - 1) i) u.sym_leg;
    sct = owned_kernel s (diagonal u) u.sct;
    srhs =
        owned_kernel s
          (λ j i. if is_dry u j i then u.srhs j i ⊕ u.eta j i ⊗ cell_area s else u.srhs j i) u.srhs;
  }

  -- The coefficient of an outflow face.
  unfoldable pub outflow_coefficient : Surface R → BcCell → R
  unfolding leg
  outflow_coefficient u c = elim c.face [
    | BcFace.x_plus ↦ u.sxp c.j c.i
    | BcFace.x_minus ↦ leg (u.asx c.j 0) (u.drag_x c.j c.i) (u.vsx c.j 0)
    | BcFace.y_plus ↦ u.syp c.j c.i
    | BcFace.y_minus ↦ leg (u.asy 0 c.i) (u.drag_y c.j c.i) (u.vsy 0 c.i)
    | _ ↦ zero_real
  ]

  unfoldable pub release_outflow : DeviceBcList R → Surface R → Surface R
  unfolding outflow_coefficient
  release_outflow l u =
      let volume = λ (m : Member R). outflow_coefficient u m.cell ⊗ m.bed_drop in
      record u {
        srhs =
            each_member (λ l m f. store m.cell.j m.cell.i (f m.cell.j m.cell.i ⊖ volume m) f) l
              l.members u.srhs;
        audit = record u.audit {
          boundary_outflow =
              u.audit.boundary_outflow
              ⊕ each_member (λ l m sum. sum ⊕ volume m) l l.members zero_real;
        };
      }

  unfoldable pub apply_outflow_corrections : Surface R → Surface R
  unfolding release_outflow
  apply_outflow_corrections u = for_lists release_outflow u.outflow_bcs u
