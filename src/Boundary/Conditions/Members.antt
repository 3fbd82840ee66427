-- ===== src/Boundary/Conditions/Members.antt =====
-- Which cells a condition acts on: the list that the constructor of `BoundarySet` pushes.
use mathlib.Core.List.{Memᴰ}
use frehg.Prelude.{
  ℕ, ◌+◌, ◌-◌, ◌==◌, ◌≤◌, ◌<◌, arith, ◌≡◌, refl, ap, ◌↔◌, ◌⊎◌, inl, inr, Bool, true, false, List,
  [], if_intro, if_elim, for_range, for_range_inv, for_range_reach, is_owned, Double,
}
use frehg.Config.Load.Outputs.{BcTarget, BcKind}
use frehg.Boundary.Kinds.{BcFace, BcCell}
use frehg.Boundary.Polygon.{Polygon}
use frehg.Boundary.Conditions.Pushes.{push_if_keeps, push_if_hits, push_if_cases}
use frehg.Boundary.Conditions.{
  RegionMesh, push_if, cell_i, cell_j, holds_center, append_side_faces, footprint_face, edge_faces,
  append_cell, member_cells,
}

module _ {R : Type 0} ⦃double : Double R⦄ (mesh : RegionMesh R) (target : BcTarget) (kind : BcKind)
    (poly : Polygon R) where
  -- The face lies on the edge of the domain that it is named for.
  abbrev pub touches : BcCell → Bool
  touches c = elim c.face [
    | BcFace.x_minus ↦ cell_i mesh c.i == 0
    | BcFace.x_plus ↦ cell_i mesh c.i == mesh.nx - 1
    | BcFace.y_minus ↦ cell_j mesh c.j == 0
    | BcFace.y_plus ↦ cell_j mesh c.j == mesh.ny - 1
    | _ ↦ false
  ]

  abbrev pub FaceRule : Bool → BcCell → Type 0
  FaceRule true c = touches c ≡ true
  FaceRule false c = c.face ≡ footprint_face mesh target

  -- An owned cell whose centre lies in the polygon, with a face of the condition's kind.
  abbrev pub IsMember : BcCell → Type 0
  IsMember c =
      (is_owned mesh.layout.ny_local mesh.layout.nx_local c.j c.i ≡ true)
      × (holds_center mesh poly c.j c.i ≡ true)
      × FaceRule (edge_faces mesh target kind) c

  on : ℕ → ℕ → BcFace → BcCell
  on j i face = record { j = j; i = i; face = face }

  all_sides : ℕ → ℕ → List BcCell → List BcCell
  unfolding on
  all_sides j i xs = push_if (cell_j mesh j == mesh.ny - 1) (on j i BcFace.y_plus) (
      push_if (cell_j mesh j == 0) (on j i BcFace.y_minus) (
        push_if (cell_i mesh i == mesh.nx - 1) (on j i BcFace.x_plus)
          (push_if (cell_i mesh i == 0) (on j i BcFace.x_minus) xs)))

  side_keeps :
      (c : BcCell) (j i : ℕ) (xs : List BcCell)
      → Memᴰ c xs
      → Memᴰ c (append_side_faces mesh poly j i xs)
  unfolding append_side_faces
  side_keeps c j i xs m =
      if_intro (Memᴰ c) (holds_center mesh poly j i) _ _
        (λ h. push_if_keeps _ _ (push_if_keeps _ _ (push_if_keeps _ _ (push_if_keeps _ _ m))))
        (λ h. m)

  cell_keeps :
      (c : BcCell) (j i : ℕ) (xs : List BcCell)
      → Memᴰ c xs
      → Memᴰ c (append_cell mesh target kind poly j i xs)
  unfolding append_cell
  cell_keeps c j i xs m =
      if_intro (Memᴰ c) (edge_faces mesh target kind) _ _ (λ e. side_keeps c j i xs m)
        (λ e. push_if_keeps (holds_center mesh poly j i) _ m)

  sides_hit :
      (j i : ℕ) (face : BcFace) (xs : List BcCell)
      → touches (on j i face) ≡ true
      → Memᴰ (on j i face) (all_sides j i xs)
  unfolding all_sides on
  sides_hit j i BcFace.x_minus xs t =
      push_if_keeps _ _ (push_if_keeps _ _ (push_if_keeps _ _ (push_if_hits _ _ xs t)))
  sides_hit j i BcFace.x_plus xs t = push_if_keeps _ _ (push_if_keeps _ _ (push_if_hits _ _ _ t))
  sides_hit j i BcFace.y_minus xs t = push_if_keeps _ _ (push_if_hits _ _ _ t)
  sides_hit j i BcFace.y_plus xs t = push_if_hits _ _ _ t
  sides_hit j i BcFace.bottom_face xs t = absurd (let k = t in cc)
  sides_hit j i BcFace.top_face xs t = absurd (let k = t in cc)

  side_hits :
      (j i : ℕ) (face : BcFace) (xs : List BcCell)
      → holds_center mesh poly j i ≡ true
      → touches (on j i face) ≡ true
      → Memᴰ (on j i face) (append_side_faces mesh poly j i xs)
  unfolding append_side_faces all_sides on
  side_hits j i face xs h t =
      if_intro (Memᴰ (on j i face)) (holds_center mesh poly j i) _ _ (λ _. sides_hit j i face xs t)
        (λ e. absurd (let g = rw h at e in cc))

  rule_as :
      (b : Bool) (c : BcCell)
      → edge_faces mesh target kind ≡ b
      → FaceRule b c
      → FaceRule (edge_faces mesh target kind) c
  rule_as b c e f = rw e f

  rule_from :
      (b : Bool) (c : BcCell)
      → edge_faces mesh target kind ≡ b
      → FaceRule (edge_faces mesh target kind) c
      → FaceRule b c
  rule_from b c e f = rw e at f

  cell_hits :
      (j i : ℕ) (face : BcFace) (xs : List BcCell)
      → holds_center mesh poly j i ≡ true
      → FaceRule (edge_faces mesh target kind) (on j i face)
      → Memᴰ (on j i face) (append_cell mesh target kind poly j i xs)
  unfolding append_cell on
  cell_hits j i face xs h f =
      if_intro (Memᴰ (on j i face)) (edge_faces mesh target kind) _ _
        (λ e. side_hits j i face xs h (rule_from true _ e f))
        (λ e.
          let same : face ≡ footprint_face mesh target = rule_from false _ e f in
          rw same (push_if_hits (holds_center mesh poly j i) _ xs h))

  -- A pushed face that is on its edge.
  Pushed : ℕ → ℕ → BcCell → Type 0
  Pushed j i c = (c.j ≡ j) × (c.i ≡ i) × (touches c ≡ true)

  pushed :
      (c : BcCell) (j i : ℕ) (face : BcFace)
      → c ≡ on j i face
      → touches (on j i face) ≡ true
      → Pushed j i c
  unfolding on Pushed
  pushed c j i face e t = (ap (λ d. d.j) e, ap (λ d. d.i) e, rw e t)

  sides_cases :
      (c : BcCell) (j i : ℕ) (xs : List BcCell)
      → Memᴰ c (all_sides j i xs)
      → Memᴰ c xs ⊎ Pushed j i c
  unfolding all_sides on
  sides_cases c j i xs m = elim (push_if_cases _ _ _ m) [
    | inr (e, t) ↦ inr (pushed c j i BcFace.y_plus e t)
    | inl m1 ↦ elim (push_if_cases _ _ _ m1) [
      | inr (e, t) ↦ inr (pushed c j i BcFace.y_minus e t)
      | inl m2 ↦ elim (push_if_cases _ _ _ m2) [
        | inr (e, t) ↦ inr (pushed c j i BcFace.x_plus e t)
        | inl m3 ↦ elim (push_if_cases _ _ _ m3) [
          | inr (e, t) ↦ inr (pushed c j i BcFace.x_minus e t)
          | inl m4 ↦ inl m4
        ]
      ]
    ]
  ]

  cell_cases :
      (c : BcCell) (j i : ℕ) (xs : List BcCell)
      → Memᴰ c (append_cell mesh target kind poly j i xs)
      → Memᴰ c xs
        ⊎ ((c.j ≡ j)
            × (c.i ≡ i)
            × (holds_center mesh poly j i ≡ true)
            × FaceRule (edge_faces mesh target kind) c)
  unfolding append_cell append_side_faces Pushed all_sides on
  cell_cases c j i xs m = elim (if_elim (Memᴰ c) (edge_faces mesh target kind) _ _ m) [
    | inl (e, k) ↦ elim (if_elim (Memᴰ c) (holds_center mesh poly j i) _ _ k) [
      | inl (h, l) ↦ elim (sides_cases c j i xs l) [
        | inl old ↦ inl old
        | inr (a, b, t) ↦ inr (a, b, h, rule_as true c e t)
      ]
      | inr (h, l) ↦ inl l
    ]
    | inr (e, k) ↦ elim (push_if_cases (holds_center mesh poly j i) _ xs k) [
      | inl old ↦ inl old
      | inr (same, h) ↦
          inr (ap (λ d. d.j) same, ap (λ d. d.i) same, h, rule_as false c e (ap (λ d. d.face) same))
    ]
  ]

  AreMembers : List BcCell → Type 0
  AreMembers xs = (c : BcCell) → Memᴰ c xs → IsMember c

  cell_sound :
      (j i : ℕ) (xs : List BcCell)
      → 1 ≤ j
      → j < 1 + mesh.layout.ny_local
      → 1 ≤ i
      → i < 1 + mesh.layout.nx_local
      → AreMembers xs
      → AreMembers (append_cell mesh target kind poly j i xs)
  unfolding AreMembers
  cell_sound j i xs lj hj li hi h c m = elim (cell_cases c j i xs m) [
    | inl old ↦ h c old
    | inr (a, b, inside, rule) ↦
        let owned : is_owned mesh.layout.ny_local mesh.layout.nx_local c.j c.i ≡ true =
          rw (a, b) (ground arith) in
        (owned, rw (a, b) inside, rule)
  ]

  row_sound :
      (j : ℕ) (xs : List BcCell)
      → 1 ≤ j
      → j < 1 + mesh.layout.ny_local
      → AreMembers xs
      → AreMembers
          (for_range mesh.layout.nx_local 1 (λ i. append_cell mesh target kind poly j i) xs)
  row_sound j xs lj hj h =
      (for_range_inv (λ i ys. (1 ≤ i) × AreMembers ys) (λ i. append_cell mesh target kind poly j i)
        (1 + mesh.layout.nx_local)
        (λ i ys less (low, g). (omega arith, cell_sound j i ys lj hj low less g))
        mesh.layout.nx_local 1 xs refl (omega arith, h)).1

  members_sound : AreMembers (member_cells mesh target kind poly)
  unfolding member_cells AreMembers
  members_sound =
      (for_range_inv (λ j ys. (1 ≤ j) × AreMembers ys)
        (λ j. for_range mesh.layout.nx_local 1 (λ i. append_cell mesh target kind poly j i))
        (1 + mesh.layout.ny_local) (λ j ys less (low, g). (omega arith, row_sound j ys low less g))
        mesh.layout.ny_local 1 [] refl (omega arith, λ c m. elim m [ ])).1

  row_keeps :
      (c : BcCell) (j : ℕ) (xs : List BcCell)
      → Memᴰ c xs
      → Memᴰ c (for_range mesh.layout.nx_local 1 (λ i. append_cell mesh target kind poly j i) xs)
  row_keeps c j xs m =
      (for_range_inv (λ i ys. Memᴰ c ys) (λ i. append_cell mesh target kind poly j i)
        (1 + mesh.layout.nx_local) (λ i ys less k. cell_keeps c j i ys k) mesh.layout.nx_local 1 xs
        refl m)

  members_complete : (c : BcCell) → IsMember c → Memᴰ c (member_cells mesh target kind poly)
  unfolding member_cells on
  members_complete c (owned, inside, rule) =
      for_range_reach (λ ys. Memᴰ c ys)
        (λ j. for_range mesh.layout.nx_local 1 (λ i. append_cell mesh target kind poly j i)) 1
        (1 + mesh.layout.ny_local) (λ j ys _ _ m. row_keeps c j ys m) c.j (ground arith)
        (λ ys.
          for_range_reach (λ zs. Memᴰ c zs) (λ i. append_cell mesh target kind poly c.j i) 1
            (1 + mesh.layout.nx_local) (λ i zs _ _ m. cell_keeps c c.j i zs m) c.i (ground arith)
            (λ zs. cell_hits c.j c.i c.face zs inside rule) mesh.layout.nx_local 1 ys (omega arith)
            refl (inr (ground arith)))
        mesh.layout.ny_local 1 [] (omega arith) refl (inr (ground arith))

  -- The cells of a condition are the owned cells whose centres lie in the polygon: with each face
  -- that lies on the edge of the domain it is named for, if the condition acts on edges, and
  -- otherwise with the face of the footprint.
  pub member_cells_lem : (c : BcCell) → Memᴰ c (member_cells mesh target kind poly) ↔ IsMember c
  unfolding AreMembers
  member_cells_lem c = (members_sound c, members_complete c)
