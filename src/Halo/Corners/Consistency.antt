-- ===== src/Halo/Corners/Consistency.antt =====
-- The exchange with corners (core/HaloExchanger.cpp) on the mesh of core/Grid.cpp makes the ranks'
-- local fields one global field, halo and corners included.
use frehg.Prelude.{
  ℕ, zero, suc, ◌+◌, ◌-◌, ◌*◌, ◌/◌, ◌%◌, ◌≤◌, ◌<◌, ◌≡◌, refl, ap, inl, inr, true, false, arith, ltb,
  some, List, ◌∙◌, Bool-cases, ltb→lt, ltb→le, ◌==◌,
}
use frehg.Grid.Blocks.{
  block_size, block_start, block_size-pos, block_start-suc, block_start_first, block_start_last,
}
use frehg.Grid.Layout.{Layout, place}
use frehg.Grid.Layout.Tiling.{row-lt}
use frehg.Halo.Messages.{Direction, plane_indices}
use frehg.Halo.Exchange.{Store, Mesh, x_directions, y_directions}
use frehg.Halo.Exchange.Buffers.{value, levels, mem}
use frehg.Halo.Exchange.Opposites.{opposite, has}
use frehg.Halo.Exchange.Refreshed.{refreshed, refreshed_neither, refreshed_first, refreshed_second}
use frehg.Halo.Exchange.Delivery.{exchange_selected_lem}
use frehg.Halo.Placement.{mesh_of, mesh_of-IsMesh, neighbour_place}
use frehg.Halo.Corners.{or_keep, columns, settled, exchange_with_corners}

last_part :
    (n parts p : ℕ)
    → 0 < parts
    → p < parts
    → block_start n parts p + block_size n parts p < n
    → p + 1 < parts
last_part n parts p pos h k = elim (Bool-cases (ltb (p + 1) parts)) [
  | inl e ↦ ltb→lt _ _ e
  | inr e ↦
      let end : suc p ≡ parts = omega (arith, ltb→le _ _ e) in
      absurd (
        omega (
          arith,
          block_start_last n parts pos,
          block_start-suc n parts p,
          ap (block_start n parts) end,
        ))
]

module _ (nx ny nz px py : ℕ) (px_pos : 0 < px) (py_pos : 0 < py) (fits_x : px ≤ nx)
    (fits_y : py ≤ ny) where
  abbrev at : ℕ → Layout
  at = place nx ny px py

  -- Where the domain goes on beyond a block there is a neighbour.
  has_neighbours :
      (r : ℕ)
      → r < px * py
      → (0 < (at r).i0 → (q : ℕ) × ((at r).west ≡ some q))
        × ((at r).i0 + (at r).nx_local < nx → (q : ℕ) × ((at r).east ≡ some q))
        × (0 < (at r).j0 → (q : ℕ) × ((at r).south ≡ some q))
        × ((at r).j0 + (at r).ny_local < ny → (q : ℕ) × ((at r).north ≡ some q))
  unfolding place
  has_neighbours r h = (
    λ k. (r - 1, ground (arith, block_start_first nx px)),
    λ k. (r + 1, ground (arith, last_part nx px (r % px))),
    λ k. (r - px, ground (arith, block_start_first ny py)),
    λ k. (r + px, ground (arith, last_part ny py (r / px), row-lt nx ny px py px_pos py_pos r h)),
  )

  extents_pos : (r : ℕ) → (0 < (at r).nx_local) × (0 < (at r).ny_local)
  unfolding place
  extents_pos r =
      (block_size-pos nx px (r % px) px_pos fits_x, block_size-pos ny py (r / px) py_pos fits_y)

  module _ {W : Type 0} (G : ℕ → ℕ → ℕ → ℕ → W) (selected : List ℕ) (old : ℕ → Direction → ℕ → W)
      (world : ℕ → Store W) (depth : ℕ → ℕ)
      (kinds : (r i : ℕ)
        → r < px * py
        → levels ((mesh_of nx ny nz px py).extents r) (world r i) ≡ depth i) where
    -- The owned cells of a rank hold the global field `G`, whose owned cell (j, i) of the rank is the
    -- global one (j0 + j, i0 + i).
    abbrev pub Interior : ℕ → ℕ → Store W → Type 0
    Interior r idx s =
        (a b c : ℕ)
        → a < (at r).ny_local
        → b < (at r).nx_local
        → c < depth idx
        → value (s idx) (suc a) (suc b) c ≡ G idx ((at r).j0 + a) ((at r).i0 + b) c

    -- So do the cells of the owned rows with their i-halo, where these lie in the domain.
    abbrev pub Rows : ℕ → ℕ → Store W → Type 0
    Rows r idx s =
        (a b c : ℕ)
        → a < (at r).ny_local
        → b ≤ (at r).nx_local + 1
        → c < depth idx
        → 0 < (at r).i0 + b
        → (at r).i0 + b ≤ nx
        → value (s idx) (suc a) b c ≡ G idx ((at r).j0 + a) ((at r).i0 + b - 1) c

    abbrev mesh : Mesh
    mesh = mesh_of nx ny nz px py

    columns_exist :
        (r : ℕ)
        → r < px * py
        → (out : Store W) × (columns mesh selected old world r ≡ some out)
          × ((idx a b c : ℕ)
              → c < depth idx
              → value (out idx) a b c
                ≡ refreshed mesh false selected world x_directions r idx a b c
                    (value (world r idx) a b c))
          × ((i : ℕ) → levels (mesh.extents r) (out i) ≡ depth i)
    unfolding columns
    columns_exist r h =
        exchange_selected_lem mesh (mesh_of-IsMesh nx ny nz px py px_pos py_pos) false selected old
          world depth kinds x_directions r h paired
      where
        paired :
            (dir : Direction) → has x_directions dir ≡ true → has x_directions (opposite dir) ≡ true
        paired Direction.west e = refl
        paired Direction.east e = refl
        paired Direction.south e = cc
        paired Direction.north e = cc

    -- An owned cell by its place in the local field and in the domain.
    read :
        (q idx : ℕ) (s : Store W)
        → Interior q idx s
        → (y x c gj gi : ℕ) → 0 < y
        → y ≤ (at q).ny_local
        → 0 < x
        → x ≤ (at q).nx_local
        → c < depth idx
        → (at q).j0 + y ≡ gj + 1
        → (at q).i0 + x ≡ gi + 1
        → value (s idx) y x c ≡ G idx gj gi c
    read q idx s inside zero x c gj gi hy ly hx lx hc ej ei = absurd (omega arith)
    read q idx s inside (suc y) zero c gj gi hy ly hx lx hc ej ei = absurd (omega arith)
    read q idx s inside (suc y) (suc x) c gj gi hy ly hx lx hc ej ei =
        let same_j : (at q).j0 + y ≡ gj = omega arith in
        let same_i : (at q).i0 + x ≡ gi = omega arith in
        inside y x c ly lx hc ∙ rw (same_j, same_i) refl

    columns-Rows :
        (r idx : ℕ) (out : Store W)
        → r < px * py
        → mem idx selected ≡ true
        → ((q : ℕ) → q < px * py → Interior q idx (world q))
        → ((a b c : ℕ)
            → c < depth idx
            → value (out idx) a b c
              ≡ refreshed mesh false selected world x_directions r idx a b c
                  (value (world r idx) a b c))
        → Rows r idx out
    unfolding plane_indices
    columns-Rows r idx out h m inside got a zero c ha hb hc lo hi =
        let (q, e) = (has_neighbours r h).0 (omega arith) in
        let (q_lt, (where_i, where_j, tall), back) =
          neighbour_place nx ny nz px py px_pos py_pos r q Direction.west h e in
        got (suc a) 0 c hc
        ∙ refreshed_first mesh false selected world r q Direction.west Direction.east idx (suc a) 0
            c _ m e (ground arith) (ground arith)
        ∙ read q idx (world q) (inside q q_lt) (suc a - 1 + 1) (at q).nx_local c ((at r).j0 + a)
            ((at r).i0 + 0 - 1) (omega arith) (omega arith) (extents_pos q).0 (omega arith) hc
            (omega arith) (omega (arith, extents_pos q))
    columns-Rows r idx out h m inside got a (suc b) c ha hb hc lo hi =
        elim (Bool-cases (b == (at r).nx_local)) [
          | inl hit ↦
              let last : b ≡ (at r).nx_local = ground arith in
              let (q, e) = (has_neighbours r h).1 (omega arith) in
              let (q_lt, (where_i, where_j, tall), back) =
                neighbour_place nx ny nz px py px_pos py_pos r q Direction.east h e in
              got (suc a) (suc b) c hc
              ∙ refreshed_second mesh false selected world r q Direction.west Direction.east idx
                  (suc a) (suc b) c _ m e (ground arith)
              ∙ read q idx (world q) (inside q q_lt) (suc a - 1 + 1) 1 c ((at r).j0 + a)
                  ((at r).i0 + suc b - 1) (omega arith) (omega arith) (omega arith)
                  (extents_pos q).0 hc (omega arith) (omega arith)
          | inr miss ↦
              got (suc a) (suc b) c hc
              ∙ refreshed_neither mesh false selected world r Direction.west Direction.east idx
                  (suc a) (suc b) c _ (ground arith) (ground arith)
              ∙ read r idx (world r) (inside r h) (suc a) (suc b) c ((at r).j0 + a)
                  ((at r).i0 + suc b - 1) (omega arith) ha (omega arith) (ground arith) hc
                  (omega arith) (omega arith)
        ]

    settled_lem :
        (r : ℕ) (out : Store W)
        → columns mesh selected old world r ≡ some out
        → settled mesh selected old world r ≡ out
    settled_lem r out e = ap (λ o. or_keep o (world r)) e

    settled-kinds :
        (r i : ℕ)
        → r < px * py
        → levels (mesh.extents r) (settled mesh selected old world r i) ≡ depth i
    settled-kinds r i h =
        let (out, ran, got, kept) = columns_exist r h in rw (settled_lem r out ran) (kept i)

    settled-Rows :
        (idx : ℕ)
        → mem idx selected ≡ true
        → ((q : ℕ) → q < px * py → Interior q idx (world q))
        → (r : ℕ) → r < px * py
        → Rows r idx (settled mesh selected old world r)
    settled-Rows idx m inside r h =
        let (out, ran, got, kept) = columns_exist r h in
        rw (settled_lem r out ran) (columns-Rows r idx out h m inside (got idx))

    -- A cell of the owned rows, by its place in the local field and in the domain.
    read_row :
        (q idx : ℕ) (s : Store W)
        → Rows q idx s
        → (y x c gj gi : ℕ) → 0 < y
        → y ≤ (at q).ny_local
        → x ≤ (at q).nx_local + 1
        → c < depth idx
        → (at q).j0 + y ≡ gj + 1
        → (at q).i0 + x ≡ gi + 1
        → gi < nx
        → value (s idx) y x c ≡ G idx gj gi c
    read_row q idx s rows zero x c gj gi hy ly lx hc ej ei hi = absurd (omega arith)
    read_row q idx s rows (suc y) x c gj gi hy ly lx hc ej ei hi =
        let same_j : (at q).j0 + y ≡ gj = omega arith in
        let same_i : (at q).i0 + x - 1 ≡ gi = omega arith in
        rows y x c ly lx hc (omega arith) (omega arith) ∙ rw (same_j, same_i) refl

    -- Every cell of a rank's field, the halo and its corners included, where it lies in the domain.
    abbrev pub Whole : ℕ → ℕ → Store W → Type 0
    Whole r idx s =
        (a b c : ℕ)
        → a ≤ (at r).ny_local + 1
        → b ≤ (at r).nx_local + 1
        → c < depth idx
        → 0 < (at r).j0 + a
        → (at r).j0 + a ≤ ny
        → 0 < (at r).i0 + b
        → (at r).i0 + b ≤ nx
        → value (s idx) a b c ≡ G idx ((at r).j0 + a - 1) ((at r).i0 + b - 1) c

    Rows-Whole :
        (r idx : ℕ) (out : Store W)
        → r < px * py
        → mem idx selected ≡ true
        → ((q : ℕ) → q < px * py → Rows q idx (settled mesh selected old world q))
        → ((a b c : ℕ)
            → c < depth idx
            → value (out idx) a b c
              ≡ refreshed mesh true selected
                  (settled mesh selected old world)
                  y_directions
                  r
                  idx
                  a
                  b
                  c
                  (value (settled mesh selected old world r idx) a b c))
        → Whole r idx out
    unfolding plane_indices
    Rows-Whole r idx out h m rows got zero b c ha hb hc loj hij lo hi =
        let (q, e) = (has_neighbours r h).2 (omega arith) in
        let (q_lt, (where_j, where_i, wide), back) =
          neighbour_place nx ny nz px py px_pos py_pos r q Direction.south h e in
        got 0 b c hc
        ∙ refreshed_first mesh true selected (settled mesh selected old world) r q Direction.south
            Direction.north idx 0 b c _ m e (ground arith) (ground arith)
        ∙ read_row q idx (settled mesh selected old world q) (rows q q_lt) (at q).ny_local
            (b - 0 + 0) c ((at r).j0 + 0 - 1) ((at r).i0 + b - 1) (extents_pos q).1 (omega arith)
            (omega arith) hc (omega (arith, extents_pos q)) (omega arith) (omega arith)
    Rows-Whole r idx out h m rows got (suc a) b c ha hb hc loj hij lo hi =
        elim (Bool-cases (a == (at r).ny_local)) [
          | inl hit ↦
              let last : a ≡ (at r).ny_local = ground arith in
              let (q, e) = (has_neighbours r h).3 (omega arith) in
              let (q_lt, (where_j, where_i, wide), back) =
                neighbour_place nx ny nz px py px_pos py_pos r q Direction.north h e in
              got (suc a) b c hc
              ∙ refreshed_second mesh true selected (settled mesh selected old world) r q
                  Direction.south Direction.north idx (suc a) b c _ m e (ground arith)
              ∙ read_row q idx (settled mesh selected old world q) (rows q q_lt) 1 (b - 0 + 0) c
                  ((at r).j0 + suc a - 1) ((at r).i0 + b - 1) (omega arith) (extents_pos q).1
                  (omega arith) hc (omega arith) (omega arith) (omega arith)
          | inr miss ↦
              got (suc a) b c hc
              ∙ refreshed_neither mesh true selected (settled mesh selected old world) r
                  Direction.south Direction.north idx (suc a) b c _ (ground arith) (ground arith)
              ∙ read_row r idx (settled mesh selected old world r) (rows r h) (suc a) b c
                  ((at r).j0 + suc a - 1) ((at r).i0 + b - 1) (omega arith) (ground arith) hb hc
                  (omega arith) (omega arith) (omega arith)
        ]

    -- If the owned cells of every rank hold the global field, then the exchange with corners ends on
    -- every rank, and each cell of the rank's field, halo and corners included, that lies in the
    -- domain holds the global field's value at its place.
    pub exchange_with_corners-Whole :
        (old' : ℕ → Direction → ℕ → W) (idx : ℕ)
        → mem idx selected ≡ true
        → ((q : ℕ) → q < px * py → Interior q idx (world q))
        → (r : ℕ) → r < px * py
        → (out : Store W) × (exchange_with_corners mesh selected old old' world r ≡ some out)
          × Whole r idx out
    unfolding exchange_with_corners
    exchange_with_corners-Whole old' idx m inside r h =
        let (half, ran, _, _) = columns_exist r h in
        let (out, ended, got, _) =
          exchange_selected_lem mesh (mesh_of-IsMesh nx ny nz px py px_pos py_pos) true selected
            old' (settled mesh selected old world) depth settled-kinds y_directions r h paired in
        (
          out,
          rw (ran, exchange_with_corners) ended,
          Rows-Whole r idx out h m (settled-Rows idx m inside) (got idx),
        )
      where
        paired :
            (dir : Direction) → has y_directions dir ≡ true → has y_directions (opposite dir) ≡ true
        paired Direction.west e = cc
        paired Direction.east e = cc
        paired Direction.south e = refl
        paired Direction.north e = refl
