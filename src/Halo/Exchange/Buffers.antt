-- ===== src/Halo/Exchange/Buffers.antt =====
-- The coalesced message of core/HaloExchanger.cpp: the receiver finds, at the place of each selected
-- field, what the sender packed for it.
use frehg.Prelude.{
  ℕ, ◌+◌, ◌-◌, ◌*◌, ◌≤◌, ◌<◌, ◌≡◌, refl, ◌⊎◌, inl, inr, Bool, true, false, ◌&&◌, ◌||◌, ltb, leb,
  ◌==◌, if◌then◌else◌, arith, List, [], ◌∷◌, ◌∙◌, lt→ltb, Bool-cases, ap,
}
use frehg.Halo.Messages.{
  Direction, Extents, Field, flat, deep, plane_indices, along_x, row_cells, row_start, plane_count,
  pack_entry, unpack_entry,
}
use frehg.Halo.Kernels.{on_plane, along, pack_row, pack_rows, unpack_row, unpack_rows}
use frehg.Halo.Exchange.{Store, pack_all, unpack_all, put}

-- The cells of the halo that a message from a direction fills.
abbrev pub in_zone : Extents → Direction → Bool → ℕ → ℕ → Bool
in_zone e dir wide_rows a b =
    on_plane (along_x dir) (plane_indices dir e).recv a b
    && (leb (row_start dir wide_rows) (along (along_x dir) a b)
        && ltb (along (along_x dir) a b) (row_start dir wide_rows + row_cells e dir wide_rows))

abbrev pub mem : ℕ → List ℕ → Bool
mem idx [] = false
mem idx (i ∷ selected) = idx == i || mem idx selected

in_zone_row :
    (p : Bool) (start n rows : ℕ)
    → (p && (leb start n && ltb n (start + rows))) ≡ true
    → n - start < rows
in_zone_row p start n rows h = ground arith

and_true : (p q : Bool) → (p && q && true) ≡ (p && q)
and_true p q = ground arith

module _ {W : Type 0} where
  -- The value of a field at a cell; a two-dimensional field has one level.
  abbrev pub value : Field W → ℕ → ℕ → ℕ → W
  value (flat f) a b c = f a b
  value (deep f) a b c = f a b c

  abbrev pub levels : Extents → Field W → ℕ
  levels e (flat f) = 1
  levels e (deep f) = e.nz

  -- The kernels index the planes by `r` and `k`.
  abbrev pub plane_value : Direction → Bool → ℕ → Field W → ℕ → ℕ → W
  plane_value dir wide_rows plane f r k =
      value f (if along_x dir then r + row_start dir wide_rows else plane)
        (if along_x dir then plane else r + row_start dir wide_rows) k

  pack_entry_lem :
      (e : Extents) (dir : Direction) (wide_rows : Bool) (f : Field W) (offset : ℕ) (buf : ℕ → W)
      → let out = pack_entry e dir wide_rows f offset buf in
        ((r k : ℕ)
          → r < row_cells e dir wide_rows
          → k < levels e f
          → out (offset + r * levels e f + k)
            ≡ plane_value dir wide_rows (plane_indices dir e).send f r k)
        × ((n : ℕ) → (n < offset) ⊎ (offset + plane_count e f dir wide_rows ≤ n) → out n ≡ buf n)
  unfolding pack_entry plane_count
  pack_entry_lem e dir wide_rows (flat f) offset buf =
      let (done, same) = pack_row (row_cells e dir wide_rows) offset _ buf in
      (
        λ r k hr hk. let at : offset + r * 1 + k ≡ offset + r = omega arith in rw at (done r hr),
        same,
      )
  pack_entry_lem e dir wide_rows (deep f) offset buf = pack_rows _ e.nz offset _ buf

  unpack_entry_lem :
      (e : Extents) (dir : Direction) (wide_rows : Bool) (offset : ℕ) (buf : ℕ → W) (f : Field W)
      (a b c : ℕ)
      → c < levels e f
      → let out = unpack_entry e dir wide_rows offset buf f in
        value out a b c ≡ (
          if in_zone e dir wide_rows a b
          then buf (offset + (along (along_x dir) a b - row_start dir wide_rows) * levels e f + c)
          else value f a b c)
  unfolding unpack_entry
  unpack_entry_lem e dir wide_rows offset buf (flat f) a b c h =
      let at : offset + (along (along_x dir) a b - row_start dir wide_rows) * 1 + c
          ≡ offset + (along (along_x dir) a b - row_start dir wide_rows) =
        omega arith in
      rw at (
        unpack_row (along_x dir) (row_start dir wide_rows) (plane_indices dir e).recv
          (row_cells e dir wide_rows) (λ r. buf (offset + r)) f a b)
  unpack_entry_lem e dir wide_rows offset buf (deep f) a b c h =
      let closed =
        unpack_rows (along_x dir) (row_start dir wide_rows) (plane_indices dir e).recv
          (row_cells e dir wide_rows) e.nz (λ r k. buf (offset + r * e.nz + k)) f a b c in
      closed ∙ rw (lt→ltb c e.nz h, and_true) refl

  unpack_levels_same :
      (e : Extents) (dir : Direction) (wide_rows : Bool) (offset : ℕ) (buf : ℕ → W) (f : Field W)
      → levels e (unpack_entry e dir wide_rows offset buf f) ≡ levels e f
  unfolding unpack_entry
  unpack_levels_same e dir wide_rows offset buf (flat f) = refl
  unpack_levels_same e dir wide_rows offset buf (deep f) = refl

  pub plane_count-levels :
      (e : Extents) (dir : Direction) (wide_rows : Bool) (f : Field W)
      → plane_count e f dir wide_rows ≡ row_cells e dir wide_rows * levels e f
  unfolding plane_count
  plane_count-levels e dir wide_rows (flat f) = omega arith
  plane_count-levels e dir wide_rows (deep f) = refl

  -- The message holds the values `v` of the selected fields, one field after the other, where a field
  -- takes `rows` rows of `depth idx` levels.
  abbrev pub Holds : (rows : ℕ) (depth : ℕ → ℕ) (v : ℕ → ℕ → ℕ → W) → List ℕ → ℕ → (ℕ → W) → Type 0
  Holds rows depth v [] offset buf = Unit {0}
  Holds rows depth v (idx ∷ selected) offset buf =
      ((r k : ℕ) → r < rows → k < depth idx → buf (offset + r * depth idx + k) ≡ v idx r k)
      × Holds rows depth v selected (offset + rows * depth idx) buf

  pack_all_before :
      (e : Extents) (dir : Direction) (wide_rows : Bool) (store : Store W) (selected : List ℕ)
      (offset : ℕ) (buf : ℕ → W) (n : ℕ)
      → n < offset
      → pack_all e dir wide_rows store selected offset buf n ≡ buf n
  unfolding pack_all
  pack_all_before e dir wide_rows store [] offset buf n h = refl
  pack_all_before e dir wide_rows store (idx ∷ selected) offset buf n h =
      pack_all_before e dir wide_rows store selected _ _ n (omega arith)
      ∙ (pack_entry_lem e dir wide_rows (store idx) offset buf).1 n (inl h)

  pub pack_all-Holds :
      (e : Extents) (dir : Direction) (wide_rows : Bool) (store : Store W) (selected : List ℕ)
      (offset : ℕ) (buf : ℕ → W)
      → Holds
          (row_cells e dir wide_rows)
          (λ i. levels e (store i))
          (λ i. plane_value dir wide_rows (plane_indices dir e).send (store i))
          selected
          offset
          (pack_all e dir wide_rows store selected offset buf)
  unfolding pack_all
  pack_all-Holds e dir wide_rows store [] offset buf = tt
  pack_all-Holds e dir wide_rows store (idx ∷ selected) offset buf = (
    λ r k hr hk.
        pack_all_before e dir wide_rows store selected _ _ _
          (let size = plane_count-levels e dir wide_rows (store idx) in grind arith)
        ∙ (pack_entry_lem e dir wide_rows (store idx) offset buf).0 r k hr hk,
    rw (← plane_count-levels e dir wide_rows (store idx))
        (pack_all-Holds e dir wide_rows store selected _ _),
  )

  -- One entry of the message, unpacked into the store.
  unpack_one :
      (e : Extents) (dir : Direction) (wide_rows : Bool) (depth : ℕ → ℕ) (v : ℕ → ℕ → ℕ → W)
      (i offset : ℕ) (buf : ℕ → W) (store : Store W)
      → ((n : ℕ) → levels e (store n) ≡ depth n)
      → ((r k : ℕ)
          → r < row_cells e dir wide_rows
          → k < depth i
          → buf (offset + r * depth i + k) ≡ v i r k)
      → let out = put i (unpack_entry e dir wide_rows offset buf (store i)) store in
        ((idx a b c : ℕ)
          → c < depth idx
          → value (out idx) a b c ≡ (
              if idx == i && in_zone e dir wide_rows a b
              then v idx (along (along_x dir) a b - row_start dir wide_rows) c
              else value (store idx) a b c))
        × ((n : ℕ) → levels e (out n) ≡ depth n)
  unpack_one e dir wide_rows depth v i offset buf store same here = (
    λ idx a b c h. elim (Bool-cases (idx == i)) [
      | inl hit ↦ let at : idx ≡ i = ground arith in rw (hit, at) (entry a b c (rw at at h))
      | inr miss ↦ rw miss refl
    ],
    λ n. elim (Bool-cases (n == i)) [
      | inl hit ↦ let at : n ≡ i = ground arith in rw (hit, at) ((unpack_entry_levels) ∙ same i)
      | inr miss ↦ rw miss (same n)
    ],
  )
    where
      unpack_entry_levels :
          levels e (unpack_entry e dir wide_rows offset buf (store i)) ≡ levels e (store i)
      unpack_entry_levels = unpack_levels_same e dir wide_rows offset buf (store i)

      entry :
          (a b c : ℕ)
          → c < depth i
          → value (unpack_entry e dir wide_rows offset buf (store i)) a b c ≡ (
              if in_zone e dir wide_rows a b
              then v i (along (along_x dir) a b - row_start dir wide_rows) c
              else value (store i) a b c)
      entry a b c h =
          unpack_entry_lem e dir wide_rows offset buf (store i) a b c (rw same h)
          ∙ elim (Bool-cases (in_zone e dir wide_rows a b)) [
            | inl inside ↦ rw (inside, same i) (here _ c (in_zone_row _ _ _ _ inside) h)
            | inr outside ↦ rw outside refl
          ]

  choose :
      (p q z : Bool) (x y : W)
      → (if q && z then x else if p && z then x else y) ≡ (if (p || q) && z then x else y)
  choose p q z x y = ground arith

  -- A receiver that unpacks such a message has, in the zone of the direction, the sender's values of
  -- the selected fields, and all else as before.
  pub unpack_all_lem :
      (e : Extents) (dir : Direction) (wide_rows : Bool) (depth : ℕ → ℕ) (v : ℕ → ℕ → ℕ → W)
      (selected : List ℕ) (offset : ℕ) (buf : ℕ → W) (store : Store W)
      → ((i : ℕ) → levels e (store i) ≡ depth i)
      → Holds (row_cells e dir wide_rows) depth v selected offset buf
      → let out = unpack_all e dir wide_rows selected offset buf store in
        ((idx a b c : ℕ)
          → c < depth idx
          → value (out idx) a b c ≡ (
              if mem idx selected && in_zone e dir wide_rows a b
              then v idx (along (along_x dir) a b - row_start dir wide_rows) c
              else value (store idx) a b c))
        × ((i : ℕ) → levels e (out i) ≡ depth i)
  unfolding unpack_all
  unpack_all_lem e dir wide_rows depth v [] offset buf store same held =
      ((λ idx a b c h. refl), same)
  unpack_all_lem e dir wide_rows depth v (i ∷ selected) offset buf store same (here, held) =
      let (one, same') = unpack_one e dir wide_rows depth v i offset buf store same here in
      let size : plane_count e (store i) dir wide_rows ≡ row_cells e dir wide_rows * depth i =
        plane_count-levels e dir wide_rows (store i)
        ∙ ap (λ (t : ℕ). row_cells e dir wide_rows * t) (same i) in
      let (rest, same'') =
        unpack_all_lem e dir wide_rows depth v selected
          (offset + plane_count e (store i) dir wide_rows) buf
          (put i (unpack_entry e dir wide_rows offset buf (store i)) store) same' (rw size held) in
      (
        λ idx a b c h.
            rest idx a b c h
            ∙ rw (one idx a b c h)
                (choose (idx == i) (mem idx selected) (in_zone e dir wide_rows a b) _ _),
        same'',
      )
