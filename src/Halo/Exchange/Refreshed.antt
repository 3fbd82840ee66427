-- ===== src/Halo/Exchange/Refreshed.antt =====
-- What the fields of a rank hold after the messages of some directions (core/HaloExchanger.cpp).
use frehg.Prelude.{
  ℕ, ◌-◌, ◌≡◌, refl, Bool, true, false, ◌&&◌, if◌then◌else◌, arith, Option, none, some, List, [],
  ◌∷◌, ◌∙◌,
}
use frehg.Halo.Messages.{Direction, plane_indices, along_x, row_start}
use frehg.Halo.Kernels.{along}
use frehg.Halo.Exchange.{Store, Mesh}
use frehg.Halo.Exchange.Buffers.{in_zone, mem, plane_value}
use frehg.Halo.Exchange.Opposites.{opposite}

and_false_right : (p : Bool) → (p && false) ≡ false
and_false_right p = ground arith

-- What a cell holds after the message of a direction, if there is a neighbour and the cell is filled.
abbrev pub arrive : {W : Type 0} → Option ℕ → Bool → (ℕ → W) → W → W
arrive none z g w = w
arrive (some q) z g w = if z then g q else w

arrive_not :
    {W : Type 0} (o : Option ℕ) (z : Bool) (g : ℕ → W) (w : W) → z ≡ false → arrive o z g w ≡ w
arrive_not none z g w h = refl
arrive_not (some q) z g w h = rw h refl

arrive_from :
    {W : Type 0} (o : Option ℕ) (q : ℕ) (z : Bool) (g : ℕ → W) (w : W)
    → o ≡ some q
    → z ≡ true
    → arrive o z g w ≡ g q
arrive_from o q z g w e h = rw (e, h) refl

module _ {W : Type 0} (mesh : Mesh) (wide_rows : Bool) (selected : List ℕ)
    (world : ℕ → Store W) where
  -- The neighbour's value at the cell that a cell of the zone mirrors.
  abbrev pub mirrored_value : ℕ → Direction → ℕ → ℕ → ℕ → ℕ → W
  mirrored_value q dir idx a b c =
      plane_value (opposite dir) wide_rows (plane_indices (opposite dir) (mesh.extents q)).send
        (world q idx) (along (along_x dir) a b - row_start dir wide_rows) c

  -- What a rank's field holds when the messages of some directions have been unpacked onto `w`.
  abbrev pub refreshed : List Direction → ℕ → ℕ → ℕ → ℕ → ℕ → W → W
  refreshed [] r idx a b c w = w
  refreshed (dir ∷ rest) r idx a b c w = refreshed rest r idx a b c (
      arrive (mesh.neighbour r dir) (mem idx selected && in_zone (mesh.extents r) dir wide_rows a b)
        (λ q. mirrored_value q dir idx a b c) w)

  abbrev step : ℕ → Direction → ℕ → ℕ → ℕ → ℕ → W → W
  step r dir idx a b c w = refreshed (dir ∷ []) r idx a b c w

  skip :
      (r : ℕ) (dir : Direction) (idx a b c : ℕ) (w : W)
      → in_zone (mesh.extents r) dir wide_rows a b ≡ false
      → step r dir idx a b c w ≡ w
  skip r dir idx a b c w h =
      arrive_not (mesh.neighbour r dir)
        (mem idx selected && in_zone (mesh.extents r) dir wide_rows a b)
        (λ p. mirrored_value p dir idx a b c) w (rw h (and_false_right (mem idx selected)))

  take :
      (r q : ℕ) (dir : Direction) (idx a b c : ℕ) (w : W)
      → mem idx selected ≡ true
      → mesh.neighbour r dir ≡ some q
      → in_zone (mesh.extents r) dir wide_rows a b ≡ true
      → step r dir idx a b c w ≡ mirrored_value q dir idx a b c
  take r q dir idx a b c w m e h =
      arrive_from (mesh.neighbour r dir) q
        (mem idx selected && in_zone (mesh.extents r) dir wide_rows a b)
        (λ p. mirrored_value p dir idx a b c) w e (rw (m, h) refl)

  -- A cell in the zone of neither of two directions, of the first only, and of the second.
  pub refreshed_neither :
      (r : ℕ) (d e : Direction) (idx a b c : ℕ) (w : W)
      → in_zone (mesh.extents r) d wide_rows a b ≡ false
      → in_zone (mesh.extents r) e wide_rows a b ≡ false
      → refreshed (d ∷ e ∷ []) r idx a b c w ≡ w
  refreshed_neither r d e idx a b c w h k =
      skip r e idx a b c (step r d idx a b c w) k ∙ skip r d idx a b c w h

  pub refreshed_first :
      (r q : ℕ) (d e : Direction) (idx a b c : ℕ) (w : W)
      → mem idx selected ≡ true
      → mesh.neighbour r d ≡ some q
      → in_zone (mesh.extents r) d wide_rows a b ≡ true
      → in_zone (mesh.extents r) e wide_rows a b ≡ false
      → refreshed (d ∷ e ∷ []) r idx a b c w ≡ mirrored_value q d idx a b c
  refreshed_first r q d e idx a b c w m n h k =
      skip r e idx a b c (step r d idx a b c w) k ∙ take r q d idx a b c w m n h

  pub refreshed_second :
      (r q : ℕ) (d e : Direction) (idx a b c : ℕ) (w : W)
      → mem idx selected ≡ true
      → mesh.neighbour r e ≡ some q
      → in_zone (mesh.extents r) e wide_rows a b ≡ true
      → refreshed (d ∷ e ∷ []) r idx a b c w ≡ mirrored_value q e idx a b c
  refreshed_second r q d e idx a b c w m n h = take r q e idx a b c (step r d idx a b c w) m n h
