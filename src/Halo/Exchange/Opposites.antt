-- ===== src/Halo/Exchange/Opposites.antt =====
-- The directions of an exchange of core/HaloExchanger.cpp and their tags, with what neighbours on a
-- mesh agree about.
use Prim.Native.Nat.{bit_xor}
use frehg.Prelude.{
  ℕ, ◌+◌, ◌<◌, ◌≡◌, refl, Bool, true, false, ◌||◌, ◌==◌, arith, some, List, [], ◌∷◌,
}
use frehg.Halo.Messages.{Direction, row_cells}
use frehg.Halo.Exchange.{Mesh, number}

abbrev pub opposite : Direction → Direction
opposite Direction.west = Direction.east
opposite Direction.east = Direction.west
opposite Direction.south = Direction.north
opposite Direction.north = Direction.south

-- The ranks agree about who is whose neighbour, and neighbours about the cells they share.
pub record IsMesh (mesh : Mesh) : Type 0 where
  pub inside :
      (r q : ℕ) (d : Direction) → r < mesh.ranks → mesh.neighbour r d ≡ some q → q < mesh.ranks
  pub mirrored :
      (r q : ℕ) (d : Direction)
      → r < mesh.ranks
      → mesh.neighbour r d ≡ some q
      → mesh.neighbour q (opposite d) ≡ some r
  pub same_rows :
      (r q : ℕ) (d : Direction) (wide_rows : Bool)
      → r < mesh.ranks
      → mesh.neighbour r d ≡ some q
      → row_cells (mesh.extents q) (opposite d) wide_rows ≡ row_cells (mesh.extents r) d wide_rows

abbrev pub is_opposite : Direction → Direction → Bool
is_opposite Direction.west Direction.east = true
is_opposite Direction.east Direction.west = true
is_opposite Direction.south Direction.north = true
is_opposite Direction.north Direction.south = true
is_opposite _ _ = false

pub tags_pair :
    (d dir : Direction) → (200 + bit_xor (number d) 1 == 200 + number dir) ≡ is_opposite d dir
tags_pair Direction.west Direction.west = refl
tags_pair Direction.west Direction.east = refl
tags_pair Direction.west _ = refl
tags_pair Direction.east Direction.west = refl
tags_pair Direction.east _ = refl
tags_pair Direction.south Direction.north = refl
tags_pair Direction.south _ = refl
tags_pair Direction.north Direction.south = refl
tags_pair Direction.north _ = refl

pub is_opposite-eq : (d dir : Direction) → is_opposite d dir ≡ true → d ≡ opposite dir
is_opposite-eq d dir h = ground arith

opposite_refl : (dir : Direction) → is_opposite (opposite dir) dir ≡ true
opposite_refl dir = ground arith

-- The directions of an exchange.
abbrev pub has : List Direction → Direction → Bool
has [] dir = false
has (d ∷ ds) dir = number d == number dir || has ds dir

pub opposite-number : (d dir : Direction) → is_opposite d dir ≡ (number d == number (opposite dir))
opposite-number d dir = ground arith
