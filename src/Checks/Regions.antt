-- ===== src/Checks/Regions.antt =====
-- The cells of a condition on a domain of two cells: the centres lie at (5, 5) and (6, 5).
use mathlib.Core.Int.{ℤ}
use mathlib.Core.List.{Memᴰ}
use frehg.Prelude.{◌≡◌, refl, ◌↔◌, [], ◌∷◌, ok}
use frehg.Grid.Layout.{place}
use frehg.Grid.Blocks.{block_size, block_start}
use frehg.Config.Load.Outputs.{BcTarget, BcKind}
use frehg.Boundary.Kinds.{BcFace, BcCell}
use frehg.Boundary.Polygon.{
  Polygon, make_polygon, widen, contains, on_some_edge, count_crossings, on_segment, crosses,
}
use frehg.Boundary.Conditions.{RegionMesh, member_cells}
use frehg.Boundary.Conditions.Members.{IsMember, member_cells_lem}
use frehg.Checks.Integers.{integer, integers}

abbrev mesh : RegionMesh ℤ
mesh = record { layout = place 2 1 1 1 0; nx = 2; ny = 1; dx = integer 1; dy = integer 1 }

abbrev square : Polygon ℤ
square = record {
  vertices =
      (integer 0, integer 0)
      ∷ (integer 9, integer 0)
      ∷ (integer 9, integer 9)
      ∷ (integer 0, integer 9)
      ∷ [];
  west = integer 0;
  south = integer 0;
  east = integer 9;
  north = integer 9;
}

makes : make_polygon square.vertices ≡ ok square
unfolding make_polygon widen
makes = refl

abbrev eastern : BcCell
eastern = record { j = 1; i = 2; face = BcFace.x_plus }

-- An outflow condition of the whole domain acts on the eastern face of the eastern cell.
member_cells_lem_example :
    Memᴰ eastern (member_cells mesh BcTarget.surface_target BcKind.outflow square)
    ↔ IsMember mesh BcTarget.surface_target BcKind.outflow square eastern
member_cells_lem_example =
    member_cells_lem mesh BcTarget.surface_target BcKind.outflow square eastern

is_member : IsMember mesh BcTarget.surface_target BcKind.outflow square eastern
unfolding contains on_some_edge count_crossings on_segment crosses place block_size block_start
is_member = (refl, refl, refl)
