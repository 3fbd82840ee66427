-- ===== src/Checks/Exchanges.antt =====
-- core/HaloExchanger.cpp at concrete grids.
use frehg.Prelude.{ℕ, ◌+◌, ◌-◌, ◌*◌, ◌≤◌, ◌<◌, ◌≡◌, refl, arith, some, [], ◌∷◌, true, false}
use frehg.Grid.Layout.{place}
use frehg.Halo.Messages.{Direction, flat}
use frehg.Halo.Exchange.{Store, exchange_selected, all_directions}
use frehg.Halo.Exchange.Opposites.{opposite, has}
use frehg.Halo.Exchange.Delivery.{Refreshed, exchange_selected_lem}
use frehg.Halo.Exchange.Buffers.{levels}
use frehg.Halo.Placement.{mesh_of, mesh_of-IsMesh}
use frehg.Halo.Corners.{exchange_with_corners}
use frehg.Halo.Corners.Consistency.{Whole, exchange_with_corners-Whole}

-- A global field, and the same in the local fields of the ranks, wrong outside the owned cells.
abbrev tide : ℕ → ℕ → ℕ → ℕ → ℕ
tide idx j i c = j * 10 + i

abbrev local_tide : ℕ → Store ℕ
local_tide r idx =
    flat (λ a b. tide idx ((place 5 4 2 2 r).j0 + (a - 1)) ((place 5 4 2 2 r).i0 + (b - 1)) 0)

abbrev blank : ℕ → Direction → ℕ → ℕ
blank r dir n = 0

two_pos : 0 < 2
two_pos = omega arith

two_fit : (2 ≤ 5) × (2 ≤ 4)
two_fit = omega arith

exchange_with_corners-Whole_example :
    (out : Store ℕ) × (exchange_with_corners (mesh_of 5 4 3 2 2) (0 ∷ []) blank blank local_tide 3
      ≡ some out)
    × Whole 5 4 3 2 2 two_pos two_pos two_fit.0 two_fit.1 tide
        (0 ∷ [])
        blank
        local_tide
        (λ i. 1)
        (λ r i h. refl)
        3
        0
        out
exchange_with_corners-Whole_example =
    exchange_with_corners-Whole 5 4 3 2 2 two_pos two_pos two_fit.0 two_fit.1 tide (0 ∷ []) blank
      local_tide (λ i. 1) (λ r i h. refl) blank 0 refl (λ q h a b c ha hb hc. omega arith) 3
      (omega arith)

all_paired :
    (dir : Direction) → has all_directions dir ≡ true → has all_directions (opposite dir) ≡ true
all_paired Direction.west e = refl
all_paired _ e = refl

exchange_selected_lem_example :
    (out : Store ℕ) × (exchange_selected
        (mesh_of 5 4 3 2 2)
        false
        (0 ∷ [])
        blank
        local_tide
        all_directions
        3
      ≡ some out)
    × Refreshed
        (mesh_of 5 4 3 2 2)
        (mesh_of-IsMesh 5 4 3 2 2 two_pos two_pos)
        false
        (0 ∷ [])
        blank
        local_tide
        (λ i. 1)
        (λ r i h. refl)
        all_directions
        3
        (local_tide 3)
        out
    × ((i : ℕ) → levels ((mesh_of 5 4 3 2 2).extents 3) (out i) ≡ 1)
exchange_selected_lem_example =
    exchange_selected_lem (mesh_of 5 4 3 2 2) (mesh_of-IsMesh 5 4 3 2 2 two_pos two_pos) false
      (0 ∷ []) blank local_tide (λ i. 1) (λ r i h. refl) all_directions 3 (omega arith) all_paired
