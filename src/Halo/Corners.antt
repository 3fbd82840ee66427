-- ===== src/Halo/Corners.antt =====
-- `exchangeAll`, `exchange` and `exchangeWithCorners` of core/HaloExchanger.cpp, once the names are
-- resolved to entries. As in the code, a 3D field is exchanged with corners like a 2D one.
pub mod Consistency
use frehg.Prelude.{ℕ, Bool, true, false, Option, none, some, List}
use frehg.Halo.Messages.{Direction}
use frehg.Halo.Exchange.{Store, Mesh, all_directions, x_directions, y_directions, exchange_selected}

abbrev pub or_keep : {W : Type 0} → Option (Store W) → Store W → Store W
or_keep none s = s
or_keep (some out) s = out

module _ {W : Type 0} (mesh : Mesh) (selected : List ℕ) (old : ℕ → Direction → ℕ → W) where
  unfoldable pub exchange : (ℕ → Store W) → ℕ → Option (Store W)
  exchange world r = exchange_selected mesh false selected old world all_directions r

  -- Phase 1, the i-halo columns.
  unfoldable pub columns : (ℕ → Store W) → ℕ → Option (Store W)
  columns world r = exchange_selected mesh false selected old world x_directions r

  -- What the ranks hold after phase 1; `old'` is what the buffers hold then.
  abbrev pub settled : (ℕ → Store W) → ℕ → Store W
  settled world r = or_keep (columns world r) (world r)

  -- Phase 2, the full-width rows, on what phase 1 left.
  unfoldable pub exchange_with_corners :
      (old' : ℕ → Direction → ℕ → W) → (ℕ → Store W) → ℕ → Option (Store W)
  unfolding columns
  exchange_with_corners old' world r = elim (columns world r) [
    | none ↦ none
    | some out ↦ exchange_selected mesh true selected old' (settled world) y_directions r
  ]
