-- ===== src/Groundwater/Reallocation/Walks/Ledger.antt =====
-- The sends of a whole column: every volume that is sent is taken by a cell, vented or lost.
use frehg.Prelude.{ℕ, if◌then◌else◌, ◌≡◌, ◌⊎◌, true, false, Double}
use frehg.Groundwater.Reallocation.{Column, Setting, nought}
use frehg.Groundwater.Reallocation.Walks.{total, Taken}

module _ {R : Type 0} (double : Double R) (s : Setting R)
    (assoc : (a b c : R) → double.add (double.add a b) c ≡ double.add a (double.add b c))
    (comm : (a b : R) → double.add a b ≡ double.add b a)
    (unit : (a : R) → double.add a (double.of_int 0) ≡ a)
    (sub_add : (a b : R) → double.add (double.sub a b) b ≡ a) where
  abbrev sum : ℕ → (ℕ → R) → R
  sum n f = total double s assoc comm unit sub_add n f

  infixl 6 ◌⊞◌
  abbrev ◌⊞◌ : R → R → R
  a ⊞ b = double.add a b

  -- The volume `d` is what the cells have taken, what is vented and what is lost.
  abbrev pub Ledger : Column R → R → Column R → Type 0
  Ledger c d c' =
      (taken vented lost : R) × (sum s.nz c'.room ⊞ taken ≡ sum s.nz c.room)
      × (c'.vent ≡ c.vent ⊞ vented)
      × (c'.lost ⊞ lost ≡ c.lost)
      × (d ≡ taken ⊞ (vented ⊞ lost))

  abbrev TakenBy : Column R → R → Column R → R → Type 0
  TakenBy c v c' v' = Taken double s assoc comm unit sub_add c v c' v'

  module _ (self : (a : R) → double.sub a a ≡ nought double s)
      (gap : (a b : R)
        → double.lt a b ≡ false
        → (double.lt (nought double s) (double.sub a b) ≡ true)
          ⊎ (double.sub a b ≡ nought double s)) where
    -- A rest is positive, or it is 0.
    abbrev IsRest : R → Type 0
    IsRest v = (double.lt (nought double s) v ≡ true) ⊎ (v ≡ nought double s)

    module _ (closed : (s.coupled ≡ true) ⊎ (s.top_is_head ≡ false)) where
      -- The part of a send that is positive.
      abbrev pub positive : R → R
      positive v = if double.lt (nought double s) v then v else nought double s

      -- What an active cell sends.
      abbrev pub sent : ℕ → R
      sent k =
          if s.active k then positive (s.send_up k) ⊞ positive (s.send_down k) else nought double s
