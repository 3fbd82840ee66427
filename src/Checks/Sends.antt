-- ===== src/Checks/Sends.antt =====
-- src/gw/Reallocate.cpp on integers.
use frehg.Prelude.{
  inr, not, Bool-cases, ℕ, if◌then◌else◌, ◌==◌, ◌≡◌, refl, ◌∙◌, for_range, inl, ℤ, pos, negsuc,
  lt_ℤ, true, false, arith,
}
use frehg.Groundwater.Reallocation.{Column, Setting, walk_up, walk_down, send_column}
use frehg.Groundwater.Reallocation.Walks.Rooms.{HasRooms, send_column-HasRooms}
use frehg.Groundwater.Reallocation.Walks.Ledger.{Ledger}
use frehg.Checks.Numbers.{signed, ◌+ℤ◌, negated}

comm : (a b : ℤ) → a +ℤ b ≡ b +ℤ a
comm (pos a) (pos b) = ground arith
comm (pos a) (negsuc b) = ground arith
comm (negsuc a) (pos b) = ground arith
comm (negsuc a) (negsuc b) = ground arith

negated_add : (a : ℤ) → negated a +ℤ a ≡ pos 0
negated_add (pos a) = ground arith
negated_add (negsuc a) = ground arith

self : (a : ℤ) → a +ℤ negated a ≡ pos 0
self a = comm a (negated a) ∙ negated_add a

abbrev only_at : ℕ → ℕ → ℕ → ℤ
only_at i v k = if k == i then pos v else pos 0

-- A coupled column of three cells: the lowest one sends 9 up, the middle one 2 down.
abbrev setting : Setting ℤ
setting = record {
  nz = 3;
  active = λ k. true;
  send_up = only_at 2 9;
  send_down = only_at 1 2;
  dz = λ k. pos 1;
  az = pos 1;
  dtg = pos 1;
  min_depth = pos 1;
  coupled = true;
  top_is_head = false;
  record_path = true;
}

abbrev column : Column ℤ
column = record {
  room = only_at 0 4;
  wc = λ k. pos 0;
  qz = λ k. pos 0;
  path = λ k. pos 0;
  eta = pos 0;
  dept = pos 0;
  avail = pos 0;
  gain = pos 0;
  vent_window = pos 0;
  lost = pos 0;
  vent = pos 0;
}

-- The top cell takes 4, 5 are vented, and 2 are lost at the bottom.
sends : (send_column signed setting column).vent ≡ pos 5
unfolding send_column walk_up walk_down for_range
sends = refl

not_negative : (a : ℤ) → not (lt_ℤ (a +ℤ negated a) (pos 0)) ≡ true
not_negative a = rw (self a) refl

gap_not_negative : (a b : ℤ) → lt_ℤ b a ≡ true → not (lt_ℤ (a +ℤ negated b) (pos 0)) ≡ true
gap_not_negative (pos a) (pos b) h = ground arith
gap_not_negative (pos a) (negsuc b) h = ground arith
gap_not_negative (negsuc a) (pos b) h = absurd (ground arith)
gap_not_negative (negsuc a) (negsuc b) h = ground arith

column-HasRooms : HasRooms signed setting not_negative gap_not_negative column
column-HasRooms l = elim (Bool-cases (l == 0)) [ inl e ↦ rw e refl | inr e ↦ rw e refl ]

send_column-HasRooms_example :
    not (lt_ℤ ((send_column signed setting column).room 0) (pos 0)) ≡ true
send_column-HasRooms_example =
    send_column-HasRooms signed setting not_negative gap_not_negative column column-HasRooms 0
