-- ===== src/Groundwater/Reallocation/Walks/Rooms.antt =====
-- The sends of a column fill no cell beyond its room.
use frehg.Prelude.{
  ℕ, zero, suc, ◌+◌, ◌-◌, ◌==◌, if◌then◌else◌, for_range_all, ◌≡◌, inl, inr, Bool, true, false,
  ◌&&◌, ◌||◌, Bool-cases, Double,
}
use frehg.Groundwater.Reallocation.{
  Column, Setting, put, nought, take, deposit_up, deposit_down, walk_up, walk_down, leave_top,
  send_cell_up, send_cell_down, send_cell, send_column,
}

one_of_three :
    {A : Type 0} (P : A → Type 0) (x y z : A) (a b : Bool)
    → P x
    → P y
    → P z
    → P (if a then x else (if b then y else z))
one_of_three P x y z true b p q r = p
one_of_three P x y z false true p q r = q
one_of_three P x y z false false p q r = r

one_of_two : {A : Type 0} (P : A → Type 0) (x y : A) (a : Bool) → P x → P y → P (if a then x else y)
one_of_two P x y true p q = p
one_of_two P x y false p q = q

module _ {R : Type 0} (double : Double R) (s : Setting R)
    (self : (a : R) → double.le (double.of_int 0) (double.sub a a) ≡ true)
    (gap : (a b : R)
      → double.lt b a ≡ true
      → double.le (double.of_int 0) (double.sub a b) ≡ true) where
  abbrev pub HasRooms : Column R → Type 0
  HasRooms c = (l : ℕ) → double.le (double.of_int 0) (c.room l) ≡ true

  left_over :
      (room v : R) → double.le (double.of_int 0) (double.sub room (take double s room v)) ≡ true
  left_over room v = elim (Bool-cases (double.lt v room)) [
    | inl e ↦ rw (e, take) (gap room v e)
    | inr e ↦ rw (e, take) (self room)
  ]

  put_keeps :
      (room : ℕ → R) (l : ℕ) (v : R)
      → ((i : ℕ) → double.le (double.of_int 0) (room i) ≡ true)
      → double.le (double.of_int 0) v ≡ true
      → (i : ℕ) → double.le (double.of_int 0) (put room l v i) ≡ true
  put_keeps room l v h p i =
      one_of_two (λ x. double.le (double.of_int 0) x ≡ true) v (room i) (i == l) p (h i)

  deposit_up_keeps :
      (k l : ℕ) (c : Column R) (v : R) → HasRooms c → HasRooms (deposit_up double s k l c v).0
  deposit_up_keeps k l c v h = elim (Bool-cases (double.lt (nought double s) (c.room l))) [
    | inl e ↦ rw e (put_keeps c.room l _ h (left_over (c.room l) v))
    | inr e ↦ rw e h
  ]

  deposit_down_keeps :
      (k l : ℕ) (c : Column R) (v : R) → HasRooms c → HasRooms (deposit_down double s k l c v).0
  deposit_down_keeps k l c v h = elim (Bool-cases (double.lt (nought double s) (c.room l))) [
    | inl e ↦ rw e (put_keeps c.room l _ h (left_over (c.room l) v))
    | inr e ↦ rw e h
  ]

  walk_up_keeps :
      (k l : ℕ) (c : Column R) (v : R) → HasRooms c → HasRooms (walk_up double s k l c v).0
  unfolding walk_up
  walk_up_keeps k zero c v h = h
  walk_up_keeps k (suc l) c v h = elim (Bool-cases (s.active l && double.lt (nought double s) v)) [
    | inl e ↦
        let next = deposit_up double s k l c v in
        rw e (walk_up_keeps k l next.0 next.1 (deposit_up_keeps k l c v h))
    | inr e ↦ rw e h
  ]

  walk_down_keeps :
      (k n l : ℕ) (c : Column R) (v : R) → HasRooms c → HasRooms (walk_down double s k n l c v).0
  unfolding walk_down
  walk_down_keeps k zero l c v h = h
  walk_down_keeps k (suc n) l c v h = elim (Bool-cases (double.lt (nought double s) v)) [
    | inl e ↦
        let next = deposit_down double s k l c v in
        rw e (walk_down_keeps k n (l + 1) next.0 next.1 (deposit_down_keeps k l c v h))
    | inr e ↦ rw e h
  ]

  leave_top_keeps :
      (k l : ℕ) (v : R) (c : Column R) → HasRooms c → HasRooms (leave_top double s k l v c)
  leave_top_keeps k l v c h =
      one_of_three HasRooms _ _ _ s.coupled s.top_is_head
        (one_of_two HasRooms _ _
          (double.lt (nought double s) c.dept || double.lt s.min_depth (double.div v s.az)) h h)
        h (walk_down_keeps k (s.nz - (l + 1)) (l + 1) c v h)

  send_cell_up_keeps : (k : ℕ) (c : Column R) → HasRooms c → HasRooms (send_cell_up double s k c)
  send_cell_up_keeps k c h =
      let walked = walk_up double s k k c (s.send_up k) in
      let filled = walk_up_keeps k k c (s.send_up k) h in
      one_of_two HasRooms _ _ (double.lt (nought double s) (s.send_up k))
        (one_of_two HasRooms _ _ (double.lt (nought double s) walked.1)
          (leave_top_keeps k walked.2 walked.1 walked.0 filled) filled)
        h

  send_cell_down_keeps :
      (k : ℕ) (c : Column R) → HasRooms c → HasRooms (send_cell_down double s k c)
  send_cell_down_keeps k c h =
      one_of_two HasRooms _ _ (double.lt (nought double s) (s.send_down k))
        (walk_down_keeps k (s.nz - (k + 1)) (k + 1) c (s.send_down k) h) h

  -- Provided that a - a is not negative, and neither is a - b for b < a: if no cell of the column has a
  -- negative room before the sends, then none has one after them.
  pub send_column-HasRooms : (c : Column R) → HasRooms c → HasRooms (send_column double s c)
  unfolding send_column
  send_column-HasRooms c h =
      for_range_all (λ k c'. HasRooms c') (send_cell double s) s.nz
        (λ k c' less keep.
          one_of_two HasRooms _ _ (s.active k)
            (send_cell_down_keeps k (send_cell_up double s k c') (send_cell_up_keeps k c' keep))
            keep)
        c h
