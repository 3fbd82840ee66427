-- ===== src/Groundwater/Reallocation/Walks.antt =====
-- The water that the sends of a column move: what the cells take, what is vented and what is lost.
pub mod Ledger
pub mod Rooms
use frehg.Prelude.{
  ℕ, zero, suc, ◌+◌, ◌-◌, ◌≤◌, ◌<◌, ◌==◌, if◌then◌else◌, ◌≡◌, refl, sym, ap, ◌∙◌, inl, inr, Bool,
  true, false, ◌&&◌, Bool-cases, Double, arith,
}
use frehg.Groundwater.Reallocation.{
  Column, Setting, put, nought, take, deposit_up, deposit_down, walk_up, walk_down,
}

put_other : {R : Type 0} (f : ℕ → R) (n l : ℕ) (v : R) → n == l ≡ false → put f l v n ≡ f n
put_other f n l v e = rw e refl

put_same : {R : Type 0} (f : ℕ → R) (n l : ℕ) (v : R) → n == l ≡ true → put f l v n ≡ v
put_same f n l v e = rw e refl

module _ {R : Type 0} (double : Double R) (s : Setting R)
    (assoc : (a b c : R) → double.add (double.add a b) c ≡ double.add a (double.add b c))
    (comm : (a b : R) → double.add a b ≡ double.add b a)
    (unit : (a : R) → double.add a (double.of_int 0) ≡ a)
    (sub_add : (a b : R) → double.add (double.sub a b) b ≡ a) where
  abbrev pub total : ℕ → (ℕ → R) → R
  total zero f = double.of_int 0
  total (suc n) f = double.add (total n f) (f n)

  pub add_eq : (a a' b b' : R) → a ≡ a' → b ≡ b' → double.add a b ≡ double.add a' b'
  add_eq a a' b b' e1 e2 = rw (e1, e2) refl

  total_beyond : (n l : ℕ) (f : ℕ → R) (v : R) → n ≤ l → total n (put f l v) ≡ total n f
  total_beyond zero l f v h = refl
  total_beyond (suc n) l f v h =
      let other : n == l ≡ false = ground arith in
      add_eq _ _ _ _ (total_beyond n l f v (omega arith)) (put_other f n l v other)

  -- A part that one cell gives up is missing in the total.
  pub total-put :
      (n l : ℕ) (f : ℕ → R) (t : R)
      → l < n
      → double.add (total n (put f l (double.sub (f l) t))) t ≡ total n f
  total-put zero l f t h = absurd (omega arith)
  total-put (suc n) l f t h = elim (Bool-cases (n == l)) [
    | inl e ↦
        let same : l ≡ n = ground arith in
        add_eq _ _ _ _
          (add_eq _ _ _ _ (total_beyond n l f (double.sub (f l) t) (omega arith))
            (put_same f n l _ e))
          refl
        ∙ assoc (total n f) (double.sub (f l) t) t
        ∙ add_eq _ _ _ _ refl (sub_add (f l) t ∙ ap f same)
    | inr e ↦
        assoc _ _ _
        ∙ add_eq _ _ _ _ refl (comm _ t)
        ∙ sym (assoc _ t _)
        ∙ add_eq _ _ _ _ (total-put n l f t (ground arith)) (put_other f n l _ e)
  ]

  -- A step of a walk: the cells have taken what the volume has lost, and nothing else has changed.
  abbrev pub Taken : Column R → R → Column R → R → Type 0
  Taken c v c' v' =
      (t : R) × (double.add (total s.nz c'.room) t ≡ total s.nz c.room)
      × (double.add v' t ≡ v)
      × (c'.vent ≡ c.vent)
      × (c'.lost ≡ c.lost)

  nothing_moved : (c : Column R) (v : R) → Taken c v c v
  nothing_moved c v = (double.of_int 0, unit _, unit _, refl, refl)

  pub moved_on :
      (c c1 c2 : Column R) {v v1 v2 : R} → Taken c v c1 v1 → Taken c1 v1 c2 v2 → Taken c v c2 v2
  moved_on c c1 c2 (t, r, m, a, b) (t', r', m', a', b') =
      (double.add t' t, sym (assoc _ _ _) ∙ rw r' r, sym (assoc _ _ _) ∙ rw m' m, a' ∙ a, b' ∙ b)

  deposit_up_lem :
      (k l : ℕ) (c : Column R) (v : R)
      → l < s.nz
      → Taken c v (deposit_up double s k l c v).0 (deposit_up double s k l c v).1
  deposit_up_lem k l c v h = elim (Bool-cases (double.lt (nought double s) (c.room l))) [
    | inl e ↦
        rw e (take double s (c.room l) v, total-put s.nz l c.room _ h, sub_add _ _, refl, refl)
    | inr e ↦ rw e (nothing_moved c v)
  ]

  deposit_down_lem :
      (k l : ℕ) (c : Column R) (v : R)
      → l < s.nz
      → Taken c v (deposit_down double s k l c v).0 (deposit_down double s k l c v).1
  deposit_down_lem k l c v h = elim (Bool-cases (double.lt (nought double s) (c.room l))) [
    | inl e ↦
        rw e (take double s (c.room l) v, total-put s.nz l c.room _ h, sub_add _ _, refl, refl)
    | inr e ↦ rw e (nothing_moved c v)
  ]

  pub walk_up_lem :
      (k l : ℕ) (c : Column R) (v : R)
      → l ≤ s.nz
      → Taken c v (walk_up double s k l c v).0 (walk_up double s k l c v).1
  unfolding walk_up
  walk_up_lem k zero c v h = nothing_moved c v
  walk_up_lem k (suc l) c v h = elim (Bool-cases (s.active l && double.lt (nought double s) v)) [
    | inl e ↦
        let next = deposit_up double s k l c v in
        rw e (
          moved_on c next.0 (walk_up double s k l next.0 next.1).0
            (deposit_up_lem k l c v (omega arith)) (walk_up_lem k l next.0 next.1 (omega arith)))
    | inr e ↦ rw e (nothing_moved c v)
  ]

  pub walk_down_lem :
      (k n l : ℕ) (c : Column R) (v : R)
      → l + n ≤ s.nz
      → Taken c v (walk_down double s k n l c v).0 (walk_down double s k n l c v).1
  unfolding walk_down
  walk_down_lem k zero l c v h = nothing_moved c v
  walk_down_lem k (suc n) l c v h = elim (Bool-cases (double.lt (nought double s) v)) [
    | inl e ↦
        let next = deposit_down double s k l c v in
        rw e (
          moved_on c next.0 (walk_down double s k n (l + 1) next.0 next.1).0
            (deposit_down_lem k l c v (omega arith))
            (walk_down_lem k n (l + 1) next.0 next.1 (omega arith)))
    | inr e ↦ rw e (nothing_moved c v)
  ]
