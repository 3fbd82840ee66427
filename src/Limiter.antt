-- ===== src/Limiter.antt =====
-- transport/Limiters.hpp: the superbee limiter and the face value it makes.
use frehg.Prelude.{◌≡◌, true, false, ◌||◌, if◌then◌else◌, Bool-cases, inl, inr, Double}

module _ {R : Type 0} (double : Double R) where
  unfoldable pub low_slope : R → R
  low_slope r =
      let twice = double.mul (double.of_int 2) r in
      if double.lt twice (double.of_int 1) then twice else double.of_int 1

  unfoldable pub high_slope : R → R
  high_slope r = if double.lt r (double.of_int 2) then r else double.of_int 2

  unfoldable pub superbee_phi : R → R
  unfolding low_slope high_slope
  superbee_phi r =
      let r1 = low_slope r in
      let r2 = high_slope r in
      if double.lt (double.of_int 0) r1 || double.lt (double.of_int 0) r2
      then if double.lt r2 r1 then r1 else r2
      else double.of_int 0

  unfoldable pub tvd_superbee : R → R → R → R → R → R → R
  unfolding superbee_phi
  tvd_superbee sp sc sm u delta dt =
      let coef = double.div (double.mul (double.fabs u) dt) delta in
      let phi =
        if double.eq sp sc
        then double.of_int 0
        else superbee_phi (double.div (double.sub sc sm) (double.sub sp sc)) in
      double.add sc (
        double.mul
          (double.mul (double.mul (double.scaled 5 1) phi) (double.sub (double.of_int 1) coef))
          (double.sub sp sc))

  module _ (lt_le : (x y : R) → double.lt x y ≡ true → double.le x y ≡ true)
      (total : (x y : R) → double.lt x y ≡ false → double.le y x ≡ true)
      (transitive : (x y z : R)
        → double.le x y ≡ true
        → double.le y z ≡ true
        → double.le x z ≡ true)
      (reflexive : (x : R) → double.le x x ≡ true)
      (one_two : double.le (double.of_int 1) (double.of_int 2) ≡ true)
      (nought_two : double.le (double.of_int 0) (double.of_int 2) ≡ true) where
    low_slope_le : (r : R) → double.le (low_slope r) (double.of_int 2) ≡ true
    unfolding low_slope
    low_slope_le r =
        let twice = double.mul (double.of_int 2) r in
        elim (Bool-cases (double.lt twice (double.of_int 1))) [
          | inl e ↦ rw e (
              transitive twice (double.of_int 1) (double.of_int 2) (lt_le twice (double.of_int 1) e)
                one_two)
          | inr e ↦ rw e one_two
        ]

    high_slope_le : (r : R) → double.le (high_slope r) (double.of_int 2) ≡ true
    unfolding high_slope
    high_slope_le r = elim (Bool-cases (double.lt r (double.of_int 2))) [
      | inl e ↦ rw e (lt_le r (double.of_int 2) e)
      | inr e ↦ rw e (reflexive (double.of_int 2))
    ]

    -- The larger of two numbers, of which one is positive.
    larger_pos :
        (x y : R)
        → (double.lt (double.of_int 0) x || double.lt (double.of_int 0) y) ≡ true
        → double.le (double.of_int 0) (if double.lt y x then x else y) ≡ true
    larger_pos x y h = elim (Bool-cases (double.lt (double.of_int 0) x)) [
      | inl e ↦ elim (Bool-cases (double.lt y x)) [
        | inl g ↦ rw g (lt_le (double.of_int 0) x e)
        | inr g ↦
            rw g (transitive (double.of_int 0) x y (lt_le (double.of_int 0) x e) (total y x g))
      ]
      | inr e ↦
          let pos_y : double.lt (double.of_int 0) y ≡ true = rw e at h in
          elim (Bool-cases (double.lt y x)) [
            | inl g ↦
                rw g
                  (transitive (double.of_int 0) y x (lt_le (double.of_int 0) y pos_y) (lt_le y x g))
            | inr g ↦ rw g (lt_le (double.of_int 0) y pos_y)
          ]
    ]

    larger_bounds :
        (x y : R)
        → double.le x (double.of_int 2) ≡ true
        → double.le y (double.of_int 2) ≡ true
        → (double.le (double.of_int 0) (
              if double.lt (double.of_int 0) x || double.lt (double.of_int 0) y
              then if double.lt y x then x else y
              else double.of_int 0)
            ≡ true)
          × (double.le
                (if double.lt (double.of_int 0) x || double.lt (double.of_int 0) y
                  then if double.lt y x then x else y
                  else double.of_int 0)
                (double.of_int 2)
              ≡ true)
    larger_bounds x y h k =
        elim (Bool-cases (double.lt (double.of_int 0) x || double.lt (double.of_int 0) y)) [
          | inl e ↦ rw e (larger_pos x y e, below)
          | inr e ↦ rw e (reflexive (double.of_int 0), nought_two)
        ]
      where
        below : double.le (if double.lt y x then x else y) (double.of_int 2) ≡ true
        below = elim (Bool-cases (double.lt y x)) [ inl g ↦ rw g h | inr g ↦ rw g k ]

    -- With `<` and `≤` a total order without NaN and 0 ≤ 2, 1 ≤ 2: the limiter lies in [0, 2].
    pub superbee_bounds :
        (r : R)
        → (double.le (double.of_int 0) (superbee_phi r) ≡ true)
          × (double.le (superbee_phi r) (double.of_int 2) ≡ true)
    unfolding superbee_phi
    superbee_bounds r =
        larger_bounds (low_slope r) (high_slope r) (low_slope_le r) (high_slope_le r)
