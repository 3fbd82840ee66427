-- ===== src/Surface/Step/Terms.antt =====
-- The algebra of a row: the legs in its diagonal, and the sides of its cell one by one.
use frehg.Prelude.{
  ℕ, ◌≡◌, refl, sym, ap, ◌∙◌, Bool, true, false, if◌then◌else◌, Option, none, some, Double, ◌⊕◌,
  ◌⊖◌, ◌⊗◌, zero_real, IsExact, slide, join, sub-zero, add-sub, sub_comm, sub-add_both,
}
use frehg.Surface.FreeSurface.{fold_leg}
use frehg.Surface.System.{off_diagonal, eliminate}
use frehg.Surface.Step.Rows.{live, column_term, is_missing}

module _ {R : Type 0} ⦃double : Double R⦄ (exact : IsExact double) where
  fold_last : (edge : Bool) (x side : R) → fold_leg edge side (x ⊕ side) ≡ x ⊕ live edge side
  fold_last true x side = add-sub exact x side ∙ sym (exact.add-zero x)
  fold_last false x side = refl

  fold_before : (edge : Bool) (x y side : R) → fold_leg edge side (x ⊕ y) ≡ fold_leg edge side x ⊕ y
  fold_before true x y side = slide exact x y side
  fold_before false x y side = refl

  fold_two :
      (edge : Bool) (x side p q : R)
      → fold_leg edge side (x ⊕ side ⊕ p ⊕ q) ≡ x ⊕ live edge side ⊕ p ⊕ q
  fold_two edge x side p q =
      fold_before edge (x ⊕ side ⊕ p) q side
      ∙ ap (λ y. y ⊕ q)
          (fold_before edge (x ⊕ side) p side ∙ ap (λ y. y ⊕ p) (fold_last edge x side))

  pub fold_all :
      (area e w n s : R) (on_e on_w on_n on_s : Bool)
      → fold_leg on_n n (fold_leg on_s s (fold_leg on_e e (fold_leg on_w w (area ⊕ e ⊕ w ⊕ n ⊕ s))))
        ≡ area ⊕ live on_e e ⊕ live on_w w ⊕ live on_n n ⊕ live on_s s
  fold_all area e w n s on_e on_w on_n on_s =
      let west = live on_w w in
      let east = live on_e e in
      ap (λ x. fold_leg on_n n (fold_leg on_s s (fold_leg on_e e x)))
        (fold_two on_w (area ⊕ e) w n s)
      ∙ ap (λ x. fold_leg on_n n (fold_leg on_s s x))
          (fold_before on_e (area ⊕ e ⊕ west ⊕ n) s e
            ∙ ap (λ x. x ⊕ s) (fold_two on_e area e west n))
      ∙ ap (λ x. fold_leg on_n n x) (fold_last on_s (area ⊕ east ⊕ west ⊕ n) s)
      ∙ fold_before on_n (area ⊕ east ⊕ west ⊕ n) (live on_s s) n
      ∙ ap (λ x. x ⊕ live on_s s) (fold_last on_n (area ⊕ east ⊕ west) n)

  -- A term of a row, and its part of the right-hand side.
  abbrev pub term : Bool → R → R → R
  term edge a x = if edge then zero_real else a ⊗ x

  pub side_residual :
      (edge marked : Bool) (side level value sum b : R)
      → (edge ≡ true → marked ≡ false)
      → (marked ≡ true → level ≡ value)
      → (sum ⊕ term edge (off_diagonal marked side) level) ⊖ eliminate marked side value b
        ≡ (sum ⊖ b) ⊖ live edge side ⊗ level
  side_residual true true side level value sum b out agree = absurd (let k = out refl in cc)
  side_residual true false side level value sum b out agree =
      ap (λ x. x ⊖ b) (exact.add-zero sum)
      ∙ sym (ap (λ x. (sum ⊖ b) ⊖ x) (exact.zero-mul level) ∙ sub-zero exact (sum ⊖ b))
  side_residual false true side level value sum b out agree =
      ap (λ x. (sum ⊕ x) ⊖ (b ⊕ side ⊗ value)) (exact.zero-mul level)
      ∙ ap (λ x. x ⊖ (b ⊕ side ⊗ value)) (exact.add-zero sum)
      ∙ sub-add_both exact sum b (side ⊗ value)
      ∙ ap (λ x. (sum ⊖ b) ⊖ side ⊗ x) (sym (agree refl))
  side_residual false false side level value sum b out agree =
      ap (λ x. (sum ⊕ x) ⊖ b) (exact.negate-mul side level)
      ∙ ap (λ x. x ⊖ b) (sym (exact.sub-negate sum (side ⊗ level)))
      ∙ sub_comm exact sum (side ⊗ level) b

  out_of_three : (p s b w e : R) → (((p ⊕ s) ⊖ b) ⊖ w) ⊖ e ≡ (((p ⊖ b) ⊖ w) ⊖ e) ⊕ s
  out_of_three p s b w e =
      ap (λ x. (x ⊖ w) ⊖ e) (slide exact p s b)
      ∙ ap (λ x. x ⊖ e) (slide exact (p ⊖ b) s w)
      ∙ slide exact ((p ⊖ b) ⊖ w) s e

  pair_two : (a e w b w' e' : R) → (((a ⊕ e ⊕ w) ⊖ b) ⊖ w') ⊖ e' ≡ (a ⊖ b) ⊕ (e ⊖ e') ⊕ (w ⊖ w')
  pair_two a e w b w' e' =
      ap (λ x. (x ⊖ w') ⊖ e') (slide exact (a ⊕ e) w b)
      ∙ ap (λ x. x ⊖ e') (join exact ((a ⊕ e) ⊖ b) w w')
      ∙ slide exact ((a ⊕ e) ⊖ b) (w ⊖ w') e'
      ∙ ap (λ x. x ⊕ (w ⊖ w')) (ap (λ x. x ⊖ e') (slide exact a e b) ∙ join exact (a ⊖ b) e e')

  pub pair_up :
      (a e w n s b e' w' n' s' : R)
      → ((((a ⊕ e ⊕ w ⊕ n ⊕ s) ⊖ b) ⊖ w') ⊖ e') ⊖ s' ⊖ n'
        ≡ (a ⊖ b) ⊕ (e ⊖ e') ⊕ (w ⊖ w') ⊕ (n ⊖ n') ⊕ (s ⊖ s')
  pair_up a e w n s b e' w' n' s' =
      let rest = λ (p : R). ((p ⊖ b) ⊖ w') ⊖ e' in
      ap (λ x. x ⊖ s' ⊖ n') (out_of_three (a ⊕ e ⊕ w ⊕ n) s b w' e')
      ∙ ap (λ x. x ⊖ n') (join exact (rest (a ⊕ e ⊕ w ⊕ n)) s s')
      ∙ slide exact (rest (a ⊕ e ⊕ w ⊕ n)) (s ⊖ s') n'
      ∙ ap (λ x. x ⊕ (s ⊖ s'))
          (ap (λ x. x ⊖ n') (out_of_three (a ⊕ e ⊕ w) n b w' e')
            ∙ join exact (rest (a ⊕ e ⊕ w)) n n'
            ∙ ap (λ x. x ⊕ (n ⊖ n')) (pair_two a e w b w' e'))

  pub as_term :
      (g : Option ℕ) (edge : Bool) (a x : R)
      → is_missing g ≡ edge
      → column_term g a x ≡ term edge a x
  as_term none edge a x e = rw (← e) refl
  as_term (some g) edge a x e = rw (← e) refl
