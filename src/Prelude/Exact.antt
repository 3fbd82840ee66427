-- ===== src/Prelude/Exact.antt =====
-- Exact arithmetic: the laws of a ring, which some theorems assume of `real_t`.
use mathlib.Core.Path.{◌≡◌, sym, ap, ◌∙◌}
use frehg.Prelude.Doubles.{Double}
use frehg.Prelude.Reals.{◌⊕◌, ◌⊖◌, zero_real, negate}

pub record IsExact {R : Type 0} (double : Double R) : Type 0 where
  pub add_assoc : (a b c : R) → double.add (double.add a b) c ≡ double.add a (double.add b c)
  pub add_comm : (a b : R) → double.add a b ≡ double.add b a
  pub add-zero : (a : R) → double.add a (double.of_int 0) ≡ a
  pub sub_self : (a : R) → double.sub a a ≡ double.of_int 0
  pub sub-negate : (a b : R) → double.sub a b ≡ double.add a (double.sub (double.of_int 0) b)
  pub add-mul :
      (a b c : R) → double.mul (double.add a b) c ≡ double.add (double.mul a c) (double.mul b c)
  pub mul-sub :
      (a b c : R) → double.mul a (double.sub b c) ≡ double.sub (double.mul a b) (double.mul a c)
  pub zero-mul : (a : R) → double.mul (double.of_int 0) a ≡ double.of_int 0
  pub negate-mul :
      (a b : R)
      → double.mul (double.sub (double.of_int 0) a) b
        ≡ double.sub (double.of_int 0) (double.mul a b)

module _ {R : Type 0} ⦃double : Double R⦄ (exact : IsExact double) where
  -- A subtraction moves in front of a sum's last term, or into it.
  pub slide : (a b c : R) → (a ⊕ b) ⊖ c ≡ (a ⊖ c) ⊕ b
  slide a b c =
      exact.sub-negate (a ⊕ b) c
      ∙ exact.add_assoc a b (negate c)
      ∙ ap (λ x. a ⊕ x) (exact.add_comm b (negate c))
      ∙ sym (exact.add_assoc a (negate c) b)
      ∙ ap (λ x. x ⊕ b) (sym (exact.sub-negate a c))

  pub join : (a b c : R) → (a ⊕ b) ⊖ c ≡ a ⊕ (b ⊖ c)
  join a b c =
      exact.sub-negate (a ⊕ b) c
      ∙ exact.add_assoc a b (negate c)
      ∙ ap (λ x. a ⊕ x) (sym (exact.sub-negate b c))

  pub sub-zero : (a : R) → a ⊖ zero_real ≡ a
  sub-zero a =
      ap (λ x. x ⊖ zero_real) (sym (exact.add-zero a))
      ∙ join a zero_real zero_real
      ∙ ap (λ x. a ⊕ x) (exact.sub_self zero_real)
      ∙ exact.add-zero a

  pub add-sub : (a b : R) → (a ⊕ b) ⊖ b ≡ a
  add-sub a b = join a b b ∙ ap (λ x. a ⊕ x) (exact.sub_self b) ∙ exact.add-zero a

  -- `a - b` is what a sum with b makes `a`.
  pub sub_unique : (a b c : R) → c ⊕ b ≡ a → c ≡ a ⊖ b
  sub_unique a b c e = sym (add-sub c b) ∙ ap (λ x. x ⊖ b) e

  pub sub-add : (a b : R) → (a ⊖ b) ⊕ b ≡ a
  sub-add a b = sym (slide a b b) ∙ add-sub a b

  pub sub_comm : (a b c : R) → (a ⊖ b) ⊖ c ≡ (a ⊖ c) ⊖ b
  sub_comm a b c =
      ap (λ x. x ⊖ c) (exact.sub-negate a b)
      ∙ slide a (negate b) c
      ∙ sym (exact.sub-negate (a ⊖ c) b)

  pub sub-add_both : (a b c : R) → a ⊖ (b ⊕ c) ≡ (a ⊖ b) ⊖ c
  sub-add_both a b c = sym (
      sub_unique a (b ⊕ c) ((a ⊖ b) ⊖ c) (
        ap (λ x. ((a ⊖ b) ⊖ c) ⊕ x) (exact.add_comm b c)
        ∙ sym (exact.add_assoc ((a ⊖ b) ⊖ c) c b)
        ∙ ap (λ x. x ⊕ b) (sub-add (a ⊖ b) c)
        ∙ sub-add a b))
