-- ===== src/Checks/Integers.antt =====
-- The integers of the library in the place of `real_t`: their arithmetic is exact. The quotient is
-- the dividend, which serves where all divisors are 1.
use mathlib.Core.Int.{
  ℤ, pos, negsuc, suc_ℤ, pred_ℤ, neg_ℤ, ◌+ℤ◌, ◌-ℤ◌, ◌*ℤ◌, +ℤ_assoc, +ℤ_comm, +ℤ_idl, +ℤ_invr,
  suc_ℤ-+ℤ, pred_ℤ-+ℤ, suc_ℤ-*ℤ, pred_ℤ-*ℤ, zero-*ℤ, *ℤ_comm, -ℤ-+ℤ_cancel, +ℤ-neg_ℤ_cancel,
}
use mathlib.Core.Nat
use frehg.Prelude.{
  ℕ, zero, suc, ◌≡◌, refl, sym, ap, ◌∙◌, Bool, true, false, not, ◌&&◌, Double, IsExact,
}
use frehg.Prelude as Shared

abbrev pub integer : ℕ → ℤ
integer zero = pos Nat.zero
integer (suc n) = suc_ℤ (integer n)

abbrev is_negative : ℤ → Bool
is_negative (pos n) = false
is_negative (negsuc n) = true

instance abbrev pub integers : Double ℤ
integers = record {
  of_int = integer;
  scaled = λ m e. integer m;
  add = λ a b. a +ℤ b;
  sub = λ a b. a -ℤ b;
  mul = λ a b. a *ℤ b;
  div = λ a b. a;
  lt = λ a b. is_negative (a -ℤ b);
  le = λ a b. not (is_negative (b -ℤ a));
  eq = λ a b. not (is_negative (a -ℤ b)) && not (is_negative (b -ℤ a));
  floor = λ n. n;
  ceil = λ n. n;
  to_long = λ n. Shared.pos 0;
  llround = λ n. Shared.pos 0;
  of_long = λ n. pos Nat.zero;
  fabs = λ n. n;
  infinity = integer 1000;
  neg_infinity = neg_ℤ (integer 1000);
  round = λ n. n;
}

difference_unique : (a b c : ℤ) → c +ℤ b ≡ a → c ≡ a -ℤ b
difference_unique a b c e = sym (+ℤ-neg_ℤ_cancel c b) ∙ ap (λ x. x -ℤ b) e

swap_last : (a b c : ℤ) → (a +ℤ b) +ℤ c ≡ (a +ℤ c) +ℤ b
swap_last a b c = +ℤ_assoc a b c ∙ ap (λ x. a +ℤ x) (+ℤ_comm b c) ∙ sym (+ℤ_assoc a c b)

after_suc :
    (a b c : ℤ) → (a +ℤ b) *ℤ c ≡ a *ℤ c +ℤ b *ℤ c → (suc_ℤ a +ℤ b) *ℤ c ≡ suc_ℤ a *ℤ c +ℤ b *ℤ c
after_suc a b c h =
    ap (λ x. x *ℤ c) (suc_ℤ-+ℤ a b)
    ∙ suc_ℤ-*ℤ (a +ℤ b) c
    ∙ ap (λ x. x +ℤ c) h
    ∙ swap_last (a *ℤ c) (b *ℤ c) c
    ∙ sym (ap (λ x. x +ℤ b *ℤ c) (suc_ℤ-*ℤ a c))

after_pred :
    (a b c : ℤ) → (a +ℤ b) *ℤ c ≡ a *ℤ c +ℤ b *ℤ c → (pred_ℤ a +ℤ b) *ℤ c ≡ pred_ℤ a *ℤ c +ℤ b *ℤ c
after_pred a b c h =
    ap (λ x. x *ℤ c) (pred_ℤ-+ℤ a b)
    ∙ pred_ℤ-*ℤ (a +ℤ b) c
    ∙ ap (λ x. x -ℤ c) h
    ∙ swap_last (a *ℤ c) (b *ℤ c) (neg_ℤ c)
    ∙ sym (ap (λ x. x +ℤ b *ℤ c) (pred_ℤ-*ℤ a c))

at_zero : (b c : ℤ) → (pos Nat.zero +ℤ b) *ℤ c ≡ pos Nat.zero *ℤ c +ℤ b *ℤ c
at_zero b c =
    ap (λ x. x *ℤ c) (+ℤ_idl b) ∙ sym (ap (λ x. x +ℤ b *ℤ c) (zero-*ℤ c) ∙ +ℤ_idl (b *ℤ c))

distributes : (a b c : ℤ) → (a +ℤ b) *ℤ c ≡ a *ℤ c +ℤ b *ℤ c
distributes (pos Nat.zero) b c = at_zero b c
distributes (pos (Nat.suc n)) b c = after_suc (pos n) b c (distributes (pos n) b c)
distributes (negsuc Nat.zero) b c = after_pred (pos Nat.zero) b c (at_zero b c)
distributes (negsuc (Nat.suc n)) b c = after_pred (negsuc n) b c (distributes (negsuc n) b c)

distributes_sub : (a b c : ℤ) → (a -ℤ b) *ℤ c ≡ a *ℤ c -ℤ b *ℤ c
distributes_sub a b c =
    difference_unique (a *ℤ c) (b *ℤ c) ((a -ℤ b) *ℤ c)
      (sym (distributes (a -ℤ b) b c) ∙ ap (λ x. x *ℤ c) (-ℤ-+ℤ_cancel a b))

pub integers-IsExact : IsExact integers
integers-IsExact = record {
  add_assoc = +ℤ_assoc;
  add_comm = +ℤ_comm;
  add-zero = λ a. +ℤ_comm a (pos Nat.zero) ∙ +ℤ_idl a;
  sub_self = +ℤ_invr;
  sub-negate = λ a b. ap (λ x. a +ℤ x) (sym (+ℤ_idl (neg_ℤ b)));
  add-mul = distributes;
  mul-sub = λ a b c.
      *ℤ_comm a (b -ℤ c)
      ∙ distributes_sub b c a
      ∙ ap (λ x. x -ℤ c *ℤ a) (*ℤ_comm b a)
      ∙ ap (λ x. a *ℤ b -ℤ x) (*ℤ_comm c a);
  zero-mul = zero-*ℤ;
  negate-mul = λ a b. distributes_sub (pos Nat.zero) a b ∙ ap (λ x. x -ℤ a *ℤ b) (zero-*ℤ b);
}
