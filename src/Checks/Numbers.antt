-- ===== src/Checks/Numbers.antt =====
-- Whole numbers in the place of `real_t`, to run the definitions on.
use frehg.Prelude.{
  ℕ, ◌+◌, ◌-◌, ◌*◌, ◌/◌, ◌≡◌, refl, arith, false, not, ◌&&◌, ◌==◌, to_ℕ, ltb, leb, if◌then◌else◌, ℤ,
  pos, negsuc, lt_ℤ, Double,
}

-- A literal is its mantissa.
abbrev pub whole : Double ℕ
whole = record {
  of_int = λ n. n;
  scaled = λ m e. m;
  add = λ a b. a + b;
  sub = λ a b. a - b;
  mul = λ a b. a * b;
  div = λ a b. a / b;
  lt = ltb;
  le = leb;
  eq = λ a b. a == b;
  floor = λ n. n;
  ceil = λ n. n;
  to_long = λ n. pos n;
  llround = λ n. pos n;
  of_long = to_ℕ;
  fabs = λ n. n;
  infinity = 1000000;
  neg_infinity = 0;
  round = λ n. n;
}

abbrev pub difference : ℕ → ℕ → ℤ
difference a b = if leb b a then pos (a - b) else negsuc (b - (a + 1))

infixl 20 ◌+ℤ◌
abbrev pub ◌+ℤ◌ : ℤ → ℤ → ℤ
pos a +ℤ pos b = pos (a + b)
pos a +ℤ negsuc b = difference a (b + 1)
negsuc a +ℤ pos b = difference b (a + 1)
negsuc a +ℤ negsuc b = negsuc (a + b + 1)

abbrev pub negated : ℤ → ℤ
negated (pos n) = difference 0 n
negated (negsuc n) = pos (n + 1)

-- Integers in the place of `real_t`, with the sum in the place of the product and the quotient.
abbrev pub signed : Double ℤ
signed = record {
  of_int = λ n. pos n;
  scaled = λ m e. pos m;
  add = λ a b. a +ℤ b;
  sub = λ a b. a +ℤ negated b;
  mul = λ a b. a +ℤ b;
  div = λ a b. a +ℤ b;
  lt = lt_ℤ;
  le = λ a b. not (lt_ℤ b a);
  eq = λ a b. not (lt_ℤ a b) && not (lt_ℤ b a);
  floor = λ n. n;
  ceil = λ n. n;
  to_long = λ n. n;
  llround = λ n. n;
  of_long = λ n. n;
  fabs = λ n. if lt_ℤ n (pos 0) then negated n else n;
  infinity = pos 1000000;
  neg_infinity = negsuc 1000000;
  round = λ n. n;
}

pub lt_ℤ_irreflexive : (x : ℤ) → lt_ℤ x x ≡ false
lt_ℤ_irreflexive (pos n) = ground arith
lt_ℤ_irreflexive (negsuc n) = ground arith

pub add_grows : (x a b : ℤ) → lt_ℤ a (pos 0) ≡ false → lt_ℤ x b ≡ false → lt_ℤ (x +ℤ a) b ≡ false
add_grows x (negsuc a) b h k = absurd (ground arith)
add_grows (pos x) (pos a) (pos b) h k = ground arith
add_grows (pos x) (pos a) (negsuc b) h k = refl
add_grows (negsuc x) (pos a) (pos b) h k = absurd (ground arith)
add_grows (negsuc x) (pos a) (negsuc b) h k = ground arith
