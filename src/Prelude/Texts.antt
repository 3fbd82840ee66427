-- ===== src/Prelude/Texts.antt =====
-- A `std::string` as the list of its characters' codes.
use Prim.Native.Nat.{ℕ}
use mathlib.Core.Path.{◌≡◌, refl}
use mathlib.Core.Bool.{Bool, true, false, ◌&&◌}
use mathlib.Core.List.{List, [], ◌∷◌}
use native.Mathlib.Omega.{arith}
use frehg.Prelude.Tests.{◌==◌}

abbrev pub Text : Type 0
Text = List ℕ

abbrev pub text_eq : Text → Text → Bool
text_eq [] [] = true
text_eq [] (b ∷ ys) = false
text_eq (a ∷ xs) [] = false
text_eq (a ∷ xs) (b ∷ ys) = a == b && text_eq xs ys

pub text_eq_self : (a : Text) → text_eq a a ≡ true
text_eq_self [] = refl
text_eq_self (a ∷ xs) = rw (text_eq_self xs) (ground arith)

pub text_eq→eq : (a b : Text) → text_eq a b ≡ true → a ≡ b
text_eq→eq [] [] h = refl
text_eq→eq [] (b ∷ ys) h = absurd (ground arith)
text_eq→eq (a ∷ xs) [] h = absurd (ground arith)
text_eq→eq (a ∷ xs) (b ∷ ys) h =
    let first : a ≡ b = ground arith in
    let rest : text_eq xs ys ≡ true = ground arith in rw (first, text_eq→eq xs ys rest) refl
