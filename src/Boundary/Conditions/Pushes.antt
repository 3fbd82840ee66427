-- ===== src/Boundary/Conditions/Pushes.antt =====
-- A list that cells are pushed to.
use mathlib.Core.List.{Memᴰ}
use frehg.Prelude.{◌≡◌, refl, ◌⊎◌, inl, inr, Bool, true, false, List, [], ◌∷◌, ◌++◌}
use frehg.Boundary.Kinds.{BcCell}
use frehg.Boundary.Conditions.{push_if}

Memᴰ-push : {c d : BcCell} (xs : List BcCell) → c ≡ d → Memᴰ c (xs ++ (d ∷ []))
Memᴰ-push [] e = Memᴰ.head e
Memᴰ-push (x ∷ xs) e = Memᴰ.tail (Memᴰ-push xs e)

Memᴰ-left : {c : BcCell} {xs : List BcCell} (ys : List BcCell) → Memᴰ c xs → Memᴰ c (xs ++ ys)
Memᴰ-left ys (Memᴰ.head e) = Memᴰ.head e
Memᴰ-left ys (Memᴰ.tail m) = Memᴰ.tail (Memᴰ-left ys m)

Memᴰ-snoc : {c d : BcCell} (xs : List BcCell) → Memᴰ c (xs ++ (d ∷ [])) → Memᴰ c xs ⊎ (c ≡ d)
Memᴰ-snoc [] (Memᴰ.head e) = inr e
Memᴰ-snoc [] (Memᴰ.tail m) = elim m [ ]
Memᴰ-snoc (x ∷ xs) (Memᴰ.head e) = inl (Memᴰ.head e)
Memᴰ-snoc (x ∷ xs) (Memᴰ.tail m) = elim (Memᴰ-snoc xs m) [
  | inl k ↦ inl (Memᴰ.tail k)
  | inr e ↦ inr e
]

pub push_if_keeps :
    {c : BcCell} (t : Bool) (d : BcCell) {xs : List BcCell} → Memᴰ c xs → Memᴰ c (push_if t d xs)
unfolding push_if
push_if_keeps true d m = Memᴰ-left (d ∷ []) m
push_if_keeps false d m = m

pub push_if_hits : (t : Bool) (d : BcCell) (xs : List BcCell) → t ≡ true → Memᴰ d (push_if t d xs)
unfolding push_if
push_if_hits true d xs e = Memᴰ-push xs refl
push_if_hits false d xs e = absurd (let k = e in cc)

pub push_if_cases :
    {c : BcCell} (t : Bool) (d : BcCell) (xs : List BcCell)
    → Memᴰ c (push_if t d xs)
    → Memᴰ c xs ⊎ ((c ≡ d) × (t ≡ true))
unfolding push_if
push_if_cases true d xs m = elim (Memᴰ-snoc xs m) [ inl k ↦ inl k | inr e ↦ inr (e, refl) ]
push_if_cases false d xs m = inl m
