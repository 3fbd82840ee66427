-- ===== src/Config/Suggestion.antt =====
-- `editDistance` and `nearestKey` of core/ConfigSchema.cpp: the key that an unknown one is close to.
-- A row of the table is a list; texts are lists of their characters' codes.
pub mod Distance
use Prim.Native.Char.{code}
use Prim.Native.String.{String}
use frehg.Prelude.{
  ℕ, zero, suc, ◌+◌, ◌/◌, ◌==◌, min, max, ltb, leb, if◌then◌else◌, Option, none, some, List, [],
  ◌∷◌, length,
}

abbrev pub codes : String → List ℕ
codes String.[] = []
codes (String.◌∷◌ c s) = code c ∷ codes s

-- The entries of a row behind `left`, from the row above.
abbrev pub fill_row : ℕ → List ℕ → ℕ → List ℕ → List ℕ
fill_row a [] left above = []
fill_row a (b ∷ bs) left [] = []
fill_row a (b ∷ bs) left (p ∷ []) = []
fill_row a (b ∷ bs) left (p ∷ q ∷ above) =
    let entry = min (q + 1) (min (left + 1) (p + (if a == b then 0 else 1))) in
    entry ∷ fill_row a bs entry (q ∷ above)

abbrev pub first_row : ℕ → List ℕ → List ℕ
first_row n [] = n ∷ []
first_row n (b ∷ bs) = n ∷ first_row (n + 1) bs

abbrev pub rows : ℕ → List ℕ → List ℕ → List ℕ → List ℕ
rows ia [] b above = above
rows ia (a ∷ rest) b above = rows (ia + 1) rest b (ia ∷ fill_row a b ia above)

abbrev pub last_entry : List ℕ → ℕ
last_entry [] = 0
last_entry (n ∷ []) = n
last_entry (n ∷ m ∷ ns) = last_entry (m ∷ ns)

unfoldable pub edit_distance : List ℕ → List ℕ → ℕ
edit_distance a b = last_entry (rows 1 a b (first_row 0 b))

-- The nearest of the names, the first one among equals; no distance yet is `none`.
abbrev pub nearer : List ℕ → Option (String × ℕ) → String → Option (String × ℕ)
nearer key none name = some (name, edit_distance key (codes name))
nearer key (some (best, d)) name =
    if ltb (edit_distance key (codes name)) d
    then some (name, edit_distance key (codes name))
    else some (best, d)

abbrev pub nearest : List ℕ → Option (String × ℕ) → List String → Option (String × ℕ)
nearest key best [] = best
nearest key best (name ∷ names) = nearest key (nearer key best name) names

unfoldable pub nearest_key : String → List String → Option String
unfolding edit_distance
nearest_key key names = elim (nearest (codes key) none names) [
  | none ↦ none
  | some (best, d) ↦ if leb d (max 2 (length (codes key) / 3)) then some best else none
]
