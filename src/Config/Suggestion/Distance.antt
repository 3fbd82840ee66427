-- ===== src/Config/Suggestion/Distance.antt =====
-- The distance of core/ConfigSchema.cpp is that of the textbook recursion.
use frehg.Prelude.{
  ℕ, suc, ◌+◌, ◌==◌, ◌≡◌, refl, ap, ◌∙◌, min, if◌then◌else◌, List, [], ◌∷◌, length, arith,
}
use frehg.Config.Suggestion.{fill_row, first_row, rows, last_entry, edit_distance}

-- The fewest insertions, deletions and replacements between two texts, read from their ends: the
-- arguments are the texts reversed.
unfoldable pub levenshtein : List ℕ → List ℕ → ℕ
levenshtein [] ys = length ys
levenshtein (x ∷ xs) [] = length (x ∷ xs)
levenshtein (x ∷ xs) (y ∷ ys) =
    min (levenshtein xs (y ∷ ys) + 1)
      (min (levenshtein (x ∷ xs) ys + 1) (levenshtein xs ys + (if x == y then 0 else 1)))

abbrev pub reverse_onto : List ℕ → List ℕ → List ℕ
reverse_onto [] ys = ys
reverse_onto (x ∷ xs) ys = reverse_onto xs (x ∷ ys)

-- The row of a prefix `xs` of the first text, from the prefix `ys` of the second one on.
abbrev row_of : List ℕ → List ℕ → List ℕ → List ℕ
row_of xs ys [] = levenshtein xs ys ∷ []
row_of xs ys (b ∷ bs) = levenshtein xs ys ∷ row_of xs (b ∷ ys) bs

fill_row_lem :
    (a : ℕ) (xs ys bs : List ℕ)
    → levenshtein (a ∷ xs) ys ∷ fill_row a bs (levenshtein (a ∷ xs) ys) (row_of xs ys bs)
      ≡ row_of (a ∷ xs) ys bs
unfolding levenshtein
fill_row_lem a xs ys [] = refl
fill_row_lem a xs ys (b ∷ []) = refl
fill_row_lem a xs ys (b ∷ c ∷ bs) =
    ap (λ row. levenshtein (a ∷ xs) ys ∷ row) (fill_row_lem a xs (b ∷ ys) (c ∷ bs))

first_row_lem : (ys bs : List ℕ) → first_row (length ys) bs ≡ row_of [] ys bs
unfolding levenshtein
first_row_lem ys [] = refl
first_row_lem ys (b ∷ bs) =
    let next : length ys + 1 ≡ length (b ∷ ys) = omega arith in
    ap (λ row. length ys ∷ row) (rw next (first_row_lem (b ∷ ys) bs))

first_of :
    (a : ℕ) (xs b : List ℕ)
    → suc (length xs) ∷ fill_row a b (suc (length xs)) (row_of xs [] b) ≡ row_of (a ∷ xs) [] b
unfolding levenshtein
first_of a xs b = fill_row_lem a xs [] b

rows_lem :
    (xs rest b : List ℕ)
    → rows (length xs + 1) rest b (row_of xs [] b) ≡ row_of (reverse_onto rest xs) [] b
rows_lem xs [] b = refl
rows_lem xs (a ∷ rest) b =
    let next : length xs + 1 ≡ suc (length xs) = omega arith in
    rw next (ap (rows (suc (length xs) + 1) rest b) (first_of a xs b) ∙ rows_lem (a ∷ xs) rest b)

last_entry_lem :
    (xs ys bs : List ℕ) → last_entry (row_of xs ys bs) ≡ levenshtein xs (reverse_onto bs ys)
last_entry_lem xs ys [] = refl
last_entry_lem xs ys (b ∷ []) = refl
last_entry_lem xs ys (b ∷ c ∷ bs) = last_entry_lem xs (b ∷ ys) (c ∷ bs)

-- The table computes the distance of the textbook recursion.
pub edit_distance_lem :
    (a b : List ℕ) → edit_distance a b ≡ levenshtein (reverse_onto a []) (reverse_onto b [])
unfolding edit_distance
edit_distance_lem a b =
    ap last_entry (ap (rows 1 a b) (first_row_lem [] b) ∙ rows_lem [] a b)
    ∙ last_entry_lem (reverse_onto a []) [] b
