-- ===== src/Youtube/Similarity/Distance.antt =====
-- The table of editSimilarity against the recursive Levenshtein distance of the reversed texts.
use mathlib.Core.List.{reverse, reverse_aux}
use offbeat.Prelude.{
  min, ◌==◌, if◌then◌else◌, arith, sym, suc, ◌+◌, ◌∙◌, ap, refl, [], length, ◌∷◌, ℕ, ◌≡◌, List,
  Text,
}
use offbeat.Youtube.Similarity.{cell, last_or_zero, edit_row, edit_rows, first_row, edit_distance}

-- The Levenshtein distance, on its own: the fewest insertions, deletions and substitutions of one
-- rune, where the first runes cost nothing if they are the same.
pub lev : List ℕ → List ℕ → ℕ
lev [] t = length t
lev (c ∷ s) [] = length (c ∷ s)
lev (c ∷ s) (d ∷ t) =
    let deleted = lev s (d ∷ t) + 1 in
    let inserted = lev (c ∷ s) t + 1 in
    let substituted = (if c == d then lev s t else lev s t + 1) in
    min substituted (min deleted inserted)

cell-lev :
    (c d : ℕ) (s t : List ℕ)
    → cell c d (lev (c ∷ s) t) (lev s (d ∷ t)) (lev s t) ≡ lev (c ∷ s) (d ∷ t)
unfolding lev
cell-lev c d s t = ground arith

-- The row of the table for the left runes `s`, last first, from the right runes `t` on.
row : List ℕ → List ℕ → List ℕ → List ℕ
row s t [] = lev s t ∷ []
row s t (r ∷ rs) = lev s t ∷ row s (r ∷ t) rs

row_after : List ℕ → List ℕ → List ℕ → List ℕ
row_after s t [] = []
row_after s t (r ∷ rs) = row s (r ∷ t) rs

row-cons : (s t rs : List ℕ) → row s t rs ≡ lev s t ∷ row_after s t rs
unfolding row row_after
row-cons s t [] = refl
row-cons s t (r ∷ rs) = refl

edit_row-row :
    (l : ℕ) (s t rs : List ℕ) → edit_row l (lev (l ∷ s) t) rs (row s t rs) ≡ row_after (l ∷ s) t rs
unfolding edit_row row row_after
edit_row-row l s t [] = refl
edit_row-row l s t (r ∷ rs) =
    let rest = rw (row-cons s (r ∷ t) rs) at (edit_row-row l s (r ∷ t) rs) in
    rw (row-cons s (r ∷ t) rs, row-cons (l ∷ s) (r ∷ t) rs, cell-lev l r s t)
      (ap (λ xs. lev (l ∷ s) (r ∷ t) ∷ xs) rest)

first_row-row : (n : ℕ) (t rs : List ℕ) → n ≡ length t → first_row n rs ≡ row [] t rs
unfolding first_row row lev
first_row-row n t [] h = ap (λ x. x ∷ []) h
first_row-row n t (r ∷ rs) h = λ i. h i ∷ first_row-row (suc n) (r ∷ t) rs (ap suc h) i

lev_nil : (s : List ℕ) → lev s [] ≡ length s
unfolding lev
lev_nil [] = refl
lev_nil (c ∷ s) = refl

edit_rows-row :
    (i : ℕ) (s ls rs : List ℕ)
    → i ≡ length s
    → edit_rows i ls rs (row s [] rs) ≡ row (reverse_aux ls s) [] rs
unfolding edit_rows
edit_rows-row i s [] rs h = refl
edit_rows-row i s (l ∷ ls) rs h =
    let count : i + 1 ≡ lev (l ∷ s) [] = unfold lev in omega arith in
    let next : (i + 1) ∷ edit_row l (i + 1) rs (row s [] rs) ≡ row (l ∷ s) [] rs =
      rw (count, row-cons (l ∷ s) [] rs)
        (ap (λ xs. lev (l ∷ s) [] ∷ xs) (edit_row-row l s [] rs)) in
    ap (λ previous. edit_rows (suc i) ls rs previous) next
    ∙ edit_rows-row (suc i) (l ∷ s) ls rs (omega arith)

last_row : (s t rs : List ℕ) → last_or_zero (row s t rs) ≡ lev s (reverse_aux rs t)
unfolding row
last_row s t [] = refl
last_row s t (r ∷ rs) =
    ap (λ xs. last_or_zero (lev s t ∷ xs)) (row-cons s (r ∷ t) rs)
    ∙ ap last_or_zero (sym (row-cons s (r ∷ t) rs))
    ∙ last_row s (r ∷ t) rs

-- For any two texts the last cell of the last row of the table is the Levenshtein distance of the
-- texts, computed by recursion on the reversed texts.
pub edit_distance-lev :
    (left right : Text) → edit_distance left right ≡ lev (reverse left) (reverse right)
unfolding edit_distance
edit_distance-lev left right =
    ap (λ previous. last_or_zero (edit_rows 0 left right previous)) (first_row-row 0 [] right refl)
    ∙ ap last_or_zero (edit_rows-row 0 [] left right refl)
    ∙ last_row (reverse left) [] right
