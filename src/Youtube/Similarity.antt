-- ===== src/Youtube/Similarity.antt =====
-- youtube.go: the scores. Every score is a whole percentage.
pub mod Distance
use offbeat.Prelude.{
  take, codes, ◌||◌, is_empty, map, max, zero, ◌&&◌, ◌-◌, ◌/◌, ◌==◌, [], leb, length, ltb, none,
  not, text_eq, true, ◌*◌, ◌+◌, Bool, false, if◌then◌else◌, min, some, suc, ◌∷◌, List, Option, Text,
  ℕ,
}
use offbeat.Youtube.Strings.{sort_texts, is_one_of, join}

-- One cell of the table: min(current[j]+1, previous[j+1]+1, previous[j]+cost).
abbrev pub cell : ℕ → ℕ → ℕ → ℕ → ℕ → ℕ
cell l r left above corner = min (min (left + 1) (above + 1)) (corner + (if l == r then 0 else 1))

-- The inner loop: `left` is current[j], and `previous` stands at j.
pub edit_row : ℕ → ℕ → List ℕ → List ℕ → List ℕ
edit_row l left [] previous = []
edit_row l left (r ∷ rs) [] = []
edit_row l left (r ∷ rs) (corner ∷ []) = []
edit_row l left (r ∷ rs) (corner ∷ above ∷ previous) =
    let v = cell l r left above corner in v ∷ edit_row l v rs (above ∷ previous)

-- The outer loop: `i` runes of the left text are done.
pub edit_rows : ℕ → List ℕ → List ℕ → List ℕ → List ℕ
unfolding edit_row
edit_rows i [] rights previous = previous
edit_rows i (l ∷ ls) rights previous =
    edit_rows (suc i) ls rights ((i + 1) ∷ edit_row l (i + 1) rights previous)

pub first_row : ℕ → List ℕ → List ℕ
first_row i [] = i ∷ []
first_row i (r ∷ rs) = i ∷ first_row (suc i) rs

abbrev pub last_or_zero : List ℕ → ℕ
last_or_zero [] = 0
last_or_zero (x ∷ []) = x
last_or_zero (x ∷ y ∷ xs) = last_or_zero (y ∷ xs)

-- previous[len(rightRunes)]
unfoldable pub edit_distance : Text → Text → ℕ
unfolding edit_rows first_row
edit_distance left right = last_or_zero (edit_rows 0 left right (first_row 0 right))

unfoldable pub edit_similarity : Text → Text → ℕ
edit_similarity left right =
    if text_eq left right
    then 100
    else if is_empty left || is_empty right
    then 0
    else 100
      * (max (length left) (length right) - edit_distance left right)
      / max (length left) (length right)

unfoldable pub erase_text : Text → List Text → List Text
erase_text t [] = []
erase_text t (u ∷ us) = let rest = u ∷ erase_text t us in if text_eq t u then us else rest

-- The multiset overlap that the map of counts computes.
unfoldable pub overlap : List Text → List Text → ℕ
unfolding erase_text
overlap left [] = 0
overlap left (t ∷ ts) = (if is_one_of t left then 1 else 0) + overlap (erase_text t left) ts

unfoldable pub token_similarity : List Text → List Text → ℕ
token_similarity [] right = 0
token_similarity (l ∷ left) [] = 0
token_similarity (l ∷ left) (r ∷ right) =
    let overlap_score =
      200 * overlap (l ∷ left) (r ∷ right) / (length (l ∷ left) + length (r ∷ right)) in
    if length (l ∷ left) == length (r ∷ right)
    then max overlap_score (
        edit_similarity (join (codes " ") (sort_texts (l ∷ left)))
          (join (codes " ") (sort_texts (r ∷ right))))
    else overlap_score

-- The inner loop over the starts of windows: start+width <= len(have).
best_window : ℕ → Text → List Text → ℕ → ℕ
best_window width want [] best = best
best_window width want (h ∷ have) best = best_window width want have (
    if leb width (length (h ∷ have))
    then max best (edit_similarity want (join (codes " ") (take width (h ∷ have))))
    else best)

-- The loop over widths, `rounds` of them from `width` on.
best_width : ℕ → ℕ → List Text → List Text → ℕ → ℕ
unfolding best_window
best_width zero width want have best = best
best_width (suc rounds) width want have best =
    best_width rounds (width + 1) want have
      (if width == length want then best_window width (join (codes " ") want) have best else best)

unfoldable pub best_token_window_similarity : List Text → List Text → ℕ
unfolding best_width
best_token_window_similarity want have =
    best_width (min (length have) (length want + 1) + 1 - max 1 (length want - 1))
      (max 1 (length want - 1)) want have 0

-- A token of `have` and whether it is used.
pub record Slot : Type 0 where
  pub token : Text
  pub used : Bool

-- The loop that finds the best unused token: its similarity, and its index behind `none`.
best_slot : Text → ℕ → List Slot → ℕ → Option ℕ → ℕ × Option ℕ
best_slot wanted i [] best index = (best, index)
best_slot wanted i (h ∷ have) best index =
    let similarity = edit_similarity wanted h.token in
    let better = not h.used && ltb best similarity in
    best_slot wanted (suc i) have (if better then similarity else best)
      (if better then some i else index)

use_slot : Option ℕ → List Slot → List Slot
use_slot none have = have
use_slot (some i) [] = []
use_slot (some zero) (h ∷ have) = record h { used = true } ∷ have
use_slot (some (suc i)) (h ∷ have) = h ∷ use_slot (some i) have

count_matched : List Text → List Slot → ℕ
unfolding best_slot use_slot
count_matched [] have = 0
count_matched (wanted ∷ want) have =
    let found = best_slot wanted 0 have 0 none in
    let hit = leb 80 found.0 in
    (if hit then 1 else 0) + count_matched want (if hit then use_slot found.1 have else have)

abbrev fresh_slot : Text → Slot
fresh_slot t = record { token = t; used = false }

unfoldable pub containment_score : List Text → List Text → ℕ
unfolding count_matched
containment_score [] have = 0
containment_score (w ∷ want) have =
    if leb 85 (best_token_window_similarity (w ∷ want) have)
    then 100
    else 100 * count_matched (w ∷ want) (map fresh_slot have) / length (w ∷ want)

-- absInt of a difference
unfoldable pub abs_diff : ℕ → ℕ → ℕ
abs_diff a b = if ltb a b then b - a else a - b
