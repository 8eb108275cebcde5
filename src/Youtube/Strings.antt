-- ===== src/Youtube/Strings.antt =====
-- What youtube.go uses of Go's packages strings and unicode, over texts as lists of runes.
use offbeat.Prelude.{
  ℕ, ◌-◌, Text, is_empty, Bool, true, false, ◌&&◌, ◌||◌, Option, none, some, List, [], ◌∷◌, ◌++◌,
  ◌==◌, if◌then◌else◌, length, drop, text_eq, text_lt,
}

-- The tables of package unicode.
pub record Unicode : Type 0 where
  pub to_lower : ℕ → ℕ
  pub is_letter : ℕ → Bool
  pub is_digit : ℕ → Bool
  pub is_space : ℕ → Bool
  pub is_control : ℕ → Bool
  pub is_format : ℕ → Bool

unfoldable pub has_prefix : Text → Text → Bool
has_prefix [] s = true
has_prefix (c ∷ p) [] = false
has_prefix (c ∷ p) (d ∷ s) = (c == d) && has_prefix p s

-- strings.Contains
unfoldable pub contains : Text → Text → Bool
unfolding has_prefix
contains [] p = is_empty p
contains (c ∷ s) p = has_prefix p (c ∷ s) || contains s p

abbrev extend : ℕ → Option (Text × Text) → Option (Text × Text)
extend c none = none
extend c (some (a, b)) = some (c ∷ a, b)

-- strings.Cut, for a separator that is not empty
unfoldable pub cut : Text → Text → Option (Text × Text)
unfolding has_prefix
cut [] sep = none
cut (c ∷ s) sep =
    let rest = extend c (cut s sep) in
    if has_prefix sep (c ∷ s) then some ([], drop (length sep) (c ∷ s)) else rest

-- strings.ReplaceAll, for an `old` that is not empty; `skip` runes of a match are still to pass.
replace_from : ℕ → Text → Text → Text → Text
unfolding has_prefix
replace_from skip old new [] = []
replace_from skip old new (c ∷ s) =
    let hit = (skip == 0) && has_prefix old (c ∷ s) in
    (if hit then new else if skip == 0 then c ∷ [] else [])
    ++ replace_from (if hit then length old - 1 else skip - 1) old new s

unfoldable pub replace_all : Text → Text → Text → Text
unfolding replace_from
replace_all s old new = replace_from 0 old new s

unfoldable pub join : Text → List Text → Text
join sep [] = []
join sep (t ∷ []) = t
join sep (t ∷ u ∷ ts) = t ++ (sep ++ join sep (u ∷ ts))

unfoldable pub is_one_of : Text → List Text → Bool
is_one_of t [] = false
is_one_of t (u ∷ us) = text_eq t u || is_one_of t us

insert_text : Text → List Text → List Text
insert_text t [] = t ∷ []
insert_text t (u ∷ us) = let rest = u ∷ insert_text t us in if text_lt u t then rest else t ∷ u ∷ us

-- sort.Strings
unfoldable pub sort_texts : List Text → List Text
unfolding insert_text
sort_texts [] = []
sort_texts (t ∷ ts) = insert_text t (sort_texts ts)

module _ (U : Unicode) where
  trim_left : Text → Text
  trim_left [] = []
  trim_left (c ∷ s) = let rest = trim_left s in if U.is_space c then rest else c ∷ s

  abbrev drop_end : ℕ → Text → Text
  drop_end c [] = if U.is_space c then [] else c ∷ []
  drop_end c (d ∷ s) = c ∷ d ∷ s

  trim_right : Text → Text
  trim_right [] = []
  trim_right (c ∷ s) = drop_end c (trim_right s)

  unfoldable pub trim_space : Text → Text
  unfolding trim_left trim_right
  trim_space s = trim_right (trim_left s)

  abbrev add_field : Text → List Text → List Text
  add_field [] fs = fs
  add_field (c ∷ s) fs = (c ∷ s) ∷ fs

  fields_from : Text → Text → List Text
  fields_from field [] = add_field field []
  fields_from field (c ∷ s) =
      let ended = add_field field (fields_from [] s) in
      let longer = fields_from (field ++ c ∷ []) s in if U.is_space c then ended else longer

  -- strings.Fields
  unfoldable pub fields : Text → List Text
  unfolding fields_from
  fields s = fields_from [] s
