-- ===== src/Youtube/Tokens.antt =====
-- youtube.go: normalized text, tokens and version markers. A set of markers is the list of its
-- names in the order of the table `versionMarkers`.
use offbeat.Prelude.{
  is_empty, text_eq, [], if◌then◌else◌, map, ◌&&◌, ◌++◌, codes, false, length, true, ◌==◌, ◌||◌,
  ◌∷◌, Bool, List, String, Text, ℕ,
}
use offbeat.Youtube.Strings.{is_one_of, replace_all, fields, trim_space, Unicode, contains}

abbrev generic_tokens : List Text
generic_tokens =
    codes "official"
    ∷ codes "audio"
    ∷ codes "video"
    ∷ codes "lyrics"
    ∷ codes "lyric"
    ∷ codes "visualizer"
    ∷ codes "hd"
    ∷ codes "hq"
    ∷ codes "topic"
    ∷ codes "feat"
    ∷ codes "featuring"
    ∷ codes "ft"
    ∷ []

pub record Marker : Type 0 where
  pub name : Text
  pub terms : List Text

abbrev alone : String → Marker
alone s = record { name = codes s; terms = codes s ∷ [] }

abbrev pub version_markers : List Marker
version_markers =
    alone "live"
    ∷ alone "acoustic"
    ∷ alone "instrumental"
    ∷ alone "karaoke"
    ∷ record { name = codes "remix"; terms = codes "remix" ∷ codes "mix" ∷ [] }
    ∷ record { name = codes "remaster"; terms = codes "remaster" ∷ codes "remastered" ∷ [] }
    ∷ alone "cover"
    ∷ alone "slowed"
    ∷ alone "sped up"
    ∷ alone "reverb"
    ∷ record {
      name = codes "bass boosted";
      terms = codes "bass boosted" ∷ codes "bass boost" ∷ codes "bassboosted" ∷ [];
    }
    ∷ alone "8d audio"
    ∷ record { name = codes "acapella"; terms = codes "acapella" ∷ codes "a cappella" ∷ [] }
    ∷ alone "nightcore"
    ∷ record {
      name = codes "edit";
      terms = codes "radio edit" ∷ codes "single edit" ∷ codes "edit" ∷ [];
    }
    ∷ alone "extended"
    ∷ alone "mono"
    ∷ alone "stereo"
    ∷ alone "demo"
    ∷ []

abbrev pub ineligible_candidate_terms : List Text
ineligible_candidate_terms = codes "tribute" ∷ codes "reaction" ∷ codes "tutorial" ∷ []

abbrev pub spaced : Text → Text
spaced s = codes " " ++ (s ++ codes " ")

unfoldable pub contains_phrase : Text → Text → Bool
contains_phrase text phrase =
    if is_empty phrase then false else contains (spaced text) (spaced phrase)

unfoldable pub contains_any : Text → List Text → Bool
contains_any text [] = false
contains_any text (t ∷ ts) = contains_phrase text t || contains_any text ts

-- supportingUploaderOnly
unfoldable pub supporting_uploader_only : Text → Bool
supporting_uploader_only s =
    contains_any s
      (codes "topic" ∷ codes "records" ∷ codes "recordings" ∷ codes "record label" ∷ [])

markers_in : Text → List Marker → List Text
markers_in text [] = []
markers_in text (m ∷ ms) =
    let rest = markers_in text ms in if contains_any text m.terms then m.name ∷ rest else rest

all_one_of : List Text → List Text → Bool
all_one_of [] ts = true
all_one_of (s ∷ ss) ts = is_one_of s ts && all_one_of ss ts

unfoldable pub same_markers : List Text → List Text → Bool
unfolding all_one_of
same_markers a b = (length a == length b) && all_one_of a b

pub drop_generic : List Text → List Text
drop_generic [] = []
drop_generic (t ∷ ts) =
    let rest = drop_generic ts in if is_one_of t generic_tokens then rest else t ∷ rest

abbrev featuring : List Text
featuring = codes "feat" ∷ codes "featuring" ∷ codes "ft" ∷ []

until_featuring : List Text → List Text
until_featuring [] = []
until_featuring (t ∷ ts) =
    let rest = t ∷ until_featuring ts in if is_one_of t featuring then [] else rest

unfoldable pub same_token_sequence : List Text → List Text → Bool
same_token_sequence [] [] = true
same_token_sequence [] (b ∷ bs) = false
same_token_sequence (a ∷ as') [] = false
same_token_sequence (a ∷ as') (b ∷ bs) = text_eq a b && same_token_sequence as' bs

module _ (U : Unicode) where
  -- What one rune adds to the text, and whether a space came last.
  abbrev is_word : ℕ → Bool
  is_word r = U.is_letter r || U.is_digit r

  abbrev is_apostrophe : ℕ → Bool
  is_apostrophe r = (r == 0x27) || (r == 0x2019)

  normalize_from : Bool → Text → Text
  normalize_from space [] = []
  normalize_from space (r ∷ s) =
      (if is_word r
        then r ∷ []
        else if is_apostrophe r
        then []
        else if space
        then []
        else codes " ")
      ++ normalize_from (if is_word r then false else if is_apostrophe r then space else true) s

  unfoldable pub normalized_text : Text → Text
  unfolding normalize_from
  normalized_text value = trim_space U (normalize_from true (map U.to_lower value))

  unfoldable pub meaningful_tokens : Text → List Text
  unfolding drop_generic
  meaningful_tokens value = drop_generic (fields U (normalized_text value))

  unfoldable pub title_segment_tokens : Text → List Text
  unfolding drop_generic until_featuring
  title_segment_tokens value = drop_generic (until_featuring (fields U (normalized_text value)))

  unfoldable pub marker_set : Text → List Text
  unfolding markers_in
  marker_set value = markers_in (normalized_text value) version_markers

  remove_terms : Text → List Text → Text
  remove_terms s [] = s
  remove_terms s (t ∷ ts) =
      remove_terms (trim_space U (replace_all (spaced s) (spaced t) (codes " "))) ts

  remove_markers : Text → List Marker → Text
  unfolding remove_terms
  remove_markers s [] = s
  remove_markers s (m ∷ ms) = remove_markers (remove_terms s m.terms) ms

  unfoldable pub remove_marker_phrases : Text → Text
  unfolding remove_markers
  remove_marker_phrases value = remove_markers (normalized_text value) version_markers
