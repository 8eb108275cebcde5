-- ===== src/Ipc/Validate.antt =====
-- internal/ipc/acquisition.go: the checks of single arguments. The errors' texts are left out: a
-- check is true where the code returns nil. net/url is a parameter.
pub mod Mapping
use offbeat.Prelude.{
  ltb, none, ◌+◌, [], drop, is_empty, not, some, ◌&&◌, ◌==◌, ◌∷◌, Option, byte_len, codes, false,
  leb, true, ◌||◌, ℕ, Text, Bool,
}
use offbeat.Youtube.Strings.{has_prefix, Unicode}

-- What ValidateAcquisitionSource reads of a *url.URL.
pub record Url : Type 0 where
  pub scheme : Text
  pub has_user : Bool
  pub fragment : Text
  pub host : Text
  pub hostname : Text

abbrev is_id_char : ℕ → Bool
is_id_char c =
    (leb b'a' c && leb c b'z') || (leb b'A' c && leb c b'Z') || (leb b'0' c && leb c b'9')

abbrev is_video_char : ℕ → Bool
is_video_char c = is_id_char c || (c == b'_') || (c == b'-')

abbrev all_runes : (ℕ → Bool) → Text → Bool
all_runes p [] = true
all_runes p (c ∷ s) = p c && all_runes p s

abbrev any_rune : (ℕ → Bool) → Text → Bool
any_rune p [] = false
any_rune p (c ∷ s) = p c || any_rune p s

unfoldable pub validate_youtube_video_id : Text → Bool
validate_youtube_video_id id = (byte_len id == 11) && all_runes is_video_char id

abbrev pub track_prefix : Text
track_prefix = codes "spotify:track:"

unfoldable pub validate_manual_mapping_track_uri : Text → Bool
unfolding has_prefix
validate_manual_mapping_track_uri uri =
    has_prefix track_prefix uri
    && not (byte_len (drop 14 uri) == 0)
    && not (ltb 22 (byte_len (drop 14 uri)))
    && all_runes is_id_char (drop 14 uri)

-- strings.EqualFold of an ASCII text with one of small letters
unfoldable pub equal_fold : Text → Text → Bool
equal_fold [] [] = true
equal_fold [] (d ∷ t) = false
equal_fold (c ∷ s) [] = false
equal_fold (c ∷ s) (d ∷ t) = ((c == d) || (c + 32 == d)) && equal_fold s t

module _ (U : Unicode) where
  unfoldable pub has_whitespace_or_control : Text → Bool
  has_whitespace_or_control = any_rune (λ r. U.is_space r || U.is_control r)

  unfoldable pub validate_acquisition_track_uri : Text → Bool
  unfolding has_prefix has_whitespace_or_control
  validate_acquisition_track_uri uri =
      has_prefix track_prefix uri
      && not (is_empty (drop 14 uri))
      && not (any_rune (λ c. c == b':') (drop 14 uri))
      && not (has_whitespace_or_control uri)

  abbrev accepts_url : Option Url → Bool
  accepts_url none = false
  accepts_url (some u) =
      not u.has_user
      && is_empty u.fragment
      && not (is_empty u.host)
      && not (is_empty u.hostname)
      && (equal_fold u.scheme (codes "http") || equal_fold u.scheme (codes "https"))

  -- `parse` is url.ParseRequestURI, `none` for its errors.
  unfoldable pub validate_acquisition_source : (Text → Option Url) → Text → Bool
  unfolding has_whitespace_or_control equal_fold
  validate_acquisition_source parse raw =
      not (is_empty raw)
      && not (any_rune (λ c. c == b'#') raw)
      && not (has_whitespace_or_control raw)
      && accepts_url (parse raw)
