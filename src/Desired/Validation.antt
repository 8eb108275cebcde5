-- ===== src/Desired/Validation.antt =====
-- internal/desired/validation.go: the bounds of a track's data. A text is valid UTF-8; net/url is a
-- parameter. The code's numbers may be negative: it refuses them as it refuses 0.
use offbeat.Prelude.{
  Text, Bool, Option, List, ℕ, true, false, none, some, not, [], ◌∷◌, ◌+◌, ◌*◌, ◌-◌, ◌%◌, ◌==◌,
  ◌&&◌, ◌||◌, if◌then◌else◌, text_eq, text_lt, byte_len, is_empty, length, take, drop, ltb, leb,
  codes,
}
use offbeat.Desired.State.{Track, NamedUri}

abbrev pub max_artists : ℕ
max_artists = 64

unfoldable pub has_control : Text → Bool
has_control [] = false
has_control (r ∷ s) = ltb r 0x20 || (r == 0x7f) || has_control s

unfoldable pub valid_text : Text → ℕ → Bool → Bool
unfolding has_control
valid_text s most required =
    not ((required && is_empty s) || ltb most (byte_len s)) && not (has_control s)

unfoldable pub valid_number : Option ℕ → Bool
valid_number none = true
valid_number (some n) = ltb 0 n && leb n 9999

abbrev is_digit : ℕ → Bool
is_digit c = leb b'0' c && leb c b'9'

-- releaseDatePattern
abbrev matches_date : Text → Bool
matches_date (y1 ∷ y2 ∷ y3 ∷ y4 ∷ s) =
    is_digit y1 && is_digit y2 && is_digit y3 && is_digit y4 && matches_months s
  where
    matches_days : Text → Bool
    matches_days [] = true
    matches_days (dash ∷ d1 ∷ d2 ∷ []) = (dash == b'-') && is_digit d1 && is_digit d2
    matches_days _ = false

    matches_months : Text → Bool
    matches_months [] = true
    matches_months (dash ∷ m1 ∷ m2 ∷ s) =
        (dash == b'-') && is_digit m1 && is_digit m2 && matches_days s
    matches_months _ = false
matches_date _ = false

unfoldable pub number_of : ℕ → Text → ℕ
number_of n [] = n
number_of n (c ∷ s) = number_of (n * 10 + (c - b'0')) s

abbrev is_leap : ℕ → Bool
is_leap y = ((y % 4) == 0) && (not ((y % 100) == 0) || ((y % 400) == 0))

unfoldable pub days_in : ℕ → ℕ → ℕ
days_in y m =
    if m == 2
    then (if is_leap y then 29 else 28)
    else if (m == 4) || (m == 6) || (m == 9) || (m == 11)
    then 30
    else 31

-- time.Parse of a text of the pattern's longest form
unfoldable pub valid_calendar_day : Text → Bool
unfolding number_of days_in
valid_calendar_day s =
    let year = number_of 0 (take 4 s) in
    let month = number_of 0 (take 2 (drop 5 s)) in
    let day = number_of 0 (take 2 (drop 8 s)) in
    leb 1 month && leb month 12 && leb 1 day && leb day (days_in year month)

abbrev is_between : Text → Text → Text → Bool
is_between low high s = not (text_lt s low || text_lt high s)

unfoldable pub valid_date : Text → Bool
unfolding valid_calendar_day
valid_date s =
    is_empty s
    || (matches_date s
        && (ltb (length s) 7 || is_between (codes "01") (codes "12") (take 2 (drop 5 s)))
        && (not (length s == 10)
            || (is_between (codes "01") (codes "31") (take 2 (drop 8 s)) && valid_calendar_day s)))

-- What validArtworkURL reads of a *url.URL.
pub record ArtworkUrl : Type 0 where
  pub scheme : Text
  pub hostname : Text
  pub has_user : Bool
  pub fragment : Text
  pub opaque_part : Text
  pub port : Text

abbrev is_https : Option ArtworkUrl → Bool
is_https none = false
is_https (some u) =
    text_eq u.scheme (codes "https")
    && not (is_empty u.hostname)
    && not u.has_user
    && is_empty u.fragment
    && is_empty u.opaque_part
    && is_empty u.port

abbrev contains_any : Text → Bool
contains_any [] = false
contains_any (c ∷ s) = (c == b' ') || (c == b'\\') || contains_any s

unfoldable pub valid_artists : List NamedUri → Bool
unfolding valid_text
valid_artists [] = true
valid_artists (a ∷ as') =
    valid_text a.uri 512 true && valid_text a.name 1024 true && valid_artists as'

module _ (parse_url : Text → Option ArtworkUrl) where
  unfoldable pub valid_artwork_url : Text → Bool
  unfolding valid_text
  valid_artwork_url s =
      is_empty s || (valid_text s 2048 true && not (contains_any s) && is_https (parse_url s))

  -- ValidateTrack: true where it returns nil.
  unfoldable pub validate_track : Track → Bool
  unfolding valid_text valid_number valid_date valid_artwork_url valid_artists
  validate_track t =
      valid_text t.uri 512 true
      && valid_text t.name 1024 true
      && valid_text t.album.uri 512 true
      && valid_text t.album.name 1024 true
      && ltb 0 (length t.artists)
      && leb (length t.artists) max_artists
      && ltb 0 t.duration_ms
      && leb t.duration_ms (24 * 60 * 60 * 1000)
      && valid_artists t.artists
      && valid_text t.album_artist 1024 false
      && valid_number t.track_number
      && valid_number t.disc_number
      && valid_date t.release_date
      && valid_artwork_url t.artwork_url
