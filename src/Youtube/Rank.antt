-- ===== src/Youtube/Rank.antt =====
-- youtube.go: rankYouTubeCandidate and the text that it compares. A duration is in microseconds,
-- so `int(candidate.Duration*1000+0.5)` rounds it to milliseconds.
pub mod Eligible
use offbeat.Youtube.Similarity.{erase_text, token_similarity, abs_diff, containment_score}
use offbeat.Youtube.Tokens.{
  marker_set, same_markers, ineligible_candidate_terms, contains_any, same_token_sequence,
  supporting_uploader_only, remove_marker_phrases, meaningful_tokens, title_segment_tokens,
  normalized_text,
}
use offbeat.Prelude.{
  drop, take, is_empty, ok, text_eq, [], if◌then◌else◌, max, none, ◌&&◌, ◌-◌, ◌/◌, ◌==◌, ◌||◌,
  Option, Result, codes, err, false, leb, length, ltb, not, some, true, ◌*◌, ◌++◌, ◌+◌, ◌∷◌, Bool,
  List, Text, ℕ,
}
use offbeat.Desired.State.{NamedUri, Track}
use offbeat.Youtube.Strings.{cut, is_one_of, Unicode, join, fields}

pub record YouTubeSearchResult : Type 0 where
  pub id : Text
  pub title : Text
  pub channel : Text
  pub uploader : Text
  pub duration_us : ℕ
  pub availability : Text
  pub live_status : Text

pub record CandidateRank : Type 0 where
  pub candidate : YouTubeSearchResult
  pub score : ℕ
  pub delta_ms : ℕ
  pub title_score : ℕ
  pub artist_score : ℕ
  pub duration_score : ℕ

pub data CandidateRejection : Type 0 where
  metadata title artist version duration : CandidateRejection

abbrev pub Ranking : Type 0
Ranking = Result CandidateRejection CandidateRank

abbrev pub youtube_title_floor : ℕ
youtube_title_floor = 60

abbrev pub youtube_artist_floor : ℕ
youtube_artist_floor = 75

-- youtubeIDPattern
abbrev is_id_char : ℕ → Bool
is_id_char c =
    (leb b'A' c && leb c b'Z')
    || (leb b'a' c && leb c b'z')
    || (leb b'0' c && leb c b'9')
    || (c == b'_')
    || (c == b'-')

abbrev all_id_chars : Text → Bool
all_id_chars [] = true
all_id_chars (c ∷ s) = is_id_char c && all_id_chars s

unfoldable pub is_youtube_id : Text → Bool
is_youtube_id id = (length id == 11) && all_id_chars id

-- The first two tests of rankYouTubeCandidate.
unfoldable pub is_unusable : YouTubeSearchResult → Bool
is_unusable c =
    not (is_youtube_id c.id)
    || is_empty c.title
    || (c.duration_us == 0)
    || is_one_of c.live_status (codes "is_live" ∷ codes "is_upcoming" ∷ [])
    || is_one_of c.availability
        (codes "private" ∷ codes "premium_only" ∷ codes "subscriber_only" ∷ [])

abbrev pub duration_ms_of : YouTubeSearchResult → ℕ
duration_ms_of c = (c.duration_us + 500) / 1000

-- The tolerance, between 12 and 20 seconds.
unfoldable pub allowed_delta : ℕ → ℕ
allowed_delta duration_ms =
    let allowed = duration_ms * 5 / 100 in
    let floored = if ltb allowed 12000 then 12000 else allowed in
    if ltb 20000 floored then 20000 else floored

-- int division of the weighted sum
abbrev pub weighted : ℕ → ℕ → ℕ → ℕ
weighted title_score artist_score duration_score =
    (title_score * 60 + artist_score * 25 + duration_score * 15) / 100

-- The end of rankYouTubeCandidate, from the duration on.
unfoldable pub rank_duration : Track → YouTubeSearchResult → ℕ → ℕ → Ranking
rank_duration track c title_score artist_score =
    let delta = abs_diff (duration_ms_of c) track.duration_ms in
    let allowed = allowed_delta track.duration_ms in
    let duration_score = 100 - delta * 30 / allowed in
    if ltb allowed delta
    then err duration
    else ok (record {
      candidate = c;
      score = weighted title_score artist_score duration_score;
      delta_ms = delta;
      title_score = title_score;
      artist_score = artist_score;
      duration_score = duration_score;
    })

separators : List Text
separators = codes " - " ∷ codes " – " ∷ codes " — " ∷ []

-- removeArtistTokens, over the multiset of tokens to remove
remove_tokens : List Text → List Text → List Text
remove_tokens [] remove = []
remove_tokens (f ∷ fs) remove =
    (if is_one_of f remove then [] else f ∷ []) ++ remove_tokens fs (erase_text f remove)

module _ (U : Unicode) where
  artist_tokens : List NamedUri → List Text
  artist_tokens [] = []
  artist_tokens (a ∷ as') = meaningful_tokens U a.name ++ artist_tokens as'

  contains_artist : List Text → List NamedUri → Bool
  contains_artist tokens [] = false
  contains_artist tokens (a ∷ as') =
      leb youtube_artist_floor (containment_score (meaningful_tokens U a.name) tokens)
      || contains_artist tokens as'

  unfoldable pub text_contains_artist : Text → List NamedUri → Bool
  unfolding contains_artist
  text_contains_artist value artists = contains_artist (meaningful_tokens U value) artists

  -- The first separator that stands behind an artist: the text before and behind it.
  cut_artist : Text → List NamedUri → List Text → Option (Text × Text)
  cut_artist value artists [] = none
  cut_artist value artists (sep ∷ seps) =
      let rest = cut_artist value artists seps in
      elim (cut value sep) [
        | none ↦ rest
        | some (before, behind) ↦
            if text_contains_artist before artists then some (before, behind) else rest
      ]

  unfoldable pub candidate_version_text : Text → List NamedUri → Text
  unfolding cut_artist separators remove_tokens artist_tokens
  candidate_version_text value artists = elim (cut_artist value artists separators) [
    | none ↦ value
    | some (before, behind) ↦
        join (codes " ")
          (remove_tokens (fields U (normalized_text U before)) (artist_tokens artists))
        ++ (codes " " ++ behind)
  ]

  strip_artists : List Text → List NamedUri → List Text
  strip_artists tokens [] = tokens
  strip_artists tokens (a ∷ as') =
      let artist = meaningful_tokens U a.name in
      strip_artists
        (if leb (length artist) (length tokens)
            && same_token_sequence (take (length artist) tokens) artist
          then drop (length artist) tokens
          else tokens)
        as'

  abbrev unless_none_left : List Text → List Text → List Text
  unless_none_left original [] = original
  unless_none_left original (t ∷ ts) = t ∷ ts

  unfoldable pub candidate_title_identity_tokens : Text → List NamedUri → List Text
  unfolding cut_artist separators strip_artists
  candidate_title_identity_tokens value artists = elim (cut_artist value artists separators) [
    | some (before, behind) ↦ title_segment_tokens U (remove_marker_phrases U behind)
    | none ↦
        let original = title_segment_tokens U (remove_marker_phrases U value) in
        unless_none_left original (strip_artists original artists)
  ]

  unfoldable pub track_title_identity_tokens : Text → List Text
  track_title_identity_tokens value = title_segment_tokens U (remove_marker_phrases U value)

  -- One artist against the title, the channel and the uploader.
  abbrev in_title : YouTubeSearchResult → NamedUri → ℕ
  in_title c a = containment_score (meaningful_tokens U a.name) (meaningful_tokens U c.title)

  abbrev in_channel : YouTubeSearchResult → NamedUri → ℕ
  in_channel c a =
      containment_score (meaningful_tokens U a.name)
        (meaningful_tokens U (normalized_text U c.channel))

  abbrev in_uploader : YouTubeSearchResult → NamedUri → ℕ
  in_uploader c a =
      containment_score (meaningful_tokens U a.name)
        (meaningful_tokens U (normalized_text U c.uploader))

  -- The test that only the first artist must pass.
  unfoldable pub lacks_primary : YouTubeSearchResult → NamedUri → Bool
  lacks_primary c a =
      ltb (in_title c a) youtube_artist_floor
      && (supporting_uploader_only (normalized_text U c.channel)
          || ltb (in_channel c a) youtube_artist_floor)
      && (supporting_uploader_only (normalized_text U c.uploader)
          || ltb (in_uploader c a) youtube_artist_floor)

  unfoldable pub artist_total : YouTubeSearchResult → List NamedUri → ℕ
  artist_total c [] = 0
  artist_total c (a ∷ as') =
      max (max (in_title c a) (in_channel c a)) (in_uploader c a) + artist_total c as'

  rank_artists : Track → YouTubeSearchResult → ℕ → List NamedUri → Ranking
  rank_artists track c title_score [] = err metadata
  rank_artists track c title_score (a ∷ as') =
      let artist_score = artist_total c (a ∷ as') / length (a ∷ as') in
      if lacks_primary c a
      then err artist
      else if ltb artist_score youtube_artist_floor
      then err artist
      else rank_duration track c title_score artist_score

  unfoldable pub rank_youtube_candidate : Track → YouTubeSearchResult → Ranking
  unfolding rank_artists
  rank_youtube_candidate track c =
      let text =
        normalized_text U (c.title ++ (codes " " ++ (c.channel ++ (codes " " ++ c.uploader)))) in
      let title_tokens = track_title_identity_tokens track.name in
      let title_score =
        token_similarity title_tokens (candidate_title_identity_tokens c.title track.artists) in
      if is_unusable c
      then err metadata
      else if contains_any text ineligible_candidate_terms
      then err metadata
      else if not (
          same_markers (marker_set U track.name)
            (marker_set U (candidate_version_text c.title track.artists)))
      then err version
      else if (length title_tokens == 0) || ltb title_score youtube_title_floor
      then err title
      else rank_artists track c title_score track.artists
