-- ===== src/Youtube/Rank/Eligible.antt =====
-- What rankYouTubeCandidate has checked of a candidate that it ranks.
use offbeat.Youtube.Tokens.{
  marker_set, same_markers, contains_any, ineligible_candidate_terms, normalized_text,
  supporting_uploader_only,
}
use offbeat.Youtube.Similarity.{abs_diff, token_similarity}
use offbeat.Prelude.{
  [], ◌≢◌, ◌++◌, ◌&&◌, ◌||◌, ltb, codes, Text, length, true, ◌*◌, ◌/◌, ◌-◌, ◌∷◌, false, List, ◌≡◌,
  ◌≤◌, ℕ,
}
use offbeat.Desired.State.{NamedUri, Track}
use offbeat.Youtube.Strings.{Unicode}
use offbeat.Youtube.Rank.{
  weighted, candidate_version_text, artist_total, candidate_title_identity_tokens, duration_ms_of,
  track_title_identity_tokens, allowed_delta, is_unusable, CandidateRank, YouTubeSearchResult,
  in_title, in_channel, in_uploader,
}

-- The words that rankYouTubeCandidate searches for terms like "karaoke".
abbrev pub ranked_words : Unicode → YouTubeSearchResult → Text
ranked_words U c =
    normalized_text U (c.title ++ (codes " " ++ (c.channel ++ (codes " " ++ c.uploader))))

-- The first artist is named by the title, or by a channel or an uploader that is not only a
-- supporting one such as a topic channel.
abbrev pub NamesFirst : Unicode → YouTubeSearchResult → List NamedUri → Type 0
NamesFirst U c [] = ⊥
NamesFirst U c (a ∷ as') =
    (ltb (in_title U c a) 75
      && (supporting_uploader_only (normalized_text U c.channel) || ltb (in_channel U c a) 75)
      && (supporting_uploader_only (normalized_text U c.uploader) || ltb (in_uploader U c a) 75))
    ≡ false

-- The conditions on a ranked candidate `c`, with its rank `r`.
pub record IsEligible (U : Unicode) (track : Track) (c : YouTubeSearchResult) (r : CandidateRank)
    : Type 0 where
  pub candidate : r.candidate ≡ c
  pub usable : is_unusable c ≡ false
  pub terms : contains_any (ranked_words U c) ineligible_candidate_terms ≡ false
  pub markers :
      same_markers
        (marker_set U track.name)
        (marker_set U (candidate_version_text U c.title track.artists))
      ≡ true
  pub named : track_title_identity_tokens U track.name ≢ []
  pub title_score :
      r.title_score
      ≡ token_similarity
          (track_title_identity_tokens U track.name)
          (candidate_title_identity_tokens U c.title track.artists)
  pub title : 60 ≤ r.title_score
  pub first_artist : NamesFirst U c track.artists
  pub artist_score : r.artist_score ≡ artist_total U c track.artists / length track.artists
  pub artist : 75 ≤ r.artist_score
  pub duration : r.delta_ms ≤ allowed_delta track.duration_ms
  pub delta : r.delta_ms ≡ abs_diff (duration_ms_of c) track.duration_ms
  pub duration_score : r.duration_score ≡ 100 - r.delta_ms * 30 / allowed_delta track.duration_ms
  pub score : r.score ≡ weighted r.title_score r.artist_score r.duration_score

-- What the duration decides.
record IsTimed (track : Track) (c : YouTubeSearchResult) (t a : ℕ) (r : CandidateRank)
    : Type 0 where
  candidate : r.candidate ≡ c
  title : r.title_score ≡ t
  artist : r.artist_score ≡ a
  duration : r.delta_ms ≤ allowed_delta track.duration_ms
  delta : r.delta_ms ≡ abs_diff (duration_ms_of c) track.duration_ms
  duration_score : r.duration_score ≡ 100 - r.delta_ms * 30 / allowed_delta track.duration_ms
  score : r.score ≡ weighted r.title_score r.artist_score r.duration_score

module _ (U : Unicode) (track : Track) (c : YouTubeSearchResult) (r : CandidateRank) where
  -- What the artists and the duration decide.
  record IsMatched (t : ℕ) (artists : List NamedUri) : Type 0 where
    first_artist : NamesFirst U c artists
    artist : 75 ≤ artist_total U c artists / length artists
    timed : IsTimed track c t (artist_total U c artists / length artists) r
