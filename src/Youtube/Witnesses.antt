-- ===== src/Youtube/Witnesses.antt =====
-- One track and one search result, on ASCII tables, on which the theorems of the selection apply.
use mathlib.Core.List.{reverse, Perm}
use offbeat.Youtube.Similarity.Distance.{edit_distance-lev, lev}
use offbeat.Youtube.Similarity.{
  edit_distance, abs_diff, erase_text, best_token_window_similarity, edit_similarity, overlap,
  containment_score, token_similarity,
}
use offbeat.Youtube.Inspect.Decide.{
  automatic_selection, Clears, report-Accounts, contenders, judged, Accounts, report,
}
use offbeat.Youtube.Tokens.{
  same_token_sequence, remove_marker_phrases, title_segment_tokens, meaningful_tokens,
  supporting_uploader_only, marker_set, same_markers, contains_phrase, contains_any,
  normalized_text,
}
use offbeat.Youtube.Inspect.{
  watch_url, decide, insert_ranked, sort_ranked, survey_ranking, is_seen, manual, survey_one,
  survey, YouTubeQuery, inspect_youtube_candidates_with_policy,
}
use offbeat.Youtube.Rank.{
  artist_total, lacks_primary, allowed_delta, rank_duration, text_contains_artist,
  candidate_version_text, is_youtube_id, is_unusable, candidate_title_identity_tokens,
  track_title_identity_tokens, CandidateRank, YouTubeSearchResult, rank_youtube_candidate,
}
use offbeat.Desired.State.{Track}
use offbeat.Youtube.Strings.{
  sort_texts, replace_all, fields, join, cut, contains, is_one_of, trim_space, Unicode,
}
use offbeat.Prelude.{
  ◌≤◌, refl, ok, text_lt, text_eq, false, ◌≡◌, is_empty, ◌==◌, none, ◌&&◌, ◌||◌, [], leb, ◌+◌, ◌∷◌,
  Bool, List, codes, if◌then◌else◌, ℕ,
}

abbrev between : ℕ → ℕ → ℕ → Bool
between low high c = leb low c && leb c high

abbrev pub ascii : Unicode
ascii = record {
  to_lower = λ c. if between b'A' b'Z' c then c + 32 else c;
  is_letter = λ c. between b'A' b'Z' c || between b'a' b'z' c;
  is_digit = between b'0' b'9';
  is_space = λ c. (c == 32) || between 9 13 c;
  is_control = λ c. between 0 31 c || (c == 127);
  is_format = λ c. false;
}

abbrev pub song : Track
song = record {
  uri = codes "spotify:track:1";
  name = codes "Song";
  artists = record { uri = codes "spotify:artist:1"; name = codes "Artist" } ∷ [];
  album = record { uri = codes "spotify:album:1"; name = codes "Album" };
  duration_ms = 200000;
  album_artist = [];
  track_number = none;
  disc_number = none;
  release_date = [];
  artwork_url = [];
}

abbrev pub song_video : YouTubeSearchResult
song_video = record {
  id = codes "captured001";
  title = codes "Song";
  channel = codes "Artist";
  uploader = codes "Artist";
  duration_us = 201000000;
  availability = [];
  live_status = [];
}

abbrev pub song_query : YouTubeQuery
song_query = record { text = codes "Artist - Song"; duration_ms = 200000; version_markers = [] }

abbrev song_rank : CandidateRank
song_rank = record {
  candidate = song_video;
  score = 99;
  delta_ms = 1000;
  title_score = 100;
  artist_score = 100;
  duration_score = 98;
}

ranked_song : rank_youtube_candidate ascii song song_video ≡ ok song_rank
unfolding rank_youtube_candidate normalized_text trim_space track_title_identity_tokens
    token_similarity candidate_title_identity_tokens is_unusable is_youtube_id is_one_of
    contains_any contains_phrase contains same_markers marker_set candidate_version_text
    text_contains_artist rank_duration allowed_delta lacks_primary artist_total
    supporting_uploader_only cut join meaningful_tokens title_segment_tokens remove_marker_phrases
    fields replace_all containment_score overlap edit_similarity best_token_window_similarity
    text_eq text_lt sort_texts same_token_sequence erase_text abs_diff edit_distance
ranked_song = refl

selected_song :
    is_empty
      (report ascii song song_query (song_video ∷ []) (codes "now") manual).decision.selected_url
    ≡ false
unfolding inspect_youtube_candidates_with_policy survey survey_one is_seen survey_ranking
    sort_ranked insert_ranked decide
selected_song = rw ranked_song refl

automatic_selection_example :
    (w : CandidateRank) × (others : List CandidateRank) × Perm
      (w ∷ others)
      (contenders ascii song song_query (song_video ∷ []) (codes "now") manual)
    × ((report ascii song song_query (song_video ∷ []) (codes "now") manual).decision.selected_url
        ≡ watch_url w.candidate.id)
    × (82 ≤ w.score)
    × Clears manual w others
automatic_selection_example =
    automatic_selection ascii song song_query (song_video ∷ []) (codes "now") manual selected_song

report-Accounts_example :
    Accounts
      (report ascii song song_query (song_video ∷ []) (codes "now") manual)
      (judged ascii song song_query (song_video ∷ []) (codes "now") manual)
      (contenders ascii song song_query (song_video ∷ []) (codes "now") manual)
report-Accounts_example =
    report-Accounts ascii song song_query (song_video ∷ []) (codes "now") manual

edit_distance-lev_example :
    edit_distance (codes "kitten") (codes "sitting")
    ≡ lev (reverse (codes "kitten")) (reverse (codes "sitting"))
edit_distance-lev_example = edit_distance-lev (codes "kitten") (codes "sitting")
