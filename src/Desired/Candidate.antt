-- ===== src/Desired/Candidate.antt =====
-- internal/db/desired_state.go: from a candidate of Spotify state to the wanted state, and its
-- summary. A supported entry without a track makes the code dereference nil: an error here.
pub mod References
pub mod Summary
pub mod Total
use offbeat.Prelude.{
  none, some, text_lt, err, ltb, text_eq, ◌>>=◌, Option, [], if◌then◌else◌, ok, ◌+◌, Result, length,
  ◌∷◌, ℕ, Text, List,
}
use offbeat.Desired.State.{
  Entry, State, CandidatePlaylist, EntryKind, Playlist, supported, unsupported, Track, Candidate,
  CandidateEntry,
}

pub data Panic : Type 0 where
  nil_track : Panic

pub record SpotifySyncSummary : Type 0 where
  pub playlist_count : ℕ
  pub playlist_entry_count : ℕ
  pub liked_songs_entry_count : ℕ
  pub supported_entry_occurrences : ℕ
  pub unsupported_entry_occurrences : ℕ

-- One entry of the loop of candidateEntriesToEntries.
unfoldable pub candidate_entry_to_entry :
    CandidateEntry → EntryKind → Option Track → Result Panic Entry
candidate_entry_to_entry e unsupported t = ok (record {
  position = e.position;
  kind = unsupported;
  track_uri = [];
  source_uri = e.source_uri;
})
candidate_entry_to_entry e supported none = err nil_track
candidate_entry_to_entry e supported (some t) = ok (record {
  position = e.position;
  kind = supported;
  track_uri = t.uri;
  source_uri = e.source_uri;
})

unfoldable pub candidate_entries_to_entries : List CandidateEntry → Result Panic (List Entry)
candidate_entries_to_entries [] = ok []
candidate_entries_to_entries (e ∷ es) = do
  entry ← candidate_entry_to_entry e e.kind e.track
  rest ← candidate_entries_to_entries es
  ok (entry ∷ rest)

-- tracks[uri] = track, in the map that is sorted by URI in the end.
unfoldable pub put_track : Track → List Track → List Track
put_track t [] = t ∷ []
put_track t (x ∷ xs) =
    let rest = x ∷ put_track t xs in
    if text_eq x.uri t.uri then t ∷ xs else if text_lt t.uri x.uri then t ∷ x ∷ xs else rest

unfoldable pub collect_track : EntryKind → Option Track → List Track → Result Panic (List Track)
collect_track unsupported t ts = ok ts
collect_track supported none ts = err nil_track
collect_track supported (some t) ts = ok (put_track t ts)

unfoldable pub collect_tracks : List CandidateEntry → List Track → Result Panic (List Track)
collect_tracks [] ts = ok ts
collect_tracks (e ∷ es) ts = collect_track e.kind e.track ts >>= collect_tracks es

-- sort.Slice by position: equal positions, which the code does not order, stay as they are.
insert_playlist : Playlist → List Playlist → List Playlist
insert_playlist p [] = p ∷ []
insert_playlist p (q ∷ qs) =
    let rest = q ∷ insert_playlist p qs in if ltb q.position p.position then rest else p ∷ q ∷ qs

-- The loop over the playlists.
collect_playlists : List CandidatePlaylist → List Track → Result Panic (List Track)
collect_playlists [] ts = ok ts
collect_playlists (p ∷ ps) ts = collect_tracks p.entries ts >>= collect_playlists ps

state_playlists : List CandidatePlaylist → Result Panic (List Playlist)
unfolding insert_playlist
state_playlists [] = ok []
state_playlists (p ∷ ps) = do
  entries ← candidate_entries_to_entries p.entries
  rest ← state_playlists ps
  ok (
      insert_playlist
        (record { uri = p.uri; name = p.name; position = p.position; entries = entries }) rest)

unfoldable pub state_from_candidate : Candidate → Result Panic State
unfolding collect_playlists state_playlists
state_from_candidate c = do
  liked ← candidate_entries_to_entries c.liked_songs
  playlists ← state_playlists c.playlists
  in_playlists ← collect_playlists c.playlists []
  tracks ← collect_tracks c.liked_songs in_playlists
  ok (record { tracks = tracks; playlists = playlists; liked_songs = liked })

unfoldable pub count_entry_kind : EntryKind → SpotifySyncSummary → SpotifySyncSummary
count_entry_kind supported s = record s {
  supported_entry_occurrences = s.supported_entry_occurrences + 1;
}
count_entry_kind unsupported s = record s {
  unsupported_entry_occurrences = s.unsupported_entry_occurrences + 1;
}

unfoldable pub count_entry_kinds : List CandidateEntry → SpotifySyncSummary → SpotifySyncSummary
count_entry_kinds [] s = s
count_entry_kinds (e ∷ es) s = count_entry_kinds es (count_entry_kind e.kind s)

unfoldable pub summarize_playlists :
    List CandidatePlaylist → SpotifySyncSummary → SpotifySyncSummary
summarize_playlists [] s = s
summarize_playlists (p ∷ ps) s = summarize_playlists ps (
    count_entry_kinds p.entries
      (record s { playlist_entry_count = s.playlist_entry_count + length p.entries }))

unfoldable pub summarize_candidate : Candidate → SpotifySyncSummary
summarize_candidate c = count_entry_kinds c.liked_songs (
    summarize_playlists c.playlists (record {
      playlist_count = length c.playlists;
      playlist_entry_count = 0;
      liked_songs_entry_count = length c.liked_songs;
      supported_entry_occurrences = 0;
      unsupported_entry_occurrences = 0;
    }))
