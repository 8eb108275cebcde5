-- ===== src/Desired/Witnesses.antt =====
-- A candidate with one playlist, and a track that also stands among the liked songs.
use offbeat.Desired.Candidate.Summary.{summarize_candidate-kinds, occurrences, in_playlists}
use offbeat.Desired.Candidate.References.{state_from_candidate-Refers, AllRefer, sorted_by_uri}
use offbeat.Desired.Candidate.{
  put_track, collect_track, collect_tracks, candidate_entry_to_entry, candidate_entries_to_entries,
  summarize_candidate, state_from_candidate,
}
use offbeat.Prelude.{
  refl, ok, text_lt, text_eq, All, true, [], some, ◌∷◌, ◌≡◌, Text, codes, none, ℕ,
}
use offbeat.Desired.State.{Entry, State, supported, unsupported, Track, Candidate, CandidateEntry}

abbrev track_at : Text → Track
track_at uri = record {
  uri = uri;
  name = codes "Song";
  artists = [];
  album = record { uri = codes "spotify:album:1"; name = codes "Album" };
  duration_ms = 200000;
  album_artist = [];
  track_number = none;
  disc_number = none;
  release_date = [];
  artwork_url = [];
}

abbrev entry_at : ℕ → Text → CandidateEntry
entry_at position uri = record {
  position = position;
  kind = supported;
  track = some (track_at uri);
  source_uri = uri;
}

abbrev local_entry : CandidateEntry
local_entry = record { position = 2; kind = unsupported; track = none; source_uri = codes "local" }

abbrev small_candidate : Candidate
small_candidate = record {
  playlists =
      record {
        uri = codes "spotify:playlist:1";
        name = codes "List";
        position = 0;
        entries = entry_at 0 (codes "b") ∷ entry_at 1 (codes "a") ∷ local_entry ∷ [];
      }
      ∷ [];
  liked_songs = entry_at 0 (codes "b") ∷ [];
}

abbrev listed : ℕ → Text → Entry
listed position uri = record {
  position = position;
  kind = supported;
  track_uri = uri;
  source_uri = uri;
}

abbrev small_state : State
small_state = record {
  tracks = track_at (codes "a") ∷ track_at (codes "b") ∷ [];
  playlists =
      record {
        uri = codes "spotify:playlist:1";
        name = codes "List";
        position = 0;
        entries =
            listed 0 (codes "b")
            ∷ listed 1 (codes "a")
            ∷ record {
              position = 2;
              kind = unsupported;
              track_uri = [];
              source_uri = codes "local";
            }
            ∷ [];
      }
      ∷ [];
  liked_songs = listed 0 (codes "b") ∷ [];
}

small-state : state_from_candidate small_candidate ≡ ok small_state
unfolding state_from_candidate candidate_entries_to_entries candidate_entry_to_entry collect_tracks
    collect_track put_track text_eq text_lt
small-state = refl

state_from_candidate-Refers_example :
    (sorted_by_uri small_state.tracks ≡ true)
    × All (λ p. AllRefer small_state.tracks p.entries) small_candidate.playlists
    × AllRefer small_state.tracks small_candidate.liked_songs
state_from_candidate-Refers_example =
    state_from_candidate-Refers small_candidate small_state small-state

summarize_candidate-kinds_example :
    let s = summarize_candidate small_candidate in
    (s.playlist_count ≡ 1)
    × (s.playlist_entry_count ≡ 3)
    × (s.liked_songs_entry_count ≡ 1)
    × (s.supported_entry_occurrences ≡ 3)
    × (s.unsupported_entry_occurrences ≡ 1)
unfolding in_playlists occurrences
summarize_candidate-kinds_example = summarize_candidate-kinds small_candidate
