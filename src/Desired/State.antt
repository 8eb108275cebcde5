-- ===== src/Desired/State.antt =====
-- The values of internal/desired/state.go. Numbers are Go ints that the code never lets fall below
-- zero; a timestamp is its text.
use offbeat.Prelude.{ℕ, Text, Option, List}

pub data EntryKind : Type 0 where
  supported unsupported : EntryKind

pub record NamedUri : Type 0 where
  pub uri : Text
  pub name : Text

pub record Track : Type 0 where
  pub uri : Text
  pub name : Text
  pub artists : List NamedUri
  pub album : NamedUri
  pub duration_ms : ℕ
  pub album_artist : Text
  pub track_number : Option ℕ
  pub disc_number : Option ℕ
  pub release_date : Text
  pub artwork_url : Text

pub record CandidateEntry : Type 0 where
  pub position : ℕ
  pub kind : EntryKind
  pub track : Option Track
  pub source_uri : Text

pub record CandidatePlaylist : Type 0 where
  pub uri : Text
  pub name : Text
  pub position : ℕ
  pub entries : List CandidateEntry

pub record Candidate : Type 0 where
  pub playlists : List CandidatePlaylist
  pub liked_songs : List CandidateEntry

pub record Entry : Type 0 where
  pub position : ℕ
  pub kind : EntryKind
  pub track_uri : Text
  pub source_uri : Text

pub record Playlist : Type 0 where
  pub uri : Text
  pub name : Text
  pub position : ℕ
  pub entries : List Entry

pub record State : Type 0 where
  pub tracks : List Track
  pub playlists : List Playlist
  pub liked_songs : List Entry

pub record Metadata : Type 0 where
  pub revision : ℕ
  pub last_committed_at : Option Text
