-- ===== src/Adapter/Candidate/Commits.antt =====
-- internal/app/adapter.go and internal/db/desired_state.go: a candidate that the adapter's JSON gives
-- makes a state.
use offbeat.Desired.Candidate.{state_from_candidate}
use offbeat.Desired.Candidate.Total.{
  state_from_candidate-Returns, HasTrack, HaveTracks, HaveTracksAll, Returns,
}
use offbeat.Adapter.Candidate.{parse_candidate_snapshot}
use offbeat.Adapter.Json.{Json}
use offbeat.Adapter.Candidate.Sound.{
  parse_candidate_snapshot-Yields, IsCandidate, IsEntries, IsPlaylists, IsResolved,
}
use offbeat.Adapter.Candidate.Yields.{yields, Yields}
use offbeat.Desired.Validation.{ArtworkUrl}
use offbeat.Prelude.{sym, List, ℕ, [], ◌∷◌, some, none, ◌≡◌, Option, Text}
use offbeat.Desired.State.{
  CandidateEntry, CandidatePlaylist, EntryKind, Track, Candidate, supported, unsupported,
}

module _ (parse_url : Text → Option ArtworkUrl) where
  IsResolved-HasTrack :
      (ts : List Track) (k : EntryKind) (t : Option Track)
      → IsResolved parse_url ts k t
      → HasTrack k t
  unfolding IsResolved
  IsResolved-HasTrack ts supported (some t) h = tt
  IsResolved-HasTrack ts supported none h = h
  IsResolved-HasTrack ts unsupported t h = tt

  IsEntries-HaveTracks :
      (ts : List Track) (i : ℕ) (es : List CandidateEntry)
      → IsEntries parse_url ts i es
      → HaveTracks es
  unfolding IsEntries
  IsEntries-HaveTracks ts i [] h = tt
  IsEntries-HaveTracks ts i (e ∷ es) h =
      (IsResolved-HasTrack ts e.kind e.track h.0.1, IsEntries-HaveTracks ts _ es h.1)

  IsPlaylists-HaveTracks :
      (ts : List Track) (uris : List Text) (i : ℕ) (ps : List CandidatePlaylist)
      → IsPlaylists parse_url ts uris i ps
      → HaveTracksAll ps
  unfolding IsPlaylists
  IsPlaylists-HaveTracks ts uris i [] h = tt
  IsPlaylists-HaveTracks ts uris i (p ∷ ps) h =
      (IsEntries-HaveTracks ts 0 p.entries h.0.4, IsPlaylists-HaveTracks ts _ _ ps h.1)

yielded : {A : Type 0} {P : A → Type 0} (a : A) → Yields P (some a) → P a
yielded a (yields h) = h

Yields-some : {A : Type 0} {P : A → Type 0} (o : Option A) (a : A) → Yields P o → o ≡ some a → P a
Yields-some {P = P} o a h e = yielded {P = P} a (rw (sym e) h)

-- A snapshot that parses to a candidate, for any JSON decoder and URL parser: its playlists and
-- entries have their positions, no two playlists have the same URI, no URI and no name of a playlist
-- is empty, each supported entry has a valid track, two tracks with one URI are equal, an
-- unsupported entry has no track; and the state is made of it without a nil dereference.
pub parse_candidate_snapshot-IsCandidate :
    (J : Json) (parse_url : Text → Option ArtworkUrl) (raw : Text) (c : Candidate)
    → parse_candidate_snapshot J parse_url raw ≡ some c
    → IsCandidate J parse_url c × Returns (state_from_candidate c)
parse_candidate_snapshot-IsCandidate J parse_url raw c e =
    let h =
      Yields-some (parse_candidate_snapshot J parse_url raw) c
        (parse_candidate_snapshot-Yields J parse_url raw) e in
    (
      h,
      state_from_candidate-Returns c
          (IsEntries-HaveTracks parse_url h.known 0 c.liked_songs h.liked_songs)
          (IsPlaylists-HaveTracks parse_url h.known [] 0 c.playlists h.playlists),
    )
