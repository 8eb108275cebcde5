-- ===== src/Adapter/Candidate.antt =====
-- internal/app/adapter.go: from the JSON of a snapshot to a candidate. Its errors, whose texts the
-- caller drops, are `none`.
pub mod Yields
pub mod Sound
pub mod Commits
use offbeat.Prelude.{
  Text, String, Bool, Option, List, ℕ, ℤ, true, false, none, some, not, [], ◌∷◌, ◌==◌, ◌&&◌, ◌||◌,
  suc, pos, negsuc, if◌then◌else◌, text_eq, is_empty, length, codes, ltb,
}
use offbeat.Desired.State.{
  Track, NamedUri, Candidate, CandidateEntry, CandidatePlaylist, supported, unsupported,
}
use offbeat.Desired.Validation.{ArtworkUrl, validate_track}
use offbeat.Adapter.Json.{
  Json, Fields, and_then, only_if, is_given, only_fields, decode_exact_object, decode_object,
  exact_fields_with_optional, RawSnapshot, RawPlaylist, RawTrack, RawNamedUri,
}
use offbeat.Ipc.Request.{field}

-- reflect.DeepEqual of two tracks
unfoldable pub named_eq : NamedUri → NamedUri → Bool
named_eq a b = text_eq a.uri b.uri && text_eq a.name b.name

unfoldable pub artists_eq : List NamedUri → List NamedUri → Bool
unfolding named_eq
artists_eq [] [] = true
artists_eq [] (b ∷ bs) = false
artists_eq (a ∷ as') [] = false
artists_eq (a ∷ as') (b ∷ bs) = named_eq a b && artists_eq as' bs

unfoldable pub number_eq : Option ℕ → Option ℕ → Bool
number_eq none none = true
number_eq none (some n) = false
number_eq (some m) none = false
number_eq (some m) (some n) = m == n

unfoldable pub track_eq : Track → Track → Bool
unfolding named_eq artists_eq number_eq
track_eq a b =
    text_eq a.uri b.uri
    && text_eq a.name b.name
    && artists_eq a.artists b.artists
    && named_eq a.album b.album
    && (a.duration_ms == b.duration_ms)
    && text_eq a.album_artist b.album_artist
    && number_eq a.track_number b.track_number
    && number_eq a.disc_number b.disc_number
    && text_eq a.release_date b.release_date
    && text_eq a.artwork_url b.artwork_url

-- tracks[uri]
unfoldable pub known_track : Text → List Track → Option Track
known_track uri [] = none
known_track uri (t ∷ ts) = if text_eq t.uri uri then some t else known_track uri ts

abbrev pub is_conflict : Track → Option Track → Bool
is_conflict t none = false
is_conflict t (some k) = not (track_eq k t)

-- A number of a track: ValidateTrack refuses a negative one as it refuses 0.
abbrev at_least_zero : ℤ → ℕ
at_least_zero (pos n) = n
at_least_zero (negsuc n) = 0

abbrev number_of : Option ℤ → Option ℕ
number_of none = none
number_of (some n) = some (at_least_zero n)

abbrev pub is_null_field : Fields → Text → Bool
is_null_field fs name = is_null (field name fs)
  where
    is_null : Option Text → Bool
    is_null none = false
    is_null (some raw) = text_eq raw (codes "null")

abbrev pub any_null : Fields → List Text → Bool
any_null fs [] = false
any_null fs (n ∷ ns) = is_null_field fs n || any_null fs ns

abbrev pub optional_fields : List Text
optional_fields =
    codes "album_artist"
    ∷ codes "track_number"
    ∷ codes "disc_number"
    ∷ codes "release_date"
    ∷ codes "artwork_url"
    ∷ []

abbrev pub required_fields : List Text
required_fields =
    codes "uri" ∷ codes "name" ∷ codes "artists" ∷ codes "album" ∷ codes "duration_ms" ∷ []

abbrev pub entry_fields : List Text
entry_fields = codes "position" ∷ codes "kind" ∷ codes "source_uri" ∷ []

abbrev pub is_position : ℕ → ℤ → Bool
is_position i (pos n) = n == i
is_position i (negsuc n) = false

-- What one entry adds: it, and the tracks known after it.
abbrev pub Step : Type 0
Step = CandidateEntry × List Track

abbrev pub has_uri : Text → List Text → Bool
has_uri uri [] = false
has_uri uri (u ∷ us) = text_eq u uri || has_uri uri us

abbrev pub track_of : RawTrack → List NamedUri → NamedUri → Track
track_of t artists album = record {
  uri = t.uri;
  name = t.name;
  artists = artists;
  album = album;
  duration_ms = at_least_zero t.duration_ms;
  album_artist = t.album_artist;
  track_number = number_of t.track_number;
  disc_number = number_of t.disc_number;
  release_date = t.release_date;
  artwork_url = t.artwork_url;
}

abbrev pub supported_entry : ℕ → List Track → Track → Option Step
supported_entry i tracks t =
    only_if (not (is_conflict t (known_track t.uri tracks))) (
      some (record { position = i; kind = supported; track = some t; source_uri = [] }, t ∷ tracks))

abbrev pub unsupported_entry : ℕ → List Track → Text → Step
unsupported_entry i tracks source =
    (record { position = i; kind = unsupported; track = none; source_uri = source }, tracks)

module _ (J : Json) (parse_url : Text → Option ArtworkUrl) where
  unfoldable pub materialize_named_uri : Text → Option NamedUri
  unfolding decode_exact_object
  materialize_named_uri raw =
      and_then (decode_exact_object J J.named_uri raw (codes "uri" ∷ codes "name" ∷ [])) (λ v.
        only_if (not (is_empty v.uri || is_empty v.name))
          (some (record { uri = v.uri; name = v.name })))

  unfoldable pub materialize_artists : List Text → Option (List NamedUri)
  unfolding materialize_named_uri
  materialize_artists [] = some []
  materialize_artists (raw ∷ raws) =
      and_then (materialize_named_uri raw)
        (λ a. and_then (materialize_artists raws) (λ as'. some (a ∷ as')))

  unfoldable pub materialize_track : Text → Option Track
  unfolding decode_object exact_fields_with_optional materialize_artists validate_track
  materialize_track raw = and_then (decode_object J raw) (λ fs. and_then (J.track raw) (λ t.
      only_if
        (exact_fields_with_optional fs required_fields optional_fields
          && not (length t.artists == 0))
        (only_if (not (any_null fs optional_fields)) (
          and_then (materialize_artists t.artists) (λ artists.
            and_then (materialize_named_uri t.album) (λ album.
              only_if (validate_track parse_url (track_of t artists album))
                (some (track_of t artists album))))))))

  abbrev pub source_entry : ℕ → List Track → Option Text → Option Step
  source_entry i tracks none = some (unsupported_entry i tracks [])
  source_entry i tracks (some raw) =
      and_then (J.string raw)
        (λ source. only_if (not (is_empty source)) (some (unsupported_entry i tracks source)))

  abbrev pub entry_of_kind : ℕ → Fields → List Track → Text → Option Step
  entry_of_kind i fs tracks kind =
      if text_eq kind (codes "supported")
      then only_if (length fs == 3) (
          and_then (field (codes "track") fs)
            (λ raw. and_then (materialize_track raw) (supported_entry i tracks)))
      else if text_eq kind (codes "unsupported")
      then only_if (((length fs == 2) || (length fs == 3)) && only_fields entry_fields fs)
          (source_entry i tracks (field (codes "source_uri") fs))
      else none

  -- One round of the loop of materializeEntries.
  unfoldable pub materialize_entry : ℕ → Text → List Track → Option Step
  unfolding decode_object materialize_track known_track track_eq field only_fields
  materialize_entry i raw tracks = and_then (decode_object J raw) (λ fs.
      and_then (and_then (field (codes "position") fs) J.int) (λ position.
        only_if (is_position i position)
          (and_then (and_then (field (codes "kind") fs) J.string) (entry_of_kind i fs tracks))))

  unfoldable pub materialize_entries :
      ℕ → List Text → List Track → Option (List CandidateEntry × List Track)
  unfolding materialize_entry
  materialize_entries i [] tracks = some ([], tracks)
  materialize_entries i (raw ∷ raws) tracks = and_then (materialize_entry i raw tracks) (λ step.
      and_then (materialize_entries (suc i) raws step.1) (λ rest. some (step.0 ∷ rest.0, rest.1)))

  -- The loop over the playlists: the URIs and the tracks known so far.
  unfoldable pub materialize_playlists :
      ℕ → List Text → List Text → List Track → Option (List CandidatePlaylist × List Track)
  unfolding decode_exact_object materialize_entries
  materialize_playlists i [] uris tracks = some ([], tracks)
  materialize_playlists i (raw ∷ raws) uris tracks =
      and_then
        (decode_exact_object J J.playlist raw (codes "uri" ∷ codes "name" ∷ codes "entries" ∷ []))
        (λ item. only_if (not (is_empty item.uri || is_empty item.name)) (
          and_then item.entries (λ raw_entries. only_if (not (has_uri item.uri uris)) (
            and_then (materialize_entries 0 raw_entries tracks) (λ entries.
              and_then (materialize_playlists (suc i) raws (item.uri ∷ uris) entries.1) (λ rest.
                some (
                  record { uri = item.uri; name = item.name; position = i; entries = entries.0 }
                      ∷ rest.0,
                  rest.1,
                )))))))

  unfoldable pub parse_candidate_snapshot : Text → Option Candidate
  unfolding decode_exact_object materialize_playlists materialize_entries
  parse_candidate_snapshot raw =
      and_then
        (decode_exact_object J J.snapshot raw
          (codes "kind" ∷ codes "playlists" ∷ codes "liked_songs" ∷ []))
        (λ snapshot. only_if (text_eq snapshot.kind (codes "candidate")) (
          and_then snapshot.playlists (λ raw_playlists.
            and_then (materialize_playlists 0 raw_playlists [] []) (λ playlists.
              and_then
                (and_then
                  (decode_exact_object J J.liked snapshot.liked_songs (codes "entries" ∷ []))
                  (λ l. l))
                (λ raw_liked.
                  and_then (materialize_entries 0 raw_liked playlists.1)
                    (λ liked. some (record { playlists = playlists.0; liked_songs = liked.0 })))))))
