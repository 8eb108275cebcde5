-- ===== src/Adapter/Candidate/Sound.antt =====
-- internal/app/adapter.go: what a candidate that the adapter's JSON gives is.
use offbeat.Adapter.Candidate.Yields.{
  yields_none, Yields-and_then, Yields-any, Yields-if, Yields-only_if, yields, Yields,
  track_eq_sound,
}
use offbeat.Ipc.Request.{field}
use offbeat.Desired.Validation.{validate_track, ArtworkUrl}
use offbeat.Desired.State.{
  Candidate, supported, unsupported, CandidateEntry, CandidatePlaylist, EntryKind, Track,
}
use offbeat.Adapter.Candidate.{
  is_position, materialize_entries, materialize_entry, materialize_playlists,
  parse_candidate_snapshot, materialize_named_uri, materialize_artists, entry_of_kind, Step,
  materialize_track, source_entry, supported_entry, has_uri, is_conflict, known_track,
}
use offbeat.Adapter.Json.{decode_object, Fields, Json, and_then}
use offbeat.Prelude.{
  length, codes, sym, text_eq_refl, ◌∙◌, inr, inl, Bool-cases, text_eq_iff, ap, Text, Option, List,
  ℕ, true, false, none, some, not, [], ◌∷◌, suc, refl, ◌≡◌, is_empty, text_eq, ◌==◌, arith,
}

-- The tracks that are known stay known.
Extends : List Track → List Track → Type 0
Extends ts us = (uri : Text) (t : Track) → known_track uri ts ≡ some t → known_track uri us ≡ some t

module _ (parse_url : Text → Option ArtworkUrl) where
  -- A supported entry has a valid track, the known one of its URI; an unsupported one has none.
  unfoldable pub IsResolved : List Track → EntryKind → Option Track → Type 0
  IsResolved ts supported (some t) =
      (validate_track parse_url t ≡ true) × (known_track t.uri ts ≡ some t)
  IsResolved ts supported none = ⊥
  IsResolved ts unsupported (some t) = ⊥
  IsResolved ts unsupported none = Unit

  unfoldable pub IsEntries : List Track → ℕ → List CandidateEntry → Type 0
  IsEntries ts i [] = Unit
  IsEntries ts i (e ∷ es) =
      ((e.position ≡ i) × IsResolved ts e.kind e.track) × IsEntries ts (suc i) es

  -- The playlists have their positions, and no URI twice.
  unfoldable pub IsPlaylists : List Track → List Text → ℕ → List CandidatePlaylist → Type 0
  IsPlaylists ts uris i [] = Unit
  IsPlaylists ts uris i (p ∷ ps) =
      ((p.position ≡ i)
        × (is_empty p.uri ≡ false)
        × (is_empty p.name ≡ false)
        × (has_uri p.uri uris ≡ false)
        × IsEntries ts 0 p.entries)
      × IsPlaylists ts (p.uri ∷ uris) (suc i) ps

  IsResolved-Extends :
      (ts us : List Track)
      → Extends ts us
      → (k : EntryKind) (t : Option Track) → IsResolved ts k t
      → IsResolved us k t
  unfolding IsResolved Extends
  IsResolved-Extends ts us x supported (some t) h = (h.0, x t.uri t h.1)
  IsResolved-Extends ts us x supported none h = h
  IsResolved-Extends ts us x unsupported (some t) h = h
  IsResolved-Extends ts us x unsupported none h = h

  IsEntries-Extends :
      (ts us : List Track)
      → Extends ts us
      → (i : ℕ) (es : List CandidateEntry) → IsEntries ts i es
      → IsEntries us i es
  unfolding IsEntries
  IsEntries-Extends ts us x i [] h = h
  IsEntries-Extends ts us x i (e ∷ es) h = (
    (h.0.0, IsResolved-Extends ts us x e.kind e.track h.0.1),
    IsEntries-Extends ts us x (suc i) es h.1,
  )

  IsPlaylists-Extends :
      (ts us : List Track)
      → Extends ts us
      → (uris : List Text) (i : ℕ) (ps : List CandidatePlaylist) → IsPlaylists ts uris i ps
      → IsPlaylists us uris i ps
  unfolding IsPlaylists
  IsPlaylists-Extends ts us x uris i [] h = h
  IsPlaylists-Extends ts us x uris i (p ∷ ps) h = (
    (h.0.0, h.0.1, h.0.2, h.0.3, IsEntries-Extends ts us x 0 p.entries h.0.4),
    IsPlaylists-Extends ts us x (p.uri ∷ uris) (suc i) ps h.1,
  )

same_track :
    (t k : Track) (o : Option Track) → o ≡ some k → is_conflict t o ≡ false → some t ≡ some k
same_track t k none e h = cc
same_track t k (some j) e h = ap some (sym (track_eq_sound j t (ground (arith, h)))) ∙ e

known-Extends :
    (ts : List Track) (t : Track)
    → is_conflict t (known_track t.uri ts) ≡ false
    → Extends ts (t ∷ ts)
unfolding Extends known_track
known-Extends ts t h uri k e = elim (Bool-cases (text_eq t.uri uri)) [
  | inl i ↦ rw i (
      same_track t k (known_track t.uri ts)
        (ap (λ u. known_track u ts) ((text_eq_iff t.uri uri).0 i) ∙ e) h)
  | inr i ↦ rw i e
]

Extends-trans : (ts us vs : List Track) → Extends ts us → Extends us vs → Extends ts vs
unfolding Extends
Extends-trans ts us vs f g uri t e = g uri t (f uri t e)

known_self : (t : Track) (ts : List Track) → known_track t.uri (t ∷ ts) ≡ some t
unfolding known_track
known_self t ts = rw (text_eq_refl t.uri) refl

module _ (J : Json) (parse_url : Text → Option ArtworkUrl) where
  -- What one entry adds.
  Adds : ℕ → List Track → Step → Type 0
  Adds i ts step =
      Extends ts step.1
      × ((step.0.position ≡ i) × IsResolved parse_url step.1 step.0.kind step.0.track)

  materialize_track-valid :
      (raw : Text)
      → Yields (λ t. validate_track parse_url t ≡ true) (materialize_track J parse_url raw)
  unfolding materialize_track
  materialize_track-valid raw = Yields-any (decode_object J raw) _ (λ fs.
      Yields-any (J.track raw) _ (λ t. Yields-only_if _ _ (λ a. Yields-only_if _ _ (λ b.
        Yields-any (materialize_artists J parse_url t.artists) _ (λ artists.
          Yields-any (materialize_named_uri J parse_url t.album) _
            (λ album. Yields-only_if _ _ (λ v. yields v)))))))

  supported_entry-Adds :
      (i : ℕ) (ts : List Track) (t : Track)
      → validate_track parse_url t ≡ true
      → Yields (Adds i ts) (supported_entry i ts t)
  unfolding Adds IsResolved
  supported_entry-Adds i ts t v =
      Yields-only_if (not (is_conflict t (known_track t.uri ts))) _
        (λ n. yields (known-Extends ts t (ground (arith, n)), (refl, (v, known_self t ts))))

  source_entry-Adds :
      (i : ℕ) (ts : List Track) (source : Option Text)
      → Yields (Adds i ts) (source_entry J parse_url i ts source)
  unfolding Adds IsResolved Extends
  source_entry-Adds i ts none = yields (λ u t e. e, (refl, tt))
  source_entry-Adds i ts (some raw) =
      Yields-any (J.string raw) _
        (λ source. Yields-only_if _ _ (λ n. yields (λ u t e. e, (refl, tt))))

  entry_of_kind-Adds :
      (i : ℕ) (fs : Fields) (ts : List Track) (kind : Text)
      → Yields (Adds i ts) (entry_of_kind J parse_url i fs ts kind)
  entry_of_kind-Adds i fs ts kind =
      Yields-if (text_eq kind (codes "supported")) _ _
        (Yields-only_if (length fs == 3) _ (λ n. Yields-any (field (codes "track") fs) _ (λ raw.
          Yields-and_then (λ t. validate_track parse_url t ≡ true) _ _ (materialize_track-valid raw)
            (supported_entry-Adds i ts))))
        (Yields-if (text_eq kind (codes "unsupported")) _ _
          (Yields-only_if _ _ (λ n. source_entry-Adds i ts (field (codes "source_uri") fs)))
          yields_none)

  materialize_entry-Adds :
      (i : ℕ) (raw : Text) (ts : List Track)
      → Yields (Adds i ts) (materialize_entry J parse_url i raw ts)
  unfolding materialize_entry
  materialize_entry-Adds i raw ts = Yields-any (decode_object J raw) _ (λ fs.
      Yields-any (and_then (field (codes "position") fs) J.int) _ (λ position.
        Yields-only_if (is_position i position) _ (λ n.
          Yields-any (and_then (field (codes "kind") fs) J.string) _ (entry_of_kind-Adds i fs ts))))

  -- What the entries add.
  AddsAll : ℕ → List Track → List CandidateEntry × List Track → Type 0
  AddsAll i ts r = Extends ts r.1 × IsEntries parse_url r.1 i r.0

  materialize_entries-AddsAll :
      (i : ℕ) (raws : List Text) (ts : List Track)
      → Yields (AddsAll i ts) (materialize_entries J parse_url i raws ts)
  unfolding materialize_entries AddsAll IsEntries Extends Adds
  materialize_entries-AddsAll i [] ts = yields (λ u t e. e, tt)
  materialize_entries-AddsAll i (raw ∷ raws) ts =
      Yields-and_then (Adds i ts) _ _ (materialize_entry-Adds i raw ts) (λ step h.
        Yields-and_then (AddsAll (suc i) step.1) _ _
          (materialize_entries-AddsAll (suc i) raws step.1)
          (λ rest k. yields (
            Extends-trans ts step.1 rest.1 h.0 k.0,
            (
              (
                h.1.0,
                IsResolved-Extends parse_url step.1 rest.1 k.0 step.0.kind step.0.track h.1.1,
              ),
              k.1,
            ),
          )))

  AddsPlaylists : ℕ → List Text → List Track → List CandidatePlaylist × List Track → Type 0
  AddsPlaylists i uris ts r = Extends ts r.1 × IsPlaylists parse_url r.1 uris i r.0

  materialize_playlists-AddsPlaylists :
      (i : ℕ) (raws uris : List Text) (ts : List Track)
      → Yields (AddsPlaylists i uris ts) (materialize_playlists J parse_url i raws uris ts)
  unfolding materialize_playlists AddsPlaylists IsPlaylists Extends AddsAll
  materialize_playlists-AddsPlaylists i [] uris ts = yields (λ u t e. e, tt)
  materialize_playlists-AddsPlaylists i (raw ∷ raws) uris ts = Yields-any _ _ (λ item.
      Yields-only_if _ _ (λ n. Yields-any item.entries _ (λ raw_entries.
        Yields-only_if _ _ (λ fresh.
          Yields-and_then (AddsAll 0 ts) _ _ (materialize_entries-AddsAll 0 raw_entries ts)
            (λ entries h.
              Yields-and_then (AddsPlaylists (suc i) (item.uri ∷ uris) entries.1) _ _
                (materialize_playlists-AddsPlaylists (suc i) raws (item.uri ∷ uris) entries.1)
                (λ rest k. yields (
                  Extends-trans ts entries.1 rest.1 h.0 k.0,
                  (
                    (
                      refl,
                      ground (arith, n),
                      ground (arith, n),
                      ground (arith, fresh),
                      IsEntries-Extends parse_url entries.1 rest.1 k.0 0 entries.0 h.1,
                    ),
                    k.1,
                  ),
                )))))))

  -- For some map of known tracks.
  pub record IsCandidate (c : Candidate) : Type 0 where
    pub known : List Track
    pub playlists : IsPlaylists parse_url known [] 0 c.playlists
    pub liked_songs : IsEntries parse_url known 0 c.liked_songs

  pub parse_candidate_snapshot-Yields :
      (raw : Text) → Yields IsCandidate (parse_candidate_snapshot J parse_url raw)
  unfolding parse_candidate_snapshot AddsPlaylists AddsAll
  parse_candidate_snapshot-Yields raw = Yields-any _ _ (λ snapshot. Yields-only_if _ _ (λ n.
      Yields-any snapshot.playlists _ (λ raw_playlists.
        Yields-and_then (AddsPlaylists 0 [] []) _ _
          (materialize_playlists-AddsPlaylists 0 raw_playlists [] [])
          (λ playlists h. Yields-any _ _ (λ raw_liked.
            Yields-and_then (AddsAll 0 playlists.1) _ _
              (materialize_entries-AddsAll 0 raw_liked playlists.1)
              (λ liked k. yields (record {
                known = liked.1;
                playlists =
                    IsPlaylists-Extends parse_url playlists.1 liked.1 k.0 [] 0 playlists.0 h.1;
                liked_songs = k.1;
              })))))))
