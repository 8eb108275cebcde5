-- ===== src/Desired/Candidate/Total.antt =====
-- internal/db/desired_state.go: a candidate whose supported entries have tracks makes a state.
use offbeat.Desired.Candidate.{
  Panic, candidate_entries_to_entries, candidate_entry_to_entry, collect_playlists, collect_track,
  collect_tracks, state_from_candidate, state_playlists,
}
use offbeat.Prelude.{◌>>=◌, ok, Result, List, [], ◌∷◌, none, some, ◌≡◌, refl, All, Option}
use offbeat.Desired.State.{
  Candidate, Track, CandidateEntry, CandidatePlaylist, EntryKind, supported, unsupported,
}

-- The entry does not make the code dereference nil.
abbrev pub HasTrack : EntryKind → Option Track → Type 0
HasTrack supported none = ⊥
HasTrack supported (some t) = Unit
HasTrack unsupported t = Unit

abbrev pub HaveTracks : List CandidateEntry → Type 0
HaveTracks es = All (λ e. HasTrack e.kind e.track) es

-- The computation returns a value.
unfoldable pub Returns : {A : Type 0} → Result Panic A → Type 0
Returns {A} r = (a : A) × (r ≡ ok a)

Returns-bind :
    {A B : Type 0} (r : Result Panic A) (f : A → Result Panic B)
    → Returns r
    → ((a : A) → Returns (f a))
    → Returns (r >>= f)
unfolding Returns
Returns-bind r f (a, e) k = rw e (k a)

candidate_entry_to_entry-Returns :
    (e : CandidateEntry) (k : EntryKind) (t : Option Track)
    → HasTrack k t
    → Returns (candidate_entry_to_entry e k t)
unfolding candidate_entry_to_entry Returns
candidate_entry_to_entry-Returns e unsupported t h = (_, refl)
candidate_entry_to_entry-Returns e supported (some t) h = (_, refl)
candidate_entry_to_entry-Returns e supported none h = elim h [ ]

candidate_entries_to_entries-Returns :
    (es : List CandidateEntry) → HaveTracks es → Returns (candidate_entries_to_entries es)
unfolding candidate_entries_to_entries Returns
candidate_entries_to_entries-Returns [] h = (_, refl)
candidate_entries_to_entries-Returns (e ∷ es) h =
    Returns-bind (candidate_entry_to_entry e e.kind e.track) _
      (candidate_entry_to_entry-Returns e e.kind e.track h.0)
      (λ entry.
        Returns-bind (candidate_entries_to_entries es) _
          (candidate_entries_to_entries-Returns es h.1) (λ rest. (_, refl)))

collect_track-Returns :
    (k : EntryKind) (t : Option Track) (ts : List Track)
    → HasTrack k t
    → Returns (collect_track k t ts)
unfolding collect_track Returns
collect_track-Returns unsupported t ts h = (_, refl)
collect_track-Returns supported (some t) ts h = (_, refl)
collect_track-Returns supported none ts h = elim h [ ]

collect_tracks-Returns :
    (es : List CandidateEntry) (ts : List Track) → HaveTracks es → Returns (collect_tracks es ts)
unfolding collect_tracks Returns
collect_tracks-Returns [] ts h = (_, refl)
collect_tracks-Returns (e ∷ es) ts h =
    Returns-bind (collect_track e.kind e.track ts) _ (collect_track-Returns e.kind e.track ts h.0)
      (λ us. collect_tracks-Returns es us h.1)

abbrev pub HaveTracksAll : List CandidatePlaylist → Type 0
HaveTracksAll ps = All (λ p. HaveTracks p.entries) ps

collect_playlists-Returns :
    (ps : List CandidatePlaylist) (ts : List Track)
    → HaveTracksAll ps
    → Returns (collect_playlists ps ts)
unfolding collect_playlists Returns
collect_playlists-Returns [] ts h = (_, refl)
collect_playlists-Returns (p ∷ ps) ts h =
    Returns-bind (collect_tracks p.entries ts) _ (collect_tracks-Returns p.entries ts h.0)
      (λ us. collect_playlists-Returns ps us h.1)

state_playlists-Returns :
    (ps : List CandidatePlaylist) → HaveTracksAll ps → Returns (state_playlists ps)
unfolding state_playlists Returns
state_playlists-Returns [] h = (_, refl)
state_playlists-Returns (p ∷ ps) h =
    Returns-bind (candidate_entries_to_entries p.entries) _
      (candidate_entries_to_entries-Returns p.entries h.0)
      (λ entries.
        Returns-bind (state_playlists ps) _ (state_playlists-Returns ps h.1) (λ rest. (_, refl)))

pub state_from_candidate-Returns :
    (c : Candidate)
    → HaveTracks c.liked_songs
    → HaveTracksAll c.playlists
    → Returns (state_from_candidate c)
unfolding state_from_candidate Returns
state_from_candidate-Returns c h k =
    Returns-bind (candidate_entries_to_entries c.liked_songs) _
      (candidate_entries_to_entries-Returns c.liked_songs h)
      (λ liked.
        Returns-bind (state_playlists c.playlists) _ (state_playlists-Returns c.playlists k)
          (λ playlists.
            Returns-bind (collect_playlists c.playlists []) _
              (collect_playlists-Returns c.playlists [] k)
              (λ ts.
                Returns-bind (collect_tracks c.liked_songs ts) _
                  (collect_tracks-Returns c.liked_songs ts h) (λ us. (_, refl)))))
