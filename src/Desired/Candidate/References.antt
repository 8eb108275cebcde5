-- ===== src/Desired/Candidate/References.antt =====
-- The tracks of a wanted state: in the order of their URIs, and one for each supported entry.
use mathlib.Core.Path.{subst}
use offbeat.Desired.Candidate.{
  state_playlists, candidate_entries_to_entries, Panic, collect_playlists, collect_track,
  collect_tracks, put_track, state_from_candidate,
}
use offbeat.Prelude.{
  refl, ◌||◌, err, none, text_eq, text_eq_iff, text_eq_refl, text_lt_total, ◌&&◌, [], arith, some,
  ◌>>=◌, ◌∷◌, Option, false, ok, text_lt, true, All, All-map, Bool, Result, ◌≡◌, Text, List,
}
use offbeat.Desired.State.{
  Playlist, Entry, CandidatePlaylist, State, EntryKind, supported, unsupported, Track, Candidate,
  CandidateEntry,
}

-- The URIs ascend, above `u`.
sorted_above : Text → List Track → Bool
sorted_above u [] = true
sorted_above u (t ∷ ts) = text_lt u t.uri && sorted_above t.uri ts

-- The URIs ascend: no two tracks have the same one.
pub sorted_by_uri : List Track → Bool
unfolding sorted_above
sorted_by_uri [] = true
sorted_by_uri (t ∷ ts) = sorted_above t.uri ts

pub has_uri : Text → List Track → Bool
has_uri u [] = false
has_uri u (t ∷ ts) = text_eq t.uri u || has_uri u ts

-- A supported entry's track is among the tracks.
abbrev pub Refers : List Track → EntryKind → Option Track → Type 0
Refers ts unsupported t = Unit
Refers ts supported none = ⊥
Refers ts supported (some t) = has_uri t.uri ts ≡ true

abbrev pub AllRefer : List Track → List CandidateEntry → Type 0
AllRefer ts es = All (λ e. Refers ts e.kind e.track) es

sorted_above-put_track :
    (u : Text) (t : Track) (ts : List Track)
    → text_lt u t.uri ≡ true
    → sorted_above u ts ≡ true
    → sorted_above u (put_track t ts) ≡ true
unfolding sorted_above put_track
sorted_above-put_track u t [] h k = ground arith
sorted_above-put_track u t (x ∷ xs) h k =
    ground
      (arith, sorted_above-put_track x.uri t xs, text_lt_total x.uri t.uri, text_eq_iff x.uri t.uri)

sorted_by_uri-put_track :
    (t : Track) (ts : List Track) → sorted_by_uri ts ≡ true → sorted_by_uri (put_track t ts) ≡ true
unfolding sorted_by_uri sorted_above put_track
sorted_by_uri-put_track t [] k = refl
sorted_by_uri-put_track t (x ∷ xs) k =
    ground
      (arith, sorted_above-put_track x.uri t xs, text_lt_total x.uri t.uri, text_eq_iff x.uri t.uri)

has_uri-put_track_self : (t : Track) (ts : List Track) → has_uri t.uri (put_track t ts) ≡ true
unfolding has_uri put_track
has_uri-put_track_self t [] = ground (arith, text_eq_refl t.uri)
has_uri-put_track_self t (x ∷ xs) = ground (arith, text_eq_refl t.uri, has_uri-put_track_self t xs)

has_uri-put_track :
    (u : Text) (t : Track) (ts : List Track)
    → has_uri u ts ≡ true
    → has_uri u (put_track t ts) ≡ true
unfolding has_uri put_track
has_uri-put_track u t [] h = ground arith
has_uri-put_track u t (x ∷ xs) h = ground (arith, has_uri-put_track u t xs, text_eq_iff x.uri t.uri)

bind_ok :
    {A B : Type 0} (m : Result Panic A) (f : A → Result Panic B) (b : B)
    → (m >>= f) ≡ ok b
    → (a : A) × (m ≡ ok a) × (f a ≡ ok b)
bind_ok (ok a) f b h = (a, refl, h)
bind_ok (err e) f b h = cc

-- `ts'` is in order where `ts` is, and has its URIs.
record Extends (ts ts' : List Track) : Type 0 where
  in_order : sorted_by_uri ts ≡ true → sorted_by_uri ts' ≡ true
  keeps : (u : Text) → has_uri u ts ≡ true → has_uri u ts' ≡ true

Extends-refl : (ts : List Track) → Extends ts ts
Extends-refl ts = record { in_order = λ h. h; keeps = λ u h. h }

Extends-trans : (a b c : List Track) → Extends a b → Extends b c → Extends a c
Extends-trans a b c p q = record {
  in_order = λ h. q.in_order (p.in_order h);
  keeps = λ u h. q.keeps u (p.keeps u h);
}

Refers-Extends :
    (k : EntryKind) (t : Option Track) (a b : List Track)
    → Extends a b
    → Refers a k t
    → Refers b k t
Refers-Extends unsupported t a b p h = tt
Refers-Extends supported none a b p h = h
Refers-Extends supported (some t) a b p h = p.keeps t.uri h

collect_track_lem :
    (k : EntryKind) (t : Option Track) (ts ts' : List Track)
    → collect_track k t ts ≡ ok ts'
    → Extends ts ts' × Refers ts' k t
unfolding collect_track
collect_track_lem unsupported t ts ts' h =
    let e : ts ≡ ts' = cc in (subst (λ x. Extends ts x) e (Extends-refl ts), tt)
collect_track_lem supported none ts ts' h = cc
collect_track_lem supported (some t) ts ts' h =
    let e : put_track t ts ≡ ts' = cc in
    subst (λ x. Extends ts x × (has_uri t.uri x ≡ true)) e
      (
        record { in_order = sorted_by_uri-put_track t ts; keeps = λ u. has_uri-put_track u t ts },
        has_uri-put_track_self t ts,
      )

collect_tracks_lem :
    (es : List CandidateEntry) (ts ts' : List Track)
    → collect_tracks es ts ≡ ok ts'
    → Extends ts ts' × AllRefer ts' es
unfolding collect_tracks
collect_tracks_lem [] ts ts' h =
    let e : ts ≡ ts' = cc in (subst (λ x. Extends ts x) e (Extends-refl ts), tt)
collect_tracks_lem (e ∷ es) ts ts' h =
    let (mid, first, rest) = bind_ok (collect_track e.kind e.track ts) (collect_tracks es) ts' h in
    let (p, r) = collect_track_lem e.kind e.track ts mid first in
    let (q, rs) = collect_tracks_lem es mid ts' rest in
    (Extends-trans ts mid ts' p q, (Refers-Extends e.kind e.track mid ts' q r, rs))

AllRefer-Extends :
    (es : List CandidateEntry) (a b : List Track) → Extends a b → AllRefer a es → AllRefer b es
AllRefer-Extends es a b p h = All-map (λ e. Refers-Extends e.kind e.track a b p) es h

collect_playlists_lem :
    (ps : List CandidatePlaylist) (ts ts' : List Track)
    → collect_playlists ps ts ≡ ok ts'
    → Extends ts ts' × All (λ p. AllRefer ts' p.entries) ps
unfolding collect_playlists
collect_playlists_lem [] ts ts' h =
    let e : ts ≡ ts' = cc in (subst (λ x. Extends ts x) e (Extends-refl ts), tt)
collect_playlists_lem (c ∷ cs) ts ts' h =
    let (mid, first, rest) = bind_ok (collect_tracks c.entries ts) (collect_playlists cs) ts' h in
    let (p, r) = collect_tracks_lem c.entries ts mid first in
    let (q, rs) = collect_playlists_lem cs mid ts' rest in
    (Extends-trans ts mid ts' p q, (AllRefer-Extends c.entries mid ts' q r, rs))

-- The steps of state_from_candidate behind each other.
abbrev built : List Entry → List Playlist → List Track → Result Panic State
built liked playlists ts = ok (record { tracks = ts; playlists = playlists; liked_songs = liked })

abbrev with_playlists : Candidate → List Entry → List Playlist → List Track → Result Panic State
with_playlists c liked playlists first =
    collect_tracks c.liked_songs first >>= built liked playlists

abbrev with_state : Candidate → List Entry → List Playlist → Result Panic State
with_state c liked playlists = collect_playlists c.playlists [] >>= with_playlists c liked playlists

abbrev with_liked : Candidate → List Entry → Result Panic State
with_liked c liked = state_playlists c.playlists >>= with_state c liked

-- A wanted state has its tracks in strictly ascending order of URI, and has a track for every
-- supported entry of every playlist and of the liked songs.
pub state_from_candidate-Refers :
    (c : Candidate) (s : State)
    → state_from_candidate c ≡ ok s
    → (sorted_by_uri s.tracks ≡ true)
      × All (λ p. AllRefer s.tracks p.entries) c.playlists
      × AllRefer s.tracks c.liked_songs
unfolding state_from_candidate
state_from_candidate-Refers c s h =
    let (liked, e0, h0) = bind_ok (candidate_entries_to_entries c.liked_songs) (with_liked c) s h in
    let (playlists, e1, h1) = bind_ok (state_playlists c.playlists) (with_state c liked) s h0 in
    let (first, e2, h2) =
      bind_ok (collect_playlists c.playlists []) (with_playlists c liked playlists) s h1 in
    let (all, e3, h3) = bind_ok (collect_tracks c.liked_songs first) (built liked playlists) s h2 in
    let (p, in_lists) = collect_playlists_lem c.playlists [] first e2 in
    let (q, in_liked) = collect_tracks_lem c.liked_songs first all e3 in
    let same : all ≡ s.tracks = cc in
    subst
      (λ ts.
        (sorted_by_uri ts ≡ true)
        × All (λ x. AllRefer ts x.entries) c.playlists
        × AllRefer ts c.liked_songs)
      same
      (
        q.in_order (p.in_order (unfold sorted_by_uri in refl)),
        All-map (λ x. AllRefer-Extends x.entries first all q) c.playlists in_lists,
        in_liked,
      )
