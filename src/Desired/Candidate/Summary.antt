-- ===== src/Desired/Candidate/Summary.antt =====
-- summarizeCandidate against counts of the candidate's own lists.
use offbeat.Desired.State.{
  supported, unsupported, CandidateEntry, CandidatePlaylist, Candidate, EntryKind,
}
use offbeat.Desired.Candidate.{
  SpotifySyncSummary, count_entry_kind, count_entry_kinds, summarize_candidate, summarize_playlists,
}
use offbeat.Prelude.{refl, [], ◌∙◌, ◌∷◌, arith, length, List, ◌+◌, ◌≡◌, ℕ}

-- 1 for an entry of the kind.
abbrev of_kind : EntryKind → EntryKind → ℕ
of_kind supported supported = 1
of_kind supported unsupported = 0
of_kind unsupported supported = 0
of_kind unsupported unsupported = 1

-- The entries of a kind in a list.
unfoldable pub occurrences : EntryKind → List CandidateEntry → ℕ
occurrences k [] = 0
occurrences k (e ∷ es) = of_kind k e.kind + occurrences k es

-- A number of each playlist's entries, summed over the playlists.
unfoldable pub in_playlists : (List CandidateEntry → ℕ) → List CandidatePlaylist → ℕ
in_playlists count [] = 0
in_playlists count (p ∷ ps) = count p.entries + in_playlists count ps

-- What the three counts grow by, with the two others as they were.
abbrev Grows : SpotifySyncSummary → ℕ → ℕ → ℕ → SpotifySyncSummary → Type 0
Grows s entries held other t =
    (t.playlist_count ≡ s.playlist_count)
    × (t.playlist_entry_count ≡ s.playlist_entry_count + entries)
    × (t.liked_songs_entry_count ≡ s.liked_songs_entry_count)
    × (t.supported_entry_occurrences ≡ s.supported_entry_occurrences + held)
    × (t.unsupported_entry_occurrences ≡ s.unsupported_entry_occurrences + other)

count_entry_kind-Grows :
    (k : EntryKind) (s : SpotifySyncSummary)
    → Grows s 0 (of_kind supported k) (of_kind unsupported k) (count_entry_kind k s)
unfolding count_entry_kind
count_entry_kind-Grows supported s = (refl, omega arith, refl, omega arith, omega arith)
count_entry_kind-Grows unsupported s = (refl, omega arith, refl, omega arith, omega arith)

count_entry_kinds-Grows :
    (es : List CandidateEntry) (s : SpotifySyncSummary)
    → Grows s 0 (occurrences supported es) (occurrences unsupported es) (count_entry_kinds es s)
unfolding count_entry_kinds occurrences
count_entry_kinds-Grows [] s = (refl, omega arith, refl, omega arith, omega arith)
count_entry_kinds-Grows (e ∷ es) s =
    let one = count_entry_kind-Grows e.kind s in
    let rest = count_entry_kinds-Grows es (count_entry_kind e.kind s) in
    (
      rest.0 ∙ one.0,
      omega (arith, one.1, rest.1),
      rest.2 ∙ one.2,
      omega (arith, one.3, rest.3),
      omega (arith, one.4, rest.4),
    )

summarize_playlists-Grows :
    (ps : List CandidatePlaylist) (s : SpotifySyncSummary)
    → Grows s
        (in_playlists length ps)
        (in_playlists (occurrences supported) ps)
        (in_playlists (occurrences unsupported) ps)
        (summarize_playlists ps s)
unfolding summarize_playlists in_playlists
summarize_playlists-Grows [] s = (refl, omega arith, refl, omega arith, omega arith)
summarize_playlists-Grows (p ∷ ps) s =
    let grown = record s { playlist_entry_count = s.playlist_entry_count + length p.entries } in
    let one = count_entry_kinds-Grows p.entries grown in
    let rest = summarize_playlists-Grows ps (count_entry_kinds p.entries grown) in
    (
      rest.0 ∙ one.0,
      omega (arith, one.1, rest.1),
      rest.2 ∙ one.2,
      omega (arith, one.3, rest.3),
      omega (arith, one.4, rest.4),
    )

-- The summary of every candidate has the number of its playlists, of their entries and of the liked
-- songs, and the numbers of supported and of unsupported entries among all of these.
pub summarize_candidate-kinds :
    (c : Candidate)
    → let s = summarize_candidate c in
      (s.playlist_count ≡ length c.playlists)
      × (s.playlist_entry_count ≡ in_playlists length c.playlists)
      × (s.liked_songs_entry_count ≡ length c.liked_songs)
      × (s.supported_entry_occurrences
          ≡ in_playlists (occurrences supported) c.playlists + occurrences supported c.liked_songs)
      × (s.unsupported_entry_occurrences
          ≡ in_playlists (occurrences unsupported) c.playlists
            + occurrences unsupported c.liked_songs)
unfolding summarize_candidate
summarize_candidate-kinds c =
    let start : SpotifySyncSummary = record {
      playlist_count = length c.playlists;
      playlist_entry_count = 0;
      liked_songs_entry_count = length c.liked_songs;
      supported_entry_occurrences = 0;
      unsupported_entry_occurrences = 0;
    } in
    let one = summarize_playlists-Grows c.playlists start in
    let rest = count_entry_kinds-Grows c.liked_songs (summarize_playlists c.playlists start) in
    (
      rest.0 ∙ one.0,
      omega (arith, one.1, rest.1),
      rest.2 ∙ one.2,
      omega (arith, one.3, rest.3),
      omega (arith, one.4, rest.4),
    )
