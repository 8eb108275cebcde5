-- ===== src/Youtube/Inspect/Loop.antt =====
-- The loop over the search results against a description of it: the first result of each video,
-- ranked, with every rejection counted.
use mathlib.Core.List.{map-append, append-nil, append_assoc}
use offbeat.Desired.State.{Track}
use offbeat.Youtube.Strings.{is_one_of, Unicode}
use offbeat.Youtube.Rank.{rank_youtube_candidate, YouTubeSearchResult, CandidateRank, Ranking}
use offbeat.Prelude.{
  ◌≤◌, ap, inr, sym, some, ◌∙◌, err, inl, refl, true, ◌||◌, Bool-cases, [], if◌then◌else◌,
  length-append, suc, text_eq_iff, arith, map, ok, ◌++◌, ◌+◌, ◌∷◌, length, text_eq, ℕ, List, Text,
  ◌≡◌,
}
use offbeat.Youtube.Inspect.{
  rejection_reason, scores_of, evidence_of, survey_one, CandidateEvidence, Ranked, count_rejection,
  ResolutionDiagnostic, add_duplicate, is_seen, survey_ranking, Survey, survey,
}

abbrev pub rejected : ResolutionDiagnostic → ℕ
rejected d =
    d.metadata_rejected + d.title_rejected + d.artist_rejected + d.version_rejected
    + d.duration_rejected

-- Each unique result is counted once, as eligible or under its rejection.
pub record IsTallied (s : Survey) : Type 0 where
  pub unique : s.diagnostic.candidates ≡ length s.evidence
  pub sorted_out : s.diagnostic.candidates ≡ rejected s.diagnostic + length s.ranked

length-add_duplicate :
    (id : Text) (n : ℕ) (es : List CandidateEvidence) → length (add_duplicate id n es) ≡ length es
unfolding add_duplicate
length-add_duplicate id n [] = refl
length-add_duplicate id n (e ∷ es) = ground (arith, length-add_duplicate id n es)

survey_ranking-IsTallied :
    (e : CandidateEvidence) (r : Ranking) (s : Survey)
    → IsTallied s
    → IsTallied (survey_ranking e r s)
unfolding survey_ranking count_rejection
survey_ranking-IsTallied e (ok r) s t = record {
  unique = omega (
    arith,
    t.unique,
    length-append s.evidence (record e { eligible = true; scores = some (scores_of r) } ∷ []),
  );
  sorted_out = omega (
    arith,
    t.sorted_out,
    length-append s.ranked (record { entry = r; report_index = length s.evidence } ∷ []),
  );
}
survey_ranking-IsTallied e (err x) s t =
    let grown =
      length-append s.evidence (record e { rejection_reason = some (rejection_reason x) } ∷ []) in
    ground (arith, grown)

abbrev pub if_ranked : Ranking → List CandidateRank
if_ranked (ok r) = r ∷ []
if_ranked (err x) = []

module _ (U : Unicode) (track : Track) where
  survey_one-IsTallied :
      (n : ℕ) (c : YouTubeSearchResult) (s : Survey)
      → IsTallied s
      → IsTallied (survey_one U track n c s)
  unfolding survey_one
  survey_one-IsTallied n c s t = elim (Bool-cases (is_seen c.id s.evidence)) [
    | inl e ↦ rw e (record {
      unique = t.unique ∙ sym (length-add_duplicate c.id (n + 1) s.evidence);
      sorted_out = t.sorted_out;
    })
    | inr e ↦ rw e (survey_ranking-IsTallied _ _ s t)
  ]

  pub survey-IsTallied :
      (n : ℕ) (cs : List YouTubeSearchResult) (s : Survey)
      → IsTallied s
      → IsTallied (survey U track n cs s)
  unfolding survey
  survey-IsTallied n [] s t = t
  survey-IsTallied n (c ∷ cs) s t =
      survey-IsTallied (suc n) cs (survey_one U track n c s) (survey_one-IsTallied n c s t)

  -- The eligible ones among the first results of each video that is not in `seen`.
  pub eligible : List Text → List YouTubeSearchResult → List CandidateRank
  eligible seen [] = []
  eligible seen (c ∷ cs) =
      (if is_one_of c.id seen then [] else if_ranked (rank_youtube_candidate U track c))
      ++ eligible (c.id ∷ seen) cs

abbrev pub entries : List Ranked → List CandidateRank
entries = map (λ r. r.entry)

is_seen-append :
    (id : Text) (es : List CandidateEvidence) (e : CandidateEvidence)
    → is_seen id (es ++ e ∷ []) ≡ (is_seen id es || text_eq e.video_id id)
unfolding is_seen
is_seen-append id [] e = ground arith
is_seen-append id (x ∷ es) e = ground (arith, is_seen-append id es e)

is_seen-add_duplicate :
    (i id : Text) (n : ℕ) (es : List CandidateEvidence)
    → is_seen i (add_duplicate id n es) ≡ is_seen i es
unfolding is_seen add_duplicate
is_seen-add_duplicate i id n [] = refl
is_seen-add_duplicate i id n (e ∷ es) = ground (arith, is_seen-add_duplicate i id n es)

abbrev pub Agree : Survey → List Text → Type 0
Agree s seen = (id : Text) → is_seen id s.evidence ≡ is_one_of id seen

text_eq_sym : (s t : Text) → text_eq s t ≡ text_eq t s
text_eq_sym s t = ground (arith, text_eq_iff s t, text_eq_iff t s)

survey_ranking-Agree :
    (n : ℕ) (c : YouTubeSearchResult) (markers : List Text) (r : Ranking) (s : Survey)
    (seen : List Text)
    → Agree s seen
    → Agree (survey_ranking (evidence_of n c markers) r s) (c.id ∷ seen)
unfolding survey_ranking is_one_of
survey_ranking-Agree n c markers (ok r) s seen a id = ground (
  arith,
  a id,
  is_seen-append id s.evidence
      (record (evidence_of n c markers) { eligible = true; scores = some (scores_of r) }),
  text_eq_sym id c.id,
)
survey_ranking-Agree n c markers (err x) s seen a id = ground (
  arith,
  a id,
  is_seen-append id s.evidence
      (record (evidence_of n c markers) { rejection_reason = some (rejection_reason x) }),
  text_eq_sym id c.id,
)

entries-survey_ranking :
    (e : CandidateEvidence) (r : Ranking) (s : Survey)
    → entries (survey_ranking e r s).ranked ≡ entries s.ranked ++ if_ranked r
unfolding survey_ranking
entries-survey_ranking e (ok r) s = map-append (λ x. x.entry) s.ranked _
entries-survey_ranking e (err x) s = sym (append-nil _)

pub entries-survey_one :
    (U : Unicode) (track : Track) (n : ℕ) (c : YouTubeSearchResult) (s : Survey) (seen : List Text)
    → Agree s seen
    → (entries (survey_one U track n c s).ranked
        ≡ entries s.ranked
          ++ (if is_one_of c.id seen then [] else if_ranked (rank_youtube_candidate U track c)))
      × Agree (survey_one U track n c s) (c.id ∷ seen)
unfolding survey_one
entries-survey_one U track n c s seen a = elim (Bool-cases (is_seen c.id s.evidence)) [
  | inl e ↦ rw (sym (a c.id) ∙ e) (
      rw e (
        sym (append-nil (entries s.ranked)),
        λ id.
            unfold is_one_of in
            ground (
              arith,
              is_seen-add_duplicate id c.id (n + 1) s.evidence,
              a id,
              a c.id,
              text_eq_iff id c.id,
            ),
      ))
  | inr e ↦
      rw (sym (a c.id) ∙ e)
        (rw e (entries-survey_ranking _ _ s, survey_ranking-Agree n c _ _ s seen a))
]

-- The loop keeps exactly the eligible ones among the first results of each video, in order.
pub entries-survey :
    (U : Unicode) (track : Track) (n : ℕ) (cs : List YouTubeSearchResult) (s : Survey)
    (seen : List Text)
    → Agree s seen
    → entries (survey U track n cs s).ranked ≡ entries s.ranked ++ eligible U track seen cs
unfolding survey eligible
entries-survey U track n [] s seen a = sym (append-nil _)
entries-survey U track n (c ∷ cs) s seen a =
    let (e, a') = entries-survey_one U track n c s seen a in
    entries-survey U track (suc n) cs (survey_one U track n c s) (c.id ∷ seen) a'
    ∙ ap (λ es. es ++ eligible U track (c.id ∷ seen) cs) e
    ∙ append_assoc (entries s.ranked)
        (if is_one_of c.id seen then [] else if_ranked (rank_youtube_candidate U track c))
        (eligible U track (c.id ∷ seen) cs)

length-survey_ranking :
    (e : CandidateEvidence) (r : Ranking) (s : Survey)
    → length (survey_ranking e r s).evidence ≡ length s.evidence + 1
unfolding survey_ranking
length-survey_ranking e (ok r) s = length-append s.evidence _
length-survey_ranking e (err x) s = length-append s.evidence _

module _ (U : Unicode) (track : Track) where
  length-survey_one :
      (n : ℕ) (c : YouTubeSearchResult) (s : Survey)
      → length (survey_one U track n c s).evidence ≤ length s.evidence + 1
  unfolding survey_one
  length-survey_one n c s = elim (Bool-cases (is_seen c.id s.evidence)) [
    | inl e ↦ rw e (omega (arith, length-add_duplicate c.id (n + 1) s.evidence))
    | inr e ↦ rw e (omega (arith, length-survey_ranking _ _ s))
  ]

  -- No more evidence than results.
  pub length-survey :
      (n : ℕ) (cs : List YouTubeSearchResult) (s : Survey)
      → length (survey U track n cs s).evidence ≤ length s.evidence + length cs
  unfolding survey
  length-survey n [] s = omega arith
  length-survey n (c ∷ cs) s =
      omega (arith, length-survey_one n c s, length-survey (suc n) cs (survey_one U track n c s))
