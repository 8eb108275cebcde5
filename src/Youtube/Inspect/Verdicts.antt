-- ===== src/Youtube/Inspect/Verdicts.antt =====
-- The diagnostic's counters and the reason for an empty report against the verdicts on the first
-- result of each video.
use offbeat.Prelude.{
  inr, suc, ◌∙◌, sym, inl, Bool-cases, length-append, ◌+◌, [], arith, err, false, if◌then◌else◌,
  length, ◌&&◌, ◌==◌, Text, ok, true, ◌++◌, ◌∷◌, ◌≡◌, ◌≤◌, Bool, List, ℕ,
}
use mathlib.Core.Path.{subst}
use mathlib.Core.List.{append-nil, append_assoc}
use offbeat.Desired.State.{Track}
use offbeat.Youtube.Strings.{is_one_of, Unicode}
use offbeat.Youtube.Rank.{rank_youtube_candidate, YouTubeSearchResult, CandidateRejection, Ranking}
use offbeat.Youtube.Inspect.{
  is_seen, count_rejection, ResolutionDiagnostic, ResolutionReason, empty_reason, survey_ranking,
  Survey, survey, survey_one, CandidateEvidence, no_candidates, metadata_mismatch, title_mismatch,
  artist_mismatch, version_conflict, duration_mismatch,
}
use offbeat.Youtube.Inspect.Loop.{Agree, entries-survey_one}

-- The place of a rejection in an enumeration of them.
abbrev ordinal : CandidateRejection → ℕ
ordinal CandidateRejection.metadata = 0
ordinal CandidateRejection.title = 1
ordinal CandidateRejection.artist = 2
ordinal CandidateRejection.version = 3
ordinal CandidateRejection.duration = 4

abbrev is_rejection : CandidateRejection → Ranking → Bool
is_rejection k (ok r) = false
is_rejection k (err x) = ordinal k == ordinal x

-- How many verdicts are rejections of the kind.
unfoldable pub number : CandidateRejection → List Ranking → ℕ
number k [] = 0
number k (v ∷ vs) = (if is_rejection k v then 1 else 0) + number k vs

-- Whether all verdicts are rejections of the kind.
unfoldable all_rejected : CandidateRejection → List Ranking → Bool
all_rejected k [] = true
all_rejected k (v ∷ vs) = is_rejection k v && all_rejected k vs

abbrev named : CandidateRejection → ResolutionReason
named CandidateRejection.metadata = metadata_mismatch
named CandidateRejection.title = title_mismatch
named CandidateRejection.artist = artist_mismatch
named CandidateRejection.version = version_conflict
named CandidateRejection.duration = duration_mismatch

-- Why nothing is eligible: there is no verdict, or all have the same, or they differ.
unfoldable pub cause : List Ranking → ResolutionReason
unfolding all_rejected
cause [] = no_candidates
cause (ok r ∷ vs) = metadata_mismatch
cause (err x ∷ vs) = if all_rejected x vs then named x else metadata_mismatch

-- What a diagnostic says of the verdicts.
pub record HasVerdicts (d : ResolutionDiagnostic) (vs : List Ranking) : Type 0 where
  pub all : d.candidates ≡ length vs
  pub metadata : d.metadata_rejected ≡ number CandidateRejection.metadata vs
  pub title : d.title_rejected ≡ number CandidateRejection.title vs
  pub artist : d.artist_rejected ≡ number CandidateRejection.artist vs
  pub version : d.version_rejected ≡ number CandidateRejection.version vs
  pub duration : d.duration_rejected ≡ number CandidateRejection.duration vs

number-append :
    (k : CandidateRejection) (vs : List Ranking) (v : Ranking)
    → number k (vs ++ v ∷ []) ≡ number k vs + (if is_rejection k v then 1 else 0)
unfolding number
number-append k [] v = omega arith
number-append k (w ∷ vs) v = omega (arith, number-append k vs v)

number_le : (k : CandidateRejection) (vs : List Ranking) → number k vs ≤ length vs
unfolding number
number_le k [] = omega arith
number_le k (v ∷ vs) = ground (arith, number_le k vs)

-- All are counted exactly when all are rejections of the kind.
number-all :
    (k : CandidateRejection) (vs : List Ranking) → all_rejected k vs ≡ (number k vs == length vs)
unfolding number all_rejected
number-all k [] = ground arith
number-all k (v ∷ vs) = ground (arith, number-all k vs, number_le k vs)

survey_ranking-HasVerdicts :
    (e : CandidateEvidence) (v : Ranking) (s : Survey) (vs : List Ranking)
    → HasVerdicts s.diagnostic vs
    → HasVerdicts (survey_ranking e v s).diagnostic (vs ++ v ∷ [])
unfolding survey_ranking count_rejection
survey_ranking-HasVerdicts e v s vs h =
    let n = length-append vs (v ∷ []) in
    let m = number-append CandidateRejection.metadata vs v in
    let t = number-append CandidateRejection.title vs v in
    let a = number-append CandidateRejection.artist vs v in
    let w = number-append CandidateRejection.version vs v in
    let d = number-append CandidateRejection.duration vs v in
    ground (arith, h.all, h.metadata, h.title, h.artist, h.version, h.duration)

module _ (U : Unicode) (track : Track) where
  -- The verdicts on the first results of each video that is not in `seen`.
  unfoldable pub verdicts : List Text → List YouTubeSearchResult → List Ranking
  verdicts seen [] = []
  verdicts seen (c ∷ cs) =
      (if is_one_of c.id seen then [] else rank_youtube_candidate U track c ∷ [])
      ++ verdicts (c.id ∷ seen) cs

  survey_one-HasVerdicts :
      (n : ℕ) (c : YouTubeSearchResult) (s : Survey) (seen : List Text) (vs : List Ranking)
      → Agree s seen
      → HasVerdicts s.diagnostic vs
      → HasVerdicts
          (survey_one U track n c s).diagnostic
          (vs ++ (if is_one_of c.id seen then [] else rank_youtube_candidate U track c ∷ []))
  unfolding survey_one
  survey_one-HasVerdicts n c s seen vs a h = elim (Bool-cases (is_seen c.id s.evidence)) [
    | inl e ↦ rw (sym (a c.id) ∙ e) (rw e (rw (append-nil vs) h))
    | inr e ↦ rw (sym (a c.id) ∙ e) (rw e (survey_ranking-HasVerdicts _ _ s vs h))
  ]

  -- The loop counts every verdict once.
  pub survey-HasVerdicts :
      (n : ℕ) (cs : List YouTubeSearchResult) (s : Survey) (seen : List Text) (vs : List Ranking)
      → Agree s seen
      → HasVerdicts s.diagnostic vs
      → HasVerdicts (survey U track n cs s).diagnostic (vs ++ verdicts seen cs)
  unfolding survey verdicts
  survey-HasVerdicts n [] s seen vs a h = rw (append-nil vs) h
  survey-HasVerdicts n (c ∷ cs) s seen vs a h =
      let one = if is_one_of c.id seen then [] else rank_youtube_candidate U track c ∷ [] in
      subst (HasVerdicts (survey U track n (c ∷ cs) s).diagnostic)
        (append_assoc vs one (verdicts (c.id ∷ seen) cs))
        (survey-HasVerdicts (suc n) cs (survey_one U track n c s) (c.id ∷ seen) (vs ++ one)
          (entries-survey_one U track n c s seen a).1 (survey_one-HasVerdicts n c s seen vs a h))

-- The numbers of the rejections that have a reason of their own.
abbrev Below : List Ranking → Type 0
Below vs =
    (number CandidateRejection.title vs ≤ length vs)
    × (number CandidateRejection.artist vs ≤ length vs)
    × (number CandidateRejection.version vs ≤ length vs)
    × (number CandidateRejection.duration vs ≤ length vs)

below : (vs : List Ranking) → Below vs
below vs = (number_le _ vs, number_le _ vs, number_le _ vs, number_le _ vs)

-- The code's choice of a reason from its counters is the cause.
pub empty_reason-cause :
    (d : ResolutionDiagnostic) (vs : List Ranking) → HasVerdicts d vs → empty_reason d ≡ cause vs
unfolding empty_reason cause number
empty_reason-cause d [] h = ground (arith, h.all)
empty_reason-cause d (ok r ∷ vs) h = ground (arith, below vs)
empty_reason-cause d (err CandidateRejection.metadata ∷ vs) h =
    ground (arith, below vs, number-all CandidateRejection.metadata vs)
empty_reason-cause d (err CandidateRejection.title ∷ vs) h =
    ground (arith, below vs, number-all CandidateRejection.title vs)
empty_reason-cause d (err CandidateRejection.artist ∷ vs) h =
    ground (arith, below vs, number-all CandidateRejection.artist vs)
empty_reason-cause d (err CandidateRejection.version ∷ vs) h =
    ground (arith, below vs, number-all CandidateRejection.version vs)
empty_reason-cause d (err CandidateRejection.duration ∷ vs) h =
    ground (arith, below vs, number-all CandidateRejection.duration vs)
