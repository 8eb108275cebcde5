-- ===== src/Youtube/Inspect.antt =====
-- youtube.go: BuildYouTubeQuery, inspectYouTubeCandidatesWithPolicy and the selection from its
-- report. Go's absent strings and nil pointers are `none`.
pub mod Loop
pub mod Sort
pub mod Verdicts
pub mod Decide
use offbeat.Youtube.Tokens.{marker_set}
use offbeat.Youtube.Strings.{fields, join, Unicode}
use offbeat.Prelude.{
  err, length, text_lt, zero, ◌&&◌, ◌||◌, is_empty, ltb, suc, take, text_eq, ◌++◌, ◌-◌, Result,
  codes, false, leb, not, ok, true, ◌+◌, ◌==◌, ◌∷◌, Bool, List, Option, Text, [], if◌then◌else◌,
  none, some, ℕ,
}
use offbeat.Desired.State.{NamedUri, Track}
use offbeat.Youtube.Rank.{
  rank_youtube_candidate, candidate_version_text, YouTubeSearchResult, CandidateRejection, Ranking,
  CandidateRank,
}

pub data ResolutionReason : Type 0 where
  no_candidates metadata_mismatch title_mismatch artist_mismatch : ResolutionReason
  version_conflict duration_mismatch weak_winner ambiguous : ResolutionReason

-- config.AmbiguityAutoBest, or any other policy.
pub data Policy : Type 0 where
  manual auto_best : Policy

pub record YouTubeQuery : Type 0 where
  pub text : Text
  pub duration_ms : ℕ
  pub version_markers : List Text

pub record ResolutionDiagnostic : Type 0 where
  pub policy : Policy
  pub reason : Option ResolutionReason
  pub candidates : ℕ
  pub metadata_rejected : ℕ
  pub title_rejected : ℕ
  pub artist_rejected : ℕ
  pub version_rejected : ℕ
  pub duration_rejected : ℕ
  pub eligible : ℕ

-- The scores of an eligible candidate, which the code sets together.
pub record Scores : Type 0 where
  pub title_score : ℕ
  pub artist_score : ℕ
  pub duration_score : ℕ
  pub duration_delta_ms : ℕ
  pub score : ℕ

pub record CandidateEvidence : Type 0 where
  pub video_id : Text
  pub first_search_position : ℕ
  pub duplicate_search_positions : List ℕ
  pub candidate_version_markers : List Text
  pub eligible : Bool
  pub rejection_reason : Option ResolutionReason
  pub scores : Option Scores
  pub rank : Option ℕ

pub record ResolutionDecision : Type 0 where
  pub acceptance_floor : ℕ
  pub runner_up_margin : ℕ
  pub winner_video_id : Text
  pub winner_score : Option ℕ
  pub runner_up_video_id : Text
  pub runner_up_score : Option ℕ
  pub score_gap : Option ℕ
  pub floor_passed : Option Bool
  pub margin_passed : Option Bool
  pub selected_url : Text
  pub unresolved_reason : Option ResolutionReason
  pub selection_reason : Text

-- The report, with the Desired track whole in place of its projection InspectionTrack.
pub record ResolutionInspection : Type 0 where
  pub policy : Policy
  pub fresh_search : Bool
  pub captured_at : Text
  pub track : Track
  pub query : YouTubeQuery
  pub candidate_limit : ℕ
  pub raw_results : List YouTubeSearchResult
  pub candidates : List CandidateEvidence
  pub decision : ResolutionDecision
  pub diagnostic : ResolutionDiagnostic

abbrev pub youtube_candidate_limit : ℕ
youtube_candidate_limit = 10

abbrev pub youtube_acceptance_floor : ℕ
youtube_acceptance_floor = 82

abbrev pub youtube_runner_up_margin : ℕ
youtube_runner_up_margin = 7

unfoldable pub rejection_reason : CandidateRejection → ResolutionReason
rejection_reason CandidateRejection.title = title_mismatch
rejection_reason CandidateRejection.artist = artist_mismatch
rejection_reason CandidateRejection.version = version_conflict
rejection_reason CandidateRejection.duration = duration_mismatch
rejection_reason CandidateRejection.metadata = metadata_mismatch

-- The switch that counts a rejection.
unfoldable pub count_rejection : CandidateRejection → ResolutionDiagnostic → ResolutionDiagnostic
count_rejection CandidateRejection.title d = record d { title_rejected = d.title_rejected + 1 }
count_rejection CandidateRejection.artist d = record d { artist_rejected = d.artist_rejected + 1 }
count_rejection CandidateRejection.version d = record d {
  version_rejected = d.version_rejected + 1;
}
count_rejection CandidateRejection.duration d = record d {
  duration_rejected = d.duration_rejected + 1;
}
count_rejection CandidateRejection.metadata d = record d {
  metadata_rejected = d.metadata_rejected + 1;
}

-- A ranked candidate with the index of its evidence.
pub record Ranked : Type 0 where
  pub entry : CandidateRank
  pub open entry use *
  pub report_index : ℕ

-- What the loop over the results builds.
pub record Survey : Type 0 where
  pub evidence : List CandidateEvidence
  pub ranked : List Ranked
  pub diagnostic : ResolutionDiagnostic

unfoldable pub is_seen : Text → List CandidateEvidence → Bool
is_seen id [] = false
is_seen id (e ∷ es) = text_eq e.video_id id || is_seen id es

-- report.Candidates[seenIndex[candidate.ID]]
unfoldable pub add_duplicate : Text → ℕ → List CandidateEvidence → List CandidateEvidence
add_duplicate id position [] = []
add_duplicate id position (e ∷ es) =
    if text_eq e.video_id id
    then record e { duplicate_search_positions = e.duplicate_search_positions ++ position ∷ [] }
      ∷ es
    else e ∷ add_duplicate id position es

abbrev pub scores_of : CandidateRank → Scores
scores_of r = record {
  title_score = r.title_score;
  artist_score = r.artist_score;
  duration_score = r.duration_score;
  duration_delta_ms = r.delta_ms;
  score = r.score;
}

abbrev pub evidence_of : ℕ → YouTubeSearchResult → List Text → CandidateEvidence
evidence_of position c markers = record {
  video_id = c.id;
  first_search_position = position + 1;
  duplicate_search_positions = [];
  candidate_version_markers = markers;
  eligible = false;
  rejection_reason = none;
  scores = none;
  rank = none;
}

-- One new result, with its ranking.
unfoldable pub survey_ranking : CandidateEvidence → Ranking → Survey → Survey
survey_ranking e (ok r) s = record {
  evidence = s.evidence ++ record e { eligible = true; scores = some (scores_of r) } ∷ [];
  ranked = s.ranked ++ record { entry = r; report_index = length s.evidence } ∷ [];
  diagnostic = record (s.diagnostic) { candidates = s.diagnostic.candidates + 1 };
}
survey_ranking e (err x) s = record {
  evidence = s.evidence ++ record e { rejection_reason = some (rejection_reason x) } ∷ [];
  ranked = s.ranked;
  diagnostic =
      count_rejection x (record (s.diagnostic) { candidates = s.diagnostic.candidates + 1 });
}

-- ranked[i] before ranked[j]
unfoldable pub ranks_before : Ranked → Ranked → Bool
ranks_before a b =
    if not (a.score == b.score)
    then ltb b.score a.score
    else if not (a.delta_ms == b.delta_ms)
    then ltb a.delta_ms b.delta_ms
    else text_lt a.candidate.id b.candidate.id

unfoldable pub insert_ranked : Ranked → List Ranked → List Ranked
insert_ranked r [] = r ∷ []
insert_ranked r (x ∷ xs) =
    let later = x ∷ insert_ranked r xs in if ranks_before x r then later else r ∷ x ∷ xs

-- sort.Slice: the order of results that it does not tell apart is not specified.
unfoldable pub sort_ranked : List Ranked → List Ranked
sort_ranked [] = []
sort_ranked (r ∷ rs) = insert_ranked r (sort_ranked rs)

abbrev set_rank : ℕ → ℕ → List CandidateEvidence → List CandidateEvidence
set_rank i rank [] = []
set_rank zero rank (e ∷ es) = record e { rank = some rank } ∷ es
set_rank (suc i) rank (e ∷ es) = e ∷ set_rank i rank es

unfoldable pub set_ranks : ℕ → List Ranked → List CandidateEvidence → List CandidateEvidence
set_ranks rank [] es = es
set_ranks rank (r ∷ rs) es = set_ranks (suc rank) rs (set_rank r.report_index rank es)

-- The switch on why nothing is eligible.
unfoldable pub empty_reason : ResolutionDiagnostic → ResolutionReason
empty_reason d =
    if d.candidates == 0
    then no_candidates
    else if ltb 0 d.title_rejected && (d.candidates == d.title_rejected)
    then title_mismatch
    else if ltb 0 d.artist_rejected && (d.candidates == d.artist_rejected)
    then artist_mismatch
    else if ltb 0 d.version_rejected && (d.candidates == d.version_rejected)
    then version_conflict
    else if ltb 0 d.duration_rejected && (d.candidates == d.duration_rejected)
    then duration_mismatch
    else metadata_mismatch

abbrev pub undecided : ResolutionDecision
undecided = record {
  acceptance_floor = youtube_acceptance_floor;
  runner_up_margin = youtube_runner_up_margin;
  winner_video_id = [];
  winner_score = none;
  runner_up_video_id = [];
  runner_up_score = none;
  score_gap = none;
  floor_passed = none;
  margin_passed = none;
  selected_url = [];
  unresolved_reason = none;
  selection_reason = [];
}

abbrev pub is_auto : Policy → Bool
is_auto auto_best = true
is_auto manual = false

abbrev pub watch_url : Text → Text
watch_url id = codes "https://www.youtube.com/watch?v=" ++ id

abbrev pub auto_reason : Policy → Text
auto_reason manual = []
auto_reason auto_best =
    codes
      "highest eligible above floor; ties ranked by score, duration delta, then video ID; auto_best bypasses margin"

abbrev with_winner : Ranked → ResolutionDecision
with_winner w = record undecided {
  winner_video_id = w.candidate.id;
  winner_score = some w.score;
  floor_passed = some (leb youtube_acceptance_floor w.score);
  margin_passed = some true;
}

abbrev has_margin : Ranked → Ranked → Bool
has_margin w r = leb (r.score + youtube_runner_up_margin) w.score

abbrev with_runner_up : Ranked → List Ranked → ResolutionDecision → ResolutionDecision
with_runner_up w [] d = d
with_runner_up w (r ∷ rs) d = record d {
  runner_up_video_id = r.candidate.id;
  runner_up_score = some r.score;
  score_gap = some (w.score - r.score);
  margin_passed = some (has_margin w r);
}

abbrev is_close : Ranked → List Ranked → Bool
is_close w [] = false
is_close w (r ∷ rs) = not (has_margin w r)

-- The decision and the reason for the diagnostic, over the sorted list.
unfoldable pub decide :
    Policy → ResolutionDiagnostic → List Ranked → ResolutionDecision × Option ResolutionReason
decide policy diagnostic [] =
    let reason = empty_reason diagnostic in
    (record undecided { unresolved_reason = some reason }, some reason)
decide policy diagnostic (w ∷ rs) =
    let d = with_runner_up w rs (with_winner w) in
    if ltb w.score youtube_acceptance_floor
    then (record d { unresolved_reason = some weak_winner }, some weak_winner)
    else if not (is_auto policy) && is_close w rs
    then (record d { unresolved_reason = some ambiguous }, some ambiguous)
    else (
      record d { selected_url = watch_url w.candidate.id; selection_reason = auto_reason policy },
      none,
    )

abbrev pub new_diagnostic : Policy → ResolutionDiagnostic
new_diagnostic policy = record {
  policy = policy;
  reason = none;
  candidates = 0;
  metadata_rejected = 0;
  title_rejected = 0;
  artist_rejected = 0;
  version_rejected = 0;
  duration_rejected = 0;
  eligible = 0;
}

abbrev pub new_survey : Policy → Survey
new_survey policy = record { evidence = []; ranked = []; diagnostic = new_diagnostic policy }

module _ (U : Unicode) where
  artist_parts : List NamedUri → List Text
  artist_parts [] = []
  artist_parts (a ∷ as') =
      let value = join (codes " ") (fields U a.name) in
      (if is_empty value then [] else value ∷ []) ++ artist_parts as'

  unfoldable pub build_youtube_query : Track → YouTubeQuery
  unfolding artist_parts
  build_youtube_query track =
      let title = join (codes " ") (fields U track.name) in
      record {
        text =
            join (codes " - ")
              (artist_parts track.artists ++ (if is_empty title then [] else title ∷ []));
        duration_ms = track.duration_ms;
        version_markers = marker_set U track.name;
      }

  unfoldable pub survey_one : Track → ℕ → YouTubeSearchResult → Survey → Survey
  survey_one track position c s =
      if is_seen c.id s.evidence
      then record s { evidence = add_duplicate c.id (position + 1) s.evidence }
      else survey_ranking
          (evidence_of position c (marker_set U (candidate_version_text U c.title track.artists)))
          (rank_youtube_candidate U track c) s

  -- The loop over the results.
  unfoldable pub survey : Track → ℕ → List YouTubeSearchResult → Survey → Survey
  survey track position [] s = s
  survey track position (c ∷ cs) s = survey track (suc position) cs (survey_one track position c s)

  unfoldable pub inspect_youtube_candidates_with_policy :
      Track → YouTubeQuery → List YouTubeSearchResult → Text → Policy → ResolutionInspection
  inspect_youtube_candidates_with_policy track query results captured_at policy =
      let raw = take youtube_candidate_limit results in
      let s = survey track 0 raw (new_survey policy) in
      let diagnostic = record (s.diagnostic) { eligible = length s.ranked } in
      let ranked = sort_ranked s.ranked in
      let decided = decide policy diagnostic ranked in
      record {
        policy = policy;
        fresh_search = true;
        captured_at = captured_at;
        track = track;
        query = query;
        candidate_limit = youtube_candidate_limit;
        raw_results = raw;
        candidates = set_ranks 1 ranked s.evidence;
        decision = decided.0;
        diagnostic = record diagnostic { reason = decided.1 };
      }

  -- selectYouTubeCandidate, with the diagnostic as the error
  unfoldable pub selection_from_inspection : ResolutionInspection → Result ResolutionDiagnostic Text
  selection_from_inspection report =
      if is_empty report.decision.selected_url
      then err report.diagnostic
      else ok report.decision.selected_url

  unfoldable pub select_youtube_candidate :
      Track → List YouTubeSearchResult → Result ResolutionDiagnostic Text
  select_youtube_candidate track results =
      selection_from_inspection
        (inspect_youtube_candidates_with_policy track (build_youtube_query track) results [] manual)
