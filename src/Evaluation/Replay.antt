-- ===== src/Evaluation/Replay.antt =====
-- internal/acquisition/evaluation.go: ReplayYouTubeObservation, classifyEvaluationOutcome and
-- ReplayEvaluationCorpus. The replay of a policy name that is neither constant is the manual one.
use offbeat.Prelude.{
  codes, length, ok, ◌&&◌, is_empty, none, not, some, text_eq, ◌==◌, ◌>>◌, ◌∷◌, Bool, List, Option,
  Text, [], false, if◌then◌else◌, true, ℕ, ◌++◌, ◌+◌,
}
use offbeat.Desired.State.{Track}
use offbeat.Youtube.Strings.{Unicode}
use offbeat.Youtube.Rank.{YouTubeSearchResult}
use offbeat.Youtube.Inspect.{
  Policy, manual, auto_best, ResolutionDecision, ResolutionReason, ResolutionInspection,
  inspect_youtube_candidates_with_policy,
}
use offbeat.Evaluation.{
  Result, CandidateLabel, acceptable, incorrect, unknown, other_label, FailureStage, search,
  retrieval, other_stage, ResolutionObservation, CandidateAnnotation, EvaluationCapture,
  EvaluationCorpus, CorpusError, validate_evaluation_corpus,
}

-- `no_outcome` is Go's empty string.
pub data EvaluationOutcome : Type 0 where
  correct_automatic incorrect_automatic : EvaluationOutcome
  appropriate_unresolved avoidable_unresolved unknown_or_unlabeled : EvaluationOutcome
  search_failure retrieval_failure no_outcome : EvaluationOutcome

pub record EvaluationCounts : Type 0 where
  pub correct_automatic_selections : ℕ
  pub incorrect_automatic_selections : ℕ
  pub appropriate_unresolved_count : ℕ
  pub avoidable_unresolved_count : ℕ
  pub unknown_or_unlabeled_count : ℕ
  pub search_failures : ℕ
  pub retrieval_failures : ℕ

pub record EvaluationCaseResult : Type 0 where
  pub capture_id : Text
  pub policy : Text
  pub outcome : EvaluationOutcome
  pub decision_matches_recorded : Option Bool
  pub replay : Option ResolutionInspection
  pub failure : Option FailureStage

pub record EvaluationReport : Type 0 where
  pub policy : Text
  pub total : ℕ
  pub counts : EvaluationCounts
  pub cases : List EvaluationCaseResult

-- labels[id], of a map that the annotations fill in order; `label` is its value so far.
label_from : CandidateLabel → List CandidateAnnotation → Text → CandidateLabel
label_from label [] id = label
label_from label (a ∷ as') id = label_from (if text_eq a.video_id id then a.label else label) as' id

unfoldable pub label_of : List CandidateAnnotation → Text → CandidateLabel
unfolding label_from
label_of as' id = label_from other_label as' id

pub record LabelFlags : Type 0 where
  pub all_incorrect : Bool
  pub has_acceptable : Bool
  pub has_unknown : Bool

-- The switch on one label.
unfoldable pub flag_label : CandidateLabel → LabelFlags → LabelFlags
flag_label acceptable f = record f { has_acceptable = true; all_incorrect = false }
flag_label incorrect f = f
flag_label unknown f = record f { all_incorrect = false; has_unknown = true }
flag_label other_label f = record f { all_incorrect = false; has_unknown = true }

-- The loop over the unique ids: a repeated id sets the same flags again.
unfoldable pub flag_labels :
    List CandidateAnnotation → List YouTubeSearchResult → LabelFlags → LabelFlags
flag_labels as' [] f = f
flag_labels as' (c ∷ cs) f = flag_labels as' cs (flag_label (label_of as' c.id) f)

abbrev pub new_flags : LabelFlags
new_flags = record { all_incorrect = true; has_acceptable = false; has_unknown = false }

unfoldable pub automatic_outcome : CandidateLabel → EvaluationOutcome
automatic_outcome acceptable = correct_automatic
automatic_outcome incorrect = incorrect_automatic
automatic_outcome _ = unknown_or_unlabeled

unfoldable pub unresolved_outcome : LabelFlags → EvaluationOutcome
unresolved_outcome f =
    if f.has_unknown
    then unknown_or_unlabeled
    else if f.has_acceptable
    then avoidable_unresolved
    else if f.all_incorrect
    then appropriate_unresolved
    else unknown_or_unlabeled

unfoldable pub classify_evaluation_outcome :
    ResolutionInspection → List CandidateAnnotation → EvaluationOutcome
classify_evaluation_outcome replay as' =
    if not (is_empty replay.decision.selected_url)
    then automatic_outcome (label_of as' replay.decision.winner_video_id)
    else if length replay.raw_results == 0
    then appropriate_unresolved
    else unresolved_outcome (flag_labels as' replay.raw_results new_flags)

unfoldable pub policy_or_manual : Text → Text
policy_or_manual p = if is_empty p then codes "manual" else p

abbrev policy_named : Text → Policy
policy_named p = if text_eq p (codes "auto_best") then auto_best else manual

-- The fields that InspectionTrack carries.
abbrev inspection_desired_track : Track → Track
inspection_desired_track t = record t {
  album_artist = [];
  track_number = none;
  disc_number = none;
  release_date = [];
  artwork_url = [];
}

abbrev same_option : {A : Type 0} → (A → A → Bool) → Option A → Option A → Bool
same_option same none none = true
same_option same none (some b) = false
same_option same (some a) none = false
same_option same (some a) (some b) = same a b

abbrev same_bool : Bool → Bool → Bool
same_bool a b = if a then b else not b

abbrev reason_number : ResolutionReason → ℕ
reason_number ResolutionReason.no_candidates = 0
reason_number ResolutionReason.metadata_mismatch = 1
reason_number ResolutionReason.title_mismatch = 2
reason_number ResolutionReason.artist_mismatch = 3
reason_number ResolutionReason.version_conflict = 4
reason_number ResolutionReason.duration_mismatch = 5
reason_number ResolutionReason.weak_winner = 6
reason_number ResolutionReason.ambiguous = 7

-- reflect.DeepEqual
unfoldable pub same_decision : ResolutionDecision → ResolutionDecision → Bool
same_decision a b =
    (a.acceptance_floor == b.acceptance_floor)
    && (a.runner_up_margin == b.runner_up_margin)
    && text_eq a.winner_video_id b.winner_video_id
    && same_option ◌==◌ a.winner_score b.winner_score
    && text_eq a.runner_up_video_id b.runner_up_video_id
    && same_option ◌==◌ a.runner_up_score b.runner_up_score
    && same_option ◌==◌ a.score_gap b.score_gap
    && same_option same_bool a.floor_passed b.floor_passed
    && same_option same_bool a.margin_passed b.margin_passed
    && text_eq a.selected_url b.selected_url
    && same_option (λ r s. reason_number r == reason_number s) a.unresolved_reason
        b.unresolved_reason
    && text_eq a.selection_reason b.selection_reason

-- The switch on an outcome, with the one on a failure's stage.
unfoldable pub count_outcome : EvaluationOutcome → EvaluationCounts → EvaluationCounts
count_outcome correct_automatic n = record n {
  correct_automatic_selections = n.correct_automatic_selections + 1;
}
count_outcome incorrect_automatic n = record n {
  incorrect_automatic_selections = n.incorrect_automatic_selections + 1;
}
count_outcome appropriate_unresolved n = record n {
  appropriate_unresolved_count = n.appropriate_unresolved_count + 1;
}
count_outcome avoidable_unresolved n = record n {
  avoidable_unresolved_count = n.avoidable_unresolved_count + 1;
}
count_outcome unknown_or_unlabeled n = record n {
  unknown_or_unlabeled_count = n.unknown_or_unlabeled_count + 1;
}
count_outcome search_failure n = record n { search_failures = n.search_failures + 1 }
count_outcome retrieval_failure n = record n { retrieval_failures = n.retrieval_failures + 1 }
count_outcome no_outcome n = n

unfoldable pub stage_outcome : FailureStage → EvaluationOutcome
stage_outcome search = search_failure
stage_outcome retrieval = retrieval_failure
stage_outcome other_stage = no_outcome

-- capture.Provenance.Policy, or the observation's.
abbrev recorded_policy : EvaluationCapture → Option ResolutionObservation → Text
recorded_policy c none = c.provenance.policy
recorded_policy c (some o) = o.policy

unfoldable pub report_policy : Text → Text → Text
report_policy so_far p =
    if is_empty so_far then p else if text_eq so_far p then so_far else codes "mixed"

unfoldable pub add_case : EvaluationCaseResult → EvaluationReport → EvaluationReport
add_case result r = record r {
  policy = report_policy r.policy result.policy;
  counts = count_outcome result.outcome r.counts;
  cases = r.cases ++ result ∷ [];
}

abbrev no_counts : EvaluationCounts
no_counts = record {
  correct_automatic_selections = 0;
  incorrect_automatic_selections = 0;
  appropriate_unresolved_count = 0;
  avoidable_unresolved_count = 0;
  unknown_or_unlabeled_count = 0;
  search_failures = 0;
  retrieval_failures = 0;
}

abbrev pub new_report : ℕ → EvaluationReport
new_report total = record { policy = []; total = total; counts = no_counts; cases = [] }

module _ (U : Unicode) where
  unfoldable pub replay_youtube_observation : ResolutionObservation → ResolutionInspection
  replay_youtube_observation o =
      record (inspect_youtube_candidates_with_policy U (inspection_desired_track o.track) o.query
        o.raw_results o.captured_at (policy_named (policy_or_manual o.policy))) {
          fresh_search = false;
        }

  -- The result of one capture; the code would dereference nil for one with neither part.
  unfoldable pub replay_capture :
      EvaluationCapture → Option FailureStage → Option ResolutionObservation → EvaluationCaseResult
  replay_capture c (some stage) o = record {
    capture_id = c.capture_id;
    policy = policy_or_manual (recorded_policy c o);
    outcome = stage_outcome stage;
    decision_matches_recorded = none;
    replay = none;
    failure = some stage;
  }
  replay_capture c none (some o) =
      let replayed = replay_youtube_observation o in
      record {
        capture_id = c.capture_id;
        policy = policy_or_manual o.policy;
        outcome = classify_evaluation_outcome replayed c.annotations;
        decision_matches_recorded = some (same_decision replayed.decision o.recorded_decision);
        replay = some replayed;
        failure = none;
      }
  replay_capture c none none = record {
    capture_id = c.capture_id;
    policy = policy_or_manual c.provenance.policy;
    outcome = no_outcome;
    decision_matches_recorded = none;
    replay = none;
    failure = none;
  }

  -- The loop over the captures.
  unfoldable pub replay_captures : List EvaluationCapture → EvaluationReport → EvaluationReport
  replay_captures [] r = r
  replay_captures (c ∷ cs) r =
      replay_captures cs (add_case (replay_capture c c.failure c.observation) r)

  unfoldable pub replay_evaluation_corpus : EvaluationCorpus → Result CorpusError EvaluationReport
  replay_evaluation_corpus corpus =
      validate_evaluation_corpus U corpus
      >> ok (replay_captures corpus.captures (new_report (length corpus.captures)))
