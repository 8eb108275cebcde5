-- ===== src/Evaluation.antt =====
-- internal/acquisition/evaluation.go: the corpus of captured searches, its validation and its
-- replay. A policy is its name; a time is its text, empty for Go's zero time; a string type has
-- its constants and `other_` for every other string. Errors keep their cause, not its position.
pub mod Replay
pub mod Accounts
pub mod Outcomes
pub mod Witnesses
use offbeat.Prelude.{
  ℕ, Text, codes, is_empty, text_eq, Bool, true, false, not, ◌&&◌, ◌||◌, Option, none, some, List,
  [], ◌∷◌, length, ltb, ◌==◌, Result, refuse_if, ◌>>◌, ok,
}
use offbeat.Desired.State.{Track}
use offbeat.Youtube.Strings.{Unicode, trim_space, is_one_of}
use offbeat.Youtube.Rank.{is_youtube_id, YouTubeSearchResult}
use offbeat.Youtube.Inspect.{
  Policy, YouTubeQuery, ResolutionDecision, ResolutionInspection, youtube_candidate_limit,
}

pub data CandidateLabel : Type 0 where
  acceptable incorrect unknown other_label : CandidateLabel

pub data FailureStage : Type 0 where
  search retrieval other_stage : FailureStage

pub record Tool : Type 0 where
  pub name : Text
  pub version : Text

pub record CaptureEnvironment : Type 0 where
  pub os : Text
  pub architecture : Text

pub record InspectionProducer : Type 0 where
  pub decision_tool : Tool
  pub search_tool : Tool
  pub environment : CaptureEnvironment

pub record CaptureProvenance : Type 0 where
  pub captured_by : Tool
  pub policy : Text
  pub producer : Option InspectionProducer

pub record ResolutionObservation : Type 0 where
  pub policy : Text
  pub captured_at : Text
  pub track : Track
  pub query : YouTubeQuery
  pub candidate_limit : ℕ
  pub raw_results : List YouTubeSearchResult
  pub recorded_decision : ResolutionDecision

pub record CandidateAnnotation : Type 0 where
  pub video_id : Text
  pub label : CandidateLabel
  pub evidence : Text
  pub provenance : Text

pub record EvaluationCapture : Type 0 where
  pub capture_id : Text
  pub provenance : CaptureProvenance
  pub observation : Option ResolutionObservation
  pub failure : Option FailureStage
  pub annotations : List CandidateAnnotation

pub record EvaluationCorpus : Type 0 where
  pub format_version : ℕ
  pub captures : List EvaluationCapture

pub data CorpusError : Type 0 where
  unsupported_format no_captures : CorpusError
  no_capture_id duplicate_capture_id no_capture_tool : CorpusError
  not_exactly_one unsupported_policy unsupported_stage : CorpusError
  inconsistent_policy no_decision_tool no_search_tool no_environment : CorpusError
  no_timestamp inexact_track no_query unbounded_results : CorpusError
  invalid_video_id duplicate_video_id video_not_captured : CorpusError
  unsupported_label no_evidence : CorpusError

unfoldable pub valid_capture_policy : Text → Bool
valid_capture_policy p = is_empty p || text_eq p (codes "manual") || text_eq p (codes "auto_best")

abbrev is_some : {A : Type 0} → Option A → Bool
is_some none = false
is_some (some a) = true

abbrev both : Bool → Bool → Bool
both a b = (a && b) || (not a && not b)

unfoldable pub is_known_stage : FailureStage → Bool
is_known_stage search = true
is_known_stage retrieval = true
is_known_stage other_stage = false

unfoldable pub stage_refused : Option FailureStage → Bool
unfolding is_known_stage
stage_refused none = false
stage_refused (some s) = not (is_known_stage s)

abbrev is_known_label : CandidateLabel → Bool
is_known_label other_label = false
is_known_label _ = true

captured_ids : List YouTubeSearchResult → List Text
captured_ids [] = []
captured_ids (c ∷ cs) = c.id ∷ captured_ids cs

abbrev results_of : Option ResolutionObservation → List YouTubeSearchResult
results_of none = []
results_of (some o) = o.raw_results

abbrev Checked : Type 0
Checked = Result CorpusError (Unit {0})

module _ (U : Unicode) where
  abbrev is_blank : Text → Bool
  is_blank t = is_empty (trim_space U t)

  validate_producer : Option InspectionProducer → Checked
  validate_producer none = refuse_if true no_decision_tool
  validate_producer (some p) =
      refuse_if (is_blank p.decision_tool.name || is_blank p.decision_tool.version) no_decision_tool
      >> refuse_if (is_blank p.search_tool.name || is_blank p.search_tool.version) no_search_tool
      >> refuse_if (is_blank p.environment.os || is_blank p.environment.architecture) no_environment

  -- The block for an observation.
  validate_observation : CaptureProvenance → Option ResolutionObservation → Checked
  unfolding valid_capture_policy validate_producer
  validate_observation provenance none = ok tt
  validate_observation provenance (some o) =
      refuse_if
        (not (valid_capture_policy o.policy)
          || (not (is_empty provenance.policy) && not (text_eq provenance.policy o.policy)))
        inconsistent_policy
      >> validate_producer provenance.producer
      >> refuse_if (is_empty o.captured_at) no_timestamp
      >> refuse_if
          (is_empty o.track.uri
            || is_empty o.track.name
            || (length o.track.artists == 0)
            || (o.track.duration_ms == 0))
          inexact_track
      >> refuse_if (is_empty o.query.text || (o.query.duration_ms == 0)) no_query
      >> refuse_if
          (not (o.candidate_limit == youtube_candidate_limit)
            || ltb o.candidate_limit (length o.raw_results))
          unbounded_results

  -- The loop over a capture's annotations.
  unfoldable pub validate_annotations : List Text → List Text → List CandidateAnnotation → Checked
  validate_annotations captured seen [] = ok tt
  validate_annotations captured seen (a ∷ as') =
      refuse_if (not (is_youtube_id a.video_id)) invalid_video_id
      >> refuse_if (is_one_of a.video_id seen) duplicate_video_id
      >> refuse_if (not (is_one_of a.video_id captured)) video_not_captured
      >> refuse_if (not (is_known_label a.label)) unsupported_label
      >> refuse_if (is_blank a.evidence || is_blank a.provenance) no_evidence
      >> validate_annotations captured (a.video_id ∷ seen) as'

  -- The body of the loop over the captures.
  unfoldable pub validate_capture : List Text → EvaluationCapture → Checked
  unfolding captured_ids validate_observation
  validate_capture seen c =
      refuse_if (is_blank c.capture_id) no_capture_id
      >> refuse_if (is_one_of c.capture_id seen) duplicate_capture_id
      >> refuse_if
          (is_blank c.provenance.captured_by.name || is_blank c.provenance.captured_by.version)
          no_capture_tool
      >> refuse_if (both (not (is_some c.observation)) (not (is_some c.failure))) not_exactly_one
      >> refuse_if (not (valid_capture_policy c.provenance.policy)) unsupported_policy
      >> refuse_if (stage_refused c.failure) unsupported_stage
      >> validate_observation c.provenance c.observation
      >> validate_annotations (captured_ids (results_of c.observation)) [] c.annotations

  unfoldable pub validate_captures : List Text → List EvaluationCapture → Checked
  validate_captures seen [] = ok tt
  validate_captures seen (c ∷ cs) =
      validate_capture seen c >> validate_captures (c.capture_id ∷ seen) cs

  unfoldable pub validate_evaluation_corpus : EvaluationCorpus → Checked
  validate_evaluation_corpus corpus =
      refuse_if (not (corpus.format_version == 1)) unsupported_format
      >> refuse_if (length corpus.captures == 0) no_captures
      >> validate_captures [] corpus.captures
