-- ===== src/Evaluation/Witnesses.antt =====
-- A corpus of one captured search and one search that failed, and a replay without a selection.
use offbeat.Youtube.Rank.{is_youtube_id}
use offbeat.Evaluation.Outcomes.{unresolved_outcomes, IsJudged, IsIncorrect}
use offbeat.Youtube.Strings.{is_one_of, trim_space}
use offbeat.Youtube.Witnesses.{song_video, song_query, ascii, song}
use offbeat.Evaluation.Accounts.{replay_accounts, counted}
use offbeat.Youtube.Inspect.{new_diagnostic, undecided, manual, ResolutionInspection}
use offbeat.Prelude.{ok, refl, text_eq, All, ◌↔◌, [], false, map, none, some, ◌∷◌, codes, ◌≡◌}
use offbeat.Evaluation.{
  valid_capture_policy, stage_refused, validate_annotations, validate_capture, validate_captures,
  validate_evaluation_corpus, CandidateAnnotation, CaptureProvenance, EvaluationCapture,
  EvaluationCorpus, incorrect, search, Tool,
}
use offbeat.Evaluation.Replay.{
  unknown_or_unlabeled, avoidable_unresolved, appropriate_unresolved, replay_captures,
  EvaluationReport, classify_evaluation_outcome, replay_evaluation_corpus, new_report,
}

abbrev offbeat_tool : Tool
offbeat_tool = record { name = codes "offbeat"; version = codes "1" }

abbrev song_provenance : CaptureProvenance
song_provenance = record {
  captured_by = offbeat_tool;
  policy = codes "manual";
  producer = some (record {
    decision_tool = offbeat_tool;
    search_tool = record { name = codes "yt-dlp"; version = codes "2026" };
    environment = record { os = codes "linux"; architecture = codes "amd64" };
  });
}

abbrev song_annotation : CandidateAnnotation
song_annotation = record {
  video_id = codes "captured001";
  label = incorrect;
  evidence = codes "another song";
  provenance = codes "listener";
}

abbrev song_capture : EvaluationCapture
song_capture = record {
  capture_id = codes "one";
  provenance = song_provenance;
  observation = some (record {
    policy = codes "manual";
    captured_at = codes "2026-01-01T00:00:00Z";
    track = song;
    query = song_query;
    candidate_limit = 10;
    raw_results = song_video ∷ [];
    recorded_decision = undecided;
  });
  failure = none;
  annotations = song_annotation ∷ [];
}

abbrev failed_capture : EvaluationCapture
failed_capture = record {
  capture_id = codes "two";
  provenance = song_provenance;
  observation = none;
  failure = some search;
  annotations = [];
}

abbrev two_captures : EvaluationCorpus
two_captures = record { format_version = 1; captures = song_capture ∷ failed_capture ∷ [] }

abbrev two_cases : EvaluationReport
two_cases = replay_captures ascii two_captures.captures (new_report 2)

replayed : replay_evaluation_corpus ascii two_captures ≡ ok two_cases
unfolding replay_evaluation_corpus validate_evaluation_corpus validate_captures validate_capture
    validate_annotations trim_space is_one_of text_eq stage_refused valid_capture_policy
    is_youtube_id
replayed = refl

replay_accounts_example :
    (two_cases.total ≡ 2)
    × (counted two_cases.counts ≡ two_cases.total)
    × (map (λ x. x.capture_id) two_cases.cases ≡ codes "one" ∷ codes "two" ∷ [])
replay_accounts_example = replay_accounts ascii two_captures two_cases replayed

abbrev unselected : ResolutionInspection
unselected = record {
  policy = manual;
  fresh_search = false;
  captured_at = [];
  track = song;
  query = song_query;
  candidate_limit = 10;
  raw_results = song_video ∷ [];
  candidates = [];
  decision = undecided;
  diagnostic = new_diagnostic manual;
}

unresolved_outcomes_example :
    ((classify_evaluation_outcome unselected (song_annotation ∷ []) ≡ appropriate_unresolved)
      ↔ All (IsIncorrect (song_annotation ∷ [])) (song_video ∷ []))
    × ((classify_evaluation_outcome unselected (song_annotation ∷ []) ≡ avoidable_unresolved) ↔ (
        All (IsJudged (song_annotation ∷ [])) (song_video ∷ [])
        × ¬ All (IsIncorrect (song_annotation ∷ [])) (song_video ∷ [])))
    × ((classify_evaluation_outcome unselected (song_annotation ∷ []) ≡ unknown_or_unlabeled)
        ↔ (¬ All (IsJudged (song_annotation ∷ [])) (song_video ∷ [])))
unresolved_outcomes_example = unresolved_outcomes unselected (song_annotation ∷ []) refl
