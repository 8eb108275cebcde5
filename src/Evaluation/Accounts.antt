-- ===== src/Evaluation/Accounts.antt =====
-- ReplayEvaluationCorpus: the cases and the counts of a report against the captures.
use offbeat.Youtube.Inspect.{ResolutionInspection}
use offbeat.Prelude.{
  ap, ◌∙◌, not, some, sym, [], ◌++◌, arith, err, length, map, refl, ◌∷◌, Option, Text, ok,
  refuse_if, true, ◌+◌, List, false, ℕ, ◌>>◌, ◌≡◌, Bool, none,
}
use offbeat.Evaluation.{
  unsupported_stage, not_exactly_one, is_some, both, unknown, ResolutionObservation, incorrect,
  CandidateAnnotation, FailureStage, acceptable, EvaluationCorpus, is_known_stage, CandidateLabel,
  CorpusError, EvaluationCapture, stage_refused, validate_captures, validate_evaluation_corpus,
  Checked, validate_capture,
}
use offbeat.Evaluation.Replay.{
  new_report, retrieval_failure, search_failure, unknown_or_unlabeled, avoidable_unresolved,
  appropriate_unresolved, incorrect_automatic, correct_automatic, label_of, no_outcome,
  stage_outcome, EvaluationReport, add_case, unresolved_outcome, EvaluationCounts,
  EvaluationOutcome, automatic_outcome, classify_evaluation_outcome, count_outcome, replay_capture,
  replay_captures, replay_evaluation_corpus,
}
use mathlib.Core.List.{map-append, append-nil, append_assoc}
use offbeat.Youtube.Strings.{Unicode}

abbrev pub counted : EvaluationCounts → ℕ
counted n =
    n.correct_automatic_selections + n.incorrect_automatic_selections
    + n.appropriate_unresolved_count + n.avoidable_unresolved_count + n.unknown_or_unlabeled_count
    + n.search_failures + n.retrieval_failures

abbrev has_outcome : EvaluationOutcome → Bool
has_outcome no_outcome = false
has_outcome _ = true

counted-count_outcome :
    (o : EvaluationOutcome) (n : EvaluationCounts)
    → has_outcome o ≡ true
    → counted (count_outcome o n) ≡ counted n + 1
unfolding count_outcome
counted-count_outcome correct_automatic n h = omega arith
counted-count_outcome incorrect_automatic n h = omega arith
counted-count_outcome appropriate_unresolved n h = omega arith
counted-count_outcome avoidable_unresolved n h = omega arith
counted-count_outcome unknown_or_unlabeled n h = omega arith
counted-count_outcome search_failure n h = omega arith
counted-count_outcome retrieval_failure n h = omega arith
counted-count_outcome no_outcome n h = cc

automatic_has_outcome : (l : CandidateLabel) → has_outcome (automatic_outcome l) ≡ true
unfolding automatic_outcome
automatic_has_outcome acceptable = refl
automatic_has_outcome incorrect = refl
automatic_has_outcome unknown = refl
automatic_has_outcome CandidateLabel.other_label = refl

classify_has_outcome :
    (replay : ResolutionInspection) (as' : List CandidateAnnotation)
    → has_outcome (classify_evaluation_outcome replay as') ≡ true
unfolding classify_evaluation_outcome unresolved_outcome
classify_has_outcome replay as' =
    ground (arith, automatic_has_outcome (label_of as' replay.decision.winner_video_id))

then_ok : (m : Checked) (k : Checked) → (m >> k) ≡ ok tt → (m ≡ ok tt) × (k ≡ ok tt)
then_ok (ok tt) k h = (refl, h)
then_ok (err e) k h = cc

refuse_ok : (b : Bool) (e : CorpusError) → refuse_if b e ≡ ok tt → b ≡ false
refuse_ok true e h = cc
refuse_ok false e h = refl

module _ (U : Unicode) where
  replay_capture_outcome :
      (c : EvaluationCapture) (stage : Option FailureStage) (o : Option ResolutionObservation)
      → refuse_if (both (not (is_some o)) (not (is_some stage))) not_exactly_one ≡ ok tt
      → refuse_if (stage_refused stage) unsupported_stage ≡ ok tt
      → has_outcome (replay_capture U c stage o).outcome ≡ true
  unfolding replay_capture stage_refused is_known_stage stage_outcome
  replay_capture_outcome c (some FailureStage.search) o h k = refl
  replay_capture_outcome c (some FailureStage.retrieval) o h k = refl
  replay_capture_outcome c (some FailureStage.other_stage) o h k = cc
  replay_capture_outcome c none none h k = cc
  replay_capture_outcome c none (some o) h k = classify_has_outcome _ c.annotations

  valid_outcome :
      (seen : List Text) (c : EvaluationCapture)
      → validate_capture U seen c ≡ ok tt
      → has_outcome (replay_capture U c c.failure c.observation).outcome ≡ true
  unfolding validate_capture
  valid_outcome seen c h =
      let to_stage = (then_ok _ _ (then_ok _ _ h).0).0 in
      let stage = (then_ok _ _ to_stage).1 in
      let one = (then_ok _ _ (then_ok _ _ (then_ok _ _ to_stage).0).0).1 in
      replay_capture_outcome c c.failure c.observation one stage

  counted-replay_captures :
      (seen : List Text) (cs : List EvaluationCapture) (r : EvaluationReport)
      → validate_captures U seen cs ≡ ok tt
      → counted (replay_captures U cs r).counts ≡ counted r.counts + length cs
  unfolding replay_captures validate_captures add_case
  counted-replay_captures seen [] r h = omega arith
  counted-replay_captures seen (c ∷ cs) r h =
      let result = replay_capture U c c.failure c.observation in
      let split =
        then_ok (validate_capture U seen c) (validate_captures U (c.capture_id ∷ seen) cs) h in
      omega (
        arith,
        counted-count_outcome result.outcome r.counts (valid_outcome seen c split.0),
        counted-replay_captures (c.capture_id ∷ seen) cs (add_case result r) split.1,
      )

  replay_capture_id :
      (c : EvaluationCapture) (stage : Option FailureStage) (o : Option ResolutionObservation)
      → (replay_capture U c stage o).capture_id ≡ c.capture_id
  unfolding replay_capture
  replay_capture_id c (some s) o = refl
  replay_capture_id c none (some o) = refl
  replay_capture_id c none none = refl

  replay_captures_ids :
      (cs : List EvaluationCapture) (r : EvaluationReport)
      → map (λ x. x.capture_id) (replay_captures U cs r).cases
        ≡ map (λ x. x.capture_id) r.cases ++ map (λ c. c.capture_id) cs
  unfolding replay_captures add_case
  replay_captures_ids [] r = sym (append-nil _)
  replay_captures_ids (c ∷ cs) r =
      let result = replay_capture U c c.failure c.observation in
      replay_captures_ids cs (add_case result r)
      ∙ ap (λ ids. ids ++ map (λ x. x.capture_id) cs)
          (map-append (λ x. x.capture_id) r.cases (result ∷ [])
            ∙ ap (λ id. map (λ x. x.capture_id) r.cases ++ id ∷ [])
                (replay_capture_id c c.failure c.observation))
      ∙ append_assoc (map (λ x. x.capture_id) r.cases) (c.capture_id ∷ []) _

  replay_captures_total :
      (cs : List EvaluationCapture) (r : EvaluationReport)
      → (replay_captures U cs r).total ≡ r.total
  unfolding replay_captures add_case
  replay_captures_total [] r = refl
  replay_captures_total (c ∷ cs) r = replay_captures_total cs _

validated :
    (U : Unicode) (corpus : EvaluationCorpus) (report : EvaluationReport)
    → replay_evaluation_corpus U corpus ≡ ok report
    → (validate_captures U [] corpus.captures ≡ ok tt)
      × (report ≡ replay_captures U corpus.captures (new_report (length corpus.captures)))
unfolding replay_evaluation_corpus validate_evaluation_corpus
validated U corpus report h = ground arith

-- A replay that returns a report has one case for each capture, in order and under its id, its
-- total is their number, and the seven counts add up to the total.
pub replay_accounts :
    (U : Unicode) (corpus : EvaluationCorpus) (report : EvaluationReport)
    → replay_evaluation_corpus U corpus ≡ ok report
    → (report.total ≡ length corpus.captures)
      × (counted report.counts ≡ report.total)
      × (map (λ x. x.capture_id) report.cases ≡ map (λ c. c.capture_id) corpus.captures)
replay_accounts U corpus report h =
    let start = new_report (length corpus.captures) in
    let (valid, e) = validated U corpus report h in
    rw e (
      replay_captures_total U corpus.captures start,
      omega (
        arith,
        counted-replay_captures U [] corpus.captures start valid,
        replay_captures_total U corpus.captures start,
      ),
      replay_captures_ids U corpus.captures start,
    )
