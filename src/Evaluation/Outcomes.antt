-- ===== src/Evaluation/Outcomes.antt =====
-- classifyEvaluationOutcome against a description of it by the labels of all results.
use offbeat.Youtube.Inspect.{ResolutionInspection}
use offbeat.Youtube.Rank.{YouTubeSearchResult}
use offbeat.Evaluation.{unknown, acceptable, incorrect, CandidateAnnotation, CandidateLabel}
use offbeat.Evaluation.Replay.{
  new_flags, unknown_or_unlabeled, avoidable_unresolved, appropriate_unresolved, label_of,
  unresolved_outcome, LabelFlags, classify_evaluation_outcome, flag_label, flag_labels,
}
use offbeat.Prelude.{refl, [], arith, ◌∷◌, ◌⊎◌, All, false, is_empty, ◌↔◌, true, ◌≡◌, List}

abbrev pub IsIncorrect : List CandidateAnnotation → YouTubeSearchResult → Type 0
IsIncorrect as' c = label_of as' c.id ≡ incorrect

abbrev pub IsJudged : List CandidateAnnotation → YouTubeSearchResult → Type 0
IsJudged as' c = (label_of as' c.id ≡ acceptable) ⊎ (label_of as' c.id ≡ incorrect)

record IsConsistent (f : LabelFlags) : Type 0 where
  unknown_first : f.all_incorrect ≡ true → f.has_unknown ≡ false
  acceptable_seen : f.all_incorrect ≡ true → f.has_acceptable ≡ false
  explained : f.all_incorrect ≡ false → f.has_unknown ≡ false → f.has_acceptable ≡ true

flag_label_lem :
    (l : CandidateLabel) (f : LabelFlags)
    → IsConsistent f
    → IsConsistent (flag_label l f)
      × (((flag_label l f).all_incorrect ≡ true) ↔ ((f.all_incorrect ≡ true) × (l ≡ incorrect)))
      × (((flag_label l f).has_unknown ≡ false)
          ↔ ((f.has_unknown ≡ false) × ((l ≡ acceptable) ⊎ (l ≡ incorrect))))
unfolding flag_label
flag_label_lem acceptable f k = (
  record { unknown_first = ground arith; acceptable_seen = ground arith; explained = ground arith },
  ground arith,
  ground arith,
)
flag_label_lem incorrect f k = (k, ground arith, ground arith)
flag_label_lem unknown f k = (
  record { unknown_first = ground arith; acceptable_seen = ground arith; explained = ground arith },
  ground arith,
  ground arith,
)
flag_label_lem CandidateLabel.other_label f k = (
  record { unknown_first = ground arith; acceptable_seen = ground arith; explained = ground arith },
  ground arith,
  ground arith,
)

flag_labels_lem :
    (as' : List CandidateAnnotation) (cs : List YouTubeSearchResult) (f : LabelFlags)
    → IsConsistent f
    → IsConsistent (flag_labels as' cs f)
      × (((flag_labels as' cs f).all_incorrect ≡ true)
          ↔ ((f.all_incorrect ≡ true) × All (IsIncorrect as') cs))
      × (((flag_labels as' cs f).has_unknown ≡ false)
          ↔ ((f.has_unknown ≡ false) × All (IsJudged as') cs))
unfolding flag_labels
flag_labels_lem as' [] f k = (k, (λ h. (h, tt), λ h. h.0), (λ h. (h, tt), λ h. h.0))
flag_labels_lem as' (c ∷ cs) f k =
    let (k1, i1, u1) = flag_label_lem (label_of as' c.id) f k in
    let (k2, i2, u2) = flag_labels_lem as' cs (flag_label (label_of as' c.id) f) k1 in
    (
      k2,
      (
        λ h. ((i1.0 (i2.0 h).0).0, ((i1.0 (i2.0 h).0).1, (i2.0 h).1)),
        λ h. i2.1 (i1.1 (h.0, h.1.0), h.1.1),
      ),
      (
        λ h. ((u1.0 (u2.0 h).0).0, ((u1.0 (u2.0 h).0).1, (u2.0 h).1)),
        λ h. u2.1 (u1.1 (h.0, h.1.0), h.1.1),
      ),
    )

new_flags-IsConsistent : IsConsistent new_flags
new_flags-IsConsistent = record {
  unknown_first = λ h. refl;
  acceptable_seen = λ h. refl;
  explained = λ h. cc;
}

unresolved_by_flags :
    (f : LabelFlags)
    → IsConsistent f
    → ((unresolved_outcome f ≡ appropriate_unresolved) ↔ (f.all_incorrect ≡ true))
      × ((unresolved_outcome f ≡ avoidable_unresolved)
          ↔ ((f.has_unknown ≡ false) × ¬ (f.all_incorrect ≡ true)))
      × ((unresolved_outcome f ≡ unknown_or_unlabeled) ↔ (¬ (f.has_unknown ≡ false)))
unfolding unresolved_outcome
unresolved_by_flags f k =
    let a = k.unknown_first in
    let b = k.acceptable_seen in
    let c = k.explained in
    (ground (arith, a, b, c), ground (arith, a, b, c), ground (arith, a, b, c))

classify-flags :
    (replay : ResolutionInspection) (as' : List CandidateAnnotation)
    → is_empty replay.decision.selected_url ≡ true
    → (rs : List YouTubeSearchResult) → replay.raw_results ≡ rs
    → classify_evaluation_outcome replay as' ≡ unresolved_outcome (flag_labels as' rs new_flags)
unfolding classify_evaluation_outcome unresolved_outcome
classify-flags replay as' h [] e = rw h (rw e (unfold flag_labels in refl))
classify-flags replay as' h (r ∷ rs) e = rw h (rw e (ground arith))

-- A replay without a selection is an appropriate non-selection exactly when every captured result
-- is labelled incorrect, an avoidable one exactly when every result is labelled acceptable or
-- incorrect but not all incorrect, and otherwise unknown.
pub unresolved_outcomes :
    (replay : ResolutionInspection) (as' : List CandidateAnnotation)
    → is_empty replay.decision.selected_url ≡ true
    → ((classify_evaluation_outcome replay as' ≡ appropriate_unresolved)
        ↔ All (IsIncorrect as') replay.raw_results)
      × ((classify_evaluation_outcome replay as' ≡ avoidable_unresolved)
          ↔ (All (IsJudged as') replay.raw_results × ¬ All (IsIncorrect as') replay.raw_results))
      × ((classify_evaluation_outcome replay as' ≡ unknown_or_unlabeled)
          ↔ (¬ All (IsJudged as') replay.raw_results))
unresolved_outcomes replay as' h =
    let (k, i, u) = flag_labels_lem as' replay.raw_results new_flags new_flags-IsConsistent in
    let (a, b, c) = unresolved_by_flags (flag_labels as' replay.raw_results new_flags) k in
    rw (classify-flags replay as' h replay.raw_results refl) (
      (λ e. (i.0 (a.0 e)).1, λ e. a.1 (i.1 (refl, e))),
      (
        λ e. ((u.0 (b.0 e).0).1, λ l. (b.0 e).1 (i.1 (refl, l))),
        λ e. b.1 (u.1 (refl, e.0), λ l. e.1 (i.0 l).1),
      ),
      (λ e l. c.0 e (u.1 (refl, l)), λ e. c.1 (λ l. e (u.0 l).1)),
    )
