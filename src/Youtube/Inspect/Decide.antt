-- ===== src/Youtube/Inspect/Decide.antt =====
-- When a video is selected automatically, and what an unresolved report says.
use mathlib.Core.Path.{subst}
use offbeat.Desired.State.{Track}
use offbeat.Youtube.Strings.{is_one_of, Unicode}
use offbeat.Youtube.Inspect.Loop.{
  length-survey, survey-IsTallied, rejected, eligible, entries-survey, entries,
}
use offbeat.Youtube.Inspect.Verdicts.{
  HasVerdicts, cause, empty_reason-cause, verdicts, survey-HasVerdicts, number,
}
use offbeat.Youtube.Inspect.Sort.{sort_ranked-perm, sort_ranked-IsDescending, AtMost, IsDescending}
use offbeat.Prelude.{
  inr, inl, Bool-cases, ◌↔◌, ◌≢◌, length-take_le, Option, some, suc, ◌∙◌, ap, sym, length, none,
  take, Text, refl, true, false, [], arith, ◌≡◌, is_empty, ◌∷◌, ◌≤◌, All, ◌+◌, List, ℕ,
}
use offbeat.Youtube.Rank.{Ranking, YouTubeSearchResult, CandidateRank}
use mathlib.Core.List.{Perm}
use mathlib.Core.List.Perm
use offbeat.Youtube.Inspect.{
  ResolutionDecision, ResolutionReason, sort_ranked, is_seen, new_survey,
  inspect_youtube_candidates_with_policy, ResolutionInspection, survey, YouTubeQuery, auto_best,
  manual, watch_url, manual, Ranked, ResolutionDiagnostic, Policy, decide,
}

-- What the policy asks of a winner against the others.
abbrev pub Clears : Policy → CandidateRank → List CandidateRank → Type 0
Clears manual w others = All (λ r. r.score + 7 ≤ w.score) others
Clears auto_best w others = All (λ r. r.score ≤ w.score) others

margin-All :
    (w r : Ranked) (rs : List Ranked)
    → r.score + 7 ≤ w.score
    → AtMost r.score rs
    → All (λ x. x.score + 7 ≤ w.score) (entries rs)
margin-All w r [] h k = tt
margin-All w r (x ∷ xs) h k = (omega (arith, k), margin-All w r xs h k.1)

below-All : (n : ℕ) (rs : List Ranked) → AtMost n rs → All (λ x. x.score ≤ n) (entries rs)
below-All n [] k = tt
below-All n (x ∷ xs) k = (k.0, below-All n xs k.1)

abbrev Selects : Policy → ResolutionDiagnostic → Ranked → List Ranked → Type 0
Selects policy d w rs =
    ((decide policy d (w ∷ rs)).0.selected_url ≡ watch_url w.candidate.id)
    × (82 ≤ w.score)
    × Clears policy w.entry (entries rs)

decide-Selects :
    (policy : Policy) (d : ResolutionDiagnostic) (w : Ranked) (rs : List Ranked)
    → IsDescending (w ∷ rs)
    → is_empty (decide policy d (w ∷ rs)).0.selected_url ≡ false
    → Selects policy d w rs
unfolding decide
decide-Selects manual d w [] s h = (ground arith, ground arith, tt)
decide-Selects manual d w (r ∷ rs) s h =
    (ground arith, ground arith, (ground arith, margin-All w r rs (ground arith) s.1.0))
decide-Selects auto_best d w rs s h = (ground arith, ground arith, below-All w.score rs s.0)

decide_nothing :
    (policy : Policy) (d : ResolutionDiagnostic)
    → is_empty (decide policy d []).0.selected_url ≡ true
unfolding decide
decide_nothing policy d = refl

selected :
    (policy : Policy) (all : List CandidateRank) (d : ResolutionDiagnostic) (rs : List Ranked)
    → IsDescending rs
    → Perm (entries rs) all
    → is_empty (decide policy d rs).0.selected_url ≡ false
    → (w : CandidateRank) × (others : List CandidateRank) × Perm (w ∷ others) all
      × ((decide policy d rs).0.selected_url ≡ watch_url w.candidate.id)
      × (82 ≤ w.score)
      × Clears policy w others
selected policy all d [] s p h = absurd (ground (arith, decide_nothing policy d))
selected policy all d (w ∷ rs) s p h =
    let (url, floor, clears) = decide-Selects policy d w rs s h in
    (w.entry, entries rs, p, url, floor, clears)

-- What a decision says of its reason.
abbrev Reasoned : ResolutionDecision × Option ResolutionReason → Type 0
Reasoned (d, reason) =
    (is_empty d.selected_url ≡ false → d.unresolved_reason ≡ none)
    × (is_empty d.selected_url ≡ true → d.unresolved_reason ≢ none)
    × (d.unresolved_reason ≡ reason)

decide-Reasoned :
    (policy : Policy) (d : ResolutionDiagnostic) (rs : List Ranked) → Reasoned (decide policy d rs)
unfolding decide
decide-Reasoned policy d [] = (ground arith, ground arith, refl)
decide-Reasoned policy d (w ∷ []) = (ground arith, ground arith, ground arith)
decide-Reasoned policy d (w ∷ r ∷ rs) = (ground arith, ground arith, ground arith)

length-entries : (rs : List Ranked) → length (entries rs) ≡ length rs
length-entries [] = refl
length-entries (r ∷ rs) = ap suc (length-entries rs)

is_selected :
    (d : ResolutionDecision)
    → (is_empty d.selected_url ≡ false → d.unresolved_reason ≡ none)
    → (is_empty d.selected_url ≡ true → d.unresolved_reason ≢ none)
    → d.unresolved_reason ≡ none
    → is_empty d.selected_url ≡ false
is_selected d h k e = elim (Bool-cases (is_empty d.selected_url)) [
  | inl b ↦ absurd (k b e)
  | inr b ↦ b
]

-- What a report says of its decision, and of the verdicts `vs` and the contenders `cs`.
abbrev pub Accounts : ResolutionInspection → List Ranking → List CandidateRank → Type 0
Accounts r vs cs =
    ((is_empty r.decision.selected_url ≡ false) ↔ (r.decision.unresolved_reason ≡ none))
    × (r.decision.unresolved_reason ≡ r.diagnostic.reason)
    × HasVerdicts r.diagnostic vs
    × (r.diagnostic.candidates ≡ rejected r.diagnostic + r.diagnostic.eligible)
    × (r.diagnostic.eligible ≡ length cs)
    × (r.diagnostic.candidates ≤ 10)
    × (cs ≡ [] → r.diagnostic.reason ≡ some (cause vs))

-- Nothing found is decided by the cause.
decide-cause :
    (policy : Policy) (d : ResolutionDiagnostic) (vs : List Ranking) (rs : List Ranked)
    → HasVerdicts d vs
    → entries rs ≡ []
    → (decide policy d (sort_ranked rs)).1 ≡ some (cause vs)
unfolding decide sort_ranked
decide-cause policy d vs [] h e = ap some (empty_reason-cause d vs h)
decide-cause policy d vs (r ∷ rs) h e = cc

module _ (U : Unicode) (track : Track) (query : YouTubeQuery) (results : List YouTubeSearchResult)
    (captured_at : Text) (policy : Policy) where
  abbrev pub report : ResolutionInspection
  report = inspect_youtube_candidates_with_policy U track query results captured_at policy

  -- The eligible candidates: the first result of each video among the first ten.
  abbrev pub contenders : List CandidateRank
  contenders = eligible U track [] (take 10 results)

  found : List Ranked
  found = (survey U track 0 (take 10 results) (new_survey policy)).ranked

  found-contenders : entries found ≡ contenders
  unfolding found
  found-contenders =
      entries-survey U track 0 (take 10 results) (new_survey policy) []
        (λ id. unfold is_seen is_one_of in refl)

  -- A report that selects a video selects one of the eligible candidates among the first ten
  -- results, which scores at least 82, and which the manual policy sees 7 points ahead of every
  -- other one, the automatic policy no lower than any.
  pub automatic_selection :
      is_empty report.decision.selected_url ≡ false
      → (w : CandidateRank) × (others : List CandidateRank) × Perm (w ∷ others) contenders
        × (report.decision.selected_url ≡ watch_url w.candidate.id)
        × (82 ≤ w.score)
        × Clears policy w others
  unfolding inspect_youtube_candidates_with_policy found
  automatic_selection h =
      selected policy contenders _ (sort_ranked found) (sort_ranked-IsDescending found)
        (subst (λ es. Perm (entries (sort_ranked found)) es) found-contenders
          (Perm.map (λ r. r.entry) (sort_ranked-perm found)))
        h

  -- The verdict on the first result of each video among the first ten.
  abbrev pub judged : List Ranking
  judged = verdicts U track [] (take 10 results)

  surveyed : HasVerdicts (survey U track 0 (take 10 results) (new_survey policy)).diagnostic judged
  surveyed =
      survey-HasVerdicts U track 0 (take 10 results) (new_survey policy) [] []
        (λ id. unfold is_seen is_one_of in refl)
        (unfold number in
          record {
            all = refl;
            metadata = refl;
            title = refl;
            artist = refl;
            version = refl;
            duration = refl;
          })

  -- The report selects a video exactly when it gives no reason for leaving the track unresolved,
  -- and its diagnostic has the same reason. The diagnostic's candidates are the unique ones among
  -- the first ten results, at most ten, each of its rejections counts those that are ranked with
  -- that rejection, its eligible ones are the contenders, and together these are the candidates.
  -- Where there is no contender, the reason is that there is no candidate, or the rejection that
  -- all of them have, or else a metadata mismatch.
  pub report-Accounts : Accounts report judged contenders
  unfolding inspect_youtube_candidates_with_policy found
  report-Accounts =
      let s = survey U track 0 (take 10 results) (new_survey policy) in
      let diagnostic = record (s.diagnostic) { eligible = length s.ranked } in
      let (selected, unresolved, same) = decide-Reasoned policy diagnostic (sort_ranked found) in
      let tallied =
        survey-IsTallied U track 0 (take 10 results) (new_survey policy)
          (record { unique = refl; sorted_out = refl }) in
      let counted : HasVerdicts diagnostic judged = record {
        all = surveyed.all;
        metadata = surveyed.metadata;
        title = surveyed.title;
        artist = surveyed.artist;
        version = surveyed.version;
        duration = surveyed.duration;
      } in
      (
        (selected, is_selected report.decision selected unresolved),
        same,
        record {
          all = surveyed.all;
          metadata = surveyed.metadata;
          title = surveyed.title;
          artist = surveyed.artist;
          version = surveyed.version;
          duration = surveyed.duration;
        },
        tallied.sorted_out,
        sym (length-entries found) ∙ ap length found-contenders,
        omega (
          arith,
          tallied.unique,
          length-survey U track 0 (take 10 results) (new_survey policy),
          length-take_le 10 results,
        ),
        λ e. decide-cause policy diagnostic judged found counted (found-contenders ∙ e),
      )
