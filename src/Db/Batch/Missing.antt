-- ===== src/Db/Batch/Missing.antt =====
-- EnqueueMissingAcquisitions: what the batch counts, what it leaves queued, and a second batch.
use offbeat.Db.Tx.{transact-healthy, healthy}
use offbeat.Db.Query.Lookup.{has_track-named, exists_where-on_track}
use offbeat.Db.Query.Active.{has_active-append}
use offbeat.Db.Work.{require_desired_track}
use offbeat.Db.Invariant.{
  Yields-ok, Yields-map, Yields-continue, insert_work_lem, Yields, IsWellFormed, inserted,
}
use offbeat.Db.Schema.{has_active, youtube, Db, WorkRow}
use offbeat.Db.Query.{has_track, exists_where}
use offbeat.Prelude.{
  false, suc, All, length, refl, ◌∙◌, [], ◌+◌, ◌||◌, ◌∷◌, inr, arith, inl, Bool-cases, text_eq_refl,
  ok, none, true, ◌++◌, Bool, ◌≡◌, List, ℕ, Text,
}
use offbeat.Db.Batch.{
  new_batch, enqueue_missing_acquisitions, enqueue_missing_loop, attempted_youtube, missing_over,
  AcquisitionBatch, enqueue_missing_one,
}

abbrev pub seen : AcquisitionBatch → ℕ
seen b = b.queued + b.skipped_active + b.skipped_attempted

-- Whether a track has active work, or a YouTube attempt of any outcome.
pub is_covered : Text → List WorkRow → Bool
is_covered u rows = has_active u rows || exists_where (attempted_youtube u) rows

exists_where-append :
    (p : WorkRow → Bool) (xs : List WorkRow) (r : WorkRow)
    → exists_where p (xs ++ r ∷ []) ≡ (exists_where p xs || p r)
unfolding exists_where
exists_where-append p [] r = ground arith
exists_where-append p (x ∷ xs) r = ground (arith, exists_where-append p xs r)

is_covered-append :
    (u : Text) (xs : List WorkRow) (r : WorkRow)
    → is_covered u xs ≡ true
    → is_covered u (xs ++ r ∷ []) ≡ true
unfolding is_covered
is_covered-append u xs r h =
    ground (arith, has_active-append u xs r, exists_where-append (attempted_youtube u) xs r)

is_covered-insert :
    (u now : Text) (s : Db) → is_covered u (inserted u youtube none now now s).work ≡ true
unfolding is_covered
is_covered-insert u now s = rw (has_active-append, text_eq_refl) (ground arith)

-- One item of the batch, for a desired track.
abbrev Stepped : Text → AcquisitionBatch → Db → AcquisitionBatch → Db → Type 0
Stepped u b s b' s' =
    IsWellFormed s'
    × (s'.tracks ≡ s.tracks)
    × (seen b' ≡ seen b + 1)
    × (b'.considered ≡ b.considered)
    × (is_covered u s'.work ≡ true)
    × ((v : Text) → is_covered v s.work ≡ true → is_covered v s'.work ≡ true)

module _ (now u : Text) (b : AcquisitionBatch) (s : Db)
    (desired : has_track u s.tracks ≡ true) where
  missing_one_lem :
      enqueue_missing_one now u b s
      ≡ missing_over now u b (has_active u s.work) (exists_where (attempted_youtube u) s.work) s
  unfolding enqueue_missing_one require_desired_track
  missing_one_lem = rw desired (rw (exists_where-on_track u s.work))

  missing_over_step :
      (active tried : Bool)
      → IsWellFormed s
      → has_active u s.work ≡ active
      → exists_where (attempted_youtube u) s.work ≡ tried
      → Yields (missing_over now u b active tried s) (Stepped u b s)
  unfolding missing_over
  missing_over_step true tried w a t =
      (w, refl, omega arith, refl, unfold is_covered in ground arith, λ v c. c)
  missing_over_step false true w a t =
      (w, refl, omega arith, refl, unfold is_covered in ground arith, λ v c. c)
  missing_over_step false false w a t =
      let named = has_track-named u s.tracks w.named desired in
      let (e, w') = insert_work_lem u youtube none now now s w named refl a in
      rw e
        (w', refl, omega arith, refl, is_covered-insert u now s, λ v. is_covered-append v s.work _)

  missing_one-Stepped : IsWellFormed s → Yields (enqueue_missing_one now u b s) (Stepped u b s)
  missing_one-Stepped w = rw missing_one_lem (missing_over_step _ _ w refl refl)

  -- A covered track is skipped.
  missing_one_skips :
      is_covered u s.work ≡ true
      → (b' : AcquisitionBatch) × (enqueue_missing_one now u b s ≡ ok (b', s))
        × (b'.queued ≡ b.queued)
  unfolding missing_over is_covered
  missing_one_skips c = elim (Bool-cases (has_active u s.work)) [
    | inl a ↦ (record b { skipped_active = b.skipped_active + 1 }, missing_one_lem ∙ rw a, refl)
    | inr a ↦ (
      record b { skipped_attempted = b.skipped_attempted + 1 },
      missing_one_lem ∙ rw a (ground arith),
      refl,
    )
  ]

abbrev pub AllDesired : List Text → Db → Type 0
AllDesired us s = All (λ u. has_track u s.tracks ≡ true) us

abbrev pub AllCovered : List Text → Db → Type 0
AllCovered us s = All (λ u. is_covered u s.work ≡ true) us

-- What a batch over desired tracks leaves.
abbrev pub Batched : List Text → AcquisitionBatch → Db → AcquisitionBatch → Db → Type 0
Batched us b s b' s' =
    IsWellFormed s'
    × (s'.tracks ≡ s.tracks)
    × (seen b' ≡ seen b + length us)
    × (b'.considered ≡ b.considered)
    × AllCovered us s'
    × ((v : Text) → is_covered v s.work ≡ true → is_covered v s'.work ≡ true)

missing_loop-Batched :
    (clock : ℕ → Text) (i : ℕ) (us : List Text) (b : AcquisitionBatch) (s : Db)
    → IsWellFormed s
    → AllDesired us s
    → Yields (enqueue_missing_loop clock i us b s) (Batched us b s)
unfolding enqueue_missing_loop
missing_loop-Batched clock i [] b s w h = (w, refl, omega arith, refl, tt, λ v c. c)
missing_loop-Batched clock i (u ∷ us) b s w h =
    Yields-continue (enqueue_missing_one (clock i) u b s) (enqueue_missing_loop clock (suc i) us)
      (Stepped u b s) (Batched (u ∷ us) b s) (missing_one-Stepped (clock i) u b s h.0 w)
      (λ b' s' step.
        let rest = missing_loop-Batched clock (suc i) us b' s' step.0 (rw step.1 h.1) in
        Yields-map (enqueue_missing_loop clock (suc i) us b' s') (Batched us b' s')
          (Batched (u ∷ us) b s) rest
          (λ b'' s'' r. (
            r.0,
            r.1 ∙ step.1,
            omega (arith, r.2, step.2),
            r.3 ∙ step.3,
            (r.5 u step.4, r.4),
            λ v c. r.5 v (step.5 v c),
          )))

-- A batch over covered tracks queues nothing and changes nothing.
missing_loop_skips :
    (clock : ℕ → Text) (i : ℕ) (us : List Text) (b : AcquisitionBatch) (s : Db)
    → AllDesired us s
    → AllCovered us s
    → (b' : AcquisitionBatch) × (enqueue_missing_loop clock i us b s ≡ ok (b', s))
      × (b'.queued ≡ b.queued)
unfolding enqueue_missing_loop
missing_loop_skips clock i [] b s h c = (b, refl, refl)
missing_loop_skips clock i (u ∷ us) b s h c =
    let (b₁, e, q) = missing_one_skips (clock i) u b s h.0 c.0 in
    let (b₂, e', q') = missing_loop_skips clock (suc i) us b₁ s h.1 c.1 in (b₂, rw e e', q' ∙ q)

-- On a well-formed database and URIs of desired tracks, EnqueueMissingAcquisitions succeeds, counts
-- each URI once (queued, skipped as active or skipped as attempted), leaves a well-formed database
-- in which every URI has active work or a YouTube attempt, and a second call for the same URIs
-- succeeds, queues nothing and changes nothing.
pub enqueue_missing_accounts :
    (clock clock' : ℕ → Text) (us : List Text) (s : Db)
    → IsWellFormed s
    → AllDesired us s
    → (b b' : AcquisitionBatch) × (s' : Db) × (enqueue_missing_acquisitions healthy clock us s
        ≡ (ok b, s'))
      × (b.considered ≡ length us)
      × (seen b ≡ length us)
      × IsWellFormed s'
      × AllCovered us s'
      × (enqueue_missing_acquisitions healthy clock' us s' ≡ (ok b', s'))
      × (b'.queued ≡ 0)
unfolding enqueue_missing_acquisitions
enqueue_missing_accounts clock clock' us s w h =
    let first = enqueue_missing_loop clock 0 us (new_batch (length us)) in
    let (b, s', e, q0) =
      Yields-ok (first s) (Batched us (new_batch (length us)) s)
        (missing_loop-Batched clock 0 us (new_batch (length us)) s w h) in
    let (b', e', q) = missing_loop_skips clock' 0 us (new_batch (length us)) s' (rw q0.1 h) q0.4 in
    (
      b,
      b',
      s',
      transact-healthy first s s' b e,
      q0.3,
      omega (arith, q0.2),
      q0.0,
      q0.4,
      transact-healthy (enqueue_missing_loop clock' 0 us (new_batch (length us))) s' s' b' e',
      q,
    )
