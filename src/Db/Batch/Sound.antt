-- ===== src/Db/Batch/Sound.antt =====
-- The batches and the retry keep the constraints, and never run into them.
use offbeat.Db.Tx.{Driver}
use offbeat.Db.Query.Lookup.{
  first_where_unique, first_where-holds, first_where-on_track, exists_where-on_track, on_track,
  has_track-named,
}
use offbeat.Db.Work.{scan_work, acquisition_by_track_and_states, acquisition, require_desired_track}
use offbeat.Db.Query.{with_id, first_where}
use offbeat.Db.Invariant.{
  IsServed, IsSound-continue, transact-IsServed, update_work_wake, insert_work_lem, IsSound,
  IsWellFormed,
}
use offbeat.Db.Schema.{check_row, youtube, failed, state_eq, WorkRow, Db}
use offbeat.Prelude.{
  [], suc, length, ◌∷◌, List, false, ◌==◌, refl, none, inr, inl, true, Option-cases, arith, some,
  Text, ◌≡◌, ℕ,
}
use offbeat.Db.Batch.{
  new_batch, enqueue_missing_acquisitions, enqueue_missing_loop, retry_acquisition, set_retried,
  AcquisitionBatch, missing_over, retry_statements, enqueue_missing_one,
}

-- The row that a retry reads is not itself active.
not_itself :
    (i : ℕ) (s : Db) (r a : WorkRow)
    → IsWellFormed s
    → first_where (with_id i) s.work ≡ some r
    → state_eq r.state failed ≡ true
    → first_where (on_track r.track_uri) s.work ≡ some a
    → (a.id == i) ≡ false
not_itself i s r a w found e k = ground (
  arith,
  first_where-holds (on_track r.track_uri) s.work a k,
  first_where_unique (on_track r.track_uri) i s.work a r w.sorted found k,
)

module _ (s : Db) (w : IsWellFormed s) (now : Text) (i : ℕ) where
  retry_found-IsSound :
      (r : WorkRow) → first_where (with_id i) s.work ≡ some r → IsSound (retry_statements now i s)
  unfolding retry_statements acquisition require_desired_track acquisition_by_track_and_states
      scan_work
  retry_found-IsSound r e = elim (Option-cases (first_where (on_track r.track_uri) s.work)) [
    | inl k ↦ ground (
      arith,
      first_where-on_track r.track_uri s.work,
      update_work_wake (with_id i) (set_retried now) (λ x. refl) (λ x. refl)
          (λ x p h. unfold check_row in ground arith) s w i (λ x p. ground arith) r e,
    )
    | inr (a, k) ↦ ground (arith, not_itself i s r a w e)
  ]

  retry-IsSound : IsSound (retry_statements now i s)
  unfolding retry_statements acquisition
  retry-IsSound = elim (Option-cases (first_where (with_id i) s.work)) [
    | inl e ↦ ground arith
    | inr (r, e) ↦ retry_found-IsSound r e
  ]

pub retry_acquisition-IsServed :
    (d : Driver) (now : Text) (i : ℕ) (s : Db)
    → IsWellFormed s
    → IsServed (retry_acquisition d now i s)
unfolding retry_acquisition
retry_acquisition-IsServed d now i s w =
    transact-IsServed d (retry_statements now i) s w (retry-IsSound s w now i)

missing_one-IsSound :
    (now u : Text) (b : AcquisitionBatch) (s : Db)
    → IsWellFormed s
    → IsSound (enqueue_missing_one now u b s)
unfolding enqueue_missing_one missing_over require_desired_track
missing_one-IsSound now u b s w = ground (
  arith,
  has_track-named u s.tracks w.named,
  exists_where-on_track u s.work,
  insert_work_lem u youtube none now now s w,
)

missing_loop-IsSound :
    (clock : ℕ → Text) (i : ℕ) (us : List Text) (b : AcquisitionBatch) (s : Db)
    → IsWellFormed s
    → IsSound (enqueue_missing_loop clock i us b s)
unfolding enqueue_missing_loop
missing_loop-IsSound clock i [] b s w = w
missing_loop-IsSound clock i (u ∷ us) b s w =
    IsSound-continue (enqueue_missing_one (clock i) u b s) (enqueue_missing_loop clock (suc i) us)
      (missing_one-IsSound (clock i) u b s w) (λ b' s'. missing_loop-IsSound clock (suc i) us b' s')

pub enqueue_missing_acquisitions-IsServed :
    (d : Driver) (clock : ℕ → Text) (us : List Text) (s : Db)
    → IsWellFormed s
    → IsServed (enqueue_missing_acquisitions d clock us s)
unfolding enqueue_missing_acquisitions
enqueue_missing_acquisitions-IsServed d clock us s w =
    transact-IsServed d (enqueue_missing_loop clock 0 us (new_batch (length us))) s w
      (missing_loop-IsSound clock 0 us (new_batch (length us)) s w)
