-- ===== src/Db/Batch.antt =====
-- internal/db/acquisition_work.go: the retries and the two batches. `clock i` is what the i-th call
-- of acquisitionTime() in a batch returns.
pub mod Sound
pub mod Missing
pub mod Unresolved
use offbeat.Prelude.{
  ℕ, suc, ◌+◌, Text, Bool, true, false, not, Option, none, some, List, [], ◌∷◌, ◌&&◌, ◌||◌, ◌==◌,
  length, text_eq,
}
use offbeat.Db.Schema.{
  SourceKind, direct, youtube, pending, running, unresolved, failed, WorkRow, Db, state_eq, kind_eq,
}
use offbeat.Db.Tx.{
  precondition, conflict, Reply, Tx, ◌>>=◌, ◌>>◌, pure, raise_if, gets, Driver, transact,
}
use offbeat.Db.Query.{has_track, exists_where, select_where, with_id, insert_work, update_work}
use offbeat.Db.Work.{
  AcquisitionWork, acquisition, acquisition_by_track_and_states, on_track_in, require_desired_track,
}

pub record AcquisitionBatch : Type 0 where
  pub considered : ℕ
  pub queued : ℕ
  pub skipped_active : ℕ
  pub skipped_attempted : ℕ

abbrev pub attempted_youtube : Text → WorkRow → Bool
attempted_youtube u r = text_eq r.track_uri u && kind_eq r.source_kind youtube

-- The body of the loop, from the test of `active` on.
missing_over : Text → Text → AcquisitionBatch → Bool → Bool → Tx AcquisitionBatch
missing_over now u b true attempted = pure (record b { skipped_active = b.skipped_active + 1 })
missing_over now u b false true = pure (record b { skipped_attempted = b.skipped_attempted + 1 })
missing_over now u b false false = do
  insert_work u youtube none now now
  pure (record b { queued = b.queued + 1 })

pub enqueue_missing_one : Text → Text → AcquisitionBatch → Tx AcquisitionBatch
unfolding missing_over
enqueue_missing_one now u b = do
  require_desired_track u
  active ← gets (λ s. exists_where (on_track_in u pending running) s.work)
  attempted ← gets (λ s. exists_where (attempted_youtube u) s.work)
  missing_over now u b active attempted

enqueue_missing_loop : (ℕ → Text) → ℕ → List Text → AcquisitionBatch → Tx AcquisitionBatch
enqueue_missing_loop clock i [] b = pure b
enqueue_missing_loop clock i (u ∷ us) b =
    enqueue_missing_one (clock i) u b >>= enqueue_missing_loop clock (suc i) us

abbrev pub new_batch : ℕ → AcquisitionBatch
new_batch n = record { considered = n; queued = 0; skipped_active = 0; skipped_attempted = 0 }

unfoldable pub enqueue_missing_acquisitions :
    Driver → (ℕ → Text) → List Text → Db → Reply AcquisitionBatch × Db
unfolding enqueue_missing_loop enqueue_missing_one
enqueue_missing_acquisitions d clock uris =
    transact d (enqueue_missing_loop clock 0 uris (new_batch (length uris)))

-- source_url = CASE WHEN source_kind = 'youtube' THEN NULL ELSE source_url END
abbrev pub retried_url : SourceKind → Option Text → Option Text
retried_url youtube u = none
retried_url direct u = u

abbrev pub set_retried : Text → WorkRow → WorkRow
set_retried now r = record r {
  source_url = retried_url r.source_kind r.source_url;
  state = pending;
  error = [];
  updated_at = now;
}

abbrev other_active : ℕ → Option AcquisitionWork → Bool
other_active i none = false
other_active i (some w) = not (w.id == i)

retry_statements : Text → ℕ → Tx AcquisitionWork
retry_statements now i = do
  work ← acquisition i
  raise_if (not (state_eq work.state failed)) precondition
  require_desired_track work.track_uri
  active ← acquisition_by_track_and_states work.track_uri pending running
  raise_if (other_active i active) conflict
  update_work (with_id i) (set_retried now)
  acquisition i

unfoldable pub retry_acquisition : Driver → Text → ℕ → Db → Reply AcquisitionWork × Db
unfolding retry_statements
retry_acquisition d now i = transact d (retry_statements now i)

pub record UnresolvedRetryBatch : Type 0 where
  pub considered : ℕ
  pub queued : ℕ
  pub skipped_active : ℕ
  pub skipped_available : ℕ
  pub skipped_removed : ℕ

-- missing[uri], over the list that the map is built from
unfoldable pub has_text : Text → List Text → Bool
has_text u [] = false
has_text u (v ∷ vs) = text_eq v u || has_text u vs

abbrev pub is_unresolved_youtube : WorkRow → Bool
is_unresolved_youtube r = kind_eq r.source_kind youtube && state_eq r.state unresolved

abbrev pub unresolved_with_id : ℕ → WorkRow → Bool
unresolved_with_id i r = with_id i r && is_unresolved_youtube r

abbrev pub set_requeued : Text → WorkRow → WorkRow
set_requeued now r = record r { source_url = none; state = pending; error = []; updated_at = now }

requeue : Text → ℕ → UnresolvedRetryBatch → Tx UnresolvedRetryBatch
requeue now i b = do
  count ← update_work (unresolved_with_id i) (set_requeued now)
  raise_if (not (count == 1)) precondition
  pure (record b { queued = b.queued + 1 })

retry_over : Text → WorkRow → UnresolvedRetryBatch → Bool → Bool → Bool → Tx UnresolvedRetryBatch
unfolding requeue
retry_over now item b false missing active =
    pure (record b { skipped_removed = b.skipped_removed + 1 })
retry_over now item b true false active =
    pure (record b { skipped_available = b.skipped_available + 1 })
retry_over now item b true true true = pure (record b { skipped_active = b.skipped_active + 1 })
retry_over now item b true true false = requeue now item.id b

pub retry_unresolved_one :
    Text → List Text → WorkRow → UnresolvedRetryBatch → Tx UnresolvedRetryBatch
unfolding retry_over
retry_unresolved_one now missing item b = do
  desired ← gets (λ s. has_track item.track_uri s.tracks)
  active ← gets (λ s. exists_where (on_track_in item.track_uri pending running) s.work)
  retry_over now item b desired (has_text item.track_uri missing) active

retry_unresolved_loop :
    (ℕ → Text) → ℕ → List Text → List WorkRow → UnresolvedRetryBatch → Tx UnresolvedRetryBatch
retry_unresolved_loop clock i missing [] b = pure b
retry_unresolved_loop clock i missing (item ∷ items) b =
    retry_unresolved_one (clock i) missing item b
    >>= retry_unresolved_loop clock (suc i) missing items

abbrev pub new_retry_batch : ℕ → UnresolvedRetryBatch
new_retry_batch n = record {
  considered = n;
  queued = 0;
  skipped_active = 0;
  skipped_available = 0;
  skipped_removed = 0;
}

retry_unresolved_statements : (ℕ → Text) → List Text → Tx UnresolvedRetryBatch
unfolding retry_unresolved_loop
retry_unresolved_statements clock missing = do
  work ← gets (λ s. select_where is_unresolved_youtube s.work)
  retry_unresolved_loop clock 0 missing work (new_retry_batch (length work))

unfoldable pub retry_unresolved_acquisitions :
    Driver → (ℕ → Text) → List Text → Db → Reply UnresolvedRetryBatch × Db
unfolding retry_unresolved_statements retry_unresolved_one
retry_unresolved_acquisitions d clock missing =
    transact d (retry_unresolved_statements clock missing)
