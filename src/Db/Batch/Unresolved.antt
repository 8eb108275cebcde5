-- ===== src/Db/Batch/Unresolved.antt =====
-- RetryUnresolvedAcquisitions: the batch takes every unresolved YouTube row, and never finds one
-- that is no longer unresolved.
use offbeat.Desired.State.{Track}
use offbeat.Db.Query.{first_where, has_track, with_id, select_where, count_where, update_where}
use offbeat.Db.Tx.{Driver, transact-healthy, healthy}
use offbeat.Db.Invariant.{
  transact-IsServed, IsServed, Yields-ok, Yields-map, update_work_wake, Yields-continue, Yields,
  IsWellFormed,
}
use offbeat.Db.Query.Lookup.{
  first_where-holds, length-select_where, select_where-found, ascending-select_where,
  first_where-update_other, exists_where-on_track, FoundIn,
}
use offbeat.Db.Query.Ids.{count_where-one, ascending, above}
use offbeat.Db.Schema.{check_row, has_active, Db, WorkRow, WorkState}
use offbeat.Prelude.{
  text_eq_refl, All-map, not, some, ap, if◌then◌else◌, ◌&&◌, ◌∙◌, refl, false, suc, Bool, sym,
  arith, ok, [], length, true, ◌≢◌, ◌+◌, ◌∷◌, ◌≡◌, All, ℕ, List, Text,
}
use offbeat.Db.Work.Lifecycle.{count_where-gain, count_where-loss}
use offbeat.Db.Work.{in_state}
use offbeat.Db.Batch.{
  has_text, new_retry_batch, set_requeued, unresolved_with_id, requeue, retry_over,
  is_unresolved_youtube, retry_unresolved_statements, UnresolvedRetryBatch,
  retry_unresolved_acquisitions, retry_unresolved_loop, retry_unresolved_one,
}

abbrev pub sorted_out : UnresolvedRetryBatch → ℕ
sorted_out b = b.queued + b.skipped_active + b.skipped_available + b.skipped_removed

-- The rows still to come are in the table as they were read.
abbrev Waiting : List WorkRow → Db → Type 0
Waiting items s = All (FoundIn is_unresolved_youtube s.work) items

-- Where the batch puts an unresolved row: its track is no longer desired, is not missing, or is
-- wanted.
abbrev pub is_removed : List Track → WorkRow → Bool
is_removed tracks r = not (has_track r.track_uri tracks)

abbrev pub is_available : List Track → List Text → WorkRow → Bool
is_available tracks missing r = has_track r.track_uri tracks && not (has_text r.track_uri missing)

abbrev pub is_wanted : List Track → List Text → WorkRow → Bool
is_wanted tracks missing r = has_track r.track_uri tracks && has_text r.track_uri missing

abbrev one_if : Bool → ℕ
one_if b = if b then 1 else 0

-- Tracks with active work keep it.
abbrev StaysActive : Db → Db → Type 0
StaysActive s s' = (u : Text) → has_active u s.work ≡ true → has_active u s'.work ≡ true

-- What one row does to the batch and the database.
record Settled (missing : List Text) (item : WorkRow) (b : UnresolvedRetryBatch) (s : Db)
    (b' : UnresolvedRetryBatch) (s' : Db) : Type 0 where
  well_formed : IsWellFormed s'
  total : sorted_out b' ≡ sorted_out b + 1
  considered : b'.considered ≡ b.considered
  tracks : s'.tracks ≡ s.tracks
  removed : b'.skipped_removed ≡ b.skipped_removed + one_if (is_removed s.tracks item)
  available :
      b'.skipped_available ≡ b.skipped_available + one_if (is_available s.tracks missing item)
  requeued :
      count_where is_unresolved_youtube s'.work + b'.queued
      ≡ count_where is_unresolved_youtube s.work + b.queued
  pending :
      count_where (in_state WorkState.pending) s'.work + b.queued
      ≡ count_where (in_state WorkState.pending) s.work + b'.queued
  covered : is_wanted s.tracks missing item ≡ true → has_active item.track_uri s'.work ≡ true
  active : StaysActive s s'
  others :
      (r : WorkRow)
      → r.id ≢ item.id
      → FoundIn is_unresolved_youtube s.work r
      → FoundIn is_unresolved_youtube s'.work r

module _ (p : WorkRow → Bool) (now : Text) where
  has_active-requeued :
      (u : Text) (xs : List WorkRow)
      → has_active u xs ≡ true
      → has_active u (update_where p (set_requeued now) xs) ≡ true
  unfolding has_active update_where
  has_active-requeued u [] h = h
  has_active-requeued u (x ∷ xs) h = ground (arith, has_active-requeued u xs)

  has_active-found :
      (q : WorkRow → Bool) (xs : List WorkRow) (r : WorkRow)
      → first_where q xs ≡ some r
      → p r ≡ true
      → has_active r.track_uri (update_where p (set_requeued now) xs) ≡ true
  unfolding has_active update_where first_where
  has_active-found q [] r h k = cc
  has_active-found q (x ∷ xs) r h k =
      ground (arith, text_eq_refl r.track_uri, has_active-found q xs r)

module _ (now : Text) (missing : List Text) (item : WorkRow) (b : UnresolvedRetryBatch) (s : Db)
    (w : IsWellFormed s) (waiting : FoundIn is_unresolved_youtube s.work item) where
  requeued_others :
      (r : WorkRow)
      → r.id ≢ item.id
      → FoundIn is_unresolved_youtube s.work r
      → FoundIn is_unresolved_youtube
          (update_where (unresolved_with_id item.id) (set_requeued now) s.work)
          r
  requeued_others r other found =
      first_where-update_other (unresolved_with_id item.id)
        (λ x. with_id r.id x && is_unresolved_youtube x) (set_requeued now)
        (λ x p. (ground arith, ground arith)) s.work
      ∙ found

  requeue-Settled :
      is_wanted s.tracks missing item ≡ true
      → has_active item.track_uri s.work ≡ false
      → Yields (requeue now item.id b s) (Settled missing item b s)
  unfolding requeue
  requeue-Settled wanted free =
      let p = unresolved_with_id item.id in
      let f = set_requeued now in
      let (e, w') =
        update_work_wake p f (λ x. refl) (λ x. refl) (λ x q h. unfold check_row in ground arith) s w
          item.id (λ x q. ground arith) item waiting free in
      let one = count_where-one p item.id (λ x q. ground arith) s.work item w.sorted waiting in
      let chosen = first_where-holds _ s.work item waiting in
      rw e (
        rw one (record {
          well_formed = w';
          total = omega arith;
          considered = refl;
          tracks = refl;
          removed = ground (arith, wanted);
          available = ground (arith, wanted);
          requeued =
              omega (
                arith,
                one,
                count_where-loss p is_unresolved_youtube f (λ x q. ground arith) s.work,
              );
          pending = omega (
            arith,
            one,
            count_where-gain p (in_state WorkState.pending) f (λ x q. ground arith) s.work,
          );
          covered = λ k. has_active-found p now _ s.work item waiting (ground (arith, chosen));
          active = λ u. has_active-requeued p now u s.work;
          others = requeued_others;
        }))

  skipped :
      (b' : UnresolvedRetryBatch)
      → b'.queued ≡ b.queued
      → b'.considered ≡ b.considered
      → sorted_out b' ≡ sorted_out b + 1
      → b'.skipped_removed ≡ b.skipped_removed + one_if (is_removed s.tracks item)
      → b'.skipped_available ≡ b.skipped_available + one_if (is_available s.tracks missing item)
      → (is_wanted s.tracks missing item ≡ true → has_active item.track_uri s.work ≡ true)
      → Settled missing item b s b' s
  skipped b' q c t r a k = record {
    well_formed = w;
    total = t;
    considered = c;
    tracks = refl;
    removed = r;
    available = a;
    requeued = omega (arith, q);
    pending = omega (arith, q);
    covered = k;
    active = λ u h. h;
    others = λ r o f. f;
  }

  retry_over-Settled :
      (desired in_missing active : Bool)
      → has_track item.track_uri s.tracks ≡ desired
      → has_text item.track_uri missing ≡ in_missing
      → has_active item.track_uri s.work ≡ active
      → Yields (retry_over now item b desired in_missing active s) (Settled missing item b s)
  unfolding retry_over
  retry_over-Settled false in_missing active d m h =
      skipped _ refl refl (omega arith) (ground (arith, d)) (ground (arith, d)) (ground (arith, d))
  retry_over-Settled true false active d m h =
      skipped _ refl refl (omega arith) (ground (arith, d)) (ground (arith, d, m))
        (ground (arith, d, m))
  retry_over-Settled true true true d m h =
      skipped _ refl refl (omega arith) (ground (arith, d)) (ground (arith, d, m)) (λ k. h)
  retry_over-Settled true true false d m h = requeue-Settled (ground (arith, d, m)) h

  retry_one-Settled : Yields (retry_unresolved_one now missing item b s) (Settled missing item b s)
  unfolding retry_unresolved_one
  retry_one-Settled =
      retry_over-Settled _ _ _ refl refl (sym (exists_where-on_track item.track_uri s.work))

-- What all the rows do.
pub record Finished (missing : List Text) (items : List WorkRow) (b : UnresolvedRetryBatch) (s : Db)
    (b' : UnresolvedRetryBatch) (s' : Db) : Type 0 where
  pub well_formed : IsWellFormed s'
  pub total : sorted_out b' ≡ sorted_out b + length items
  pub considered : b'.considered ≡ b.considered
  pub tracks : s'.tracks ≡ s.tracks
  pub removed : b'.skipped_removed ≡ b.skipped_removed + count_where (is_removed s.tracks) items
  pub available :
      b'.skipped_available ≡ b.skipped_available + count_where (is_available s.tracks missing) items
  pub requeued :
      count_where is_unresolved_youtube s'.work + b'.queued
      ≡ count_where is_unresolved_youtube s.work + b.queued
  pub pending :
      count_where (in_state WorkState.pending) s'.work + b.queued
      ≡ count_where (in_state WorkState.pending) s.work + b'.queued
  pub covered :
      All (λ r. is_wanted s.tracks missing r ≡ true → has_active r.track_uri s'.work ≡ true) items
  pub active : StaysActive s s'

Finished-cons :
    (missing : List Text) (item : WorkRow) (items : List WorkRow) (b : UnresolvedRetryBatch)
    (s : Db) (b' : UnresolvedRetryBatch) (s' : Db) (b'' : UnresolvedRetryBatch) (s'' : Db)
    → Settled missing item b s b' s'
    → Finished missing items b' s' b'' s''
    → Finished missing (item ∷ items) b s b'' s''
unfolding count_where
Finished-cons missing item items b s b' s' b'' s'' h k = record {
  well_formed = k.well_formed;
  total = omega (arith, h.total, k.total);
  considered = k.considered ∙ h.considered;
  tracks = k.tracks ∙ h.tracks;
  removed =
      omega (arith, h.removed, k.removed, ap (λ ts. count_where (is_removed ts) items) h.tracks);
  available = omega (
    arith,
    h.available,
    k.available,
    ap (λ ts. count_where (is_available ts missing) items) h.tracks,
  );
  requeued = omega (arith, h.requeued, k.requeued);
  pending = omega (arith, h.pending, k.pending);
  covered = (
    λ q. k.active item.track_uri (h.covered q),
    All-map (λ r c q. c (ap (λ ts. is_wanted ts missing r) h.tracks ∙ q)) items k.covered,
  );
  active = λ u q. k.active u (h.active u q);
}

apart_above : (n : ℕ) (items : List WorkRow) → above n items ≡ true → All (λ r. r.id ≢ n) items
unfolding above
apart_above n [] h = tt
apart_above n (x ∷ items) h = (ground arith, apart_above n items (ground arith))

All-zip :
    {P Q R : WorkRow → Type 0}
    → ((r : WorkRow) → P r → Q r → R r)
    → (items : List WorkRow) → All P items
    → All Q items
    → All R items
All-zip f [] p q = tt
All-zip f (x ∷ items) p q = (f x p.0 q.0, All-zip f items p.1 q.1)

retry_loop-Finished :
    (clock : ℕ → Text) (i : ℕ) (missing : List Text) (items : List WorkRow)
    (b : UnresolvedRetryBatch) (s : Db)
    → IsWellFormed s
    → ascending items ≡ true
    → Waiting items s
    → Yields (retry_unresolved_loop clock i missing items b s) (Finished missing items b s)
unfolding retry_unresolved_loop ascending
retry_loop-Finished clock i missing [] b s w a h = record {
  well_formed = w;
  total = omega arith;
  considered = refl;
  tracks = refl;
  removed = unfold count_where in omega arith;
  available = unfold count_where in omega arith;
  requeued = refl;
  pending = refl;
  covered = tt;
  active = λ u q. q;
}
retry_loop-Finished clock i missing (item ∷ items) b s w a h =
    Yields-continue (retry_unresolved_one (clock i) missing item b s)
      (retry_unresolved_loop clock (suc i) missing items) (Settled missing item b s)
      (Finished missing (item ∷ items) b s) (retry_one-Settled (clock i) missing item b s w h.0)
      (λ b' s' step.
        Yields-map (retry_unresolved_loop clock (suc i) missing items b' s')
          (Finished missing items b' s') (Finished missing (item ∷ items) b s)
          (retry_loop-Finished clock (suc i) missing items b' s' step.well_formed (ground arith)
            (All-zip step.others items (apart_above item.id items (ground arith)) h.1))
          (λ b'' s'' r. Finished-cons missing item items b s b' s' b'' s'' step r))

retry_statements_lem :
    (clock : ℕ → Text) (missing : List Text) (s : Db)
    → IsWellFormed s
    → let items = select_where is_unresolved_youtube s.work in
      Yields
        (retry_unresolved_statements clock missing s)
        (Finished missing items (new_retry_batch (length items)) s)
unfolding retry_unresolved_statements
retry_statements_lem clock missing s w =
    let items = select_where is_unresolved_youtube s.work in
    retry_loop-Finished clock 0 missing items (new_retry_batch (length items)) s w
      (ascending-select_where is_unresolved_youtube s.work w.sorted)
      (select_where-found is_unresolved_youtube s.work w.sorted)

pub retry_unresolved_acquisitions-IsServed :
    (d : Driver) (clock : ℕ → Text) (missing : List Text) (s : Db)
    → IsWellFormed s
    → IsServed (retry_unresolved_acquisitions d clock missing s)
unfolding retry_unresolved_acquisitions
retry_unresolved_acquisitions-IsServed d clock missing s w =
    let items = select_where is_unresolved_youtube s.work in
    let (b, s', e, q) =
      Yields-ok (retry_unresolved_statements clock missing s)
        (Finished missing items (new_retry_batch (length items)) s)
        (retry_statements_lem clock missing s w) in
    transact-IsServed d (retry_unresolved_statements clock missing) s w (rw e q.well_formed)

count_where-select_where :
    (p q : WorkRow → Bool) (xs : List WorkRow)
    → count_where q (select_where p xs) ≡ count_where (λ x. p x && q x) xs
unfolding count_where select_where
count_where-select_where p q [] = refl
count_where-select_where p q (x ∷ xs) = ground (arith, count_where-select_where p q xs)

-- What the batch says of the database before and after it.
pub record Retried (missing : List Text) (s : Db) (b : UnresolvedRetryBatch) (s' : Db)
    : Type 0 where
  pub well_formed : IsWellFormed s'
  pub tracks : s'.tracks ≡ s.tracks
  pub considered : b.considered ≡ count_where is_unresolved_youtube s.work
  pub total : sorted_out b ≡ b.considered
  pub removed :
      b.skipped_removed ≡ count_where (λ r. is_unresolved_youtube r && is_removed s.tracks r) s.work
  pub available :
      b.skipped_available
      ≡ count_where (λ r. is_unresolved_youtube r && is_available s.tracks missing r) s.work
  pub requeued :
      count_where is_unresolved_youtube s'.work + b.queued
      ≡ count_where is_unresolved_youtube s.work
  pub pending :
      count_where (in_state WorkState.pending) s'.work
      ≡ count_where (in_state WorkState.pending) s.work + b.queued
  pub covered :
      All
        (λ r. is_wanted s.tracks missing r ≡ true → has_active r.track_uri s'.work ≡ true)
        (select_where is_unresolved_youtube s.work)

-- On a well-formed database RetryUnresolvedAcquisitions succeeds and considers every unresolved
-- YouTube row. The removed ones are those whose track is not desired, the available ones those whose
-- track is desired but not missing, and the others are queued or active. As many rows as are
-- queued are no longer unresolved and are pending instead, every considered row of a desired and
-- missing track has active work on its track in the end, and the database is well-formed.
pub retry_unresolved_accounts :
    (clock : ℕ → Text) (missing : List Text) (s : Db)
    → IsWellFormed s
    → (b : UnresolvedRetryBatch) × (s' : Db) × (retry_unresolved_acquisitions healthy clock missing
          s
        ≡ (ok b, s'))
      × Retried missing s b s'
unfolding retry_unresolved_acquisitions
retry_unresolved_accounts clock missing s w =
    let items = select_where is_unresolved_youtube s.work in
    let batch = new_retry_batch (length items) in
    let (b, s', e, q) =
      Yields-ok (retry_unresolved_statements clock missing s) (Finished missing items batch s)
        (retry_statements_lem clock missing s w) in
    (
      b,
      s',
      transact-healthy (retry_unresolved_statements clock missing) s s' b e,
      record {
        well_formed = q.well_formed;
        tracks = q.tracks;
        considered = q.considered ∙ length-select_where is_unresolved_youtube s.work;
        total = omega (arith, q.total, q.considered);
        removed = omega (
          arith,
          q.removed,
          count_where-select_where is_unresolved_youtube (is_removed s.tracks) s.work,
        );
        available = omega (
          arith,
          q.available,
          count_where-select_where is_unresolved_youtube (is_available s.tracks missing) s.work,
        );
        requeued = omega (arith, q.requeued);
        pending = omega (arith, q.pending);
        covered = q.covered;
      },
    )
