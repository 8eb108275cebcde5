-- ===== src/Db/Work/Enqueue.antt =====
-- EnqueueAcquisition is idempotent for one source and refuses another while work is active.
use offbeat.Db.Query.Lookup.{first_where-on_track}
use offbeat.Db.Invariant.{inserted, insert_work_lem, IsWellFormed}
use offbeat.Db.Tx.{transact, conflict, healthy, Reply}
use offbeat.Db.Query.Ids.{below}
use offbeat.Prelude.{
  text_eq_iff, ◌∙◌, ap, inr, err, inl, text_eq, Option-cases, if◌then◌else◌, text_eq_refl, refl,
  some, [], arith, false, ◌∷◌, is_empty, ◌++◌, none, ok, true, ◌≡◌, List, ℕ, Bool, Text,
}
use offbeat.Db.Query.{has_track, with_id, first_where}
use offbeat.Db.Schema.{direct, Db, WorkRow}
use offbeat.Db.Work.{
  running, pending, on_track_in, acquisition, scan_work, require_desired_track,
  acquisition_by_track_and_states, enqueue_statements, AcquisitionWork, enqueue_acquisition,
}

module _ (p : WorkRow → Bool) where
  first_where-append :
      (xs : List WorkRow) (r : WorkRow)
      → first_where p xs ≡ none
      → p r ≡ true
      → first_where p (xs ++ r ∷ []) ≡ some r
  unfolding first_where
  first_where-append [] r h k = ground arith
  first_where-append (x ∷ xs) r h k = ground (arith, first_where-append xs r)

first_where-fresh :
    (n : ℕ) (xs : List WorkRow) → below n xs ≡ true → first_where (with_id n) xs ≡ none
unfolding first_where below
first_where-fresh n [] h = refl
first_where-fresh n (x ∷ xs) h = ground (arith, first_where-fresh n xs)

-- What a later request for the track gets, while the work `a` is active.
abbrev pub later_reply : AcquisitionWork → Text → Reply AcquisitionWork
later_reply a url = if text_eq a.source_url url then ok a else err conflict

module _ (now uri url : Text) (s : Db) where
  over_active :
      (r : WorkRow)
      → has_track uri s.tracks ≡ true
      → first_where (on_track_in uri pending running) s.work ≡ some r
      → enqueue_statements now uri url s
        ≡ (if text_eq (scan_work r).source_url url then ok (scan_work r, s) else err conflict)
  unfolding enqueue_statements acquisition_by_track_and_states require_desired_track scan_work
  over_active r h e = ground arith

  over_none :
      IsWellFormed s
      → is_empty uri ≡ false
      → is_empty url ≡ false
      → has_track uri s.tracks ≡ true
      → first_where (on_track_in uri pending running) s.work ≡ none
      → (r : WorkRow) × (s' : Db) × (enqueue_statements now uri url s ≡ ok (scan_work r, s'))
        × (s'.tracks ≡ s.tracks)
        × (first_where (on_track_in uri pending running) s'.work ≡ some r)
        × ((scan_work r).source_url ≡ url)
  unfolding enqueue_statements acquisition_by_track_and_states require_desired_track acquisition
      scan_work
  over_none w hu hl h e =
      let free = first_where-on_track uri s.work e in
      let (added, w') = insert_work_lem uri direct (some url) now now s w hu (ground arith) free in
      let r : WorkRow = record {
        id = s.next_id;
        track_uri = uri;
        source_kind = direct;
        source_url = some url;
        state = pending;
        error = [];
        created_at = now;
        updated_at = now;
      } in
      let read =
        first_where-append (with_id s.next_id) s.work r (first_where-fresh s.next_id s.work w.fresh)
          (ground arith) in
      (
        r,
        inserted uri direct (some url) now now s,
        rw h (rw e (rw added (rw read refl))),
        refl,
        first_where-append (on_track_in uri pending running) s.work r e
            (ground (arith, text_eq_refl uri)),
        refl,
      )

accepted :
    (now uri url : Text) (s s' : Db) (a : AcquisitionWork)
    → enqueue_acquisition healthy now uri url s ≡ (ok a, s')
    → (is_empty uri ≡ false) × (is_empty url ≡ false) × (has_track uri s.tracks ≡ true)
unfolding enqueue_acquisition transact require_desired_track
accepted now uri url s s' a h = ground arith

reply_over_active :
    (now uri url : Text) (s : Db) (r : WorkRow)
    → is_empty uri ≡ false
    → is_empty url ≡ false
    → has_track uri s.tracks ≡ true
    → first_where (on_track_in uri pending running) s.work ≡ some r
    → enqueue_acquisition healthy now uri url s ≡ (later_reply (scan_work r) url, s)
unfolding enqueue_acquisition transact
reply_over_active now uri url s r hu hl h e =
    rw (hu, hl) (rw (over_active now uri url s r h e) (ground arith))

-- On a well-formed database, after EnqueueAcquisition accepts a URL for a track, its work has that
-- URL, and the next request for the track with a URL that is not empty changes nothing: it gets the
-- same work for the same URL, and a conflict for another one.
pub enqueue_again :
    (now now' uri url url' : Text) (s s' : Db) (a : AcquisitionWork)
    → IsWellFormed s
    → enqueue_acquisition healthy now uri url s ≡ (ok a, s')
    → is_empty url' ≡ false
    → (a.source_url ≡ url)
      × (enqueue_acquisition healthy now' uri url' s' ≡ (later_reply a url', s'))
enqueue_again now now' uri url url' s s' a w h full =
    let (hu, hl, ht) = accepted now uri url s s' a h in
    elim (Option-cases (first_where (on_track_in uri pending running) s.work)) [
      | inl e ↦
          let (r, t, done, tracks, found, source) = over_none now uri url s w hu hl ht e in
          let again = reply_over_active now' uri url' t r hu full (rw tracks ht) found in
          let first : (a ≡ scan_work r) × (s' ≡ t) =
            unfold enqueue_acquisition transact in ground (arith, done) in
          (ap (λ x. x.source_url) first.0 ∙ source, rw first.0 (rw first.1 again))
      | inr (r, e) ↦
          let now_reply = reply_over_active now uri url s r hu hl ht e in
          let again = reply_over_active now' uri url' s r hu full ht e in
          let first : (a ≡ scan_work r) × (s' ≡ s) × (text_eq (scan_work r).source_url url ≡ true) =
            ground (arith, now_reply) in
          (
            ap (λ x. x.source_url) first.0 ∙ (text_eq_iff _ url).0 first.2,
            rw first.0 (rw first.1 again),
          )
    ]
