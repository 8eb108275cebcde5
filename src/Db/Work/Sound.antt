-- ===== src/Db/Work/Sound.antt =====
-- The operations on one request keep the constraints, and never run into them.
use offbeat.Db.Tx.{transact}
use offbeat.Db.Query.{first_where, update_where}
use offbeat.Prelude.{inr, inl, Bool-cases, none, refl, ℕ, Text, is_empty, ◌≡◌, false, some, arith}
use offbeat.Db.Schema.{
  failed, unresolved, pending, WorkRow, is_active, running, WorkState, check_row, direct, Db,
}
use offbeat.Db.Query.Lookup.{first_where-on_track}
use offbeat.Db.Invariant.{
  IsServed, ask-IsServed, transact-IsServed, update_work_calm, IsWellFormed, IsSound, inserted,
  insert_work_lem,
}
use offbeat.Db.Work.{
  claim_acquisition, enqueue_acquisition, fail_acquisition, recover_acquisitions,
  set_acquisition_source, transition_acquisition, unresolve_acquisition, Driver, [], is_pending_row,
  set_state, with_id, Option, accepts_source, in_state, claim_over, claim_statements,
  recover_statements, set_source_statement, transition_statements, acquisition,
  acquisition_by_track_and_states, require_desired_track, enqueue_statements,
}

acquisition-IsSound : (i : ℕ) (s : Db) → IsWellFormed s → IsSound (acquisition i s)
unfolding acquisition
acquisition-IsSound i s w = ground arith

module _ (now : Text) (s : Db) (w : IsWellFormed s) where
  enqueue-IsSound :
      (uri url : Text)
      → is_empty uri ≡ false
      → is_empty url ≡ false
      → IsSound (enqueue_statements now uri url s)
  unfolding enqueue_statements require_desired_track acquisition_by_track_and_states
  enqueue-IsSound uri url h k = ground (
    arith,
    insert_work_lem uri direct (some url) now now s w h,
    first_where-on_track uri s.work,
    acquisition-IsSound s.next_id (inserted uri direct (some url) now now s),
  )

  claim-IsSound : IsSound (claim_statements now s)
  unfolding claim_statements claim_over check_row
  claim-IsSound = go (first_where (in_state pending) s.work)
    where
      go : (o : Option WorkRow) → IsSound (claim_over now o s)
      go none = tt
      go (some r) =
          let p = is_pending_row r.id in
          let f = set_state running [] now in
          let done =
            update_work_calm p f (λ r. refl) (λ r. refl) (λ r e h. h) s w (λ q e a. ground arith) in
          ground
            (arith, done, acquisition-IsSound r.id (record s { work = update_where p f s.work }))

  recover-IsSound : IsSound (recover_statements now s)
  unfolding recover_statements check_row
  recover-IsSound = ground (
    arith,
    update_work_calm (in_state running) (set_state pending [] now) (λ r. refl) (λ r. refl)
        (λ r e h. h) s w (λ q e a. ground arith),
  )

  transition-IsSound :
      (i : ℕ) (from to : WorkState) (message : Text)
      → is_active to ≡ false
      → IsSound (transition_statements now i from to message s)
  unfolding transition_statements check_row acquisition
  transition-IsSound i from to message rest = ground (
    arith,
    update_work_calm (with_id i) (set_state to message now) (λ r. refl) (λ r. refl) (λ r e h. h) s w
        (λ q e a. ground arith),
  )

  set_source-IsSound :
      (i : ℕ) (url : Text) → is_empty url ≡ false → IsSound (set_source_statement now i url s)
  unfolding set_source_statement
  set_source-IsSound i url h = ground (
    arith,
    update_work_calm (accepts_source i) (λ r. record r { source_url = some url; updated_at = now })
        (λ r. refl) (λ r. refl) (λ r e k. unfold check_row in ground arith) s w (λ q e a. a),
  )

-- Each operation on one request keeps the database well-formed and is never refused by SQLite,
-- whatever the driver does.
module _ (d : Driver) (now : Text) (s : Db) (w : IsWellFormed s) where
  pub enqueue_acquisition-IsServed :
      (uri url : Text) → IsServed (enqueue_acquisition d now uri url s)
  unfolding enqueue_acquisition
  enqueue_acquisition-IsServed uri url = ground (
    arith,
    λ (h : is_empty uri ≡ false) (k : is_empty url ≡ false).
        transact-IsServed d (enqueue_statements now uri url) s w
          (enqueue-IsSound now s w uri url h k),
  )

  pub claim_acquisition-IsServed : IsServed (claim_acquisition d now s)
  unfolding claim_acquisition
  claim_acquisition-IsServed =
      transact-IsServed d (claim_statements now) s w (claim-IsSound now s w)

  pub recover_acquisitions-IsServed : IsServed (recover_acquisitions d now s)
  unfolding recover_acquisitions
  recover_acquisitions-IsServed =
      transact-IsServed d (recover_statements now) s w (recover-IsSound now s w)

  transition_acquisition-IsServed :
      (i : ℕ) (from to : WorkState) (message : Text)
      → is_active to ≡ false
      → IsServed (transition_acquisition d now i from to message s)
  unfolding transition_acquisition
  transition_acquisition-IsServed i from to message h =
      transact-IsServed d (transition_statements now i from to message) s w
        (transition-IsSound now s w i from to message h)

  pub fail_acquisition-IsServed :
      (i : ℕ) (message : Text) → IsServed (fail_acquisition d now i message s)
  unfolding fail_acquisition
  fail_acquisition-IsServed i message =
      ground (arith, transition_acquisition-IsServed i running failed message refl)

  pub unresolve_acquisition-IsServed :
      (i : ℕ) (message : Text) → IsServed (unresolve_acquisition d now i message s)
  unfolding unresolve_acquisition
  unresolve_acquisition-IsServed i message =
      ground (arith, transition_acquisition-IsServed i running unresolved message refl)

  pub set_acquisition_source-IsServed :
      (i : ℕ) (url : Text) → IsServed (set_acquisition_source d now i url s)
  unfolding set_acquisition_source
  set_acquisition_source-IsServed i url = elim (Bool-cases (is_empty url)) [
    | inl e ↦ rw e (w, λ h. ground arith)
    | inr e ↦ rw e (
        ask-IsServed d _ (transact d (set_source_statement now i url) s)
          (λ changed t h. ground arith)
          (transact-IsServed d (set_source_statement now i url) s w
            (set_source-IsSound now s w i url e)))
  ]
