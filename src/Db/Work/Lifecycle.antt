-- ===== src/Db/Work/Lifecycle.antt =====
-- ClaimAcquisition and RecoverAcquisitions: which row they take, and what they do to the counts.
use offbeat.Db.Query.Lookup.{first_where-update_other, first_where-first, first_where-holds}
use offbeat.Db.Query.Ids.{count_where-one, ascending, above}
use offbeat.Db.Tx.{transact, no_rows, Reply, transact-healthy, healthy}
use offbeat.Db.Invariant.{update_work_calm, IsWellFormed}
use offbeat.Db.Query.{with_id, first_where, update_where, count_where}
use offbeat.Prelude.{
  ◌≢◌, Option-cases, inr, All-map, inl, Bool-cases, ◌≤◌, All, err, none, some, ℕ, refl, [], arith,
  ok, ◌+◌, ◌∷◌, List, false, true, ◌≡◌, Text, Bool,
}
use offbeat.Db.Schema.{check_row, WorkState, Db, WorkRow}
use offbeat.Db.Work.{
  or_empty, is_pending_row, scan_work, acquisition, AcquisitionWork, claim_over, claim_statements,
  set_state, in_state, acquisition_counts, recover_statements, recover_acquisitions,
  claim_acquisition,
}

-- What one UPDATE does to a count.
module _ (p q : WorkRow → Bool) (f : WorkRow → WorkRow) where
  pub count_where-gain :
      ((r : WorkRow) → p r ≡ true → (q r ≡ false) × (q (f r) ≡ true))
      → (xs : List WorkRow)
      → count_where q (update_where p f xs) ≡ count_where q xs + count_where p xs
  unfolding count_where update_where
  count_where-gain h [] = refl
  count_where-gain h (x ∷ xs) = ground (arith, h x, count_where-gain h xs)

  pub count_where-loss :
      ((r : WorkRow) → p r ≡ true → (q r ≡ true) × (q (f r) ≡ false))
      → (xs : List WorkRow)
      → count_where q (update_where p f xs) + count_where p xs ≡ count_where q xs
  unfolding count_where update_where
  count_where-loss h [] = refl
  count_where-loss h (x ∷ xs) = ground (arith, h x, count_where-loss h xs)

  pub count_where-same :
      ((r : WorkRow) → p r ≡ true → q (f r) ≡ q r)
      → (xs : List WorkRow) → count_where q (update_where p f xs) ≡ count_where q xs
  unfolding count_where update_where
  count_where-same h [] = refl
  count_where-same h (x ∷ xs) = ground (arith, h x, count_where-same h xs)

-- On a well-formed database RecoverAcquisitions succeeds; then no work runs, what ran is pending, and
-- the other counts are as they were.
pub recover_counts :
    (now : Text) (s : Db)
    → IsWellFormed s
    → (s' : Db) × (recover_acquisitions healthy now s ≡ (ok tt, s'))
      × (acquisition_counts s' ≡ record (acquisition_counts s) {
        pending = (acquisition_counts s).pending + (acquisition_counts s).running;
        running = 0;
      })
unfolding recover_acquisitions recover_statements acquisition_counts
recover_counts now s w =
    let p = in_state WorkState.running in
    let f = set_state WorkState.pending [] now in
    let (e, w') =
      update_work_calm p f (λ r. refl) (λ r. refl) (λ r q h. unfold check_row in h) s w
        (λ r q a. ground arith) in
    (
      record s { work = update_where p f s.work },
      transact-healthy (recover_statements now) s _ tt (rw e),
      ground (
        arith,
        count_where-gain p (in_state WorkState.pending) f (λ r q. ground arith) s.work,
        count_where-loss p (in_state WorkState.running) f (λ r q. ground arith) s.work,
        count_where-same p (in_state WorkState.unresolved) f (λ r q. ground arith) s.work,
        count_where-same p (in_state WorkState.failed) f (λ r q. ground arith) s.work,
        count_where-same p (in_state WorkState.complete) f (λ r q. ground arith) s.work,
      ),
    )

above-All : (n : ℕ) (xs : List WorkRow) → above n xs ≡ true → All (λ x. n ≤ x.id) xs
unfolding above
above-All n [] h = tt
above-All n (x ∷ xs) h = (ground arith, above-All n xs (ground arith))

-- The row that a SELECT finds first has the least id of those that it selects.
first_where-least :
    (p : WorkRow → Bool) (xs : List WorkRow) (r : WorkRow)
    → ascending xs ≡ true
    → first_where p xs ≡ some r
    → All (λ x. p x ≡ true → r.id ≤ x.id) xs
unfolding first_where ascending
first_where-least p [] r s h = tt
first_where-least p (x ∷ xs) r s h = elim (Bool-cases (p x)) [
  | inl e ↦
      (λ q. ground arith, All-map (λ y k q. ground arith) xs (above-All x.id xs (ground arith)))
  | inr e ↦ (λ q. ground arith, first_where-least p xs r (ground arith) (ground arith))
]

first_where-update_self :
    (p q : WorkRow → Bool) (f : WorkRow → WorkRow) (xs : List WorkRow) (r : WorkRow)
    → ((x : WorkRow) → p x ≡ true → q x ≡ true)
    → ((x : WorkRow) → q (f x) ≡ q x)
    → first_where q xs ≡ some r
    → p r ≡ true
    → first_where q (update_where p f xs) ≡ some (f r)
unfolding first_where update_where
first_where-update_self p q f [] r s k h e = cc
first_where-update_self p q f (x ∷ xs) r s k h e =
    ground (arith, s x, k x, first_where-update_self p q f xs r s k)

none_pending :
    (xs : List WorkRow)
    → first_where (in_state WorkState.pending) xs ≡ none
    → count_where (in_state WorkState.pending) xs ≡ 0
unfolding first_where count_where
none_pending [] h = refl
none_pending (x ∷ xs) h = ground (arith, none_pending xs)

-- The row as it is stored once it runs.
abbrev pub started : Text → WorkRow → WorkRow
started now r = record {
  id = r.id;
  track_uri = r.track_uri;
  source_kind = r.source_kind;
  source_url = r.source_url;
  state = WorkState.running;
  error = [];
  created_at = r.created_at;
  updated_at = now;
}

-- The work that the row says.
abbrev pub Reports : WorkRow → AcquisitionWork → Type 0
Reports r a =
    (a.id ≡ r.id)
    × (a.track_uri ≡ r.track_uri)
    × (a.source_kind ≡ r.source_kind)
    × (a.source_url ≡ or_empty r.source_url)
    × (a.state ≡ r.state)
    × (a.error ≡ r.error)
    × (a.created_at ≡ r.created_at)
    × (a.updated_at ≡ r.updated_at)

-- What a claim returns: nothing pending, or the oldest pending row, which is stored as running from
-- then on, with all other rows as they were.
abbrev pub Claimed : Text → Db → Reply AcquisitionWork → Db → Type 0
Claimed now s (err e) s' = (e ≡ no_rows) × (s' ≡ s) × ((acquisition_counts s).pending ≡ 0)
Claimed now s (ok a) s' =
    (r : WorkRow) × (first_where (with_id r.id) s.work ≡ some r)
    × (in_state WorkState.pending r ≡ true)
    × All (λ x. in_state WorkState.pending x ≡ true → r.id ≤ x.id) s.work
    × Reports (started now r) a
    × (first_where (with_id r.id) s'.work ≡ some (started now r))
    × ((i : ℕ) → i ≢ r.id → first_where (with_id i) s'.work ≡ first_where (with_id i) s.work)
    × ((acquisition_counts s').pending + 1 ≡ (acquisition_counts s).pending)
    × ((acquisition_counts s').running ≡ (acquisition_counts s).running + 1)
    × ((acquisition_counts s').complete ≡ (acquisition_counts s).complete)

module _ (now : Text) (s : Db) (w : IsWellFormed s) where
  claim_found :
      (r : WorkRow)
      → first_where (in_state WorkState.pending) s.work ≡ some r
      → let t = record s {
        work = update_where (is_pending_row r.id) (set_state WorkState.running [] now) s.work;
      } in
        (claim_statements now s ≡ ok (scan_work (set_state WorkState.running [] now r), t))
        × Claimed now s (ok (scan_work (set_state WorkState.running [] now r))) t
  unfolding claim_statements claim_over acquisition acquisition_counts scan_work
  claim_found r e =
      let p = is_pending_row r.id in
      let f = set_state WorkState.running [] now in
      let pending_r = first_where-holds (in_state WorkState.pending) s.work r e in
      let by_id =
        first_where-first (in_state WorkState.pending) (with_id r.id) s.work r (λ x q. ground arith)
          (ground arith) w.sorted e in
      let by_row =
        first_where-first (in_state WorkState.pending) p s.work r (λ x q. ground arith)
          (ground arith) w.sorted e in
      let one = count_where-one p r.id (λ x q. ground arith) s.work r w.sorted by_row in
      let (done, w') =
        update_work_calm p f (λ x. refl) (λ x. refl) (λ x q h. unfold check_row in h) s w
          (λ x q a. ground arith) in
      let read =
        first_where-update_self p (with_id r.id) f s.work r (λ x q. ground arith) (λ x. refl) by_id
          (ground arith) in
      (
        rw e (rw done (rw one (rw read refl))),
        (
          r,
          by_id,
          pending_r,
          first_where-least (in_state WorkState.pending) s.work r w.sorted e,
          (refl, refl, refl, refl, refl, refl, refl, refl),
          read,
          λ i other.
              first_where-update_other p (with_id i) f
                (λ x q. (ground (arith, other), ground (arith, other))) s.work,
          omega (
            arith,
            one,
            count_where-loss p (in_state WorkState.pending) f (λ x q. ground arith) s.work,
          ),
          omega (
            arith,
            one,
            count_where-gain p (in_state WorkState.running) f (λ x q. ground arith) s.work,
          ),
          count_where-same p (in_state WorkState.complete) f (λ x q. ground arith) s.work,
        ),
      )

  -- On a well-formed database ClaimAcquisition either reports sql.ErrNoRows, changes nothing and
  -- nothing is pending, or it returns the stored row that is pending and whose id no pending row is
  -- below, with every field as stored but running, without an error and updated now; that row is
  -- then stored so, every other row is as it was, and there is one less pending and one more running
  -- row and as many complete ones.
  pub claim_oldest :
      (reply : Reply AcquisitionWork) × (s' : Db) × (claim_acquisition healthy now s ≡ (reply, s'))
      × Claimed now s reply s'
  unfolding claim_acquisition
  claim_oldest = elim (Option-cases (first_where (in_state WorkState.pending) s.work)) [
    | inl e ↦ (
      err no_rows,
      s,
      unfold transact claim_statements claim_over in rw e,
      (refl, refl, unfold acquisition_counts in none_pending s.work e),
    )
    | inr (r, e) ↦
        let (done, claimed) = claim_found r e in
        (
          ok (scan_work (set_state WorkState.running [] now r)),
          _,
          transact-healthy (claim_statements now) s _ _ done,
          claimed,
        )
  ]
