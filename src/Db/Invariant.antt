-- ===== src/Db/Invariant.antt =====
-- What holds of acquisition_work between two transactions, and what a statement that succeeds or
-- fails leaves of it.
use offbeat.Prelude.{
  ◌≢◌, refl, ℕ, suc, ◌<◌, Text, ◌≡◌, Bool, true, false, not, Option, none, some, [], ◌∷◌, ◌++◌,
  arith, ok, err, is_empty,
}
use offbeat.Db.Schema.{
  SourceKind, youtube, pending, WorkRow, Db, is_active, kind_eq, check_row, has_active, one_active,
  all_checked,
}
use offbeat.Db.Tx.{ask, continue, DbError, constraint, Reply, Tx, Driver, transact}
use offbeat.Db.Query.{has_track, first_where, count_where, update_where, insert_work, update_work}
use offbeat.Db.Query.Active.{
  one_active-append, all_checked-append, all_checked-update, one_active-update_calm,
}
use offbeat.Db.Query.Ids.{
  above, ascending, below, above-append, ascending-append, below-append, above-update,
  ascending-update, below-update,
}
use offbeat.Db.Query.Wake.{one_active-update_wake}

pub record IsWellFormed (s : Db) : Type 0 where
  pub checked : all_checked s.work ≡ true
  pub unique : one_active s.work ≡ true
  pub sorted : ascending s.work ≡ true
  pub positive : above 0 s.work ≡ true
  pub fresh : below s.next_id s.work ≡ true
  pub started : 0 < s.next_id
  pub named : has_track [] s.tracks ≡ false

-- The error is not SQLite's refusal of a row.
abbrev pub IsOrderly : DbError → Type 0
IsOrderly constraint = ⊥
IsOrderly _ = Unit

-- A statement that succeeds leaves a well-formed database, and one that fails does not fail by a
-- constraint.
abbrev pub IsSound : {A : Type 0} → Reply (A × Db) → Type 0
IsSound (ok (a, s)) = IsWellFormed s
IsSound (err e) = IsOrderly e

-- A statement that succeeds leaves a well-formed database.
abbrev pub IsKept : {A : Type 0} → Reply (A × Db) → Type 0
IsKept (ok (a, s)) = IsWellFormed s
IsKept (err e) = Unit

-- An operation leaves a well-formed database and does not reply with SQLite's refusal of a row.
abbrev pub IsServed : {A : Type 0} → Reply A × Db → Type 0
IsServed x = IsWellFormed x.1 × (x.0 ≢ err constraint)

pub IsSound-IsKept : {A : Type 0} (r : Reply (A × Db)) → IsSound r → IsKept r
IsSound-IsKept (ok (a, s)) h = h
IsSound-IsKept (err e) h = tt

pub IsSound-continue :
    {A B : Type 0} (r : Reply (A × Db)) (f : A → Tx B)
    → IsSound r
    → ((a : A) (s : Db) → IsWellFormed s → IsSound (f a s))
    → IsSound (continue r f)
IsSound-continue (ok (a, s)) f h k = k a s h
IsSound-continue (err e) f h k = h

-- The statement succeeds, and `Q` holds of what it leaves.
abbrev pub Yields : {A : Type 0} → Reply (A × Db) → (A → Db → Type 0) → Type 0
Yields (ok (a, s)) Q = Q a s
Yields (err e) Q = ⊥

pub Yields-continue :
    {A B : Type 0} (r : Reply (A × Db)) (f : A → Tx B) (P : A → Db → Type 0) (Q : B → Db → Type 0)
    → Yields r P
    → ((a : A) (s : Db) → P a s → Yields (f a s) Q)
    → Yields (continue r f) Q
Yields-continue (ok (a, s)) f P Q h k = k a s h
Yields-continue (err e) f P Q h k = absurd h

pub Yields-map :
    {A : Type 0} (r : Reply (A × Db)) (P Q : A → Db → Type 0)
    → Yields r P
    → ((a : A) (s : Db) → P a s → Q a s)
    → Yields r Q
Yields-map (ok (a, s)) P Q h k = k a s h
Yields-map (err e) P Q h k = h

-- The value and the database of a statement that succeeds.
pub Yields-ok :
    {A : Type 0} (r : Reply (A × Db)) (Q : A → Db → Type 0)
    → Yields r Q
    → (a : A) × (s : Db) × (r ≡ ok (a, s)) × Q a s
Yields-ok (ok (a, s)) Q h = (a, s, refl, h)
Yields-ok (err e) Q h = absurd h

abbrev pub inserted : Text → SourceKind → Option Text → Text → Text → Db → Db
inserted uri kind url created now s = record s {
  work =
      s.work
      ++ record {
        id = s.next_id;
        track_uri = uri;
        source_kind = kind;
        source_url = url;
        state = pending;
        error = [];
        created_at = created;
        updated_at = now;
      }
        ∷ [];
  next_id = suc s.next_id;
}

-- A source that the CHECK constraint accepts.
abbrev pub fits : SourceKind → Option Text → Bool
fits kind none = kind_eq kind youtube
fits kind (some u) = not (is_empty u)

module _ (uri : Text) (kind : SourceKind) (url : Option Text) (created now : Text) (s : Db) where
  row : WorkRow
  row = record {
    id = s.next_id;
    track_uri = uri;
    source_kind = kind;
    source_url = url;
    state = pending;
    error = [];
    created_at = created;
    updated_at = now;
  }

  check-row : is_empty uri ≡ false → fits kind url ≡ true → check_row row ≡ true
  unfolding row check_row
  check-row h k = ground arith

  -- An INSERT for a track with no active row succeeds.
  pub insert_work_lem :
      IsWellFormed s
      → is_empty uri ≡ false
      → fits kind url ≡ true
      → has_active uri s.work ≡ false
      → (insert_work uri kind url created now s
          ≡ ok (s.next_id, inserted uri kind url created now s))
        × IsWellFormed (inserted uri kind url created now s)
  unfolding insert_work row
  insert_work_lem w h k free =
      let c = all_checked-append s.work row w.checked (check-row h k) in
      let u = one_active-append s.work row w.unique free in
      (
        rw (c, u),
        record {
          checked = c;
          unique = u;
          sorted = ascending-append s.work row w.sorted w.fresh;
          positive = above-append 0 s.work row w.positive w.started;
          fresh = below-append s.work row w.fresh;
          started = omega arith;
          named = w.named;
        },
      )

-- An UPDATE that keeps the ids, the tracks and the CHECKs.
module _ (p : WorkRow → Bool) (f : WorkRow → WorkRow) (same_id : (r : WorkRow) → (f r).id ≡ r.id)
    (same_track : (r : WorkRow) → (f r).track_uri ≡ r.track_uri)
    (still : (r : WorkRow) → p r ≡ true → check_row r ≡ true → check_row (f r) ≡ true) (s : Db)
    (w : IsWellFormed s) where
  abbrev pub updated : Db
  updated = record s { work = update_where p f s.work }

  update_work_unique :
      one_active (update_where p f s.work) ≡ true
      → (update_work p f s ≡ ok (count_where p s.work, updated)) × IsWellFormed updated
  unfolding update_work
  update_work_unique u =
      let c = all_checked-update p f s.work still w.checked in
      (
        rw (c, u),
        record {
          checked = c;
          unique = u;
          sorted = rw (ascending-update p f same_id s.work) w.sorted;
          positive = rw (above-update p f same_id 0 s.work) w.positive;
          fresh = rw (below-update p f same_id s.next_id s.work) w.fresh;
          started = w.started;
          named = w.named;
        },
      )

  -- It makes no row active.
  pub update_work_calm :
      ((r : WorkRow) → p r ≡ true → is_active (f r).state ≡ true → is_active r.state ≡ true)
      → (update_work p f s ≡ ok (count_where p s.work, updated)) × IsWellFormed updated
  update_work_calm calm =
      update_work_unique (one_active-update_calm p f same_track calm s.work w.unique)

  -- It makes the one row with an id active, of a track with no active row.
  pub update_work_wake :
      (i : ℕ)
      → ((r : WorkRow) → p r ≡ true → r.id ≡ i)
      → (r : WorkRow) → first_where p s.work ≡ some r
      → has_active r.track_uri s.work ≡ false
      → (update_work p f s ≡ ok (count_where p s.work, updated)) × IsWellFormed updated
  update_work_wake i only r found free =
      update_work_unique
        (one_active-update_wake p f i only same_track s.work r w.sorted found free w.unique)

-- A transaction keeps the invariant if its statements do, whether it commits or not.
pub transact-IsWellFormed :
    {A : Type 0} (d : Driver) (m : Tx A) (s : Db)
    → IsWellFormed s
    → IsKept (m s)
    → IsWellFormed (transact d m s).1
unfolding transact
transact-IsWellFormed d m s w h = ground arith

-- What is asked after a statement changes nothing.
pub ask-IsWellFormed :
    {A B : Type 0} (d : Driver) (f : A → Db → Reply B) (x : Reply A × Db)
    → IsWellFormed x.1
    → IsWellFormed (ask d f x).1
unfolding ask
ask-IsWellFormed d f (ok a, s) w = w
ask-IsWellFormed d f (err e, s) w = w

-- A sound transaction commits a well-formed database, and its error is never SQLite's refusal of a
-- row.
pub transact-IsServed :
    {A : Type 0} (d : Driver) (m : Tx A) (s : Db)
    → IsWellFormed s
    → IsSound (m s)
    → IsServed (transact d m s)
unfolding transact
transact-IsServed d m s w h =
    (transact-IsWellFormed d m s w (IsSound-IsKept (m s) h), λ e. ground arith)

pub ask-IsServed :
    {A B : Type 0} (d : Driver) (f : A → Db → Reply B) (x : Reply A × Db)
    → ((a : A) (t : Db) → f a t ≢ err constraint)
    → IsServed x
    → IsServed (ask d f x)
unfolding ask
ask-IsServed d f (ok a, s) h (w, k) = (w, λ e. ground (arith, h a s))
ask-IsServed d f (err e, s) h (w, k) = (w, λ e. ground arith)
