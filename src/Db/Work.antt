-- ===== src/Db/Work.antt =====
-- internal/db/acquisition_work.go: one request at a time. `now` is what acquisitionTime() returns.
pub mod Sound
pub mod Enqueue
pub mod Lifecycle
use offbeat.Prelude.{
  ℕ, Text, byte_len, is_empty, Bool, true, false, not, Option, none, some, List, [], ◌&&◌, ◌||◌,
  ltb, ◌==◌, if◌then◌else◌, text_eq, ok, err, map, take,
}
use offbeat.Db.Schema.{
  SourceKind, direct, youtube, WorkState, pending, running, unresolved, failed, WorkRow, Db,
  state_eq, kind_eq,
}
use offbeat.Db.Tx.{
  ask, no_rows, precondition, conflict, Reply, Tx, ◌>>=◌, ◌>>◌, pure, raise, raise_if, Driver,
  transact,
}
use offbeat.Db.Query.{
  has_track, first_where, count_where, select_where, with_id, insert_work, update_work,
}

-- The struct that the code hands on: a NULL source_url reads "".
pub record AcquisitionWork : Type 0 where
  pub id : ℕ
  pub track_uri : Text
  pub source_kind : SourceKind
  pub source_url : Text
  pub state : WorkState
  pub error : Text
  pub created_at : Text
  pub updated_at : Text

abbrev pub or_empty : Option Text → Text
or_empty none = []
or_empty (some u) = u

unfoldable pub scan_work : WorkRow → AcquisitionWork
scan_work r = record {
  id = r.id;
  track_uri = r.track_uri;
  source_kind = r.source_kind;
  source_url = or_empty r.source_url;
  state = r.state;
  error = r.error;
  created_at = r.created_at;
  updated_at = r.updated_at;
}

abbrev pub or_no_rows : Option WorkRow → Tx AcquisitionWork
or_no_rows none s = err no_rows
or_no_rows (some r) s = ok (scan_work r, s)

unfoldable pub acquisition : ℕ → Tx AcquisitionWork
acquisition i s = or_no_rows (first_where (with_id i) s.work) s

abbrev pub on_track_in : Text → WorkState → WorkState → WorkRow → Bool
on_track_in u a b r = text_eq r.track_uri u && (state_eq r.state a || state_eq r.state b)

abbrev scan_option : Option WorkRow → Option AcquisitionWork
scan_option none = none
scan_option (some r) = some (scan_work r)

-- The callers test the error against sql.ErrNoRows: that is `none`.
unfoldable pub acquisition_by_track_and_states :
    Text → WorkState → WorkState → Tx (Option AcquisitionWork)
acquisition_by_track_and_states u a b s =
    ok (scan_option (first_where (on_track_in u a b) s.work), s)

unfoldable pub require_desired_track : Text → Tx (Unit {0})
require_desired_track u s = if has_track u s.tracks then ok (tt, s) else err precondition

insert_and_read : Text → Text → Text → Tx AcquisitionWork
insert_and_read now uri url = do i ← insert_work uri direct (some url) now now; acquisition i

enqueue_over : Text → Text → Text → Option AcquisitionWork → Tx AcquisitionWork
unfolding insert_and_read
enqueue_over now uri url none = insert_and_read now uri url
enqueue_over now uri url (some active) =
    if text_eq active.source_url url then pure active else raise conflict

pub enqueue_statements : Text → Text → Text → Tx AcquisitionWork
unfolding enqueue_over
enqueue_statements now uri url = do
  require_desired_track uri
  active ← acquisition_by_track_and_states uri pending running
  enqueue_over now uri url active

unfoldable pub enqueue_acquisition : Driver → Text → Text → Text → Db → Reply AcquisitionWork × Db
unfolding enqueue_statements
enqueue_acquisition d now uri url s =
    if is_empty uri || is_empty url
    then (err precondition, s)
    else transact d (enqueue_statements now uri url) s

pub record AcquisitionCounts : Type 0 where
  pub pending : ℕ
  pub running : ℕ
  pub unresolved : ℕ
  pub failed : ℕ
  pub complete : ℕ

abbrev pub in_state : WorkState → WorkRow → Bool
in_state a r = state_eq r.state a

unfoldable pub acquisition_counts : Db → AcquisitionCounts
acquisition_counts s = record {
  pending = count_where (in_state WorkState.pending) s.work;
  running = count_where (in_state WorkState.running) s.work;
  unresolved = count_where (in_state WorkState.unresolved) s.work;
  failed = count_where (in_state WorkState.failed) s.work;
  complete = count_where (in_state WorkState.complete) s.work;
}

unfoldable pub acquisitions_after : ℕ → ℕ → Db → List AcquisitionWork
acquisitions_after after limit s =
    map scan_work (take limit (select_where (λ r. ltb after r.id) s.work))

-- UPDATE … SET state = ?, error = ?, updated_at = ?
abbrev pub set_state : WorkState → Text → Text → WorkRow → WorkRow
set_state to message now r = record r { state = to; error = message; updated_at = now }

abbrev pub is_pending_row : ℕ → WorkRow → Bool
is_pending_row i r = with_id i r && in_state pending r

claim_over : Text → Option WorkRow → Tx AcquisitionWork
claim_over now none = raise no_rows
claim_over now (some r) = do
  changed ← update_work (is_pending_row r.id) (set_state running [] now)
  raise_if (not (changed == 1)) precondition
  acquisition r.id

claim_statements : Text → Tx AcquisitionWork
unfolding claim_over
claim_statements now s = claim_over now (first_where (in_state pending) s.work) s

unfoldable pub claim_acquisition : Driver → Text → Db → Reply AcquisitionWork × Db
unfolding claim_statements
claim_acquisition d now = transact d (claim_statements now)

recover_statements : Text → Tx (Unit {0})
recover_statements now = do update_work (in_state running) (set_state pending [] now); pure tt

unfoldable pub recover_acquisitions : Driver → Text → Db → Reply (Unit {0}) × Db
unfolding recover_statements
recover_acquisitions d now = transact d (recover_statements now)

pub transition_statements : Text → ℕ → WorkState → WorkState → Text → Tx (Unit {0})
transition_statements now i from to message = do
  work ← acquisition i
  raise_if (not (state_eq work.state from)) precondition
  update_work (with_id i) (set_state to message now)
  pure tt

unfoldable pub transition_acquisition :
    Driver → Text → ℕ → WorkState → WorkState → Text → Db → Reply (Unit {0}) × Db
unfolding transition_statements
transition_acquisition d now i from to message =
    transact d (transition_statements now i from to message)

abbrev pub max_acquisition_error_bytes : ℕ
max_acquisition_error_bytes = 1024

unfoldable pub fail_acquisition : Driver → Text → ℕ → Text → Db → Reply (Unit {0}) × Db
fail_acquisition d now i message s =
    if is_empty message
    then (err precondition, s)
    else if ltb max_acquisition_error_bytes (byte_len message)
    then (err precondition, s)
    else transition_acquisition d now i running failed message s

unfoldable pub unresolve_acquisition : Driver → Text → ℕ → Text → Db → Reply (Unit {0}) × Db
unresolve_acquisition d now i message s =
    if is_empty message || ltb max_acquisition_error_bytes (byte_len message)
    then (err precondition, s)
    else transition_acquisition d now i running unresolved message s

abbrev pub accepts_source : ℕ → WorkRow → Bool
accepts_source i r =
    with_id i r
    && kind_eq r.source_kind youtube
    && state_eq r.state running
    && (elim r.source_url [ none ↦ true | some u ↦ false ])

-- The UPDATE of SetAcquisitionSource, which commits before RowsAffected is read.
pub set_source_statement : Text → ℕ → Text → Tx ℕ
set_source_statement now i url =
    update_work (accepts_source i) (λ r. record r { source_url = some url; updated_at = now })

unfoldable pub set_acquisition_source : Driver → Text → ℕ → Text → Db → Reply (Unit {0}) × Db
unfolding set_source_statement
set_acquisition_source d now i url s =
    if is_empty url
    then (err precondition, s)
    else ask d (λ changed t. if changed == 1 then ok tt else err precondition)
        (transact d (set_source_statement now i url) s)
