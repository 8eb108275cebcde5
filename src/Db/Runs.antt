-- ===== src/Db/Runs.antt =====
-- Any sequence of the requests that write acquisition_work and the tables around it, under any
-- driver: each request is one call, which runs alone (the owner has one connection).
use offbeat.Db.Mapping.Sound.{
  select_youtube-IsWellFormed, remove_manual_youtube_mapping-IsWellFormed,
  set_manual_youtube_mapping-IsWellFormed,
}
use offbeat.Db.Mapping.{select_youtube, remove_manual_youtube_mapping, set_manual_youtube_mapping}
use offbeat.Db.Complete.Sound.{
  register_managed_track-IsWellFormed, complete_acquisition-IsWellFormed,
}
use offbeat.Db.Batch.Unresolved.{retry_unresolved_acquisitions-IsServed}
use offbeat.Db.Batch.Sound.{retry_acquisition-IsServed, enqueue_missing_acquisitions-IsServed}
use offbeat.Db.Work.Sound.{
  set_acquisition_source-IsServed, unresolve_acquisition-IsServed, fail_acquisition-IsServed,
  recover_acquisitions-IsServed, claim_acquisition-IsServed, enqueue_acquisition-IsServed,
}
use offbeat.Db.Batch.{
  retry_unresolved_acquisitions, retry_acquisition, enqueue_missing_acquisitions,
}
use offbeat.Db.Invariant.{IsWellFormed, IsServed}
use offbeat.Db.Work.{
  set_acquisition_source, unresolve_acquisition, fail_acquisition, recover_acquisitions,
  claim_acquisition, enqueue_acquisition,
}
use offbeat.Db.Schema.{Db}
use offbeat.Db.Complete.{
  register_managed_track, complete_presented_acquisition_with_fingerprints, Presented,
}
use offbeat.Prelude.{false, none, some, err, ok, true, Bool, Option, arith, ◌≡◌, ◌≢◌, ℕ, Text, List}
use offbeat.Db.Tx.{Driver, Reply, DbError, constraint}

pub data Request : Type 0 where
  enqueue : Text → Text → Text → Request
  enqueue_missing : (ℕ → Text) → List Text → Request
  claim recover : Text → Request
  retry : Text → ℕ → Request
  retry_unresolved : (ℕ → Text) → List Text → Request
  fail unresolve set_source : Text → ℕ → Text → Request
  finish : Text → ℕ → Presented → Request
  register : Text → Text → Request
  set_mapping : Text → Text → Text → Request
  remove_mapping : Text → Request
  select : (ℕ → Text) → Text → Text → ℕ → Request

abbrev error_of : {A : Type 0} → Reply A → Option DbError
error_of (ok a) = none
error_of (err e) = some e

abbrev forget : {A : Type 0} → Reply A × Db → Option DbError × Db
forget x = (error_of x.0, x.1)

-- The error that a request replies with, if any, and the database after it.
unfoldable pub serve : Driver → Request → Db → Option DbError × Db
serve d (enqueue now u url) s = forget (enqueue_acquisition d now u url s)
serve d (enqueue_missing clock us) s = forget (enqueue_missing_acquisitions d clock us s)
serve d (claim now) s = forget (claim_acquisition d now s)
serve d (recover now) s = forget (recover_acquisitions d now s)
serve d (retry now i) s = forget (retry_acquisition d now i s)
serve d (retry_unresolved clock us) s = forget (retry_unresolved_acquisitions d clock us s)
serve d (fail now i message) s = forget (fail_acquisition d now i message s)
serve d (unresolve now i message) s = forget (unresolve_acquisition d now i message s)
serve d (set_source now i url) s = forget (set_acquisition_source d now i url s)
serve d (finish now i p) s = forget (complete_presented_acquisition_with_fingerprints d now i p s)
serve d (register u path) s = forget (register_managed_track d u path s)
serve d (set_mapping now u v) s = forget (set_manual_youtube_mapping d now u v s)
serve d (remove_mapping u) s = forget (remove_manual_youtube_mapping d u s)
serve d (select clock u v expected) s = forget (select_youtube d clock u v expected s)

-- The requests on the acquisition work alone, which write no file and no mapping.
abbrev pub is_on_work : Request → Bool
is_on_work (enqueue now u url) = true
is_on_work (enqueue_missing clock us) = true
is_on_work (claim now) = true
is_on_work (recover now) = true
is_on_work (retry now i) = true
is_on_work (retry_unresolved clock us) = true
is_on_work (fail now i message) = true
is_on_work (unresolve now i message) = true
is_on_work (set_source now i url) = true
is_on_work (finish now i p) = false
is_on_work (register u path) = false
is_on_work (set_mapping now u v) = false
is_on_work (remove_mapping u) = false
is_on_work (select clock u v expected) = false

-- The databases that requests lead to, each with a driver of its own.
pub data Reaches (s : Db) : Db → Type 0 where
  start : Reaches s s
  next : (t : Db) → Reaches s t → (d : Driver) (r : Request) → Reaches s (serve d r t).1

abbrev IsAnswered : Request → Option DbError × Db → Type 0
IsAnswered r x = IsWellFormed x.1 × (is_on_work r ≡ true → x.0 ≢ some constraint)

error_of-orderly : {A : Type 0} (r : Reply A) → r ≢ err constraint → error_of r ≢ some constraint
error_of-orderly (ok a) h e = cc
error_of-orderly (err x) h e = h (ground arith)

served : {A : Type 0} (x : Reply A × Db) (r : Request) → IsServed x → IsAnswered r (forget x)
served x r (w, h) = (w, λ q. error_of-orderly x.0 h)

serve-IsAnswered : (d : Driver) (r : Request) (s : Db) → IsWellFormed s → IsAnswered r (serve d r s)
unfolding serve
serve-IsAnswered d (enqueue now u url) s w =
    served (enqueue_acquisition d now u url s) (enqueue now u url)
      (enqueue_acquisition-IsServed d now s w u url)
serve-IsAnswered d (enqueue_missing clock us) s w =
    served (enqueue_missing_acquisitions d clock us s) (enqueue_missing clock us)
      (enqueue_missing_acquisitions-IsServed d clock us s w)
serve-IsAnswered d (claim now) s w =
    served (claim_acquisition d now s) (claim now) (claim_acquisition-IsServed d now s w)
serve-IsAnswered d (recover now) s w =
    served (recover_acquisitions d now s) (recover now) (recover_acquisitions-IsServed d now s w)
serve-IsAnswered d (retry now i) s w =
    served (retry_acquisition d now i s) (retry now i) (retry_acquisition-IsServed d now i s w)
serve-IsAnswered d (retry_unresolved clock us) s w =
    served (retry_unresolved_acquisitions d clock us s) (retry_unresolved clock us)
      (retry_unresolved_acquisitions-IsServed d clock us s w)
serve-IsAnswered d (fail now i message) s w =
    served (fail_acquisition d now i message s) (fail now i message)
      (fail_acquisition-IsServed d now s w i message)
serve-IsAnswered d (unresolve now i message) s w =
    served (unresolve_acquisition d now i message s) (unresolve now i message)
      (unresolve_acquisition-IsServed d now s w i message)
serve-IsAnswered d (set_source now i url) s w =
    served (set_acquisition_source d now i url s) (set_source now i url)
      (set_acquisition_source-IsServed d now s w i url)
serve-IsAnswered d (finish now i p) s w =
    (complete_acquisition-IsWellFormed d s w now i p, λ h. ground arith)
serve-IsAnswered d (register u path) s w =
    (register_managed_track-IsWellFormed d s w u path, λ h. ground arith)
serve-IsAnswered d (set_mapping now u v) s w =
    (set_manual_youtube_mapping-IsWellFormed d s w now u v, λ h. ground arith)
serve-IsAnswered d (remove_mapping u) s w =
    (remove_manual_youtube_mapping-IsWellFormed d s w u, λ h. ground arith)
serve-IsAnswered d (select clock u v expected) s w =
    (select_youtube-IsWellFormed d s w clock u v expected, λ h. ground arith)

reachable-IsWellFormed : (s t : Db) → IsWellFormed s → Reaches s t → IsWellFormed t
reachable-IsWellFormed s t w start = w
reachable-IsWellFormed s t w (next u h d r) =
    (serve-IsAnswered d r u (reachable-IsWellFormed s u w h)).0

-- Whatever requests have come in whatever order, and whichever transactions the driver refused to
-- open or to commit, no request on the acquisition work runs into a CHECK constraint or into the
-- index of active work: the guards before each statement see to it that SQLite accepts the row.
pub reachable-unrefused :
    (s t : Db) (d : Driver) (r : Request)
    → IsWellFormed s
    → Reaches s t
    → is_on_work r ≡ true
    → (serve d r t).0 ≢ some constraint
reachable-unrefused s t d r w h k = (serve-IsAnswered d r t (reachable-IsWellFormed s t w h)).1 k
