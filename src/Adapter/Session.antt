-- ===== src/Adapter/Session.antt =====
-- internal/app/adapter.go: the adapter's fields of Daemon, and one function per section under
-- adapterMu. A section returns the new fields and what its function does after the unlock.
-- A connection is its number, and so is the one session that it can open; a request is its number.
pub mod Steps
use offbeat.Prelude.{
  ◌++◌, Text, Bool, Option, List, ℕ, true, false, none, some, not, [], ◌∷◌, ◌==◌, ◌&&◌, ◌||◌,
  if◌then◌else◌, text_eq, map, Result, ok, err,
}
use offbeat.Desired.Candidate.{SpotifySyncSummary}

-- pendingSnapshot; its channel and its context are the system's.
pub record PendingSnapshot : Type 0 where
  pub id : ℕ
  pub session : ℕ
  pub request_id : Text
  pub applying : Bool

pub record SpotifySyncResult : Type 0 where
  pub changed : Bool
  pub state_revision : ℕ
  pub summary : SpotifySyncSummary

-- The errors of a completion, in place of their messages.
pub data SyncError : Type 0 where
  write_failed timed_out cancelled disconnected unresponsive shutting_down : SyncError
  rejected : Text → SyncError
  not_committed : SyncError

pub data SnapshotCompletion : Type 0 where
  synced : SpotifySyncResult → SnapshotCompletion
  failed : SyncError → SnapshotCompletion

pub data CloseReason : Type 0 where
  because : SyncError → CloseReason
  liveness_expired going_away : CloseReason

-- What is done after the unlock: cancel the request's context, send on its channel, close a
-- connection.
pub data Effect : Type 0 where
  cancel : ℕ → Effect
  complete : ℕ → SnapshotCompletion → Effect
  close : ℕ → CloseReason → Effect

pub record Adapter : Type 0 where
  pub stopping : Bool
  pub reserved : Bool
  pub session : Option ℕ
  pub pending : Option PendingSnapshot
  pub connections : List ℕ

abbrev pub is_connection : ℕ → Option ℕ → Bool
is_connection c none = false
is_connection c (some d) = d == c

-- d.pendingSnapshot == pending
abbrev pub is_pending : ℕ → Option PendingSnapshot → Bool
is_pending i none = false
is_pending i (some p) = p.id == i

abbrev pub is_owner : ℕ → Option PendingSnapshot → Bool
is_owner s none = false
is_owner s (some p) = p.session == s

abbrev pub is_applying : Option PendingSnapshot → Bool
is_applying none = false
is_applying (some p) = p.applying

abbrev pub is_active : {A : Type 0} → Option A → Bool
is_active none = false
is_active (some s) = true

abbrev pub is_member : ℕ → List ℕ → Bool
is_member c [] = false
is_member c (d ∷ ds) = (d == c) || is_member c ds

abbrev without : ℕ → List ℕ → List ℕ
without c [] = []
without c (d ∷ ds) = if d == c then without c ds else d ∷ without c ds

unfoldable pub add_adapter_connection : ℕ → Adapter → Bool × Adapter
add_adapter_connection c a = if a.stopping then (false, a) else (
  true,
  record a { connections = if is_member c a.connections then a.connections else c ∷ a.connections },
)

unfoldable pub remove_adapter_connection : ℕ → Adapter → Adapter
remove_adapter_connection c a = record a { connections = without c a.connections }

-- serveAdapter, its first section: false on a conflict or when the daemon stops.
unfoldable pub reserve : Adapter → Bool × Adapter
reserve a =
    if a.stopping || is_active a.session || a.reserved
    then (false, a)
    else (true, record a { reserved = true })

unfoldable pub release_adapter_reservation : Adapter → Adapter
release_adapter_reservation a = record a { reserved = false }

-- serveAdapter, its second section: the reservation becomes the session.
unfoldable pub activate : ℕ → Adapter → Bool × Adapter
activate s a =
    if a.stopping
    then (false, record a { reserved = false })
    else (true, record a { reserved = false; session = some s })

unfoldable pub adapter_connected : Adapter → Bool
adapter_connected a = not a.stopping && is_active a.session

pub data SyncRefusal : Type 0 where
  not_connected in_progress : SyncRefusal

abbrev pub begin_on : ℕ → Text → Adapter → Option ℕ → Result SyncRefusal Adapter
begin_on i request a none = err not_connected
begin_on i request a (some s) =
    if is_active a.pending
    then err in_progress
    else ok (record a {
      pending = some (record { id = i; session = s; request_id = request; applying = false });
    })

-- handleSpotifySync, its section.
unfoldable pub begin_sync : ℕ → Text → Adapter → Result SyncRefusal Adapter
begin_sync i request a = if a.stopping then err not_connected else begin_on i request a a.session

-- The pending request is taken and fails, if the test holds.
abbrev pub failure : SyncError → Option PendingSnapshot → List Effect
failure e none = []
failure e (some p) = cancel p.id ∷ complete p.id (failed e) ∷ []

abbrev pub fail_pending : Bool → SyncError → Adapter → Adapter × List Effect
fail_pending b e a = if b then (record a { pending = none }, failure e a.pending) else (a, [])

unfoldable pub complete_pending_snapshot : ℕ → SyncError → Adapter → Adapter × List Effect
complete_pending_snapshot i e a = fail_pending (is_pending i a.pending) e a

unfoldable pub remove_adapter_session : ℕ → Adapter → Adapter × List Effect
remove_adapter_session s a =
    fail_pending (is_owner s a.pending) disconnected
      (record a { session = if is_connection s a.session then none else a.session })

unfoldable pub stop_adapter_work : Adapter → Adapter × List Effect
stop_adapter_work a =
    let stopped = fail_pending true shutting_down (record a { stopping = true }) in
    (stopped.0, stopped.1 ++ map (λ c. close c going_away) a.connections)

unfoldable pub complete_snapshot_response : ℕ → SnapshotCompletion → Adapter → Adapter × List Effect
complete_snapshot_response i c a =
    if is_pending i a.pending then (record a { pending = none }, complete i c ∷ []) else (a, [])

-- The first section of acceptSnapshotResponse: the request that the response is for, if it is still
-- waiting for one.
abbrev pub accept_pending : ℕ → Text → Adapter → Option PendingSnapshot → Option (ℕ × Adapter)
accept_pending s request a none = none
accept_pending s request a (some p) =
    if not (p.session == s) || not (text_eq p.request_id request) || p.applying
    then none
    else some (p.id, record a { pending = some (record p { applying = true }) })

unfoldable pub accept_snapshot_response : ℕ → Text → Adapter → Option (ℕ × Adapter)
accept_snapshot_response s request a =
    if is_connection s a.session then accept_pending s request a a.pending else none

unfoldable pub invalidate_snapshot_response_wait :
    ℕ → ℕ → SyncError → Adapter → Bool × (Adapter × List Effect)
invalidate_snapshot_response_wait s i e a =
    if not (is_connection s a.session) || not (is_pending i a.pending) || is_applying a.pending
    then (false, (a, []))
    else (
      true,
      (
        record a { session = none; pending = none },
        cancel i ∷ complete i (failed e) ∷ close s (because e) ∷ [],
      ),
    )

abbrev pub is_expected : Option ℕ → Option PendingSnapshot → Bool
is_expected none p = true
is_expected (some i) p = is_pending i p

unfoldable pub invalidate_adapter_session :
    ℕ → Option ℕ → SyncError → CloseReason → Adapter → Bool × (Adapter × List Effect)
invalidate_adapter_session s expected e reason a =
    let done = fail_pending (is_owner s a.pending) e (record a { session = none }) in
    if not (is_connection s a.session) || not (is_expected expected a.pending)
    then (false, (a, []))
    else (true, (done.0, done.1 ++ (close s reason ∷ [])))

unfoldable pub expire_adapter_session : ℕ → Adapter → Bool × (Adapter × List Effect)
unfolding invalidate_adapter_session
expire_adapter_session s a = invalidate_adapter_session s none unresponsive liveness_expired a

-- What ApplyDesiredSpotifyState returns.
pub data Applied : Type 0 where
  applied : SpotifySyncResult → Applied
  not_applied : Applied

-- The completions of acceptSnapshotResponse: the adapter's error, or the outcome of the commit.
unfoldable pub response_completion : Option Text → Applied → SnapshotCompletion
response_completion (some message) outcome = failed (rejected message)
response_completion none not_applied = failed not_committed
response_completion none (applied r) = synced r

pub data SyncReply : Type 0 where
  result : SpotifySyncResult → SyncReply
  internal_error : SyncReply
  failed_precondition : SyncError → SyncReply

unfoldable pub spotify_sync_completion : SnapshotCompletion → SyncReply
spotify_sync_completion (synced r) = result r
spotify_sync_completion (failed not_committed) = internal_error
spotify_sync_completion (failed e) = failed_precondition e
