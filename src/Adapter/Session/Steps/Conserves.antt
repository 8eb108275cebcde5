-- ===== src/Adapter/Session/Steps/Conserves.antt =====
-- internal/app/adapter.go: each section under adapterMu passes the pending request's completion on.
use offbeat.Adapter.Session.{
  liveness_expired, unresponsive, expire_adapter_session, failed, is_owner, is_applying,
  is_expected, is_connection, going_away, disconnected, shutting_down, complete_pending_snapshot,
  complete_snapshot_response, invalidate_adapter_session, invalidate_snapshot_response_wait,
  remove_adapter_session, stop_adapter_work, failure, cancel, close, fail_pending, is_pending,
  PendingSnapshot, SyncError, complete, Adapter, CloseReason, Effect, SnapshotCompletion,
}
use offbeat.Prelude.{
  ◌||◌, inr, inl, not, Bool-cases, true, false, map, Bool, Option, List, ℕ, ◌+◌, ◌≡◌, ◌==◌, [], ◌∷◌,
  ◌++◌, none, some, if◌then◌else◌, arith, refl,
}

unfoldable pub pending_count : ℕ → Option PendingSnapshot → ℕ
pending_count i p = if is_pending i p then 1 else 0

abbrev pub weight : ℕ → Effect → ℕ
weight i (complete j c) = if j == i then 1 else 0
weight i (cancel j) = 0
weight i (close c reason) = 0

unfoldable pub owed_count : ℕ → List Effect → ℕ
owed_count i [] = 0
owed_count i (e ∷ es) = weight i e + owed_count i es

unfoldable pub sent_count : ℕ → List (ℕ × SnapshotCompletion) → ℕ
sent_count i [] = 0
sent_count i ((j, c) ∷ xs) = (if j == i then 1 else 0) + sent_count i xs

pub owed_count-append :
    (i : ℕ) (es fs : List Effect) → owed_count i (es ++ fs) ≡ owed_count i es + owed_count i fs
unfolding owed_count
owed_count-append i [] fs = omega arith
owed_count-append i (e ∷ es) fs = omega (arith, owed_count-append i es fs)

pub owed_count-closes :
    (i : ℕ) (reason : CloseReason) (cs : List ℕ) → owed_count i (map (λ c. close c reason) cs) ≡ 0
unfolding owed_count
owed_count-closes i reason [] = refl
owed_count-closes i reason (c ∷ cs) = omega (arith, owed_count-closes i reason cs)

-- A section passes its pending request's completion on, at most.
unfoldable pub Conserves : Adapter → Adapter × List Effect → Type 0
Conserves a r = (i : ℕ) → pending_count i r.0.pending + owed_count i r.1 ≡ pending_count i a.pending

failure-count :
    (i : ℕ) (e : SyncError) (p : Option PendingSnapshot)
    → pending_count i none + owed_count i (failure e p) ≡ pending_count i p
unfolding pending_count owed_count
failure-count i e none = refl
failure-count i e (some p) = omega arith

pub fail_pending-Conserves :
    (b : Bool) (e : SyncError) (a : Adapter) → Conserves a (fail_pending b e a)
unfolding Conserves owed_count
fail_pending-Conserves false e a i = omega arith
fail_pending-Conserves true e a i = failure-count i e a.pending

pub complete_pending_snapshot-Conserves :
    (j : ℕ) (e : SyncError) (a : Adapter) → Conserves a (complete_pending_snapshot j e a)
unfolding complete_pending_snapshot
complete_pending_snapshot-Conserves j e a = fail_pending-Conserves _ e a

pub remove_adapter_session-Conserves :
    (c : ℕ) (a : Adapter) → Conserves a (remove_adapter_session c a)
unfolding remove_adapter_session Conserves
remove_adapter_session-Conserves c a = fail_pending-Conserves _ disconnected _

pub stop_adapter_work-Conserves : (a : Adapter) → Conserves a (stop_adapter_work a)
unfolding stop_adapter_work Conserves
stop_adapter_work-Conserves a i = omega (
  arith,
  failure-count i shutting_down a.pending,
  owed_count-append i (failure shutting_down a.pending)
      (map (λ c. close c going_away) a.connections),
  owed_count-closes i going_away a.connections,
)

completed-count :
    (i j : ℕ) (c : SnapshotCompletion) (p : Option PendingSnapshot)
    → is_pending j p ≡ true
    → pending_count i none + owed_count i (complete j c ∷ []) ≡ pending_count i p
unfolding pending_count owed_count
completed-count i j c none h = cc
completed-count i j c (some p) h = ground (arith, h)

pub complete_snapshot_response-Conserves :
    (j : ℕ) (c : SnapshotCompletion) (a : Adapter) → Conserves a (complete_snapshot_response j c a)
unfolding complete_snapshot_response Conserves owed_count
complete_snapshot_response-Conserves j c a i = elim (Bool-cases (is_pending j a.pending)) [
  | inl e ↦ rw e (completed-count i j c a.pending e)
  | inr e ↦ rw e (omega arith)
]

pub invalidate_adapter_session-Conserves :
    (c : ℕ) (expected : Option ℕ) (e : SyncError) (reason : CloseReason) (a : Adapter)
    → Conserves a (invalidate_adapter_session c expected e reason a).1
unfolding invalidate_adapter_session Conserves owed_count
invalidate_adapter_session-Conserves c expected e reason a i =
    elim (Bool-cases (not (is_connection c a.session) || not (is_expected expected a.pending))) [
      | inl h ↦ rw h (omega arith)
      | inr h ↦ rw h (
          omega (
            arith,
            owed_count-append i
                (fail_pending (is_owner c a.pending) e (record a { session = none })).1
                (close c reason ∷ []),
            fail_pending-Conserves (is_owner c a.pending) e (record a { session = none }) i,
          ))
    ]

pub expire_adapter_session-Conserves :
    (c : ℕ) (a : Adapter) → Conserves a (expire_adapter_session c a).1
unfolding expire_adapter_session
expire_adapter_session-Conserves c a =
    invalidate_adapter_session-Conserves c none unresponsive liveness_expired a

pub invalidate_snapshot_response_wait-Conserves :
    (c j : ℕ) (e : SyncError) (a : Adapter)
    → Conserves a (invalidate_snapshot_response_wait c j e a).1
unfolding invalidate_snapshot_response_wait Conserves owed_count
invalidate_snapshot_response_wait-Conserves c j e a i =
    elim (Bool-cases
      (not (is_connection c a.session) || not (is_pending j a.pending) || is_applying a.pending)) [
        | inl h ↦ rw h (omega arith)
        | inr h ↦ rw h (omega (arith, completed-count i j (failed e) a.pending (ground (arith, h))))
      ]
