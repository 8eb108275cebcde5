-- ===== src/Adapter/Session/Steps/Fields.antt =====
-- internal/app/adapter.go: what adapterMu protects. The pending request belongs to the session, a
-- reservation excludes a session, and a daemon that stops has no pending request.
use offbeat.Adapter.Session.{
  accept_pending, accept_snapshot_response, Effect, not_connected, is_applying, is_expected,
  begin_on, is_pending, CloseReason, disconnected, fail_pending, is_owner, liveness_expired,
  PendingSnapshot, SnapshotCompletion, SyncError, is_active, is_connection, unresponsive, Adapter,
  activate, add_adapter_connection, begin_sync, complete_pending_snapshot,
  complete_snapshot_response, expire_adapter_session, invalidate_adapter_session,
  invalidate_snapshot_response_wait, release_adapter_reservation, remove_adapter_connection,
  remove_adapter_session, stop_adapter_work,
}
use offbeat.Prelude.{
  ◌∙◌, on_err, on_ok, sym, text_eq, Ensures, err, inr, inl, not, ◌||◌, Bool-cases, Text, false,
  true, Bool, Option, List, ℕ, ◌≡◌, ◌==◌, none, some, if◌then◌else◌, arith, refl,
}

abbrev pub OwnedBy : Option PendingSnapshot → Option ℕ → Type 0
OwnedBy none o = Unit
OwnedBy (some p) o = o ≡ some p.session

pub record Fields (a : Adapter) : Type 0 where
  pub owner : OwnedBy a.pending a.session
  pub free : a.reserved ≡ true → a.session ≡ none
  pub stopped : a.stopping ≡ true → a.pending ≡ none

unowned : (p : Option PendingSnapshot) (o : Option ℕ) → p ≡ none → OwnedBy p o
unowned none o e = tt
unowned (some p) o e = cc

-- A session that ends takes its request with it.
left-OwnedBy :
    (c : ℕ) (p : Option PendingSnapshot) (o : Option ℕ)
    → OwnedBy p o
    → is_owner c p ≡ false
    → OwnedBy p (if is_connection c o then none else o)
left-OwnedBy c none o h e = tt
left-OwnedBy c (some p) o h e = rw h (rw e refl)

gone-OwnedBy :
    (c : ℕ) (p : Option PendingSnapshot) (o : Option ℕ)
    → OwnedBy p o
    → is_connection c o ≡ true
    → is_owner c p ≡ false
    → OwnedBy p none
gone-OwnedBy c none o h i e = tt
gone-OwnedBy c (some p) none h i e = cc
gone-OwnedBy c (some p) (some d) h i e = cc

left-none : (b : Bool) (o : Option ℕ) → o ≡ none → (if b then none else o) ≡ none
left-none true o e = refl
left-none false o e = e

pub fail_pending-Fields :
    (b : Bool) (e : SyncError) (a : Adapter)
    → (a.reserved ≡ true → a.session ≡ none)
    → (b ≡ false → Fields a)
    → Fields (fail_pending b e a).0
fail_pending-Fields false e a f h = h refl
fail_pending-Fields true e a f h = record { owner = tt; free = f; stopped = λ k. refl }

pub complete_pending_snapshot-Fields :
    (i : ℕ) (e : SyncError) (a : Adapter) → Fields a → Fields (complete_pending_snapshot i e a).0
unfolding complete_pending_snapshot
complete_pending_snapshot-Fields i e a h = fail_pending-Fields _ e a h.free (λ k. h)

pub remove_adapter_session-Fields :
    (c : ℕ) (a : Adapter) → Fields a → Fields (remove_adapter_session c a).0
unfolding remove_adapter_session
remove_adapter_session-Fields c a h =
    let free : a.reserved ≡ true → (if is_connection c a.session then none else a.session) ≡ none =
      λ k. left-none (is_connection c a.session) a.session (h.free k) in
    fail_pending-Fields _ disconnected _ free (λ e. record {
      owner = left-OwnedBy c a.pending a.session h.owner e;
      free = free;
      stopped = h.stopped;
    })

pub stop_adapter_work-Fields : (a : Adapter) → Fields a → Fields (stop_adapter_work a).0
unfolding stop_adapter_work
stop_adapter_work-Fields a h = record { owner = tt; free = h.free; stopped = λ k. refl }

pub either_left-Fields :
    (b : Bool) (x y : Adapter × List Effect)
    → Fields x.0
    → Fields y.0
    → Fields (if b then x else y).0
either_left-Fields true x y h k = h
either_left-Fields false x y h k = k

pub either-Fields :
    (b : Bool) (x y : Bool × Adapter) → Fields x.1 → Fields y.1 → Fields (if b then x else y).1
either-Fields true x y h k = h
either-Fields false x y h k = k

pub complete_snapshot_response-Fields :
    (i : ℕ) (c : SnapshotCompletion) (a : Adapter)
    → Fields a
    → Fields (complete_snapshot_response i c a).0
unfolding complete_snapshot_response
complete_snapshot_response-Fields i c a h =
    either_left-Fields (is_pending i a.pending) _ _
      (record { owner = tt; free = h.free; stopped = λ k. refl }) h

pub invalidate_adapter_session-Fields :
    (c : ℕ) (expected : Option ℕ) (e : SyncError) (reason : CloseReason) (a : Adapter)
    → Fields a
    → Fields (invalidate_adapter_session c expected e reason a).1.0
unfolding invalidate_adapter_session
invalidate_adapter_session-Fields c expected e reason a h =
    elim (Bool-cases (not (is_connection c a.session) || not (is_expected expected a.pending))) [
      | inl k ↦ rw k h
      | inr k ↦ rw k (
          fail_pending-Fields _ e _ (λ j. refl)
            (λ n. record {
              owner = gone-OwnedBy c a.pending a.session h.owner (ground (arith, k)) n;
              free = λ j. refl;
              stopped = h.stopped;
            }))
    ]

pub invalidate_snapshot_response_wait-Fields :
    (c j : ℕ) (e : SyncError) (a : Adapter)
    → Fields a
    → Fields (invalidate_snapshot_response_wait c j e a).1.0
unfolding invalidate_snapshot_response_wait
invalidate_snapshot_response_wait-Fields c j e a h =
    elim (Bool-cases
      (not (is_connection c a.session) || not (is_pending j a.pending) || is_applying a.pending)) [
        | inl k ↦ rw k h
        | inr k ↦ rw k (record { owner = tt; free = λ j. refl; stopped = λ j. refl })
      ]

pub expire_adapter_session-Fields :
    (c : ℕ) (a : Adapter) → Fields a → Fields (expire_adapter_session c a).1.0
unfolding expire_adapter_session
expire_adapter_session-Fields c a h =
    invalidate_adapter_session-Fields c none unresponsive liveness_expired a h

pub add_adapter_connection-Fields :
    (c : ℕ) (a : Adapter) → Fields a → Fields (add_adapter_connection c a).1
unfolding add_adapter_connection
add_adapter_connection-Fields c a h =
    either-Fields a.stopping _ _ h (record { owner = h.owner; free = h.free; stopped = h.stopped })

pub remove_adapter_connection-Fields :
    (c : ℕ) (a : Adapter) → Fields a → Fields (remove_adapter_connection c a)
unfolding remove_adapter_connection
remove_adapter_connection-Fields c a h = record {
  owner = h.owner;
  free = h.free;
  stopped = h.stopped;
}

pub inactive : {A : Type 0} (o : Option A) → is_active o ≡ false → o ≡ none
inactive none e = refl
inactive (some x) e = cc

pub release-Fields : (a : Adapter) → Fields a → Fields (release_adapter_reservation a)
unfolding release_adapter_reservation
release-Fields a h = record { owner = h.owner; free = λ k. cc; stopped = h.stopped }

not_pending : (p : Option PendingSnapshot) (o : Option ℕ) → OwnedBy p o → o ≡ none → p ≡ none
not_pending none o h e = refl
not_pending (some p) o h e = cc

pub activate-Fields : (c : ℕ) (a : Adapter) → a.reserved ≡ true → Fields a → Fields (activate c a).1
unfolding activate release_adapter_reservation
activate-Fields c a r h = either-Fields a.stopping _ _ (release-Fields a h) (record {
  owner = unowned a.pending (some c) (not_pending a.pending a.session h.owner (h.free r));
  free = λ k. cc;
  stopped = h.stopped;
})

-- The section kept the reservation.
abbrev pub Keeps : Adapter → Adapter → Type 0
Keeps a b = Fields b × (a.reserved ≡ b.reserved)

pub begin_on-Keeps :
    (i : ℕ) (request : Text) (a : Adapter) (o : Option ℕ)
    → a.session ≡ o
    → a.stopping ≡ false
    → Fields a
    → Ensures (Keeps a) (begin_on i request a o)
begin_on-Keeps i request a none e n h = on_err _
begin_on-Keeps i request a (some c) e n h = elim (Bool-cases (is_active a.pending)) [
  | inl p ↦ rw p (on_err _)
  | inr p ↦ rw p (on_ok _ (record { owner = e; free = h.free; stopped = λ k. cc }, refl))
]

pub begin_sync-Keeps :
    (i : ℕ) (request : Text) (a : Adapter) → Fields a → Ensures (Keeps a) (begin_sync i request a)
unfolding begin_sync
begin_sync-Keeps i request a h = begin_if-Keeps a.stopping refl
  where
    begin_if-Keeps :
        (b : Bool)
        → a.stopping ≡ b
        → Ensures (Keeps a) (if b then err not_connected else begin_on i request a a.session)
    begin_if-Keeps true n = on_err _
    begin_if-Keeps false n = begin_on-Keeps i request a a.session refl n h

not_both : {p q : PendingSnapshot} → some p ≡ none → some q ≡ none
not_both e = cc

pub data Accepted (a : Adapter) : Option (ℕ × Adapter) → Type 0 where
  accepted_none : Accepted a none
  accepted : {i : ℕ} {b : Adapter} → Keeps a b → Accepted a (some (i, b))

pub accept_pending-Accepted :
    (c : ℕ) (request : Text) (a : Adapter) (p : Option PendingSnapshot)
    → a.pending ≡ p
    → OwnedBy p a.session
    → Fields a
    → Accepted a (accept_pending c request a p)
accept_pending-Accepted c request a none e o h = accepted_none
accept_pending-Accepted c request a (some p) e o h =
    elim (Bool-cases (not (p.session == c) || not (text_eq p.request_id request) || p.applying)) [
      | inl k ↦ rw k accepted_none
      | inr k ↦ rw k (
          accepted (
            record { owner = o; free = h.free; stopped = λ n. not_both (sym e ∙ h.stopped n) },
            refl,
          ))
    ]

pub accept_snapshot_response-Accepted :
    (c : ℕ) (request : Text) (a : Adapter)
    → Fields a
    → Accepted a (accept_snapshot_response c request a)
unfolding accept_snapshot_response
accept_snapshot_response-Accepted c request a h = accept_if (is_connection c a.session)
  where
    accept_if : (b : Bool) → Accepted a (if b then accept_pending c request a a.pending else none)
    accept_if false = accepted_none
    accept_if true = accept_pending-Accepted c request a a.pending refl h.owner h

-- The sections that end a request leave the reservation as it is.
pub reserved-if :
    (b : Bool) (x y : Adapter × List Effect) (r : Bool)
    → x.0.reserved ≡ r
    → y.0.reserved ≡ r
    → (if b then x else y).0.reserved ≡ r
reserved-if true x y r h k = h
reserved-if false x y r h k = k

pub reserved-if_valid :
    (b : Bool) (x y : Bool × (Adapter × List Effect)) (r : Bool)
    → x.1.0.reserved ≡ r
    → y.1.0.reserved ≡ r
    → (if b then x else y).1.0.reserved ≡ r
reserved-if_valid true x y r h k = h
reserved-if_valid false x y r h k = k

pub reserved-fail_pending :
    (b : Bool) (e : SyncError) (a : Adapter) → (fail_pending b e a).0.reserved ≡ a.reserved
reserved-fail_pending b e a = reserved-if b _ _ a.reserved refl refl

pub reserved-invalidate_adapter_session :
    (c : ℕ) (expected : Option ℕ) (e : SyncError) (reason : CloseReason) (a : Adapter)
    → (invalidate_adapter_session c expected e reason a).1.0.reserved ≡ a.reserved
unfolding invalidate_adapter_session
reserved-invalidate_adapter_session c expected e reason a =
    reserved-if_valid (not (is_connection c a.session) || not (is_expected expected a.pending)) _ _
      a.reserved refl (reserved-fail_pending (is_owner c a.pending) e (record a { session = none }))

pub reserved-add_adapter_connection :
    (c : ℕ) (a : Adapter) → (add_adapter_connection c a).1.reserved ≡ a.reserved
unfolding add_adapter_connection
reserved-add_adapter_connection c a = reserved-added a.stopping _ _ a.reserved refl refl
  where
    reserved-added :
        (b : Bool) (x y : Bool × Adapter) (r : Bool)
        → x.1.reserved ≡ r
        → y.1.reserved ≡ r
        → (if b then x else y).1.reserved ≡ r
    reserved-added true x y r h k = h
    reserved-added false x y r h k = k
