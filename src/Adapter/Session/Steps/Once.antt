-- ===== src/Adapter/Session/Steps/Once.antt =====
-- internal/app/adapter.go: a request's response is accepted once, and while the request is pending
-- after that its commit is under way.
use offbeat.Adapter.Session.Steps.Tokens.{
  pending-activate, pending-reserve, pending-add_adapter_connection,
}
use offbeat.Adapter.Session.{
  because, cancelled, is_applying, timed_out, write_failed, liveness_expired, unresponsive,
  disconnected, activate, reserve, release_adapter_reservation, invalidate_snapshot_response_wait,
  stop_adapter_work, expire_adapter_session, complete_pending_snapshot, close,
  remove_adapter_session, add_adapter_connection, cancel, complete, remove_adapter_connection,
  not_connected, SnapshotCompletion, accept_pending, accept_snapshot_response, begin_sync,
  complete_snapshot_response, is_pending, is_owner, is_expected, is_active, is_connection, begin_on,
  CloseReason, Effect, fail_pending, Adapter, PendingSnapshot, SyncError,
  invalidate_adapter_session,
}
use offbeat.Adapter.Session.Steps.{
  holding, stop, perform, committed, respond, request_cancelled, request_timed_out, request_failed,
  sync, session_expired, session_ended, hello_accepted, hello_failed, open_session, disconnect,
  connect, Action, act, do_effect, end_job, owing, perform_picked, run, kept, accepting, remove_job,
  begun, System,
}
use offbeat.Prelude.{
  ==_iff, sym, ◌++◌, text_eq, err, false, true, ◌||◌, Bool-cases, ap, inr, inl, not, true, ◌&&◌,
  ◌⊎◌, Text, ltb, Bool, Option, List, ℕ, ◌+◌, ◌≡◌, ◌≤◌, ◌==◌, [], ◌∷◌, none, some, if◌then◌else◌,
  arith, refl,
}

unfoldable pub count : ℕ → List ℕ → ℕ
count i [] = 0
count i (j ∷ js) = (if j == i then 1 else 0) + count i js

-- 1 for the pending request, by whether its response was accepted.
abbrev pub waiting : ℕ → Option PendingSnapshot → ℕ
waiting i none = 0
waiting i (some p) = if (p.id == i) && not p.applying then 1 else 0

abbrev pub applying : ℕ → Option PendingSnapshot → ℕ
applying i none = 0
applying i (some p) = if (p.id == i) && p.applying then 1 else 0

-- The accepted requests were made and do not wait for a response; an accepted one is pending only
-- while its commit is under way; each commit is for an accepted request.
pub record Once (s : System) (i : ℕ) : Type 0 where
  pub accepted_once :
      count i s.accepted + waiting i s.adapter.pending ≤ (if ltb i s.next then 1 else 0)
  pub under_way : applying i s.adapter.pending ≤ count i s.jobs
  pub jobs_accepted : count i s.jobs ≤ count i s.accepted

-- The pending request stays as it is or goes.
Shrinks : Option PendingSnapshot → Option PendingSnapshot → Type 0
Shrinks p q = (q ≡ none) ⊎ (q ≡ p)

shrink-Once :
    (s : System) (i : ℕ) (a : Adapter) (o : List ℕ) (es : List Effect)
    → Shrinks s.adapter.pending a.pending
    → Once s i
    → Once (record s { adapter = a; holders = o; owed = es }) i
unfolding Shrinks
shrink-Once s i a o es (inl e) h = record {
  accepted_once = omega (arith, h.accepted_once, ap (waiting i) e);
  under_way = omega (arith, h.under_way, ap (applying i) e);
  jobs_accepted = h.jobs_accepted;
}
shrink-Once s i a o es (inr e) h = record {
  accepted_once = omega (arith, h.accepted_once, ap (waiting i) e);
  under_way = omega (arith, h.under_way, ap (applying i) e);
  jobs_accepted = h.jobs_accepted;
}

owing-Once :
    (s : System) (i : ℕ) (r : Adapter × List Effect)
    → Shrinks s.adapter.pending r.0.pending
    → Once s i
    → Once (owing s r) i
owing-Once s i r p h = shrink-Once s i r.0 s.holders (s.owed ++ r.1) p h

Shrinks-if :
    (b : Bool) (x y : Adapter × List Effect) (p : Option PendingSnapshot)
    → Shrinks p x.0.pending
    → Shrinks p y.0.pending
    → Shrinks p (if b then x else y).0.pending
Shrinks-if true x y p h k = h
Shrinks-if false x y p h k = k

Shrinks-if_valid :
    (b : Bool) (x y : Bool × (Adapter × List Effect)) (p : Option PendingSnapshot)
    → Shrinks p x.1.0.pending
    → Shrinks p y.1.0.pending
    → Shrinks p (if b then x else y).1.0.pending
Shrinks-if_valid true x y p h k = h
Shrinks-if_valid false x y p h k = k

Shrinks-fail_pending :
    (b : Bool) (e : SyncError) (a : Adapter) → Shrinks a.pending (fail_pending b e a).0.pending
unfolding Shrinks
Shrinks-fail_pending b e a = Shrinks-if b _ _ a.pending (inl refl) (inr refl)

Shrinks-invalidate_adapter_session :
    (c : ℕ) (expected : Option ℕ) (e : SyncError) (reason : CloseReason) (a : Adapter)
    → Shrinks a.pending (invalidate_adapter_session c expected e reason a).1.0.pending
unfolding invalidate_adapter_session Shrinks
Shrinks-invalidate_adapter_session c expected e reason a =
    Shrinks-if_valid (not (is_connection c a.session) || not (is_expected expected a.pending)) _ _
      a.pending (inr refl)
      (Shrinks-fail_pending (is_owner c a.pending) e (record a { session = none }))

begin_on-Once :
    (s : System) (i : ℕ) (request : Text) (o : Option ℕ)
    → Once s i
    → Once (begun s (begin_on s.next request s.adapter o)) i
begin_on-Once s i request none h = h
begin_on-Once s i request (some c) h = elim (Bool-cases (is_active s.adapter.pending)) [
  | inl e ↦ rw e h
  | inr e ↦ rw e (record {
    accepted_once = ground (arith, h.accepted_once);
    under_way = ground arith;
    jobs_accepted = h.jobs_accepted;
  })
]

begin_sync-Once :
    (s : System) (i : ℕ) (request : Text)
    → Once s i
    → Once (begun s (begin_sync s.next request s.adapter)) i
unfolding begin_sync
begin_sync-Once s i request h = begin_if s.adapter.stopping
  where
    begin_if :
        (b : Bool)
        → Once
            (begun s (
              if b then err not_connected else begin_on s.next request s.adapter s.adapter.session))
            i
    begin_if true = h
    begin_if false = begin_on-Once s i request s.adapter.session h

accept_pending-Once :
    (s : System) (i c : ℕ) (request : Text) (p : Option PendingSnapshot)
    → s.adapter.pending ≡ p
    → Once s i
    → Once (accepting s (accept_pending c request s.adapter p)) i
unfolding count
accept_pending-Once s i c request none e h = h
accept_pending-Once s i c request (some p) e h =
    elim (Bool-cases (not (p.session == c) || not (text_eq p.request_id request) || p.applying)) [
      | inl k ↦ rw k h
      | inr k ↦ rw k (record {
        accepted_once = ground (arith, h.accepted_once, ap (waiting i) e);
        under_way = ground (arith, h.under_way);
        jobs_accepted = omega (arith, h.jobs_accepted);
      })
    ]

accept_snapshot_response-Once :
    (s : System) (i c : ℕ) (request : Text)
    → Once s i
    → Once (accepting s (accept_snapshot_response c request s.adapter)) i
unfolding accept_snapshot_response
accept_snapshot_response-Once s i c request h = accept_if (is_connection c s.adapter.session)
  where
    accept_if :
        (b : Bool)
        → Once
            (accepting s (if b then accept_pending c request s.adapter s.adapter.pending else none))
            i
    accept_if false = h
    accept_if true = accept_pending-Once s i c request s.adapter.pending refl h

-- A job that ends is one fewer.
data Removes (i j : ℕ) (js : List ℕ) : Option (List ℕ) → Type 0 where
  removes_none : Removes i j js none
  removes :
      {ks : List ℕ} → count j js ≡ (if i == j then 1 else 0) + count j ks → Removes i j js (some ks)

remove_job-Removes : (i j : ℕ) (js : List ℕ) → Removes i j js (remove_job i js)
unfolding remove_job count
remove_job-Removes i j [] = removes_none
remove_job-Removes i j (k ∷ js) = elim (Bool-cases (k == i)) [
  | inl e ↦ rw e (removes (ground (arith, e)))
  | inr e ↦ rw e (kept-Removes (remove_job i js) (remove_job-Removes i j js))
]
  where
    kept-Removes : (o : Option (List ℕ)) → Removes i j js o → Removes i j (k ∷ js) (kept k o)
    kept-Removes none h = removes_none
    kept-Removes (some ks) (removes h) = removes (omega (arith, h))

unpending-applying :
    (i : ℕ) (p : Option PendingSnapshot) → is_pending i p ≡ false → applying i p ≡ 0
unpending-applying i none e = refl
unpending-applying i (some p) e = ground (arith, e)

shrink-end :
    (i : ℕ) (c : SnapshotCompletion) (a : Adapter)
    → Shrinks a.pending (complete_snapshot_response i c a).0.pending
unfolding complete_snapshot_response Shrinks
shrink-end i c a = Shrinks-if (is_pending i a.pending) _ _ a.pending (inl refl) (inr refl)

ended-applying :
    (i : ℕ) (c : SnapshotCompletion) (a : Adapter)
    → applying i (complete_snapshot_response i c a).0.pending ≡ 0
unfolding complete_snapshot_response
ended-applying i c a = elim (Bool-cases (is_pending i a.pending)) [
  | inl e ↦ rw e refl
  | inr e ↦ rw e (unpending-applying i a.pending e)
]

waiting-Shrinks :
    (i : ℕ) (p q : Option PendingSnapshot)
    → Shrinks p q
    → (waiting i q ≤ waiting i p) × (applying i q ≤ applying i p)
unfolding Shrinks
waiting-Shrinks i p q (inl e) = rw e (omega arith, omega arith)
waiting-Shrinks i p q (inr e) = rw e (omega arith, omega arith)

end_job-Once :
    (s : System) (i j : ℕ) (c : SnapshotCompletion) (o : Option (List ℕ))
    → Removes i j s.jobs o
    → Once s j
    → Once (end_job s i c o) j
end_job-Once s i j c none r h = h
end_job-Once s i j c (some ks) (removes r) h =
    let less = waiting-Shrinks j _ _ (shrink-end i c s.adapter) in
    record {
      accepted_once = omega (arith, h.accepted_once, less.0);
      under_way = elim (Bool-cases (i == j)) [
        | inl e ↦ ended_under_way ((==_iff i j).0 e)
        | inr e ↦ ground (arith, h.under_way, less.1, r, e)
      ];
      jobs_accepted = ground (arith, h.jobs_accepted, r);
    }
  where
    ended_under_way :
        i ≡ j → applying j (complete_snapshot_response i c s.adapter).0.pending ≤ count j ks
    ended_under_way e = rw (sym e) (omega (arith, ended-applying i c s.adapter))

do_effect-Once : (e : Effect) (s : System) (i : ℕ) → Once s i → Once (do_effect e s) i
unfolding do_effect
do_effect-Once (complete j c) s i h = record {
  accepted_once = h.accepted_once;
  under_way = h.under_way;
  jobs_accepted = h.jobs_accepted;
}
do_effect-Once (cancel j) s i h = h
do_effect-Once (close c reason) s i h = h

perform-Once :
    (s : System) (o : Option (Effect × List Effect)) (i : ℕ)
    → Once s i
    → Once (perform_picked s o) i
perform-Once s none i h = h
perform-Once s (some (e, es)) i h =
    do_effect-Once e (record s { owed = es }) i
      (record {
        accepted_once = h.accepted_once;
        under_way = h.under_way;
        jobs_accepted = h.jobs_accepted;
      })

either-Once : (b : Bool) (s t : System) (i : ℕ) → Once s i → Once t i → Once (if b then s else t) i
either-Once true s t i h k = h
either-Once false s t i h k = k

holding-Once :
    (s : System) (next : List ℕ → System) (o : Option (List ℕ)) (i : ℕ)
    → ((rest : List ℕ) → Once (next rest) i)
    → Once s i
    → Once (holding s next o) i
holding-Once s next none i k h = h
holding-Once s next (some rest) i k h = k rest

act-Once : (a : Action) (s : System) (i : ℕ) → Once s i → Once (act a s) i
unfolding act remove_adapter_connection add_adapter_connection remove_adapter_session
    complete_pending_snapshot expire_adapter_session stop_adapter_work
    invalidate_snapshot_response_wait release_adapter_reservation Shrinks
act-Once (connect c) s i h =
    shrink-Once s i (add_adapter_connection c s.adapter).1 s.holders s.owed
      (inr (pending-add_adapter_connection c s.adapter)) h
act-Once (disconnect c) s i h =
    shrink-Once s i (remove_adapter_connection c s.adapter) s.holders s.owed (inr refl) h
act-Once (open_session c) s i h =
    either-Once (reserve s.adapter).0 _ s i
      (shrink-Once s i (reserve s.adapter).1 (c ∷ s.holders) s.owed
        (inr (pending-reserve s.adapter)) h)
      h
act-Once (hello_failed c) s i h =
    holding-Once s _ (remove_job c s.holders) i
      (λ rest. shrink-Once s i (release_adapter_reservation s.adapter) rest s.owed (inr refl) h) h
act-Once (hello_accepted c) s i h =
    holding-Once s _ (remove_job c s.holders) i
      (λ rest.
        shrink-Once s i (activate c s.adapter).1 rest s.owed (inr (pending-activate c s.adapter)) h)
      h
act-Once (session_ended c) s i h =
    owing-Once s i (remove_adapter_session c s.adapter)
      (Shrinks-fail_pending (is_owner c s.adapter.pending) disconnected (record s.adapter {
        session = if is_connection c s.adapter.session then none else s.adapter.session;
      }))
      h
act-Once (session_expired c) s i h =
    owing-Once s i (expire_adapter_session c s.adapter).1
      (Shrinks-invalidate_adapter_session c none unresponsive liveness_expired s.adapter) h
act-Once (sync request) s i h = begin_sync-Once s i request h
act-Once (request_failed j) s i h =
    owing-Once s i (complete_pending_snapshot j write_failed s.adapter)
      (Shrinks-fail_pending (is_pending j s.adapter.pending) write_failed s.adapter) h
act-Once (request_timed_out c j) s i h =
    owing-Once s i (invalidate_snapshot_response_wait c j timed_out s.adapter).1
      (Shrinks-if_valid
        (not (is_connection c s.adapter.session)
          || not (is_pending j s.adapter.pending)
          || is_applying s.adapter.pending)
        _ _ s.adapter.pending (inr refl) (inl refl))
      h
act-Once (request_cancelled c j) s i h =
    owing-Once s i (invalidate_adapter_session c (some j) cancelled (because cancelled) s.adapter).1
      (Shrinks-invalidate_adapter_session c (some j) cancelled (because cancelled) s.adapter) h
act-Once (respond c request) s i h = accept_snapshot_response-Once s i c request h
act-Once (committed j message outcome) s i h =
    end_job-Once s j i _ _ (remove_job-Removes j i s.jobs) h
act-Once stop s i h = owing-Once s i (stop_adapter_work s.adapter) (inl refl) h
act-Once (perform n) s i h = perform-Once s _ i h

-- After any sequence of actions, for each request: a response was accepted at most once, and never for
-- a number not yet given; a request that waits for one had none; an accepted request is pending only
-- while its commit is under way, and each commit is of an accepted request.
pub run-Once : (as' : List Action) (i : ℕ) → Once (run as') i
unfolding run count
run-Once [] i = record {
  accepted_once = ground arith;
  under_way = omega arith;
  jobs_accepted = omega arith;
}
run-Once (a ∷ as') i = act-Once a (run as') i (run-Once as' i)
