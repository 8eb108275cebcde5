-- ===== src/Adapter/Session/Steps/Safe.antt =====
-- internal/app/adapter.go: every sequence of actions keeps what adapterMu protects, and there is one
-- reservation at a time.
use offbeat.Adapter.Session.Steps.{
  kept, remove_job, stop, perform, committed, respond, request_cancelled, request_timed_out,
  request_failed, sync, session_expired, session_ended, hello_accepted, hello_failed, disconnect,
  connect, Action, begun, accepting, holding, end_job, open_session, owing, perform_picked, System,
  act, do_effect, run,
}
use offbeat.Adapter.Session.{
  activate, release_adapter_reservation, invalidate_adapter_session, because, cancelled,
  is_applying, timed_out, write_failed, invalidate_snapshot_response_wait, stop_adapter_work,
  complete_pending_snapshot, is_pending, close, expire_adapter_session, is_connection, cancel,
  remove_adapter_session, SyncRefusal, add_adapter_connection, complete, Effect, Result,
  SnapshotCompletion, is_active, remove_adapter_connection, reserve, Adapter,
  complete_snapshot_response,
}
use offbeat.Prelude.{
  false, Bool, ap, length, suc, not, arith, on_ok, ok, err, inr, inl, sym, ◌==◌, ◌||◌, Bool-cases,
  Ensures, ◌∙◌, true, Option, List, ℕ, ◌≡◌, [], ◌∷◌, none, some, if◌then◌else◌, refl,
}
use offbeat.Adapter.Session.Steps.Fields.{
  stop_adapter_work-Fields, accept_snapshot_response-Accepted, invalidate_adapter_session-Fields,
  reserved-if_valid, invalidate_snapshot_response_wait-Fields, complete_pending_snapshot-Fields,
  begin_sync-Keeps, reserved-invalidate_adapter_session, expire_adapter_session-Fields,
  reserved-fail_pending, remove_adapter_session-Fields, activate-Fields, release-Fields,
  remove_adapter_connection-Fields, reserved-add_adapter_connection, add_adapter_connection-Fields,
  inactive, Keeps, accepted, reserved-if, complete_snapshot_response-Fields, Accepted, Fields,
}

abbrev one_if : Bool → ℕ
one_if b = if b then 1 else 0

-- One goroutine stands between the sections of serveAdapter while there is a reservation, and none
-- else.
abbrev pub Held : Adapter → List ℕ → Type 0
Held a holders = length holders ≡ one_if a.reserved

unfoldable pub Safe : System → Type 0
Safe s = Fields s.adapter × Held s.adapter s.holders

reserve-Safe : (c : ℕ) (s : System) → Safe s → Safe (act (open_session c) s)
unfolding act reserve Safe
reserve-Safe c s h =
    elim (Bool-cases (s.adapter.stopping || is_active s.adapter.session || s.adapter.reserved)) [
      | inl e ↦ rw e h
      | inr e ↦ rw e (
        record {
          owner = h.0.owner;
          free = λ k. inactive s.adapter.session (ground (arith, e));
          stopped = h.0.stopped;
        },
        ground (arith, e, h.1),
      )
    ]

data OneFewer (js : List ℕ) : Option (List ℕ) → Type 0 where
  fewer_none : OneFewer js none
  fewer : {ks : List ℕ} → suc (length ks) ≡ length js → OneFewer js (some ks)

remove_job-OneFewer : (i : ℕ) (js : List ℕ) → OneFewer js (remove_job i js)
unfolding remove_job
remove_job-OneFewer i [] = fewer_none
remove_job-OneFewer i (j ∷ js) = elim (Bool-cases (j == i)) [
  | inl e ↦ rw e (fewer refl)
  | inr e ↦ rw e (kept-OneFewer (remove_job i js) (remove_job-OneFewer i js))
]
  where
    kept-OneFewer : (o : Option (List ℕ)) → OneFewer js o → OneFewer (j ∷ js) (kept j o)
    kept-OneFewer none h = fewer_none
    kept-OneFewer (some ks) (fewer h) = fewer (ap suc h)

-- Who is removed was the only one, so there was a reservation.
only_holder : (b : Bool) (n : ℕ) → suc n ≡ one_if b → (b ≡ true) × (n ≡ 0)
only_holder true n h = (refl, omega (arith, h))
only_holder false n h = ground (arith, h)

holding-Safe :
    (s : System) (next : List ℕ → System) (o : Option (List ℕ))
    → OneFewer s.holders o
    → Safe s
    → ((rest : List ℕ) → s.adapter.reserved ≡ true → length rest ≡ 0 → Safe (next rest))
    → Safe (holding s next o)
unfolding Safe
holding-Safe s next none f h k = h
holding-Safe s next (some rest) (fewer f) h k =
    let (r, n) = only_holder s.adapter.reserved (length rest) (f ∙ h.1) in k rest r n

reserved-activate : (c : ℕ) (a : Adapter) → (activate c a).1.reserved ≡ false
unfolding activate
reserved-activate c a = activated a.stopping _ _ refl refl
  where
    activated :
        (b : Bool) (x y : Bool × Adapter)
        → x.1.reserved ≡ false
        → y.1.reserved ≡ false
        → (if b then x else y).1.reserved ≡ false
    activated true x y h k = h
    activated false x y h k = k

begun-Safe :
    (s : System) (r : Result SyncRefusal Adapter)
    → Ensures (Keeps s.adapter) r
    → Safe s
    → Safe (begun s r)
unfolding Safe
begun-Safe s (err e) k h = h
begun-Safe s (ok a) (on_ok _ k) h = (k.0, h.1 ∙ ap one_if k.1)

accepting-Safe :
    (s : System) (r : Option (ℕ × Adapter)) → Accepted s.adapter r → Safe s → Safe (accepting s r)
unfolding Safe
accepting-Safe s none k h = h
accepting-Safe s (some (i, a)) (accepted k) h = (k.0, h.1 ∙ ap one_if k.1)

owing-Safe :
    (s : System) (r : Adapter × List Effect)
    → Fields r.0
    → r.0.reserved ≡ s.adapter.reserved
    → Safe s
    → Safe (owing s r)
unfolding Safe
owing-Safe s r f e h = (f, h.1 ∙ ap one_if (sym e))

end_job-Safe :
    (s : System) (i : ℕ) (c : SnapshotCompletion) (o : Option (List ℕ))
    → Safe s
    → Safe (end_job s i c o)
unfolding Safe complete_snapshot_response
end_job-Safe s i c none h = h
end_job-Safe s i c (some js) h =
    owing-Safe (record s { jobs = js }) (complete_snapshot_response i c s.adapter)
      (complete_snapshot_response-Fields i c s.adapter h.0)
      (reserved-if (is_pending i s.adapter.pending) _ _ s.adapter.reserved refl refl) h

do_effect-Safe : (e : Effect) (s : System) → Safe s → Safe (do_effect e s)
unfolding do_effect Safe
do_effect-Safe (complete i c) s h = h
do_effect-Safe (cancel i) s h = h
do_effect-Safe (close c reason) s h = h

perform-Safe : (s : System) (o : Option (Effect × List Effect)) → Safe s → Safe (perform_picked s o)
unfolding Safe
perform-Safe s none h = h
perform-Safe s (some (e, es)) h = do_effect-Safe e (record s { owed = es }) h

act-Safe : (a : Action) (s : System) → Safe s → Safe (act a s)
unfolding act Safe remove_adapter_connection release_adapter_reservation add_adapter_connection
    remove_adapter_session expire_adapter_session complete_pending_snapshot stop_adapter_work
    invalidate_snapshot_response_wait
act-Safe (connect c) s h = (
  add_adapter_connection-Fields c s.adapter h.0,
  h.1 ∙ ap one_if (sym (reserved-add_adapter_connection c s.adapter)),
)
act-Safe (disconnect c) s h = (remove_adapter_connection-Fields c s.adapter h.0, h.1)
act-Safe (open_session c) s h = reserve-Safe c s h
act-Safe (hello_failed c) s h =
    holding-Safe s _ (remove_job c s.holders) (remove_job-OneFewer c s.holders) h
      (λ rest r n. (release-Fields s.adapter h.0, n))
act-Safe (hello_accepted c) s h =
    holding-Safe s _ (remove_job c s.holders) (remove_job-OneFewer c s.holders) h (λ rest r n.
      (activate-Fields c s.adapter r h.0, n ∙ ap one_if (sym (reserved-activate c s.adapter))))
act-Safe (session_ended c) s h =
    owing-Safe s (remove_adapter_session c s.adapter)
      (remove_adapter_session-Fields c s.adapter h.0) (reserved-fail_pending _ _ _) h
act-Safe (session_expired c) s h =
    owing-Safe s (expire_adapter_session c s.adapter).1
      (expire_adapter_session-Fields c s.adapter h.0)
      (reserved-invalidate_adapter_session c none _ _ s.adapter) h
act-Safe (sync request) s h = begun-Safe s _ (begin_sync-Keeps s.next request s.adapter h.0) h
act-Safe (request_failed i) s h =
    owing-Safe s (complete_pending_snapshot i write_failed s.adapter)
      (complete_pending_snapshot-Fields i write_failed s.adapter h.0) (reserved-fail_pending _ _ _)
      h
act-Safe (request_timed_out c i) s h =
    owing-Safe s (invalidate_snapshot_response_wait c i timed_out s.adapter).1
      (invalidate_snapshot_response_wait-Fields c i timed_out s.adapter h.0)
      (reserved-if_valid
        (not (is_connection c s.adapter.session)
          || not (is_pending i s.adapter.pending)
          || is_applying s.adapter.pending)
        _ _ s.adapter.reserved refl refl)
      h
act-Safe (request_cancelled c i) s h =
    owing-Safe s (invalidate_adapter_session c (some i) cancelled (because cancelled) s.adapter).1
      (invalidate_adapter_session-Fields c (some i) cancelled (because cancelled) s.adapter h.0)
      (reserved-invalidate_adapter_session c (some i) _ _ s.adapter) h
act-Safe (respond c request) s h =
    accepting-Safe s _ (accept_snapshot_response-Accepted c request s.adapter h.0) h
act-Safe (committed i message outcome) s h = end_job-Safe s i _ _ h
act-Safe stop s h =
    owing-Safe s (stop_adapter_work s.adapter) (stop_adapter_work-Fields s.adapter h.0) refl h
act-Safe (perform n) s h = perform-Safe s _ h

-- After any sequence of actions, the pending request belongs to the active session, a reservation
-- excludes a session, a daemon that stops has no pending request, and exactly one goroutine stands
-- between the two sections of serveAdapter while there is a reservation, and none otherwise.
pub run-Safe : (as' : List Action) → Safe (run as')
unfolding run Safe
run-Safe [] = (record { owner = tt; free = λ k. refl; stopped = λ k. refl }, refl)
run-Safe (a ∷ as') = act-Safe a (run as') (run-Safe as')
