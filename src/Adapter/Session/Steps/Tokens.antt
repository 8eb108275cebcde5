-- ===== src/Adapter/Session/Steps/Tokens.antt =====
-- internal/app/adapter.go: each request of handleSpotifySync has one completion, which waits, is
-- owed by a goroutine or has been sent.
use offbeat.Adapter.Session.Steps.Conserves.{
  stop_adapter_work-Conserves, invalidate_adapter_session-Conserves,
  invalidate_snapshot_response_wait-Conserves, complete_pending_snapshot-Conserves,
  expire_adapter_session-Conserves, owed_count-append, Conserves,
  complete_snapshot_response-Conserves, owed_count, pending_count, remove_adapter_session-Conserves,
  sent_count, weight,
}
use offbeat.Adapter.Session.Steps.{
  holding, remove_job, stop, perform, committed, respond, request_cancelled, request_timed_out,
  request_failed, sync, session_expired, session_ended, hello_accepted, hello_failed, open_session,
  disconnect, connect, Action, act, end_job, run, accepting, do_effect, keep, begun, pick, owing,
  perform_picked, System,
}
use offbeat.Adapter.Session.{
  release_adapter_reservation, activate, add_adapter_connection, remove_adapter_connection, reserve,
  because, cancelled, timed_out, write_failed, SyncRefusal, not_connected, Result, accept_pending,
  accept_snapshot_response, is_active, begin_on, begin_sync, is_connection, cancel, close,
  PendingSnapshot, complete, Adapter, Effect, SnapshotCompletion,
}
use offbeat.Prelude.{
  ap, ok, text_eq, err, ltb, Text, ◌||◌, inr, inl, not, Bool-cases, true, false, Bool, Option, List,
  ℕ, zero, suc, ◌+◌, ◌≡◌, ◌==◌, [], ◌∷◌, none, some, if◌then◌else◌, arith, refl,
}

-- The completions of a request.
unfoldable pub completions : ℕ → System → ℕ
completions i s = (pending_count i s.adapter.pending + owed_count i s.owed) + sent_count i s.sent

-- Each request that was made has one completion, and the numbers still to come have none.
unfoldable pub Counted : System → Type 0
Counted s = (i : ℕ) → completions i s ≡ (if ltb i s.next then 1 else 0)

-- The same number of completions for each request, and the same requests.
owing-Counted :
    (s : System) (r : Adapter × List Effect)
    → Conserves s.adapter r
    → Counted s
    → Counted (owing s r)
unfolding Counted completions Conserves
owing-Counted s r c h i = omega (arith, c i, h i, owed_count-append i s.owed r.1)

-- A request begins only when none is pending, and is the pending one then.
data Begins (i : ℕ) (a : Adapter) : Result SyncRefusal Adapter → Type 0 where
  refused : {e : SyncRefusal} → Begins i a (err e)
  begins :
      {b : Adapter}
      → ((j : ℕ) → pending_count j a.pending ≡ 0)
      → ((j : ℕ) → pending_count j b.pending ≡ (if i == j then 1 else 0))
      → Begins i a (ok b)

idle-count : (j : ℕ) (p : Option PendingSnapshot) → is_active p ≡ false → pending_count j p ≡ 0
unfolding pending_count
idle-count j none h = refl
idle-count j (some p) h = cc

begin_on-Begins :
    (i : ℕ) (request : Text) (a : Adapter) (o : Option ℕ) → Begins i a (begin_on i request a o)
unfolding pending_count
begin_on-Begins i request a none = refused
begin_on-Begins i request a (some c) = elim (Bool-cases (is_active a.pending)) [
  | inl e ↦ rw e refused
  | inr e ↦ rw e (begins (λ j. idle-count j a.pending e) (λ j. refl))
]

begin_sync-Begins : (i : ℕ) (request : Text) (a : Adapter) → Begins i a (begin_sync i request a)
unfolding begin_sync
begin_sync-Begins i request a = begin_if a.stopping
  where
    begin_if :
        (b : Bool) → Begins i a (if b then err not_connected else begin_on i request a a.session)
    begin_if true = refused
    begin_if false = begin_on-Begins i request a a.session

begun-Counted :
    (s : System) (r : Result SyncRefusal Adapter)
    → Begins s.next s.adapter r
    → Counted s
    → Counted (begun s r)
unfolding Counted completions
begun-Counted s (err e) b h i = h i
begun-Counted s (ok a) (begins p q) h i = ground (arith, p i, q i, h i)

-- What accepts a response only marks the pending request.
data Accepts (a : Adapter) : Option (ℕ × Adapter) → Type 0 where
  ignores : Accepts a none
  accepts :
      {i : ℕ} {b : Adapter}
      → ((j : ℕ) → pending_count j b.pending ≡ pending_count j a.pending)
      → Accepts a (some (i, b))

accept_pending-Accepts :
    (c : ℕ) (request : Text) (a : Adapter) (p : Option PendingSnapshot)
    → ((j : ℕ) → pending_count j p ≡ pending_count j a.pending)
    → Accepts a (accept_pending c request a p)
unfolding pending_count
accept_pending-Accepts c request a none h = ignores
accept_pending-Accepts c request a (some p) h =
    elim (Bool-cases (not (p.session == c) || not (text_eq p.request_id request) || p.applying)) [
      | inl e ↦ rw e ignores
      | inr e ↦ rw e (accepts h)
    ]

accept_snapshot_response-Accepts :
    (c : ℕ) (request : Text) (a : Adapter) → Accepts a (accept_snapshot_response c request a)
unfolding accept_snapshot_response
accept_snapshot_response-Accepts c request a = accept_if (is_connection c a.session)
  where
    accept_if : (b : Bool) → Accepts a (if b then accept_pending c request a a.pending else none)
    accept_if false = ignores
    accept_if true = accept_pending-Accepts c request a a.pending (λ j. refl)

accepting-Counted :
    (s : System) (r : Option (ℕ × Adapter))
    → Accepts s.adapter r
    → Counted s
    → Counted (accepting s r)
unfolding Counted completions
accepting-Counted s none b h i = h i
accepting-Counted s (some (j, a)) (accepts p) h i = omega (arith, p i, h i)

-- Picking an effect loses none.
data Picks (i : ℕ) (es : List Effect) : Option (Effect × List Effect) → Type 0 where
  picks_none : Picks i es none
  picks :
      {e : Effect} {fs : List Effect}
      → weight i e + owed_count i fs ≡ owed_count i es
      → Picks i es (some (e, fs))

pick-Picks : (i n : ℕ) (es : List Effect) → Picks i es (pick n es)
unfolding pick owed_count
pick-Picks i n [] = picks_none
pick-Picks i zero (e ∷ es) = picks refl
pick-Picks i (suc n) (e ∷ es) = keep_picks (pick n es) (pick-Picks i n es)
  where
    keep_picks : (o : Option (Effect × List Effect)) → Picks i es o → Picks i (e ∷ es) (keep e o)
    keep_picks none h = picks_none
    keep_picks (some (f, fs)) (picks h) = picks (omega (arith, h))

do_effect-count :
    (i : ℕ) (e : Effect) (s : System) → completions i (do_effect e s) ≡ completions i s + weight i e
unfolding do_effect completions sent_count
do_effect-count i (complete j c) s = omega arith
do_effect-count i (cancel j) s = omega arith
do_effect-count i (close c reason) s = omega arith

picked-count :
    (i : ℕ) (es fs : List Effect) (e : Effect)
    → Picks i es (some (e, fs))
    → weight i e + owed_count i fs ≡ owed_count i es
picked-count i es fs e (picks h) = h

do_effect-next : (e : Effect) (s : System) → (do_effect e s).next ≡ s.next
unfolding do_effect
do_effect-next (complete j c) s = refl
do_effect-next (cancel j) s = refl
do_effect-next (close c reason) s = refl

perform-Counted :
    (s : System) (o : Option (Effect × List Effect))
    → ((i : ℕ) → Picks i s.owed o)
    → Counted s
    → Counted (perform_picked s o)
unfolding Counted completions
perform-Counted s none p h i = h i
perform-Counted s (some (e, fs)) p h i = rw (do_effect-next e (record s { owed = fs })) (
    omega
      (arith, do_effect-count i e (record s { owed = fs }), picked-count i s.owed fs e (p i), h i))

end_job-Counted :
    (s : System) (j : ℕ) (c : SnapshotCompletion) (o : Option (List ℕ))
    → Counted s
    → Counted (end_job s j c o)
unfolding Counted completions
end_job-Counted s j c none h = h
end_job-Counted s j c (some js) h =
    owing-Counted (record s { jobs = js }) _ (complete_snapshot_response-Conserves j c s.adapter) h

-- A section that leaves the pending request and the system's other parts as they are.
kept-Counted :
    (s : System) (a : Adapter) (o : List ℕ)
    → a.pending ≡ s.adapter.pending
    → Counted s
    → Counted (record s { adapter = a; holders = o })
unfolding Counted completions
kept-Counted s a o k h i = omega (arith, ap (pending_count i) k, h i)

pending-if :
    (b : Bool) (x y : Bool × Adapter) (p : Option PendingSnapshot)
    → x.1.pending ≡ p
    → y.1.pending ≡ p
    → (if b then x else y).1.pending ≡ p
pending-if true x y p k h = k
pending-if false x y p k h = h

pub pending-add_adapter_connection :
    (c : ℕ) (a : Adapter) → (add_adapter_connection c a).1.pending ≡ a.pending
unfolding add_adapter_connection
pending-add_adapter_connection c a = pending-if a.stopping _ _ a.pending refl refl

pub pending-reserve : (a : Adapter) → (reserve a).1.pending ≡ a.pending
unfolding reserve
pending-reserve a = pending-if _ _ _ a.pending refl refl

pub pending-activate : (c : ℕ) (a : Adapter) → (activate c a).1.pending ≡ a.pending
unfolding activate
pending-activate c a = pending-if a.stopping _ _ a.pending refl refl

if-Counted : (b : Bool) (s t : System) → Counted s → Counted t → Counted (if b then s else t)
if-Counted true s t p q = p
if-Counted false s t p q = q

holding-Counted :
    (s : System) (next : List ℕ → System) (o : Option (List ℕ))
    → ((rest : List ℕ) → Counted (next rest))
    → Counted s
    → Counted (holding s next o)
holding-Counted s next none k h = h
holding-Counted s next (some rest) k h = k rest

act-Counted : (a : Action) (s : System) → Counted s → Counted (act a s)
unfolding act remove_adapter_connection release_adapter_reservation
act-Counted (connect c) s h =
    kept-Counted s _ s.holders (pending-add_adapter_connection c s.adapter) h
act-Counted (disconnect c) s h = kept-Counted s _ s.holders refl h
act-Counted (open_session c) s h =
    if-Counted (reserve s.adapter).0 _ s
      (kept-Counted s (reserve s.adapter).1 (c ∷ s.holders) (pending-reserve s.adapter) h) h
act-Counted (hello_failed c) s h =
    holding-Counted s _ (remove_job c s.holders) (λ rest. kept-Counted s _ rest refl h) h
act-Counted (hello_accepted c) s h =
    holding-Counted s _ (remove_job c s.holders)
      (λ rest. kept-Counted s _ rest (pending-activate c s.adapter) h) h
act-Counted (session_ended c) s h =
    owing-Counted s _ (remove_adapter_session-Conserves c s.adapter) h
act-Counted (session_expired c) s h =
    owing-Counted s _ (expire_adapter_session-Conserves c s.adapter) h
act-Counted (sync request) s h = begun-Counted s _ (begin_sync-Begins s.next request s.adapter) h
act-Counted (request_failed i) s h =
    owing-Counted s _ (complete_pending_snapshot-Conserves i write_failed s.adapter) h
act-Counted (request_timed_out c i) s h =
    owing-Counted s _ (invalidate_snapshot_response_wait-Conserves c i timed_out s.adapter) h
act-Counted (request_cancelled c i) s h =
    owing-Counted s _
      (invalidate_adapter_session-Conserves c (some i) cancelled (because cancelled) s.adapter) h
act-Counted (respond c request) s h =
    accepting-Counted s _ (accept_snapshot_response-Accepts c request s.adapter) h
act-Counted (committed i message outcome) s h = end_job-Counted s i _ _ h
act-Counted stop s h = owing-Counted s _ (stop_adapter_work-Conserves s.adapter) h
act-Counted (perform n) s h = perform-Counted s _ (λ i. pick-Picks i n s.owed) h

-- After any sequence of actions, each request of handleSpotifySync has exactly one completion, pending,
-- owed or sent, and a number not yet given to a request has none: so no request is lost, and no
-- channel gets a second value.
pub run-Counted : (as' : List Action) → Counted (run as')
unfolding run Counted completions pending_count owed_count sent_count
run-Counted [] = λ i. ground arith
run-Counted (a ∷ as') = act-Counted a (run as') (run-Counted as')
