-- ===== src/Adapter/Session/Steps.antt =====
-- internal/app/adapter.go: all interleavings of the goroutines, as sequences of actions. An action is
-- one section under adapterMu, or one of the effects that a goroutine still owes after its section.
-- An action that no goroutine can take leaves the system as it is; some that are taken here have
-- no goroutine in the code, such as a timeout of a request that was never made.
pub mod Conserves
pub mod Tokens
pub mod Fields
pub mod Safe
pub mod Once
pub mod Wait
use offbeat.Prelude.{
  zero, Text, Bool, Option, List, ℕ, true, false, none, some, suc, [], ◌∷◌, ◌==◌, ◌&&◌,
  if◌then◌else◌, Result, ok, err, ◌++◌,
}
use offbeat.Adapter.Session.{
  stop_adapter_work, response_completion, accept_snapshot_response, because, cancelled,
  invalidate_adapter_session, timed_out, invalidate_snapshot_response_wait, write_failed,
  complete_pending_snapshot, begin_sync, expire_adapter_session, remove_adapter_session, activate,
  release_adapter_reservation, reserve, remove_adapter_connection, SyncRefusal,
  add_adapter_connection, complete_snapshot_response, is_connection, Adapter, Effect,
  SnapshotCompletion, Applied, SyncError, CloseReason, cancel, complete, close,
}

-- The adapter's fields, the connections whose goroutine stands between the two sections of
-- serveAdapter, the number of requests made, the requests accepted so far and their commits under
-- way, the effects owed, the sends on the requests' channels.
pub record System : Type 0 where
  pub adapter : Adapter
  pub holders : List ℕ
  pub next : ℕ
  pub accepted : List ℕ
  pub jobs : List ℕ
  pub owed : List Effect
  pub sent : List (ℕ × SnapshotCompletion)

pub data Action : Type 0 where
  connect disconnect : ℕ → Action
  open_session : ℕ → Action
  hello_failed hello_accepted : ℕ → Action
  session_ended session_expired : ℕ → Action
  sync : Text → Action
  request_failed : ℕ → Action
  request_timed_out request_cancelled : ℕ → ℕ → Action
  respond : ℕ → Text → Action
  committed : ℕ → Option Text → Applied → Action
  stop : Action
  perform : ℕ → Action

abbrev pub initial : System
initial = record {
  adapter = record {
    stopping = false;
    reserved = false;
    session = none;
    pending = none;
    connections = [];
  };
  holders = [];
  next = 0;
  accepted = [];
  jobs = [];
  owed = [];
  sent = [];
}

abbrev pub owing : System → Adapter × List Effect → System
owing s r = record s { adapter = r.0; owed = s.owed ++ r.1 }

-- One effect is done: a send puts its value on the channel.
unfoldable pub do_effect : Effect → System → System
do_effect (complete i c) s = record s { sent = (i, c) ∷ s.sent }
do_effect (cancel i) s = s
do_effect (close c reason) s = s

abbrev pub keep : Effect → Option (Effect × List Effect) → Option (Effect × List Effect)
keep e none = none
keep e (some (f, es)) = some (f, e ∷ es)

-- The effect at a position, and the others.
unfoldable pub pick : ℕ → List Effect → Option (Effect × List Effect)
pick n [] = none
pick zero (e ∷ es) = some (e, es)
pick (suc n) (e ∷ es) = keep e (pick n es)

abbrev pub perform_picked : System → Option (Effect × List Effect) → System
perform_picked s none = s
perform_picked s (some (e, es)) = do_effect e (record s { owed = es })

abbrev pub begun : System → Result SyncRefusal Adapter → System
begun s (err e) = s
begun s (ok a) = record s { adapter = a; next = suc s.next }

abbrev pub accepting : System → Option (ℕ × Adapter) → System
accepting s none = s
accepting s (some (i, a)) = record s { adapter = a; accepted = i ∷ s.accepted; jobs = i ∷ s.jobs }

abbrev pub kept : ℕ → Option (List ℕ) → Option (List ℕ)
kept j none = none
kept j (some js) = some (j ∷ js)

-- The list without the first such number, if it has one: a commit ends once.
unfoldable pub remove_job : ℕ → List ℕ → Option (List ℕ)
remove_job i [] = none
remove_job i (j ∷ js) = let rest = kept j (remove_job i js) in if j == i then some js else rest

abbrev pub end_job : System → ℕ → SnapshotCompletion → Option (List ℕ) → System
end_job s i c none = s
end_job s i c (some js) = owing (record s { jobs = js }) (complete_snapshot_response i c s.adapter)

-- A goroutine between the two sections of serveAdapter goes on; `rest` are the others there.
abbrev pub holding : System → (List ℕ → System) → Option (List ℕ) → System
holding s next none = s
holding s next (some rest) = next rest

unfoldable pub act : Action → System → System
unfolding do_effect pick remove_job add_adapter_connection remove_adapter_connection reserve
    release_adapter_reservation activate
act (connect c) s = record s { adapter = (add_adapter_connection c s.adapter).1 }
act (disconnect c) s = record s { adapter = remove_adapter_connection c s.adapter }
act (open_session c) s =
    let r = reserve s.adapter in
    if r.0 then record s { adapter = r.1; holders = c ∷ s.holders } else s
act (hello_failed c) s =
    holding s (λ rest. record s { adapter = release_adapter_reservation s.adapter; holders = rest })
      (remove_job c s.holders)
act (hello_accepted c) s =
    holding s (λ rest. record s { adapter = (activate c s.adapter).1; holders = rest })
      (remove_job c s.holders)
act (session_ended c) s = owing s (remove_adapter_session c s.adapter)
act (session_expired c) s = owing s (expire_adapter_session c s.adapter).1
act (sync request) s = begun s (begin_sync s.next request s.adapter)
act (request_failed i) s = owing s (complete_pending_snapshot i write_failed s.adapter)
act (request_timed_out c i) s =
    owing s (invalidate_snapshot_response_wait c i timed_out s.adapter).1
act (request_cancelled c i) s =
    owing s (invalidate_adapter_session c (some i) cancelled (because cancelled) s.adapter).1
act (respond c request) s = accepting s (accept_snapshot_response c request s.adapter)
act (committed i message outcome) s =
    end_job s i (response_completion message outcome) (remove_job i s.jobs)
act stop s = owing s (stop_adapter_work s.adapter)
act (perform n) s = perform_picked s (pick n s.owed)

-- The system after a sequence of actions.
unfoldable pub run : List Action → System
run [] = initial
run (a ∷ as') = act a (run as')
