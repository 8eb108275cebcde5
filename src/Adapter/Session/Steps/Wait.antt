-- ===== src/Adapter/Session/Steps/Wait.antt =====
-- internal/app/adapter.go: handleSpotifySync never waits in vain.
use offbeat.Adapter.Session.Steps.Fields.{OwnedBy}
use offbeat.Adapter.Session.Steps.Once.{applying, count, Once, run-Once}
use offbeat.Adapter.Session.Steps.Tokens.{run-Counted, completions, Counted}
use offbeat.Adapter.Session.Steps.Conserves.{pending_count, sent_count, owed_count}
use offbeat.Adapter.Session.Steps.Safe.{run-Safe, Safe}
use offbeat.Adapter.Session.{
  Adapter, invalidate_snapshot_response_wait, CloseReason, SyncError, PendingSnapshot,
  invalidate_adapter_session,
}
use offbeat.Adapter.Session.Steps.{run, Action, System}
use offbeat.Prelude.{
  sym, ==_iff, inr, inl, Bool-cases, ap, Option, List, ℕ, ◌+◌, ◌≡◌, ◌≤◌, ◌<◌, ◌==◌, none, some,
  arith, refl, true, false,
}

-- What the waiting of a request can end with.
pub data Wait (s : System) (i : ℕ) : Type 0 where
  completed : owed_count i s.owed + sent_count i s.sent ≡ 1 → Wait s i
  waits :
      (p : PendingSnapshot)
      → s.adapter.pending ≡ some p
      → p.id ≡ i
      → ((e : SyncError) (reason : CloseReason)
          → let r = invalidate_adapter_session p.session (some i) e reason s.adapter in
            (r.0 ≡ true) × (owed_count i r.1.1 ≡ 1))
      → (p.applying ≡ false
          → (e : SyncError) → (invalidate_snapshot_response_wait p.session i e s.adapter).0 ≡ true)
      → (p.applying ≡ true → 1 ≤ count i s.jobs)
      → Wait s i

eq_self : (i : ℕ) → (i == i) ≡ true
eq_self i = (==_iff i i).1 refl

cancels :
    (a : Adapter) (p : PendingSnapshot) (e : SyncError) (reason : CloseReason)
    → a.pending ≡ some p
    → a.session ≡ some p.session
    → let r = invalidate_adapter_session p.session (some p.id) e reason a in
      (r.0 ≡ true) × (owed_count p.id r.1.1 ≡ 1)
unfolding invalidate_adapter_session owed_count
cancels a p e reason h k =
    rw h (rw k (rw (eq_self p.session) (rw (eq_self p.id) (refl, ground arith))))

expires :
    (a : Adapter) (p : PendingSnapshot) (e : SyncError)
    → a.pending ≡ some p
    → a.session ≡ some p.session
    → p.applying ≡ false
    → (invalidate_snapshot_response_wait p.session p.id e a).0 ≡ true
unfolding invalidate_snapshot_response_wait
expires a p e h k n = rw h (rw k (rw (eq_self p.session) (rw (eq_self p.id) (rw n refl))))

owner-session :
    (o : Option PendingSnapshot) (q : Option ℕ) (p : PendingSnapshot)
    → o ≡ some p
    → OwnedBy o q
    → q ≡ some p.session
owner-session none q p e h = cc
owner-session (some r) q p e h = cc

waited :
    (s : System) (i : ℕ) (p : Option PendingSnapshot)
    → s.adapter.pending ≡ p
    → i < s.next
    → Safe s
    → Counted s
    → Once s i
    → Wait s i
unfolding Safe Counted completions pending_count
waited s i none e made h c o = completed (ground (arith, c i, ap (pending_count i) e))
waited s i (some p) e made h c o = elim (Bool-cases (p.id == i)) [
  | inl k ↦
      waits p e ((==_iff p.id i).0 k)
        (λ er reason. rw (sym ((==_iff p.id i).0 k)) (
          cancels s.adapter p er reason e
            (owner-session s.adapter.pending s.adapter.session p e h.0.owner)))
        (λ n er. rw (sym ((==_iff p.id i).0 k)) (
          expires s.adapter p er e (owner-session s.adapter.pending s.adapter.session p e h.0.owner)
            n))
        (λ n. ground (arith, o.under_way, ap (applying i) e, k, n))
  | inr k ↦ completed (ground (arith, c i, ap (pending_count i) e, k))
]

-- After any sequence of actions, for each request made: its one completion is owed or sent, or else it is
-- pending, cancelling it for its session succeeds and owes it one completion, its timeout
-- succeeds unless its response was accepted, and then a commit is under way.
pub run-Wait : (as' : List Action) (i : ℕ) → i < (run as').next → Wait (run as') i
run-Wait as' i made =
    waited (run as') i (run as').adapter.pending refl made (run-Safe as') (run-Counted as')
      (run-Once as' i)
