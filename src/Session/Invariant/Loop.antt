-- ===== src/Session/Invariant/Loop.antt =====
-- src/session.rs: `forever` and `handle_heartbeat` under the predicate of Session/Invariant.
use chamomile.Prelude.{
  ◌+◌, Bool, arith, dec_lt, lt→ltb, ltb-false, subst, sym, List, [], ◌∷◌, if◌then◌else◌,
}
use chamomile.Wire.Core.{ping}
use chamomile.Session.State.{State, Global, fail}
use chamomile.Session.Run
use chamomile.Session.Run.{FutureResult, out, endpoint, heart_beat, robust}
use chamomile.Session.Invariant.{IsSession, Keeps, continue-Keeps}
use chamomile.Session.Invariant.Core.{send_core_data-Keeps}
use chamomile.Session.Invariant.Outside.{handle_outside-Keeps}
use chamomile.Session.Invariant.Endpoint.{handle_endpoint-Keeps}

module _ (g : Global) where
  handle_heartbeat-Keeps : Keeps (Run.handle_heartbeat g)
  unfolding Run.handle_heartbeat Run.beat
  handle_heartbeat-Keeps s h = elim (dec_lt 3 s.heartbeat) [
    | yes l ↦
        subst (λ (b : Bool). IsSession (if b then fail "timeout" s else Run.beat g s).1.session)
          (sym (lt→ltb 3 s.heartbeat l)) h
    | no n ↦
        subst (λ (b : Bool). IsSession (if b then fail "timeout" s else Run.beat g s).1.session)
          (sym (ltb-false 3 s.heartbeat (omega arith)))
          (send_core_data-Keeps g ping
            (record s { session = record s.session { heartbeat = s.heartbeat + 1 } })
            (record { beats = omega arith; receives = h.receives }))
  ]

  handle-Keeps : (e : FutureResult) → Keeps (Run.handle g e)
  unfolding Run.handle Run.handle_robust
  handle-Keeps (out msg) s h = handle_outside-Keeps g msg s h
  handle-Keeps (endpoint msg) s h = handle_endpoint-Keeps g msg s h
  handle-Keeps heart_beat s h = handle_heartbeat-Keeps s h
  handle-Keeps robust s h = h

-- However long a session runs, and whatever reaches it, it keeps the predicate that it began with:
-- at most four heartbeats are unanswered, and it receives data while it is stable.
pub forever-IsSession :
    (g : Global) (events : List FutureResult) (s : State)
    → IsSession s.session
    → IsSession (Run.forever g events s).1.session
unfolding Run.forever
forever-IsSession g [] s h = h
forever-IsSession g (e ∷ events) s h =
    continue-Keeps (Run.handle g e s).0 (λ u. Run.forever g events) (Run.handle g e s).1
      (λ u. forever-IsSession g events) (handle-Keeps g e s h)
