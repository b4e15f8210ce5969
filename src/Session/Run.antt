-- ===== src/Session/Run.antt =====
-- src/session.rs: `forever` and `listen`, the loop of a session over the events that reach it.
use chamomile.Prelude.{◌+◌, true, List, [], ◌∷◌, ltb, if◌then◌else◌}
use chamomile.Prelude.Result.{ok}
use chamomile.Wire.Core.{CoreData}
use chamomile.Wire.Endpoint.{EndpointMessage}
use chamomile.Session.State.{
  SessionMessage, Global, Act, ◌>>◌, continue, pure, fail, ignore, modify,
}
use chamomile.Session.Core.{send_core_data, close}
use chamomile.Session.Outside.{handle_outside}
use chamomile.Session.Endpoint.{handle_endpoint}

-- `FutureResult`
pub data FutureResult : Type 0 where
  out : SessionMessage → FutureResult
  endpoint : EndpointMessage → FutureResult
  heart_beat : FutureResult
  robust : FutureResult

module _ (g : Global) where
  unfoldable pub beat : Act Unit
  unfolding send_core_data
  beat = modify (λ x. record x { heartbeat = x.heartbeat + 1 }) >> send_core_data g CoreData.ping

  unfoldable pub handle_heartbeat : Act Unit
  unfolding beat
  handle_heartbeat s = if ltb 3 s.heartbeat then fail "timeout" s else beat s

  unfoldable pub handle_robust : Act Unit
  handle_robust = pure tt

  unfoldable pub handle : FutureResult → Act Unit
  unfolding handle_outside handle_endpoint handle_heartbeat handle_robust
  handle (out msg) = handle_outside g msg
  handle (endpoint msg) = handle_endpoint g msg
  handle heart_beat = handle_heartbeat
  handle robust = handle_robust

  -- `forever` on the events that `select!` yields; the end of the list is a closed channel
  unfoldable pub forever : List FutureResult → Act Unit
  unfolding handle
  forever [] s = (ok tt, s)
  forever (e ∷ events) s = let (r, s') = handle e s in continue r (λ u. forever events) s'

  unfoldable pub listen : List FutureResult → Act Unit
  unfolding forever close
  listen events = do ignore (forever events); close g true
