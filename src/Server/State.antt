-- ===== src/Server/State.antt =====
-- src/server.rs: what both loops of the server work on, the shared state and the log of what was sent.
use chamomile.Prelude.{ℕ, Bool, not, List, [], ◌∷◌, ◌++◌, if◌then◌else◌, String, ◌==◌}
use chamomile.Prelude.Bytes.{Bytes}
use chamomile.Prelude.Result.{Result, ok, err}
use chamomile.Prelude.Act.{ActOn, pure, when}
use chamomile.Types.Peer.{Peer}
use chamomile.Types.Message.{ReceiveMessage, DeliveryType, delivery_split}
use chamomile.Keys.Session.{SessionKey}
use chamomile.Wire.Endpoint.{RemotePublic, EndpointMessage}
use chamomile.Store.Global.{Shared}
use chamomile.Session.State.{
  SessionMessage, Session, Global, Effect, Act, outside, to_session, to_endpoint, to_transport,
  generate_remote,
}

pub record Server : Type 0 where
  pub shared : Shared
  pub open shared use *
  pub log : List Effect

abbrev pub Serve : Type 0 → Type 0
Serve A = ActOn Server A

-- `s` with one more effect in its log
abbrev pub told : Effect → Server → Server
told e s = record s { log = s.log ++ e ∷ [] }

-- `let _ = sender.send(msg).await;`
abbrev pub tell : Effect → Serve Unit
tell e s = (ok tt, told e s)

abbrev pub tell_session : ℕ → SessionMessage → Serve Unit
tell_session sender msg = tell (to_session sender msg)

abbrev pub tell_endpoint : ℕ → EndpointMessage → Serve Unit
tell_endpoint sender msg = tell (to_endpoint sender msg)

abbrev pub tell_outside : ReceiveMessage → Serve Unit
tell_outside msg = tell (outside msg)

abbrev pub change : (Shared → Shared) → Serve Unit
change f s = (ok tt, record s { shared = f s.shared })

-- A session runs on the state of the server.
unfoldable pub in_session : {A : Type 0} → Session → Act A → Serve A
in_session x m s =
    let (r, t) = m (record { session = x; shared = s.shared; log = s.log }) in
    (r, record { shared = t.shared; log = t.log })

module _ (g : Global) where
  -- `sender.send(msg).await.map_err(…)?`
  unfoldable pub send : Effect → String → Serve Unit
  send e missing s = (if g.accepts s.log e then ok tt else err missing, told e s)

  -- the report of a delivery, where the message asked for one
  unfoldable pub tell_delivery : DeliveryType → ℕ → Bool → Bytes → Serve Unit
  tell_delivery t tid is_sent bytes = when (not (tid == 0)) (
      tell_outside (ReceiveMessage.delivery t tid is_sent (delivery_split bytes g.delivery_length)))

  -- `generate_remote` and `Connect`. A key that no round of `generate_remote` can make keeps the
  -- source in its loop; here nothing is sent then.
  unfoldable pub dial_with : Peer → Result (SessionKey × RemotePublic) → Serve Unit
  dial_with p (ok (session_key, remote_pk)) =
      tell (to_transport p.transport p.socket remote_pk session_key)
  dial_with p (err e) = pure tt

  unfoldable pub dial : Peer → Serve Unit
  unfolding dial_with generate_remote
  dial p s = dial_with p (generate_remote g (g.draw s.log)) s
