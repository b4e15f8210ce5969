-- ===== src/Session/Invariant/Outside.antt =====
-- src/session.rs: `handle_outside` under the predicate of Session/Invariant.
use chamomile.Prelude.{Bool, true, false, not, ◌&&◌, Option, none, some}
use chamomile.Prelude.Bytes.{Bytes}
use chamomile.Types.Ids.{PeerId}
use chamomile.Wire.Core.{CoreData}
use chamomile.Wire.Endpoint.{EndpointMessage, RemotePublic}
use chamomile.Store.PeerList
use chamomile.Store.PeerList.{Senders}
use chamomile.Session.State.{SessionMessage, Global, Act, ◌>>◌, pure, fail, when}
use chamomile.Session.Core
use chamomile.Session.Outside
use chamomile.Session.Invariant.{Keeps, >>-Keeps, ite-Keeps, when-Keeps}
use chamomile.Session.Invariant.Core.{
  direct_send-Keeps, relay_send-Keeps, send_core_data-Keeps, close-Keeps, upgrade-Keeps,
  failure_send-Keeps,
}

module _ (g : Global) where
  send_to_found-Keeps :
      (o : Option Senders) (msg : SessionMessage) → Keeps (Outside.send_to_found g o msg)
  unfolding Outside.send_to_found
  send_to_found-Keeps none msg s h = h
  send_to_found-Keeps (some found) msg s h = h

  relay_on-Keeps :
      (to : PeerId) (m : EndpointMessage) (n : SessionMessage) → Keeps (Outside.relay_on g to m n)
  unfolding Outside.relay_on Outside.relay_again
  relay_on-Keeps to m n s =
      ite-Keeps (Core.is_direct s) (Core.direct_send g m) (Outside.relay_again g to n)
        (direct_send-Keeps g m)
        (λ s. send_to_found-Keeps (PeerList.dht_get g.ids g.sockets to s.peers) n s) s

  upgrade_if-Keeps : (b : Bool) → Keeps (Outside.upgrade_if g b)
  unfolding Outside.upgrade_if
  upgrade_if-Keeps b s = when-Keeps (not s.is_stable && b) (Core.upgrade g) (upgrade-Keeps g) s

  close_if_refused-Keeps : (b : Bool) → Keeps (Outside.close_if_refused g b)
  unfolding Outside.close_if_refused
  close_if_refused-Keeps b s =
      when-Keeps (not s.is_stable && not b) (Core.close g false) (close-Keeps g false) s

  handle_stable_result-Keeps :
      (m : CoreData) (is_ok is_force : Bool)
      → Keeps (Outside.handle_stable_result g m is_ok is_force)
  unfolding Outside.handle_stable_result
  handle_stable_result-Keeps m is_ok is_force =
      let last : Act Unit = when is_force (fail "force close") in
      >>-Keeps (Core.send_core_data g m)
        (Outside.upgrade_if g is_ok >> (Outside.close_if_refused g is_ok >> last))
        (send_core_data-Keeps g m)
        (>>-Keeps (Outside.upgrade_if g is_ok) (Outside.close_if_refused g is_ok >> last)
          (upgrade_if-Keeps is_ok)
          (>>-Keeps (Outside.close_if_refused g is_ok) last (close_if_refused-Keeps is_ok)
            (when-Keeps is_force (fail "force close") (λ s h. h))))

  relay_data-Keeps :
      (from to : PeerId) (bytes : Bytes) → Keeps (Outside.handle_relay_data g from to bytes)
  unfolding Outside.handle_relay_data
  relay_data-Keeps from to bytes s =
      let m = EndpointMessage.relay_data from to bytes in
      let n = SessionMessage.relay_data from to bytes in
      ite-Keeps (Outside.is_to_self g from to s) (Core.failure_send g bytes)
        (Outside.relay_on g to m n) (failure_send-Keeps g bytes) (relay_on-Keeps to m n) s

  relay_connect-Keeps :
      (r : RemotePublic) (to : PeerId) → Keeps (Outside.handle_relay_connect g r to)
  unfolding Outside.handle_relay_connect
  relay_connect-Keeps r to s =
      let m = EndpointMessage.relay_handshake r to in
      let n = SessionMessage.relay_connect r to in
      ite-Keeps (Outside.is_to_self g r.peer.id to s) (pure tt) (Outside.relay_on g to m n)
        (λ s h. h) (relay_on-Keeps to m n) s

  pub handle_outside-Keeps : (msg : SessionMessage) → Keeps (Outside.handle_outside g msg)
  unfolding Outside.handle_outside
  handle_outside-Keeps (SessionMessage.payload tid bytes) s h =
      send_core_data-Keeps g (CoreData.payload tid bytes) s h
  handle_outside-Keeps (SessionMessage.stable_connect tid bytes) s h =
      >>-Keeps (Core.send_core_data g (CoreData.stable_connect tid bytes))
        (Outside.upgrade_if g true) (send_core_data-Keeps g (CoreData.stable_connect tid bytes))
        (upgrade_if-Keeps true) s h
  handle_outside-Keeps (SessionMessage.stable_result tid is_ok is_force bytes) s h =
      handle_stable_result-Keeps (CoreData.stable_result tid is_ok bytes) is_ok is_force s h
  handle_outside-Keeps (SessionMessage.relay_data from to bytes) s h =
      relay_data-Keeps from to bytes s h
  handle_outside-Keeps (SessionMessage.relay_connect r to) s h = relay_connect-Keeps r to s h
  handle_outside-Keeps (SessionMessage.relay_result r sender) s h = h
  handle_outside-Keeps (SessionMessage.relay_close p) s h = record {
    beats = h.beats;
    receives = h.receives;
  }
  handle_outside-Keeps SessionMessage.close s h = close-Keeps g false s h
  handle_outside-Keeps (SessionMessage.direct_incoming peer i j k) s h =
      let kept = relay_send-Keeps g (SessionMessage.relay_close (Core.my_id g)) s h in
      record { beats = kept.beats; receives = kept.receives }
