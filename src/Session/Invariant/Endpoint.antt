-- ===== src/Session/Invariant/Endpoint.antt =====
-- src/session.rs: `handle_endpoint` under the predicate of Session/Invariant.
use chamomile.Prelude.{ℕ, equal, Option, none, some, List, [], ◌∷◌, if◌then◌else◌}
use chamomile.Prelude.Bytes.{Bytes}
use chamomile.Prelude.Result.{Result, ok, err}
use chamomile.Types.Ids.{PeerId, PeerId-discrete}
use chamomile.Types.Peer.{Peer}
use chamomile.Types.Message.{ReceiveMessage}
use chamomile.Keys.Session.{SessionKey}
use chamomile.Wire.Endpoint.{EndpointMessage, RemotePublic}
use chamomile.Store.Buffer
use chamomile.Store.PeerList
use chamomile.Store.PeerList.{Senders}
use chamomile.Session.State.{
  SessionMessage, Global, pure, when, out_send, generate_remote, complete_remote,
}
use chamomile.Session.Core
use chamomile.Session.Endpoint
use chamomile.Session.Invariant.{Keeps, >>-Keeps, ite-Keeps, when-Keeps, ite-IsSession}
use chamomile.Session.Invariant.Core.{direct_send-Keeps, handle_core_data-Keeps}

module _ (g : Global) where
  dial_with-Keeps :
      (p : Peer) (r : Result (SessionKey × RemotePublic)) → Keeps (Endpoint.dial_with g p r)
  unfolding Endpoint.dial_with
  dial_with-Keeps p (ok (k, r)) s h = h
  dial_with-Keeps p (err e) s h = h

  dial-Keeps : (p : Peer) → Keeps (Endpoint.dial g p)
  unfolding Endpoint.dial
  dial-Keeps p s h = dial_with-Keeps p (generate_remote g (g.draw s.log)) s h

  handle_dht-Keeps : (peers : List Peer) → Keeps (Endpoint.handle_dht g peers)
  unfolding Endpoint.handle_dht
  handle_dht-Keeps [] s h = h
  handle_dht-Keeps (p ∷ peers) s h =
      let is_new = Endpoint.is_new_peer g p s in
      >>-Keeps (when is_new (Endpoint.dial g p)) (Endpoint.handle_dht g peers)
        (when-Keeps is_new (Endpoint.dial g p) (dial-Keeps p)) (handle_dht-Keeps peers) s h

  deliver-Keeps :
      (stable tmp : Option ℕ) (from : PeerId) (bytes : Bytes)
      → Keeps (Endpoint.deliver g stable tmp from bytes)
  unfolding Endpoint.deliver
  deliver-Keeps (some i) tmp from bytes s h = h
  deliver-Keeps none (some i) from bytes s h = h
  deliver-Keeps none none from bytes s h =
      when-Keeps s.is_recv_data (out_send g (ReceiveMessage.payload from bytes)) (λ s h. h) s h

  send_to_closest-Keeps :
      (o : Option ℕ) (msg : SessionMessage) → Keeps (Endpoint.send_to_closest g o msg)
  unfolding Endpoint.send_to_closest
  send_to_closest-Keeps none msg s h = h
  send_to_closest-Keeps (some i) msg s h = h

  pass_on-Keeps : (to : PeerId) (msg : SessionMessage) → Keeps (Endpoint.pass_on g to msg)
  unfolding Endpoint.pass_on
  pass_on-Keeps to msg s =
      let next = PeerList.next_closest g.ids g.sockets to s.remote_peer.id s.peers in
      when-Keeps g.is_relay_data (Endpoint.send_to_closest g next msg)
        (send_to_closest-Keeps next msg) s

  receive_data-Keeps : (from : PeerId) (bytes : Bytes) → Keeps (Endpoint.receive_data g from bytes)
  unfolding Endpoint.receive_data
  receive_data-Keeps from bytes s h =
      let stable = PeerList.get_stable_stream from s.peers in
      let tmp = Buffer.get_tmp_stream from s.buffer in
      ite-IsSession (equal PeerId-discrete from s.remote_peer.id) (Core.handle_core_data g bytes s)
        (Endpoint.deliver g stable tmp from bytes s) (handle_core_data-Keeps g bytes s h)
        (deliver-Keeps stable tmp from bytes s h)

  handle_relay_data-Keeps :
      (from to : PeerId) (bytes : Bytes) → Keeps (Endpoint.handle_relay_data g from to bytes)
  unfolding Endpoint.handle_relay_data
  handle_relay_data-Keeps from to bytes =
      let msg = SessionMessage.relay_data from to bytes in
      ite-Keeps (equal PeerId-discrete to (Core.my_id g)) (Endpoint.receive_data g from bytes)
        (Endpoint.pass_on g to msg) (receive_data-Keeps from bytes) (pass_on-Keeps to msg)

  open_relay-Keeps :
      (r : RemotePublic) (o : Option (SessionKey × RemotePublic))
      → Keeps (Endpoint.open_relay g r o)
  unfolding Endpoint.open_relay
  open_relay-Keeps r none s h = h
  open_relay-Keeps r (some (k, mine)) s h =
      direct_send-Keeps g (EndpointMessage.relay_handshake mine r.peer.id) _ h

  answer_relay-Keeps : (r : RemotePublic) (o : Option ℕ) → Keeps (Endpoint.answer_relay g r o)
  unfolding Endpoint.answer_relay
  answer_relay-Keeps r (some i) s h = h
  answer_relay-Keeps r none s h =
      open_relay-Keeps r (complete_remote g r.key r.dh (g.draw s.log)) s h

  relay_handshake-Keeps :
      (r : RemotePublic) (to : PeerId) → Keeps (Endpoint.handle_relay_handshake g r to)
  unfolding Endpoint.handle_relay_handshake
  relay_handshake-Keeps r to s h =
      let held = Buffer.get_tmp_session r.peer.id s.buffer in
      let msg = SessionMessage.relay_connect r to in
      let me = equal PeerId-discrete r.peer.id (Core.my_id g) in
      ite-IsSession (equal PeerId-discrete to (Core.my_id g))
        (if me then pure tt s else Endpoint.answer_relay g r held s) (Endpoint.pass_on g to msg s)
        (ite-IsSession me (pure tt s) (Endpoint.answer_relay g r held s) h
          (answer_relay-Keeps r held s h))
        (pass_on-Keeps to msg s h)

  pub handle_endpoint-Keeps : (msg : EndpointMessage) → Keeps (Endpoint.handle_endpoint g msg)
  unfolding Endpoint.handle_endpoint
  handle_endpoint-Keeps EndpointMessage.close s h = h
  handle_endpoint-Keeps (EndpointMessage.handshake r) s h = h
  handle_endpoint-Keeps (EndpointMessage.dht peers) s h = handle_dht-Keeps peers s h
  handle_endpoint-Keeps (EndpointMessage.hole x) s h = h
  handle_endpoint-Keeps EndpointMessage.hole_connect s h = h
  handle_endpoint-Keeps (EndpointMessage.core bytes) s h = handle_core_data-Keeps g bytes s h
  handle_endpoint-Keeps (EndpointMessage.relay_data from to bytes) s h =
      handle_relay_data-Keeps from to bytes s h
  handle_endpoint-Keeps (EndpointMessage.relay_handshake r to) s h = relay_handshake-Keeps r to s h
