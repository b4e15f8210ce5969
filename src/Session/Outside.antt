-- ===== src/Session/Outside.antt =====
-- src/session.rs: `handle_outside`, what a session does with a message from inside the node.
use chamomile.Prelude.{Bool, true, false, ◌&&◌, not, Option, none, some, equal, if◌then◌else◌}
use chamomile.Prelude.Bytes.{Bytes}
use chamomile.Prelude.Map
use chamomile.Types.Ids.{PeerId, PeerId-discrete}
use chamomile.Wire.Core.{CoreData}
use chamomile.Wire.Endpoint.{EndpointMessage, RemotePublic}
use chamomile.Store.PeerList
use chamomile.Store.PeerList.{Senders}
use chamomile.Session.State.{
  SessionMessage, payload, stable_connect, stable_result, relay_data, relay_connect, relay_result,
  relay_close, close, direct_incoming, direct, State, Global, Act, ◌>>=◌, ◌>>◌, pure, fail, when,
  ignore, modify, gets, send, to_session,
}
use chamomile.Session.Core.{
  is_direct, my_id, direct_send, relay_send, send_core_data, close as close_session, upgrade,
  failure_send,
}

module _ (g : Global) where
  -- the peer closest to the one that a relayed message is for, where there is one
  unfoldable pub send_to_found : Option Senders → SessionMessage → Act Unit
  send_to_found none msg = pure tt
  send_to_found (some found) msg = ignore (send g (to_session found.session msg) "")

  unfoldable pub relay_again : PeerId → SessionMessage → Act Unit
  unfolding send_to_found
  relay_again to msg s = send_to_found (PeerList.dht_get g.ids g.sockets to s.peers) msg s

  -- what goes to the remote peer, or is relayed again
  unfoldable pub relay_on : PeerId → EndpointMessage → SessionMessage → Act Unit
  unfolding direct_send relay_again
  relay_on to direct_msg relay_msg = do
    is_d ← gets is_direct
    if is_d then direct_send g direct_msg else relay_again to relay_msg

  -- a relay from this node to the remote peer itself
  unfoldable pub is_to_self : PeerId → PeerId → State → Bool
  is_to_self from to s =
      equal PeerId-discrete to s.remote_peer.id && equal PeerId-discrete from (my_id g)

  unfoldable pub upgrade_if : Bool → Act Unit
  unfolding upgrade
  upgrade_if is_ok = do stable ← gets (λ s. s.is_stable); when (not stable && is_ok) (upgrade g)

  unfoldable pub close_if_refused : Bool → Act Unit
  unfolding close_session
  close_if_refused is_ok = do
    stable ← gets (λ s. s.is_stable)
    when (not stable && not is_ok) (close_session g false)

  unfoldable pub handle_stable_result : CoreData → Bool → Bool → Act Unit
  unfolding send_core_data upgrade_if close_if_refused
  handle_stable_result answer is_ok is_force = do
    send_core_data g answer
    upgrade_if is_ok
    close_if_refused is_ok
    when is_force (fail "force close")

  unfoldable pub handle_relay_data : PeerId → PeerId → Bytes → Act Unit
  unfolding is_to_self failure_send relay_on
  handle_relay_data from to bytes = do
    self ← gets (is_to_self from to)
    if self
        then failure_send g bytes
        else relay_on to (EndpointMessage.relay_data from to bytes) (relay_data from to bytes)

  unfoldable pub handle_relay_connect : RemotePublic → PeerId → Act Unit
  unfolding is_to_self relay_on
  handle_relay_connect from_peer to = do
    self ← gets (is_to_self from_peer.peer.id to)
    if self
        then pure tt
        else relay_on to (EndpointMessage.relay_handshake from_peer to) (relay_connect from_peer to)

  unfoldable pub handle_outside : SessionMessage → Act Unit
  unfolding send_core_data upgrade_if handle_stable_result handle_relay_data handle_relay_connect
      close_session relay_send
  handle_outside (payload tid bytes) s = send_core_data g (CoreData.payload tid bytes) s
  handle_outside (stable_connect tid bytes) s =
      (send_core_data g (CoreData.stable_connect tid bytes) >> upgrade_if true) s
  handle_outside (stable_result tid is_ok is_force bytes) s =
      handle_stable_result (CoreData.stable_result tid is_ok bytes) is_ok is_force s
  handle_outside (relay_data from to bytes) s = handle_relay_data from to bytes s
  handle_outside (relay_connect from_peer to) s = handle_relay_connect from_peer to s
  handle_outside (relay_result from_peer sender) s = pure tt s
  handle_outside (relay_close peer_id) s =
      modify
        (λ x. record x { relay_sessions = Map.remove PeerId-discrete peer_id x.relay_sessions }) s
  handle_outside close s = close_session g false s
  handle_outside (direct_incoming remote_peer stream_sender stream_receiver endpoint_sender) s =
      (ignore (relay_send g (relay_close (my_id g)))
          >> modify (λ x. record x {
            stream_receiver = stream_receiver;
            endpoint = direct endpoint_sender;
            remote_peer = remote_peer;
          }))
        s
