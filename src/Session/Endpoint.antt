-- ===== src/Session/Endpoint.antt =====
-- src/session.rs: `handle_endpoint`, what a session does with a message from its connection.
use chamomile.Prelude.{
  ℕ, Bool, false, ◌&&◌, not, Option, none, some, List, [], ◌∷◌, equal, if◌then◌else◌,
}
use chamomile.Prelude.Bytes.{Bytes}
use chamomile.Prelude.Result.{Result, ok, err}
use chamomile.Types.Ids.{PeerId, PeerId-discrete}
use chamomile.Types.Peer.{Peer}
use chamomile.Types.Message.{ReceiveMessage}
use chamomile.Keys.Session.{SessionKey}
use chamomile.Wire.Endpoint.{
  RemotePublic, EndpointMessage, close, handshake, dht, hole, hole_connect, core, relay_handshake,
  relay_data,
}
use chamomile.Store.Buffer
use chamomile.Store.PeerList
use chamomile.Store.Global.{Shared}
use chamomile.Session.State.{
  SessionMessage, relay, new_session, State, Global, Act, ◌>>=◌, ◌>>◌, pure, fail, when, ignore,
  modify_shared, gets, send, out_send, to_session, to_endpoint, to_transport, spawn,
  generate_remote, complete_remote,
}
use chamomile.Session.Core.{my_id, direct_send, handle_core_data}

module _ (g : Global) where
  -- A connection to a peer that another one told about. A key that no round of `generate_remote` can
  -- make keeps the source in its loop; here nothing is sent then.
  unfoldable pub dial_with : Peer → Result (SessionKey × RemotePublic) → Act Unit
  dial_with p (ok (session_key, remote_pk)) =
      ignore (send g (to_transport p.transport p.socket remote_pk session_key) "Transport missing")
  dial_with p (err e) = pure tt

  unfoldable pub dial : Peer → Act Unit
  unfolding dial_with generate_remote
  dial p s = dial_with p (generate_remote g (g.draw s.log)) s

  unfoldable pub is_new_peer : Peer → State → Bool
  is_new_peer p s =
      not (equal PeerId-discrete p.id (my_id g))
      && not (PeerList.contains g.ids g.sockets p.id s.peers)

  unfoldable pub handle_dht : List Peer → Act Unit
  unfolding dial is_new_peer
  handle_dht [] = pure tt
  handle_dht (p ∷ peers) = do is_new ← gets (is_new_peer p); when is_new (dial p); handle_dht peers

  -- Relayed data of another peer: to its stable stream, to its stream in the buffer, or outside.
  unfoldable pub deliver : Option ℕ → Option ℕ → PeerId → Bytes → Act Unit
  deliver (some stable) tmp from bytes s = ignore (send g (to_endpoint stable (core bytes)) "") s
  deliver none (some tmp) from bytes s = ignore (send g (to_endpoint tmp (core bytes)) "") s
  deliver none none from bytes s =
      when s.is_recv_data (out_send g (ReceiveMessage.payload from bytes)) s

  unfoldable pub send_to_closest : Option ℕ → SessionMessage → Act Unit
  send_to_closest none msg = pure tt
  send_to_closest (some sender) msg = ignore (send g (to_session sender msg) "")

  -- what is relayed, where the node relays
  unfoldable pub pass_on : PeerId → SessionMessage → Act Unit
  unfolding send_to_closest
  pass_on to msg s =
      when g.is_relay_data
        (send_to_closest (PeerList.next_closest g.ids g.sockets to s.remote_peer.id s.peers) msg) s

  unfoldable pub receive_data : PeerId → Bytes → Act Unit
  unfolding deliver handle_core_data
  receive_data from bytes s =
      if equal PeerId-discrete from s.remote_peer.id
      then handle_core_data g bytes s
      else deliver (PeerList.get_stable_stream from s.peers) (Buffer.get_tmp_stream from s.buffer)
          from bytes s

  unfoldable pub handle_relay_data : PeerId → PeerId → Bytes → Act Unit
  unfolding receive_data pass_on
  handle_relay_data from to bytes =
      if equal PeerId-discrete to (my_id g)
      then receive_data from bytes
      else pass_on to (SessionMessage.relay_data from to bytes)

  -- The session that answers a relayed handshake, which is told to the sender over this connection.
  unfoldable pub open_relay : RemotePublic → Option (SessionKey × RemotePublic) → Act Unit
  unfolding direct_send new_session
  open_relay from_peer none s = pure tt s
  open_relay from_peer (some (new_session_key, new_remote_pk)) s =
      let stream = g.new_stream s.log in
      let channel = g.new_session_channel s.log in
      let peer = from_peer.peer in
      (modify_shared (λ (h : Shared). record h {
        buffer =
            Buffer.add_tmp peer.id (record { session = channel; stream = stream; peer = peer })
              false h.buffer;
      })
          >> ignore (
              send g
                (spawn
                  (new_session peer channel stream (relay s.session_sender) new_session_key false)
                  channel)
                "")
          >> direct_send g (relay_handshake new_remote_pk peer.id))
        s

  -- A handshake for this node: a result, where the node asked for it, or a new session.
  unfoldable pub answer_relay : RemotePublic → Option ℕ → Act Unit
  unfolding complete_remote open_relay
  answer_relay from_peer (some sender) s =
      ignore
        (send g (to_session sender (SessionMessage.relay_result from_peer s.session_sender)) "") s
  answer_relay from_peer none s =
      open_relay from_peer (complete_remote g from_peer.key from_peer.dh (g.draw s.log)) s

  unfoldable pub handle_relay_handshake : RemotePublic → PeerId → Act Unit
  unfolding answer_relay pass_on
  handle_relay_handshake from_peer to s =
      if equal PeerId-discrete to (my_id g)
      then (if equal PeerId-discrete from_peer.peer.id (my_id g)
          then pure tt s
          else answer_relay from_peer (Buffer.get_tmp_session from_peer.peer.id s.buffer) s)
      else pass_on to (SessionMessage.relay_connect from_peer to) s

  unfoldable pub handle_endpoint : EndpointMessage → Act Unit
  unfolding handle_dht handle_core_data handle_relay_data handle_relay_handshake
  handle_endpoint close = fail "close"
  handle_endpoint (handshake peer) = pure tt
  handle_endpoint (dht peers) = handle_dht peers
  handle_endpoint (hole h) = pure tt
  handle_endpoint hole_connect = pure tt
  handle_endpoint (core e_data) = handle_core_data g e_data
  handle_endpoint (relay_data from to bytes) = handle_relay_data from to bytes
  handle_endpoint (relay_handshake from_peer to) = handle_relay_handshake from_peer to
