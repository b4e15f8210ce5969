-- ===== src/Server/Joining.antt =====
-- src/server.rs: an incoming connection that gets a session.
use chamomile.Prelude.{Bool, false, none, some, ◌≡◌}
use chamomile.Keys.Session.{SessionKey}
use chamomile.Wire.Endpoint.{RemotePublic, EndpointMessage}
use chamomile.Store.PeerList
use chamomile.Store.PeerList.{PeerList, Senders}
use chamomile.Kad.Double.{KadValue}
use chamomile.Session.State.{Global, to_endpoint, spawn, complete_remote, direct, new_session}
use chamomile.Server.State.{Server, told}
use chamomile.Server.Incoming.{TransportRecvMessage, remote_id, remote_peer, is_unwanted}

-- the state once the remote has the handshake
abbrev pub greeted : TransportRecvMessage → RemotePublic → Server → Server
greeted m remote_pk s = told (to_endpoint m.endpoint_sender (EndpointMessage.handshake remote_pk)) s

module _ (g : Global) where
  -- A connection that the node did not ask for, from a remote that is not blocked, not this node and
  -- not in a stable relay, whose key is completed to `key` and answered by `remote_pk`.
  pub record IsWelcome (m : TransportRecvMessage) (s : Server) (key : SessionKey)
      (remote_pk : RemotePublic) : Type 0 where
    pub free_addr : PeerList.is_block_addr m.addr s.peers ≡ false
    pub wanted : is_unwanted g (remote_id g m) s.peers ≡ false
    pub not_asked : m.is_self ≡ none
    pub agreed : complete_remote g m.remote.key m.remote.dh (g.draw s.log) ≡ some (key, remote_pk)
    pub no_relay : PeerList.is_relay (remote_id g m) s.peers ≡ none

  -- the entry of the remote, and the peers with it
  abbrev pub entry : TransportRecvMessage → Server → KadValue
  entry m s = record {
    session = g.new_session_channel s.log;
    stream = m.stream_sender;
    peer = remote_peer m;
  }

  abbrev pub met : TransportRecvMessage → Server → Bool × PeerList
  met m s = PeerList.add_dht g.ids g.sockets (g.draw_value_key s.log) (entry m s) s.peers

module _ (g : Global) (recv_data : Bool) where
  -- the state once the session of the remote runs
  abbrev pub joined : TransportRecvMessage → SessionKey → Server → Server
  joined m key s =
      let peers = (met g m s).1 in
      told
        (spawn
          (new_session (remote_peer m) (entry g m s).session m.stream_receiver
            (direct m.endpoint_sender) key recv_data)
          (entry g m s).session)
        (told
          (to_endpoint m.endpoint_sender
            (EndpointMessage.dht (PeerList.help_dht g.ids g.sockets (remote_id g m) peers)))
          (record s { shared = record s.shared { peers = peers } }))
