-- ===== src/Server/Invariant.antt =====
-- src/server.rs: a predicate on the state of the server, and what keeps it.
pub mod Incoming
pub mod Outside
pub mod Both
use chamomile.Prelude.{
  ℕ, Bool, true, false, not, ◌==◌, Option, none, some, List, [], ◌∷◌, ◌++◌, ◌≡◌, refl, sym, ap, ◌∙◌,
  subst, map, if◌then◌else◌, All, All-append,
}
use chamomile.Prelude.Bytes.{Bytes}
use chamomile.Prelude.Result.{Result, ok, err}
use chamomile.Prelude.Act.{◌>>◌, ignore, pure, when}
use chamomile.Prelude.Keeps.{Keeps, >>-Keeps, ignore-Keeps, when-Keeps, ite-Keeps}
use chamomile.Types.Ids.{PeerId, PeerId-discrete}
use chamomile.Types.Socket.{SocketAddr}
use chamomile.Types.Peer.{Peer}
use chamomile.Types.Message.{
  DeliveryType, ReceiveMessage, Broadcast, gossip, stable_all, SendMessage, delivery_split,
  data_delivery, stable_connect_delivery, stable_result_delivery,
}
use chamomile.Keys.Session.{SessionKey, complete}
use chamomile.Wire.Endpoint.{RemotePublic, EndpointMessage}
use chamomile.Kad.Double.{KadValue, DoubleKadTree}
use chamomile.Kad.Double.Adding.{IsDouble, add-IsDouble}
use chamomile.Store.Buffer
use chamomile.Store.Buffer.{Buffer, get_tmp_session}
use chamomile.Store.PeerList
use chamomile.Store.PeerList.{PeerList, Senders}
use chamomile.Store.PeerList.All
use chamomile.Session.State.{Session, direct, spawn}
use chamomile.Keys.Session.{Drawn}
use chamomile.Store.Meeting.{blocks_of, add_dht-IsDouble, peer_disconnect-dhts}
use chamomile.Store.Global.{Shared}
use chamomile.Store.Sweep.{IsBuffer}
use chamomile.Store.Kept.{add_connect-IsBuffer, add_result-IsBuffer, timer_clear-IsBuffer}
use chamomile.Session.State.{
  SessionMessage, Global, Effect, to_session, complete_remote, generate_remote,
}
use chamomile.Server.State.{
  Server, Serve, tell, told, tell_session, tell_outside, change, tell_delivery, dial, dial_with,
}
use chamomile.Server.Incoming.{
  TransportRecvMessage, Event, trans, clear, check, refuse, close_all, handle_clear, handle_check,
  remote_id, remote_peer, is_unwanted, open_session, join, admit, own_key, made_key, agree_key,
  handle_trans, handle_event,
}
use chamomile.Server.Outside.{
  start_stable, start_or_wait, connect_by, connect_to, handle_stable_connect, result_by, result_to,
  result_tmp, handle_stable_result, disconnect_from, data_to, handle_data, send_each,
  handle_broadcast, dial_all, handle_send,
}

-- The connections that came and the lists of the node that started are arguments.
module _ (g : Global) (came : TransportRecvMessage → Type 0) (start : PeerList) where
  -- the key of this side, completed with what the remote sent, or one that is made for the remote
  pub data IsAgreed (m : TransportRecvMessage) (key : SessionKey) : Type 0 where
    own :
        (mine : SessionKey)
        → m.is_self ≡ some mine
        → complete g.crypto mine m.remote.key.pk m.remote.dh ≡ (true, key)
        → IsAgreed m key
    made :
        (drawn : Drawn) (remote_pk : RemotePublic)
        → m.is_self ≡ none
        → complete_remote g m.remote.key m.remote.dh drawn ≡ some (key, remote_pk)
        → IsAgreed m key

  -- A connection that came from an address that is not blocked, whose key has an id that is neither
  -- blocked nor that of this node.
  pub record IsLetIn (m : TransportRecvMessage) : Type 0 where
    pub arrived : came m
    pub free : PeerList.is_block_addr m.addr start ≡ false
    pub wanted : is_unwanted g (remote_id g m) start ≡ false

  -- A session that the server may start: for a connection that is let in, with its peer and its
  -- endpoint, and with a key that both sides agreed on.
  abbrev pub IsGuarded : Session → Type 0
  IsGuarded x =
      (m : TransportRecvMessage) × IsLetIn m
      × IsAgreed m x.session_key
      × (x.remote_peer ≡ remote_peer m)
      × (x.endpoint ≡ direct m.endpoint_sender)

  abbrev pub Allowed : Effect → Type 0
  Allowed (spawn x channel) = IsGuarded x
  Allowed e = Unit

  -- The trees of the met peers are well-formed, each map of the buffer has a key once, what is blocked
  -- is as it was, and every session that was started is one that may be.
  pub record IsServer (s : Server) : Type 0 where
    pub trees : IsDouble g.ids g.sockets s.peers.dhts
    pub maps : IsBuffer s.buffer
    pub blocks : blocks_of s.peers ≡ blocks_of start
    pub sent : All Allowed s.log

  pub told-IsServer : (e : Effect) → Allowed e → Keeps IsServer (tell e)
  told-IsServer e a s h = record {
    trees = h.trees;
    maps = h.maps;
    blocks = h.blocks;
    sent = All-append Allowed s.log (e ∷ []) h.sent (a, tt);
  }

  pub with_buffer-Keeps :
      (b : Buffer) → IsBuffer b → Keeps IsServer (change (λ (x : Shared). record x { buffer = b }))
  with_buffer-Keeps b hb s h = record {
    trees = h.trees;
    maps = hb;
    blocks = h.blocks;
    sent = h.sent;
  }
