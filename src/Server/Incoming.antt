-- ===== src/Server/Incoming.antt =====
-- src/server.rs: the loop over incoming connections and timers.
use chamomile.Prelude.{
  ℕ, Bool, true, false, ◌||◌, Option, none, some, List, [], ◌∷◌, equal, if◌then◌else◌,
}
use chamomile.Prelude.Act.{ignore, pure, when, ◌>>◌}
use chamomile.Types.Ids.{PeerId, PeerId-discrete}
use chamomile.Types.Socket.{SocketAddr}
use chamomile.Types.Peer.{Peer}
use chamomile.Types.Message.{ReceiveMessage}
use chamomile.Keys.Keypair.{peer_id}
use chamomile.Keys.Session.{SessionKey, complete}
use chamomile.Wire.Hole.{nat}
use chamomile.Wire.Endpoint.{RemotePublic, EndpointMessage}
use chamomile.Store.Buffer
use chamomile.Store.PeerList
use chamomile.Store.PeerList.{PeerList}
use chamomile.Store.Global.{Shared}
use chamomile.Session.State.{SessionMessage, direct, new_session, Global, spawn, complete_remote}
use chamomile.Server.State.{Serve, tell, tell_session, tell_endpoint, tell_outside, change}

pub record TransportRecvMessage : Type 0 where
  pub addr : SocketAddr
  pub remote : RemotePublic
  pub is_self : Option SessionKey
  pub stream_sender : ℕ
  pub stream_receiver : ℕ
  pub endpoint_sender : ℕ

-- `FutureResult`
pub data Event : Type 0 where
  trans : TransportRecvMessage → Event
  clear check : Event

unfoldable pub refuse : TransportRecvMessage → Serve Unit
refuse m = tell_endpoint m.endpoint_sender EndpointMessage.close

abbrev pub remote_peer : TransportRecvMessage → Peer
remote_peer m = nat m.addr m.remote.peer

-- the sessions that the timer closes are told, then the buffer is the swept one
unfoldable pub close_all : List ℕ → Serve Unit
close_all [] = pure tt
close_all (sender ∷ senders) = tell_session sender SessionMessage.close >> close_all senders

unfoldable pub handle_clear : Serve Unit
unfolding close_all
handle_clear s =
    let (closed, buffer) = Buffer.timer_clear s.buffer in
    (close_all closed >> change (λ (h : Shared). record h { buffer = buffer })) s

unfoldable pub handle_check : Serve Unit
handle_check s = when (PeerList.is_empty s.peers) (tell_outside ReceiveMessage.network_lost) s

module _ (g : Global) where
  abbrev pub remote_id : TransportRecvMessage → PeerId
  remote_id m = peer_id g.crypto m.remote.key

  -- 2
  unfoldable pub is_unwanted : PeerId → PeerList → Bool
  is_unwanted id l = equal PeerId-discrete id g.peer.id || PeerList.is_block_peer id l

module _ (g : Global) (recv_data : Bool) where
  -- 6 and 7: on what `add_dht` answered, with the channel of the new session
  unfoldable pub open_session : Bool → TransportRecvMessage → SessionKey → ℕ → Serve Unit
  unfolding refuse new_session
  open_session false m key channel s = refuse m s
  open_session true m key channel s =
      (tell_endpoint m.endpoint_sender
            (EndpointMessage.dht (PeerList.help_dht g.ids g.sockets (remote_id g m) s.peers))
          >> tell (
              spawn
                (new_session (remote_peer m) channel m.stream_receiver (direct m.endpoint_sender)
                  key recv_data)
                channel))
        s

  -- 4 and 5: on the session of a stable relay to the remote, if there is one
  unfoldable pub join : Option ℕ → TransportRecvMessage → SessionKey → Serve Unit
  unfolding open_session
  join (some ss) m key s =
      tell_session ss
        (SessionMessage.direct_incoming (remote_peer m) m.stream_sender m.stream_receiver
          m.endpoint_sender)
        s
  join none m key s =
      let channel = g.new_session_channel s.log in
      let (is_new, peers) =
        PeerList.add_dht g.ids g.sockets (g.draw_value_key s.log)
          (record { session = channel; stream = m.stream_sender; peer = remote_peer m }) s.peers in
      open_session is_new m key channel (record s { shared = record s.shared { peers = peers } })

  unfoldable pub admit : TransportRecvMessage → SessionKey → Serve Unit
  unfolding join
  admit m key s = join (PeerList.is_relay (remote_id g m) s.peers) m key s

  -- 3: the key of this side, or one that is made for the remote
  unfoldable pub own_key : Bool × SessionKey → TransportRecvMessage → Serve Unit
  unfolding refuse admit
  own_key (true, key) m = admit m key
  own_key (false, key) m = refuse m

  unfoldable pub made_key : Option (SessionKey × RemotePublic) → TransportRecvMessage → Serve Unit
  unfolding refuse admit
  made_key (some (key, remote_pk)) m =
      tell_endpoint m.endpoint_sender (EndpointMessage.handshake remote_pk) >> admit m key
  made_key none m = refuse m

  unfoldable pub agree_key : Option SessionKey → TransportRecvMessage → Serve Unit
  unfolding own_key made_key complete_remote
  agree_key (some key) m s = own_key (complete g.crypto key m.remote.key.pk m.remote.dh) m s
  agree_key none m s = made_key (complete_remote g m.remote.key m.remote.dh (g.draw s.log)) m s

  unfoldable pub handle_trans : TransportRecvMessage → Serve Unit
  unfolding refuse is_unwanted agree_key
  handle_trans m s =
      if PeerList.is_block_addr m.addr s.peers
      then refuse m s
      else if is_unwanted g (remote_id g m) s.peers
      then refuse m s
      else agree_key m.is_self m s

  unfoldable pub handle_event : Event → Serve Unit
  unfolding handle_trans handle_clear handle_check
  handle_event (trans m) = handle_trans m
  handle_event clear = handle_clear
  handle_event check = handle_check

  -- the loop on the events that `select!` yields
  unfoldable pub incoming : List Event → Serve Unit
  unfolding handle_event
  incoming [] = pure tt
  incoming (e ∷ events) = ignore (handle_event e) >> incoming events
