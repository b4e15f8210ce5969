-- ===== src/Server/Invariant/Incoming.antt =====
-- src/server.rs: the loop over incoming connections under the predicate of Server/Invariant.
use chamomile.Prelude.{
  ℕ, Bool, true, false, Option, none, some, List, [], ◌∷◌, ◌≡◌, refl, sym, ap, ◌∙◌, Bool-cases, inl,
  inr,
}
use chamomile.Prelude.Keeps.{Keeps, >>-Keeps, when-Keeps}
use chamomile.Types.Message.{ReceiveMessage}
use chamomile.Keys.Session.{SessionKey, complete}
use chamomile.Wire.Endpoint.{RemotePublic}
use chamomile.Kad.Double.{KadValue}
use chamomile.Store.Buffer
use chamomile.Store.Buffer.{Buffer, get_tmp_session}
use chamomile.Store.PeerList
use chamomile.Store.PeerList.{PeerList, Senders}
use chamomile.Types.Ids.{PeerId}
use chamomile.Types.Socket.{IpAddr, SocketAddr}
use chamomile.Wire.Endpoint.{EndpointMessage}
use chamomile.Keys.Session.{Drawn}
use chamomile.Session.State.{to_endpoint, new_session}
use chamomile.Server.State.{Server, told}
use chamomile.Store.Meeting.{blocks_of, add_dht-IsDouble, add_dht-blocks}
use chamomile.Store.Global.{Shared}
use chamomile.Store.Kept.{timer_clear-IsBuffer}
use chamomile.Session.State.{SessionMessage, Global, complete_remote}
use chamomile.Server.State.{tell_session, tell_outside, change}
use chamomile.Server.Incoming.{
  TransportRecvMessage, Event, trans, clear, check, refuse, close_all, handle_clear, handle_check,
  remote_id, remote_peer, is_unwanted, open_session, join, admit, own_key, made_key, agree_key,
  handle_trans, handle_event,
}
use chamomile.Server.Invariant.{IsAgreed, IsLetIn, IsServer, told-IsServer, with_buffer-Keeps}

is_block_addr-blocks :
    (a : SocketAddr) (l start : PeerList)
    → blocks_of l ≡ blocks_of start
    → PeerList.is_block_addr a l ≡ PeerList.is_block_addr a start
unfolding PeerList.is_block_addr
is_block_addr-blocks a l start e =
    ap
      (λ (b : List PeerId × List IpAddr). PeerList.is_block_addr a (record l { block_addrs = b.1 }))
      e

is_unwanted-blocks :
    (g : Global) (id : PeerId) (l start : PeerList)
    → blocks_of l ≡ blocks_of start
    → is_unwanted g id l ≡ is_unwanted g id start
unfolding is_unwanted PeerList.is_block_peer
is_unwanted-blocks g id l start e =
    ap (λ (b : List PeerId × List IpAddr). is_unwanted g id (record l { block_peers = b.0 })) e

module _ (g : Global) (came : TransportRecvMessage → Type 0) (start : PeerList)
    (recv_data : Bool) where
  abbrev Fine : Server → Type 0
  Fine = IsServer g came start

  -- a connection that is let in, with the key that both sides agreed on
  abbrev Passed : TransportRecvMessage → SessionKey → Type 0
  Passed m key = IsLetIn g came start m × IsAgreed g came start m key

  refuse-Keeps : (m : TransportRecvMessage) → Keeps Fine (refuse m)
  unfolding refuse
  refuse-Keeps m s h = told-IsServer g came start _ tt s h

  -- 6 and 7 of the incoming loop
  open_session-Keeps :
      (b : Bool) (m : TransportRecvMessage) (key : SessionKey) (channel : ℕ)
      → Passed m key
      → Keeps Fine (open_session g recv_data b m key channel)
  unfolding open_session new_session
  open_session-Keeps true m key channel p s h =
      let dht = EndpointMessage.dht (PeerList.help_dht g.ids g.sockets (remote_id g m) s.peers) in
      told-IsServer g came start _ (m, p.0, p.1, refl, refl)
        (told (to_endpoint m.endpoint_sender dht) s)
        (told-IsServer g came start (to_endpoint m.endpoint_sender dht) tt s h)
  open_session-Keeps false m key channel p s h = refuse-Keeps m s h

  join-Keeps :
      (o : Option ℕ) (m : TransportRecvMessage) (key : SessionKey)
      → Passed m key
      → Keeps Fine (join g recv_data o m key)
  unfolding join
  join-Keeps (some ss) m key p s h = told-IsServer g came start _ tt s h
  join-Keeps none m key p s h =
      let channel = g.new_session_channel s.log in
      let v : KadValue = record {
        session = channel;
        stream = m.stream_sender;
        peer = remote_peer m;
      } in
      let (is_new, peers) = PeerList.add_dht g.ids g.sockets (g.draw_value_key s.log) v s.peers in
      open_session-Keeps is_new m key channel p
        (record s { shared = record s.shared { peers = peers } })
        (record {
          trees = add_dht-IsDouble g.ids g.sockets (g.draw_value_key s.log) v s.peers h.trees;
          maps = h.maps;
          blocks = add_dht-blocks g.ids g.sockets (g.draw_value_key s.log) v s.peers ∙ h.blocks;
          sent = h.sent;
        })

  admit-Keeps :
      (m : TransportRecvMessage) (key : SessionKey)
      → Passed m key
      → Keeps Fine (admit g recv_data m key)
  unfolding admit
  admit-Keeps m key p s h = join-Keeps (PeerList.is_relay (remote_id g m) s.peers) m key p s h

  own_key-Keeps :
      (r : Bool × SessionKey) (m : TransportRecvMessage) (mine : SessionKey)
      → IsLetIn g came start m
      → m.is_self ≡ some mine
      → complete g.crypto mine m.remote.key.pk m.remote.dh ≡ r
      → Keeps Fine (own_key g recv_data r m)
  unfolding own_key
  own_key-Keeps (true, key) m mine p i e s h = admit-Keeps m key (p, IsAgreed.own mine i e) s h
  own_key-Keeps (false, key) m mine p i e s h = refuse-Keeps m s h

  made_key-Keeps :
      (o : Option (SessionKey × RemotePublic)) (m : TransportRecvMessage) (drawn : Drawn)
      → IsLetIn g came start m
      → m.is_self ≡ none
      → complete_remote g m.remote.key m.remote.dh drawn ≡ o
      → Keeps Fine (made_key g recv_data o m)
  unfolding made_key
  made_key-Keeps none m drawn p i e s h = refuse-Keeps m s h
  made_key-Keeps (some (key, remote_pk)) m drawn p i e s h =
      let hello = to_endpoint m.endpoint_sender (EndpointMessage.handshake remote_pk) in
      admit-Keeps m key (p, IsAgreed.made drawn remote_pk i e) (told hello s)
        (told-IsServer g came start hello tt s h)

  agree_key-Keeps :
      (o : Option SessionKey) (m : TransportRecvMessage)
      → IsLetIn g came start m
      → m.is_self ≡ o
      → Keeps Fine (agree_key g recv_data o m)
  unfolding agree_key
  agree_key-Keeps (some key) m p i s h =
      own_key-Keeps (complete g.crypto key m.remote.key.pk m.remote.dh) m key p i refl s h
  agree_key-Keeps none m p i s h =
      made_key-Keeps (complete_remote g m.remote.key m.remote.dh (g.draw s.log)) m (g.draw s.log) p
        i refl s h

  handle_trans-Keeps : (m : TransportRecvMessage) → came m → Keeps Fine (handle_trans g recv_data m)
  unfolding handle_trans
  handle_trans-Keeps m i s h = elim (Bool-cases (PeerList.is_block_addr m.addr s.peers)) [
    | inl a ↦ rw a (refuse-Keeps m s h)
    | inr a ↦ elim (Bool-cases (is_unwanted g (remote_id g m) s.peers)) [
      | inl b ↦ rw (a, b) (refuse-Keeps m s h)
      | inr b ↦
          rw (a, b)
            (agree_key-Keeps m.is_self m
              (record {
                arrived = i;
                free = sym (is_block_addr-blocks m.addr s.peers start h.blocks) ∙ a;
                wanted = sym (is_unwanted-blocks g (remote_id g m) s.peers start h.blocks) ∙ b;
              })
              refl s h)
    ]
  ]

  close_all-Keeps : (senders : List ℕ) → Keeps (Fine) (close_all senders)
  unfolding close_all
  close_all-Keeps [] s h = h
  close_all-Keeps (n ∷ senders) s h =
      >>-Keeps (Fine) (tell_session n SessionMessage.close) (close_all senders)
        (told-IsServer g came start _ tt) (close_all-Keeps senders) s h

  -- the connection of an event came
  abbrev pub CameIn : Event → Type 0
  CameIn (trans m) = came m
  CameIn clear = Unit
  CameIn check = Unit

  pub handle_event-Keeps : (e : Event) → CameIn e → Keeps Fine (handle_event g recv_data e)
  unfolding handle_event handle_clear handle_check
  handle_event-Keeps (trans m) i s h = handle_trans-Keeps m i s h
  handle_event-Keeps check i s h =
      when-Keeps (Fine) (PeerList.is_empty s.peers) (tell_outside ReceiveMessage.network_lost)
        (told-IsServer g came start _ tt) s h
  handle_event-Keeps clear i s h =
      let (closed, buffer) = Buffer.timer_clear s.buffer in
      >>-Keeps (Fine) (close_all closed) (change (λ (x : Shared). record x { buffer = buffer }))
        (close_all-Keeps closed)
        (with_buffer-Keeps g came start buffer (timer_clear-IsBuffer s.buffer h.maps)) s h
