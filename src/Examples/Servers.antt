-- ===== src/Examples/Servers.antt =====
-- A server that meets, refuses and connects peers.
use chamomile.Prelude.Map.{get}
use chamomile.Prelude.{
  ℕ, true, false, none, some, List, [], ◌∷◌, ◌++◌, ◌≡◌, equal, refl, arith, replicate, String,
  ℕ_discrete,
}
use chamomile.Prelude.Result.{ok, err}
use chamomile.Types.Ids.{PeerId, PeerId-discrete}
use chamomile.Types.Peer.{Peer, effective_socket}
use chamomile.Keys.Keypair.{
  public, peer_id, keypair_sign, pk_len, dh_pk_len, sign_len, key_verify, key_dh,
}
use chamomile.Keys.Session.{SessionKey, complete, out_bytes, generate_session_key, session_key}
use chamomile.Wire.Endpoint.{RemotePublic, EndpointMessage}
use chamomile.Store.Buffer as Buffer
use chamomile.Store.Buffer.{remove_connect}
use chamomile.Store.PeerList
use chamomile.Store.PeerList.{PeerList}
use chamomile.Session.State.{SessionMessage, Global, to_endpoint, to_session, generate_remote}
use chamomile.Server.State.{Server, told, in_session}
use chamomile.Server.Incoming.{TransportRecvMessage, handle_trans, remote_id}
use chamomile.Server.Refusing.{IsRefused, handle_trans_refuses}
use chamomile.Server.Joining.{greeted, entry}
use chamomile.Store.PeerList.{add_dht, dht_get, senders}
use chamomile.Server.Connecting.{IsApart, waits, connects_of}
use chamomile.Types.Message.{SendMessage}
use chamomile.Server.Incoming.{Event}
use chamomile.Server.Outside.{outside_loop}
use chamomile.Server.Answering as Answering
use chamomile.Server.Invariant.Both.{Input}
use chamomile.Session.Stable.{Arrivals, relay_result_of, direct_stable, relay_stable, handshake_of}
use chamomile.Session.Opening.{IsAnswered, asked, opened_session, connected, connect_messages}
use chamomile.Session.Upgrading.{stable_session, made_stable}
use chamomile.Session.Run.{listen}
use chamomile.Session.Opening as Opening
use chamomile.Session.Sending.{started, start_of, outside_loop-direct_stable}
use chamomile.Session.Failing.{IsUnanswered, IsCleared, reported, relay_stable_fails}
use chamomile.Prelude.Map
use chamomile.Kad.Distance.{Key, calc_distance, xor, neq, head_bit, tail_bits, get_bit, bit}
use chamomile.Kad.Node.{
  insert, insert_step, insert_leaf, scan_same, remove_found, present, left_of, right_of, list_of,
}
use chamomile.Kad.Lookup
use chamomile.Kad.Tree.{new_tree, settle, tree_add, tree_search}
use chamomile.Kad.Double
use chamomile.Kad.Double.{new_double}
use chamomile.Store.PeerList.{stable_get, add_bootstrap, save}
use chamomile.Examples.Stores.{value_of}
use chamomile.Examples.{pair, id_of, socket_of, peer_of}
use chamomile.Examples.Sessions.{ids, sockets, peers_of, node_of, fresh}

-- the id of every key under the toy hash
abbrev toy_id : PeerId
toy_id = record { raw = replicate 32 3 }

abbrev remote_of : ℕ → RemotePublic
remote_of n = record { key = public (pair n); peer = peer_of n; dh = out_bytes (fresh n) }

abbrev incoming_of : ℕ → TransportRecvMessage
incoming_of n = record {
  addr = socket_of n;
  remote = remote_of n;
  is_self = none;
  stream_sender = 30;
  stream_receiver = 31;
  endpoint_sender = 32;
}

abbrev blocking : Server
blocking = record {
  shared = record {
    buffer = Buffer.init;
    peers = record (peers_of 4) { block_peers = toy_id ∷ [] };
  };
  log = [];
}

toy_id_blocked :
    PeerList.is_block_peer (remote_id (node_of 4) (incoming_of 5)) blocking.peers ≡ true
unfolding PeerList.is_block_peer peer_id public
toy_id_blocked = ground arith

handle_trans_refuses_example :
    handle_trans (node_of 4) true (incoming_of 5) blocking
    ≡ (ok tt, told (to_endpoint 32 EndpointMessage.close) blocking)
handle_trans_refuses_example =
    handle_trans_refuses (node_of 4) true (incoming_of 5) blocking
      (IsRefused.blocked_id toy_id_blocked)

abbrev empty : Server
empty = record { shared = record { buffer = Buffer.init; peers = peers_of 4 }; log = [] }

abbrev agreed_key : SessionKey
agreed_key = record (fresh 4) { cipher = replicate 32 3; nonce = replicate 12 5; is_ok = true }

abbrev answer_pk : RemotePublic
answer_pk = record { key = public (pair 4); peer = peer_of 4; dh = out_bytes agreed_key }

abbrev greeted_server : Server
greeted_server = greeted (incoming_of 5) answer_pk empty

-- an order in which every distance is closer
abbrev near_ids : Key PeerId
near_ids = record ids { closer = λ a b. true }

abbrev near_node : Global
near_node = record (node_of 4) { ids = near_ids }

-- a peer that the node reaches through peer 7
abbrev far : Peer
far = record (peer_of 5) { id = toy_id }

abbrev near_seven : Server
near_seven = record {
  shared = record {
    buffer = Buffer.init;
    peers = (add_dht near_ids sockets 9 (value_of 7) (peers_of 4)).1;
  };
  log = [];
}

-- the bytes that node 5 answers a handshake with
abbrev handshake_back : RemotePublic
handshake_back = record (remote_of 5) { peer = far }

abbrev arrivals : Arrivals
arrivals = record {
  on_stream = some (EndpointMessage.handshake handshake_back);
  on_session = some SessionMessage.close;
  events = [];
}

seven_other : equal PeerId-discrete (id_of 7) toy_id ≡ false
seven_other = ground arith

seven_near :
    PeerList.get near_ids sockets toy_id near_seven.peers ≡ some (senders (value_of 7) false)
unfolding PeerList.get stable_get dht_get Double.search tree_search Lookup.search Lookup.answer
    Lookup.scan_closest Double.remove_values Map.insert Map.get add_dht add_bootstrap save
    Double.add new_double tree_add new_tree settle insert insert_step insert_leaf scan_same
    remove_found present left_of right_of list_of calc_distance xor neq head_bit tail_bits get_bit
    bit ℕ_discrete
seven_near = rw seven_other refl

apart : IsApart near_node far (senders (value_of 7) false) near_seven
unfolding senders Buffer.get_tmp_session get
apart = record { other = ground arith; near = seven_near; not_it = refl; no_tmp = refl }

nothing_waits : waits toy_id near_seven.buffer ≡ false
unfolding waits get
nothing_waits = refl

abbrev started_server : Server
started_server = started near_node far 6 (1 ∷ []) ((8, 2 ∷ []) ∷ []) near_seven

abbrev first_pk : RemotePublic
first_pk = record { key = public (pair 4); peer = peer_of 4; dh = out_bytes (fresh 4) }

drawn_key : generate_remote near_node (near_node.draw near_seven.log) ≡ ok (fresh 4, first_pk)
unfolding generate_remote generate_session_key session_key keypair_sign
drawn_key = refl

-- the relay answers for a peer that is not the one that the task is for
abbrev for_nine : Peer
for_nine = record (peer_of 9) { id = id_of 9 }

abbrev relayed : Arrivals
relayed = record {
  on_stream = none;
  on_session = some (SessionMessage.relay_result (remote_of 5) 7);
  events = [];
}

unanswered : IsUnanswered near_node for_nine (relay_result_of relayed.on_session) (fresh 4)
unfolding relay_result_of peer_id
unanswered = IsUnanswered.unknown (remote_of 5) 7 (fresh 4) (λ e. ground arith)

answered :
    IsAnswered near_node far arrivals started_server handshake_back (fresh 4) agreed_key first_pk
unfolding generate_remote generate_session_key session_key keypair_sign handshake_of peer_id
    complete pk_len public dh_pk_len sign_len out_bytes key_verify key_dh
answered = record {
  drawn = refl;
  answer = refl;
  is_to = refl;
  same_id = refl;
  other = λ e. ground arith;
  agreed = refl;
}

far_effective : effective_socket far ≡ true
unfolding effective_socket
far_effective = ground arith

outside_loop-direct_stable_example :
    let s' = started_server in
    let t = connected near_node far handshake_back agreed_key first_pk s' in
    let v = Opening.entry near_node far handshake_back first_pk s' in
    let u = made_stable toy_id v t in
    (outside_loop near_node
        (connects_of near_node far (senders (value_of 7) false) ((6, 1 ∷ []) ∷ (8, 2 ∷ []) ∷ []))
        near_seven
      ≡ (ok tt, s'))
    × (t.log
        ≡ (asked near_node far first_pk s').log
          ++ connect_messages near_node 102 agreed_key ((6, 1 ∷ []) ∷ (8, 2 ∷ []) ∷ []))
    × ((remove_connect toy_id u.buffer).0 ≡ [])
    × (PeerList.get near_ids sockets toy_id u.peers ≡ some (senders v true))
    × (direct_stable near_node 6 (start_of near_node (1 ∷ [])) far true arrivals s'
        ≡ in_session
            (stable_session
              (opened_session near_node far true handshake_back agreed_key first_pk s'))
            (listen near_node [])
            u)
outside_loop-direct_stable_example =
    outside_loop-direct_stable near_node (λ l e. refl) far (senders (value_of 7) false) 6 (1 ∷ [])
      ((8, 2 ∷ []) ∷ []) true arrivals near_seven handshake_back (fresh 4) agreed_key first_pk apart
      far_effective nothing_waits answered

relay_stable_fails_example :
    let s' = (relay_stable near_node 6 (1 ∷ []) for_nine true relayed 7 near_seven).1 in
    (e : String) × ((relay_stable near_node 6 (1 ∷ []) for_nine true relayed 7 near_seven).0
      ≡ err e)
    × IsCleared (id_of 9) s'.buffer
    × (s'.peers ≡ near_seven.peers)
    × (s'.log
        ≡ reported near_node for_nine unanswered 6
            (1 ∷ [])
            (to_session 7 (SessionMessage.relay_connect first_pk (id_of 9)) ∷ []))
relay_stable_fails_example =
    relay_stable_fails near_node 6 (1 ∷ []) for_nine true relayed (λ l e. refl) 7 near_seven
      (fresh 4) first_pk drawn_key unanswered

-- connections, timers and messages in some order
abbrev inputs : List Input
inputs =
    Input.event (Event.trans (incoming_of 5))
    ∷ Input.event Event.clear
    ∷ Input.message (SendMessage.stable_connect 6 far (1 ∷ []))
    ∷ Input.event Event.check
    ∷ Input.message SendMessage.network_reboot
    ∷ []
