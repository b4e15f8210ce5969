-- ===== src/Server/Outside.antt =====
-- src/server.rs: the loop over the messages from outside.
use chamomile.Prelude.{
  ℕ, Bool, true, false, not, Option, none, some, List, [], ◌∷◌, map, equal, if◌then◌else◌,
}
use chamomile.Prelude.Bytes.{Bytes}
use chamomile.Prelude.Act.{ignore, pure, when, ◌>>◌}
use chamomile.Types.Ids.{PeerId, PeerId-discrete}
use chamomile.Types.Peer.{Peer, effective_socket}
use chamomile.Types.Message.{
  ReceiveMessage, data_delivery, stable_connect_delivery, stable_result_delivery, Broadcast, gossip,
  stable_all, StateRequest, StateResponse, SendMessage, delivery_split,
}
use chamomile.Store.Buffer
use chamomile.Store.Buffer.{Buffer}
use chamomile.Store.PeerList
use chamomile.Store.PeerList.{Senders}
use chamomile.Store.PeerList.All
use chamomile.Store.Global.{Shared}
use chamomile.Session.State.{SessionMessage, Global, answer, direct_task, relay_task}
use chamomile.Server.State.{Serve, tell, tell_session, tell_outside, change, tell_delivery, dial}

-- the task that connects to a peer, by its address or through the session `ss`
unfoldable pub start_stable : ℕ → Bytes → Peer → ℕ → Serve Unit
start_stable tid delivery to ss =
    tell
      (if effective_socket to then direct_task tid delivery to else relay_task tid delivery to ss)

-- 5: whether a queue of the peer was there, and the buffer
unfoldable pub start_or_wait : Bool × Buffer → ℕ → Bytes → Peer → ℕ → Serve Unit
unfolding start_stable
start_or_wait (had, buffer) tid delivery to ss =
    change (λ (h : Shared). record h { buffer = buffer })
    >> when (not had) (start_stable tid delivery to ss)

unfoldable pub disconnect_from : Option Senders → Serve Unit
disconnect_from none = pure tt
disconnect_from (some found) = when found.is_it (tell_session found.session SessionMessage.close)

unfoldable pub send_each : List ℕ → Bytes → Serve Unit
send_each [] bytes = pure tt
send_each (sender ∷ senders) bytes =
    tell_session sender (SessionMessage.payload 0 bytes) >> send_each senders bytes

unfoldable pub network_state : StateRequest → PeerList.PeerList → StateResponse
network_state StateRequest.stable l =
    StateResponse.stable (map (λ (e : PeerId × (ℕ × Bool)). (e.0, e.1.1)) (All.stable_all l))
network_state StateRequest.dht l = StateResponse.dht (All.dht_keys l)
network_state StateRequest.seed l = StateResponse.seed (PeerList.bootstrap l)

module _ (g : Global) where
  abbrev pub is_self : PeerId → Bool
  is_self id = equal PeerId-discrete id g.peer.id

  -- 3 and 4 of `StableConnect`, on the session in the buffer
  unfoldable pub connect_by : Option ℕ → ℕ → Peer → Bytes → ℕ → Serve Unit
  unfolding start_or_wait
  connect_by (some sender) tid to bytes ss s =
      tell_session sender (SessionMessage.stable_connect tid bytes) s
  connect_by none tid to bytes ss s =
      start_or_wait (Buffer.add_connect to.id tid bytes s.buffer) tid
        (delivery_split bytes g.delivery_length) to ss s

  -- 1 and 2 of `StableConnect`
  unfoldable pub connect_to : Option Senders → ℕ → Peer → Bytes → Serve Unit
  unfolding connect_by tell_delivery
  connect_to none tid to bytes s = tell_delivery g stable_connect_delivery tid false bytes s
  connect_to (some found) tid to bytes s =
      if found.is_it
      then tell_session found.session (SessionMessage.stable_connect tid bytes) s
      else connect_by (Buffer.get_tmp_session to.id s.buffer) tid to bytes found.session s

  unfoldable pub handle_stable_connect : ℕ → Peer → Bytes → Serve Unit
  unfolding connect_to tell_delivery
  handle_stable_connect tid to bytes s =
      if is_self to.id
      then tell_delivery g stable_connect_delivery tid false bytes s
      else connect_to (PeerList.get g.ids g.sockets to.id s.peers) tid to bytes s

  -- 4 and 5 of `StableResult`
  unfoldable pub result_by : Option ℕ → ℕ → Peer → Bool → Bool → Bytes → ℕ → Serve Unit
  unfolding start_or_wait
  result_by (some sender) tid to is_ok is_force bytes ss s =
      tell_session sender (SessionMessage.stable_result tid is_ok is_force bytes) s
  result_by none tid to is_ok is_force bytes ss s =
      start_or_wait (Buffer.add_result to.id tid bytes s.buffer) tid
        (delivery_split bytes g.delivery_length) to ss s

  -- 2 and 3
  unfoldable pub result_to : Option Senders → ℕ → Peer → Bool → Bool → Bytes → Serve Unit
  unfolding result_by tell_delivery
  result_to none tid to is_ok is_force bytes s =
      tell_delivery g stable_result_delivery tid false bytes s
  result_to (some found) tid to is_ok is_force bytes s =
      if found.is_it
      then tell_session found.session (SessionMessage.stable_result tid is_ok is_force bytes) s
      else when is_ok
          (λ t.
            result_by (Buffer.get_tmp_session to.id t.buffer) tid to is_ok is_force bytes
              found.session t)
          s

  -- 1: on the session in the buffer
  unfoldable pub result_tmp : Option ℕ → ℕ → Peer → Bool → Bool → Bytes → Serve Unit
  unfolding result_to
  result_tmp (some sender) tid to is_ok is_force bytes s =
      tell_session sender (SessionMessage.stable_result tid is_ok is_force bytes) s
  result_tmp none tid to is_ok is_force bytes s =
      result_to (PeerList.get g.ids g.sockets to.id s.peers) tid to is_ok is_force bytes s

  unfoldable pub handle_stable_result : ℕ → Peer → Bool → Bool → Bytes → Serve Unit
  unfolding result_tmp tell_delivery
  handle_stable_result tid to is_ok is_force bytes s =
      if is_self to.id
      then tell_delivery g stable_result_delivery tid false bytes s
      else result_tmp (Buffer.get_tmp_session to.id s.buffer) tid to is_ok is_force bytes s

  unfoldable pub data_to : Option Senders → ℕ → PeerId → Bytes → Serve Unit
  unfolding tell_delivery
  data_to none tid to bytes = tell_delivery g data_delivery tid false bytes
  data_to (some found) tid to bytes = tell_session found.session (
      if found.is_it
      then SessionMessage.payload tid bytes
      else SessionMessage.relay_data g.peer.id to bytes)

  unfoldable pub handle_data : ℕ → PeerId → Bytes → Serve Unit
  unfolding data_to tell_delivery
  handle_data tid to bytes s =
      if is_self to
      then (tell_delivery g data_delivery tid true bytes
            >> tell_outside (ReceiveMessage.payload to bytes))
          s
      else data_to (PeerList.get g.ids g.sockets to s.peers) tid to bytes s

  unfoldable pub handle_broadcast : Broadcast → Bytes → Serve Unit
  unfolding send_each
  handle_broadcast stable_all bytes s =
      send_each (map (λ (e : PeerId × (ℕ × Bool)). e.1.0) (All.stable_all s.peers)) bytes s
  handle_broadcast gossip bytes s =
      send_each (map (λ (e : PeerId × ℕ). e.1) (All.all g.ids g.sockets s.peers)) bytes s

  unfoldable pub dial_all : List Peer → Serve Unit
  unfolding dial
  dial_all [] = pure tt
  dial_all (p ∷ peers) = dial g p >> dial_all peers

  unfoldable pub handle_send : SendMessage → Serve Unit
  unfolding handle_stable_connect handle_stable_result disconnect_from handle_data handle_broadcast
      network_state dial dial_all
  handle_send (SendMessage.stable_connect tid to bytes) s = handle_stable_connect tid to bytes s
  handle_send (SendMessage.stable_result tid to is_ok is_force bytes) s =
      handle_stable_result tid to is_ok is_force bytes s
  handle_send (SendMessage.stable_disconnect id) s =
      disconnect_from (PeerList.get g.ids g.sockets id s.peers) s
  handle_send (SendMessage.connect peer) s = dial g peer s
  handle_send (SendMessage.disconnect peer) s =
      change (λ (h : Shared). record h { peers = PeerList.peer_disconnect peer.socket h.peers }) s
  handle_send (SendMessage.payload tid to bytes) s = handle_data tid to bytes s
  handle_send (SendMessage.broadcast b bytes) s = handle_broadcast b bytes s
  handle_send (SendMessage.stream symbol stream_type bytes) s = pure tt s
  handle_send (SendMessage.network_state req res_sender) s =
      tell (answer res_sender (network_state req s.peers)) s
  handle_send SendMessage.network_reboot s = dial_all (PeerList.bootstrap s.peers) s

  -- the loop on the messages that come from outside
  unfoldable pub outside_loop : List SendMessage → Serve Unit
  unfolding handle_send
  outside_loop [] = pure tt
  outside_loop (msg ∷ msgs) = ignore (handle_send msg) >> outside_loop msgs
