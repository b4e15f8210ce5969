-- ===== src/Server/Invariant/Outside.antt =====
-- src/server.rs: the loop over messages from outside under the predicate of Server/Invariant.
use chamomile.Prelude.{
  ℕ, Bool, true, false, not, ◌==◌, Option, none, some, List, [], ◌∷◌, sym, ◌∙◌, subst, map,
  if◌then◌else◌,
}
use chamomile.Prelude.Bytes.{Bytes}
use chamomile.Prelude.Result.{Result, ok, err}
use chamomile.Prelude.Act.{◌>>◌, when}
use chamomile.Prelude.Keeps.{Keeps, >>-Keeps, when-Keeps, ite-Keeps}
use chamomile.Types.Ids.{PeerId}
use chamomile.Types.Peer.{Peer, effective_socket}
use chamomile.Types.Message.{
  DeliveryType, ReceiveMessage, Broadcast, gossip, stable_all, SendMessage, data_delivery,
  stable_connect_delivery, stable_result_delivery,
}
use chamomile.Keys.Session.{SessionKey}
use chamomile.Wire.Endpoint.{RemotePublic}
use chamomile.Kad.Double.Adding.{IsDouble}
use chamomile.Store.Buffer
use chamomile.Store.Buffer.{Buffer, get_tmp_session}
use chamomile.Store.PeerList
use chamomile.Store.PeerList.{PeerList, Senders}
use chamomile.Store.PeerList.All
use chamomile.Store.Meeting.{peer_disconnect-dhts, peer_disconnect-blocks}
use chamomile.Store.Global.{Shared}
use chamomile.Store.Sweep.{IsBuffer}
use chamomile.Store.Kept.{add_connect-IsBuffer, add_result-IsBuffer}
use chamomile.Session.State.{
  SessionMessage, Global, to_session, generate_remote, direct_task, relay_task,
}
use chamomile.Server.State.{
  Server, Serve, tell_session, tell_outside, change, tell_delivery, dial, dial_with,
}
use chamomile.Server.Incoming.{TransportRecvMessage}
use chamomile.Server.Outside.{
  start_stable, start_or_wait, connect_by, connect_to, handle_stable_connect, result_by, result_to,
  result_tmp, handle_stable_result, disconnect_from, data_to, handle_data, send_each, is_self,
  handle_broadcast, dial_all, handle_send,
}
use chamomile.Server.Invariant.{Allowed, IsServer, told-IsServer, with_buffer-Keeps}

module _ (g : Global) (came : TransportRecvMessage → Type 0) (start : PeerList) where
  abbrev Fine : Server → Type 0
  Fine = IsServer g came start

  task-Allowed :
      (b : Bool) (tid : ℕ) (delivery : Bytes) (to : Peer) (ss : ℕ)
      → Allowed g came start
          (if b then direct_task tid delivery to else relay_task tid delivery to ss)
  task-Allowed true tid delivery to ss = tt
  task-Allowed false tid delivery to ss = tt

  start_or_wait-Keeps :
      (r : Bool × Buffer) (tid : ℕ) (delivery : Bytes) (to : Peer) (ss : ℕ)
      → IsBuffer r.1
      → Keeps Fine (start_or_wait r tid delivery to ss)
  unfolding start_or_wait start_stable
  start_or_wait-Keeps (had, b) tid delivery to ss hb =
      >>-Keeps Fine (change (λ (x : Shared). record x { buffer = b }))
        (when (not had) (start_stable tid delivery to ss)) (with_buffer-Keeps g came start b hb)
        (when-Keeps Fine (not had) (start_stable tid delivery to ss)
          (told-IsServer g came start _ (task-Allowed (effective_socket to) tid delivery to ss)))

  tell_delivery-Keeps :
      (t : DeliveryType) (tid : ℕ) (is_sent : Bool) (bytes : Bytes)
      → Keeps Fine (tell_delivery g t tid is_sent bytes)
  unfolding tell_delivery
  tell_delivery-Keeps t tid is_sent bytes =
      when-Keeps Fine (not (tid == 0)) _ (told-IsServer g came start _ tt)

  connect_by-Keeps :
      (o : Option ℕ) (tid : ℕ) (to : Peer) (bytes : Bytes) (ss : ℕ)
      → Keeps Fine (connect_by g o tid to bytes ss)
  unfolding connect_by
  connect_by-Keeps (some n) tid to bytes ss s h = told-IsServer g came start _ tt s h
  connect_by-Keeps none tid to bytes ss s h =
      start_or_wait-Keeps (Buffer.add_connect to.id tid bytes s.buffer) tid _ to ss
        (add_connect-IsBuffer s.buffer h.maps to.id tid bytes) s h

  connect_to-Keeps :
      (o : Option Senders) (tid : ℕ) (to : Peer) (bytes : Bytes)
      → Keeps Fine (connect_to g o tid to bytes)
  unfolding connect_to
  connect_to-Keeps none tid to bytes s h =
      tell_delivery-Keeps stable_connect_delivery tid false bytes s h
  connect_to-Keeps (some found) tid to bytes s h =
      ite-Keeps Fine found.is_it
        (tell_session found.session (SessionMessage.stable_connect tid bytes))
        (connect_by g (get_tmp_session to.id s.buffer) tid to bytes found.session) s
        (told-IsServer g came start _ tt s h)
        (connect_by-Keeps (get_tmp_session to.id s.buffer) tid to bytes found.session s h)

  result_by-Keeps :
      (o : Option ℕ) (tid : ℕ) (to : Peer) (is_ok is_force : Bool) (bytes : Bytes) (ss : ℕ)
      → Keeps Fine (result_by g o tid to is_ok is_force bytes ss)
  unfolding result_by
  result_by-Keeps (some n) tid to is_ok is_force bytes ss s h = told-IsServer g came start _ tt s h
  result_by-Keeps none tid to is_ok is_force bytes ss s h =
      start_or_wait-Keeps (Buffer.add_result to.id tid bytes s.buffer) tid _ to ss
        (add_result-IsBuffer s.buffer h.maps to.id tid bytes) s h

  result_to-Keeps :
      (o : Option Senders) (tid : ℕ) (to : Peer) (is_ok is_force : Bool) (bytes : Bytes)
      → Keeps Fine (result_to g o tid to is_ok is_force bytes)
  unfolding result_to
  result_to-Keeps none tid to is_ok is_force bytes s h =
      tell_delivery-Keeps stable_result_delivery tid false bytes s h
  result_to-Keeps (some found) tid to is_ok is_force bytes s h =
      let by : Serve Unit = λ t.
        result_by g (get_tmp_session to.id t.buffer) tid to is_ok is_force bytes found.session t in
      ite-Keeps Fine found.is_it
        (tell_session found.session (SessionMessage.stable_result tid is_ok is_force bytes))
        (when is_ok by) s (told-IsServer g came start _ tt s h)
        (when-Keeps Fine is_ok by
          (λ t k.
            result_by-Keeps (get_tmp_session to.id t.buffer) tid to is_ok is_force bytes
              found.session t k)
          s h)

  result_tmp-Keeps :
      (o : Option ℕ) (tid : ℕ) (to : Peer) (is_ok is_force : Bool) (bytes : Bytes)
      → Keeps Fine (result_tmp g o tid to is_ok is_force bytes)
  unfolding result_tmp
  result_tmp-Keeps (some n) tid to is_ok is_force bytes s h = told-IsServer g came start _ tt s h
  result_tmp-Keeps none tid to is_ok is_force bytes s h =
      result_to-Keeps (PeerList.get g.ids g.sockets to.id s.peers) tid to is_ok is_force bytes s h

  data_to-Keeps :
      (o : Option Senders) (tid : ℕ) (to : PeerId) (bytes : Bytes)
      → Keeps Fine (data_to g o tid to bytes)
  unfolding data_to
  data_to-Keeps none tid to bytes s h = tell_delivery-Keeps data_delivery tid false bytes s h
  data_to-Keeps (some found) tid to bytes s h = told-IsServer g came start _ tt s h

  send_each-Keeps : (senders : List ℕ) (bytes : Bytes) → Keeps Fine (send_each senders bytes)
  unfolding send_each
  send_each-Keeps [] bytes s h = h
  send_each-Keeps (n ∷ senders) bytes s h =
      send_each-Keeps senders bytes _
        (told-IsServer g came start (to_session n (SessionMessage.payload 0 bytes)) tt s h)

  broadcast-Keeps : (b : Broadcast) (bytes : Bytes) → Keeps Fine (handle_broadcast g b bytes)
  unfolding handle_broadcast
  broadcast-Keeps stable_all bytes s h =
      send_each-Keeps (map (λ (e : PeerId × (ℕ × Bool)). e.1.0) (All.stable_all s.peers)) bytes s h
  broadcast-Keeps gossip bytes s h =
      send_each-Keeps (map (λ (e : PeerId × ℕ). e.1) (All.all g.ids g.sockets s.peers)) bytes s h

  dial_with-Keeps :
      (p : Peer) (r : Result (SessionKey × RemotePublic)) → Keeps Fine (dial_with g p r)
  unfolding dial_with
  dial_with-Keeps p (ok (key, remote_pk)) s h = told-IsServer g came start _ tt s h
  dial_with-Keeps p (err e) s h = h

  dial-Keeps : (p : Peer) → Keeps Fine (dial g p)
  unfolding dial
  dial-Keeps p s h = dial_with-Keeps p (generate_remote g (g.draw s.log)) s h

  dial_all-Keeps : (peers : List Peer) → Keeps Fine (dial_all g peers)
  unfolding dial_all
  dial_all-Keeps [] s h = h
  dial_all-Keeps (p ∷ peers) s h =
      >>-Keeps Fine (dial g p) (dial_all g peers) (dial-Keeps p) (dial_all-Keeps peers) s h

  disconnect_from-Keeps : (o : Option Senders) → Keeps Fine (disconnect_from o)
  unfolding disconnect_from
  disconnect_from-Keeps none s h = h
  disconnect_from-Keeps (some found) s h =
      when-Keeps Fine found.is_it (tell_session found.session SessionMessage.close)
        (told-IsServer g came start _ tt) s h

  -- what a message from outside does
  pub handle_send-Keeps : (msg : SendMessage) → Keeps Fine (handle_send g msg)
  unfolding handle_send handle_stable_connect handle_stable_result handle_data
  handle_send-Keeps (SendMessage.stable_connect tid to bytes) s h =
      ite-Keeps Fine (is_self g to.id) (tell_delivery g stable_connect_delivery tid false bytes)
        (connect_to g (PeerList.get g.ids g.sockets to.id s.peers) tid to bytes) s
        (tell_delivery-Keeps stable_connect_delivery tid false bytes s h)
        (connect_to-Keeps (PeerList.get g.ids g.sockets to.id s.peers) tid to bytes s h)
  handle_send-Keeps (SendMessage.stable_result tid to is_ok is_force bytes) s h =
      ite-Keeps Fine (is_self g to.id) (tell_delivery g stable_result_delivery tid false bytes)
        (result_tmp g (get_tmp_session to.id s.buffer) tid to is_ok is_force bytes) s
        (tell_delivery-Keeps stable_result_delivery tid false bytes s h)
        (result_tmp-Keeps (get_tmp_session to.id s.buffer) tid to is_ok is_force bytes s h)
  handle_send-Keeps (SendMessage.stable_disconnect id) s h =
      disconnect_from-Keeps (PeerList.get g.ids g.sockets id s.peers) s h
  handle_send-Keeps (SendMessage.connect peer) s h = dial-Keeps peer s h
  handle_send-Keeps (SendMessage.disconnect peer) s h = record {
    trees =
        subst (IsDouble g.ids g.sockets) (sym (peer_disconnect-dhts peer.socket s.peers)) h.trees;
    maps = h.maps;
    blocks = peer_disconnect-blocks peer.socket s.peers ∙ h.blocks;
    sent = h.sent;
  }
  handle_send-Keeps (SendMessage.payload tid to bytes) s h =
      let own : ReceiveMessage = ReceiveMessage.payload to bytes in
      ite-Keeps Fine (is_self g to)
        (tell_delivery g data_delivery tid true bytes >> tell_outside own)
        (data_to g (PeerList.get g.ids g.sockets to s.peers) tid to bytes) s
        (>>-Keeps Fine (tell_delivery g data_delivery tid true bytes) (tell_outside own)
          (tell_delivery-Keeps data_delivery tid true bytes) (told-IsServer g came start _ tt) s h)
        (data_to-Keeps (PeerList.get g.ids g.sockets to s.peers) tid to bytes s h)
  handle_send-Keeps (SendMessage.broadcast b bytes) s h = broadcast-Keeps b bytes s h
  handle_send-Keeps (SendMessage.stream symbol stream_type bytes) s h = h
  handle_send-Keeps (SendMessage.network_state req res_sender) s h =
      told-IsServer g came start _ tt s h
  handle_send-Keeps SendMessage.network_reboot s h = dial_all-Keeps (PeerList.bootstrap s.peers) s h
