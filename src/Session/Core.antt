-- ===== src/Session/Core.antt =====
-- src/session.rs: what a session sends, how it closes, and what it does with core data.
use chamomile.Prelude.{ℕ, Bool, true, false, not, Option, none, some, ◌==◌, if◌then◌else◌}
use chamomile.Prelude.Bytes.{Bytes}
use chamomile.Prelude.Result.{Result, ok, err}
use chamomile.Types.Ids.{PeerId}
use chamomile.Types.Message.{
  DeliveryType, data_delivery, stable_connect_delivery, stable_result_delivery, delivery_split,
}
use chamomile.Types.Message.{ReceiveMessage}
use chamomile.Keys.Session.{encrypt, decrypt}
use chamomile.Wire.Core.{
  CoreData, ping, pong, payload, delivery, stable_connect, stable_result, result_connect, unstable,
  core_to_bytes, core_from_bytes,
}
use chamomile.Wire.Endpoint.{EndpointMessage}
use chamomile.Store.Buffer
use chamomile.Store.PeerList
use chamomile.Store.Global as Shared
use chamomile.Store.Global.{Shared}
use chamomile.Session.State.{
  SessionMessage, ConnectType, direct, relay, State, Global, Act, ◌>>=◌, ◌>>◌, pure, fail, when,
  ignore, on_shared, modify_shared, modify, gets, send, out_send, to_session, to_endpoint,
}

unfoldable pub is_direct_type : ConnectType → Bool
is_direct_type (direct sender) = true
is_direct_type (relay sender) = false

abbrev pub is_direct : State → Bool
is_direct s = is_direct_type s.endpoint

module _ (g : Global) where
  abbrev pub my_id : PeerId
  my_id = g.peer.id

  -- `direct_send`, which does nothing on a relayed session
  unfoldable pub direct_send_to : ConnectType → EndpointMessage → Act Unit
  direct_send_to (direct sender) msg = send g (to_endpoint sender msg) "Endpoint missing"
  direct_send_to (relay sender) msg = pure tt

  unfoldable pub direct_send : EndpointMessage → Act Unit
  unfolding direct_send_to
  direct_send msg s = direct_send_to s.endpoint msg s

  -- `relay_send`, which does nothing on a direct session
  unfoldable pub relay_send_to : ConnectType → SessionMessage → Act Unit
  relay_send_to (direct sender) msg = pure tt
  relay_send_to (relay sender) msg = send g (to_session sender msg) "Endpoint missing"

  unfoldable pub relay_send : SessionMessage → Act Unit
  unfolding relay_send_to
  relay_send msg s = relay_send_to s.endpoint msg s

  unfoldable pub send_core_data : CoreData → Act Unit
  unfolding direct_send relay_send is_direct_type
  send_core_data m s =
      let e_data = encrypt g.crypto s.session_key (core_to_bytes m) in
      if is_direct s
      then direct_send (EndpointMessage.core e_data) s
      else relay_send (SessionMessage.relay_data my_id s.remote_peer.id e_data) s

  unfoldable pub leave_stable : PeerId → Act Unit
  leave_stable p =
      modify_shared λ (h : Shared). record h { peers = PeerList.stable_leave p h.peers }

  unfoldable pub drop_tmp : PeerId → Act Unit
  drop_tmp p = modify_shared λ (h : Shared). record h { buffer = (Buffer.remove_tmp p h.buffer).1 }

  unfoldable pub drop_peer : PeerId → Act Unit
  drop_peer p =
      modify_shared
        λ (h : Shared). record h { peers = (PeerList.remove_peer g.ids g.sockets p h.peers).1 }

  unfoldable pub into_dht : PeerId → Act Unit
  into_dht p s = on_shared (Shared.stable_to_dht g.ids g.sockets (g.draw_value_key s.log) p) s

  unfoldable pub tmp_into_dht : PeerId → Act Unit
  tmp_into_dht p s = on_shared (Shared.tmp_to_dht g.ids g.sockets (g.draw_value_key s.log) p) s

  unfoldable pub end_stable : Bool → Bool → PeerId → Act Unit
  unfolding leave_stable into_dht direct_send
  end_stable true is_d p = leave_stable p >> ignore (direct_send EndpointMessage.close)
  end_stable false is_d p = when is_d (into_dht p)

  -- the three cases of `close`, before its error
  unfoldable pub close_stable : Bool → PeerId → Act Unit
  unfolding relay_send is_direct_type end_stable
  close_stable is_leave p = do
    ignore (out_send g (ReceiveMessage.stable_leave p))
    is_d ← gets is_direct
    when (not is_d) (ignore (relay_send (SessionMessage.relay_close my_id)))
    end_stable is_leave is_d p

  unfoldable pub close_unstable : Bool → PeerId → Act Unit
  unfolding drop_tmp drop_peer tmp_into_dht is_direct_type
  close_unstable is_leave p = do
    is_d ← gets is_direct
    if is_d then (if is_leave then (drop_tmp p >> drop_peer p) else tmp_into_dht p) else drop_tmp p

  unfoldable pub close : Bool → Act Unit
  unfolding close_stable close_unstable
  close is_leave = do
    stable ← gets (λ s. s.is_stable)
    p ← gets (λ s. s.remote_peer.id)
    if stable then close_stable is_leave p else close_unstable is_leave p
    fail "close session"

  -- `global.upgrade`, with the `Close` that an old session of the peer is sent
  unfoldable pub tell_close : Option ℕ → Act Unit
  tell_close none = pure tt
  tell_close (some old) = ignore (send g (to_session old SessionMessage.close) "")

  unfoldable pub upgrade_shared : PeerId → Act Unit
  unfolding tell_close
  upgrade_shared p s =
      let (old, r, shared) = Shared.upgrade g.ids g.sockets p s.shared in
      (r, (tell_close old (record s { shared = shared })).1)

  unfoldable pub upgrade : Act Unit
  unfolding upgrade_shared
  upgrade = do
    modify (λ x. record x { is_stable = true; is_recv_data = true })
    p ← gets (λ s. s.remote_peer.id)
    upgrade_shared p

  abbrev pub split : Bytes → Bytes
  split bytes = delivery_split bytes g.delivery_length

  -- a delivery report to the outside, where the message asked for one
  unfoldable pub report_failure : DeliveryType → ℕ → Bytes → Act Unit
  report_failure t tid bytes =
      when (not (tid == 0)) (out_send g (ReceiveMessage.delivery t tid false (split bytes)))

  unfoldable pub failure_of : CoreData → Act Unit
  unfolding report_failure
  failure_of ping = pure tt
  failure_of pong = pure tt
  failure_of unstable = pure tt
  failure_of (delivery t tid bytes) = pure tt
  failure_of (payload tid bytes) = report_failure data_delivery tid bytes
  failure_of (stable_connect tid bytes) = report_failure stable_connect_delivery tid bytes
  failure_of (stable_result tid is_ok bytes) = report_failure stable_result_delivery tid bytes
  failure_of (result_connect tid bytes) = report_failure stable_result_delivery tid bytes

  -- What both readers of encrypted data do first; what cannot be read is passed over.
  unfoldable pub opened : (CoreData → Act Unit) → Result CoreData → Act Unit
  opened handle (ok m) = handle m
  opened handle (err e) = pure tt

  unfoldable pub parsed : Result Bytes → Result CoreData
  parsed (ok bytes) = core_from_bytes bytes
  parsed (err e) = err e

  unfoldable pub failure_send : Bytes → Act Unit
  unfolding opened parsed failure_of
  failure_send e_data s = opened failure_of (parsed (decrypt g.crypto s.session_key e_data)) s

  -- the answer that confirms a delivery, where the message asked for one
  unfoldable pub confirm : DeliveryType → ℕ → Bytes → Act Unit
  unfolding send_core_data
  confirm t tid bytes = when (not (tid == 0)) (send_core_data (delivery t tid (split bytes)))

  unfoldable pub handle_delivery : DeliveryType → ℕ → Bytes → Act Unit
  handle_delivery data_delivery tid bytes s =
      when s.is_recv_data (out_send g (ReceiveMessage.delivery data_delivery tid true bytes)) s
  handle_delivery stable_connect_delivery tid bytes s =
      out_send g (ReceiveMessage.delivery stable_connect_delivery tid true bytes) s
  handle_delivery stable_result_delivery tid bytes s =
      out_send g (ReceiveMessage.delivery stable_result_delivery tid true bytes) s

  unfoldable pub handle_core : CoreData → Act Unit
  unfolding send_core_data confirm handle_delivery close
  handle_core ping s = send_core_data pong s
  handle_core pong s = modify (λ x. record x { heartbeat = 0 }) s
  handle_core (payload tid bytes) s =
      when s.is_recv_data
        (out_send g (ReceiveMessage.payload s.remote_peer.id bytes)
          >> confirm data_delivery tid bytes)
        s
  handle_core (delivery t tid bytes) s = when (not (tid == 0)) (handle_delivery t tid bytes) s
  handle_core (stable_connect tid bytes) s =
      (out_send g (ReceiveMessage.stable_connect s.remote_peer bytes)
          >> confirm stable_connect_delivery tid bytes)
        s
  handle_core (stable_result tid is_ok bytes) s =
      (out_send g (ReceiveMessage.stable_result s.remote_peer is_ok bytes)
          >> confirm stable_result_delivery tid bytes)
        s
  handle_core (result_connect tid bytes) s =
      (out_send g (ReceiveMessage.result_connect s.remote_peer bytes)
          >> confirm stable_result_delivery tid bytes)
        s
  handle_core unstable s = close false s

  unfoldable pub handle_core_data : Bytes → Act Unit
  unfolding opened parsed handle_core
  handle_core_data e_data s = opened handle_core (parsed (decrypt g.crypto s.session_key e_data)) s
