-- ===== src/Session/Invariant/Core.antt =====
-- src/session.rs: sending, closing and core data under the predicate of Session/Invariant.
use chamomile.Prelude.{
  ℕ, Bool, true, false, not, ◌==◌, refl, arith, Option, none, some, if◌then◌else◌,
}
use chamomile.Prelude.Bytes.{Bytes}
use chamomile.Prelude.Result.{Result, ok, err}
use chamomile.Types.Ids.{PeerId}
use chamomile.Types.Message.{
  ReceiveMessage, DeliveryType, data_delivery, stable_connect_delivery, stable_result_delivery,
}
use chamomile.Keys.Session.{encrypt, decrypt}
use chamomile.Wire.Core.{
  CoreData, ping, pong, payload, delivery, stable_connect, stable_result, result_connect, unstable,
  core_to_bytes,
}
use chamomile.Wire.Endpoint.{EndpointMessage}
use chamomile.Store.Global as Shared
use chamomile.Session.State.{
  SessionMessage, ConnectType, direct, relay, Global, Act, ◌>>◌, fail, when, ignore, out_send,
}
use chamomile.Session.Core
use chamomile.Session.Invariant.{Keeps, >>-Keeps, ite-Keeps, when-Keeps, ite-IsSession}

module _ (g : Global) where
  pub direct_send_to-Keeps :
      (c : ConnectType) (msg : EndpointMessage) → Keeps (Core.direct_send_to g c msg)
  unfolding Core.direct_send_to
  direct_send_to-Keeps (direct sender) msg s h = h
  direct_send_to-Keeps (relay sender) msg s h = h

  pub relay_send_to-Keeps :
      (c : ConnectType) (msg : SessionMessage) → Keeps (Core.relay_send_to g c msg)
  unfolding Core.relay_send_to
  relay_send_to-Keeps (direct sender) msg s h = h
  relay_send_to-Keeps (relay sender) msg s h = h

  pub direct_send-Keeps : (msg : EndpointMessage) → Keeps (Core.direct_send g msg)
  unfolding Core.direct_send
  direct_send-Keeps msg s = direct_send_to-Keeps s.endpoint msg s

  pub relay_send-Keeps : (msg : SessionMessage) → Keeps (Core.relay_send g msg)
  unfolding Core.relay_send
  relay_send-Keeps msg s = relay_send_to-Keeps s.endpoint msg s

  pub send_core_data-Keeps : (m : CoreData) → Keeps (Core.send_core_data g m)
  unfolding Core.send_core_data
  send_core_data-Keeps m s h =
      let sealed = encrypt g.crypto s.session_key (core_to_bytes m) in
      ite-IsSession (Core.is_direct s) (Core.direct_send g (EndpointMessage.core sealed) s)
        (Core.relay_send g (SessionMessage.relay_data (Core.my_id g) s.remote_peer.id sealed) s)
        (direct_send-Keeps (EndpointMessage.core sealed) s h)
        (relay_send-Keeps (SessionMessage.relay_data (Core.my_id g) s.remote_peer.id sealed) s h)

  leave-Keeps : (is_leave b : Bool) (p : PeerId) → Keeps (Core.end_stable g is_leave b p)
  unfolding Core.end_stable Core.leave_stable Core.into_dht
  leave-Keeps true b p s h = direct_send-Keeps EndpointMessage.close (Core.leave_stable g p s).1 h
  leave-Keeps false b p s h = when-Keeps b (Core.into_dht g p) (λ s h. h) s h

  close_stable-Keeps : (is_leave : Bool) (p : PeerId) → Keeps (Core.close_stable g is_leave p)
  unfolding Core.close_stable
  close_stable-Keeps is_leave p s h =
      >>-Keeps
        (when (not (Core.is_direct s))
          (ignore (Core.relay_send g (SessionMessage.relay_close (Core.my_id g)))))
        (Core.end_stable g is_leave (Core.is_direct s) p)
        (when-Keeps (not (Core.is_direct s))
          (ignore (Core.relay_send g (SessionMessage.relay_close (Core.my_id g))))
          (relay_send-Keeps (SessionMessage.relay_close (Core.my_id g))))
        (leave-Keeps is_leave (Core.is_direct s) p) (out_send g (ReceiveMessage.stable_leave p) s).1
        h

  close_unstable-Keeps : (is_leave : Bool) (p : PeerId) → Keeps (Core.close_unstable g is_leave p)
  unfolding Core.close_unstable Core.drop_tmp Core.drop_peer Core.tmp_into_dht
  close_unstable-Keeps true p s h =
      ite-Keeps (Core.is_direct s) (Core.drop_tmp g p >> Core.drop_peer g p) (Core.drop_tmp g p)
        (λ s h. h) (λ s h. h) s h
  close_unstable-Keeps false p s h =
      ite-Keeps (Core.is_direct s) (Core.tmp_into_dht g p) (Core.drop_tmp g p) (λ s h. h) (λ s h. h)
        s h

  pub close-Keeps : (is_leave : Bool) → Keeps (Core.close g is_leave)
  unfolding Core.close
  close-Keeps is_leave s h =
      >>-Keeps
        (if s.is_stable
          then Core.close_stable g is_leave s.remote_peer.id
          else Core.close_unstable g is_leave s.remote_peer.id)
        (fail "close session")
        (ite-Keeps s.is_stable (Core.close_stable g is_leave s.remote_peer.id)
          (Core.close_unstable g is_leave s.remote_peer.id)
          (close_stable-Keeps is_leave s.remote_peer.id)
          (close_unstable-Keeps is_leave s.remote_peer.id))
        (λ s h. h) s h

  tell_close-Keeps : (old : Option ℕ) → Keeps (Core.tell_close g old)
  unfolding Core.tell_close
  tell_close-Keeps none s h = h
  tell_close-Keeps (some old) s h = h

  pub upgrade-Keeps : Keeps (Core.upgrade g)
  unfolding Core.upgrade Core.upgrade_shared
  upgrade-Keeps s h =
      let r = Shared.upgrade g.ids g.sockets s.remote_peer.id s.shared in
      tell_close-Keeps r.0
        (record s {
          session = record s.session { is_stable = true; is_recv_data = true };
          shared = r.2;
        })
        (record { beats = h.beats; receives = λ e. refl })

  report_failure-Keeps :
      (t : DeliveryType) (tid : ℕ) (bytes : Bytes) → Keeps (Core.report_failure g t tid bytes)
  unfolding Core.report_failure
  report_failure-Keeps t tid bytes =
      when-Keeps (not (tid == 0))
        (out_send g (ReceiveMessage.delivery t tid false (Core.split g bytes))) (λ s h. h)

  failure_of-Keeps : (m : CoreData) → Keeps (Core.failure_of g m)
  unfolding Core.failure_of
  failure_of-Keeps ping s h = h
  failure_of-Keeps pong s h = h
  failure_of-Keeps unstable s h = h
  failure_of-Keeps (delivery t tid bytes) s h = h
  failure_of-Keeps (payload tid bytes) s h = report_failure-Keeps data_delivery tid bytes s h
  failure_of-Keeps (stable_connect tid bytes) s h =
      report_failure-Keeps stable_connect_delivery tid bytes s h
  failure_of-Keeps (stable_result tid is_ok bytes) s h =
      report_failure-Keeps stable_result_delivery tid bytes s h
  failure_of-Keeps (result_connect tid bytes) s h =
      report_failure-Keeps stable_result_delivery tid bytes s h

  opened-Keeps :
      (f : CoreData → Act Unit) (r : Result CoreData)
      → ((m : CoreData) → Keeps (f m))
      → Keeps (Core.opened g f r)
  unfolding Core.opened
  opened-Keeps f (ok m) kept s h = kept m s h
  opened-Keeps f (err e) kept s h = h

  pub failure_send-Keeps : (bytes : Bytes) → Keeps (Core.failure_send g bytes)
  unfolding Core.failure_send
  failure_send-Keeps bytes s h =
      opened-Keeps (Core.failure_of g) (Core.parsed g (decrypt g.crypto s.session_key bytes))
        failure_of-Keeps s h

  confirm-Keeps : (t : DeliveryType) (tid : ℕ) (bytes : Bytes) → Keeps (Core.confirm g t tid bytes)
  unfolding Core.confirm
  confirm-Keeps t tid bytes =
      let answer : CoreData = delivery t tid (Core.split g bytes) in
      when-Keeps (not (tid == 0)) (Core.send_core_data g answer) (send_core_data-Keeps answer)

  out_confirm-Keeps :
      (msg : ReceiveMessage) (t : DeliveryType) (tid : ℕ) (bytes : Bytes)
      → Keeps (out_send g msg >> Core.confirm g t tid bytes)
  out_confirm-Keeps msg t tid bytes =
      >>-Keeps (out_send g msg) (Core.confirm g t tid bytes) (λ s h. h) (confirm-Keeps t tid bytes)

  handle_delivery-Keeps :
      (t : DeliveryType) (tid : ℕ) (bytes : Bytes) → Keeps (Core.handle_delivery g t tid bytes)
  unfolding Core.handle_delivery
  handle_delivery-Keeps data_delivery tid bytes s h =
      when-Keeps s.is_recv_data (out_send g (ReceiveMessage.delivery data_delivery tid true bytes))
        (λ s h. h) s h
  handle_delivery-Keeps stable_connect_delivery tid bytes s h = h
  handle_delivery-Keeps stable_result_delivery tid bytes s h = h

  handle_core-Keeps : (m : CoreData) → Keeps (Core.handle_core g m)
  unfolding Core.handle_core
  handle_core-Keeps ping s h = send_core_data-Keeps pong s h
  handle_core-Keeps pong s h = record { beats = omega arith; receives = h.receives }
  handle_core-Keeps (payload tid bytes) s h =
      when-Keeps s.is_recv_data
        (out_send g (ReceiveMessage.payload s.remote_peer.id bytes)
          >> Core.confirm g data_delivery tid bytes)
        (out_confirm-Keeps (ReceiveMessage.payload s.remote_peer.id bytes) data_delivery tid bytes)
        s h
  handle_core-Keeps (delivery t tid bytes) s h =
      when-Keeps (not (tid == 0)) (Core.handle_delivery g t tid bytes)
        (handle_delivery-Keeps t tid bytes) s h
  handle_core-Keeps (stable_connect tid bytes) s h =
      out_confirm-Keeps (ReceiveMessage.stable_connect s.remote_peer bytes) stable_connect_delivery
        tid bytes s h
  handle_core-Keeps (stable_result tid is_ok bytes) s h =
      out_confirm-Keeps (ReceiveMessage.stable_result s.remote_peer is_ok bytes)
        stable_result_delivery tid bytes s h
  handle_core-Keeps (result_connect tid bytes) s h =
      out_confirm-Keeps (ReceiveMessage.result_connect s.remote_peer bytes) stable_result_delivery
        tid bytes s h
  handle_core-Keeps unstable s h = close-Keeps false s h

  pub handle_core_data-Keeps : (bytes : Bytes) → Keeps (Core.handle_core_data g bytes)
  unfolding Core.handle_core_data
  handle_core_data-Keeps bytes s h =
      opened-Keeps (Core.handle_core g) (Core.parsed g (decrypt g.crypto s.session_key bytes))
        handle_core-Keeps s h
