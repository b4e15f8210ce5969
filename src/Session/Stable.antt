-- ===== src/Session/Stable.antt =====
-- src/session.rs: `direct_stable` and `relay_stable`, the tasks that open a session to a peer that the
-- node wants a stable connection with. A key that no round of `generate_remote` can make keeps the source
-- in its loop; here the task ends with the error of the round.
use chamomile.Prelude.{
  ℕ, Bool, true, false, not, ◌&&◌, ◌==◌, Option, none, some, List, [], ◌∷◌, equal, if◌then◌else◌,
}
use chamomile.Prelude.Bytes.{Bytes}
use chamomile.Prelude.Result.{Result, ok, err}
use chamomile.Prelude.Act.{pure, fail, when, ◌>>◌}
use chamomile.Types.Ids.{PeerId, PeerId-discrete}
use chamomile.Types.Peer.{Peer, default_peer, effective_id}
use chamomile.Types.Message.{ReceiveMessage, stable_connect_delivery}
use chamomile.Keys.Keypair.{peer_id}
use chamomile.Keys.Session.{SessionKey, complete}
use chamomile.Wire.Core.{CoreData}
use chamomile.Wire.Hole.{nat}
use chamomile.Wire.Endpoint.{RemotePublic, EndpointMessage}
use chamomile.Store.Buffer
use chamomile.Store.Buffer.{Queue}
use chamomile.Store.PeerList
use chamomile.Store.PeerList.{Senders}
use chamomile.Store.Global as Shared
use chamomile.Store.Global.{Shared}
use chamomile.Session.State.{
  SessionMessage, direct, relay, new_session, Global, Act, outside, to_session, stable_transport,
  generate_remote,
}
use chamomile.Session.Core.{send_core_data}
use chamomile.Session.Outside.{upgrade_if}
use chamomile.Session.Run.{FutureResult, listen}
use chamomile.Server.State.{Serve, tell_endpoint, change, in_session, send}

-- What reaches the task: the first message on its stream, the first on its session channel before
-- the time is out, and the events of the session.
pub record Arrivals : Type 0 where
  pub on_stream : Option EndpointMessage
  pub on_session : Option SessionMessage
  pub events : List FutureResult

-- `if let Some(EndpointMessage::Handshake(remote)) = …`
unfoldable pub handshake_of : Option EndpointMessage → Option RemotePublic
handshake_of (some (EndpointMessage.handshake remote)) = some remote
handshake_of msg = none

-- `if let Some(SessionMessage::RelayResult(remote, recv_ss)) = …`
unfoldable pub relay_result_of : Option SessionMessage → Option (RemotePublic × ℕ)
relay_result_of (some (SessionMessage.relay_result remote recv_ss)) = some (remote, recv_ss)
relay_result_of msg = none

unfoldable pub drop_connect : PeerId → Serve Unit
drop_connect p = change (λ (h : Shared). record h { buffer = (Buffer.remove_connect p h.buffer).1 })

unfoldable pub drop_tmp : PeerId → Serve Unit
drop_tmp p = change (λ (h : Shared). record h { buffer = (Buffer.remove_tmp p h.buffer).1 })

module _ (g : Global) where
  unfoldable pub send_connects : Queue → Act Unit
  send_connects [] = pure tt
  send_connects ((tid, bytes) ∷ queue) =
      send_core_data g (CoreData.stable_connect tid bytes) >> send_connects queue

  unfoldable pub send_results : Queue → Act Unit
  send_results [] = pure tt
  send_results ((tid, bytes) ∷ queue) =
      send_core_data g (CoreData.result_connect tid bytes) >> send_results queue

  -- the last steps of both tasks
  unfoldable pub upgrade_and_listen : List FutureResult → Act Unit
  upgrade_and_listen events = upgrade_if g true >> listen g events

  -- `if tid != 0 { global.out_send(…).await?; }`
  unfoldable pub report_failed : ℕ → Bytes → Serve Unit
  unfolding send
  report_failed tid delivery = when (not (tid == 0)) (
      send g (outside (ReceiveMessage.delivery stable_connect_delivery tid false delivery))
        "Outside missing")

  -- The task of one message, `tid` with the start `delivery` of its data, for the peer `to`.
  module _ (tid : ℕ) (delivery : Bytes) (to : Peer) (is_recv_data : Bool)
      (arrivals : Arrivals) where
    unfoldable pub relay_opened :
        Bool × SessionKey → RemotePublic → ℕ → ℕ → ℕ → Queue → Queue → Serve Unit
    unfolding drop_tmp in_session new_session send_connects send_results upgrade_and_listen
    relay_opened (false, key) remote recv_ss channel stream connects results =
        drop_tmp to.id >> fail "session stable key failure."
    relay_opened (true, key) remote recv_ss channel stream connects results =
        change (λ (h : Shared). record h { buffer = Buffer.update_peer to.id remote.peer h.buffer })
        >> in_session (new_session remote.peer channel stream (relay recv_ss) key is_recv_data)
            (do send_connects connects; send_results results; upgrade_and_listen arrivals.events)

    unfoldable pub relay_answered :
        Option (RemotePublic × ℕ) → SessionKey → ℕ → ℕ → Queue → Queue → Serve Unit
    unfolding report_failed drop_tmp relay_opened
    relay_answered none key channel stream connects results = do
      report_failed tid delivery
      drop_tmp to.id
      fail "session relay reach faiure."
    relay_answered (some (remote, recv_ss)) key channel stream connects results =
        if not (equal PeerId-discrete (peer_id g.crypto remote.key) to.id)
        then drop_tmp to.id >> fail "session stable unknown peer."
        else if equal PeerId-discrete (peer_id g.crypto remote.key) g.peer.id
        then (do drop_tmp to.id; report_failed tid delivery; fail "session stable self failure.")
        else relay_opened (complete g.crypto key remote.key.pk remote.dh) remote recv_ss channel
            stream connects results

    unfoldable pub relay_with : Result (SessionKey × RemotePublic) → ℕ → Serve Unit
    unfolding relay_result_of relay_answered send
    relay_with (err e) ss s = (err e, s)
    relay_with (ok (key, remote_pk)) ss s =
        let stream = g.new_stream s.log in
        let channel = g.new_session_channel s.log in
        let (connects, results, shared) =
          Shared.add_all_tmp to.id
            (record { session = channel; stream = stream; peer = default_peer }) false s.shared in
        (send g (to_session ss (SessionMessage.relay_connect remote_pk to.id)) "Session missing"
            >> relay_answered (relay_result_of arrivals.on_session) key channel stream connects
                results)
          (record s { shared = shared })

    unfoldable pub relay_stable : ℕ → Serve Unit
    unfolding relay_with generate_remote
    relay_stable ss s = relay_with (generate_remote g (g.draw s.log)) ss s

    unfoldable pub direct_opened : Bool × SessionKey → RemotePublic → ℕ → ℕ → Serve Unit
    unfolding drop_connect in_session new_session send_connects upgrade_and_listen
    direct_opened (false, key) remote stream endpoint s =
        (drop_connect to.id >> fail "session stable key failure.") s
    direct_opened (true, key) remote stream endpoint s =
        let channel = g.new_session_channel s.log in
        let peer = nat to.socket remote.peer in
        let (buffers, shared) =
          Shared.add_tmp (peer_id g.crypto remote.key)
            (record { session = channel; stream = stream; peer = peer }) true s.shared in
        in_session (new_session peer channel stream (direct endpoint) key is_recv_data)
          (send_connects buffers >> upgrade_and_listen arrivals.events)
          (record s { shared = shared })

    -- where no handshake came: through the closest peer
    unfoldable pub relay_instead : Option Senders → Serve Unit
    unfolding report_failed drop_connect relay_stable
    relay_instead none s =
        (do report_failed tid delivery; drop_connect to.id; fail "no closest peer.") s
    relay_instead (some found) s = relay_stable found.session s

    unfoldable pub direct_answered : Option RemotePublic → SessionKey → ℕ → ℕ → Serve Unit
    unfolding report_failed direct_opened relay_instead
    direct_answered none key stream endpoint s =
        relay_instead (PeerList.get g.ids g.sockets to.id s.peers) s
    direct_answered (some remote) key stream endpoint s =
        if not (effective_id to) && not (equal PeerId-discrete (peer_id g.crypto remote.key) to.id)
        then fail "session stable unknown peer." s
        else if equal PeerId-discrete (peer_id g.crypto remote.key) g.peer.id
        then (do
          tell_endpoint endpoint EndpointMessage.close
          report_failed tid delivery
          fail "session stable self failure.")
            s
        else direct_opened (complete g.crypto key remote.key.pk remote.dh) remote stream endpoint s

    unfoldable pub direct_with : Result (SessionKey × RemotePublic) → Serve Unit
    unfolding handshake_of direct_answered send
    direct_with (err e) s = (err e, s)
    direct_with (ok (key, remote_pk)) s =
        let stream = g.new_stream s.log in
        let endpoint = g.new_endpoint s.log in
        (send g (stable_transport to.transport stream endpoint to.socket remote_pk)
              "Transport missing"
            >> direct_answered (handshake_of arrivals.on_stream) key stream endpoint)
          s

    unfoldable pub direct_stable : Serve Unit
    unfolding direct_with generate_remote
    direct_stable s = direct_with (generate_remote g (g.draw s.log)) s
