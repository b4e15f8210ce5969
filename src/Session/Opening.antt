-- ===== src/Session/Opening.antt =====
-- src/server.rs, src/buffer.rs and src/session.rs: connect messages for a peer, from the outside of the
-- node to the connection that a task opens to the peer.
use chamomile.Prelude.{
  ℕ, Bool, true, false, not, ◌&&◌, Option, some, List, [], ◌∷◌, ◌++◌, map, equal_no, equal_yes, ◌≡◌,
  ◌≢◌, refl, sym, ap, ◌∙◌,
}
use mathlib.Core.List.{append-nil, append_assoc}
use chamomile.Prelude.Bytes.{Bytes}
use chamomile.Prelude.Result.{Result, ok}
use chamomile.Types.Ids.{PeerId, PeerId-discrete}
use chamomile.Types.Peer.{Peer, effective_id}
use chamomile.Keys.Keypair.{peer_id}
use chamomile.Keys.Session.{SessionKey, complete, encrypt}
use chamomile.Wire.Hole.{nat}
use chamomile.Wire.Core.{CoreData, core_to_bytes}
use chamomile.Wire.Endpoint.{RemotePublic, EndpointMessage}
use chamomile.Kad.Double.{KadValue}
use chamomile.Store.Buffer.{Queue}
use chamomile.Session.State.{
  direct, Act, ◌>>◌, Session, new_session, State, Global, Effect, to_endpoint, stable_transport,
  generate_remote,
}
use chamomile.Session.Delivery.{Accepts, sealed_by, send_core_data_lem}
use chamomile.Session.Core.{send_core_data}
use chamomile.Session.Steps.{>>-ok}
use chamomile.Store.Global as Shared
use chamomile.Server.State.{Server, Serve, told, in_session}
use chamomile.Session.Failing.{send_lem}
use chamomile.Prelude.Act.{continue}
use chamomile.Session.Stable.{
  Arrivals, handshake_of, send_connects, upgrade_and_listen, direct_answered, direct_opened,
  direct_with, direct_stable,
}

-- the core data of a queue of connect messages, as it is put on a connection
abbrev pub connect_messages : Global → ℕ → SessionKey → Queue → List Effect
connect_messages g sender key q =
    map
      (λ (e : ℕ × Bytes). to_endpoint sender (
        EndpointMessage.core
          (encrypt g.crypto key (core_to_bytes (CoreData.stable_connect e.0 e.1)))))
      q

and_false : (b : Bool) → (b && not true) ≡ false
and_false true = refl
and_false false = refl

module _ (g : Global) (to : Peer) where
  -- A task for a peer other than this node that answers with its own id, that of its key, and a key
  -- that is completed.
  pub record IsAnswered (arrivals : Arrivals) (s : Server) (remote : RemotePublic)
      (made done : SessionKey) (remote_pk : RemotePublic) : Type 0 where
    pub drawn : generate_remote g (g.draw s.log) ≡ ok (made, remote_pk)
    pub answer : handshake_of arrivals.on_stream ≡ some remote
    pub is_to : peer_id g.crypto remote.key ≡ to.id
    pub same_id : remote.peer.id ≡ to.id
    pub other : to.id ≢ g.peer.id
    pub agreed : complete g.crypto made remote.key.pk remote.dh ≡ (true, done)

  -- the state once the transport was asked for the connection
  abbrev pub asked : RemotePublic → Server → Server
  asked remote_pk s =
      told
        (stable_transport to.transport (g.new_stream s.log) (g.new_endpoint s.log) to.socket
          remote_pk)
        s

  abbrev pub opened_session : Bool → RemotePublic → SessionKey → RemotePublic → Server → Session
  opened_session is_recv_data remote done remote_pk s =
      new_session (nat to.socket remote.peer) (g.new_session_channel (asked remote_pk s).log)
        (g.new_stream s.log) (direct (g.new_endpoint s.log)) done is_recv_data

  -- the channels of the new connection, with the peer
  abbrev pub entry : RemotePublic → RemotePublic → Server → KadValue
  entry remote remote_pk s = record {
    session = g.new_session_channel (asked remote_pk s).log;
    stream = g.new_stream s.log;
    peer = nat to.socket remote.peer;
  }

  -- the state in which the session begins to listen
  abbrev connected_as : PeerId → RemotePublic → SessionKey → RemotePublic → Server → Server
  connected_as p remote done remote_pk s =
      let (q, shared) = Shared.add_tmp p (entry remote remote_pk s) true s.shared in
      record {
        shared = shared;
        log = (asked remote_pk s).log ++ connect_messages g (g.new_endpoint s.log) done q;
      }

  abbrev pub connected : RemotePublic → SessionKey → RemotePublic → Server → Server
  connected = connected_as to.id

module _ (g : Global) (all : Accepts g) where
  -- On a direct connection whose channels take what is sent, each message of the queue is encrypted and
  -- sent, in the order of the queue, and nothing else changes.
  pub send_connects_lem :
      (q : Queue) (s : State) (sender : ℕ)
      → s.endpoint ≡ direct sender
      → send_connects g q s
        ≡ (ok tt, record s { log = s.log ++ connect_messages g sender s.session_key q })
  unfolding send_connects
  send_connects_lem [] s sender e = ap (λ l. (ok tt, record s { log = l })) (sym (append-nil s.log))
  send_connects_lem ((tid, bytes) ∷ q) s sender e =
      let m = CoreData.stable_connect tid bytes in
      >>-ok (send_core_data g m) (send_connects g q) (send_core_data_lem g all m s sender e)
      ∙ send_connects_lem q (record s { log = s.log ++ to_endpoint sender (sealed_by g s m) ∷ [] })
          sender e
      ∙ ap (λ l. (ok tt, record s { log = l }))
          (append_assoc s.log (to_endpoint sender (sealed_by g s m) ∷ [])
            (connect_messages g sender s.session_key q))

  in_session-send_connects :
      (x : Session) (q : Queue) (k : Act Unit) (s : Server) (sender : ℕ)
      → x.endpoint ≡ direct sender
      → in_session x (send_connects g q >> k) s
        ≡ in_session x k (record s { log = s.log ++ connect_messages g sender x.session_key q })
  unfolding in_session
  in_session-send_connects x q k s sender e =
      ap (λ (r : Result Unit × State). (r.0, record { shared = r.1.shared; log = r.1.log }))
        (>>-ok (send_connects g q) k
          (send_connects_lem q (record { session = x; shared = s.shared; log = s.log }) sender e))

  -- The task of one message.
  module _ (tid : ℕ) (delivery : Bytes) (to : Peer) (is_recv_data : Bool)
      (arrivals : Arrivals) where
    direct_answered_lem :
        (s : Server) (remote : RemotePublic) (made done : SessionKey) (remote_pk : RemotePublic)
        → IsAnswered g to arrivals s remote made done remote_pk
        → direct_answered g tid delivery to is_recv_data arrivals
            (some remote)
            made
            (g.new_stream s.log)
            (g.new_endpoint s.log)
            (asked g to remote_pk s)
          ≡ in_session
              (opened_session g to is_recv_data remote done remote_pk s)
              (upgrade_and_listen g arrivals.events)
              (connected g to remote done remote_pk s)
    unfolding direct_answered direct_opened new_session
    direct_answered_lem s remote made done remote_pk h =
        rw
          (
            h.is_to,
            equal_yes PeerId-discrete to.id to.id refl,
            and_false (not (effective_id to)),
            equal_no PeerId-discrete to.id g.peer.id h.other,
            h.agreed,
          )
          (let p = peer_id g.crypto remote.key in
            let x = opened_session g to is_recv_data remote done remote_pk s in
            let k = upgrade_and_listen g arrivals.events in
            let (q, shared) = Shared.add_tmp p (entry g to remote remote_pk s) true s.shared in
            in_session-send_connects x q k (record (asked g to remote_pk s) { shared = shared })
              (g.new_endpoint s.log) refl
            ∙ ap (λ i. in_session x k (connected_as g to i remote done remote_pk s)) h.is_to)

    pub direct_stable_lem :
        (s : Server) (remote : RemotePublic) (made done : SessionKey) (remote_pk : RemotePublic)
        → IsAnswered g to arrivals s remote made done remote_pk
        → direct_stable g tid delivery to is_recv_data arrivals s
          ≡ in_session
              (opened_session g to is_recv_data remote done remote_pk s)
              (upgrade_and_listen g arrivals.events)
              (connected g to remote done remote_pk s)
    unfolding direct_stable direct_with
    direct_stable_lem s remote made done remote_pk h =
        let stream = g.new_stream s.log in
        let endpoint = g.new_endpoint s.log in
        let ask = stable_transport to.transport stream endpoint to.socket remote_pk in
        let next : Option RemotePublic → Serve Unit =
          λ r. direct_answered g tid delivery to is_recv_data arrivals r made stream endpoint in
        ap (λ r. direct_with g tid delivery to is_recv_data arrivals r s) h.drawn
        ∙ ap (λ x. continue x.0 (λ u. next (handshake_of arrivals.on_stream)) x.1)
            (send_lem g all ask "Transport missing" s)
        ∙ ap (λ r. next r (asked g to remote_pk s)) h.answer
        ∙ direct_answered_lem s remote made done remote_pk h
