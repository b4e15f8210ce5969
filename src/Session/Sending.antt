-- ===== src/Session/Sending.antt =====
-- src/server.rs, src/buffer.rs and src/session.rs: connect messages from the outside of a node to the
-- connection that `direct_stable` opens.
use chamomile.Prelude.{
  ℕ, Bool, true, false, Option, none, some, [], ◌∷◌, ◌++◌, is_some, ◌≡◌, refl, ap, ◌∙◌, arith,
}
use chamomile.Prelude.Bytes.{Bytes}
use chamomile.Prelude.Result.{ok}
use chamomile.Prelude.Map
use chamomile.Types.Ids.{PeerId, PeerId-discrete}
use chamomile.Types.Peer.{Peer, effective_socket}
use chamomile.Types.Message.{delivery_split}
use chamomile.Prelude.Maybe.{map_option}
use chamomile.Keys.Session.{SessionKey}
use chamomile.Wire.Endpoint.{RemotePublic}
use chamomile.Store.Buffer
use chamomile.Store.Buffer.{Buffer, Tmp, Queue, queue_of, remove_connect}
use chamomile.Store.PeerList
use chamomile.Store.PeerList.{Senders, senders}
use chamomile.Store.Stables.{get-add_stable}
use chamomile.Store.Queues.{add_connects, remove_connect-add_connects}
use chamomile.Store.Global as Shared
use chamomile.Wire.Hole.{nat}
use chamomile.Session.State.{Global, direct_task, new_session}
use chamomile.Session.Run.{listen}
use chamomile.Session.Upgrading.{stable_session, made_stable, upgrade_and_listen_lem}
use chamomile.Session.Delivery.{Accepts}
use chamomile.Session.Stable.{Arrivals, direct_stable}
use chamomile.Session.Opening.{
  IsAnswered, asked, entry, opened_session, connected, connect_messages, direct_stable_lem,
}
use chamomile.Server.State.{Server, told, in_session}
use chamomile.Server.Outside.{outside_loop}
use chamomile.Server.Connecting.{
  IsApart, waits, task, with_buffer, connects_of, outside_loop-connects,
}

no_queue : (o : Option (Bool × Queue)) → is_some o ≡ false → queue_of o ≡ []
unfolding queue_of
no_queue none e = refl
no_queue (some o) e = absurd (ground arith)

remove_connect-waits : (p : PeerId) (b : Buffer) → waits p b ≡ false → (remove_connect p b).0 ≡ []
unfolding waits remove_connect
remove_connect-waits p b e = no_queue (Map.get PeerId-discrete p b.connects) e

module _ (g : Global) where
  -- the message's start, which the task reports with
  abbrev pub start_of : Bytes → Bytes
  start_of bytes = delivery_split bytes g.delivery_length

  -- the state after the messages of a queue for a peer with an address, the first of which starts a
  -- task that connects to it
  abbrev pub started : Peer → ℕ → Bytes → Queue → Server → Server
  started to tid bytes q s =
      told (direct_task tid (start_of bytes) to)
        (with_buffer (add_connects to.id ((tid, bytes) ∷ q) s.buffer) s)

  task_lem :
      (to : Peer) (tid ss : ℕ) (bytes : Bytes)
      → effective_socket to ≡ true
      → task g tid to bytes ss ≡ direct_task tid (start_of bytes) to
  task_lem to tid ss bytes e = rw e refl

module _ (g : Global) (all : Accepts g) where
  -- Connect messages for a peer with an address, that the node reaches only through another one, and
  -- for which nothing waits, start one task, that runs `direct_stable`. If the peer answers it with its
  -- own id, that of its key, and a key that is completed, then all of their data is sent to it over the
  -- new connection, each message once and in the order in which they came, and nothing waits for the
  -- peer any more; then its session is made stable, the node finds the peer as itself, under its new
  -- channels, and the session listens. The channels take what is sent.
  pub outside_loop-direct_stable :
      (to : Peer) (closest : Senders) (tid : ℕ) (bytes : Bytes) (q : Queue) (is_recv_data : Bool)
      (arrivals : Arrivals) (s : Server) (remote : RemotePublic) (made done : SessionKey)
      (remote_pk : RemotePublic)
      → IsApart g to closest s
      → effective_socket to ≡ true
      → waits to.id s.buffer ≡ false
      → IsAnswered g to arrivals (started g to tid bytes q s) remote made done remote_pk
      → let s' = started g to tid bytes q s in
        let t = connected g to remote done remote_pk s' in
        let v = entry g to remote remote_pk s' in
        let u = made_stable to.id v t in
        (outside_loop g (connects_of g to closest ((tid, bytes) ∷ q)) s ≡ (ok tt, s'))
        × (t.log
            ≡ (asked g to remote_pk s').log
              ++ connect_messages g (g.new_endpoint s'.log) done ((tid, bytes) ∷ q))
        × ((remove_connect to.id u.buffer).0 ≡ [])
        × (PeerList.get g.ids g.sockets to.id u.peers ≡ some (senders v true))
        × (direct_stable g tid (start_of g bytes) to is_recv_data arrivals s'
            ≡ in_session
                (stable_session (opened_session g to is_recv_data remote done remote_pk s'))
                (listen g arrivals.events)
                u)
  unfolding Shared.add_tmp Buffer.add_tmp Buffer.remove_tmp remove_connect nat new_session
  outside_loop-direct_stable to closest tid bytes q is_recv_data arrivals s remote made done
        remote_pk apart addr w h =
      let s' = started g to tid bytes q s in
      let t = connected g to remote done remote_pk s' in
      let v = entry g to remote remote_pk s' in
      let (taken, gone, kept) =
        remove_connect-add_connects to.id g.peer.id ((tid, bytes) ∷ q) s.buffer h.other in
      (
        outside_loop-connects g to closest tid bytes q s apart w
            ∙ ap
                (λ e.
                  (ok tt, told e (with_buffer (add_connects to.id ((tid, bytes) ∷ q) s.buffer) s)))
                (task_lem g to tid closest.session bytes addr),
        ap (λ l. (asked g to remote_pk s').log ++ connect_messages g (g.new_endpoint s'.log) done l)
            (taken ∙ ap (λ l. l ++ (tid, bytes) ∷ q) (remove_connect-waits to.id s.buffer w)),
        gone,
        (get-add_stable g.ids g.sockets to.id to.id to.id v true t.peers).1,
        direct_stable_lem g all tid (start_of g bytes) to is_recv_data arrivals s' remote made done
              remote_pk h
            ∙ upgrade_and_listen_lem g (opened_session g to is_recv_data remote done remote_pk s')
                to.id v arrivals.events t refl h.same_id
                (ap (map_option (λ (e : Bool × Tmp). e.1))
                  (Map.get-insert_self PeerId-discrete to.id _ _)),
      )
