-- ===== src/Server/Connecting.antt =====
-- src/server.rs and src/buffer.rs: connect messages for a peer that the node is not connected with.
use chamomile.Prelude.{
  ℕ, Bool, true, false, not, Option, none, some, List, [], ◌∷◌, ◌++◌, map, equal, is_some, ◌≡◌,
  refl, ap, ◌∙◌, if◌then◌else◌, if-false,
}
use chamomile.Prelude.Bytes.{Bytes}
use chamomile.Prelude.Result.{ok}
use chamomile.Prelude.Map
use chamomile.Types.Ids.{PeerId, PeerId-discrete}
use chamomile.Types.Peer.{Peer, effective_socket}
use chamomile.Types.Message.{SendMessage, stable_connect_delivery, delivery_split}
use chamomile.Store.Buffer.{Buffer, Queue, enqueue, enqueue_on, add_connect, get_tmp_session}
use chamomile.Store.PeerList
use chamomile.Store.PeerList.{PeerList, Senders}
use chamomile.Store.Queues.{add_connects}
use chamomile.Session.State.{SessionMessage, Global, Effect, when, direct_task, relay_task}
use chamomile.Server.State.{Server, told, tell_session, tell_delivery}
use chamomile.Server.Outside.{
  start_stable, start_or_wait, connect_by, connect_to, handle_stable_connect, handle_send,
  outside_loop,
}

-- whether connect data waits for the peer
unfoldable pub waits : PeerId → Buffer → Bool
waits p b = is_some (Map.get PeerId-discrete p b.connects)

enqueue_on-had :
    (o : Option (Bool × Queue)) (p : PeerId) (tid : ℕ) (bytes : Bytes)
    (m : Map.Map PeerId (Bool × Queue))
    → ((enqueue_on o p tid bytes m).0 ≡ is_some o)
      × (is_some (Map.get PeerId-discrete p (enqueue_on o p tid bytes m).1) ≡ true)
unfolding enqueue_on
enqueue_on-had none p tid bytes m =
    (refl, ap is_some (Map.get-insert_self PeerId-discrete p (false, (tid, bytes) ∷ []) m))
enqueue_on-had (some (seen, q)) p tid bytes m =
    (refl, ap is_some (Map.get-insert_self PeerId-discrete p (seen, q ++ (tid, bytes) ∷ []) m))

pub add_connect-waits :
    (p : PeerId) (tid : ℕ) (bytes : Bytes) (b : Buffer)
    → ((add_connect p tid bytes b).0 ≡ waits p b) × (waits p (add_connect p tid bytes b).1 ≡ true)
unfolding add_connect enqueue waits
add_connect-waits p tid bytes b =
    enqueue_on-had (Map.get PeerId-discrete p b.connects) p tid bytes b.connects

-- the task that a connect message starts
abbrev pub task : Global → ℕ → Peer → Bytes → ℕ → Effect
task g tid to bytes ss =
    if effective_socket to
    then direct_task tid (delivery_split bytes g.delivery_length) to
    else relay_task tid (delivery_split bytes g.delivery_length) to ss

abbrev pub with_buffer : Buffer → Server → Server
with_buffer b s = record s { shared = record s.shared { buffer = b } }

module _ (g : Global) (to : Peer) (closest : Senders) where
  -- A peer that is not this node, for which the node knows only another, closest peer, and that has
  -- no session in the buffer.
  pub record IsApart (s : Server) : Type 0 where
    pub other : equal PeerId-discrete to.id g.peer.id ≡ false
    pub near : PeerList.get g.ids g.sockets to.id s.peers ≡ some closest
    pub not_it : closest.is_it ≡ false
    pub no_tmp : get_tmp_session to.id s.buffer ≡ none

  connect_lem :
      (tid : ℕ) (bytes : Bytes) (s : Server)
      → IsApart s
      → handle_send g (SendMessage.stable_connect tid to bytes) s
        ≡ start_or_wait
            (add_connect to.id tid bytes s.buffer)
            tid
            (delivery_split bytes g.delivery_length)
            to
            closest.session
            s
  unfolding handle_send handle_stable_connect connect_to connect_by
  connect_lem tid bytes s h =
      let known = connect_to g (PeerList.get g.ids g.sockets to.id s.peers) tid to bytes s in
      let by = connect_by g (get_tmp_session to.id s.buffer) tid to bytes closest.session s in
      if-false (tell_delivery g stable_connect_delivery tid false bytes s) known h.other
      ∙ ap (λ o. connect_to g o tid to bytes s) h.near
      ∙ if-false (tell_session closest.session (SessionMessage.stable_connect tid bytes) s) by
          h.not_it
      ∙ ap (λ o. connect_by g o tid to bytes closest.session s) h.no_tmp

  waiting_lem :
      (tid : ℕ) (bytes : Bytes) (s : Server)
      → IsApart s
      → waits to.id s.buffer ≡ true
      → handle_send g (SendMessage.stable_connect tid to bytes) s
        ≡ (ok tt, with_buffer (add_connect to.id tid bytes s.buffer).1 s)
  unfolding start_or_wait
  waiting_lem tid bytes s h w =
      let (had, b) = add_connect to.id tid bytes s.buffer in
      connect_lem tid bytes s h
      ∙ ap
          (λ c.
            when (not c)
              (start_stable tid (delivery_split bytes g.delivery_length) to closest.session)
              (with_buffer b s))
          ((add_connect-waits to.id tid bytes s.buffer).0 ∙ w)

  first_lem :
      (tid : ℕ) (bytes : Bytes) (s : Server)
      → IsApart s
      → waits to.id s.buffer ≡ false
      → handle_send g (SendMessage.stable_connect tid to bytes) s ≡ (
        ok tt,
        told
            (task g tid to bytes closest.session)
            (with_buffer (add_connect to.id tid bytes s.buffer).1 s),
      )
  unfolding start_or_wait start_stable
  first_lem tid bytes s h w =
      let (had, b) = add_connect to.id tid bytes s.buffer in
      connect_lem tid bytes s h
      ∙ ap
          (λ c.
            when (not c)
              (start_stable tid (delivery_split bytes g.delivery_length) to closest.session)
              (with_buffer b s))
          ((add_connect-waits to.id tid bytes s.buffer).0 ∙ w)

  apart_lem :
      (tid : ℕ) (bytes : Bytes) (s : Server) (log : List Effect)
      → IsApart s
      → IsApart (record s {
        shared = record s.shared { buffer = (add_connect to.id tid bytes s.buffer).1 };
        log = log;
      })
  unfolding add_connect get_tmp_session
  apart_lem tid bytes s log h = record {
    other = h.other;
    near = h.near;
    not_it = h.not_it;
    no_tmp = h.no_tmp;
  }

  abbrev pub connects_of : Queue → List SendMessage
  connects_of q = map (λ (e : ℕ × Bytes). SendMessage.stable_connect e.0 to e.1) q

  connects_wait :
      (q : Queue) (s : Server)
      → IsApart s
      → waits to.id s.buffer ≡ true
      → outside_loop g (connects_of q) s ≡ (ok tt, with_buffer (add_connects to.id q s.buffer) s)
  unfolding outside_loop add_connects
  connects_wait [] s h w = refl
  connects_wait ((tid, bytes) ∷ q) s h w =
      ap (λ r. outside_loop g (connects_of q) r.1) (waiting_lem tid bytes s h w)
      ∙ connects_wait q (with_buffer (add_connect to.id tid bytes s.buffer).1 s)
          (apart_lem tid bytes s s.log h) (add_connect-waits to.id tid bytes s.buffer).1

  -- Connect messages for a peer that the node reaches only through another one, for which nothing
  -- waits yet, start one task, that of the first message; the data of all of them waits for the peer
  -- in the order of the messages, and nothing else is sent.
  pub outside_loop-connects :
      (tid : ℕ) (bytes : Bytes) (q : Queue) (s : Server)
      → IsApart s
      → waits to.id s.buffer ≡ false
      → outside_loop g (connects_of ((tid, bytes) ∷ q)) s ≡ (
        ok tt,
        told
            (task g tid to bytes closest.session)
            (with_buffer (add_connects to.id ((tid, bytes) ∷ q) s.buffer) s),
      )
  unfolding outside_loop add_connects
  outside_loop-connects tid bytes q s h w =
      let b = (add_connect to.id tid bytes s.buffer).1 in
      let s' = told (task g tid to bytes closest.session) (with_buffer b s) in
      ap (λ r. outside_loop g (connects_of q) r.1) (first_lem tid bytes s h w)
      ∙ connects_wait q s' (apart_lem tid bytes s s'.log h)
          (add_connect-waits to.id tid bytes s.buffer).1
