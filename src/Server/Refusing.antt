-- ===== src/Server/Refusing.antt =====
-- src/server.rs: which incoming connections are refused and which get a session.
use chamomile.Prelude.{
  Bool, true, false, ◌||◌, ◌⊎◌, inl, inr, equal_yes, none, some, equal, ◌≡◌, refl, ap, ◌∙◌, arith,
  if◌then◌else◌,
}
use chamomile.Prelude.Result.{ok}
use chamomile.Types.Ids.{PeerId-discrete}
use chamomile.Keys.Session.{SessionKey, complete}
use chamomile.Wire.Endpoint.{EndpointMessage}
use chamomile.Store.PeerList
use chamomile.Store.PeerList.{PeerList, senders}
use chamomile.Session.State.{Global, to_endpoint, complete_remote}
use chamomile.Server.State.{Server, told}
use chamomile.Server.Incoming.{
  TransportRecvMessage, refuse, remote_id, own_key, made_key, agree_key, is_unwanted, handle_trans,
}

module _ (g : Global) where
  -- why a connection is refused: its address, its id, or its key
  pub data IsRefused (m : TransportRecvMessage) (s : Server) : Type 0 where
    blocked_addr : PeerList.is_block_addr m.addr s.peers ≡ true → IsRefused m s
    own_id : remote_id g m ≡ g.peer.id → IsRefused m s
    blocked_id : PeerList.is_block_peer (remote_id g m) s.peers ≡ true → IsRefused m s
    bad_key :
        (key : SessionKey)
        → m.is_self ≡ some key
        → (complete g.crypto key m.remote.key.pk m.remote.dh).0 ≡ false
        → IsRefused m s
    no_key :
        m.is_self ≡ none
        → complete_remote g m.remote.key m.remote.dh (g.draw s.log) ≡ none
        → IsRefused m s

abbrev closed : TransportRecvMessage → Server → Server
closed m s = told (to_endpoint m.endpoint_sender EndpointMessage.close) s

gate :
    {A : Type 0} (a b : Bool) (x y : A)
    → (a ≡ true) ⊎ ((b ≡ true) ⊎ (y ≡ x))
    → (if a then x else if b then x else y) ≡ x
gate true b x y h = refl
gate false true x y h = refl
gate false false x y h = ground arith

or_true : (a b : Bool) → (a ≡ true) ⊎ (b ≡ true) → (a || b) ≡ true
or_true true b h = refl
or_true false b h = ground arith

module _ (g : Global) (recv_data : Bool) where
  own_key-false :
      (r : Bool × SessionKey) (m : TransportRecvMessage) (s : Server)
      → r.0 ≡ false
      → own_key g recv_data r m s ≡ (ok tt, closed m s)
  unfolding own_key refuse
  own_key-false (true, key) m s e = absurd (ground arith)
  own_key-false (false, key) m s e = refl

  gates :
      (m : TransportRecvMessage) (s : Server)
      → (PeerList.is_block_addr m.addr s.peers ≡ true)
        ⊎ ((is_unwanted g (remote_id g m) s.peers ≡ true)
            ⊎ (agree_key g recv_data m.is_self m s ≡ (ok tt, closed m s)))
      → handle_trans g recv_data m s ≡ (ok tt, closed m s)
  unfolding handle_trans refuse
  gates m s h =
      gate (PeerList.is_block_addr m.addr s.peers) (is_unwanted g (remote_id g m) s.peers)
        (ok tt, closed m s) (agree_key g recv_data m.is_self m s) h

  -- A connection from a blocked address, with the id of this node or a blocked one, or whose key
  -- cannot be completed, is sent `Close` and nothing else happens.
  pub handle_trans_refuses :
      (m : TransportRecvMessage) (s : Server)
      → IsRefused g m s
      → handle_trans g recv_data m s
        ≡ (ok tt, told (to_endpoint m.endpoint_sender EndpointMessage.close) s)
  unfolding is_unwanted agree_key made_key refuse
  handle_trans_refuses m s (blocked_addr e) = gates m s (inl e)
  handle_trans_refuses m s (own_id e) = gates m s (
      inr (
        inl (
          or_true (equal PeerId-discrete (remote_id g m) g.peer.id)
            (PeerList.is_block_peer (remote_id g m) s.peers)
            (inl (equal_yes PeerId-discrete (remote_id g m) g.peer.id e)))))
  handle_trans_refuses m s (blocked_id e) = gates m s (
      inr (
        inl (
          or_true (equal PeerId-discrete (remote_id g m) g.peer.id)
            (PeerList.is_block_peer (remote_id g m) s.peers) (inr e))))
  handle_trans_refuses m s (bad_key key e n) = gates m s (
      inr (
        inr (
          ap (λ o. agree_key g recv_data o m s) e
          ∙ own_key-false (complete g.crypto key m.remote.key.pk m.remote.dh) m s n)))
  handle_trans_refuses m s (no_key e n) =
      gates m s (
        inr
          (inr (ap (λ o. agree_key g recv_data o m s) e ∙ ap (λ o. made_key g recv_data o m s) n)))
