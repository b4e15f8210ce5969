-- ===== src/Store/Meeting.antt =====
-- src/peer_list.rs: `add_dht` and `dht_get`.
use chamomile.Prelude.{
  ℕ, Bool, true, false, ◌&&◌, not, some, List, any, equal, ◌≡◌, refl, sym, ap, subst, if◌then◌else◌,
  Bool-cases, Option, none, inl, inr,
}
use chamomile.Prelude.Maybe.{map_option}
use chamomile.Types.Ids.{PeerId}
use chamomile.Types.Socket.{IpAddr, SocketAddr}
use chamomile.Types.Peer.{Peer, Peer-discrete}
use chamomile.Kad.Distance.{Key}
use chamomile.Kad.Double
use chamomile.Kad.Double.{KadValue, DoubleKadTree}
use chamomile.Kad.Double.Adding.{IsDouble, search-add, add-IsDouble}
use chamomile.Store.PeerList.{
  PeerList, senders, dht_get, add_dht, add_bootstrap, save, same_socket, peer_disconnect,
  last_position, without_saved,
}

add_bootstrap-dhts : (p : Peer) (l : PeerList) → (add_bootstrap p l).dhts ≡ l.dhts
unfolding add_bootstrap
add_bootstrap-dhts p l = elim (Bool-cases (any (same_socket p.socket) l.allows)) [
  | inl e ↦ rw e refl
  | inr e ↦ rw e refl
]

kept_dhts :
    (new : Bool) (p : Peer) (l : PeerList)
    → (if new then save (add_bootstrap p l) else l).dhts ≡ l.dhts
unfolding save
kept_dhts true p l = add_bootstrap-dhts p l
kept_dhts false p l = refl

-- what a node refuses: the ids and the addresses
abbrev pub blocks_of : PeerList → List PeerId × List IpAddr
blocks_of l = (l.block_peers, l.block_addrs)

add_bootstrap-blocks : (p : Peer) (l : PeerList) → blocks_of (add_bootstrap p l) ≡ blocks_of l
unfolding add_bootstrap
add_bootstrap-blocks p l = elim (Bool-cases (any (same_socket p.socket) l.allows)) [
  | inl e ↦ rw e refl
  | inr e ↦ rw e refl
]

kept_blocks :
    (new : Bool) (p : Peer) (l : PeerList)
    → blocks_of (if new then save (add_bootstrap p l) else l) ≡ blocks_of l
unfolding save
kept_blocks true p l = add_bootstrap-blocks p l
kept_blocks false p l = refl

without_saved-blocks : (o : Option ℕ) (l : PeerList) → blocks_of (without_saved o l) ≡ blocks_of l
unfolding without_saved save
without_saved-blocks (some i) l = refl
without_saved-blocks none l = refl

pub peer_disconnect-blocks :
    (addr : SocketAddr) (l : PeerList) → blocks_of (peer_disconnect addr l) ≡ blocks_of l
unfolding peer_disconnect
peer_disconnect-blocks addr l =
    without_saved-blocks (last_position (same_socket addr) l.allows 0 none) l

module _ (ids : Key PeerId) (sockets : Key SocketAddr) where
  pub add_dht-blocks :
      (rng : ℕ) (v : KadValue) (l : PeerList)
      → blocks_of (add_dht ids sockets rng v l).1 ≡ blocks_of l
  unfolding add_dht
  add_dht-blocks rng v l =
      kept_blocks (v.peer.is_pub && not (any (λ p. equal Peer-discrete p v.peer) l.allows)) v.peer l

  -- A peer that `add_dht` puts into well-formed trees is found among the met peers as itself, with its
  -- own channels.
  pub dht_get-add_dht :
      (rng : ℕ) (v : KadValue) (l : PeerList)
      → IsDouble ids sockets l.dhts
      → (add_dht ids sockets rng v l).0 ≡ true
      → dht_get ids sockets v.peer.id (add_dht ids sockets rng v l).1 ≡ some (senders v true)
  unfolding add_dht dht_get
  dht_get-add_dht rng v l h e =
      let new = v.peer.is_pub && not (any (λ p. equal Peer-discrete p v.peer) l.allows) in
      subst
        (λ (d : DoubleKadTree).
          (Double.add ids sockets d rng v).0 ≡ true
          → map_option (λ (r : KadValue × Bool). senders r.0 r.1)
              (Double.search ids sockets (Double.add ids sockets d rng v).1 v.peer.id)
            ≡ some (senders v true))
        (sym (kept_dhts new v.peer l))
        (λ a.
          ap (map_option (λ (r : KadValue × Bool). senders r.0 r.1))
            (search-add ids sockets l.dhts rng v h a).0)
        e

  -- `add_dht` keeps both trees well-formed.
  pub add_dht-IsDouble :
      (rng : ℕ) (v : KadValue) (l : PeerList)
      → IsDouble ids sockets l.dhts
      → IsDouble ids sockets (add_dht ids sockets rng v l).1.dhts
  unfolding add_dht
  add_dht-IsDouble rng v l h =
      let new = v.peer.is_pub && not (any (λ p. equal Peer-discrete p v.peer) l.allows) in
      subst (λ (d : DoubleKadTree). IsDouble ids sockets (Double.add ids sockets d rng v).1)
        (sym (kept_dhts new v.peer l)) (add-IsDouble ids sockets l.dhts rng v h)

without_saved-dhts : (o : Option ℕ) (l : PeerList) → (without_saved o l).dhts ≡ l.dhts
unfolding without_saved save
without_saved-dhts (some i) l = refl
without_saved-dhts none l = refl

pub peer_disconnect-dhts :
    (addr : SocketAddr) (l : PeerList) → (peer_disconnect addr l).dhts ≡ l.dhts
unfolding peer_disconnect
peer_disconnect-dhts addr l =
    without_saved-dhts (last_position (same_socket addr) l.allows 0 none) l
