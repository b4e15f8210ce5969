-- ===== src/Store/PeerList/All.antt =====
-- src/peer_list.rs: what a broadcast and a question for the state of the network read.
use chamomile.Prelude.{ℕ, Bool, List, [], ◌∷◌, Option, none, some}
use chamomile.Prelude.Map
use chamomile.Prelude.Map.{Map}
use chamomile.Types.Ids.{PeerId, PeerId-discrete}
use chamomile.Types.Socket.{SocketAddr}
use chamomile.Kad.Distance.{Key}
use chamomile.Kad.Double
use chamomile.Store.PeerList.{Stable, PeerList, Senders, dht_get}

unfoldable pub dht_keys : PeerList → List PeerId
dht_keys l = Double.double_keys l.dhts

-- the session of each stable peer, and whether its connection is direct
unfoldable pub stable_entries : Map PeerId Stable → Map PeerId (ℕ × Bool)
stable_entries [] = []
stable_entries ((p, s) ∷ m) = (p, (s.value.session, s.is_direct)) ∷ stable_entries m

unfoldable pub stable_all : PeerList → Map PeerId (ℕ × Bool)
unfolding stable_entries
stable_all l = stable_entries l.stables

-- the second loop of `all`
unfoldable pub with_stables : Map PeerId Stable → Map PeerId ℕ → Map PeerId ℕ
with_stables [] known = known
with_stables ((p, s) ∷ m) known =
    with_stables m (Map.insert PeerId-discrete p s.value.session known)

unfoldable pub insert_found : PeerId → Option Senders → Map PeerId ℕ → Map PeerId ℕ
insert_found p none known = known
insert_found p (some found) known = Map.insert PeerId-discrete p found.session known

module _ (ids : Key PeerId) (sockets : Key SocketAddr) where
  -- the first loop of `all`
  unfoldable pub with_dhts : List PeerId → PeerList → Map PeerId ℕ → Map PeerId ℕ
  unfolding insert_found
  with_dhts [] l known = known
  with_dhts (k ∷ keys) l known = with_dhts keys l (insert_found k (dht_get ids sockets k l) known)

  unfoldable pub all : PeerList → Map PeerId ℕ
  unfolding with_dhts with_stables
  all l = with_stables l.stables (with_dhts (dht_keys l) l [])
