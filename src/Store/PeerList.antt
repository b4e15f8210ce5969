-- ===== src/Store/PeerList.antt =====
-- src/peer_list.rs: the peers of a node. `save` writes the allowed peers to a file: `saved` holds
-- what the writes so far wrote.
pub mod All
pub mod Load
use chamomile.Prelude.{
  ℕ, suc, Bool, true, false, ◌||◌, ◌&&◌, not, Option, none, some, List, [], ◌∷◌, ◌++◌,
  if◌then◌else◌, equal, any, remove_at, get_elem?,
}
use chamomile.Prelude.Result.{Result, ok, err}
use chamomile.Prelude.Map
use chamomile.Prelude.Map.{Map}
use chamomile.Prelude.Maybe.{◌>>=◌, or_else, map_option}
use chamomile.Types.Ids.{PeerId, PeerId-discrete}
use chamomile.Types.Socket.{IpAddr, IpAddr-discrete, SocketAddr, SocketAddr-discrete}
use chamomile.Types.Peer.{Peer, Peer-discrete, peer_of_id, effective_socket}
use chamomile.Kad.Distance.{Key}
use chamomile.Kad.Double
use chamomile.Kad.Double.{KadValue, DoubleKadTree}

-- An entry of `stables`, and whether its connection is direct.
pub record Stable : Type 0 where
  pub value : KadValue
  pub is_direct : Bool

pub record PeerList : Type 0 where
  pub saved : List (List Peer)
  pub allows : List Peer
  pub block_peers : List PeerId
  pub block_addrs : List IpAddr
  pub dhts : DoubleKadTree
  pub stables : Map PeerId Stable

-- What a lookup returns: the session's sender, the stream's sender, and whether it is the peer.
pub record Senders : Type 0 where
  pub session : ℕ
  pub stream : ℕ
  pub is_it : Bool

unfoldable pub senders : KadValue → Bool → Senders
senders v is_it = record { session = v.session; stream = v.stream; is_it = is_it }

unfoldable pub no_stables : Map PeerId Stable → Bool
no_stables [] = true
no_stables (e ∷ m) = false

unfoldable pub is_empty : PeerList → Bool
unfolding no_stables
is_empty l = no_stables l.stables && Double.double_is_empty l.dhts

unfoldable pub stable_get : PeerId → PeerList → Option Senders
unfolding senders
stable_get p l =
    map_option (λ (s : Stable). senders s.value true) (Map.get PeerId-discrete p l.stables)

-- `is_it.then(|| stream)`
unfoldable pub stream_if : Senders → Option ℕ
stream_if s = if s.is_it then some s.stream else none

unfoldable pub get_stable_stream : PeerId → PeerList → Option ℕ
unfolding stable_get stream_if
get_stable_stream p l = stable_get p l >>= stream_if

unfoldable pub session_if_relay : Stable → Option ℕ
session_if_relay s = if s.is_direct then none else some s.value.session

unfoldable pub is_relay : PeerId → PeerList → Option ℕ
unfolding session_if_relay
is_relay p l = Map.get PeerId-discrete p l.stables >>= session_if_relay

unfoldable pub save : PeerList → PeerList
save l = record l { saved = l.saved ++ l.allows ∷ [] }

-- `filter_map(|p| p.effective_socket().then(|| p))`
unfoldable pub effective_peers : List Peer → List Peer
effective_peers [] = []
effective_peers (p ∷ ps) = if effective_socket p then p ∷ effective_peers ps else effective_peers ps

unfoldable pub bootstrap : PeerList → List Peer
unfolding effective_peers
bootstrap l = effective_peers l.allows

unfoldable pub same_socket : SocketAddr → Peer → Bool
same_socket s p = equal SocketAddr-discrete p.socket s

unfoldable pub same_id : PeerId → Peer → Bool
same_id id p = equal PeerId-discrete p.id id

unfoldable pub add_bootstrap : Peer → PeerList → PeerList
unfolding same_socket
add_bootstrap peer l =
    if any (same_socket peer.socket) l.allows
    then l
    else record l { allows = l.allows ++ peer ∷ [] }

unfoldable pub add_allow_peer : PeerId → PeerList → PeerList
unfolding same_id
add_allow_peer pid l =
    if any (same_id pid) l.allows then l else record l { allows = l.allows ++ peer_of_id pid ∷ [] }

module _ {A : Type 0} where
  -- `iter().position(test)`
  unfoldable pub position : (A → Bool) → List A → ℕ → Option ℕ
  position test [] i = none
  position test (x ∷ xs) i = let rest = position test xs (suc i) in if test x then some i else rest

  -- the loop that keeps the last index
  unfoldable pub last_position : (A → Bool) → List A → ℕ → Option ℕ → Option ℕ
  last_position test [] i d = d
  last_position test (x ∷ xs) i d = last_position test xs (suc i) (if test x then some i else d)

  -- `Vec::remove` at a position that was found
  unfoldable pub without : Option ℕ → List A → List A
  without none xs = xs
  without (some i) xs = remove_at xs i

unfoldable pub remove_allow_peer : PeerId → PeerList → Option Peer × PeerList
unfolding same_id position without
remove_allow_peer p l =
    let pos = position (same_id p) l.allows 0 in
    (pos >>= get_elem? l.allows, record l { allows = without pos l.allows })

unfoldable pub without_saved : Option ℕ → PeerList → PeerList
unfolding save
without_saved (some i) l = save (record l { allows = remove_at l.allows i })
without_saved none l = l

unfoldable pub peer_disconnect : SocketAddr → PeerList → PeerList
unfolding same_socket last_position without_saved
peer_disconnect addr l = without_saved (last_position (same_socket addr) l.allows 0 none) l

unfoldable pub stable_leave : PeerId → PeerList → PeerList
stable_leave p l = record l { stables = Map.remove PeerId-discrete p l.stables }

unfoldable pub is_block_peer : PeerId → PeerList → Bool
is_block_peer p l = any (λ q. equal PeerId-discrete q p) l.block_peers

unfoldable pub is_block_addr : SocketAddr → PeerList → Bool
is_block_addr addr l = any (λ a. equal IpAddr-discrete a addr.ip) l.block_addrs

unfoldable pub add_block_peer : PeerId → PeerList → PeerList
unfolding is_block_peer
add_block_peer p l =
    if is_block_peer p l then l else record l { block_peers = l.block_peers ++ p ∷ [] }

unfoldable pub add_block_addr : SocketAddr → PeerList → PeerList
unfolding is_block_addr
add_block_addr addr l =
    if is_block_addr addr l then l else record l { block_addrs = l.block_addrs ++ addr.ip ∷ [] }

unfoldable pub remove_block_peer : PeerId → PeerList → Option PeerId × PeerList
unfolding position without
remove_block_peer p l =
    let pos = position (λ q. equal PeerId-discrete q p) l.block_peers 0 in
    (pos >>= get_elem? l.block_peers, record l { block_peers = without pos l.block_peers })

unfoldable pub remove_block_addr : SocketAddr → PeerList → Option IpAddr × PeerList
unfolding position without
remove_block_addr addr l =
    let pos = position (λ a. equal IpAddr-discrete a addr.ip) l.block_addrs 0 in
    (pos >>= get_elem? l.block_addrs, record l { block_addrs = without pos l.block_addrs })

-- `add_stable`, on the entry that `insert` gives back: the session that is told to close, and the list
unfoldable pub replace_stable :
    Option Stable → PeerId → Map PeerId Stable → PeerList → Option ℕ × PeerList
unfolding add_allow_peer
replace_stable (some old) p stables l = (some old.value.session, record l { stables = stables })
replace_stable none p stables l = (none, record (add_allow_peer p l) { stables = stables })

unfoldable pub add_stable : PeerId → KadValue → Bool → PeerList → Option ℕ × PeerList
unfolding replace_stable
add_stable p v is_direct l =
    replace_stable (Map.get PeerId-discrete p l.stables) p
      (Map.insert PeerId-discrete p (record { value = v; is_direct = is_direct }) l.stables) l

module _ (ids : Key PeerId) (sockets : Key SocketAddr) where
  unfoldable pub dht_get : PeerId → PeerList → Option Senders
  unfolding senders
  dht_get p l =
      map_option (λ (r : KadValue × Bool). senders r.0 r.1) (Double.search ids sockets l.dhts p)

  unfoldable pub get : PeerId → PeerList → Option Senders
  unfolding stable_get dht_get
  get p l = or_else (stable_get p l) (dht_get p l)

  unfoldable pub next_closest : PeerId → PeerId → PeerList → Option ℕ
  next_closest target prev l =
      or_else
        (map_option (λ (s : Stable). s.value.session) (Map.get PeerId-discrete target l.stables))
        (map_option (λ (v : KadValue). v.session)
          (Double.id_next_closest ids sockets l.dhts target prev))

  unfoldable pub contains : PeerId → PeerList → Bool
  contains p l =
      Map.contains_key PeerId-discrete p l.stables || Double.contains ids sockets l.dhts p

  unfoldable pub remove_peer : PeerId → PeerList → Option KadValue × PeerList
  remove_peer p l =
      let (v, dhts) = Double.remove ids sockets l.dhts p in (v, record l { dhts = dhts })

  -- `add_dht`; `rng` is the key that `DoubleKadTree::add` draws
  unfoldable pub add_dht : ℕ → KadValue → PeerList → Bool × PeerList
  unfolding add_bootstrap save
  add_dht rng v l =
      let new = v.peer.is_pub && not (any (λ p. equal Peer-discrete p v.peer) l.allows) in
      let l' = if new then save (add_bootstrap v.peer l) else l in
      let (added, dhts) = Double.add ids sockets l'.dhts rng v in (added, record l' { dhts = dhts })

  -- the two tests of `stable_to_dht` on the entry that it took out
  unfoldable pub back_to_dht : ℕ → Option Stable → PeerList → Result (Unit {0}) × PeerList
  back_to_dht rng none l = (err "stable is closed", l)
  back_to_dht rng (some s) l =
      let (added, dhts) = Double.add ids sockets l.dhts rng s.value in
      if s.is_direct
      then (if added
          then (ok tt, record l { dhts = dhts })
          else (err "stable is closed", record l { dhts = dhts }))
      else (err "stable is closed", l)

  unfoldable pub stable_to_dht : ℕ → PeerId → PeerList → Result (Unit {0}) × PeerList
  unfolding remove_allow_peer stable_leave back_to_dht
  stable_to_dht rng p l =
      let l' = (remove_allow_peer p l).1 in
      back_to_dht rng (Map.get PeerId-discrete p l'.stables) (stable_leave p l')

  unfoldable pub dht_to_stable : PeerId → PeerList → Result (Unit {0}) × PeerList
  unfolding add_allow_peer
  dht_to_stable p l =
      let (v, dhts) = Double.remove ids sockets l.dhts p in
      let l' = record l { dhts = dhts } in
      elim v [
        | none ↦ (err "DHT is closed", l')
        | some value ↦ (
          ok tt,
          record (add_allow_peer p l') {
            stables =
                Map.insert PeerId-discrete p (record { value = value; is_direct = true })
                  l'.stables;
          },
        )
      ]

  -- `help_dht`: the exact entries of the tree and the stable peers, but for the peer that asks
  unfoldable pub known_peers :
      PeerId → List PeerId → DoubleKadTree → Map PeerId Peer → Map PeerId Peer
  known_peers asker [] t known = known
  known_peers asker (k ∷ keys) t known = known_peers asker keys t (
      if equal PeerId-discrete k asker then known else elim (Double.search ids sockets t k) [
        | some (v, true) ↦ Map.insert PeerId-discrete v.peer.id v.peer known
        | _ ↦ known
      ])

  unfoldable pub stable_peers : PeerId → Map PeerId Stable → Map PeerId Peer → Map PeerId Peer
  stable_peers asker [] known = known
  stable_peers asker ((p, s) ∷ m) known = stable_peers asker m (
      if equal PeerId-discrete p asker
      then known
      else Map.insert PeerId-discrete p s.value.peer known)

  unfoldable pub values : Map PeerId Peer → List Peer
  values [] = []
  values ((p, peer) ∷ m) = peer ∷ values m

  unfoldable pub help_dht : PeerId → PeerList → List Peer
  unfolding known_peers stable_peers values
  help_dht asker l =
      values
        (stable_peers asker l.stables (known_peers asker (Double.double_keys l.dhts) l.dhts []))
