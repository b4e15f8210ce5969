-- ===== src/Kad/Double.antt =====
-- src/kad.rs: `DoubleKadTree`, one table of values under two trees. A `Sender` is the number of its
-- channel; the key of a value, which the source draws at random, is an argument.
pub mod Adding
pub mod Removing
use chamomile.Prelude.{
  ℕ, Bool, true, false, Option, none, some, List, [], ◌∷◌, ℕ_discrete, if◌then◌else◌,
}
use chamomile.Prelude.Map
use chamomile.Prelude.Map.{Map}
use chamomile.Prelude.Maybe.{◌>>=◌, map_option}
use chamomile.Types.Ids.{PeerId}
use chamomile.Types.Socket.{SocketAddr}
use chamomile.Types.Peer.{Peer}
use chamomile.Kad.Distance.{Key}
use chamomile.Kad.Tree.{
  KadTree, new_tree, tree_keys, tree_is_empty, tree_add, tree_search, tree_remove, tree_contains,
  tree_next_closest,
}

pub record KadValue : Type 0 where
  pub session : ℕ
  pub stream : ℕ
  pub peer : Peer

pub record DoubleKadTree : Type 0 where
  pub values : Map ℕ KadValue
  pub peers : KadTree PeerId
  pub ips : KadTree SocketAddr

unfoldable pub new_double : PeerId → SocketAddr → DoubleKadTree
new_double root_peer root_ip = record {
  values = [];
  peers = new_tree root_peer;
  ips = new_tree root_ip;
}

-- `for i in removed { self.values.remove(&i); }`
unfoldable pub remove_values : List ℕ → Map ℕ KadValue → Map ℕ KadValue
remove_values [] values = values
remove_values (i ∷ removed) values = remove_values removed (Map.remove ℕ_discrete i values)

module _ (ids : Key PeerId) (sockets : Key SocketAddr) where
  unfoldable pub add : DoubleKadTree → ℕ → KadValue → Bool × DoubleKadTree
  add t value_key value =
      let res = tree_add ids t.peers value.peer.id value_key in
      let values = remove_values res.removed t.values in
      if res.added
      then (
        true,
        record {
          values = Map.insert ℕ_discrete value_key value values;
          peers = res.tree;
          ips = (tree_add sockets t.ips value.peer.socket value_key).tree;
        },
      )
      else (false, record t { values = values; peers = res.tree })

  unfoldable pub id_next_closest : DoubleKadTree → PeerId → PeerId → Option KadValue
  id_next_closest t key prev =
      tree_next_closest ids t.peers key prev >>= λ k. Map.get ℕ_discrete k t.values

  unfoldable pub ip_next_closest : DoubleKadTree → SocketAddr → SocketAddr → Option KadValue
  ip_next_closest t key prev =
      tree_next_closest sockets t.ips key prev >>= λ k. Map.get ℕ_discrete k t.values

  unfoldable pub search : DoubleKadTree → PeerId → Option (KadValue × Bool)
  search t key = tree_search ids t.peers key >>= λ f.
      map_option (λ v. (v, f.is_it)) (Map.get ℕ_discrete f.value t.values)

  -- `values.remove` and `ips.remove` once the value's key is known
  unfoldable pub remove_value : DoubleKadTree → Option ℕ → Option KadValue × DoubleKadTree
  remove_value t none = (none, t)
  remove_value t (some k) = elim (Map.get ℕ_discrete k t.values) [
    | none ↦ (none, t)
    | some value ↦ (
      some value,
      record t {
        values = Map.remove ℕ_discrete k t.values;
        ips = (tree_remove sockets t.ips value.peer.socket).1;
      },
    )
  ]

  unfoldable pub remove : DoubleKadTree → PeerId → Option KadValue × DoubleKadTree
  unfolding remove_value
  remove t key =
      let (k, peers) = tree_remove ids t.peers key in remove_value (record t { peers = peers }) k

  unfoldable pub contains : DoubleKadTree → PeerId → Bool
  contains t key = tree_contains ids t.peers key

unfoldable pub double_keys : DoubleKadTree → List PeerId
double_keys t = tree_keys t.peers

unfoldable pub double_is_empty : DoubleKadTree → Bool
double_is_empty t = tree_is_empty t.peers
