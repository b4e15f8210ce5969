-- ===== src/Kad/Double/Adding.antt =====
-- src/kad.rs: `DoubleKadTree::add`, with `search` and `contains` after it.
use chamomile.Prelude.{ℕ, true, some, ◌≡◌, refl, sym, ◌∙◌, ℕ_discrete, Bool-cases, inl, inr}
use chamomile.Prelude.Map
use chamomile.Types.Ids.{PeerId}
use chamomile.Types.Socket.{SocketAddr}
use chamomile.Kad.Distance.{Key}
use chamomile.Kad.Tree.{tree_add, tree_contains, is_exact}
use chamomile.Kad.Tree.Adding.{IsKadTree, tree_add-AddPost}
use chamomile.Kad.Tree.Finding.{tree_search-tree_add}
use chamomile.Kad.Double.{KadValue, DoubleKadTree, remove_values, add, search, contains}

module _ (ids : Key PeerId) (sockets : Key SocketAddr) where
  pub record IsDouble (t : DoubleKadTree) : Type 0 where
    pub peers : IsKadTree ids t.peers
    pub ips : IsKadTree sockets t.ips

  -- Both trees of a double tree stay well-formed when a value is added.
  pub add-IsDouble :
      (t : DoubleKadTree) (value_key : ℕ) (v : KadValue)
      → IsDouble t
      → IsDouble (add ids sockets t value_key v).1
  unfolding add
  add-IsDouble t value_key v h =
      let peers = (tree_add-AddPost ids t.peers v.peer.id value_key h.peers).valid in
      let ips = (tree_add-AddPost sockets t.ips v.peer.socket value_key h.ips).valid in
      elim (Bool-cases (tree_add ids t.peers v.peer.id value_key).added) [
        | inl e ↦ rw e (record { peers = peers; ips = ips })
        | inr e ↦ rw e (record { peers = peers; ips = h.ips })
      ]

  added_peers :
      (t : DoubleKadTree) (value_key : ℕ) (v : KadValue)
      → (add ids sockets t value_key v).0 ≡ (tree_add ids t.peers v.peer.id value_key).added
  unfolding add
  added_peers t value_key v = elim (Bool-cases (tree_add ids t.peers v.peer.id value_key).added) [
    | inl e ↦ rw e refl
    | inr e ↦ rw e refl
  ]

  -- A value that is added to a double tree, both of whose trees are well-formed, is found under
  -- the id of its peer, as an exact answer, and the tree contains that id.
  pub search-add :
      (t : DoubleKadTree) (value_key : ℕ) (v : KadValue)
      → IsDouble t
      → (add ids sockets t value_key v).0 ≡ true
      → (search ids sockets (add ids sockets t value_key v).1 v.peer.id ≡ some (v, true))
        × (contains ids sockets (add ids sockets t value_key v).1 v.peer.id ≡ true)
  unfolding add search contains tree_contains is_exact
  search-add t value_key v h e =
      let a : (tree_add ids t.peers v.peer.id value_key).added ≡ true =
        sym (added_peers t value_key v) ∙ e in
      let found = tree_search-tree_add ids t.peers v.peer.id value_key h.peers a in
      let values = remove_values (tree_add ids t.peers v.peer.id value_key).removed t.values in
      (rw (a, found, Map.get-insert_self ℕ_discrete value_key v values), rw (a, found))
