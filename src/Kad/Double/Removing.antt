-- ===== src/Kad/Double/Removing.antt =====
-- src/kad.rs: `DoubleKadTree::remove`, with `search` and `contains` after it.
use chamomile.Prelude.{
  ℕ, Bool, false, Option, none, some, ◌≡◌, ◌≢◌, inl, inr, refl, ap, ◌∙◌, ℕ_discrete, Bool-cases,
  Option-cases, if◌then◌else◌,
}
use chamomile.Prelude.Map
use chamomile.Prelude.Maybe.{◌>>=◌, map_option}
use chamomile.Types.Ids.{PeerId}
use chamomile.Types.Socket.{SocketAddr}
use chamomile.Kad.Distance.{Key}
use chamomile.Kad.Lookup.{Found}
use chamomile.Kad.Tree.{tree_remove, tree_search}
use chamomile.Kad.Tree.Removing.{exact_value, tree_search-tree_remove, tree_contains-tree_remove_ne}
use chamomile.Kad.Double.{KadValue, DoubleKadTree, search, remove_value, remove, contains}
use chamomile.Kad.Double.Adding.{IsDouble}

-- the value of an answer that is exact
abbrev pub exact_match : Option (KadValue × Bool) → Option KadValue
exact_match o = o >>= λ f. if f.1 then some f.0 else none

module _ (ids : Key PeerId) (sockets : Key SocketAddr) where
  remove_value-peers :
      (t : DoubleKadTree) (o : Option ℕ) → (remove_value ids sockets t o).1.peers ≡ t.peers
  unfolding remove_value
  remove_value-peers t none = refl
  remove_value-peers t (some k) = elim (Option-cases (Map.get ℕ_discrete k t.values)) [
    | inl e ↦ rw (remove_value, e) refl
    | inr (v, e) ↦ rw (remove_value, e) refl
  ]

  remove_value-IsDouble :
      (t : DoubleKadTree) (o : Option ℕ)
      → IsDouble ids sockets t
      → IsDouble ids sockets (remove_value ids sockets t o).1
  unfolding remove_value
  remove_value-IsDouble t none h = h
  remove_value-IsDouble t (some k) h = elim (Option-cases (Map.get ℕ_discrete k t.values)) [
    | inl e ↦ rw (remove_value, e) h
    | inr (v, e) ↦
        rw (remove_value, e)
          (record {
            peers = h.peers;
            ips = (tree_search-tree_remove sockets t.ips v.peer.socket h.ips).1;
          })
  ]

  -- on what the tree of ids answers
  remove_value-exact :
      (t : DoubleKadTree) (o : Option (Found PeerId))
      → (remove_value ids sockets t (exact_value o)).0
        ≡ exact_match
            (o >>= λ f. map_option (λ v. (v, f.is_it)) (Map.get ℕ_discrete f.value t.values))
  unfolding remove_value
  remove_value-exact t none = refl
  remove_value-exact t (some f) = elim (Bool-cases f.is_it) [
    | inl b ↦ elim (Option-cases (Map.get ℕ_discrete f.value t.values)) [
      | inl e ↦ rw (b, remove_value, e) refl
      | inr (v, e) ↦ rw (b, remove_value, e) refl
    ]
    | inr b ↦ elim (Option-cases (Map.get ℕ_discrete f.value t.values)) [
      | inl e ↦ rw (b, remove_value, e) refl
      | inr (v, e) ↦ rw (b, remove_value, e) refl
    ]
  ]

  -- Removing an id from a double tree, both of whose trees are well-formed, returns the value that a
  -- search finds for exactly this id, or nothing where there is none; both trees stay well-formed, the
  -- id is not contained any more, and every other id is contained as before.
  pub contains-remove :
      (t : DoubleKadTree) (k : PeerId)
      → IsDouble ids sockets t
      → let (v, t') = remove ids sockets t k in
        (v ≡ exact_match (search ids sockets t k))
        × IsDouble ids sockets t'
        × (contains ids sockets t' k ≡ false)
        × ((j : PeerId) → j ≢ k → contains ids sockets t' j ≡ contains ids sockets t j)
  unfolding remove search contains
  contains-remove t k h =
      let (value, after, gone, same) = tree_search-tree_remove ids t.peers k h.peers in
      let found = (tree_remove ids t.peers k).0 in
      let removed = record t { peers = (tree_remove ids t.peers k).1 } in
      (
        ap (λ o. (remove_value ids sockets removed o).0) value
            ∙ remove_value-exact removed (tree_search ids t.peers k),
        remove_value-IsDouble removed found (record { peers = after; ips = h.ips }),
        rw (remove_value-peers removed found) gone,
        λ j n.
            rw (remove_value-peers removed found)
              (tree_contains-tree_remove_ne ids t.peers k j h.peers n),
      )
