-- ===== src/Kad/Tree.antt =====
-- src/kad.rs: `KadTree`, whose root chooses a side by the first bit of the distance to its key.
pub mod Adding
pub mod Finding
pub mod Removing
use chamomile.Prelude.{ℕ, Bool, true, false, Option, none, some, List, [], if◌then◌else◌, equal}
use chamomile.Kad.Distance.{Distance, Key, get_bit, calc_distance}
use chamomile.Kad.Node.{Cell, TreeNode, absent, Inserted, insert, k_bucket, present}
use chamomile.Kad.Lookup.{Found, search, remove_node, keys, is_empty}

pub record KadTree (K : Type 0) : Type 0 where
  pub root_key : K
  pub left : TreeNode K
  pub right : TreeNode K

-- The results of `KadTree::add`: whether the key is in, the values that had to go, the tree.
pub record Added (K : Type 0) : Type 0 where
  pub added : Bool
  pub removed : List ℕ
  pub tree : KadTree K

-- Fuel for an insertion below the root: one level takes two calls at most, and there are 8.
abbrev pub insert_fuel : ℕ
insert_fuel = 15

module _ {K : Type 0} where
  unfoldable pub new_tree : K → KadTree K
  new_tree root = record { root_key = root; left = absent; right = absent }

  unfoldable pub tree_keys : KadTree K → List K
  tree_keys t = keys t.right (keys t.left [])

  unfoldable pub tree_is_empty : KadTree K → Bool
  tree_is_empty t = if is_empty t.left then is_empty t.right else false

  -- A child after an insertion; without fuel the tree is left as it was.
  unfoldable pub settle : KadTree K → (TreeNode K → KadTree K) → Option (Inserted K) → Added K
  settle t put none = record { added = false; removed = []; tree = t }
  settle t put (some r) = record { added = r.added; removed = r.removed; tree = put r.tree }

  -- `match self.search(key) { Some((_, _, true)) => true, _ => false }`
  unfoldable pub is_exact : Option (Found K) → Bool
  is_exact none = false
  is_exact (some f) = f.is_it

module _ {K : Type 0} (key : Key K) where
  unfoldable pub tree_add : KadTree K → K → ℕ → Added K
  tree_add t k value =
      let distance = calc_distance key t.root_key k in
      let cell : Cell K = record { key = k; value = value; distance = distance } in
      if get_bit distance 0
      then settle t (λ r. record t { right = r }) (insert key insert_fuel t.right cell 1 k_bucket)
      else settle t (λ l. record t { left = l }) (insert key insert_fuel t.left cell 1 k_bucket)

  -- the child on the key's side, or the other one where there is none
  unfoldable pub tree_search : KadTree K → K → Option (Found K)
  tree_search t k =
      let distance = calc_distance key t.root_key k in
      if get_bit distance 0
      then search key (if present t.right then t.right else t.left) k distance 1
      else search key (if present t.left then t.left else t.right) k distance 1

  unfoldable pub tree_remove : KadTree K → K → Option ℕ × KadTree K
  tree_remove t k =
      let distance = calc_distance key t.root_key k in
      if get_bit distance 0
      then (let (v, r) = remove_node key t.right k distance 1 in (v, record t { right = r }))
      else (let (v, l) = remove_node key t.left k distance 1 in (v, record t { left = l }))

  unfoldable pub tree_contains : KadTree K → K → Bool
  tree_contains t k = is_exact (tree_search t k)

  -- the value under the closest key, unless that is the peer that the message came from
  unfoldable pub tree_next_closest : KadTree K → K → K → Option ℕ
  tree_next_closest t k prev = elim (tree_search t k) [
    | none ↦ none
    | some f ↦ if equal key.eq f.key prev then none else some f.value
  ]
