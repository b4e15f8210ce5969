-- ===== src/Kad/Lookup.antt =====
-- src/kad.rs: what a node answers without growing: `search`, `remove`, `keys`, `is_empty`.
use chamomile.Prelude.{
  ℕ, suc, Bool, true, false, Option, none, some, List, [], ◌∷◌, ◌++◌, map, if◌then◌else◌, equal,
  get_elem?, remove_at,
}
use chamomile.Prelude.Maybe.{or_else, map_option}
use chamomile.Kad.Distance.{Distance, Key, get_bit, max_distance, xor}
use chamomile.Kad.Node.{Cell, TreeNode, absent, node}

-- `Some((key, value, is_it))`
pub record Found (K : Type 0) : Type 0 where
  pub key : K
  pub value : ℕ
  pub is_it : Bool

-- How the loop of `search` ends: at the key's own cell, or with the index of the closest one.
pub data Scan (K : Type 0) : Type 0 where
  exact : Cell K → Scan K
  closest : Option ℕ → Scan K

module _ {K : Type 0} where
  -- the loop of `remove`: the index of the last cell of the key
  unfoldable pub scan_index : Discrete K → K → List (Cell K) → ℕ → Option ℕ → Option ℕ
  scan_index eq key [] i found = found
  scan_index eq key (c ∷ list) i found =
      scan_index eq key list (suc i) (if equal eq c.key key then some i else found)

  unfoldable pub found_at : List (Cell K) → Option ℕ → Option (Found K)
  found_at list none = none
  found_at list (some i) =
      map_option (λ c. record { key = c.key; value = c.value; is_it = false }) (get_elem? list i)

  -- `Node::keys`, which pushes onto `vec`
  unfoldable pub keys : TreeNode K → List K → List K
  keys absent vec = vec
  keys (node l r list) vec = keys r (keys l (vec ++ map (λ c. c.key) list))

  unfoldable pub no_cell : List (Cell K) → Bool
  no_cell [] = true
  no_cell (c ∷ list) = false

  unfoldable pub is_empty : TreeNode K → Bool
  unfolding no_cell
  is_empty absent = true
  is_empty (node l r list) =
      if no_cell list then (if is_empty l then is_empty r else false) else false

module _ {K : Type 0} (key : Key K) where
  unfoldable pub scan_closest : K → Distance → List (Cell K) → ℕ → Option ℕ → Distance → Scan K
  scan_closest k distance [] i closest_index closest_distance = closest closest_index
  scan_closest k distance (c ∷ list) i closest_index closest_distance =
      let dis = xor key.key_length distance c.distance in
      let better = key.closer dis closest_distance in
      let rest =
        scan_closest k distance list (suc i) (if better then some i else closest_index)
          (if better then dis else closest_distance) in
      if equal key.eq c.key k then exact c else rest

  -- what `search` returns for a node, given what the child on the key's side returns
  unfoldable pub answer : Scan K → List (Cell K) → Option (Found K) → Option (Found K)
  unfolding found_at
  answer (exact c) list next = some (record { key = c.key; value = c.value; is_it = true })
  answer (closest i) list next = or_else next (found_at list i)

  unfoldable pub search : TreeNode K → K → Distance → ℕ → Option (Found K)
  search absent k distance index = none
  search (node l r list) k distance index =
      answer (scan_closest k distance list 0 none (max_distance key.key_length)) list
        (elim (get_bit distance index) [
          | true ↦ search r k distance (suc index)
          | false ↦ search l k distance (suc index)
        ])

  -- `Node::remove`: the value of the cell that is gone, and the node without it
  unfoldable pub remove_node : TreeNode K → K → Distance → ℕ → Option ℕ × TreeNode K
  remove_node absent k distance index = (none, absent)
  remove_node (node l r list) k distance index = elim (scan_index key.eq k list 0 none) [
    | some i ↦ (map_option (λ c. c.value) (get_elem? list i), node l r (remove_at list i))
    | none ↦ elim (get_bit distance index) [
      | true ↦ let (v, r') = remove_node r k distance (suc index) in (v, node l r' list)
      | false ↦ let (v, l') = remove_node l k distance (suc index) in (v, node l' r list)
    ]
  ]
