-- ===== src/Kad/Node.antt =====
-- src/kad.rs: the nodes of the tree. `Option<Box<Node>>` is `absent` or a `node`.
use chamomile.Prelude.{
  ℕ, zero, suc, Bool, true, false, ◌||◌, Option, none, some, List, [], ◌∷◌, ◌++◌, ltb, leb,
  if◌then◌else◌, equal, length, remove_at,
}
use chamomile.Prelude.Maybe.{◌>>=◌, map_option}
use chamomile.Kad.Distance.{Distance, Key, get_bit}

abbrev pub max_level : ℕ
max_level = 8

abbrev pub k_bucket : ℕ
k_bucket = 4

pub record Cell (K : Type 0) : Type 0 where
  pub key : K
  pub value : ℕ
  pub distance : Distance

pub data TreeNode (K : Type 0) : Type 0 where
  absent : TreeNode K
  node : TreeNode K → TreeNode K → List (Cell K) → TreeNode K

-- What `insert` returns, and the node that it leaves.
pub record Inserted (K : Type 0) : Type 0 where
  pub added : Bool
  pub removed : List ℕ
  pub tree : TreeNode K

module _ {K : Type 0} where
  -- `is_some`
  unfoldable pub present : TreeNode K → Bool
  present absent = false
  present (node l r list) = true

  -- The fields of a child. An absent child counts as `Node::default()`, which `insert` and
  -- `KadTree::add` put in its place before they go on with it.
  unfoldable pub left_of : TreeNode K → TreeNode K
  left_of absent = absent
  left_of (node l r list) = l

  unfoldable pub right_of : TreeNode K → TreeNode K
  right_of absent = absent
  right_of (node l r list) = r

  unfoldable pub list_of : TreeNode K → List (Cell K)
  list_of absent = []
  list_of (node l r list) = list

  -- `Node::default()`
  abbrev pub default_node : TreeNode K
  default_node = node absent absent []

  -- the loop that collects the values of the cells with this key: the last one's index too
  unfoldable pub scan_same :
      Discrete K → K → List (Cell K) → ℕ → Option ℕ → List ℕ → Option ℕ × List ℕ
  scan_same eq key [] i need_deleted removed = (need_deleted, removed)
  scan_same eq key (c ∷ list) i need_deleted removed =
      scan_same eq key list (suc i) (if equal eq c.key key then some i else need_deleted)
        (if equal eq c.key key then removed ++ c.value ∷ [] else removed)

  -- `if need_deleted != usize::MAX { self.list.remove(need_deleted); }`
  unfoldable pub remove_found : Option ℕ → List (Cell K) → List (Cell K)
  remove_found none list = list
  remove_found (some i) list = remove_at list i

  -- the loop that gives the first cell farther than the new one away: its value, and the list
  unfoldable pub replace_farther :
      (Distance → Distance → Bool) → Cell K → List (Cell K) → Option (ℕ × List (Cell K))
  replace_farther closer cell [] = none
  replace_farther closer cell (v ∷ list) =
      let rest = map_option (λ p. (p.0, v ∷ p.1)) (replace_farther closer cell list) in
      if closer cell.distance v.distance then some (v.value, cell ∷ list) else rest

  unfoldable pub with_tree : (TreeNode K → TreeNode K) → Inserted K → Inserted K
  with_tree f r = record r { tree = f r.tree }

  -- `while !self.list.is_empty()`: every cell goes into a child of the node that was split. `ins`
  -- is `insert`, and leaves the list of such a node alone.
  unfoldable pub spread :
      (TreeNode K → Cell K → ℕ → ℕ → Option (Inserted K))
      → List (Cell K)
      → TreeNode K
      → TreeNode K
      → ℕ
      → ℕ
      → Option (TreeNode K)
  spread ins [] l r index bucket = some (node l r [])
  spread ins (c ∷ list) l r index bucket = ins (node l r list) c index bucket >>= λ res.
      spread ins list (left_of res.tree) (right_of res.tree) index bucket

module _ {K : Type 0} (key : Key K) where
  -- The branch at a full list: the last level gives a farther cell away, any other splits.
  unfoldable pub insert_full :
      (TreeNode K → Cell K → ℕ → ℕ → Option (Inserted K))
      → List (Cell K)
      → List ℕ
      → Cell K
      → ℕ
      → ℕ
      → Option (Inserted K)
  insert_full ins list removed cell index bucket =
      if leb max_level index
      then elim (replace_farther key.closer cell list) [
        | some (v, list') ↦
            some (record {
              added = true;
              removed = removed ++ v ∷ [];
              tree = node absent absent list';
            })
        | none ↦ some (record { added = false; removed = removed; tree = node absent absent list })
      ]
      else (spread ins list default_node default_node index bucket >>= λ split.
          ins split cell index bucket)

  -- The branch at a node with no child.
  unfoldable pub insert_leaf :
      (TreeNode K → Cell K → ℕ → ℕ → Option (Inserted K))
      → List (Cell K)
      → Cell K
      → ℕ
      → ℕ
      → Option (Inserted K)
  insert_leaf ins list cell index bucket =
      let (need_deleted, removed) = scan_same key.eq cell.key list 0 none [] in
      let rest = remove_found need_deleted list in
      if ltb (length rest) bucket
      then some (record {
        added = true;
        removed = removed;
        tree = node absent absent (rest ++ cell ∷ []);
      })
      else insert_full ins rest removed cell index bucket

  -- One call of `insert`, with `ins` for the calls that it makes.
  unfoldable pub insert_step :
      (TreeNode K → Cell K → ℕ → ℕ → Option (Inserted K))
      → TreeNode K
      → Cell K
      → ℕ
      → ℕ
      → Option (Inserted K)
  insert_step ins t cell index bucket =
      if present (right_of t) || present (left_of t)
      then (if get_bit cell.distance index
          then map_option (with_tree λ r. node (left_of t) r (list_of t))
              (ins (right_of t) cell (suc index) bucket)
          else map_option (with_tree λ l. node l (right_of t) (list_of t))
              (ins (left_of t) cell (suc index) bucket))
      else insert_leaf ins (list_of t) cell index bucket

  -- `Node::insert`, on fuel for the depth of its calls; `none` means that the fuel ran out.
  unfoldable pub insert : ℕ → TreeNode K → Cell K → ℕ → ℕ → Option (Inserted K)
  insert zero t cell index bucket = none
  insert (suc fuel) t cell index bucket = insert_step (insert fuel) t cell index bucket
