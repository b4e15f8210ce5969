-- ===== src/Kad/Tree/Adding.antt =====
-- src/kad.rs: the shape of a whole tree, and `KadTree::add`.
use chamomile.Prelude.{
  ℕ, ◌≤◌, true, false, List, [], ◌∷◌, some, ◌≡◌, ◌≢◌, ◌⊎◌, inl, inr, refl, arith, All, length,
  Bool-cases,
}
use chamomile.Kad.Distance.{Key, get_bit, calc_distance}
use chamomile.Kad.Node.{Cell, TreeNode, Inserted, k_bucket}
use chamomile.Kad.Cells.{In, InList, Distinct, IsTree}
use chamomile.Kad.Post.{Listed, Gone, Post}
use chamomile.Kad.Insert.{insert-Post}
use chamomile.Kad.Tree.{KadTree, Added, new_tree, settle, tree_add, insert_fuel}

module _ {K : Type 0} where
  abbrev pub Holds : Cell K → KadTree K → Type 0
  Holds c t = In c t.left ⊎ In c t.right

module _ {K : Type 0} (key : Key K) where
  -- Both sides have the shape of a tree, bit 0 chooses the side, and a cell carries the distance
  -- of its key from the root.
  pub record IsKadTree (t : KadTree K) : Type 0 where
    pub left : IsTree k_bucket 1 t.left
    pub right : IsTree k_bucket 1 t.right
    pub low : (c : Cell K) → In c t.left → get_bit c.distance 0 ≡ false
    pub high : (c : Cell K) → In c t.right → get_bit c.distance 0 ≡ true
    pub own : (c : Cell K) → Holds c t → c.distance ≡ calc_distance key t.root_key c.key

  pub new_tree-IsKadTree : (root : K) → IsKadTree (new_tree root)
  unfolding new_tree
  new_tree-IsKadTree root = record {
    left = tt;
    right = tt;
    low = λ c m. absurd m;
    high = λ c m. absurd m;
    own = λ c m. elim m [ inl x ↦ absurd x | inr x ↦ absurd x ];
  }

  abbrev pub cell_for : KadTree K → K → ℕ → Cell K
  cell_for t k value = record { key = k; value = value; distance = calc_distance key t.root_key k }

  abbrev pub Dropped : KadTree K → Cell K → ℕ → Type 0
  Dropped t cell v =
      (d : Cell K) × Holds d t
      × (d.value ≡ v)
      × ((d.key ≡ cell.key) ⊎ (key.closer cell.distance d.distance ≡ true))

  -- What `add` leaves behind: see the fields.
  pub record AddPost (t : KadTree K) (cell : Cell K) (a : Added K) : Type 0 where
    pub valid : IsKadTree a.tree
    pub root : a.tree.root_key ≡ t.root_key
    pub here : a.added ≡ true → Holds cell a.tree
    pub refused : a.added ≡ false → (c : Cell K) → Holds c t → Holds c a.tree
    pub crowded :
        a.added ≡ false
        → (ds : List (Cell K)) × (k_bucket ≤ length ds)
          × Distinct ds
          × ((c : Cell K) → InList c ds → Holds c t × (key.closer cell.distance c.distance ≡ false))
    pub came : (c : Cell K) → Holds c a.tree → (c ≡ cell) ⊎ Holds c t
    pub kept :
        (c : Cell K)
        → Holds c t
        → c.key ≢ cell.key
        → Holds c a.tree ⊎ Listed key k_bucket cell c.value a.removed
    pub gone : All (Dropped t cell) a.removed
    pub single : length a.removed ≤ 1

  module _ (t : KadTree K) (cell : Cell K) (v : IsKadTree t)
      (far : cell.distance ≡ calc_distance key t.root_key cell.key) where
    All-Dropped :
        (u : TreeNode K) (vs : List ℕ)
        → ((c : Cell K) → In c u → Holds c t)
        → All (Gone key k_bucket cell u) vs
        → All (Dropped t cell) vs
    All-Dropped u [] f h = tt
    All-Dropped u (x ∷ vs) f ((d, m, e, w), h) = ((d, f d m, e, w), All-Dropped u vs f h)

    add_right :
        (res : Inserted K)
        → get_bit cell.distance 0 ≡ true
        → Post key k_bucket cell 1 t.right res
        → AddPost t cell (settle t (λ r. record t { right = r }) (some res))
    unfolding settle
    add_right res b post = record {
      valid = record {
        left = v.left;
        right = post.shape;
        low = v.low;
        high = λ c m. elim (post.came c m) [ inl e ↦ rw e b | inr n ↦ v.high c n ];
        own = own;
      };
      root = refl;
      here = λ e. inr (post.here e);
      refused = λ e c m. elim m [ inl x ↦ inl x | inr x ↦ inr (post.refused e c x) ];
      crowded = λ e.
          let (ds, n, d, far) = post.crowded e in (ds, n, d, λ c m. (inr (far c m).0, (far c m).1));
      came = came;
      kept = λ c m n. elim m [
        | inl x ↦ inl (inl x)
        | inr x ↦ elim (post.kept c x n) [ inl y ↦ inl (inr y) | inr y ↦ inr y ]
      ];
      gone = All-Dropped t.right res.removed (λ c m. inr m) post.gone;
      single = post.single;
    }
      where
        came : (c : Cell K) → In c t.left ⊎ In c res.tree → (c ≡ cell) ⊎ Holds c t
        came c (inl x) = inr (inl x)
        came c (inr x) = elim (post.came c x) [ inl e ↦ inl e | inr n ↦ inr (inr n) ]

        own :
            (c : Cell K)
            → In c t.left ⊎ In c res.tree
            → c.distance ≡ calc_distance key t.root_key c.key
        own c m = elim (came c m) [ inl e ↦ rw e far | inr n ↦ v.own c n ]

    add_left :
        (res : Inserted K)
        → get_bit cell.distance 0 ≡ false
        → Post key k_bucket cell 1 t.left res
        → AddPost t cell (settle t (λ l. record t { left = l }) (some res))
    unfolding settle
    add_left res b post = record {
      valid = record {
        left = post.shape;
        right = v.right;
        low = λ c m. elim (post.came c m) [ inl e ↦ rw e b | inr n ↦ v.low c n ];
        high = v.high;
        own = own;
      };
      root = refl;
      here = λ e. inl (post.here e);
      refused = λ e c m. elim m [ inl x ↦ inl (post.refused e c x) | inr x ↦ inr x ];
      crowded = λ e.
          let (ds, n, d, far) = post.crowded e in (ds, n, d, λ c m. (inl (far c m).0, (far c m).1));
      came = came;
      kept = λ c m n. elim m [
        | inl x ↦ elim (post.kept c x n) [ inl y ↦ inl (inl y) | inr y ↦ inr y ]
        | inr x ↦ inl (inr x)
      ];
      gone = All-Dropped t.left res.removed (λ c m. inl m) post.gone;
      single = post.single;
    }
      where
        came : (c : Cell K) → In c res.tree ⊎ In c t.right → (c ≡ cell) ⊎ Holds c t
        came c (inl x) = elim (post.came c x) [ inl e ↦ inl e | inr n ↦ inr (inl n) ]
        came c (inr x) = inr (inr x)

        own :
            (c : Cell K)
            → In c res.tree ⊎ In c t.right
            → c.distance ≡ calc_distance key t.root_key c.key
        own c m = elim (came c m) [ inl e ↦ rw e far | inr n ↦ v.own c n ]

  -- Adding to a well-formed tree keeps it well-formed. A key that is added is in the tree. One that is
  -- refused takes no cell away, and is refused only because of four cells no farther from the root.
  -- At most one value goes: that of the old cell of the key, or of a cell that is farther from the
  -- root than the new one. Every other cell stays.
  pub tree_add-AddPost :
      (t : KadTree K) (k : K) (value : ℕ)
      → IsKadTree t
      → AddPost t (cell_for t k value) (tree_add key t k value)
  unfolding tree_add
  tree_add-AddPost t k value v =
      let cell = cell_for t k value in
      elim (Bool-cases (get_bit cell.distance 0)) [
        | inl b ↦
            let (res, e, post) =
              insert-Post key k_bucket cell insert_fuel 1 t.right (omega arith) (omega arith)
                v.right in
            rw (b, e) (add_right t cell v refl res b post)
        | inr b ↦
            let (res, e, post) =
              insert-Post key k_bucket cell insert_fuel 1 t.left (omega arith) (omega arith)
                v.left in
            rw (b, e) (add_left t cell v refl res b post)
      ]
