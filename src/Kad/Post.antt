-- ===== src/Kad/Post.antt =====
-- src/kad.rs: a postcondition of `Node::insert`, from a child to its node.
use chamomile.Prelude.{
  ℕ, suc, ◌≤◌, Bool, true, false, ◌||◌, some, List, [], ◌∷◌, ◌≡◌, ◌≢◌, ◌⊎◌, inl, inr, refl, All,
  length, Bool-cases,
}
use chamomile.Kad.Distance.{Key, get_bit}
use chamomile.Kad.Node.{Cell, TreeNode, node, Inserted, present, with_tree, insert}
use chamomile.Kad.Cells.{Distinct, InList, In, IsTree}
use chamomile.Kad.Split.{insert-right, insert-left}

module _ {K : Type 0} (key : Key K) (bucket : ℕ) (cell : Cell K) where
  -- A value that `insert` reports as removed: that of the old cell of the key, or of a farther one.
  abbrev pub Gone : TreeNode K → ℕ → Type 0
  Gone t v =
      (d : Cell K) × In d t
      × (d.value ≡ v)
      × ((d.key ≡ cell.key) ⊎ (key.closer cell.distance d.distance ≡ true))

  abbrev pub Listed : ℕ → List ℕ → Type 0
  Listed v [] = ⊥
  Listed v (x ∷ xs) = (v ≡ x) ⊎ Listed v xs

  -- Why `insert` may refuse: a full list of cells that are no farther than the new one.
  abbrev pub Crowded : TreeNode K → Type 0
  Crowded t =
      (ds : List (Cell K)) × (bucket ≤ length ds)
      × Distinct ds
      × ((c : Cell K) → InList c ds → In c t × (key.closer cell.distance c.distance ≡ false))

  Crowded-cells : (t u : TreeNode K) → ((c : Cell K) → In c t → In c u) → Crowded t → Crowded u
  Crowded-cells t u f (ds, n, d, far) = (ds, n, d, λ c m. (f c (far c m).0, (far c m).1))

  pub record Post (i : ℕ) (t : TreeNode K) (res : Inserted K) : Type 0 where
    pub shape : IsTree bucket i res.tree
    pub there : present res.tree ≡ true
    pub here : res.added ≡ true → In cell res.tree
    pub refused : res.added ≡ false → (c : Cell K) → In c t → In c res.tree
    pub crowded : res.added ≡ false → Crowded t
    pub came : (c : Cell K) → In c res.tree → (c ≡ cell) ⊎ In c t
    pub kept : (c : Cell K) → In c t → c.key ≢ cell.key → In c res.tree ⊎ Listed c.value res.removed
    pub gone : All (Gone t) res.removed
    pub single : length res.removed ≤ 1

  abbrev pub Outcome : ℕ → ℕ → TreeNode K → Type 0
  Outcome fuel i t =
      (res : Inserted K) × (insert key fuel t cell i bucket ≡ some res) × Post i t res

  All-Gone :
      (t u : TreeNode K) (vs : List ℕ)
      → ((c : Cell K) → In c t → In c u)
      → All (Gone t) vs
      → All (Gone u) vs
  All-Gone t u [] f h = tt
  All-Gone t u (v ∷ vs) f ((d, m, e, w), h) = ((d, f d m, e, w), All-Gone t u vs f h)

  -- The outcome depends on the cells of the tree before, and on nothing else of it.
  pub Post-cells :
      (i : ℕ) (t u : TreeNode K) (res : Inserted K)
      → ((c : Cell K) → In c t → In c u)
      → ((c : Cell K) → In c u → In c t)
      → Post i t res
      → Post i u res
  Post-cells i t u res f g p = record {
    shape = p.shape;
    there = p.there;
    here = p.here;
    refused = λ e c m. p.refused e c (g c m);
    crowded = λ e. Crowded-cells t u f (p.crowded e);
    came = λ c m. elim (p.came c m) [ inl e ↦ inl e | inr n ↦ inr (f c n) ];
    kept = λ c m n. p.kept c (g c m) n;
    gone = All-Gone t u res.removed f p.gone;
    single = p.single;
  }

  -- An insertion into the right child is one into the node.
  pub lift_right :
      (i : ℕ) (l r : TreeNode K) (list : List (Cell K)) (res : Inserted K)
      → IsTree bucket i (node l r list)
      → present r || present l ≡ true
      → get_bit cell.distance i ≡ true
      → Post (suc i) r res
      → Post i (node l r list) (with_tree (λ r'. node l r' list) res)
  unfolding with_tree present
  lift_right i l r list res shape p b post = record {
    shape = (rw (post.there) (rw p at shape.0), shape.1, shape.2, bits, shape.4, post.shape);
    there = refl;
    here = λ e. inr (inr (post.here e));
    refused = λ e c m. elim m [
      | inl x ↦ inl x
      | inr (inl x) ↦ inr (inl x)
      | inr (inr x) ↦ inr (inr (post.refused e c x))
    ];
    came = λ c m. elim m [
      | inl x ↦ inr (inl x)
      | inr (inl x) ↦ inr (inr (inl x))
      | inr (inr x) ↦ elim (post.came c x) [ inl e ↦ inl e | inr n ↦ inr (inr (inr n)) ]
    ];
    kept = λ c m n. elim m [
      | inl x ↦ inl (inl x)
      | inr (inl x) ↦ inl (inr (inl x))
      | inr (inr x) ↦ elim (post.kept c x n) [ inl y ↦ inl (inr (inr y)) | inr y ↦ inr y ]
    ];
    crowded = λ e. Crowded-cells r (node l r list) (λ c m. inr (inr m)) (post.crowded e);
    gone = All-Gone r (node l r list) res.removed (λ c m. inr (inr m)) post.gone;
    single = post.single;
  }
    where
      bits : (c : Cell K) → In c res.tree → get_bit c.distance i ≡ true
      bits c m = elim (post.came c m) [ inl e ↦ rw e b | inr n ↦ shape.3 c n ]

  -- So is one into the left child.
  pub lift_left :
      (i : ℕ) (l r : TreeNode K) (list : List (Cell K)) (res : Inserted K)
      → IsTree bucket i (node l r list)
      → present r || present l ≡ true
      → get_bit cell.distance i ≡ false
      → Post (suc i) l res
      → Post i (node l r list) (with_tree (λ l'. node l' r list) res)
  unfolding with_tree present
  lift_left i l r list res shape p b post = record {
    shape = (
      rw (post.there, or_true (present r)) (rw p at shape.0),
      shape.1,
      bits,
      shape.3,
      post.shape,
      shape.5,
    );
    there = refl;
    here = λ e. inr (inl (post.here e));
    refused = λ e c m. elim m [
      | inl x ↦ inl x
      | inr (inl x) ↦ inr (inl (post.refused e c x))
      | inr (inr x) ↦ inr (inr x)
    ];
    came = λ c m. elim m [
      | inl x ↦ inr (inl x)
      | inr (inl x) ↦ elim (post.came c x) [ inl e ↦ inl e | inr n ↦ inr (inr (inl n)) ]
      | inr (inr x) ↦ inr (inr (inr x))
    ];
    kept = λ c m n. elim m [
      | inl x ↦ inl (inl x)
      | inr (inl x) ↦ elim (post.kept c x n) [ inl y ↦ inl (inr (inl y)) | inr y ↦ inr y ]
      | inr (inr x) ↦ inl (inr (inr x))
    ];
    crowded = λ e. Crowded-cells l (node l r list) (λ c m. inr (inl m)) (post.crowded e);
    gone = All-Gone l (node l r list) res.removed (λ c m. inr (inl m)) post.gone;
    single = post.single;
  }
    where
      or_true : (a : Bool) → a || true ≡ true
      or_true true = refl
      or_true false = refl

      bits : (c : Cell K) → In c res.tree → get_bit c.distance i ≡ false
      bits c m = elim (post.came c m) [ inl e ↦ rw e b | inr n ↦ shape.2 c n ]

  -- A node with a child hands the cell on: the outcome is that of the child on the cell's side.
  pub descend :
      (f i : ℕ) (l r : TreeNode K) (list : List (Cell K))
      → IsTree bucket i (node l r list)
      → present r || present l ≡ true
      → ((t : TreeNode K) → IsTree bucket (suc i) t → Outcome f (suc i) t)
      → Outcome (suc f) i (node l r list)
  descend f i l r list shape p go = elim (Bool-cases (get_bit cell.distance i)) [
    | inl b ↦
        let (res, e, post) = go r shape.5 in
        (
          with_tree (λ r'. node l r' list) res,
          rw (insert-right key f i bucket l r list cell p b, e),
          lift_right i l r list res shape p b post,
        )
    | inr b ↦
        let (res, e, post) = go l shape.4 in
        (
          with_tree (λ l'. node l' r list) res,
          rw (insert-left key f i bucket l r list cell p b, e),
          lift_left i l r list res shape p b post,
        )
  ]
