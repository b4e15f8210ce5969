-- ===== src/Kad/Tree/Finding.antt =====
-- src/kad.rs: `KadTree::search` and `KadTree::contains`, also after `KadTree::add`.
use chamomile.Prelude.{
  ℕ, Bool, true, false, Option, none, some, ◌≡◌, ◌≢◌, ◌⊎◌, inl, inr, ◌↔◌, refl, sym, ap, ap₂, ◌∙◌,
  subst, Bool-cases, if◌then◌else◌,
}
use chamomile.Kad.Distance.{Key, get_bit, calc_distance}
use chamomile.Kad.Node.{Cell, TreeNode, absent, node, k_bucket, present}
use chamomile.Kad.Cells.{In}
use chamomile.Kad.Post.{Listed}
use chamomile.Kad.Lookup.{Found, search}
use chamomile.Kad.Search.{FromTree, search-FromTree, search_hit}
use chamomile.Kad.Tree.{KadTree, tree_add, tree_search, tree_contains, is_exact}
use chamomile.Kad.Tree.Adding.{Holds, IsKadTree, cell_for, tree_add-AddPost}

present_of_In : {K : Type 0} (c : Cell K) (t : TreeNode K) → In c t → present t ≡ true
unfolding present
present_of_In c absent m = absurd m
present_of_In c (node l r list) m = refl

module _ {K : Type 0} (key : Key K) where
  -- A key that a well-formed tree holds is found, with its value and as an exact answer.
  pub tree_search_hit :
      (t : KadTree K) (k : K) (c : Cell K)
      → IsKadTree key t
      → Holds c t
      → c.key ≡ k
      → tree_search key t k ≡ some (record { key = c.key; value = c.value; is_it = true })
  unfolding tree_search
  tree_search_hit t k c v m h =
      let d : c.distance ≡ calc_distance key t.root_key k =
        v.own c m ∙ ap (calc_distance key t.root_key) h in
      elim m [
        | inl x ↦ rw (
          ap (λ y. get_bit y 0) (sym d) ∙ v.low c x,
          present_of_In c t.left x,
          search_hit key k _ k_bucket 1 t.left c v.left x h d,
        )
        | inr x ↦ rw (
          ap (λ y. get_bit y 0) (sym d) ∙ v.high c x,
          present_of_In c t.right x,
          search_hit key k _ k_bucket 1 t.right c v.right x h d,
        )
      ]

  -- The answer comes from a cell of the tree.
  abbrev pub FromKadTree : KadTree K → K → Option (Found K) → Type 0
  FromKadTree t k none = Unit
  FromKadTree t k (some f) =
      (c : Cell K) × Holds c t
      × (c.key ≡ f.key)
      × (c.value ≡ f.value)
      × (f.is_it ≡ true → f.key ≡ k)

  widen :
      (u : TreeNode K) (t : KadTree K) (k : K) (o : Option (Found K))
      → ((c : Cell K) → In c u → Holds c t)
      → FromTree key k (calc_distance key t.root_key k) u o
      → FromKadTree t k o
  widen u t k none f h = tt
  widen u t k (some x) f (c, m, a, b, e) = (c, f c m, a, b, e)

  from_side :
      (t : KadTree K) (k : K) (b c : Bool) (u w : TreeNode K)
      → ((x : Cell K) → In x u → Holds x t)
      → ((x : Cell K) → In x w → Holds x t)
      → FromKadTree t k (search key (if c then u else w) k (calc_distance key t.root_key k) 1)
  from_side t k b true u w f g = widen u t k _ f (search-FromTree key k _ u 1)
  from_side t k b false u w f g = widen w t k _ g (search-FromTree key k _ w 1)

  -- What a search of any tree answers is the key and the value of a cell of it; an answer that says it
  -- is exact has the key that was searched for.
  pub tree_search-FromKadTree : (t : KadTree K) (k : K) → FromKadTree t k (tree_search key t k)
  unfolding tree_search
  tree_search-FromKadTree t k = elim (Bool-cases (get_bit (calc_distance key t.root_key k) 0)) [
    | inl b ↦
        rw b (from_side t k true (present t.right) t.right t.left (λ c m. inr m) (λ c m. inl m))
    | inr b ↦
        rw b (from_side t k true (present t.left) t.left t.right (λ c m. inl m) (λ c m. inr m))
  ]

  exact_cell :
      (t : KadTree K) (k : K) (o : Option (Found K))
      → FromKadTree t k o
      → is_exact o ≡ true
      → (c : Cell K) × Holds c t × (c.key ≡ k)
  unfolding is_exact
  exact_cell t k none h e = absurd (cc)
  exact_cell t k (some f) (c, m, a, b, own) e = (c, m, a ∙ own e)

  -- A well-formed tree contains a key exactly when one of its cells has it.
  pub tree_contains_iff :
      (t : KadTree K) (k : K)
      → IsKadTree key t
      → (tree_contains key t k ≡ true) ↔ ((c : Cell K) × Holds c t × (c.key ≡ k))
  unfolding tree_contains is_exact
  tree_contains_iff t k v = (
    exact_cell t k (tree_search key t k) (tree_search-FromKadTree t k),
    λ found. rw (tree_search_hit t k found.0 v found.1 found.2),
  )

  -- What is added to a well-formed tree is found, with the value that it was added with.
  pub tree_search-tree_add :
      (t : KadTree K) (k : K) (value : ℕ)
      → IsKadTree key t
      → (tree_add key t k value).added ≡ true
      → tree_search key (tree_add key t k value).tree k
        ≡ some (record { key = k; value = value; is_it = true })
  tree_search-tree_add t k value v e =
      let post = tree_add-AddPost key t k value v in
      tree_search_hit (tree_add key t k value).tree k (cell_for key t k value) post.valid
        (post.here e) refl

  -- A key that was found in a well-formed tree before the addition of another is still found, with
  -- the same value, or its value is among those that the addition reports as removed.
  pub tree_search-tree_add_ne :
      (t : KadTree K) (k j : K) (value w : ℕ)
      → IsKadTree key t
      → j ≢ k
      → tree_search key t j ≡ some (record { key = j; value = w; is_it = true })
      → (tree_search key (tree_add key t k value).tree j
          ≡ some (record { key = j; value = w; is_it = true }))
        ⊎ Listed key k_bucket (cell_for key t k value) w (tree_add key t k value).removed
  tree_search-tree_add_ne t k j value w v n found =
      let post = tree_add-AddPost key t k value v in
      let (c, m, a, b, own) : FromKadTree t j (some (record { key = j; value = w; is_it = true })) =
        subst (FromKadTree t j) found (tree_search-FromKadTree t j) in
      elim (post.kept c m (λ e. n (sym a ∙ e))) [
        | inl still ↦ inl (
            tree_search_hit (tree_add key t k value).tree j c post.valid still a
            ∙ ap₂ (λ x y. some (record { key = x; value = y; is_it = true })) a b)
        | inr gone ↦ inr (
            subst
              (λ x. Listed key k_bucket (cell_for key t k value) x (tree_add key t k value).removed)
              b gone)
      ]
