-- ===== src/Kad/Tree/Removing.antt =====
-- src/kad.rs: `KadTree::remove`.
use chamomile.Prelude.{
  ℕ, Bool, true, false, Option, none, some, ◌≡◌, ◌≢◌, inl, inr, ◌↔◌, refl, sym, ap, ◌∙◌, Bool-cases,
  if◌then◌else◌,
}
use chamomile.Prelude.Maybe.{◌>>=◌}
use chamomile.Kad.Distance.{Distance, Key, get_bit, calc_distance}
use chamomile.Kad.Node.{Cell, TreeNode, k_bucket}
use chamomile.Kad.Cells.{In}
use chamomile.Kad.Lookup.{Found, remove_node}
use chamomile.Kad.Removal
use chamomile.Kad.Removal.{Removed, remove_node-Removed}
use chamomile.Kad.Tree.{KadTree, is_exact, tree_remove, tree_search, tree_contains}
use chamomile.Kad.Tree.Adding.{Holds, IsKadTree}
use chamomile.Kad.Tree.Finding.{tree_search_hit, tree_contains_iff}

-- the value of an answer that is exact
abbrev pub exact_value : {K : Type 0} → Option (Found K) → Option ℕ
exact_value o = o >>= λ f. if f.is_it then some f.value else none

exact_value-none : {K : Type 0} (o : Option (Found K)) → is_exact o ≡ false → none ≡ exact_value o
unfolding is_exact
exact_value-none none e = refl
exact_value-none (some f) e = rw e refl

-- A well-formed tree without a cell of the key does not contain it.
tree_contains-none :
    {K : Type 0} (key : Key K) (t : KadTree K) (k : K)
    → IsKadTree key t
    → ((c : Cell K) → Holds c t → c.key ≢ k)
    → tree_contains key t k ≡ false
tree_contains-none key t k v h = elim (Bool-cases (tree_contains key t k)) [
  | inl e ↦ let (c, m, same) = (tree_contains_iff key t k v).0 e in absurd (h c m same)
  | inr e ↦ e
]

module _ {K : Type 0} (key : Key K) (t : KadTree K) (k : K) where
  abbrev Told : Option ℕ → Type 0
  Told none = (c : Cell K) → Holds c t → c.key ≢ k
  Told (some v) = (c : Cell K) × Holds c t × (c.key ≡ k) × (c.value ≡ v)

  -- what a removal leaves of the whole tree
  record Left (v : Option ℕ) (t' : KadTree K) : Type 0 where
    valid : IsKadTree key t'
    came : (c : Cell K) → Holds c t' → Holds c t × (c.key ≢ k)
    kept : (c : Cell K) → Holds c t → c.key ≢ k → Holds c t'
    told : Told v

  abbrev distance : Distance
  distance = calc_distance key t.root_key k

  own_distance : IsKadTree key t → (c : Cell K) → Holds c t → c.key ≡ k → c.distance ≡ distance
  own_distance v c m e = v.own c m ∙ ap (calc_distance key t.root_key) e

  told_right :
      (v : Option ℕ)
      → ((c : Cell K) → In c t.left → c.key ≢ k)
      → Removal.Told key k_bucket k distance t.right v
      → Told v
  told_right none other h = λ c m. elim m [ inl x ↦ other c x | inr x ↦ h c x ]
  told_right (some w) other (c, m, e, x) = (c, inr m, e, x)

  told_left :
      (v : Option ℕ)
      → ((c : Cell K) → In c t.right → c.key ≢ k)
      → Removal.Told key k_bucket k distance t.left v
      → Told v
  told_left none other h = λ c m. elim m [ inl x ↦ h c x | inr x ↦ other c x ]
  told_left (some w) other (c, m, e, x) = (c, inl m, e, x)

  Left-of_right :
      (v : Option ℕ) (r : TreeNode K)
      → IsKadTree key t
      → get_bit distance 0 ≡ true
      → Removed key k_bucket k distance 1 t.right v r
      → Left v (record t { right = r })
  Left-of_right v r valid b h = record {
    valid = record {
      left = valid.left;
      right = h.shape;
      low = valid.low;
      high = λ c m. valid.high c (h.came c m).0;
      own =
          λ c m. elim m [ inl x ↦ valid.own c (inl x) | inr x ↦ valid.own c (inr (h.came c x).0) ];
    };
    came =
        λ c m. elim m [ inl x ↦ (inl x, other c x) | inr x ↦ (inr (h.came c x).0, (h.came c x).1) ];
    kept = λ c m n. elim m [ inl x ↦ inl x | inr x ↦ inr (h.kept c x n) ];
    told = told_right v other h.told;
  }
    where
      other : (c : Cell K) → In c t.left → c.key ≢ k
      other c m e =
          let same = ap (λ x. get_bit x 0) (own_distance valid c (inl m) e) in
          absurd (cc (same, b, valid.low c m))

  Left-of_left :
      (v : Option ℕ) (l : TreeNode K)
      → IsKadTree key t
      → get_bit distance 0 ≡ false
      → Removed key k_bucket k distance 1 t.left v l
      → Left v (record t { left = l })
  Left-of_left v l valid b h = record {
    valid = record {
      left = h.shape;
      right = valid.right;
      low = λ c m. valid.low c (h.came c m).0;
      high = valid.high;
      own =
          λ c m. elim m [ inl x ↦ valid.own c (inl (h.came c x).0) | inr x ↦ valid.own c (inr x) ];
    };
    came =
        λ c m. elim m [ inl x ↦ (inl (h.came c x).0, (h.came c x).1) | inr x ↦ (inr x, other c x) ];
    kept = λ c m n. elim m [ inl x ↦ inl (h.kept c x n) | inr x ↦ inr x ];
    told = told_left v other h.told;
  }
    where
      other : (c : Cell K) → In c t.right → c.key ≢ k
      other c m e =
          let same = ap (λ x. get_bit x 0) (own_distance valid c (inr m) e) in
          absurd (cc (same, b, valid.high c m))

  tree_remove-Left : IsKadTree key t → Left (tree_remove key t k).0 (tree_remove key t k).1
  unfolding tree_remove
  tree_remove-Left v = elim (Bool-cases (get_bit distance 0)) [
    | inl b ↦ rw b (
        Left-of_right (remove_node key t.right k distance 1).0
          (remove_node key t.right k distance 1).1 v b
          (remove_node-Removed key k_bucket k distance 1 t.right v.right
            (λ c m. own_distance v c (inr m))))
    | inr b ↦ rw b (
        Left-of_left (remove_node key t.left k distance 1).0 (remove_node key t.left k distance 1).1
          v b
          (remove_node-Removed key k_bucket k distance 1 t.left v.left
            (λ c m. own_distance v c (inl m))))
  ]

  -- what was told is what a search finds
  told_value : (v : Option ℕ) → IsKadTree key t → Told v → v ≡ exact_value (tree_search key t k)
  unfolding tree_contains
  told_value none valid h =
      exact_value-none (tree_search key t k) (tree_contains-none key t k valid h)
  told_value (some w) valid (c, m, e, x) =
      rw (tree_search_hit key t k c valid m e) (ap some (sym x))

  -- Removing a key from a well-formed tree returns the value that a search finds for exactly this key,
  -- or nothing where there is none, leaves a well-formed tree that does not contain the key, and keeps
  -- every cell of another key.
  pub tree_search-tree_remove :
      IsKadTree key t
      → let (v, t') = tree_remove key t k in
        (v ≡ exact_value (tree_search key t k))
        × IsKadTree key t'
        × (tree_contains key t' k ≡ false)
        × ((c : Cell K) → c.key ≢ k → (Holds c t' ↔ Holds c t))
  tree_search-tree_remove valid =
      let h = tree_remove-Left valid in
      (
        told_value (tree_remove key t k).0 valid h.told,
        h.valid,
        tree_contains-none key (tree_remove key t k).1 k h.valid (λ c m. (h.came c m).1),
        λ c n. (λ m. (h.came c m).0, λ m. h.kept c m n),
      )

bool_iff : (a b : Bool) → (a ≡ true ↔ (b ≡ true)) → a ≡ b
bool_iff true b h = sym (h.0 refl)
bool_iff false true h = h.1 refl
bool_iff false false h = refl

-- A removal changes nothing for the other keys.
pub tree_contains-tree_remove_ne :
    {K : Type 0} (key : Key K) (t : KadTree K) (k j : K)
    → IsKadTree key t
    → j ≢ k
    → tree_contains key (tree_remove key t k).1 j ≡ tree_contains key t j
tree_contains-tree_remove_ne key t k j valid n =
    let (v, after, gone, same) = tree_search-tree_remove key t k valid in
    let now = tree_contains_iff key (tree_remove key t k).1 j after in
    let before = tree_contains_iff key t j valid in
    bool_iff _ _ (
      λ e. let (c, m, x) = now.0 e in before.1 (c, (same c (λ y. n (sym x ∙ y))).0 m, x),
      λ e. let (c, m, x) = before.0 e in now.1 (c, (same c (λ y. n (sym x ∙ y))).1 m, x),
    )
