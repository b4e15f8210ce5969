-- ===== src/Kad/Removal.antt =====
-- src/kad.rs: `Node::remove` on a tree of the right shape.
use native.Mathlib.Nat.{zero-add, add-zero, add-suc, suc-add}
use chamomile.Prelude.{
  ℕ, suc, ◌+◌, ◌≤◌, true, false, ◌||◌, Option, none, some, List, [], ◌∷◌, ◌≡◌, ◌≢◌, ◌⊎◌, inl, inr,
  refl, sym, ap, subst, arith, length, get_elem?, remove_at, equal_yes, equal_no, Bool-cases,
}
use chamomile.Kad.Distance.{Distance, Key, get_bit}
use chamomile.Kad.Node.{Cell, TreeNode, absent, node, present}
use chamomile.Kad.Lookup.{scan_index, remove_node}
use chamomile.Kad.Cells.{
  InList, In, Fresh, Distinct, Filled, IsTree, others, others_fresh, InList-others,
  InList-of_others, Distinct-others, length-others-le, Fresh-of_InList,
}
use chamomile.Kad.Search.{inner_empty}

module _ {K : Type 0} (eq : Discrete K) (k : K) where
  index_fresh :
      (list : List (Cell K)) (i : ℕ) (found : Option ℕ)
      → Fresh k list
      → scan_index eq k list i found ≡ found
  unfolding scan_index
  index_fresh [] i found f = refl
  index_fresh (x ∷ list) i found f =
      rw (equal_no eq x.key k f.0) (index_fresh list (suc i) found f.1)

  -- The loop finds no cell, or the index of the one that is there.
  abbrev pub Indexed : List (Cell K) → ℕ → Type 0
  Indexed list i =
      (Fresh k list × (scan_index eq k list i none ≡ none))
      ⊎ ((j : ℕ) × (d : Cell K) × InList d list
          × (d.key ≡ k)
          × (scan_index eq k list i none ≡ some (i + j))
          × (get_elem? list j ≡ some d)
          × (remove_at list j ≡ others eq k list))

  pub index_cases : (list : List (Cell K)) (i : ℕ) → Distinct list → Indexed list i
  unfolding scan_index others
  index_cases [] i d = inl (tt, refl)
  index_cases (x ∷ list) i d = elim (eq x.key k) [
    | yes h ↦
        let f : Fresh k list = subst (λ y. Fresh y list) h d.0 in
        inr (
          0,
          x,
          inl refl,
          h,
          rw (equal_yes eq x.key k h, add-zero) (index_fresh list (suc i) (some i) f),
          refl,
          rw (equal_yes eq x.key k h) (sym (others_fresh eq k list f)),
        )
    | no h ↦ elim (index_cases list (suc i) d.1) [
      | inl (f, e) ↦ inl ((h, f), rw (equal_no eq x.key k h) e)
      | inr (j, c, m, e, scanned, elem, rest) ↦ inr (
        suc j,
        c,
        inr m,
        e,
        rw (equal_no eq x.key k h, add-suc, ← suc-add) scanned,
        elem,
        rw (equal_no eq x.key k h) (ap (◌∷◌ x) rest),
      )
    ]
  ]

module _ {K : Type 0} (key : Key K) (bucket : ℕ) (k : K) (d : Distance) where
  -- What a removal says of the cells of the key: there is none, or the one with this value.
  abbrev pub Told : TreeNode K → Option ℕ → Type 0
  Told t none = (c : Cell K) → In c t → c.key ≢ k
  Told t (some v) = (c : Cell K) × In c t × (c.key ≡ k) × (c.value ≡ v)

  -- A cell of the key carries its distance.
  abbrev pub Own : TreeNode K → Type 0
  Own t = (c : Cell K) → In c t → c.key ≡ k → c.distance ≡ d

  -- What a removal leaves: the cells of the other keys, in the shape of a tree.
  pub record Removed (i : ℕ) (t : TreeNode K) (v : Option ℕ) (t' : TreeNode K) : Type 0 where
    pub shape : IsTree bucket i t'
    pub there : present t' ≡ present t
    pub came : (c : Cell K) → In c t' → In c t × (c.key ≢ k)
    pub kept : (c : Cell K) → In c t → c.key ≢ k → In c t'
    pub told : Told t v

  Filled-others :
      (i : ℕ) (l r : TreeNode K) (list : List (Cell K))
      → Filled bucket i l r list
      → Filled bucket i l r (others key.eq k list)
  unfolding others
  Filled-others i l r list h = elim (Bool-cases (present r || present l)) [
    | inl b ↦ let (e, small) = rw b at h in rw b (ap (others key.eq k) e, small)
    | inr b ↦
        let few : length list ≤ bucket = rw b at h in
        rw b (omega (arith, few, length-others-le key.eq k list))
  ]

  -- from the list of a node
  remove_here :
      (i : ℕ) (l r : TreeNode K) (list : List (Cell K)) (c : Cell K)
      → IsTree bucket i (node l r list)
      → InList c list
      → c.key ≡ k
      → Removed i (node l r list) (some c.value) (node l r (others key.eq k list))
  unfolding present
  remove_here i l r list c s m e = record {
    shape = (Filled-others i l r list s.0, Distinct-others key.eq k list s.1, s.2, s.3, s.4, s.5);
    there = refl;
    came = λ x n. elim n [
      | inl y ↦ let (a, b) = InList-of_others key.eq x k list y in (inl a, b)
      | inr y ↦ absurd (subst (InList c) (inner_empty bucket i l r list x s y) m)
    ];
    kept = λ x n a. elim n [ inl y ↦ inl (InList-others key.eq x k list y a) | inr y ↦ inr y ];
    told = (c, inl m, e, refl);
  }

  -- A cell on the other side has another key.
  other_side :
      (c : Cell K) (i : ℕ) (t : TreeNode K)
      → Own t
      → In c t
      → get_bit c.distance i ≢ get_bit d i
      → c.key ≢ k
  other_side c i t own m n e = n (ap (λ x. get_bit x i) (own c m e))

  -- What a child tells holds of its node, where the other cells of the node have other keys.
  told_wider :
      (u t : TreeNode K) (v : Option ℕ)
      → ((c : Cell K) → In c u → In c t)
      → ((c : Cell K) → In c t → In c u ⊎ (c.key ≢ k))
      → Told u v
      → Told t v
  told_wider u t none up down h = λ c m. elim (down c m) [ inl x ↦ h c x | inr n ↦ n ]
  told_wider u t (some w) up down (c, m, e, x) = (c, up c m, e, x)

  -- from the child on the right
  remove_right :
      (i : ℕ) (l r r' : TreeNode K) (list : List (Cell K)) (v : Option ℕ)
      → IsTree bucket i (node l r list)
      → Own (node l r list)
      → Fresh k list
      → get_bit d i ≡ true
      → Removed (suc i) r v r'
      → Removed i (node l r list) v (node l r' list)
  unfolding present
  remove_right i l r r' list v s own f b h = record {
    shape = (rw (h.there) s.0, s.1, s.2, λ c m. s.3 c (h.came c m).0, s.4, h.shape);
    there = refl;
    came = λ c m. elim m [
      | inl x ↦ (inl x, Fresh-of_InList k c list f x)
      | inr (inl x) ↦ (inr (inl x), left c x)
      | inr (inr x) ↦ (inr (inr (h.came c x).0), (h.came c x).1)
    ];
    kept = λ c m n. elim m [
      | inl x ↦ inl x
      | inr (inl x) ↦ inr (inl x)
      | inr (inr x) ↦ inr (inr (h.kept c x n))
    ];
    told = told_wider r (node l r list) v (λ c m. inr (inr m)) down h.told;
  }
    where
      left : (c : Cell K) → In c l → c.key ≢ k
      left c m = other_side c i (node l r list) own (inr (inl m)) (λ same. absurd (cc (s.2 c m, b)))

      down : (c : Cell K) → In c (node l r list) → In c r ⊎ (c.key ≢ k)
      down c (inl x) = inr (Fresh-of_InList k c list f x)
      down c (inr (inl x)) = inr (left c x)
      down c (inr (inr x)) = inl x

  -- and on the left
  remove_left :
      (i : ℕ) (l r l' : TreeNode K) (list : List (Cell K)) (v : Option ℕ)
      → IsTree bucket i (node l r list)
      → Own (node l r list)
      → Fresh k list
      → get_bit d i ≡ false
      → Removed (suc i) l v l'
      → Removed i (node l r list) v (node l' r list)
  unfolding present
  remove_left i l r l' list v s own f b h = record {
    shape = (rw (h.there) s.0, s.1, λ c m. s.2 c (h.came c m).0, s.3, h.shape, s.5);
    there = refl;
    came = λ c m. elim m [
      | inl x ↦ (inl x, Fresh-of_InList k c list f x)
      | inr (inl x) ↦ (inr (inl (h.came c x).0), (h.came c x).1)
      | inr (inr x) ↦ (inr (inr x), right c x)
    ];
    kept = λ c m n. elim m [
      | inl x ↦ inl x
      | inr (inl x) ↦ inr (inl (h.kept c x n))
      | inr (inr x) ↦ inr (inr x)
    ];
    told = told_wider l (node l r list) v (λ c m. inr (inl m)) down h.told;
  }
    where
      right : (c : Cell K) → In c r → c.key ≢ k
      right c m =
          other_side c i (node l r list) own (inr (inr m)) (λ same. absurd (cc (s.3 c m, b)))

      down : (c : Cell K) → In c (node l r list) → In c l ⊎ (c.key ≢ k)
      down c (inl x) = inr (Fresh-of_InList k c list f x)
      down c (inr (inl x)) = inl x
      down c (inr (inr x)) = inr (right c x)

  pub remove_node-Removed :
      (i : ℕ) (t : TreeNode K)
      → IsTree bucket i t
      → Own t
      → Removed i t (remove_node key t k d i).0 (remove_node key t k d i).1
  unfolding remove_node
  remove_node-Removed i absent s own = record {
    shape = tt;
    there = refl;
    came = λ c m. absurd m;
    kept = λ c m n. absurd m;
    told = λ c m. absurd m;
  }
  remove_node-Removed i (node l r list) s own = elim (index_cases key.eq k list 0 s.1) [
    | inr (j, c, m, e, scanned, elem, rest) ↦
        rw (remove_node, scanned, zero-add, elem, rest) (remove_here i l r list c s m e)
    | inl (f, scanned) ↦ elim (Bool-cases (get_bit d i)) [
      | inl b ↦
          rw (remove_node, scanned, b)
            (remove_right i l r (remove_node key r k d (suc i)).1 list
              (remove_node key r k d (suc i)).0 s own f b
              (remove_node-Removed (suc i) r s.5 (λ c m. own c (inr (inr m)))))
      | inr b ↦
          rw (remove_node, scanned, b)
            (remove_left i l r (remove_node key l k d (suc i)).1 list
              (remove_node key l k d (suc i)).0 s own f b
              (remove_node-Removed (suc i) l s.4 (λ c m. own c (inr (inl m)))))
    ]
  ]
