-- ===== src/Kad/Cells.antt =====
-- src/kad.rs: the cells of a list and of a tree, and the shape of a tree.
use chamomile.Prelude.{
  ℕ, suc, ◌≤◌, ◌<◌, true, false, ◌||◌, List, [], ◌∷◌, ◌++◌, ◌≡◌, ◌≢◌, ◌⊎◌, inl, inr, refl, arith,
  length, if◌then◌else◌, equal, equal_yes, equal_no, ap, sym, ◌∙◌,
}
use chamomile.Kad.Distance.{get_bit}
use chamomile.Kad.Node.{Cell, TreeNode, absent, node, present, max_level}

module _ {K : Type 0} where
  abbrev pub InList : Cell K → List (Cell K) → Type 0
  InList c [] = ⊥
  InList c (x ∷ list) = (c ≡ x) ⊎ InList c list

  abbrev pub In : Cell K → TreeNode K → Type 0
  In c absent = ⊥
  In c (node l r list) = InList c list ⊎ In c l ⊎ In c r

  -- No cell of the list has the key.
  abbrev pub Fresh : K → List (Cell K) → Type 0
  Fresh k [] = Unit
  Fresh k (x ∷ list) = (x.key ≢ k) × Fresh k list

  -- The keys of the list differ from one another.
  abbrev pub Distinct : List (Cell K) → Type 0
  Distinct [] = Unit
  Distinct (x ∷ list) = Fresh x.key list × Distinct list

  -- A node with a child holds no cell and stands above the last level; a node with none holds a
  -- bucket at most.
  abbrev pub Filled : ℕ → ℕ → TreeNode K → TreeNode K → List (Cell K) → Type 0
  Filled bucket i l r list =
      if present r || present l then (list ≡ []) × (i < max_level) else length list ≤ bucket

  -- The shape of the node at level `i`: its cells stand on the side that bit `i` of their
  -- distance names.
  abbrev pub IsTree : ℕ → ℕ → TreeNode K → Type 0
  IsTree bucket i absent = Unit
  IsTree bucket i (node l r list) =
      Filled bucket i l r list
      × Distinct list
      × ((c : Cell K) → In c l → get_bit c.distance i ≡ false)
      × ((c : Cell K) → In c r → get_bit c.distance i ≡ true)
      × IsTree bucket (suc i) l
      × IsTree bucket (suc i) r

  pub InList-append :
      (c : Cell K) (xs ys : List (Cell K)) → InList c xs ⊎ InList c ys → InList c (xs ++ ys)
  InList-append c [] ys (inr h) = h
  InList-append c [] ys (inl h) = absurd h
  InList-append c (x ∷ xs) ys (inl (inl e)) = inl e
  InList-append c (x ∷ xs) ys (inl (inr h)) = inr (InList-append c xs ys (inl h))
  InList-append c (x ∷ xs) ys (inr h) = inr (InList-append c xs ys (inr h))

  pub InList-of_append :
      (c : Cell K) (xs ys : List (Cell K)) → InList c (xs ++ ys) → InList c xs ⊎ InList c ys
  InList-of_append c [] ys h = inr h
  InList-of_append c (x ∷ xs) ys (inl e) = inl (inl e)
  InList-of_append c (x ∷ xs) ys (inr h) = elim (InList-of_append c xs ys h) [
    | inl g ↦ inl (inr g)
    | inr g ↦ inr g
  ]

  pub Fresh-append : (k : K) (xs ys : List (Cell K)) → Fresh k xs → Fresh k ys → Fresh k (xs ++ ys)
  Fresh-append k [] ys h g = g
  Fresh-append k (x ∷ xs) ys h g = (h.0, Fresh-append k xs ys h.1 g)

  pub Fresh-of_InList :
      (k : K) (c : Cell K) (xs : List (Cell K)) → Fresh k xs → InList c xs → c.key ≢ k
  Fresh-of_InList k c (x ∷ xs) h (inl e) = rw e h.0
  Fresh-of_InList k c (x ∷ xs) h (inr g) = Fresh-of_InList k c xs h.1 g
  Fresh-of_InList k c [] h g = absurd g

  pub Distinct-snoc :
      (xs : List (Cell K)) (c : Cell K) → Distinct xs → Fresh c.key xs → Distinct (xs ++ c ∷ [])
  Distinct-snoc [] c d f = (tt, tt)
  Distinct-snoc (x ∷ xs) c d f =
      (Fresh-append x.key xs (c ∷ []) d.0 (λ e. f.0 (cc), tt), Distinct-snoc xs c d.1 f.1)

module _ {K : Type 0} (eq : Discrete K) where
  -- The cells of the other keys.
  unfoldable pub others : K → List (Cell K) → List (Cell K)
  others k [] = []
  others k (x ∷ list) = if equal eq x.key k then others k list else x ∷ others k list

  pub others_fresh : (k : K) (list : List (Cell K)) → Fresh k list → others k list ≡ list
  unfolding others
  others_fresh k [] f = refl
  others_fresh k (x ∷ list) f = ground (arith, others_fresh k list f.1)

  pub InList-others :
      (c : Cell K) (k : K) (list : List (Cell K))
      → InList c list
      → c.key ≢ k
      → InList c (others k list)
  unfolding others
  InList-others c k (x ∷ list) g n = elim (eq x.key k) [
    | yes h ↦ rw (equal_yes eq x.key k h) (elim g [
      | inl e ↦ absurd (n (ap (λ (d : Cell K). d.key) e ∙ h))
      | inr m ↦ InList-others c k list m n
    ])
    | no h ↦
        rw (equal_no eq x.key k h)
          (elim g [ inl e ↦ inl e | inr m ↦ inr (InList-others c k list m n) ])
  ]
  InList-others c k [] g n = g

  pub InList-of_others :
      (c : Cell K) (k : K) (list : List (Cell K))
      → InList c (others k list)
      → InList c list × (c.key ≢ k)
  unfolding others
  InList-of_others c k (x ∷ list) g = elim (eq x.key k) [
    | yes h ↦ let r = InList-of_others c k list (rw (equal_yes eq x.key k h) at g) in (inr r.0, r.1)
    | no h ↦ elim (rw (equal_no eq x.key k h) at g) [
      | inl e ↦ (inl e, λ same. h (sym (ap (λ (d : Cell K). d.key) e) ∙ same))
      | inr m ↦ let r = InList-of_others c k list m in (inr r.0, r.1)
    ]
  ]
  InList-of_others c k [] g = absurd g

  pub Fresh-others : (j k : K) (list : List (Cell K)) → Fresh j list → Fresh j (others k list)
  unfolding others
  Fresh-others j k [] f = tt
  Fresh-others j k (x ∷ list) f = ground (arith, Fresh-others j k list f.1)

  pub Fresh-others_self : (k : K) (list : List (Cell K)) → Fresh k (others k list)
  unfolding others
  Fresh-others_self k [] = tt
  Fresh-others_self k (x ∷ list) = ground (arith, Fresh-others_self k list)

  pub Distinct-others : (k : K) (list : List (Cell K)) → Distinct list → Distinct (others k list)
  unfolding others
  Distinct-others k [] d = tt
  Distinct-others k (x ∷ list) d =
      ground (arith, Distinct-others k list d.1, Fresh-others x.key k list d.0)

  pub length-others-le : (k : K) (list : List (Cell K)) → length (others k list) ≤ length list
  unfolding others
  length-others-le k [] = omega arith
  length-others-le k (x ∷ list) = ground (arith, length-others-le k list)

  -- A list that loses nothing to `others` when its length stays had no cell of the key.
  length-others-lt :
      (c : Cell K) (k : K) (list : List (Cell K))
      → InList c list
      → c.key ≡ k
      → length (others k list) < length list
  unfolding others
  length-others-lt c k (x ∷ list) (inl e) h =
      rw (equal_yes eq x.key k (ap (λ (d : Cell K). d.key) (sym e) ∙ h))
        (omega (arith, length-others-le k list))
  length-others-lt c k (x ∷ list) (inr m) h =
      ground (arith, length-others-lt c k list m h, length-others-le k list)
  length-others-lt c k [] m h = absurd m

  pub InList-others_full :
      (c : Cell K) (k : K) (list : List (Cell K))
      → length list ≤ length (others k list)
      → InList c list
      → InList c (others k list)
  InList-others_full c k list h m = elim (eq c.key k) [
    | yes e ↦ absurd (omega (arith, length-others-lt c k list m e))
    | no n ↦ InList-others c k list m n
  ]
