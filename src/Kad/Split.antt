-- ===== src/Kad/Split.antt =====
-- src/kad.rs: the loop of `Node::insert` that splits a full leaf.
use mathlib.Core.List.{append_assoc, append-nil}
use chamomile.Prelude.{
  ℕ, suc, ◌+◌, ◌≤◌, ◌<◌, Bool, true, false, ◌||◌, none, some, List, [], ◌∷◌, ◌++◌, ◌≡◌, ◌⊎◌, inl,
  inr, refl, sym, ap, ◌∙◌, arith, length, length-append, if◌then◌else◌, Bool-cases, lt→ltb,
}
use chamomile.Prelude.Maybe.{map_option}
use chamomile.Kad.Distance.{Key, get_bit}
use chamomile.Kad.Node.{
  Cell, TreeNode, absent, node, present, left_of, right_of, list_of, remove_found, with_tree,
  spread, insert_leaf, insert_step, insert,
}
use chamomile.Kad.Cells.{InList, Fresh, Fresh-append, Distinct}
use chamomile.Kad.Scan.{scan_fresh}

module _ {K : Type 0} where
  abbrev pub leaf : List (Cell K) → TreeNode K
  leaf list = node absent absent list

  -- The cells whose bit `i` is `b`.
  unfoldable pub side : Bool → ℕ → List (Cell K) → List (Cell K)
  side true i [] = []
  side false i [] = []
  side true i (c ∷ list) = if get_bit c.distance i then c ∷ side true i list else side true i list
  side false i (c ∷ list) =
      if get_bit c.distance i then side false i list else c ∷ side false i list

  -- No key of the first list is in the second.
  abbrev pub AllFresh : List (Cell K) → List (Cell K) → Type 0
  AllFresh [] held = Unit
  AllFresh (c ∷ list) held = Fresh c.key held × AllFresh list held

module _ {K : Type 0} (key : Key K) where
  -- The branches of `insert` at a node with a child.
  pub insert-right :
      (f i bucket : ℕ) (l r : TreeNode K) (list : List (Cell K)) (c : Cell K)
      → present r || present l ≡ true
      → get_bit c.distance i ≡ true
      → insert key (suc f) (node l r list) c i bucket
        ≡ map_option (with_tree λ r'. node l r' list) (insert key f r c (suc i) bucket)
  unfolding insert insert_step left_of right_of list_of
  insert-right f i bucket l r list c p b = rw (p, b)

  pub insert-left :
      (f i bucket : ℕ) (l r : TreeNode K) (list : List (Cell K)) (c : Cell K)
      → present r || present l ≡ true
      → get_bit c.distance i ≡ false
      → insert key (suc f) (node l r list) c i bucket
        ≡ map_option (with_tree λ l'. node l' r list) (insert key f l c (suc i) bucket)
  unfolding insert insert_step left_of right_of list_of
  insert-left f i bucket l r list c p b = rw (p, b)

  push_leaf :
      (f i bucket : ℕ) (list : List (Cell K)) (c : Cell K)
      → Fresh c.key list
      → length list < bucket
      → insert key (suc f) (leaf list) c i bucket
        ≡ some (record { added = true; removed = []; tree = leaf (list ++ c ∷ []) })
  unfolding insert insert_step insert_leaf present right_of left_of list_of remove_found
  push_leaf f i bucket list c fresh h =
      rw (scan_fresh key.eq c.key list 0 none [] fresh, lt→ltb _ _ h)

  -- A cell enters the child on its side, whatever the list of the node that is being split.
  enter_right :
      (f i bucket : ℕ) (list ll rl : List (Cell K)) (c : Cell K)
      → get_bit c.distance i ≡ true
      → Fresh c.key rl
      → length rl < bucket
      → insert key (suc (suc f)) (node (leaf ll) (leaf rl) list) c i bucket
        ≡ some (record {
          added = true;
          removed = [];
          tree = node (leaf ll) (leaf (rl ++ c ∷ [])) list;
        })
  unfolding present with_tree
  enter_right f i bucket list ll rl c one fresh h = rw (
    insert-right (suc f) i bucket (leaf ll) (leaf rl) list c refl one,
    push_leaf f (suc i) bucket rl c fresh h,
  )

  enter_left :
      (f i bucket : ℕ) (list ll rl : List (Cell K)) (c : Cell K)
      → get_bit c.distance i ≡ false
      → Fresh c.key ll
      → length ll < bucket
      → insert key (suc (suc f)) (node (leaf ll) (leaf rl) list) c i bucket
        ≡ some (record {
          added = true;
          removed = [];
          tree = node (leaf (ll ++ c ∷ [])) (leaf rl) list;
        })
  unfolding present with_tree
  enter_left f i bucket list ll rl c bit fresh h = rw (
    insert-left (suc f) i bucket (leaf ll) (leaf rl) list c refl bit,
    push_leaf f (suc i) bucket ll c fresh h,
  )

  AllFresh-snoc :
      (list held : List (Cell K)) (c : Cell K)
      → AllFresh list held
      → Fresh c.key list
      → AllFresh list (held ++ c ∷ [])
  AllFresh-snoc [] held c a f = tt
  AllFresh-snoc (x ∷ list) held c a f = (
    Fresh-append x.key held (c ∷ []) a.0 ((λ e. f.0 (sym e)), tt),
    AllFresh-snoc list held c a.1 f.1,
  )

  pub spread_lem :
      (f i bucket : ℕ) (list ll rl : List (Cell K))
      → Distinct list
      → AllFresh list ll
      → AllFresh list rl
      → length ll + length list ≤ bucket
      → length rl + length list ≤ bucket
      → spread (insert key (suc (suc f))) list (leaf ll) (leaf rl) i bucket
        ≡ some (node (leaf (ll ++ side false i list)) (leaf (rl ++ side true i list)) [])
  unfolding spread side left_of right_of
  spread_lem f i bucket [] ll rl d fl fr hl hr = rw (append-nil ll, append-nil rl)
  spread_lem f i bucket (c ∷ list) ll rl d fl fr hl hr = elim (Bool-cases (get_bit c.distance i)) [
    | inl one ↦
        rw (one, enter_right f i bucket list ll rl c one fr.0 (omega arith))
          (spread_lem f i bucket list ll (rl ++ c ∷ []) d.1 fl.1 (AllFresh-snoc list rl c fr.1 d.0)
              (omega arith) (omega (arith, length-append rl (c ∷ [])))
            ∙ rw (append_assoc rl (c ∷ []) (side true i list)))
    | inr zero_bit ↦
        rw (zero_bit, enter_left f i bucket list ll rl c zero_bit fl.0 (omega arith))
          (spread_lem f i bucket list (ll ++ c ∷ []) rl d.1 (AllFresh-snoc list ll c fl.1 d.0) fr.1
              (omega (arith, length-append ll (c ∷ []))) (omega arith)
            ∙ rw (append_assoc ll (c ∷ []) (side false i list)))
  ]

module _ {K : Type 0} where
  pub InList-side :
      (c : Cell K) (i : ℕ) (list : List (Cell K))
      → InList c list
      → InList c (side false i list) ⊎ InList c (side true i list)
  unfolding side
  InList-side c i (x ∷ list) h = elim (Bool-cases (get_bit x.distance i)) [
    | inl b ↦ rw b (elim h [
      | inl e ↦ inr (inl e)
      | inr m ↦ elim (InList-side c i list m) [ inl g ↦ inl g | inr g ↦ inr (inr g) ]
    ])
    | inr b ↦ rw b (elim h [
      | inl e ↦ inl (inl e)
      | inr m ↦ elim (InList-side c i list m) [ inl g ↦ inl (inr g) | inr g ↦ inr g ]
    ])
  ]
  InList-side c i [] h = absurd h

  pub InList-of_side :
      (b : Bool) (c : Cell K) (i : ℕ) (list : List (Cell K))
      → InList c (side b i list)
      → InList c list × (get_bit c.distance i ≡ b)
  unfolding side
  InList-of_side true c i (x ∷ list) h = elim (Bool-cases (get_bit x.distance i)) [
    | inl b ↦ elim (rw b at h) [
      | inl e ↦ (inl e, ap (λ (d : Cell K). get_bit d.distance i) e ∙ b)
      | inr m ↦ let r = InList-of_side true c i list m in (inr r.0, r.1)
    ]
    | inr b ↦ let r = InList-of_side true c i list (rw b at h) in (inr r.0, r.1)
  ]
  InList-of_side false c i (x ∷ list) h = elim (Bool-cases (get_bit x.distance i)) [
    | inl b ↦ let r = InList-of_side false c i list (rw b at h) in (inr r.0, r.1)
    | inr b ↦ elim (rw b at h) [
      | inl e ↦ (inl e, ap (λ (d : Cell K). get_bit d.distance i) e ∙ b)
      | inr m ↦ let r = InList-of_side false c i list m in (inr r.0, r.1)
    ]
  ]
  InList-of_side true c i [] h = absurd h
  InList-of_side false c i [] h = absurd h

  Fresh-side :
      (b : Bool) (k : K) (i : ℕ) (list : List (Cell K)) → Fresh k list → Fresh k (side b i list)
  unfolding side
  Fresh-side true k i (x ∷ list) h = ground (arith, Fresh-side true k i list h.1)
  Fresh-side false k i (x ∷ list) h = ground (arith, Fresh-side false k i list h.1)
  Fresh-side true k i [] h = tt
  Fresh-side false k i [] h = tt

  pub Distinct-side :
      (b : Bool) (i : ℕ) (list : List (Cell K)) → Distinct list → Distinct (side b i list)
  unfolding side
  Distinct-side true i (x ∷ list) h =
      ground (arith, Distinct-side true i list h.1, Fresh-side true x.key i list h.0)
  Distinct-side false i (x ∷ list) h =
      ground (arith, Distinct-side false i list h.1, Fresh-side false x.key i list h.0)
  Distinct-side true i [] h = tt
  Distinct-side false i [] h = tt

  pub length-side-le :
      (b : Bool) (i : ℕ) (list : List (Cell K)) → length (side b i list) ≤ length list
  unfolding side
  length-side-le true i (x ∷ list) = ground (arith, length-side-le true i list)
  length-side-le false i (x ∷ list) = ground (arith, length-side-le false i list)
  length-side-le true i [] = omega arith
  length-side-le false i [] = omega arith

  pub AllFresh-nil : (list : List (Cell K)) → AllFresh list []
  AllFresh-nil [] = tt
  AllFresh-nil (x ∷ list) = (tt, AllFresh-nil list)
