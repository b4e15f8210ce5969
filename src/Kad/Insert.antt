-- ===== src/Kad/Insert.antt =====
-- src/kad.rs: `Node::insert` with the postcondition of Kad/Post.
use chamomile.Prelude.{
  ℕ, zero, suc, ◌+◌, ◌-◌, ◌*◌, ◌≤◌, ◌<◌, Bool, true, false, Option, none, List, [], ◌∷◌, ◌++◌, ◌≡◌,
  inl, inr, refl, ap, ◌∙◌, subst, arith, All, length, length-append, Option-cases, lt→ltb,
  ltb-false, le→leb, leb-false, dec_lt,
}
use chamomile.Kad.Distance.{Key}
use chamomile.Kad.Node.{
  Cell, TreeNode, absent, node, Inserted, present, left_of, right_of, list_of, scan_same,
  replace_farther, insert_full, insert_leaf, insert_step, insert, max_level,
}
use chamomile.Kad.Cells.{
  InList, In, Distinct, IsTree, others, InList-append, InList-of_append, InList-others,
  InList-of_others, InList-others_full, Fresh-others_self, Distinct-others, Distinct-snoc,
  length-others-le,
}
use chamomile.Kad.Scan.{HeldBy, cleared, Replaced, ReplacedBy, replaced, no_farther}
use chamomile.Kad.Split.{
  leaf, side, spread_lem, InList-side, InList-of_side, Distinct-side, length-side-le, AllFresh-nil,
}
use chamomile.Kad.Post.{Gone, Post, Outcome, Post-cells, descend}

from_leaf : {K : Type 0} (c : Cell K) (list : List (Cell K)) → In c (leaf list) → InList c list
from_leaf c list (inl m) = m
from_leaf c list (inr (inl m)) = absurd m
from_leaf c list (inr (inr m)) = absurd m

at_leaf :
    {K : Type 0} (key : Key K) (bucket : ℕ) (cell : Cell K) (list : List (Cell K)) (f i : ℕ)
    → insert key (suc f) (leaf list) cell i bucket
      ≡ insert_leaf key (insert key f) list cell i bucket
unfolding insert insert_step present right_of left_of list_of
at_leaf key bucket cell list f i = refl

module _ {K : Type 0} (key : Key K) (bucket : ℕ) (cell : Cell K) (list : List (Cell K)) where
  abbrev scanned : Option ℕ × List ℕ
  scanned = scan_same key.eq cell.key list 0 none []

  abbrev rest : List (Cell K)
  rest = others key.eq cell.key list

  module _ (d : Distinct list) (h : length list ≤ bucket) where
    HeldBy-Gone :
        (vs : List ℕ)
        → All (HeldBy key.eq cell.key list) vs
        → All (Gone key bucket cell (leaf list)) vs
    HeldBy-Gone [] a = tt
    HeldBy-Gone (v ∷ vs) ((c, m, e, w), a) = ((c, inl m, w, inl e), HeldBy-Gone vs a)

    push-Post :
        (i : ℕ)
        → length rest < bucket
        → Post key bucket cell i
            (leaf list)
            (record { added = true; removed = scanned.1; tree = leaf (rest ++ cell ∷ []) })
    unfolding present
    push-Post i room = record {
      shape = (
        omega (arith, length-append rest (cell ∷ [])),
        Distinct-snoc rest cell (Distinct-others key.eq cell.key list d)
            (Fresh-others_self key.eq cell.key list),
        (λ c m. absurd m),
        (λ c m. absurd m),
        tt,
        tt,
      );
      there = refl;
      here = λ e. inl (InList-append cell rest (cell ∷ []) (inr (inl refl)));
      refused = λ e. absurd (cc);
      crowded = λ e. absurd (cc);
      came = λ c m. elim (InList-of_append c rest (cell ∷ []) (from_leaf c _ m)) [
        | inl g ↦ inr (inl (InList-of_others key.eq c cell.key list g).0)
        | inr g ↦ elim g [ inl e ↦ inl e | inr n ↦ absurd n ]
      ];
      kept = λ c m n. inl (
          inl (
            InList-append c rest (cell ∷ [])
              (inl (InList-others key.eq c cell.key list (from_leaf c list m) n))));
      gone = HeldBy-Gone scanned.1 (cleared key.eq cell.key list d).1;
      single = (cleared key.eq cell.key list d).2;
    }

    push_level : (f i : ℕ) → length rest < bucket → Outcome key bucket cell (suc f) i (leaf list)
    unfolding insert_leaf
    push_level f i room = (
      record { added = true; removed = scanned.1; tree = leaf (rest ++ cell ∷ []) },
      rw (
        at_leaf key bucket cell list f i,
        (cleared key.eq cell.key list d).0,
        lt→ltb (length rest) bucket room,
      ),
      push-Post i room,
    )

    module _ (full : bucket ≤ length rest) where
      all_stay : (c : Cell K) → InList c list → InList c rest
      all_stay c m = InList-others_full key.eq c cell.key list (omega arith) m

      -- A list that stays full had no cell of the key.
      none_gone : (vs : List ℕ) → All (HeldBy key.eq cell.key list) vs → vs ≡ []
      none_gone [] a = refl
      none_gone (v ∷ vs) ((c, m, e, w), a) =
          absurd ((InList-of_others key.eq c cell.key list (all_stay c m)).1 e)

      nothing : scanned.1 ≡ []
      nothing = none_gone scanned.1 (cleared key.eq cell.key list d).1

      leaf_shape :
          (i : ℕ) (list' : List (Cell K))
          → length list' ≤ bucket
          → Distinct list'
          → IsTree bucket i (leaf list')
      unfolding present
      leaf_shape i list' n d' = (n, d', (λ c m. absurd m), (λ c m. absurd m), tt, tt)

      refuse-Post :
          (i : ℕ)
          → replace_farther key.closer cell rest ≡ none
          → Post key bucket cell i
              (leaf list)
              (record { added = false; removed = []; tree = leaf rest })
      unfolding present
      refuse-Post i miss = record {
        shape =
            leaf_shape i rest (omega (arith, length-others-le key.eq cell.key list))
              (Distinct-others key.eq cell.key list d);
        there = refl;
        here = λ e. absurd (cc);
        refused = λ e c m. inl (all_stay c (from_leaf c list m));
        crowded = λ e. (
          rest,
          full,
          Distinct-others key.eq cell.key list d,
          λ c m. (
            inl (InList-of_others key.eq c cell.key list m).0,
            no_farther key.closer cell rest miss c m,
          ),
        );
        came = λ c m. inr (inl (InList-of_others key.eq c cell.key list (from_leaf c rest m)).0);
        kept = λ c m n. inl (inl (all_stay c (from_leaf c list m)));
        gone = tt;
        single = omega arith;
      }

      replace-Post :
          (i v : ℕ) (list' : List (Cell K))
          → Replaced key.closer cell rest v list'
          → Post key bucket cell i
              (leaf list)
              (record { added = true; removed = v ∷ []; tree = leaf list' })
      unfolding present
      replace-Post i v list' r = record {
        shape =
            leaf_shape i list' (omega (arith, r.same, length-others-le key.eq cell.key list))
              r.distinct;
        there = refl;
        here = λ e. inl r.here;
        refused = λ e. absurd (cc);
        crowded = λ e. absurd (cc);
        came = λ c m. elim (r.came c (from_leaf c list' m)) [
          | inl e ↦ inl e
          | inr n ↦ inr (inl (InList-of_others key.eq c cell.key list n.0).0)
        ];
        kept = λ c m n. elim (r.kept c (all_stay c (from_leaf c list m))) [
          | inl e ↦ inr (inl (ap (λ (x : Cell K). x.value) e ∙ r.value))
          | inr g ↦ inl (inl g)
        ];
        gone = (
          (
            r.gone,
            inl (InList-of_others key.eq r.gone cell.key list r.was).0,
            r.value,
            inr r.farther,
          ),
          tt,
        );
        single = omega arith;
      }

      at_full :
          (ins : TreeNode K → Cell K → ℕ → ℕ → Option (Inserted K)) (i : ℕ)
          → insert_leaf key ins list cell i bucket ≡ insert_full key ins rest [] cell i bucket
      unfolding insert_leaf
      at_full ins i =
          rw ((cleared key.eq cell.key list d).0, ltb-false (length rest) bucket full, nothing)

      -- At the last level a full list gives a farther cell away or refuses.
      last_level : (f i : ℕ) → max_level ≤ i → Outcome key bucket cell (suc f) i (leaf list)
      unfolding insert_full
      last_level f i e = elim (Option-cases (replace_farther key.closer cell rest)) [
        | inl miss ↦ (
          record { added = false; removed = []; tree = leaf rest },
          rw (
            at_leaf key bucket cell list f i,
            at_full (insert key f) i,
            le→leb max_level i e,
            miss,
          ),
          refuse-Post i miss,
        )
        | inr ((v, list'), hit) ↦ (
          record { added = true; removed = v ∷ []; tree = leaf list' },
          rw (
            at_leaf key bucket cell list f i,
            at_full (insert key f) i,
            le→leb max_level i e,
            hit,
          ),
          replace-Post i v list' (
              subst (ReplacedBy key.closer cell rest) hit (
                replaced key.closer cell rest (Distinct-others key.eq cell.key list d)
                  (Fresh-others_self key.eq cell.key list))),
        )
      ]

      halves : ℕ → TreeNode K
      halves i = node (leaf (side false i rest)) (leaf (side true i rest)) []

      halves-IsTree : (i : ℕ) → i < max_level → IsTree bucket i (halves i)
      unfolding halves present
      halves-IsTree i h8 = (
        (refl, h8),
        tt,
        (λ c m. (InList-of_side false c i rest (from_leaf c _ m)).1),
        (λ c m. (InList-of_side true c i rest (from_leaf c _ m)).1),
        leaf_shape (suc i) _ (small false)
            (Distinct-side false i rest (Distinct-others key.eq cell.key list d)),
        leaf_shape (suc i) _ (small true)
            (Distinct-side true i rest (Distinct-others key.eq cell.key list d)),
      )
        where
          small : (b : Bool) → length (side b i rest) ≤ bucket
          small b = omega (arith, length-side-le b i rest, length-others-le key.eq cell.key list)

      -- Above it a full list is split, and the cell goes on to one of the halves.
      split_level :
          (f i : ℕ)
          → i < max_level
          → ((t : TreeNode K) → IsTree bucket (suc i) t → Outcome key bucket cell (suc f) (suc i) t)
          → Outcome key bucket cell (suc (suc (suc f))) i (leaf list)
      unfolding insert_full halves present
      split_level f i h8 go =
          let (res, e, post) =
            descend key bucket cell (suc f) i (leaf (side false i rest)) (leaf (side true i rest))
              [] (halves-IsTree i h8) refl go in
          (
            res,
            rw
                (
                  at_leaf key bucket cell list (suc (suc f)) i,
                  at_full (insert key (suc (suc f))) i,
                  leb-false max_level i h8,
                  spread_lem key f i bucket rest [] [] (Distinct-others key.eq cell.key list d)
                      (AllFresh-nil rest) (AllFresh-nil rest) bound bound,
                )
                e,
            Post-cells key bucket cell i (halves i) (leaf list) res before after post,
          )
        where
          bound : 0 + length rest ≤ bucket
          bound = omega (arith, length-others-le key.eq cell.key list)

          before : (c : Cell K) → In c (halves i) → In c (leaf list)
          before c m = elim m [
            | inl x ↦ absurd x
            | inr (inl x) ↦ was false x
            | inr (inr x) ↦ was true x
          ]
            where
              was : (b : Bool) → In c (leaf (side b i rest)) → In c (leaf list)
              was b x =
                  inl
                    (InList-of_others key.eq c cell.key list
                      (InList-of_side b c i rest (from_leaf c (side b i rest) x)).0).0

          after : (c : Cell K) → In c (leaf list) → In c (halves i)
          after c m = elim (InList-side c i rest (all_stay c (from_leaf c list m))) [
            | inl g ↦ inr (inl (inl g))
            | inr g ↦ inr (inr (inl g))
          ]

    leaf_last : (f i : ℕ) → max_level ≤ i → Outcome key bucket cell (suc f) i (leaf list)
    leaf_last f i e = elim (dec_lt (length rest) bucket) [
      | yes room ↦ push_level f i room
      | no full ↦ last_level (omega arith) f i e
    ]

    leaf_above :
        (f i : ℕ)
        → i < max_level
        → ((t : TreeNode K) → IsTree bucket (suc i) t → Outcome key bucket cell (suc f) (suc i) t)
        → Outcome key bucket cell (suc (suc (suc f))) i (leaf list)
    leaf_above f i h8 go = elim (dec_lt (length rest) bucket) [
      | yes room ↦ push_level (suc (suc f)) i room
      | no full ↦ split_level (omega arith) f i h8 go
    ]

-- The fuel that an insertion at level `i` asks for: two calls for each level that is left.
abbrev pub needed : ℕ → ℕ
needed i = 2 * (max_level - i) + 1

module _ {K : Type 0} (key : Key K) (bucket : ℕ) (cell : Cell K) where
  -- An absent child is inserted into as an empty one.
  at_absent :
      (f i : ℕ)
      → Outcome key bucket cell (suc f) i (leaf [])
      → Outcome key bucket cell (suc f) i absent
  unfolding insert insert_step present right_of left_of list_of
  at_absent f i (res, e, post) = (
    res,
    e,
    Post-cells key bucket cell i (leaf []) absent res (λ c m. from_leaf c [] m) (λ c m. absurd m)
        post,
  )

  -- An insertion at level `i`, of at most 8, into a well-shaped tree returns a result on any fuel from
  -- 2 * (8 - i) + 1 on, and its result is as `Post` says.
  pub insert-Post :
      (fuel i : ℕ) (t : TreeNode K)
      → i ≤ max_level
      → needed i ≤ fuel
      → IsTree bucket i t
      → Outcome key bucket cell fuel i t
  unfolding present
  insert-Post zero i t h n s = absurd (omega arith)
  insert-Post (suc zero) i absent h n s =
      at_absent zero i (leaf_last key bucket cell [] tt (omega arith) zero i (omega arith))
  insert-Post (suc (suc zero)) i absent h n s =
      at_absent (suc zero) i
        (leaf_last key bucket cell [] tt (omega arith) (suc zero) i (omega arith))
  insert-Post (suc (suc (suc f))) i absent h n s = elim (dec_lt i max_level) [
    | yes h8 ↦ at_absent (suc (suc f)) i (
        leaf_above key bucket cell [] tt (omega arith) f i h8
          (λ t s'. insert-Post (suc f) (suc i) t (omega arith) (omega arith) s'))
    | no h8 ↦
        at_absent (suc (suc f)) i
          (leaf_last key bucket cell [] tt (omega arith) (suc (suc f)) i (omega arith))
  ]
  insert-Post (suc zero) i (node absent absent list) h n s =
      leaf_last key bucket cell list s.1 s.0 zero i (omega arith)
  insert-Post (suc (suc zero)) i (node absent absent list) h n s =
      leaf_last key bucket cell list s.1 s.0 (suc zero) i (omega arith)
  insert-Post (suc (suc (suc f))) i (node absent absent list) h n s = elim (dec_lt i max_level) [
    | yes h8 ↦
        leaf_above key bucket cell list s.1 s.0 f i h8
          (λ t s'. insert-Post (suc f) (suc i) t (omega arith) (omega arith) s')
    | no h8 ↦ leaf_last key bucket cell list s.1 s.0 (suc (suc f)) i (omega arith)
  ]
  insert-Post (suc f) i (node l (node a b held) list) h n s =
      descend key bucket cell f i l (node a b held) list s refl
        (λ t s'. insert-Post f (suc i) t (s.0.1) (omega (arith, s.0.1)) s')
  insert-Post (suc f) i (node (node a b held) absent list) h n s =
      descend key bucket cell f i (node a b held) absent list s refl
        (λ t s'. insert-Post f (suc i) t (s.0.1) (omega (arith, s.0.1)) s')
