-- ===== src/Kad/Search.antt =====
-- src/kad.rs: `Node::search` on a tree of the right shape.
use chamomile.Prelude.{
  ℕ, zero, suc, true, Option, none, some, List, [], ◌∷◌, ◌≡◌, ◌⊎◌, inl, inr, refl, sym, ap, ◌∙◌,
  get_elem?, Bool-cases, Option-cases, equal_yes, equal_no,
}
use chamomile.Kad.Distance.{Distance, Key, get_bit, max_distance}
use chamomile.Kad.Node.{Cell, TreeNode, absent, node, present}
use chamomile.Kad.Lookup.{Found, Scan, exact, closest, found_at, scan_closest, answer, search}
use chamomile.Kad.Cells.{InList, In, Distinct, IsTree, Fresh-of_InList}

-- A node with a cell below it holds none itself.
pub inner_empty :
    {K : Type 0} (bucket i : ℕ) (l r : TreeNode K) (list : List (Cell K)) (c : Cell K)
    → IsTree bucket i (node l r list)
    → In c l ⊎ In c r
    → list ≡ []
unfolding present
inner_empty bucket i l (node a b held) list c s m = s.0.0
inner_empty bucket i (node a b held) absent list c s m = s.0.0
inner_empty bucket i absent absent list c s (inl m) = absurd m
inner_empty bucket i absent absent list c s (inr m) = absurd m

module _ {K : Type 0} (key : Key K) (k : K) (d : Distance) where
  scan_hit :
      (c : Cell K) (list : List (Cell K)) (i : ℕ) (best : Option ℕ) (dis : Distance)
      → InList c list
      → c.key ≡ k
      → Distinct list
      → scan_closest key k d list i best dis ≡ exact c
  unfolding scan_closest
  scan_hit c (x ∷ list) i best dis (inl e) h u =
      rw (equal_yes key.eq x.key k (ap (λ (y : Cell K). y.key) (sym e) ∙ h)) (ap exact (sym e))
  scan_hit c (x ∷ list) i best dis (inr m) h u =
      rw (equal_no key.eq x.key k (λ e. Fresh-of_InList x.key c list u.0 m (h ∙ sym e)))
        (scan_hit c list (suc i) _ _ m h u.1)
  scan_hit c [] i best dis m h u = absurd m

  -- What a scan may say of a list: the key's own cell, or an index.
  abbrev Truthful : List (Cell K) → Scan K → Type 0
  Truthful list (exact c) = InList c list × (c.key ≡ k)
  Truthful list (closest i) = Unit

  scan-Truthful :
      (list all : List (Cell K)) (i : ℕ) (best : Option ℕ) (dis : Distance)
      → ((c : Cell K) → InList c list → InList c all)
      → Truthful all (scan_closest key k d list i best dis)
  unfolding scan_closest
  scan-Truthful [] all i best dis f = tt
  scan-Truthful (x ∷ list) all i best dis f = elim (key.eq x.key k) [
    | yes e ↦ rw (equal_yes key.eq x.key k e) (f x (inl refl), e)
    | no n ↦
        rw (equal_no key.eq x.key k n) (scan-Truthful list all (suc i) _ _ (λ c m. f c (inr m)))
  ]

  -- An answer is a cell of the tree, and one that claims to be exact is the key's.
  abbrev pub FromTree : TreeNode K → Option (Found K) → Type 0
  FromTree t none = Unit
  FromTree t (some f) =
      (c : Cell K) × In c t × (c.key ≡ f.key) × (c.value ≡ f.value) × (f.is_it ≡ true → f.key ≡ k)

  elem_in : (list : List (Cell K)) (i : ℕ) (c : Cell K) → get_elem? list i ≡ some c → InList c list
  elem_in [] i c e = absurd (cc)
  elem_in (x ∷ list) zero c e = inl (cc)
  elem_in (x ∷ list) (suc i) c e = inr (elem_in list i c e)

  answer_from :
      (l r : TreeNode K) (list : List (Cell K)) (s : Scan K) (next : Option (Found K))
      → Truthful list s
      → FromTree (node l r list) next
      → FromTree (node l r list) (answer key s list next)
  unfolding answer found_at
  answer_from l r list (exact c) next h n = (c, inl h.0, refl, refl, λ e. h.1)
  answer_from l r list (closest i) (some f) h n = n
  answer_from l r list (closest none) none h n = tt
  answer_from l r list (closest (some i)) none h n = elim (Option-cases (get_elem? list i)) [
    | inl e ↦ rw e tt
    | inr (c, e) ↦ rw e (c, inl (elem_in list i c e), refl, refl, λ no_hit. absurd (cc))
  ]

  wider :
      (t u : TreeNode K) (o : Option (Found K))
      → ((c : Cell K) → In c t → In c u)
      → FromTree t o
      → FromTree u o
  wider t u none f h = tt
  wider t u (some x) f (c, m, a, b, e) = (c, f c m, a, b, e)

  pub search-FromTree : (t : TreeNode K) (i : ℕ) → FromTree t (search key t k d i)
  unfolding search
  search-FromTree absent i = tt
  search-FromTree (node l r list) i = elim (Bool-cases (get_bit d i)) [
    | inl b ↦ rw b (
        answer_from l r list _ _ (scan-Truthful list list 0 none _ (λ c m. m))
          (wider r (node l r list) _ (λ c m. inr (inr m)) (search-FromTree r (suc i))))
    | inr b ↦ rw b (
        answer_from l r list _ _ (scan-Truthful list list 0 none _ (λ c m. m))
          (wider l (node l r list) _ (λ c m. inr (inl m)) (search-FromTree l (suc i))))
  ]

  -- A key that the tree holds is found, with its value.
  pub search_hit :
      (bucket i : ℕ) (t : TreeNode K) (c : Cell K)
      → IsTree bucket i t
      → In c t
      → c.key ≡ k
      → c.distance ≡ d
      → search key t k d i ≡ some (record { key = c.key; value = c.value; is_it = true })
  unfolding search answer scan_closest
  search_hit bucket i (node l r list) c s (inl m) h e =
      rw (scan_hit c list 0 none (max_distance key.key_length) m h s.1)
  search_hit bucket i (node l r list) c s (inr (inl m)) h e = rw (
    inner_empty bucket i l r list c s (inl m),
    ap (λ x. get_bit x i) (sym e) ∙ s.2 c m,
    search_hit bucket (suc i) l c s.4 m h e,
  )
  search_hit bucket i (node l r list) c s (inr (inr m)) h e = rw (
    inner_empty bucket i l r list c s (inr m),
    ap (λ x. get_bit x i) (sym e) ∙ s.3 c m,
    search_hit bucket (suc i) r c s.5 m h e,
  )
  search_hit bucket i absent c s m h e = absurd m
