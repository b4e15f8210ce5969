-- ===== src/Kad/Scan.antt =====
-- src/kad.rs: the loops of `Node::insert` over the list of a leaf.
use native.Mathlib.Nat.{zero-add, add-zero, add-suc, suc-add}
use chamomile.Prelude.{
  ℕ, suc, ◌+◌, ◌≤◌, Bool, true, false, Option, none, some, List, [], ◌∷◌, ◌++◌, ◌≡◌, ◌≢◌, ◌⊎◌, inl,
  inr, refl, sym, ap, ◌∙◌, subst, arith, All, length, remove_at, equal_yes, equal_no, Bool-cases,
}
use chamomile.Prelude.Maybe.{map_option}
use chamomile.Kad.Distance.{Distance}
use chamomile.Kad.Node.{Cell, scan_same, remove_found, replace_farther}
use chamomile.Kad.Cells.{InList, Fresh, Distinct, others, others_fresh, Fresh-of_InList}

module _ {K : Type 0} (eq : Discrete K) (k : K) where
  pub scan_fresh :
      (list : List (Cell K)) (i : ℕ) (need : Option ℕ) (removed : List ℕ)
      → Fresh k list
      → scan_same eq k list i need removed ≡ (need, removed)
  unfolding scan_same
  scan_fresh [] i need removed f = refl
  scan_fresh (x ∷ list) i need removed f =
      rw (equal_no eq x.key k f.0) (scan_fresh list (suc i) need removed f.1)

  -- The loop finds no cell, or the one that is there: with its index and its value.
  abbrev Scanned : List (Cell K) → ℕ → List ℕ → Type 0
  Scanned list i removed =
      (Fresh k list)
      ⊎ ((j : ℕ) × (d : Cell K) × InList d list
          × (d.key ≡ k)
          × (scan_same eq k list i none removed ≡ (some (i + j), removed ++ d.value ∷ []))
          × (remove_at list j ≡ others eq k list))

  scan_cases :
      (list : List (Cell K)) (i : ℕ) (removed : List ℕ) → Distinct list → Scanned list i removed
  unfolding scan_same others
  scan_cases [] i removed d = inl tt
  scan_cases (x ∷ list) i removed d = elim (eq x.key k) [
    | yes h ↦
        let f : Fresh k list = subst (λ y. Fresh y list) h d.0 in
        inr (
          0,
          x,
          inl refl,
          h,
          rw (equal_yes eq x.key k h, add-zero)
              (scan_fresh list (suc i) (some i) (removed ++ x.value ∷ []) f),
          rw (equal_yes eq x.key k h) (sym (others_fresh eq k list f)),
        )
    | no h ↦ elim (scan_cases list (suc i) removed d.1) [
      | inl f ↦ inl (h, f)
      | inr (j, c, m, e, scanned, rest) ↦ inr (
        suc j,
        c,
        inr m,
        e,
        rw (equal_no eq x.key k h, add-suc, ← suc-add) scanned,
        rw (equal_no eq x.key k h) (ap (◌∷◌ x) rest),
      )
    ]
  ]

  -- The value is that of a cell of the list with this key.
  abbrev pub HeldBy : List (Cell K) → ℕ → Type 0
  HeldBy list v = (d : Cell K) × InList d list × (d.key ≡ k) × (d.value ≡ v)

  -- The loop and the removal leave the other keys; the values that go are those of the key.
  pub cleared :
      (list : List (Cell K))
      → Distinct list
      → let scanned = scan_same eq k list 0 none [] in
        (remove_found scanned.0 list ≡ others eq k list)
        × All (HeldBy list) scanned.1
        × (length scanned.1 ≤ 1)
  unfolding remove_found
  cleared list d = elim (scan_cases list 0 [] d) [
    | inl f ↦ rw (scan_fresh list 0 none [] f) (sym (others_fresh eq k list f), tt, omega arith)
    | inr (j, c, m, e, scanned, rest) ↦
        rw (scanned, zero-add) (rest, ((c, m, e, refl), tt), omega arith)
  ]

module _ {K : Type 0} (closer : Distance → Distance → Bool) (cell : Cell K) where
  -- What `replace_farther` does to a list: the cell takes the place of one farther away.
  pub record Replaced (list : List (Cell K)) (v : ℕ) (list' : List (Cell K)) : Type 0 where
    pub gone : Cell K
    pub was : InList gone list
    pub value : gone.value ≡ v
    pub farther : closer cell.distance gone.distance ≡ true
    pub here : InList cell list'
    pub kept : (c : Cell K) → InList c list → (c ≡ gone) ⊎ InList c list'
    pub came : (c : Cell K) → InList c list' → (c ≡ cell) ⊎ (InList c list × (c.key ≢ gone.key))
    pub same : length list' ≡ length list
    pub distinct : Distinct list'
    pub fresh : (j : K) → Fresh j list → j ≢ cell.key → Fresh j list'

  -- Or nothing is farther away.
  abbrev pub ReplacedBy : List (Cell K) → Option (ℕ × List (Cell K)) → Type 0
  ReplacedBy list none = All (λ (c : Cell K). closer cell.distance c.distance ≡ false) list
  ReplacedBy list (some (v, list')) = Replaced list v list'

  replaced_later :
      (x : Cell K) (list : List (Cell K)) (o : Option (ℕ × List (Cell K)))
      → Fresh x.key list
      → x.key ≢ cell.key
      → closer cell.distance x.distance ≡ false
      → ReplacedBy list o
      → ReplacedBy (x ∷ list) (map_option (λ p. (p.0, x ∷ p.1)) o)
  replaced_later x list none f n near h = (near, h)
  replaced_later x list (some (v, list')) f n near h = record {
    gone = h.gone;
    was = inr h.was;
    value = h.value;
    farther = h.farther;
    here = inr h.here;
    kept = kept;
    came = came;
    same = ap suc h.same;
    distinct = (h.fresh x.key f n, h.distinct);
    fresh = λ j g m. (g.0, h.fresh j g.1 m);
  }
    where
      kept : (c : Cell K) → InList c (x ∷ list) → (c ≡ h.gone) ⊎ InList c (x ∷ list')
      kept c (inl e) = inr (inl e)
      kept c (inr m) = elim (h.kept c m) [ inl e ↦ inl e | inr g ↦ inr (inr g) ]

      came :
          (c : Cell K)
          → InList c (x ∷ list')
          → (c ≡ cell) ⊎ (InList c (x ∷ list) × (c.key ≢ h.gone.key))
      came c (inl e) = inr (
        inl e,
        λ same. Fresh-of_InList x.key h.gone list f h.was (sym same ∙ ap (λ (d : Cell K). d.key) e),
      )
      came c (inr m) = elim (h.came c m) [ inl e ↦ inl e | inr g ↦ inr (inr g.0, g.1) ]

  Replaced-first :
      (x : Cell K) (list : List (Cell K))
      → Distinct (x ∷ list)
      → Fresh cell.key (x ∷ list)
      → closer cell.distance x.distance ≡ true
      → Replaced (x ∷ list) x.value (cell ∷ list)
  Replaced-first x list d f far = record {
    gone = x;
    was = inl refl;
    value = refl;
    farther = far;
    here = inl refl;
    kept = kept;
    came = came;
    same = refl;
    distinct = (f.1, d.1);
    fresh = λ j g m. ((λ e. m (sym e)), g.1);
  }
    where
      kept : (c : Cell K) → InList c (x ∷ list) → (c ≡ x) ⊎ InList c (cell ∷ list)
      kept c (inl e) = inl e
      kept c (inr m) = inr (inr m)

      came :
          (c : Cell K)
          → InList c (cell ∷ list)
          → (c ≡ cell) ⊎ (InList c (x ∷ list) × (c.key ≢ x.key))
      came c (inl e) = inl e
      came c (inr m) = inr (inr m, Fresh-of_InList x.key c list d.0 m)

  map_none :
      (f : ℕ × List (Cell K) → ℕ × List (Cell K)) (o : Option (ℕ × List (Cell K)))
      → map_option f o ≡ none
      → o ≡ none
  map_none f none e = refl
  map_none f (some p) e = absurd (cc)

  -- Where no cell is given away, none is farther.
  pub no_farther :
      (list : List (Cell K))
      → replace_farther closer cell list ≡ none
      → (c : Cell K) → InList c list
      → closer cell.distance c.distance ≡ false
  unfolding replace_farther
  no_farther [] e c m = absurd m
  no_farther (x ∷ list) e c m = elim (Bool-cases (closer cell.distance x.distance)) [
    | inl far ↦ absurd (ground arith)
    | inr near ↦ elim m [
      | inl same ↦ rw same near
      | inr later ↦
          no_farther list (map_none _ (replace_farther closer cell list) (rw near at e)) c later
    ]
  ]

  pub replaced :
      (list : List (Cell K))
      → Distinct list
      → Fresh cell.key list
      → ReplacedBy list (replace_farther closer cell list)
  unfolding replace_farther
  replaced [] d f = tt
  replaced (x ∷ list) d f = elim (Bool-cases (closer cell.distance x.distance)) [
    | inl far ↦ rw far (Replaced-first x list d f far)
    | inr near ↦ rw near (replaced_later x list _ d.0 f.0 near (replaced list d.1 f.1))
  ]
