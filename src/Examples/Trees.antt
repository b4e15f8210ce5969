-- ===== src/Examples/Trees.antt =====
-- A tree of numbers.
use chamomile.Prelude.{
  ℕ, ◌%◌, ◌/◌, Bool, true, false, ◌==◌, not, ◌&&◌, some, [], ◌∷◌, ◌≡◌, ◌≢◌, ◌↔◌, ◌⊎◌, refl, arith,
  ℕ_discrete, if◌then◌else◌,
}
use chamomile.Kad.Distance.{
  Distance, Key, calc_distance, xor, neq, head_bit, tail_bits, get_bit, bit,
}
use chamomile.Kad.Node.{
  Cell, absent, insert, insert_step, insert_leaf, scan_same, remove_found, present, left_of,
  right_of, list_of, k_bucket,
}
use chamomile.Kad.Insert.{insert-Post}
use chamomile.Kad.Post.{Outcome, Listed}
use chamomile.Kad.Tree.{
  KadTree, new_tree, settle, tree_add, tree_search, tree_remove, tree_contains,
}
use chamomile.Kad.Tree.Adding.{
  Holds, IsKadTree, cell_for, AddPost, new_tree-IsKadTree, tree_add-AddPost,
}
use chamomile.Kad.Tree.Removing.{exact_value, tree_search-tree_remove}
use chamomile.Kad.Tree.Finding.{
  tree_search_hit, tree_contains_iff, tree_search-tree_add, tree_search-tree_add_ne,
}

-- four bits, the greatest first
abbrev nat_distance : ℕ → Distance
nat_distance n = (n / 8 % 2 == 1) ∷ (n / 4 % 2 == 1) ∷ (n / 2 % 2 == 1) ∷ (n % 2 == 1) ∷ []

abbrev closer_bits : Distance → Distance → Bool
closer_bits [] d = false
closer_bits (a ∷ c) [] = false
closer_bits (a ∷ c) (b ∷ d) =
    let rest = closer_bits c d in if not a && b then true else if a && not b then false else rest

abbrev numbers : Key ℕ
numbers = record { eq = ℕ_discrete; key_length = 4; distance = nat_distance; closer = closer_bits }

abbrev bare : KadTree ℕ
bare = new_tree 0

bare-IsKadTree : IsKadTree numbers bare
bare-IsKadTree = new_tree-IsKadTree numbers 0

abbrev one : KadTree ℕ
one = (tree_add numbers bare 5 50).tree

one-IsKadTree : IsKadTree numbers one
one-IsKadTree = (tree_add-AddPost numbers bare 5 50 bare-IsKadTree).valid

added_five : (tree_add numbers bare 5 50).added ≡ true
unfolding tree_add new_tree settle insert insert_step insert_leaf scan_same remove_found present
    left_of right_of list_of calc_distance xor neq head_bit tail_bits get_bit bit
added_five = refl

-- Inserting a key into an absent child on the last level.
insert-Post_example : Outcome numbers 20 (cell_for numbers bare 5 50) 1 8 absent
insert-Post_example =
    insert-Post numbers 20 (cell_for numbers bare 5 50) 1 8 absent (omega arith) (omega arith) tt

tree_add-AddPost_example :
    AddPost numbers one (cell_for numbers one 9 90) (tree_add numbers one 9 90)
tree_add-AddPost_example = tree_add-AddPost numbers one 9 90 one-IsKadTree

five_held : Holds (cell_for numbers bare 5 50) one
five_held = (tree_add-AddPost numbers bare 5 50 bare-IsKadTree).here added_five

tree_search_hit_example :
    tree_search numbers one 5 ≡ some (record { key = 5; value = 50; is_it = true })
tree_search_hit_example =
    tree_search_hit numbers one 5 (cell_for numbers bare 5 50) one-IsKadTree five_held refl

tree_contains_iff_example :
    (tree_contains numbers one 5 ≡ true) ↔ ((c : Cell ℕ) × Holds c one × (c.key ≡ 5))
tree_contains_iff_example = tree_contains_iff numbers one 5 one-IsKadTree

tree_search-tree_add_example :
    tree_search numbers one 5 ≡ some (record { key = 5; value = 50; is_it = true })
tree_search-tree_add_example = tree_search-tree_add numbers bare 5 50 bare-IsKadTree added_five

tree_search-tree_add_ne_example :
    (tree_search numbers (tree_add numbers one 9 90).tree 5
      ≡ some (record { key = 5; value = 50; is_it = true }))
    ⊎ Listed numbers k_bucket (cell_for numbers one 9 90) 50 (tree_add numbers one 9 90).removed
tree_search-tree_add_ne_example =
    tree_search-tree_add_ne numbers one 9 5 90 50 one-IsKadTree (λ e. ground arith)
      (tree_search_hit numbers one 5 (cell_for numbers bare 5 50) one-IsKadTree five_held refl)

tree_search-tree_remove_example :
    ((tree_remove numbers one 5).0 ≡ exact_value (tree_search numbers one 5))
    × IsKadTree numbers (tree_remove numbers one 5).1
    × (tree_contains numbers (tree_remove numbers one 5).1 5 ≡ false)
    × ((c : Cell ℕ) → c.key ≢ 5 → (Holds c (tree_remove numbers one 5).1 ↔ Holds c one))
tree_search-tree_remove_example = tree_search-tree_remove numbers one 5 one-IsKadTree
