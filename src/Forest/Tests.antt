-- ===== src/Forest/Tests.antt =====
-- A forest of one tree with three nodes, and numbers for thresholds.
use teecam.Prelude.{ℕ, zero, suc, ◌≡◌, refl, arith, leb, none, some, List, [], ◌∷◌, get_elem?, ok}
use teecam.Forest.Walk.{Tree, leaf_of, walk, child, item}
use teecam.Forest.Leaf.{IsInner, IsTree, leaf_of-IsTree}

abbrev small_tree : Tree ℕ
small_tree = record {
  left = some 1 ∷ none ∷ none ∷ [];
  right = some 2 ∷ none ∷ none ∷ [];
  feature = 0 ∷ 0 ∷ 0 ∷ [];
  threshold = 5 ∷ 0 ∷ 0 ∷ [];
  samples = 8 ∷ 3 ∷ 5 ∷ [];
  depth = 0 ∷ 1 ∷ 1 ∷ [];
  feature_map = 1 ∷ [];
}

abbrev two_values : List ℕ
two_values = 100 ∷ 7 ∷ []

leaf_of-small_tree : leaf_of leb small_tree two_values ≡ ok (1, 5)
unfolding leaf_of walk child item
leaf_of-small_tree = refl

small_tree-IsInner :
    (i l : ℕ) → get_elem? small_tree.left i ≡ some (some l) → IsInner leb two_values small_tree i l
small_tree-IsInner zero l e = record {
  r = 2;
  f = 0;
  s = 1;
  value = 7;
  bound = 5;
  left_after = let one : 1 ≡ l = cc e in omega (arith, one);
  left_inside = let one : 1 ≡ l = cc e in omega (arith, one);
  right_after = omega arith;
  right_inside = omega arith;
  right_is = refl;
  feature_is = refl;
  source_is = refl;
  value_is = refl;
  bound_is = refl;
}
small_tree-IsInner (suc zero) l e = cc e
small_tree-IsInner (suc (suc zero)) l e = cc e
small_tree-IsInner (suc (suc (suc i))) l e = cc e

small_tree-IsTree : IsTree leb two_values small_tree
small_tree-IsTree = record {
  root = omega arith;
  depths = refl;
  sample_counts = refl;
  inner = small_tree-IsInner;
}

leaf_of-IsTree_example :
    (k depth samples : ℕ) × (get_elem? small_tree.left k ≡ some none)
    × (get_elem? small_tree.depth k ≡ some depth)
    × (get_elem? small_tree.samples k ≡ some samples)
    × (leaf_of leb small_tree two_values ≡ ok (depth, samples))
leaf_of-IsTree_example = leaf_of-IsTree leb two_values small_tree small_tree-IsTree
