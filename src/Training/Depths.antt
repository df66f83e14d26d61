-- ===== src/Training/Depths.antt =====
-- The exported depth of a node is its distance from the root.
use teecam.Prelude.{
  ℕ, suc, ◌+◌, ◌≤◌, ◌<◌, ◌≡◌, refl, ◌∙◌, arith, true, ltb, Option, some, List, [], ◌∷◌, length,
  get_elem?, set, replicate, length-replicate, ok,
}
use teecam.Forest.Walk.{Tree, item}
use teecam.Training.Spans.{
  Spans, leaf_at, inner_at, Reaches, at_root, to_left, to_right, Spans-lt, length-set, write,
  length-write, write-root, write-GoodAt, children-inside,
}
use teecam.Training.Export.{Estimator, set_item, depth_loop, depths_of, exported_tree}

set_item-lt :
    {A : Type 0} (xs : List A) (i : ℕ) (v : A)
    → i < length xs
    → set_item xs (some i) v ≡ ok (set xs i v)
unfolding set_item
set_item-lt xs i v h =
    let inside : ltb i (length xs) ≡ true = ground (arith, h) in rw (set_item, inside) refl

item-at :
    {A : Type 0} (xs : List A) (i : ℕ) {a : A} → get_elem? xs i ≡ some a → item xs (some i) ≡ ok a
unfolding item
item-at xs i e = rw (item, e) refl

module _ {left right : List (Option ℕ)} where
  -- The fuel for a subtree and what comes after it: one round for each node.
  abbrev fuel_for : {i j : ℕ} → Spans left right i j → ℕ → ℕ
  fuel_for (leaf_at e) fuel = suc fuel
  fuel_for (inner_at e f a b) fuel = suc (fuel_for b (fuel_for a fuel))

  fuel_for-count : {i j : ℕ} (s : Spans left right i j) (fuel : ℕ) → fuel_for s fuel + i ≡ j + fuel
  fuel_for-count (leaf_at e) fuel = omega arith
  fuel_for-count (inner_at e f a b) fuel =
      omega (arith, fuel_for-count b (fuel_for a fuel), fuel_for-count a fuel)

  depth_loop-write :
      {i j : ℕ} (s : Spans left right i j) (d fuel : ℕ) (stack : List (Option ℕ × ℕ))
      (depths : List ℕ)
      → j ≤ length depths
      → depth_loop (fuel_for s fuel) left right ((some i, d) ∷ stack) depths
        ≡ depth_loop fuel left right stack (write s d depths)
  unfolding depth_loop
  depth_loop-write {i} (leaf_at e) d fuel stack depths fits =
      rw (depth_loop, set_item-lt depths i d (omega (arith, fits)), item-at left i e) refl
  depth_loop-write {i} (inner_at {m = m} e f a b) d fuel stack depths fits =
      let size = length-set depths i d in
      let first =
        depth_loop-write b (suc d) (fuel_for a fuel) ((some (suc i), suc d) ∷ stack)
          (set depths i d) (omega (arith, fits, size)) in
      let second =
        depth_loop-write a (suc d) fuel stack (write b (suc d) (set depths i d))
          (omega (arith, fits, size, length-write b (suc d) (set depths i d), Spans-lt b)) in
      rw
        (
          depth_loop,
          set_item-lt depths i d (omega (arith, fits, Spans-lt a, Spans-lt b)),
          item-at left i e,
          item-at right i f,
        )
        (first ∙ second)

  -- The nodes that are reached from the root are in the tree, at the depth of their steps.
  Reaches-depth :
      {n : ℕ} (s : Spans left right 0 n) (depths : List ℕ)
      → n ≤ length depths
      → {v k : ℕ} → Reaches left right v k
      → (v < n) × (get_elem? (write s 0 depths) v ≡ some k)
  Reaches-depth s depths fits at_root =
      (Spans-lt s, write-root s 0 depths (omega (arith, fits, Spans-lt s)))
  Reaches-depth s depths fits (to_left {v} {k} {l} {r} before e f) =
      let (inside, here) = Reaches-depth s depths fits before in
      let child = children-inside s v l r (omega arith) inside e f in
      (child.1, (write-GoodAt s 0 depths fits v (omega arith) inside l r k e f here).0)
  Reaches-depth s depths fits (to_right {v} {k} {l} {r} before e f) =
      let (inside, here) = Reaches-depth s depths fits before in
      let child = children-inside s v l r (omega arith) inside e f in
      (child.3, (write-GoodAt s 0 depths fits v (omega arith) inside l r k e f here).1)

-- A tree of scikit-learn whose nodes are numbered in preorder, which the columns of its children fill
-- just, is exported, with no exception; the exported depth of each node that is reached from the root
-- is the number of steps to it, and the children, the features, the thresholds and the numbers of
-- samples are those of the tree, with the feature map that was given.
pub exported_tree-depth :
    {Number : Type 0} (tree : Estimator Number) (feature_map : List ℕ)
    → Spans tree.children_left tree.children_right 0 (length tree.children_left)
    → (out : Tree Number) × (exported_tree tree feature_map ≡ ok out)
      × (out.left ≡ tree.children_left)
      × (out.right ≡ tree.children_right)
      × (out.feature ≡ tree.feature)
      × (out.threshold ≡ tree.threshold)
      × (out.samples ≡ tree.n_node_samples)
      × (out.feature_map ≡ feature_map)
      × ((v k : ℕ)
          → Reaches tree.children_left tree.children_right v k
          → get_elem? out.depth v ≡ some k)
unfolding exported_tree depths_of depth_loop
exported_tree-depth {Number} tree feature_map s =
    let count = length tree.children_left in
    let start = replicate count 0 in
    let size = length-replicate {A = ℕ} count 0 in
    let fuel : fuel_for s 0 ≡ count = omega (arith, fuel_for-count s 0) in
    let run = depth_loop-write s 0 0 [] start (omega (arith, size)) in
    let out : Tree Number = record {
      left = tree.children_left;
      right = tree.children_right;
      feature = tree.feature;
      threshold = tree.threshold;
      samples = tree.n_node_samples;
      depth = write s 0 start;
      feature_map = feature_map;
    } in
    (
      out,
      rw (exported_tree, depths_of, rw fuel at run) refl,
      refl,
      refl,
      refl,
      refl,
      refl,
      refl,
      λ v k reached. (Reaches-depth s start (omega (arith, size)) reached).1,
    )
