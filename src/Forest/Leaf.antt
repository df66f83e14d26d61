-- ===== src/Forest/Leaf.antt =====
-- The descent comes to a leaf.
use teecam.Prelude.{
  ℕ, zero, suc, ◌+◌, ◌≤◌, ◌<◌, ◌≡◌, refl, sym, ap, ◌∙◌, inl, inr, arith, Bool, true, false,
  Bool-cases, if◌then◌else◌, Option-cases, none, some, List, [], ◌∷◌, length, get_elem?, ok, All,
}
use teecam.Forest.Walk.{Tree, item, child, walk, leaf_of, leaves}

module _ {Number : Type 0} (le : Number → Number → Bool) (values : List Number) where
  -- What an inner node needs: two children that stand after it in the table, as scikit-learn numbers
  -- them, and a feature that the values have.
  pub record IsInner (tree : Tree Number) (i l : ℕ) : Type 0 where
    pub r : ℕ
    pub f : ℕ
    pub s : ℕ
    pub value : Number
    pub bound : Number
    pub left_after : i < l
    pub left_inside : l < length tree.left
    pub right_after : i < r
    pub right_inside : r < length tree.left
    pub right_is : get_elem? tree.right i ≡ some (some r)
    pub feature_is : get_elem? tree.feature i ≡ some f
    pub source_is : get_elem? tree.feature_map f ≡ some s
    pub value_is : get_elem? values s ≡ some value
    pub bound_is : get_elem? tree.threshold i ≡ some bound

  pub record IsTree (tree : Tree Number) : Type 0 where
    pub root : 1 ≤ length tree.left
    pub depths : length tree.depth ≡ length tree.left
    pub sample_counts : length tree.samples ≡ length tree.left
    pub inner : (i l : ℕ) → get_elem? tree.left i ≡ some (some l) → IsInner tree i l

  get_elem?-lt :
      {A : Type 0} (xs : List A) (i : ℕ) → i < length xs → (a : A) × (get_elem? xs i ≡ some a)
  get_elem?-lt [] i h = absurd (omega arith)
  get_elem?-lt (x ∷ xs) zero h = (x, refl)
  get_elem?-lt (x ∷ xs) (suc i) h = get_elem?-lt xs i (omega arith)

  item-some :
      {A : Type 0} (xs : List A) (i : ℕ) {a : A} → get_elem? xs i ≡ some a → item xs (some i) ≡ ok a
  unfolding item
  item-some xs i e = rw (item, e) refl

  -- A node that a descent may stand at next.
  child-IsInner :
      (tree : Tree Number) (i l : ℕ)
      → IsInner tree i l
      → (j : ℕ) × (child le tree values (some i) (some l) ≡ ok (some j))
        × (i < j)
        × (j < length tree.left)
  unfolding child
  child-IsInner tree i l h =
      let read : (b : Bool)
          → le h.value h.bound ≡ b
          → child le tree values (some i) (some l) ≡ (if b then ok (some l) else ok (some h.r)) =
        λ b e.
          rw
            (
              child,
              item-some tree.feature i h.feature_is,
              item-some tree.feature_map h.f h.source_is,
              item-some values h.s h.value_is,
              item-some tree.threshold i h.bound_is,
              item-some tree.right i h.right_is,
              e,
            )
            refl in
      elim (Bool-cases (le h.value h.bound)) [
        | inl y ↦ (l, read true y, h.left_after, h.left_inside)
        | inr n ↦ (h.r, read false n, h.right_after, h.right_inside)
      ]

  walk-leaf :
      (tree : Tree Number)
      → IsTree tree
      → (fuel i : ℕ) → i < length tree.left
      → length tree.left ≤ fuel + i
      → (k : ℕ) × (walk le fuel tree values (some i) ≡ ok (some k))
        × (k < length tree.left)
        × (get_elem? tree.left k ≡ some none)
  unfolding walk
  walk-leaf tree h zero i inside enough = absurd (omega arith)
  walk-leaf tree h (suc fuel) i inside enough = elim (Option-cases (get_elem? tree.left i)) [
    | inl x ↦
        let there = get_elem?-lt tree.left i inside in absurd (let w = sym x ∙ there.1 in cc w)
    | inr (none, x) ↦ (i, rw (walk, item-some tree.left i x) refl, inside, x)
    | inr (some l, x) ↦
        let next = child-IsInner tree i l (h.inner i l x) in
        let rest = walk-leaf tree h fuel next.0 next.3 (omega (arith, next.2)) in
        (rest.0, rw (walk, item-some tree.left i x, next.1) rest.1, rest.2, rest.3)
  ]

  -- In a tree where the children of an inner node stand after it in the table, its feature is one
  -- that the values have, and no column is too short, the descent comes to a leaf within as many
  -- steps as there are nodes, and reads the depth and the samples of that leaf.
  pub leaf_of-IsTree :
      (tree : Tree Number)
      → IsTree tree
      → (k depth samples : ℕ) × (get_elem? tree.left k ≡ some none)
        × (get_elem? tree.depth k ≡ some depth)
        × (get_elem? tree.samples k ≡ some samples)
        × (leaf_of le tree values ≡ ok (depth, samples))
  unfolding leaf_of
  leaf_of-IsTree tree h =
      let (k, e, inside, is_leaf) =
        walk-leaf tree h (length tree.left) 0 (omega (arith, h.root)) (omega arith) in
      let (depth, d) = get_elem?-lt tree.depth k (omega (arith, inside, h.depths)) in
      let (samples, s) = get_elem?-lt tree.samples k (omega (arith, inside, h.sample_counts)) in
      (
        k,
        depth,
        samples,
        is_leaf,
        d,
        s,
        rw (leaf_of, e, item-some tree.depth k d, item-some tree.samples k s) refl,
      )

  -- On a forest of such trees, every tree gives a leaf: the loops of `score` come to their end
  -- without an exception.
  pub leaves-IsTree :
      (trees : List (Tree Number))
      → All IsTree trees
      → (found : List (ℕ × ℕ)) × (leaves le trees values ≡ ok found) × (length found ≡ length trees)
  unfolding leaves
  leaves-IsTree [] h = ([], refl, refl)
  leaves-IsTree (tree ∷ trees) h =
      let (k, depth, samples, _, _, _, e) = leaf_of-IsTree tree h.0 in
      let (found, f, n) = leaves-IsTree trees h.1 in
      ((depth, samples) ∷ found, rw (leaves, e, f) refl, ap suc n)
