-- ===== src/Training/Spans.antt =====
-- Trees that scikit-learn numbers in preorder, and the depths of their nodes.
use teecam.Prelude.{
  ℕ, zero, suc, ◌≤◌, ◌<◌, ◌≡◌, ◌≢◌, ◌⊎◌, refl, sym, ap, ◌∙◌, inl, inr, arith, Option, none, some,
  some-injective, List, [], ◌∷◌, length, get_elem?, set,
}

module _ {A : Type 0} where
  pub length-set : (xs : List A) (i : ℕ) (v : A) → length (set xs i v) ≡ length xs
  length-set [] i v = refl
  length-set (x ∷ xs) zero v = refl
  length-set (x ∷ xs) (suc i) v = ap suc (length-set xs i v)

  get_elem?-set_same :
      (xs : List A) (i : ℕ) (v : A) → i < length xs → get_elem? (set xs i v) i ≡ some v
  get_elem?-set_same [] i v h = absurd (omega (arith, h))
  get_elem?-set_same (x ∷ xs) zero v h = refl
  get_elem?-set_same (x ∷ xs) (suc i) v h = get_elem?-set_same xs i v (omega (arith, h))

  get_elem?-set_other :
      (xs : List A) (i k : ℕ) (v : A) → i ≢ k → get_elem? (set xs i v) k ≡ get_elem? xs k
  get_elem?-set_other [] i k v h = refl
  get_elem?-set_other (x ∷ xs) zero zero v h = absurd (h refl)
  get_elem?-set_other (x ∷ xs) zero (suc k) v h = refl
  get_elem?-set_other (x ∷ xs) (suc i) zero v h = refl
  get_elem?-set_other (x ∷ xs) (suc i) (suc k) v h =
      get_elem?-set_other xs i k v (λ e. h (ap suc e))

module _ (left right : List (Option ℕ)) where
  -- The nodes from `i` up to `j` are the subtree at `i`: a leaf, or a node, then its left subtree and
  -- then its right subtree.
  pub data Spans : ℕ → ℕ → Type 0 where
    leaf_at : {i : ℕ} → get_elem? left i ≡ some none → Spans i (suc i)
    inner_at :
        {i m j : ℕ}
        → get_elem? left i ≡ some (some (suc i))
        → get_elem? right i ≡ some (some m)
        → Spans (suc i) m
        → Spans m j
        → Spans i j

  -- A node that is so many steps from the root.
  pub data Reaches : ℕ → ℕ → Type 0 where
    at_root : Reaches 0 0
    to_left :
        {v k l r : ℕ}
        → Reaches v k
        → get_elem? left v ≡ some (some l)
        → get_elem? right v ≡ some (some r)
        → Reaches l (suc k)
    to_right :
        {v k l r : ℕ}
        → Reaches v k
        → get_elem? left v ≡ some (some l)
        → get_elem? right v ≡ some (some r)
        → Reaches r (suc k)

-- Where a node stands to the root of a subtree and to the root of its right half.
three_ways : (i k m : ℕ) → (k ≤ i) ⊎ (((i < k) × (k < m)) ⊎ (m ≤ k))
three_ways i k m = ground arith

same_child :
    (xs : List (Option ℕ)) {i k a b : ℕ}
    → get_elem? xs i ≡ some (some a)
    → get_elem? xs k ≡ some (some b)
    → k ≡ i
    → a ≡ b
same_child xs {i} {k} {a} {b} e x same = some-injective (some-injective (sym e ∙ (rw same at x)))

no_child :
    (xs : List (Option ℕ)) {i k b : ℕ}
    → get_elem? xs i ≡ some none
    → get_elem? xs k ≡ some (some b)
    → k ≡ i
    → ⊥
no_child xs e x same = let w = sym e ∙ (rw same at x) in cc w

-- Both children of a node are one deeper than the node.
abbrev pub GoodAt : List (Option ℕ) → List (Option ℕ) → List ℕ → ℕ → Type 0
GoodAt left right depths k =
    (l r e : ℕ)
    → get_elem? left k ≡ some (some l)
    → get_elem? right k ≡ some (some r)
    → get_elem? depths k ≡ some e
    → (get_elem? depths l ≡ some (suc e)) × (get_elem? depths r ≡ some (suc e))

module _ {left right : List (Option ℕ)} where
  pub Spans-lt : {i j : ℕ} → Spans left right i j → i < j
  Spans-lt (leaf_at e) = omega arith
  Spans-lt (inner_at e f a b) = omega (arith, Spans-lt a, Spans-lt b)

  -- The depths after the loop has been through a subtree, whose right half it does first.
  abbrev pub write : {i j : ℕ} → Spans left right i j → ℕ → List ℕ → List ℕ
  write {i} (leaf_at e) d depths = set depths i d
  write {i} (inner_at e f a b) d depths = write a (suc d) (write b (suc d) (set depths i d))

  pub length-write :
      {i j : ℕ} (s : Spans left right i j) (d : ℕ) (depths : List ℕ)
      → length (write s d depths) ≡ length depths
  length-write {i} (leaf_at e) d depths = length-set depths i d
  length-write {i} (inner_at e f a b) d depths =
      length-write a (suc d) (write b (suc d) (set depths i d))
      ∙ length-write b (suc d) (set depths i d)
      ∙ length-set depths i d

  -- A node outside the subtree keeps its depth.
  write-before :
      {i j : ℕ} (s : Spans left right i j) (d : ℕ) (depths : List ℕ) (k : ℕ)
      → k < i
      → get_elem? (write s d depths) k ≡ get_elem? depths k
  write-before {i} (leaf_at e) d depths k h =
      get_elem?-set_other depths i k d (λ x. omega (arith, h, x))
  write-before {i} (inner_at e f a b) d depths k h =
      write-before a (suc d) (write b (suc d) (set depths i d)) k (omega (arith, h))
      ∙ write-before b (suc d) (set depths i d) k (omega (arith, h, Spans-lt a))
      ∙ get_elem?-set_other depths i k d (λ x. omega (arith, h, x))

  write-after :
      {i j : ℕ} (s : Spans left right i j) (d : ℕ) (depths : List ℕ) (k : ℕ)
      → j ≤ k
      → get_elem? (write s d depths) k ≡ get_elem? depths k
  write-after {i} (leaf_at e) d depths k h =
      get_elem?-set_other depths i k d (λ x. omega (arith, h, x))
  write-after {i} (inner_at e f a b) d depths k h =
      write-after a (suc d) (write b (suc d) (set depths i d)) k (omega (arith, h, Spans-lt b))
      ∙ write-after b (suc d) (set depths i d) k h
      ∙ get_elem?-set_other depths i k d (λ x. omega (arith, h, x, Spans-lt a, Spans-lt b))

  pub write-root :
      {i j : ℕ} (s : Spans left right i j) (d : ℕ) (depths : List ℕ)
      → i < length depths
      → get_elem? (write s d depths) i ≡ some d
  write-root {i} (leaf_at e) d depths h = get_elem?-set_same depths i d h
  write-root {i} (inner_at e f a b) d depths h =
      write-before a (suc d) (write b (suc d) (set depths i d)) i (omega arith)
      ∙ write-before b (suc d) (set depths i d) i (omega (arith, Spans-lt a))
      ∙ get_elem?-set_same depths i d h

  -- The children of a node of the subtree are in the subtree.
  pub children-inside :
      {i j : ℕ}
      → Spans left right i j
      → (k l r : ℕ) → i ≤ k
      → k < j
      → get_elem? left k ≡ some (some l)
      → get_elem? right k ≡ some (some r)
      → (k < l) × (l < j) × (k < r) × (r < j)
  children-inside {i} (leaf_at e) k l r low high x y =
      absurd (no_child left e x (omega (arith, low, high)))
  children-inside {i} (inner_at {m = m} e f a b) k l r low high x y = elim (three_ways i k m) [
    | inl here ↦
        let is_l = same_child left e x (omega (arith, low, here)) in
        let is_r = same_child right f y (omega (arith, low, here)) in
        omega (arith, low, here, is_l, is_r, Spans-lt a, Spans-lt b)
    | inr (inl (after_i, before)) ↦
        let inside = children-inside a k l r after_i before x y in omega (arith, inside, Spans-lt b)
    | inr (inr after) ↦ children-inside b k l r after high x y
  ]

  pub write-GoodAt :
      {i j : ℕ} (s : Spans left right i j) (d : ℕ) (depths : List ℕ)
      → j ≤ length depths
      → (k : ℕ) → i ≤ k
      → k < j
      → GoodAt left right (write s d depths) k
  write-GoodAt {i} (leaf_at x) d depths fits k low high l r e p q at =
      absurd (no_child left x p (omega (arith, low, high)))
  write-GoodAt {i} {j} (inner_at {m = m} x y a b) d depths fits k low high l r e p q at =
      let first = set depths i d in
      let second = write b (suc d) first in
      let size = length-set depths i d in
      let size' = length-write b (suc d) first in
      elim (three_ways i k m) [
        | inl here ↦
            let same_k : k ≡ i = omega (arith, low, here) in
            let is_l = same_child left x p same_k in
            let is_r = same_child right y q same_k in
            let whole : Spans left right i j = inner_at x y a b in
            let known = write-root whole d depths (omega (arith, fits, Spans-lt a, Spans-lt b)) in
            let depth_k : e ≡ d = some-injective (sym (rw same_k at at) ∙ known) in
            (
              rw (← is_l, depth_k)
                  (write-root a (suc d) second
                    (omega (arith, fits, size, size', Spans-lt a, Spans-lt b))),
              rw (← is_r, depth_k)
                  (write-after a (suc d) second m (omega arith)
                    ∙ write-root b (suc d) first (omega (arith, fits, size, Spans-lt b))),
            )
        | inr (inl (after_i, before)) ↦
            write-GoodAt a (suc d) second (omega (arith, fits, size, size', Spans-lt b)) k after_i
              before l r e p q at
        | inr (inr after) ↦
            let inside = children-inside b k l r after high p q in
            let (good_l, good_r) =
              write-GoodAt b (suc d) first (omega (arith, fits, size)) k after high l r e p q
                (sym (write-after a (suc d) second k after) ∙ at) in
            (
              write-after a (suc d) second l (omega (arith, inside, after)) ∙ good_l,
              write-after a (suc d) second r (omega (arith, inside, after)) ∙ good_r,
            )
      ]
