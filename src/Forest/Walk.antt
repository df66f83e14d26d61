-- ===== src/Forest/Walk.antt =====
-- The descent of `IsolationForestRuntime.score` in the trees of an exported model.
use teecam.Prelude.{
  ℕ, zero, suc, ◌-◌, Bool, if◌then◌else◌, Option, none, some, List, [], ◌∷◌, length, get_elem?,
  Result, ok, err, index_error, runtime_error, ◌>>=◌,
}

-- A tree of the model: the columns of its table of nodes. A child of -1 is `none`, and the feature
-- of a leaf, which is not read, is any number. A threshold is a floating-point number.
pub record Tree (Number : Type 0) : Type 0 where
  pub left : List (Option ℕ)
  pub right : List (Option ℕ)
  pub feature : List ℕ
  pub threshold : List Number
  pub samples : List ℕ
  pub depth : List ℕ
  pub feature_map : List ℕ

-- `column[index]`; -1 is the last place of a column.
unfoldable pub item : {A : Type 0} → List A → Option ℕ → Result A
item xs none = elim (get_elem? xs (length xs - 1)) [ none ↦ err index_error | some x ↦ ok x ]
item xs (some i) = elim (get_elem? xs i) [ none ↦ err index_error | some x ↦ ok x ]

module _ {Number : Type 0} (le : Number → Number → Bool) where
  -- The child that the values lead to, where `left` is the left child of the node at `place`.
  unfoldable pub child : Tree Number → List Number → Option ℕ → Option ℕ → Result (Option ℕ)
  unfolding item
  child tree values place left = do
    local_feature ← item tree.feature place
    source_feature ← item tree.feature_map (some local_feature)
    value ← item values (some source_feature)
    threshold ← item tree.threshold place
    if le value threshold then ok left else item tree.right place

  -- The `while` loop over `node`, on fuel.
  unfoldable pub walk : ℕ → Tree Number → List Number → Option ℕ → Result (Option ℕ)
  unfolding item child
  walk zero tree values place = err runtime_error
  walk (suc fuel) tree values place = do
    left ← item tree.left place
    elim left [
      | none ↦ ok place
      | some l ↦ child tree values place (some l) >>= λ next. walk fuel tree values next
    ]

  -- The depth and the samples of the leaf: what a tree adds to `total_path`.
  unfoldable pub leaf_of : Tree Number → List Number → Result (ℕ × ℕ)
  unfolding walk
  leaf_of tree values = do
    place ← walk (length tree.left) tree values (some 0)
    depth ← item tree.depth place
    samples ← item tree.samples place
    ok (depth, samples)

  -- The loop over the trees.
  unfoldable pub leaves : List (Tree Number) → List Number → Result (List (ℕ × ℕ))
  unfolding leaf_of
  leaves [] values = ok []
  leaves (tree ∷ trees) values = do
    leaf ← leaf_of tree values
    rest ← leaves trees values
    ok (leaf ∷ rest)
