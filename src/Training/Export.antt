-- ===== src/Training/Export.antt =====
-- `fit_isolation_forest`, `export_isolation_forest` and `train_and_export` of cote3mon/training.py.
use teecam.Prelude.{
  ℕ, zero, suc, ◌-◌, not, ◌&&◌, ◌==◌, ltb, if◌then◌else◌, Option, none, some, List, [], ◌∷◌, map,
  length, set, replicate, Text, Dict, Result, ok, err, value_error, runtime_error, index_error,
  ◌>>=◌, ◌>>◌, raise_if, Floats,
}
use teecam.Features.Percentile.{percentile}
use teecam.Forest.Walk.{Tree, item}
use teecam.Forest.Score.{ForestDocument, forest_schema, row_values}

-- `estimator.tree_` of scikit-learn; a child of -1 is `none`
pub record Estimator (Number : Type 0) : Type 0 where
  pub children_left : List (Option ℕ)
  pub children_right : List (Option ℕ)
  pub feature : List ℕ
  pub threshold : List Number
  pub n_node_samples : List ℕ

-- A fitted forest of scikit-learn: its trees with the features of each, and `score_samples`.
pub record Fitted (Number : Type 0) : Type 0 where
  pub estimators : List (Estimator Number × List ℕ)
  pub max_samples : ℕ
  pub score_samples : List (List Number) → List Number

-- `column[index] = value`; -1 is the last place of a column
unfoldable pub set_item : {A : Type 0} → List A → Option ℕ → A → Result (List A)
set_item xs none value =
    if length xs == 0 then err index_error else ok (set xs (length xs - 1) value)
set_item xs (some i) value = if ltb i (length xs) then ok (set xs i value) else err index_error

-- The loop over `stack`, whose end is the front of the list, on fuel.
unfoldable pub depth_loop :
    ℕ → List (Option ℕ) → List (Option ℕ) → List (Option ℕ × ℕ) → List ℕ → Result (List ℕ)
unfolding item set_item
depth_loop fuel left right [] depths = ok depths
depth_loop zero left right ((place, depth) ∷ stack) depths = err runtime_error
depth_loop (suc fuel) left right ((place, depth) ∷ stack) depths = do
  written ← set_item depths place depth
  child ← item left place
  elim child [
    | none ↦ depth_loop fuel left right stack written
    | some l ↦ item right place >>= λ r.
        depth_loop fuel left right ((r, suc depth) ∷ (some l, suc depth) ∷ stack) written
  ]

module _ {Number : Type 0} where
  -- `depths`, from a stack that holds the root; each node is pushed once
  unfoldable pub depths_of : Estimator Number → Result (List ℕ)
  unfolding depth_loop replicate
  depths_of tree =
      let count = length tree.children_left in
      depth_loop count tree.children_left tree.children_right ((some 0, 0) ∷ []) (replicate count 0)

  -- A tree of the model
  unfoldable pub exported_tree : Estimator Number → List ℕ → Result (Tree Number)
  unfolding depths_of
  exported_tree tree feature_map = do
    depths ← depths_of tree
    ok (record {
      left = tree.children_left;
      right = tree.children_right;
      feature = tree.feature;
      threshold = tree.threshold;
      samples = tree.n_node_samples;
      depth = depths;
      feature_map = feature_map;
    })

  unfoldable pub exported_trees : List (Estimator Number × List ℕ) → Result (List (Tree Number))
  unfolding exported_tree
  exported_trees [] = ok []
  exported_trees ((tree, feature_map) ∷ estimators) = do
    first ← exported_tree tree feature_map
    rest ← exported_trees estimators
    ok (first ∷ rest)

  -- `[[float(row[name]) for name in features] for row in rows]`
  unfoldable pub matrix_of : List (Dict Number) → List Text → Result (List (List Number))
  unfolding row_values
  matrix_of [] features = ok []
  matrix_of (row ∷ rows) features = do
    first ← row_values row features
    rest ← matrix_of rows features
    ok (first ∷ rest)

module _ {Number : Type 0} (floats : Floats Number) where
  open floats use {ratio, sub, lt}

  -- `export_isolation_forest`, up to the file: the document less its seed
  unfoldable pub export_isolation_forest :
      Fitted Number → List (Dict Number) → Number → List Text → Result (ForestDocument Number)
  unfolding matrix_of percentile exported_trees
  export_isolation_forest forest validation_rows false_positive_rate features = do
    raise_if (not (lt (ratio 0 1) false_positive_rate && lt false_positive_rate (ratio 1 1)))
        value_error
    x_validation ← matrix_of validation_rows features
    raise_if (length x_validation == 0) value_error
    let validation_scores = map (λ score. sub (ratio 0 1) score) (forest.score_samples x_validation)
    threshold ← percentile floats validation_scores (sub (ratio 1 1) false_positive_rate)
    trees ← exported_trees forest.estimators
    ok (record {
      schema = some forest_schema;
      features = features;
      max_samples = forest.max_samples;
      threshold = threshold;
      trees = trees;
    })

  module _ (sklearn : Option (List (List Number) → ℕ → Fitted Number)) where
    -- `fit_isolation_forest`, where scikit-learn, if it is installed, fits a forest to rows and a seed
    unfoldable pub fit_isolation_forest :
        List (Dict Number) → ℕ → List Text → Result (Fitted Number)
    unfolding matrix_of
    fit_isolation_forest training_rows seed features = elim sklearn [
      | none ↦ err runtime_error
      | some fit ↦ do
        x_train ← matrix_of training_rows features
        raise_if (length x_train == 0) value_error
        ok (fit x_train seed)
    ]

    unfoldable pub train_and_export :
        List (Dict Number)
        → List (Dict Number)
        → Number
        → ℕ
        → List Text
        → Result (ForestDocument Number)
    unfolding fit_isolation_forest export_isolation_forest
    train_and_export training_rows validation_rows false_positive_rate seed features = do
      forest ← fit_isolation_forest training_rows seed features
      export_isolation_forest forest validation_rows false_positive_rate features
