-- ===== src/Forest/Score.antt =====
-- `average_path_length` and the rest of `IsolationForestRuntime` of cote3mon/iforest_runtime.py.
use teecam.Prelude.{
  ℕ, ◌-◌, Bool, false, not, ◌==◌, leb, if◌then◌else◌, Option, none, some, List, [], ◌∷◌, length,
  Text, codes, text_eq, Dict, Result, ok, value_error, ◌>>=◌, ◌>>◌, raise_if, Floats, of_nat,
  nonzero,
}
use teecam.Features.Tables.{field}
use teecam.Forest.Walk.{Tree, leaves}

-- The constant under "schema"
abbrev pub forest_schema : Text
forest_schema = codes "cote3-mon-iforest-v1"

-- The document of a model; a schema that is missing is `none`, and the other keys are there.
pub record ForestDocument (Number : Type 0) : Type 0 where
  pub schema : Option Text
  pub features : List Text
  pub max_samples : ℕ
  pub threshold : Number
  pub trees : List (Tree Number)

pub record Runtime (Number : Type 0) : Type 0 where
  pub features : List Text
  pub threshold : Number
  pub max_samples : ℕ
  pub trees : List (Tree Number)

-- `IsolationForestRuntime(model)`, which is also the end of `load`
unfoldable pub new_runtime : {Number : Type 0} → ForestDocument Number → Result (Runtime Number)
unfolding text_eq
new_runtime model = do
  raise_if (not (elim model.schema [ none ↦ false | some schema ↦ text_eq schema forest_schema ]))
      value_error
  raise_if (length model.trees == 0) value_error
  ok (record {
    features = model.features;
    threshold = model.threshold;
    max_samples = model.max_samples;
    trees = model.trees;
  })

-- `[float(row[name]) for name in features]`
unfoldable pub row_values : {Number : Type 0} → Dict Number → List Text → Result (List Number)
unfolding field
row_values row [] = ok []
row_values row (name ∷ names) = do
  value ← field row name
  rest ← row_values row names
  ok (value ∷ rest)

module _ {Number : Type 0} (floats : Floats Number) where
  open floats use {ratio, add, sub, mul, div, lt, le, log, power}

  unfoldable pub average_path_length : ℕ → Number
  average_path_length sample_count =
      if leb sample_count 1
      then ratio 0 1
      else if sample_count == 2
      then ratio 1 1
      else sub
          (mul (ratio 2 1) (
            add (log (of_nat floats (sample_count - 1)))
              (ratio 5772156649015329 10000000000000000)))
          (div (mul (ratio 2 1) (of_nat floats (sample_count - 1))) (of_nat floats sample_count))

  -- `total_path`, over the depths and the samples of the leaves
  unfoldable pub total_path : List (ℕ × ℕ) → Number → Number
  unfolding average_path_length
  total_path [] total = total
  total_path ((depth, samples) ∷ found) total =
      total_path found (add total (add (of_nat floats depth) (average_path_length samples)))

  unfoldable pub anomaly_of : ℕ → Number → ℕ → Number
  unfolding average_path_length
  anomaly_of tree_count total max_samples =
      let denominator = mul (of_nat floats tree_count) (average_path_length max_samples) in
      if nonzero floats denominator
      then power (ratio 2 1) (div (sub (ratio 0 1) total) denominator)
      else ratio 1 1

  unfoldable pub runtime_score : Runtime Number → Dict Number → Result Number
  unfolding row_values leaves total_path anomaly_of
  runtime_score runtime row = do
    values ← row_values row runtime.features
    found ← leaves le runtime.trees values
    ok (anomaly_of (length runtime.trees) (total_path found (ratio 0 1)) runtime.max_samples)

  unfoldable pub runtime_is_anomaly : Runtime Number → Dict Number → Result Bool
  unfolding runtime_score
  runtime_is_anomaly runtime row =
      runtime_score runtime row >>= λ score. ok (lt runtime.threshold score)
