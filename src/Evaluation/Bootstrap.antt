-- ===== src/Evaluation/Bootstrap.antt =====
-- The bootstrap intervals of cote3mon/evaluation.py, on a sequence of drawn numbers for `random`.
use teecam.Prelude.{
  ℕ, zero, suc, ◌+◌, ◌-◌, Bool, not, ◌||◌, ◌==◌, ltb, if◌then◌else◌, Option, none, some, List, [],
  ◌∷◌, ◌++◌, map, length, any, all, sort, Text, text_le, Dict, lookup, update, keys, Result, ok,
  err, value_error, key_error, ◌>>=◌, ◌>>◌, raise_if, Floats, of_nat,
}
use teecam.Features.Percentile.{element}
use teecam.Features.Tables.{FeatureRow}
use teecam.Evaluation.Metrics.{classification_metrics, metric_of}

-- `[items[index] for index in indices]`
unfoldable pub elements : {A : Type 0} → List A → List ℕ → Result (List A)
unfolding element
elements items [] = ok []
elements items (index ∷ indices) = do
  item ← element items index
  rest ← elements items indices
  ok (item ∷ rest)

-- `[rng.randrange(bound) for _ in range(count)]`, where `draws position bound` is what the generator
-- gives for that bound when it has been asked `position` times
unfoldable pub drawn : (ℕ → ℕ → ℕ) → ℕ → ℕ → ℕ → List ℕ
drawn draws bound position zero = []
drawn draws bound position (suc count) =
    draws position bound ∷ drawn draws bound (suc position) count

-- `groups`: the indices of each run, in order
unfoldable pub group_runs : ℕ → List Text → Dict (List ℕ) → Dict (List ℕ)
group_runs index [] groups = groups
group_runs index (run ∷ runs) groups =
    group_runs (suc index) runs (update [] (λ indices. indices ++ (index ∷ [])) run groups)

-- `[index for run_id in sampled_runs for index in groups[run_id]]`
unfoldable pub indices_of : Dict (List ℕ) → List Text → Result (List ℕ)
unfolding lookup
indices_of groups [] = ok []
indices_of groups (run ∷ runs) = elim (lookup run groups) [
  | none ↦ err key_error
  | some indices ↦ indices_of groups runs >>= λ rest. ok (indices ++ rest)
]

-- `not any(labels) or all(labels)`
unfoldable pub one_class : List ℕ → Bool
unfolding any all
one_class labels =
    not (any (λ label. not (label == 0)) labels) || all (λ label. not (label == 0)) labels

module _ {Number : Type 0} (floats : Floats Number) where
  open floats use {ratio, mul, le, floor}

  -- `float(classification_metrics(...)[metric])` for the scores at some indices
  unfoldable pub measured : List Number → Number → Text → List ℕ → List ℕ → Result Number
  unfolding elements classification_metrics metric_of
  measured scores threshold metric indices sampled_labels = do
    sampled_scores ← elements scores indices
    metrics ← classification_metrics floats sampled_labels sampled_scores threshold
    metric_of floats metric metrics

  -- The metric of the windows at some indices, or nothing if they are of one class.
  unfoldable pub resample : List ℕ → List Number → Number → Text → List ℕ → Result (Option Number)
  unfolding elements one_class measured
  resample labels scores threshold metric indices = do
    sampled_labels ← elements labels indices
    let value = measured scores threshold metric indices sampled_labels
    if one_class sampled_labels then ok none else (value >>= λ v. ok (some v))

  -- `values.append(value)`, or `continue`
  abbrev pub kept : Option Number → List Number → List Number
  kept none values = values
  kept (some value) values = value ∷ values

  -- The end of both functions.
  unfoldable pub interval_of : List Number → Result (Number × Number)
  unfolding sort element
  interval_of [] = ok (ratio 0 1, ratio 0 1)
  interval_of (value ∷ values) = do
    let ordered = sort le (value ∷ values)
    low ← element ordered (floor (mul (ratio 25 1000) (of_nat floats (length ordered - 1))))
    high ← element ordered (floor (mul (ratio 975 1000) (of_nat floats (length ordered - 1))))
    ok (low, high)

  module _ (draws : ℕ → ℕ → ℕ) (labels : List ℕ) (scores : List Number) (threshold : Number)
      (metric : Text) where
    -- The loop of `bootstrap_metric_interval`, from a position of the generator
    unfoldable pub window_rounds : ℕ → ℕ → Result (List Number)
    unfolding drawn resample
    window_rounds position zero = ok []
    window_rounds position (suc iterations) = do
      value ←
          resample labels scores threshold metric
            (drawn draws (length labels) position (length labels))
      rest ← window_rounds (position + length labels) iterations
      ok (kept value rest)

    unfoldable pub bootstrap_metric_interval : ℕ → Result (Number × Number)
    unfolding window_rounds interval_of
    bootstrap_metric_interval iterations = window_rounds 0 iterations >>= interval_of

    -- The loop of `bootstrap_run_metric_interval`
    unfoldable pub run_rounds : Dict (List ℕ) → List Text → ℕ → ℕ → Result (List Number)
    unfolding drawn resample elements indices_of
    run_rounds groups run_ids position zero = ok []
    run_rounds groups run_ids position (suc iterations) = do
      sampled_runs ← elements run_ids (drawn draws (length run_ids) position (length run_ids))
      indices ← indices_of groups sampled_runs
      value ← resample labels scores threshold metric indices
      rest ← run_rounds groups run_ids (position + length run_ids) iterations
      ok (kept value rest)

  unfoldable pub bootstrap_run_metric_interval :
      (ℕ → ℕ → ℕ)
      → List (FeatureRow Number)
      → List Number
      → Number
      → Text
      → ℕ
      → Result (Number × Number)
  unfolding group_runs keys sort run_rounds interval_of
  bootstrap_run_metric_interval draws rows scores threshold metric iterations = do
    raise_if (not (length rows == length scores) || length rows == 0) value_error
    let groups = group_runs 0 (map (λ row. row.run_id) rows) []
    let run_ids = sort text_le (keys groups)
    raise_if (ltb (length run_ids) 2) value_error
    let labels = map (λ row. row.is_attack) rows
    values ← run_rounds draws labels scores threshold metric groups run_ids 0 iterations
    interval_of values
