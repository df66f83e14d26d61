-- ===== src/Stages/Statistics.antt =====
-- The paired bootstraps of scripts/stage5-statistical-comparison.py.
use teecam.Prelude.{
  ℕ, zero, suc, ◌+◌, ◌-◌, Bool, true, false, ◌==◌, if◌then◌else◌, List, [], ◌∷◌, map, length,
  filter, sort, distinct, Text, text_eq, text_le, Dict, keys, Result, ok, zero_division, ◌>>=◌,
  ◌>>◌, raise_if, Floats, of_nat,
}
use teecam.Features.Percentile.{element}
use teecam.Features.Tables.{FeatureRow, field}
use teecam.Forest.Score.{Runtime, runtime_score}
use teecam.Evaluation.Metrics.{Metrics, classification_metrics}
use teecam.Evaluation.Bootstrap.{elements, drawn, group_runs, indices_of, one_class}
use teecam.Stages.Ablation.{scores_of}

-- The four metrics that are compared, and of one metric what the report says
pub record Compared (Value : Type 0) : Type 0 where
  pub precision : Value
  pub recall : Value
  pub f1 : Value
  pub auprc : Value

pub record Difference (Number : Type 0) : Type 0 where
  pub difference : Number
  pub low : Number
  pub high : Number

-- What `paired_run_detection_interval` returns
pub record Detection (Number : Type 0) : Type 0 where
  pub runs : ℕ
  pub left_alerted_runs : ℕ
  pub right_alerted_runs : ℕ
  pub interval : Difference Number

module _ {Number : Type 0} (floats : Floats Number) where
  open floats use {ratio, sub, mul, div, lt, le, floor}

  -- `percentile` of this script
  unfoldable pub nearest_percentile : List Number → Number → Result Number
  unfolding element sort
  nearest_percentile values probability =
      let ordered = sort le values in
      element ordered (floor (mul probability (of_nat floats (length ordered - 1))))

  unfoldable pub differences_of : Metrics Number → Metrics Number → Compared Number
  differences_of left right = record {
    precision = sub right.precision left.precision;
    recall = sub right.recall left.recall;
    f1 = sub right.f1 left.f1;
    auprc = sub right.auprc left.auprc;
  }

  -- An entry of the report: `"difference"` and `"ci95"`
  unfoldable pub difference_of : Number → List Number → Result (Difference Number)
  unfolding nearest_percentile
  difference_of point values = do
    low ← nearest_percentile values (ratio 25 1000)
    high ← nearest_percentile values (ratio 975 1000)
    ok (record { difference = point; low = low; high = high })

  module _ (draws : ℕ → ℕ → ℕ) where
    module _ (labels : List ℕ) (left_scores right_scores : List Number)
        (left_threshold right_threshold : Number) where
      -- The differences of a sample of both classes
      unfoldable pub sample_difference : List ℕ → List ℕ → Result (Compared Number)
      unfolding elements classification_metrics differences_of
      sample_difference indices sampled_labels = do
        left_sample ← elements left_scores indices
        left_metrics ← classification_metrics floats sampled_labels left_sample left_threshold
        right_sample ← elements right_scores indices
        right_metrics ← classification_metrics floats sampled_labels right_sample right_threshold
        ok (differences_of left_metrics right_metrics)

      -- The loop, from a position of the generator
      unfoldable pub paired_rounds :
          Dict (List ℕ) → List Text → ℕ → ℕ → Result (List (Compared Number))
      unfolding drawn elements indices_of one_class sample_difference
      paired_rounds groups run_ids position zero = ok []
      paired_rounds groups run_ids position (suc iterations) = do
        sampled_runs ← elements run_ids (drawn draws (length run_ids) position (length run_ids))
        indices ← indices_of groups sampled_runs
        sampled_labels ← elements labels indices
        let rest = paired_rounds groups run_ids (position + length run_ids) iterations
        let more = sample_difference indices sampled_labels >>= λ d. rest >>= λ ds. ok (d ∷ ds)
        if one_class sampled_labels then rest else more

    unfoldable pub paired_metric_intervals :
        List (FeatureRow Number)
        → Runtime Number
        → Runtime Number
        → ℕ
        → Result (Compared (Difference Number))
    unfolding group_runs keys sort scores_of paired_rounds classification_metrics differences_of
        difference_of
    paired_metric_intervals rows left right iterations = do
      let groups = group_runs 0 (map (λ row. row.run_id) rows) []
      let labels = map (λ row. row.is_attack) rows
      left_scores ← scores_of floats left rows
      right_scores ← scores_of floats right rows
      rounds ←
          paired_rounds labels left_scores right_scores left.threshold right.threshold groups
            (sort text_le (keys groups)) 0 iterations
      point_left ← classification_metrics floats labels left_scores left.threshold
      point_right ← classification_metrics floats labels right_scores right.threshold
      let point = differences_of point_left point_right
      precision ← difference_of point.precision (map (λ d. d.precision) rounds)
      recall ← difference_of point.recall (map (λ d. d.recall) rounds)
      f1 ← difference_of point.f1 (map (λ d. d.f1) rounds)
      auprc ← difference_of point.auprc (map (λ d. d.auprc) rounds)
      ok (record { precision = precision; recall = recall; f1 = f1; auprc = auprc })

    -- `any(model.score(row) > model.threshold for row in rows if run_id of the row is run)`
    unfoldable pub run_alerts : Runtime Number → Text → List (FeatureRow Number) → Result Bool
    unfolding runtime_score
    run_alerts model run [] = ok false
    run_alerts model run (row ∷ rows) =
        let rest = run_alerts model run rows in
        let found = runtime_score floats model row.features >>= λ score.
        if lt model.threshold score then ok true else rest in
        if text_eq row.run_id run then found else rest

    -- `left_alert` and `right_alert`
    unfoldable pub alert_table :
        Runtime Number → List (FeatureRow Number) → List Text → Result (Dict Bool)
    unfolding run_alerts
    alert_table model rows [] = ok []
    alert_table model rows (run ∷ runs) = do
      alerts ← run_alerts model run rows
      rest ← alert_table model rows runs
      ok ((run, alerts) ∷ rest)

    -- How many of the runs have an alert in a table
    unfoldable pub alerted_among : Dict Bool → List Text → Result ℕ
    unfolding field
    alerted_among table [] = ok 0
    alerted_among table (run ∷ runs) = do
      alerts ← field table run
      rest ← alerted_among table runs
      ok ((if alerts then 1 else 0) + rest)

    -- `sum(right_alert[r] - left_alert[r] for r in runs) / len(runs)`
    unfoldable pub alert_difference : Dict Bool → Dict Bool → List Text → Result Number
    unfolding alerted_among
    alert_difference left right runs = do
      ours ← alerted_among right runs
      theirs ← alerted_among left runs
      raise_if (length runs == 0) zero_division
      ok (div (sub (of_nat floats ours) (of_nat floats theirs)) (of_nat floats (length runs)))

    unfoldable pub detection_rounds :
        Dict Bool → Dict Bool → List Text → ℕ → ℕ → Result (List Number)
    unfolding drawn elements alert_difference
    detection_rounds left right run_ids position zero = ok []
    detection_rounds left right run_ids position (suc iterations) = do
      sampled ← elements run_ids (drawn draws (length run_ids) position (length run_ids))
      value ← alert_difference left right sampled
      rest ← detection_rounds left right run_ids (position + length run_ids) iterations
      ok (value ∷ rest)

    unfoldable pub paired_run_detection_interval :
        List (FeatureRow Number)
        → Runtime Number
        → Runtime Number
        → Text
        → ℕ
        → Result (Detection Number)
    unfolding filter distinct sort alert_table alert_difference detection_rounds difference_of
        alerted_among
    paired_run_detection_interval rows left right scenario iterations = do
      let scenario_rows = filter (λ row. text_eq row.scenario scenario) rows
      let run_ids = sort text_le (distinct (map (λ row. row.run_id) scenario_rows))
      left_alert ← alert_table left scenario_rows run_ids
      right_alert ← alert_table right scenario_rows run_ids
      point ← alert_difference left_alert right_alert run_ids
      values ← detection_rounds left_alert right_alert run_ids 0 iterations
      interval ← difference_of point values
      left_count ← alerted_among left_alert run_ids
      right_count ← alerted_among right_alert run_ids
      ok (record {
        runs = length run_ids;
        left_alerted_runs = left_count;
        right_alerted_runs = right_count;
        interval = interval;
      })
