-- ===== src/Stages/Detectors.antt =====
-- `evaluate_detector` and `scenario_summary` of scripts/stage3-train-evaluate.py.
use teecam.Prelude.{
  ℕ, ◌*◌, not, ◌==◌, if◌then◌else◌, List, [], ◌∷◌, map, length, filter, count_if, sort, distinct,
  Option, Text, text_eq, text_le, Dict, Result, ok, err, index_error, ◌>>=◌, Floats, of_nat,
}
use teecam.Features.Tables.{FeatureRow}
use teecam.Evaluation.Metrics.{Metrics, classification_metrics, ratio_or_zero}
use teecam.Evaluation.Counts.{zip}
use teecam.Evaluation.Delays.{attack_detection_delays}
use teecam.Stages.Ablation.{
  ScenarioSummary, run_ids, of_scenario, alerted, interval_metrics, intervals_of,
}

-- What `evaluate_detector` returns as its metrics
pub record DetectorReport (Number : Type 0) : Type 0 where
  pub metrics : Metrics Number
  pub intervals : Dict (Number × Number)
  pub false_alerts_per_hour : Number
  pub threshold : Number
  pub windows : ℕ
  pub runs : ℕ
  pub attack_detection_delay_seconds : Dict (Option Number)
  pub per_scenario : Dict (ScenarioSummary Number)
  pub detector : Text

-- `scenario_run_counts`
unfoldable pub scenario_run_counts : {Number : Type 0} → List (FeatureRow Number) → Dict ℕ
unfolding filter run_ids distinct sort
scenario_run_counts rows =
    map
      (λ scenario.
        (scenario, length (run_ids (filter (λ row. text_eq row.scenario scenario) rows))))
      (sort text_le (distinct (map (λ row. row.scenario) rows)))

module _ {Number : Type 0} (floats : Floats Number) where
  open floats use {ratio, div}

  -- An entry of `scenario_summary`, for a scenario with a window
  unfoldable pub detector_entry :
      Number
      → FeatureRow Number × Number
      → List (FeatureRow Number × Number)
      → ScenarioSummary Number
  unfolding alerted run_ids ratio_or_zero
  detector_entry threshold first rest =
      let pairs = first ∷ rest in
      let alerts = alerted floats threshold pairs in
      let runs = length (run_ids (map (λ pair. pair.0) pairs)) in
      let alerted_runs = length (run_ids (map (λ pair. pair.0) alerts)) in
      record {
        is_attack = not (first.0.is_attack == 0);
        windows = length pairs;
        alert_windows = length alerts;
        window_alert_rate = ratio_or_zero floats (length alerts) (length pairs);
        runs = runs;
        alerted_runs = alerted_runs;
        run_detection_rate = ratio_or_zero floats alerted_runs runs;
      }

  unfoldable pub detector_entries :
      Number
      → List (FeatureRow Number × Number)
      → List Text
      → Result (Dict (ScenarioSummary Number))
  unfolding of_scenario detector_entry
  detector_entries threshold pairs [] = ok []
  detector_entries threshold pairs (scenario ∷ scenarios) =
      elim (of_scenario floats scenario pairs) [
        | [] ↦ err index_error
        | first ∷ rest ↦ detector_entries threshold pairs scenarios >>= λ others.
            ok ((scenario, detector_entry threshold first rest) ∷ others)
      ]

  unfoldable pub detector_summary :
      List (FeatureRow Number) → List Number → Number → Result (Dict (ScenarioSummary Number))
  unfolding detector_entries zip distinct sort
  detector_summary rows scores threshold =
      detector_entries threshold (zip rows scores)
        (sort text_le (distinct (map (λ row. row.scenario) rows)))

  -- `[float(model.score(row)) for row in rows]`
  unfoldable pub model_scores :
      (Dict Number → Result Number) → List (FeatureRow Number) → Result (List Number)
  model_scores score [] = ok []
  model_scores score (row ∷ rows) = do
    first ← score row.features
    rest ← model_scores score rows
    ok (first ∷ rest)

  -- `metrics["fp"] / benign_hours if benign_hours else 0.0`
  unfoldable pub false_alerts : ℕ → ℕ → ℕ → Number
  false_alerts fp benign_windows window_seconds =
      if benign_windows * window_seconds == 0
      then ratio 0 1
      else div (of_nat floats fp) (ratio (benign_windows * window_seconds) 3600)

  -- `evaluate_detector` of a model with a score and a threshold
  unfoldable pub evaluate_detector :
      (ℕ → ℕ → ℕ)
      → ℕ
      → Text
      → (Dict Number → Result Number)
      → Number
      → List (FeatureRow Number)
      → ℕ
      → Result (DetectorReport Number × List Number)
  unfolding model_scores classification_metrics intervals_of false_alerts detector_summary
      attack_detection_delays run_ids count_if
  evaluate_detector draws bootstrap_iterations name score threshold rows window_seconds = do
    let labels = map (λ row. row.is_attack) rows
    scores ← model_scores score rows
    metrics ← classification_metrics floats labels scores threshold
    intervals ←
        intervals_of floats draws bootstrap_iterations rows scores threshold interval_metrics
    delays ← attack_detection_delays floats rows scores threshold
    per_scenario ← detector_summary rows scores threshold
    ok (
      record {
        metrics = metrics;
        intervals = intervals;
        false_alerts_per_hour =
            false_alerts metrics.counts.fp (count_if (λ row. row.is_attack == 0) rows)
              window_seconds;
        threshold = threshold;
        windows = length rows;
        runs = length (run_ids rows);
        attack_detection_delay_seconds = delays;
        per_scenario = per_scenario;
        detector = name;
      },
      scores,
    )
