-- ===== src/Stages/Ablation.antt =====
-- `scenario_summary` and `evaluate` of scripts/stage5-feature-ablation.py.
use teecam.Prelude.{
  ℕ, ◌*◌, Bool, not, ◌==◌, if◌then◌else◌, List, [], ◌∷◌, map, length, filter, count_if, sort,
  distinct, Option, Text, codes, text_eq, text_le, Dict, Result, ok, err, index_error,
  zero_division, ◌>>=◌, Floats, of_nat,
}
use teecam.Features.Tables.{FeatureRow}
use teecam.Forest.Score.{Runtime, runtime_score}
use teecam.Evaluation.Metrics.{Metrics, classification_metrics}
use teecam.Evaluation.Bootstrap.{bootstrap_run_metric_interval}
use teecam.Evaluation.Counts.{zip}
use teecam.Evaluation.Delays.{attack_detection_delays}

-- An entry of `output` in `scenario_summary`
pub record ScenarioSummary (Number : Type 0) : Type 0 where
  pub is_attack : Bool
  pub windows : ℕ
  pub alert_windows : ℕ
  pub window_alert_rate : Number
  pub runs : ℕ
  pub alerted_runs : ℕ
  pub run_detection_rate : Number

-- What `evaluate` puts in `metrics`
pub record EvaluationReport (Number : Type 0) : Type 0 where
  pub metrics : Metrics Number
  pub intervals : Dict (Number × Number)
  pub false_alerts_per_hour : Number
  pub threshold : Number
  pub per_scenario : Dict (ScenarioSummary Number)
  pub attack_detection_delay_seconds : Dict (Option Number)

-- `{str(row["run_id"]) for row in rows}`, without its order
unfoldable pub run_ids : {Number : Type 0} → List (FeatureRow Number) → List Text
unfolding distinct
run_ids rows = distinct (map (λ row. row.run_id) rows)

abbrev pub interval_metrics : List Text
interval_metrics = codes "precision" ∷ codes "recall" ∷ codes "f1" ∷ codes "auprc" ∷ []

module _ {Number : Type 0} (floats : Floats Number) where
  open floats use {ratio, mul, div, lt}

  -- The windows of a scenario with their scores
  unfoldable pub of_scenario :
      Text → List (FeatureRow Number × Number) → List (FeatureRow Number × Number)
  unfolding filter
  of_scenario scenario = filter (λ pair. text_eq pair.0.scenario scenario)

  unfoldable pub alerted :
      Number → List (FeatureRow Number × Number) → List (FeatureRow Number × Number)
  unfolding filter
  alerted threshold = filter (λ pair. lt threshold pair.1)

  -- The entry of a scenario, which has a window
  unfoldable pub summary_entry :
      Number
      → FeatureRow Number × Number
      → List (FeatureRow Number × Number)
      → ScenarioSummary Number
  unfolding alerted run_ids
  summary_entry threshold first rest =
      let pairs = first ∷ rest in
      let alerts = alerted threshold pairs in
      let runs = length (run_ids (map (λ pair. pair.0) pairs)) in
      let alerted_runs = length (run_ids (map (λ pair. pair.0) alerts)) in
      record {
        is_attack = not (first.0.is_attack == 0);
        windows = length pairs;
        alert_windows = length alerts;
        window_alert_rate = ratio (length alerts) (length pairs);
        runs = runs;
        alerted_runs = alerted_runs;
        run_detection_rate = ratio alerted_runs runs;
      }

  -- The loop over the scenarios
  unfoldable pub summary_entries :
      Number
      → List (FeatureRow Number × Number)
      → List Text
      → Result (Dict (ScenarioSummary Number))
  unfolding of_scenario summary_entry
  summary_entries threshold pairs [] = ok []
  summary_entries threshold pairs (scenario ∷ scenarios) = elim (of_scenario scenario pairs) [
    | [] ↦ err index_error
    | first ∷ rest ↦ summary_entries threshold pairs scenarios >>= λ others.
        ok ((scenario, summary_entry threshold first rest) ∷ others)
  ]

  -- `scenario_summary`, on as many scores as rows
  unfoldable pub scenario_summary :
      List (FeatureRow Number) → List Number → Number → Result (Dict (ScenarioSummary Number))
  unfolding summary_entries zip distinct sort
  scenario_summary rows scores threshold =
      summary_entries threshold (zip rows scores)
        (sort text_le (distinct (map (λ row. row.scenario) rows)))

  -- `[float(runtime.score(row)) for row in rows]`
  unfoldable pub scores_of : Runtime Number → List (FeatureRow Number) → Result (List Number)
  unfolding runtime_score
  scores_of runtime [] = ok []
  scores_of runtime (row ∷ rows) = do
    score ← runtime_score floats runtime row.features
    rest ← scores_of runtime rows
    ok (score ∷ rest)

  module _ (draws : ℕ → ℕ → ℕ) (bootstrap_iterations : ℕ) where
    -- The loop over the metrics; the generator of each starts from the same seed.
    unfoldable pub intervals_of :
        List (FeatureRow Number)
        → List Number
        → Number
        → List Text
        → Result (Dict (Number × Number))
    unfolding bootstrap_run_metric_interval
    intervals_of rows scores threshold [] = ok []
    intervals_of rows scores threshold (metric ∷ metrics) = do
      interval ←
          bootstrap_run_metric_interval floats draws rows scores threshold metric
            bootstrap_iterations
      rest ← intervals_of rows scores threshold metrics
      ok ((metric, interval) ∷ rest)

    -- `metrics["fp"] / benign_hours`
    unfoldable pub false_alert_rate : ℕ → ℕ → ℕ → Result Number
    false_alert_rate fp benign_windows window_seconds =
        if benign_windows * window_seconds == 0
        then err zero_division
        else ok (div (of_nat floats fp) (ratio (benign_windows * window_seconds) 3600))

    unfoldable pub evaluate :
        List (FeatureRow Number)
        → Runtime Number
        → ℕ
        → Result (EvaluationReport Number × List Number)
    unfolding scores_of classification_metrics intervals_of false_alert_rate scenario_summary
        attack_detection_delays count_if
    evaluate rows runtime window_seconds = do
      let labels = map (λ row. row.is_attack) rows
      scores ← scores_of runtime rows
      metrics ← classification_metrics floats labels scores runtime.threshold
      intervals ← intervals_of rows scores runtime.threshold interval_metrics
      let benign_windows = count_if (λ row. row.is_attack == 0) rows
      rate ← false_alert_rate metrics.counts.fp benign_windows window_seconds
      per_scenario ← scenario_summary rows scores runtime.threshold
      delays ← attack_detection_delays floats rows scores runtime.threshold
      ok (
        record {
          metrics = metrics;
          intervals = intervals;
          false_alerts_per_hour = rate;
          threshold = runtime.threshold;
          per_scenario = per_scenario;
          attack_detection_delay_seconds = delays;
        },
        scores,
      )
