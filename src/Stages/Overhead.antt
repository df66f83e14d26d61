-- ===== src/Stages/Overhead.antt =====
-- The intervals and the overhead of scripts/stage4-analyze-performance.py.
use teecam.Prelude.{
  ℕ, ◌+◌, Option, none, some, List, [], ◌∷◌, map, length, Text, codes, Dict, Result, ok, ◌>>=◌,
  Floats, sum,
}
use teecam.Features.Tables.{field}
use teecam.Stages.Performance.{RunResult, MeanInterval, metrics_paths, group_of}
use teecam.Stages.Means.{
  percent_change, present_values, values_of, mean_ci, paired_percent_change_ci,
}

-- What `per_configuration` holds of a configuration
pub record ConfigurationSummary (Number : Type 0) : Type 0 where
  pub runs : ℕ
  pub total_requests : ℕ
  pub total_alerts : ℕ
  pub metrics : Dict (MeanInterval Number)

abbrev pub overhead_metrics : List Text
overhead_metrics =
    codes "throughput_rps"
    ∷ codes "latency_p95_us"
    ∷ codes "gateway_cpu_percent"
    ∷ codes "gateway_rss_kb"
    ∷ []

-- What `overhead` holds of a configuration
pub record Overhead (Number : Type 0) : Type 0 where
  pub vs_gateway_only : Dict (Option Number)
  pub vs_previous : Dict (Option Number)
  pub paired_vs_gateway_only : Dict (MeanInterval Number)

-- `int(item["monitor"]["alerts"])` of the runs that have a monitor
abbrev pub alerts_or_zero : {Number : Type 0} → RunResult Number → ℕ
alerts_or_zero item = elim item.monitor_alerts [ none ↦ 0 | some alerts ↦ alerts ]

module _ {Number : Type 0} (floats : Floats Number) where
  -- `absolute` and `progressive`: the change of the means of the metrics
  unfoldable pub changes_of :
      Dict (MeanInterval Number)
      → Dict (MeanInterval Number)
      → List Text
      → Result (Dict (Option Number))
  unfolding field percent_change
  changes_of base current [] = ok []
  changes_of base current (metric ∷ metrics) = do
    before ← field base metric
    now ← field current metric
    rest ← changes_of base current metrics
    ok ((metric, percent_change floats before.mean now.mean) ∷ rest)

  -- `progressive`, which is empty for the first configuration
  unfoldable pub progressive_of :
      Option (Dict (MeanInterval Number))
      → Dict (MeanInterval Number)
      → Result (Dict (Option Number))
  unfolding changes_of
  progressive_of none current = ok []
  progressive_of (some previous) current = changes_of previous current overhead_metrics

  module _ (draws : ℕ → ℕ → ℕ → ℕ) (iterations : ℕ) (float : Text → Result Number) where
    -- `summary["metrics"]`, from the seed of the first metric on
    unfoldable pub metric_summaries :
        List (RunResult Number) → ℕ → Dict (List Text) → Result (Dict (MeanInterval Number))
    unfolding values_of mean_ci present_values
    metric_summaries group seed [] = ok []
    metric_summaries group seed ((name, path) ∷ paths) = do
      values ← values_of float group path
      interval ← mean_ci floats draws iterations (present_values values) seed
      rest ← metric_summaries group (seed + 1) paths
      ok ((name, interval) ∷ rest)

    unfoldable pub configuration_summary :
        List (RunResult Number) → ℕ → Result (ConfigurationSummary Number)
    unfolding metric_summaries sum
    configuration_summary group seed = do
      metrics ← metric_summaries group seed metrics_paths
      ok (record {
        runs = length group;
        total_requests = sum (map (λ item. item.requests) group);
        total_alerts = sum (map alerts_or_zero group);
        metrics = metrics;
      })

    -- `per_configuration`
    unfoldable pub summaries_of :
        List (RunResult Number) → ℕ → List Text → Result (Dict (ConfigurationSummary Number))
    unfolding configuration_summary group_of
    summaries_of results seed [] = ok []
    summaries_of results seed (configuration ∷ configurations) = do
      summary ← configuration_summary (group_of configuration results) seed
      rest ← summaries_of results (seed + 100) configurations
      ok ((configuration, summary) ∷ rest)

    unfoldable pub paired_changes :
        List (RunResult Number)
        → List (RunResult Number)
        → ℕ
        → List Text
        → Result (Dict (MeanInterval Number))
    unfolding field paired_percent_change_ci
    paired_changes baseline_runs group seed [] = ok []
    paired_changes baseline_runs group seed (metric ∷ metrics) = do
      path ← field metrics_paths metric
      interval ←
          paired_percent_change_ci floats draws iterations float baseline_runs group path seed
      rest ← paired_changes baseline_runs group (seed + 1) metrics
      ok ((metric, interval) ∷ rest)

    -- The loop over the configurations, from the seed of the first on; no name stands twice.
    unfoldable pub overheads_of :
        List (RunResult Number)
        → Dict (ConfigurationSummary Number)
        → Dict (MeanInterval Number)
        → ℕ
        → Option (Dict (MeanInterval Number))
        → List Text
        → Result (Dict (Overhead Number))
    unfolding changes_of progressive_of paired_changes field group_of
    overheads_of results summaries baseline seed previous [] = ok []
    overheads_of results summaries baseline seed previous (configuration ∷ configurations) = do
      summary ← field summaries configuration
      absolute ← changes_of baseline summary.metrics overhead_metrics
      progressive ← progressive_of previous summary.metrics
      paired ←
          paired_changes (group_of (codes "gateway_only") results) (group_of configuration results)
            seed overhead_metrics
      rest ←
          overheads_of results summaries baseline (seed + 10) (some summary.metrics) configurations
      ok (
          (
            configuration,
            record {
              vs_gateway_only = absolute;
              vs_previous = progressive;
              paired_vs_gateway_only = paired;
            },
          )
          ∷ rest)
