-- ===== src/Evaluation/Tests.antt =====
-- Counts of four windows, and an interval over two runs, with whole numbers for scores.
use teecam.Prelude.{
  ℕ, Option, none, some, any, ◌&&◌, Dict, Bool, ◌+◌, ◌≡◌, ◌≤◌, refl, arith, ltb, ◌==◌, ◌-◌, ◌%◌,
  if◌then◌else◌, length, map, List, [], ◌∷◌, count_if, ok, Text, codes, text_eq, lookup, insert,
  keys, whole_numbers,
}
use teecam.Features.Tables.{FeatureRow}
use teecam.Evaluation.Metrics.{metric_of}
use teecam.Evaluation.Bootstrap.{bootstrap_run_metric_interval, group_runs}
use teecam.Evaluation.Resampled.{IsMetric, InRange}
use teecam.Evaluation.Delays.{attack_detection_delays}
use teecam.Evaluation.Groups.{is_of}
use teecam.Evaluation.Detected.{detected, raises, attack_detection_delays-detected}
use teecam.Evaluation.Intervals.{bootstrap_run_metric_interval-returns}
use teecam.Evaluation.Counts.{Counts, zip, confusion}
use teecam.Evaluation.Totals.{alarms, confusion-totals}

abbrev four_labels : List ℕ
four_labels = 1 ∷ 0 ∷ 1 ∷ 0 ∷ []

abbrev four_scores : List ℕ
four_scores = 9 ∷ 8 ∷ 2 ∷ 1 ∷ []

abbrev above : ℕ → ℕ → Bool
above score threshold = ltb threshold score

confusion-totals_example :
    (c : Counts) × (confusion above four_labels four_scores 5 ≡ ok c)
    × (c.tp + c.fn ≡ count_if (λ label. label == 1) four_labels)
    × (c.tn + c.fp ≡ count_if (λ label. label == 0) four_labels)
    × (c.tp + c.fp ≡ alarms above 5 four_scores)
    × (c.tp + c.fp + c.tn + c.fn ≡ 4)
confusion-totals_example =
    confusion-totals above 5 four_labels four_scores (omega arith) refl (omega arith)

abbrev window_of : Text → ℕ → FeatureRow ℕ
window_of run label = record {
  features = [];
  run_id = run;
  scenario = codes "steady";
  is_attack = label;
  window_start_ns = 0;
}

abbrev three_windows : List (FeatureRow ℕ)
three_windows = window_of (codes "a") 0 ∷ window_of (codes "b") 1 ∷ window_of (codes "a") 0 ∷ []

-- A generator that gives the last number below each bound at every other call
abbrev draws : ℕ → ℕ → ℕ
draws position bound = if position % 2 == 0 then 0 else bound - 1

draws-InRange : InRange draws
draws-InRange position bound n = ground (arith, n)

f1-IsMetric : IsMetric whole_numbers (codes "f1")
unfolding metric_of text_eq
f1-IsMetric m = (m.f1, refl)

three_windows-runs : 2 ≤ length (keys (group_runs 0 (map (λ row. row.run_id) three_windows) []))
unfolding group_runs keys lookup insert text_eq
three_windows-runs = omega arith

bootstrap_run_metric_interval-returns_example :
    (out : ℕ × ℕ) × (bootstrap_run_metric_interval whole_numbers draws three_windows
        (1 ∷ 9 ∷ 2 ∷ [])
        5
        (codes "f1")
        2
      ≡ ok out)
bootstrap_run_metric_interval-returns_example =
    bootstrap_run_metric_interval-returns whole_numbers draws draws-InRange 5 (codes "f1")
      f1-IsMetric (λ n. omega arith) (λ n. omega arith) three_windows (1 ∷ 9 ∷ 2 ∷ []) 2 refl
      three_windows-runs

attack_detection_delays-detected_example :
    (delays : Dict (Option ℕ)) × (attack_detection_delays whole_numbers three_windows
        (1 ∷ 9 ∷ 2 ∷ [])
        5
      ≡ ok delays)
    × ((run : Text)
        → detected (lookup run delays) ≡ (
            if any (is_of run) (zip three_windows (1 ∷ 9 ∷ 2 ∷ []))
            then some (
                any
                  (λ pair. is_of run pair && raises whole_numbers 5 pair)
                  (zip three_windows (1 ∷ 9 ∷ 2 ∷ [])))
            else none))
attack_detection_delays-detected_example =
    attack_detection_delays-detected whole_numbers 5 three_windows (1 ∷ 9 ∷ 2 ∷ []) refl
