-- ===== src/Evaluation/Metrics.antt =====
-- `classification_metrics` and `average_precision` of cote3mon/evaluation.py.
use teecam.Prelude.{
  ℕ, suc, ◌+◌, ◌==◌, if◌then◌else◌, List, [], ◌∷◌, Text, codes, text_eq, sort, sum, Result, ok, err,
  key_error, ◌>>=◌, Floats, of_nat, nonzero,
}
use teecam.Evaluation.Counts.{Counts, zip, confusion}

pub record Metrics (Number : Type 0) : Type 0 where
  pub counts : Counts
  pub precision : Number
  pub recall : Number
  pub f1 : Number
  pub false_positive_rate : Number
  pub auprc : Number

module _ {Number : Type 0} (floats : Floats Number) where
  open floats use {ratio, add, sub, mul, div, lt, le}

  -- `a / b if b else 0.0` of two counts
  unfoldable pub ratio_or_zero : ℕ → ℕ → Number
  ratio_or_zero a b = if b == 0 then ratio 0 1 else ratio a b

  unfoldable pub f1_of : Number → Number → Number
  f1_of precision recall =
      if nonzero floats (add precision recall)
      then div (mul (mul (ratio 2 1) precision) recall) (add precision recall)
      else ratio 0 1

  -- The loop over `enumerate(ranked, 1)`
  unfoldable pub area_of : ℕ → ℕ → List (Number × ℕ) → ℕ → Number → Number → Number
  area_of positives rank [] true_positives area previous_recall = area
  area_of positives rank ((score, label) ∷ ranked) true_positives area previous_recall =
      let found = suc true_positives in
      let recall = ratio found positives in
      let step = mul (sub recall previous_recall) (ratio found rank) in
      let missed = label == 0 in
      area_of positives (suc rank) ranked (if missed then true_positives else found)
        (if missed then area else add area step) (if missed then previous_recall else recall)

  -- `sorted(zip(scores, labels), key=..., reverse=True)`
  unfoldable pub ranked_of : List ℕ → List Number → List (Number × ℕ)
  unfolding zip sort
  ranked_of labels scores = sort (λ a b. le b.0 a.0) (zip scores labels)

  unfoldable pub average_precision : List ℕ → List Number → Number
  unfolding area_of ranked_of sum
  average_precision labels scores =
      if sum labels == 0
      then ratio 0 1
      else area_of (sum labels) 1 (ranked_of labels scores) 0 (ratio 0 1) (ratio 0 1)

  unfoldable pub metrics_of : Counts → Number → Metrics Number
  unfolding ratio_or_zero f1_of
  metrics_of counts auprc =
      let precision = ratio_or_zero counts.tp (counts.tp + counts.fp) in
      let recall = ratio_or_zero counts.tp (counts.tp + counts.fn) in
      record {
        counts = counts;
        precision = precision;
        recall = recall;
        f1 = f1_of precision recall;
        false_positive_rate = ratio_or_zero counts.fp (counts.tn + counts.fp);
        auprc = auprc;
      }

  unfoldable pub classification_metrics : List ℕ → List Number → Number → Result (Metrics Number)
  unfolding confusion metrics_of average_precision
  classification_metrics labels scores threshold = do
    counts ← confusion (λ score bound. lt bound score) labels scores threshold
    ok (metrics_of counts (average_precision labels scores))

  -- `metrics[metric]` as a float
  unfoldable pub metric_of : Text → Metrics Number → Result Number
  metric_of metric m =
      if text_eq metric (codes "tp")
      then ok (of_nat floats m.counts.tp)
      else if text_eq metric (codes "fp")
      then ok (of_nat floats m.counts.fp)
      else if text_eq metric (codes "tn")
      then ok (of_nat floats m.counts.tn)
      else if text_eq metric (codes "fn")
      then ok (of_nat floats m.counts.fn)
      else if text_eq metric (codes "precision")
      then ok m.precision
      else if text_eq metric (codes "recall")
      then ok m.recall
      else if text_eq metric (codes "f1")
      then ok m.f1
      else if text_eq metric (codes "false_positive_rate")
      then ok m.false_positive_rate
      else if text_eq metric (codes "auprc")
      then ok m.auprc
      else err key_error
