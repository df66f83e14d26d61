-- ===== src/Evaluation/Counts.antt =====
-- The confusion counts of `classification_metrics` of cote3mon/evaluation.py.
use teecam.Prelude.{
  ℕ, Bool, not, ◌&&◌, ◌||◌, ◌==◌, if◌then◌else◌, List, [], ◌∷◌, map, length, count_if, Result, ok,
  value_error, ◌>>◌, raise_if,
}

-- `int(score > threshold)`; scores are floating-point numbers, of which only the test matters.
unfoldable pub predictions_of :
    {Score : Type 0} → (Score → Score → Bool) → List Score → Score → List ℕ
predictions_of gt scores threshold = map (λ score. if gt score threshold then 1 else 0) scores

-- `zip`, which stops with the shorter list
unfoldable pub zip : {A B : Type 0} → List A → List B → List (A × B)
zip [] ys = []
zip (x ∷ xs) [] = []
zip (x ∷ xs) (y ∷ ys) = (x, y) ∷ zip xs ys

pub record Counts : Type 0 where
  pub tp : ℕ
  pub fp : ℕ
  pub tn : ℕ
  pub fn : ℕ

-- The four sums over the pairs of a label and a prediction.
unfoldable pub tally : List (ℕ × ℕ) → Counts
tally pairs = record {
  tp = count_if (λ p. p.0 == 1 && p.1 == 1) pairs;
  fp = count_if (λ p. p.0 == 0 && p.1 == 1) pairs;
  tn = count_if (λ p. p.0 == 0 && p.1 == 0) pairs;
  fn = count_if (λ p. p.0 == 1 && p.1 == 0) pairs;
}

-- `classification_metrics`, up to the counts; the rest are quotients of them.
unfoldable pub confusion :
    {Score : Type 0} → (Score → Score → Bool) → List ℕ → List Score → Score → Result Counts
unfolding predictions_of zip tally
confusion gt labels scores threshold = do
  raise_if (not (length labels == length scores) || length labels == 0) value_error
  ok (tally (zip labels (predictions_of gt scores threshold)))
