-- ===== src/Evaluation/Totals.antt =====
-- The confusion counts count every window once.
use teecam.Prelude.{
  ℕ, ◌+◌, ◌≤◌, ◌<◌, ◌≡◌, refl, arith, Bool, true, false, ◌==◌, List, [], ◌∷◌, length, count_if, All,
  ok,
}
use teecam.Evaluation.Counts.{Counts, predictions_of, zip, tally, confusion}

-- A label is 0 or 1.
abbrev pub IsLabels : List ℕ → Type 0
IsLabels = All (λ label. label < 2)

module _ {Score : Type 0} (gt : Score → Score → Bool) (threshold : Score) where
  -- The windows that are predicted to be attacks.
  abbrev pub alarms : List Score → ℕ
  alarms = count_if (λ score. gt score threshold)

  tally-totals :
      (labels : List ℕ) (scores : List Score)
      → IsLabels labels
      → length labels ≡ length scores
      → let c = tally (zip labels (predictions_of gt scores threshold)) in
        (c.tp + c.fn ≡ count_if (λ label. label == 1) labels)
        × (c.tn + c.fp ≡ count_if (λ label. label == 0) labels)
        × (c.tp + c.fp ≡ alarms scores)
        × (c.tp + c.fp + c.tn + c.fn ≡ length labels)
  unfolding tally zip predictions_of count_if
  tally-totals [] [] h n = (refl, refl, refl, refl)
  tally-totals [] (s ∷ scores) h n = absurd (omega arith)
  tally-totals (l ∷ labels) [] h n = absurd (omega arith)
  tally-totals (l ∷ labels) (s ∷ scores) h n =
      let rest = tally-totals labels scores h.1 (omega arith) in ground (arith, h.0, rest)

  -- On as many scores as labels, at least one, each 0 or 1, the counts are computed: `tp` and `fn`
  -- make up the attacks, `tn` and `fp` the benign windows, `tp` and `fp` the scores above the
  -- threshold, and all four the windows.
  pub confusion-totals :
      (labels : List ℕ) (scores : List Score)
      → IsLabels labels
      → length labels ≡ length scores
      → 1 ≤ length labels
      → (c : Counts) × (confusion gt labels scores threshold ≡ ok c)
        × (c.tp + c.fn ≡ count_if (λ label. label == 1) labels)
        × (c.tn + c.fp ≡ count_if (λ label. label == 0) labels)
        × (c.tp + c.fp ≡ alarms scores)
        × (c.tp + c.fp + c.tn + c.fn ≡ length labels)
  unfolding confusion
  confusion-totals labels scores h n many =
      let (attacks, benign, alarm, whole) = tally-totals labels scores h n in
      let same : (length labels == length scores) ≡ true = ground (arith, n) in
      let some_label : (length labels == 0) ≡ false = ground (arith, many) in
      (
        tally (zip labels (predictions_of gt scores threshold)),
        rw (confusion, same, some_label) refl,
        attacks,
        benign,
        alarm,
        whole,
      )
