-- ===== src/Evaluation/Delays.antt =====
-- `attack_detection_delays` of cote3mon/evaluation.py.
use teecam.Prelude.{
  ℕ, ◌-◌, Bool, not, ◌==◌, ltb, if◌then◌else◌, Option, none, some, List, [], ◌∷◌, ◌++◌, map, length,
  sort, Text, text_le, Dict, update, Result, ok, value_error, ◌>>◌, raise_if, Floats,
}
use teecam.Features.Tables.{FeatureRow}
use teecam.Evaluation.Counts.{zip}

module _ {Number : Type 0} where
  -- `grouped`: the times and scores of each run's attack windows
  unfoldable pub group_attacks :
      List (FeatureRow Number × Number) → Dict (List (ℕ × Number)) → Dict (List (ℕ × Number))
  group_attacks [] grouped = grouped
  group_attacks ((row, score) ∷ pairs) grouped =
      let added =
        update [] (λ values. values ++ ((row.window_start_ns, score) ∷ [])) row.run_id grouped in
      group_attacks pairs (if row.is_attack == 0 then grouped else added)

module _ {Number : Type 0} (floats : Floats Number) where
  open floats use {ratio, lt, le}

  -- The order of pairs
  unfoldable pub pair_le : ℕ × Number → ℕ × Number → Bool
  pair_le a b = if a.0 == b.0 then le a.1 b.1 else ltb a.0 b.0

  -- `next((timestamp for timestamp, score in ordered if score > threshold), None)`
  unfoldable pub first_alert : Number → List (ℕ × Number) → Option ℕ
  first_alert threshold [] = none
  first_alert threshold ((timestamp, score) ∷ ordered) =
      let later = first_alert threshold ordered in
      if lt threshold score then some timestamp else later

  -- The delay in a list in order, which is not empty
  unfoldable pub delay_of : Number → List (ℕ × Number) → Option Number
  unfolding first_alert
  delay_of threshold [] = none
  delay_of threshold ((first_timestamp, score) ∷ ordered) =
      elim (first_alert threshold ((first_timestamp, score) ∷ ordered)) [
        | none ↦ none
        | some timestamp ↦ some (ratio (timestamp - first_timestamp) 1000000000)
      ]

  -- `delays[run_id]` for a run of `grouped`
  unfoldable pub delay_entry : Number → Text × List (ℕ × Number) → Text × Option Number
  unfolding sort pair_le delay_of
  delay_entry threshold entry = (entry.0, delay_of threshold (sort pair_le entry.1))

  unfoldable pub attack_detection_delays :
      List (FeatureRow Number) → List Number → Number → Result (Dict (Option Number))
  unfolding zip group_attacks sort delay_entry
  attack_detection_delays rows scores threshold = do
    raise_if (not (length rows == length scores)) value_error
    let grouped = sort (λ a b. text_le a.0 b.0) (group_attacks (zip rows scores) [])
    ok (map (delay_entry threshold) grouped)
