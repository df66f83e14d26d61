-- ===== src/Evaluation/Detected.antt =====
-- `attack_detection_delays` tells which attacked runs are detected.
use teecam.Prelude.{
  ℕ, ◌≤◌, ◌≡◌, refl, sym, ap, ◌∙◌, inl, inr, arith, Bool, true, false, not, ◌&&◌, ◌||◌, ◌==◌,
  Bool-cases, if◌then◌else◌, Option, Option-cases, none, some, List, [], ◌∷◌, map, filter, length,
  any, any-count, count_if-sort, length-sort, sort, Text, text_le, Dict, lookup, ok, Floats,
}
use teecam.Features.Tables.{FeatureRow}
use teecam.Evaluation.Counts.{zip}
use teecam.Evaluation.Delays.{
  group_attacks, pair_le, first_alert, delay_of, delay_entry, attack_detection_delays,
}
use teecam.Evaluation.Groups.{
  lookup-sort, lookup-map, is_of, values_in, content, empty-IsGrouped, group_attacks-content,
  is_of-any,
}

abbrev pub is_some : {A : Type 0} → Option A → Bool
is_some none = false
is_some (some a) = true

-- Of a run that `delays` holds, whether it has a delay.
abbrev pub detected : {A : Type 0} → Option (Option A) → Option Bool
detected none = none
detected (some delay) = some (is_some delay)

module _ {Number : Type 0} (floats : Floats Number) (threshold : Number) where
  abbrev pub raises : FeatureRow Number × Number → Bool
  raises pair = floats.lt threshold pair.1

  raises-any :
      (run : Text) (pairs : List (FeatureRow Number × Number))
      → any (λ value. floats.lt threshold value.1) (values_in run pairs)
        ≡ any (λ pair. is_of run pair && raises pair) pairs
  unfolding any filter
  raises-any run [] = refl
  raises-any run (pair ∷ pairs) = elim (Bool-cases (is_of run pair)) [
    | inl y ↦ rw y (ap (λ b. floats.lt threshold pair.1 || b) (raises-any run pairs))
    | inr n ↦ rw n (raises-any run pairs)
  ]

  first_alert-any :
      (values : List (ℕ × Number))
      → is_some (first_alert floats threshold values)
        ≡ any (λ value. floats.lt threshold value.1) values
  unfolding first_alert any
  first_alert-any [] = refl
  first_alert-any ((timestamp, score) ∷ values) = elim (Bool-cases (floats.lt threshold score)) [
    | inl y ↦ rw y refl
    | inr n ↦ rw n (first_alert-any values)
  ]

  delay_of-any :
      (values : List (ℕ × Number))
      → 1 ≤ length values
      → is_some (delay_of floats threshold values)
        ≡ any (λ value. floats.lt threshold value.1) values
  unfolding delay_of
  delay_of-any [] h = absurd (omega (arith, h))
  delay_of-any ((timestamp, score) ∷ values) h =
      let same = first_alert-any ((timestamp, score) ∷ values) in
      elim (Option-cases (first_alert floats threshold ((timestamp, score) ∷ values))) [
        | inl x ↦ rw (delay_of, x) (rw x at same)
        | inr (found, x) ↦ rw (delay_of, x) (rw x at same)
      ]

  any-sort :
      (values : List (ℕ × Number))
      → let p = λ (value : ℕ × Number). floats.lt threshold value.1 in
        any p (sort (pair_le floats) values) ≡ any p values
  any-sort values =
      let p = λ (value : ℕ × Number). floats.lt threshold value.1 in
      any-count p (sort (pair_le floats) values)
      ∙ ap (λ (n : ℕ). not (n == 0)) (count_if-sort (pair_le floats) p values)
      ∙ sym (any-count p values)

  -- The entry of a run, from its group.
  detected-content :
      (run : Text) (grouped : Dict (List (ℕ × Number))) (pairs : List (FeatureRow Number × Number))
      → values_in run pairs ≡ content run grouped
      → ((values : List (ℕ × Number)) → lookup run grouped ≡ some values → 1 ≤ length values)
      → {entry : Option (Option Number)}
      → entry ≡ elim (lookup run grouped) [
        | none ↦ none
        | some v ↦ some (delay_of floats threshold (sort (pair_le floats) v))
      ]
      → detected entry ≡ (
          if any (is_of run) pairs
          then some (any (λ pair. is_of run pair && raises pair) pairs)
          else none)
  detected-content run grouped pairs same nonempty {entry} found =
      elim (Option-cases (lookup run grouped)) [
        | inl x ↦
            let empty : values_in run pairs ≡ [] = same ∙ rw (content, x) refl in
            let none_of : any (is_of run) pairs ≡ false =
              is_of-any run pairs ∙ ap (λ values. not (length values == 0)) empty in
            let entry_is : entry ≡ none = found ∙ rw x refl in rw (entry_is, none_of) refl
        | inr (values, x) ↦
            let is : values_in run pairs ≡ values = same ∙ rw (content, x) refl in
            let there = nonempty values x in
            let some_of : any (is_of run) pairs ≡ true =
              is_of-any run pairs
              ∙ ap (λ found_values. not (length found_values == 0)) is
              ∙ ground (arith, there) in
            let size = length-sort (pair_le floats) values in
            let verdict =
              delay_of-any (sort (pair_le floats) values) (omega (arith, size, there))
              ∙ any-sort values
              ∙ ap (any (λ value. floats.lt threshold value.1)) (sym is)
              ∙ raises-any run pairs in
            let entry_is : entry ≡ some (delay_of floats threshold (sort (pair_le floats) values)) =
              found ∙ rw x refl in
            rw (entry_is, verdict, some_of) refl
      ]

  -- On as many scores as rows, `attack_detection_delays` returns an entry for just the runs with an attack
  -- window; it is a delay if one of the run's attack windows scores above the threshold, and none else.
  pub attack_detection_delays-detected :
      (rows : List (FeatureRow Number)) (scores : List Number)
      → length rows ≡ length scores
      → (delays : Dict (Option Number)) × (attack_detection_delays floats rows scores threshold
          ≡ ok delays)
        × ((run : Text)
            → detected (lookup run delays) ≡ (
                if any (is_of run) (zip rows scores)
                then some (any (λ pair. is_of run pair && raises pair) (zip rows scores))
                else none))
  unfolding attack_detection_delays delay_entry lookup
  attack_detection_delays-detected rows scores same =
      let pairs = zip rows scores in
      let grouped = group_attacks pairs [] in
      let equal : (length rows == length scores) ≡ true = ground (arith, same) in
      let by_run =
        λ (a : Text × List (ℕ × Number)) (b : Text × List (ℕ × Number)). text_le a.0 b.0 in
      let delay =
        λ (values : List (ℕ × Number)). delay_of floats threshold (sort (pair_le floats) values) in
      let (good, contents) = group_attacks-content pairs [] empty-IsGrouped in
      (
        map (delay_entry floats threshold) (sort by_run grouped),
        rw (attack_detection_delays, equal) refl,
        λ run.
            let found =
              lookup-map delay run (sort by_run grouped)
              ∙ ap
                  (λ (o : Option (List (ℕ × Number))). elim o as (λ _. Option (Option Number)) [
                    | none ↦ none
                    | some v ↦ some (delay v)
                  ])
                  (lookup-sort by_run grouped good.unique run) in
            detected-content run grouped pairs (sym (contents run)) (good.nonempty run) found,
      )
