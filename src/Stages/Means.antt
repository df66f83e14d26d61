-- ===== src/Stages/Means.antt =====
-- The means with their intervals of scripts/stage4-analyze-performance.py.
use teecam.Prelude.{
  ℕ, zero, suc, ◌+◌, ◌-◌, Bool, ◌==◌, leb, if◌then◌else◌, Option, none, some, List, [], ◌∷◌, map,
  length, filter, any, sort, Text, Result, ok, ◌>>=◌, Floats, of_nat, nonzero,
}
use teecam.Features.Percentile.{element}
use teecam.Evaluation.Bootstrap.{elements, drawn}
use teecam.Stages.Performance.{RunResult, MeanInterval, nested}

-- The repeats with the values of their runs, in insertion order
unfoldable pub put_repeat : {A : Type 0} → ℕ → A → List (ℕ × A) → List (ℕ × A)
put_repeat repeat value [] = (repeat, value) ∷ []
put_repeat repeat value ((key, other) ∷ entries) =
    let rest = put_repeat repeat value entries in
    if key == repeat then (key, value) ∷ entries else (key, other) ∷ rest

unfoldable pub at_repeat : {A : Type 0} → ℕ → List (ℕ × A) → Option A
at_repeat repeat [] = none
at_repeat repeat ((key, value) ∷ entries) =
    let rest = at_repeat repeat entries in if key == repeat then some value else rest

module _ {Number : Type 0} where
  -- The values that are there
  unfoldable pub present_values : List (Option Number) → List Number
  present_values [] = []
  present_values (none ∷ values) = present_values values
  present_values (some value ∷ values) = value ∷ present_values values

  -- The value of a repeat that both have
  abbrev pub value_at : ℕ → List (ℕ × Option Number) → Option Number
  value_at repeat entries = elim (at_repeat repeat entries) [ none ↦ none | some value ↦ value ]

  abbrev pub is_repeat_of : List (ℕ × Option Number) → ℕ → Bool
  is_repeat_of entries repeat = any (λ entry. entry.0 == repeat) entries

module _ {Number : Type 0} (float : Text → Result Number) where
  -- `{int(item["repeat"]): nested(item, path) for item in items}`
  unfoldable pub by_repeat :
      List (RunResult Number)
      → List Text
      → List (ℕ × Option Number)
      → Result (List (ℕ × Option Number))
  unfolding nested put_repeat
  by_repeat [] path entries = ok entries
  by_repeat (item ∷ items) path entries = nested float item.document path >>= λ value.
      by_repeat items path (put_repeat item.repeat value entries)

  -- `[value for item in group if (value := nested(item, path)) is not None]`
  unfoldable pub values_of : List (RunResult Number) → List Text → Result (List (Option Number))
  unfolding nested
  values_of [] path = ok []
  values_of (item ∷ items) path = do
    value ← nested float item.document path
    rest ← values_of items path
    ok (value ∷ rest)

module _ {Number : Type 0} (floats : Floats Number) where
  open floats use {ratio, sub, mul, div, le, floor, fmean}

  -- `100.0 * (right - left) / left`, unless a value is missing or the first is zero
  unfoldable pub percent_change : Option Number → Option Number → Option Number
  percent_change none right = none
  percent_change (some left) none = none
  percent_change (some left) (some right) =
      if nonzero floats left then some (div (mul (ratio 100 1) (sub right left)) left) else none

  module _ (draws : ℕ → ℕ → ℕ → ℕ) (iterations : ℕ) where
    -- The means of the samples that a seed gives, from a position of its generator
    unfoldable pub sample_means : List Number → ℕ → ℕ → ℕ → Result (List Number)
    unfolding elements drawn
    sample_means values seed position zero = ok []
    sample_means values seed position (suc rounds) = do
      sample ← elements values (drawn (draws seed) (length values) position (length values))
      rest ← sample_means values seed (position + length values) rounds
      ok (fmean sample ∷ rest)

    unfoldable pub mean_ci : List Number → ℕ → Result (MeanInterval Number)
    unfolding sample_means sort element
    mean_ci [] seed = ok (record { mean = none; ci95 = (none, none); n = 0 })
    mean_ci (value ∷ values) seed = do
      found ← sample_means (value ∷ values) seed 0 iterations
      let means = sort le found
      low ← element means (floor (mul (ratio 25 1000) (of_nat floats (length means - 1))))
      high ← element means (floor (mul (ratio 975 1000) (of_nat floats (length means - 1))))
      ok (record {
        mean = some (fmean (value ∷ values));
        ci95 = (some low, some high);
        n = length (value ∷ values);
      })

    unfoldable pub paired_percent_change_ci :
        (Text → Result Number)
        → List (RunResult Number)
        → List (RunResult Number)
        → List Text
        → ℕ
        → Result (MeanInterval Number)
    unfolding by_repeat at_repeat sort filter percent_change present_values mean_ci any
    paired_percent_change_ci float baseline current path seed = do
      baseline_by_repeat ← by_repeat float baseline path []
      current_by_repeat ← by_repeat float current path []
      let common =
          filter (is_repeat_of current_by_repeat) (map (λ entry. entry.0) baseline_by_repeat)
      let changes =
          map
            (λ repeat.
              percent_change (value_at repeat baseline_by_repeat)
                (value_at repeat current_by_repeat))
            (sort leb common)
      mean_ci (present_values changes) seed
