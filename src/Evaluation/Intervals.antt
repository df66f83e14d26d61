-- ===== src/Evaluation/Intervals.antt =====
-- The bootstrap intervals are computed, and over whole runs.
use teecam.Prelude.{
  ℕ, zero, suc, ◌+◌, ◌≤◌, ◌<◌, ◌≡◌, refl, ap, ◌∙◌, inl, inr, arith, true, false, ◌==◌, ltb,
  Bool-cases, Option-cases, some, List, [], ◌∷◌, ◌++◌, map, length, length-map, All, All-append,
  All-sort, length-sort, sort, Text, text_eq, text_le, Dict, lookup, All-insert, lookup-keys, keys,
  ok, Floats,
}
use teecam.Features.Tables.{FeatureRow}
use teecam.Evaluation.Bootstrap.{
  drawn, group_runs, indices_of, kept, window_rounds, run_rounds, bootstrap_metric_interval,
  bootstrap_run_metric_interval,
}
use teecam.Evaluation.Resampled.{
  elements-returns, elements-All, InRange, drawn-InRange, IsShare, IsMetric, interval_of-returns,
  resample-returns,
}

length-drawn :
    (draws : ℕ → ℕ → ℕ) (bound position count : ℕ)
    → length (drawn draws bound position count) ≡ count
unfolding drawn
length-drawn draws bound position zero = refl
length-drawn draws bound position (suc count) =
    ap suc (length-drawn draws bound (suc position) count)

-- Every index of a group is below a number.
abbrev Inside : ℕ → Dict (List ℕ) → Type 0
Inside total = All (λ group. All (λ i. i < total) group.1)

lookup-Inside :
    (total : ℕ) (run : Text) (groups : Dict (List ℕ)) {indices : List ℕ}
    → lookup run groups ≡ some indices
    → Inside total groups
    → All (λ i. i < total) indices
unfolding lookup
lookup-Inside total run [] e h = absurd (cc e)
lookup-Inside total run ((j, w) ∷ groups) {indices} e h = elim (Bool-cases (text_eq j run)) [
  | inl y ↦ let same : w ≡ indices = (let k = rw y at e in cc k) in rw (← same) h.0
  | inr n ↦ lookup-Inside total run groups (rw n at e) h.1
]

group_runs-Inside :
    (total index : ℕ) (runs : List Text) (groups : Dict (List ℕ))
    → index + length runs ≤ total
    → Inside total groups
    → Inside total (group_runs index runs groups)
unfolding group_runs
group_runs-Inside total index [] groups n h = h
group_runs-Inside total index (run ∷ runs) groups n h =
    group_runs-Inside total (suc index) runs _ (omega (arith, n))
      (elim (Option-cases (lookup run groups)) [
        | inl x ↦ rw x (
            All-insert (λ group. All (λ i. i < total) group.1) run (index ∷ []) groups
              (λ j e. (omega (arith, n), tt)) (omega (arith, n), tt) h)
        | inr (indices, x) ↦
            let more : All (λ i. i < total) (indices ++ (index ∷ [])) =
              All-append (λ i. i < total) indices (index ∷ []) (lookup-Inside total run groups x h)
                (omega (arith, n), tt) in
            rw x (
              All-insert (λ group. All (λ i. i < total) group.1) run (indices ++ (index ∷ []))
                groups (λ j e. more) more h)
      ])

-- A run that has a group, whose indices are below a number.
abbrev HasGroup : ℕ → Dict (List ℕ) → Text → Type 0
HasGroup total groups run =
    (indices : List ℕ) × (lookup run groups ≡ some indices) × All (λ i. i < total) indices

indices_of-returns :
    (total : ℕ) (groups : Dict (List ℕ)) (runs : List Text)
    → All (HasGroup total groups) runs
    → (out : List ℕ) × (indices_of groups runs ≡ ok out) × All (λ i. i < total) out
unfolding indices_of
indices_of-returns total groups [] h = ([], refl, tt)
indices_of-returns total groups (run ∷ runs) h =
    let (indices, e, inside) = h.0 in
    let (rest, f, others) = indices_of-returns total groups runs h.1 in
    (
      indices ++ rest,
      rw (indices_of, e, f) refl,
      All-append (λ i. i < total) indices rest inside others,
    )

rows_exist :
    {Number : Type 0} (rows : List (FeatureRow Number))
    → 2 ≤ length (keys (group_runs 0 (map (λ row. row.run_id) rows) []))
    → (length rows == 0) ≡ false
unfolding group_runs keys
rows_exist [] h = absurd (omega (arith, h))
rows_exist (row ∷ rows) h = ground arith

module _ {Number : Type 0} (floats : Floats Number) (draws : ℕ → ℕ → ℕ) (in_range : InRange draws)
    (threshold : Number) (metric : Text) (known : IsMetric floats metric) where
  window_rounds-returns :
      (labels : List ℕ) (scores : List Number)
      → length labels ≡ length scores
      → 1 ≤ length labels
      → (position iterations : ℕ)
      → (out : List Number) × (window_rounds floats draws labels scores threshold metric position
            iterations
          ≡ ok out)
  unfolding window_rounds
  window_rounds-returns labels scores same many position zero = ([], refl)
  window_rounds-returns labels scores same many position (suc iterations) =
      let n = length labels in
      let (value, e) =
        resample-returns floats labels scores threshold metric same known (drawn draws n position n)
          (drawn-InRange draws in_range n many position n) in
      let (rest, f) = window_rounds-returns labels scores same many (position + n) iterations in
      (kept floats value rest, rw (window_rounds, e, f) refl)

  run_rounds-returns :
      (labels : List ℕ) (scores : List Number)
      → length labels ≡ length scores
      → (groups : Dict (List ℕ)) (run_ids : List Text) → 1 ≤ length run_ids
      → All (HasGroup (length labels) groups) run_ids
      → (position iterations : ℕ)
      → (out : List Number) × (run_rounds floats draws labels scores threshold metric groups run_ids
            position iterations
          ≡ ok out)
  unfolding run_rounds
  run_rounds-returns labels scores same groups run_ids many h position zero = ([], refl)
  run_rounds-returns labels scores same groups run_ids many h position (suc iterations) =
      let n = length run_ids in
      let (sampled, e, _) =
        elements-returns run_ids (drawn draws n position n)
          (drawn-InRange draws in_range n many position n) in
      let (indices, f, inside) =
        indices_of-returns (length labels) groups sampled
          (elements-All (HasGroup (length labels) groups) run_ids (drawn draws n position n) e h) in
      let (value, g) =
        resample-returns floats labels scores threshold metric same known indices inside in
      let (rest, k) =
        run_rounds-returns labels scores same groups run_ids many h (position + n) iterations in
      (kept floats value rest, rw (run_rounds, e, f, g, k) refl)

  module _ (low_share : IsShare floats (floats.ratio 25 1000))
      (high_share : IsShare floats (floats.ratio 975 1000)) where
    -- `bootstrap_metric_interval` returns an interval for the name of a metric and as many labels as
    -- scores, one or more, if the generator gives numbers below its bounds and the products of 0.025 and
    -- of 0.975 with a whole number are rounded down to no more than the number.
    pub bootstrap_metric_interval-returns :
        (labels : List ℕ) (scores : List Number) (iterations : ℕ)
        → length labels ≡ length scores
        → 1 ≤ length labels
        → (out : Number × Number) × (bootstrap_metric_interval floats draws labels scores threshold
              metric iterations
            ≡ ok out)
    unfolding bootstrap_metric_interval
    bootstrap_metric_interval-returns labels scores iterations same many =
        let (values, e) = window_rounds-returns labels scores same many 0 iterations in
        let (out, f) = interval_of-returns floats values low_share high_share in
        (out, rw (bootstrap_metric_interval, e) f)

    -- `bootstrap_run_metric_interval` returns an interval for the name of a metric and as many rows as
    -- scores, of two runs or more, if the generator gives numbers below its bounds and the products of
    -- 0.025 and of 0.975 with a whole number are rounded down to no more than the number.
    pub bootstrap_run_metric_interval-returns :
        (rows : List (FeatureRow Number)) (scores : List Number) (iterations : ℕ)
        → length rows ≡ length scores
        → 2 ≤ length (keys (group_runs 0 (map (λ row. row.run_id) rows) []))
        → (out : Number × Number) × (bootstrap_run_metric_interval floats draws rows scores
              threshold metric iterations
            ≡ ok out)
    unfolding bootstrap_run_metric_interval
    bootstrap_run_metric_interval-returns rows scores iterations same two =
        let runs = map (λ (row : FeatureRow Number). row.run_id) rows in
        let labels = map (λ (row : FeatureRow Number). row.is_attack) rows in
        let groups = group_runs 0 runs [] in
        let run_ids = sort text_le (keys groups) in
        let size = length-sort text_le (keys groups) in
        let labels_size = length-map (λ (row : FeatureRow Number). row.is_attack) rows in
        let total = length labels in
        let inside =
          group_runs-Inside total 0 runs []
            (omega (arith, length-map (λ (row : FeatureRow Number). row.run_id) rows, labels_size))
            tt in
        let found =
          All-sort text_le (HasGroup total groups) (keys groups)
            (lookup-keys (All (λ i. i < total)) groups inside) in
        let equal : (length rows == length scores) ≡ true = ground (arith, same) in
        let some_rows : (length rows == 0) ≡ false = rows_exist rows two in
        let several : ltb (length run_ids) 2 ≡ false = ground (arith, two, size) in
        let (values, e) =
          run_rounds-returns labels scores (labels_size ∙ same) groups run_ids
            (omega (arith, size, two)) found 0 iterations in
        let (out, f) = interval_of-returns floats values low_share high_share in
        (out, rw (bootstrap_run_metric_interval, equal, some_rows, several, e) f)
