-- ===== src/Training/Stratified.antt =====
-- The split within each scenario: when it succeeds, and what it may let through.
use teecam.Prelude.{
  ℕ, ◌+◌, ◌≤◌, ◌≡◌, refl, sym, ap, ◌∙◌, inl, inr, arith, false, ltb, leb, if◌then◌else◌, List, [],
  ◌∷◌, length, Text, text_eq, text_eq_iff, text_le, map, distinct, sort, contains, filter, any, All,
  Option, none, some, ◌&&◌, count_if, count_if-append, Bool-cases, >>=-eq-ok, ok, err, value_error,
}
use teecam.Training.Occurrences.{
  occurrences, contains-occurrences, occurrences-distinct, contains-distinct, occurrences-sort,
}
use teecam.Training.Splits.{
  Row, Split, benign_rows, select, same_set, expected_of, split_benign_runs_stratified,
  validation_end, cut, run_ids_of, rows_of_scenario, split_scenario, split_scenarios,
}
use teecam.Training.Parts.{
  IsShuffle, validation_end-lt, has_run, contains-map, occurrences-parts, apart,
}

-- The runs of a scenario.
abbrev pub runs : List Row → Text → List Text
runs benign scenario = run_ids_of (rows_of_scenario scenario benign)

module _ (shuffle : Text → List Text → List Text) (shuffles : (t : Text) → IsShuffle (shuffle t))
    (benign : List Row) where
  -- If the shuffles keep the items of a list, a scenario is split by the cuts of its shuffled runs
  -- if it has five runs or more, and refused otherwise: the later test for a scenario without a
  -- test run never refuses one.
  pub split_scenario_lem :
      (scenario : Text)
      → split_scenario shuffle benign scenario ≡ (
          if ltb (length (runs benign scenario)) 5
          then err value_error
          else ok (cut (shuffle scenario (runs benign scenario))))
  unfolding split_scenario
  split_scenario_lem scenario =
      let ids = runs benign scenario in
      elim (Bool-cases (ltb (length ids) 5)) [
        | inl y ↦ rw (split_scenario, y) refl
        | inr n ↦
            let size = (shuffles scenario).size ids in
            let many : 5 ≤ length (shuffle scenario ids) = ground (arith, size) in
            let short = validation_end-lt (length (shuffle scenario ids)) many in
            let passes : leb (length (shuffle scenario ids))
                  (validation_end (length (shuffle scenario ids)))
                ≡ false =
              ground (arith, short) in
            rw (split_scenario, n, passes) refl
      ]

-- Each run has all its rows in one scenario.
abbrev pub OneScenario : (Text → Text) → List Row → Type 0
OneScenario home = All (λ row. row.scenario ≡ home row.run_id)

has_run-elsewhere :
    (home : Text → Text) (k scenario : Text) (rows : List Row)
    → OneScenario home rows
    → text_eq (home k) scenario ≡ false
    → has_run k (rows_of_scenario scenario rows) ≡ false
unfolding rows_of_scenario filter any
has_run-elsewhere home k scenario [] h n = refl
has_run-elsewhere home k scenario (r ∷ rows) h n =
    let rest = has_run-elsewhere home k scenario rows h.1 n in
    ground (
      arith,
      rest,
      h.0,
      text_eq_iff k r.run_id,
      text_eq_iff r.scenario scenario,
      text_eq_iff (home k) scenario,
      ap home,
    )

occurrences-runs-le :
    (home : Text → Text) (k scenario : Text) (benign : List Row)
    → OneScenario home benign
    → occurrences k (runs benign scenario) ≤ (if text_eq (home k) scenario then 1 else 0)
unfolding run_ids_of
occurrences-runs-le home k scenario benign h =
    let ids = map (λ (row : Row). row.run_id) (rows_of_scenario scenario benign) in
    let same = occurrences-sort text_le k (distinct ids) in
    elim (Bool-cases (text_eq (home k) scenario)) [
      | inl y ↦ rw y (omega (arith, same, occurrences-distinct k ids))
      | inr n ↦
          let missing : contains k (distinct ids) ≡ false =
            contains-distinct k ids
            ∙ contains-map k (rows_of_scenario scenario benign)
            ∙ has_run-elsewhere home k scenario benign h n in
          rw n (ground (arith, same, contains-occurrences k (distinct ids), missing))
    ]

-- How often a run stands in the three lists of a split.
abbrev total : Text → Split Text → ℕ
total k ids = occurrences k ids.train + occurrences k ids.validation + occurrences k ids.test

occurrences-expected_of :
    (k : Text) (scenarios : Option (List Text)) (rows : List Text)
    → occurrences k (expected_of scenarios (distinct rows)) ≤ 1
unfolding expected_of
occurrences-expected_of k none rows = occurrences-distinct k rows
occurrences-expected_of k (some scenarios) rows = occurrences-distinct k scenarios

module _ (shuffle : Text → List Text → List Text) (shuffles : (t : Text) → IsShuffle (shuffle t))
    (home : Text → Text) where
  module _ (benign : List Row) (one : OneScenario home benign) (k : Text) where
    total-split_scenario :
        (scenario : Text) {more : Split Text}
        → split_scenario shuffle benign scenario ≡ ok more
        → total k more ≤ (if text_eq (home k) scenario then 1 else 0)
    total-split_scenario scenario {more} e =
        let ids = runs benign scenario in
        let few = occurrences-runs-le home k scenario benign one in
        let step = sym (split_scenario_lem shuffle shuffles benign scenario) ∙ e in
        elim (Bool-cases (ltb (length ids) 5)) [
          | inl y ↦ absurd (let w = rw y at step in cc w)
          | inr n ↦
              let whole : cut (shuffle scenario ids) ≡ more = (let w = rw n at step in cc w) in
              let parts = occurrences-parts k (shuffle scenario ids) in
              rw (← whole) (omega (arith, parts, few, (shuffles scenario).items k ids))
        ]

    total-split_scenarios :
        (scenarios : List Text) (ids : Split Text) {out : Split Text}
        → split_scenarios shuffle benign scenarios ids ≡ ok out
        → total k out ≤ total k ids + occurrences (home k) scenarios
    unfolding split_scenarios count_if
    total-split_scenarios [] ids {out} e = let same : ids ≡ out = cc e in rw (← same) (omega arith)
    total-split_scenarios (scenario ∷ scenarios) ids e =
        let step = >>=-eq-ok (split_scenario shuffle benign scenario) _ e in
        let more = step.0 in
        let first = total-split_scenario scenario step.1 in
        let rest = total-split_scenarios scenarios _ step.2 in
        omega (
          arith,
          first,
          rest,
          count_if-append (text_eq k) ids.train more.train,
          count_if-append (text_eq k) ids.validation more.validation,
          count_if-append (text_eq k) ids.test more.test,
        )

  -- If the shuffles keep the items of a list, each run has all its benign rows in one scenario,
  -- and the split within the scenarios succeeds, no run has rows in two of its parts.
  pub split_benign_runs_stratified-disjoint :
      (rows : List Row) (scenarios : Option (List Text)) {s : Split Row} (k : Text)
      → OneScenario home (benign_rows rows)
      → split_benign_runs_stratified shuffle rows scenarios ≡ ok s
      → ((has_run k s.train && has_run k s.validation) ≡ false)
        × ((has_run k s.train && has_run k s.test) ≡ false)
        × ((has_run k s.validation && has_run k s.test) ≡ false)
  unfolding split_benign_runs_stratified select count_if
  split_benign_runs_stratified-disjoint rows scenarios {s} k one e =
      let benign = benign_rows rows in
      let seen = map (λ (row : Row). row.scenario) benign in
      let expected = expected_of scenarios (distinct seen) in
      elim (Bool-cases (same_set (distinct seen) expected)) [
        | inr n ↦ absurd (let w = rw (split_benign_runs_stratified, n) at e in cc w)
        | inl y ↦
            let run =
              >>=-eq-ok
                (split_scenarios shuffle benign (sort text_le expected)
                  (record { train = []; validation = []; test = [] }))
                _ (rw (split_benign_runs_stratified, y) at e) in
            let ids = run.0 in
            let whole : select benign ids ≡ s = (let w = run.2 in cc w) in
            let few = total-split_scenarios benign one k (sort text_le expected) _ run.1 in
            let once = occurrences-expected_of (home k) scenarios seen in
            let order = occurrences-sort text_le (home k) expected in
            rw (← whole) (
              apart k ids.train ids.validation benign (omega arith),
              apart k ids.train ids.test benign (omega arith),
              apart k ids.validation ids.test benign (omega arith),
            )
      ]
