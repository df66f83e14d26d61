-- ===== src/Training/Splits.antt =====
-- `split_benign_runs` and `split_benign_runs_stratified` of cote3mon/training.py.
use teecam.Prelude.{
  ℕ, ◌+◌, ◌-◌, ◌*◌, ◌/◌, max, Bool, not, ◌&&◌, ltb, leb, List, [], ◌∷◌, ◌++◌, map, length, take,
  drop, filter, all, Text, text_eq, text_le, contains, distinct, sort, Result, ok, value_error,
  ◌>>=◌, ◌>>◌, raise_if, Option, none, some,
}

-- The fields of a row that the functions read.
pub record Row : Type 0 where
  pub run_id : Text
  pub scenario : Text
  pub is_attack : Bool

-- The three lists of a split.
pub record Split (A : Type 0) : Type 0 where
  pub train : List A
  pub validation : List A
  pub test : List A

-- `[row for row in rows if not int(row["is_attack"])]`
unfoldable pub benign_rows : List Row → List Row
benign_rows = filter (λ row. not row.is_attack)

-- `int(count * 0.6)`: the product is rounded to a whole number exactly where it is one
unfoldable pub train_end : ℕ → ℕ
train_end count = max 1 (count * 6 / 10)

unfoldable pub validation_end : ℕ → ℕ
unfolding train_end
validation_end count = max (train_end count + 1) (count * 8 / 10)

-- `run_ids[:train_end]`, `run_ids[train_end:validation_end]` and `run_ids[validation_end:]`
unfoldable pub cut : List Text → Split Text
unfolding train_end validation_end
cut run_ids =
    let first = train_end (length run_ids) in
    let second = validation_end (length run_ids) in
    record {
      train = take first run_ids;
      validation = take (second - first) (drop first run_ids);
      test = drop second run_ids;
    }

-- `[row for row in benign if str(row["run_id"]) in ids]`
unfoldable pub rows_in : List Text → List Row → List Row
rows_in ids = filter (λ row. contains row.run_id ids)

unfoldable pub select : List Row → Split Text → Split Row
unfolding rows_in
select benign ids = record {
  train = rows_in ids.train benign;
  validation = rows_in ids.validation benign;
  test = rows_in ids.test benign;
}

-- `sorted({str(row["run_id"]) for row in rows})`
unfoldable pub run_ids_of : List Row → List Text
run_ids_of rows = sort text_le (distinct (map (λ row. row.run_id) rows))

-- `random.Random(seed).shuffle` is a parameter: the list that is left in place of its argument.
unfoldable pub split_benign_runs : (List Text → List Text) → List Row → Result (Split Row)
unfolding benign_rows run_ids_of cut select
split_benign_runs shuffle rows = do
  let benign = benign_rows rows
  let run_ids = run_ids_of benign
  raise_if (ltb (length run_ids) 5) value_error
  ok (select benign (cut (shuffle run_ids)))

-- `[row for row in benign if str(row["scenario"]) == scenario]`
unfoldable pub rows_of_scenario : Text → List Row → List Row
rows_of_scenario scenario = filter (λ row. text_eq row.scenario scenario)

-- `left == right` on sets
unfoldable pub same_set : List Text → List Text → Bool
same_set left right = all (λ k. contains k right) left && all (λ k. contains k left) right

-- `set(scenarios) if scenarios is not None else observed`
unfoldable pub expected_of : Option (List Text) → List Text → List Text
expected_of none observed = observed
expected_of (some scenarios) observed = distinct scenarios

-- One round of the loop: a scenario's runs; the shuffle depends on the scenario.
unfoldable pub split_scenario :
    (Text → List Text → List Text) → List Row → Text → Result (Split Text)
unfolding run_ids_of rows_of_scenario cut train_end validation_end
split_scenario shuffle benign scenario = do
  let run_ids = run_ids_of (rows_of_scenario scenario benign)
  raise_if (ltb (length run_ids) 5) value_error
  let shuffled = shuffle scenario run_ids
  raise_if (leb (length shuffled) (validation_end (length shuffled))) value_error
  ok (cut shuffled)

-- The loop with its three sets.
unfoldable pub split_scenarios :
    (Text → List Text → List Text) → List Row → List Text → Split Text → Result (Split Text)
unfolding split_scenario
split_scenarios shuffle benign [] ids = ok ids
split_scenarios shuffle benign (scenario ∷ scenarios) ids = do
  more ← split_scenario shuffle benign scenario
  split_scenarios shuffle benign scenarios (record {
    train = ids.train ++ more.train;
    validation = ids.validation ++ more.validation;
    test = ids.test ++ more.test;
  })

unfoldable pub split_benign_runs_stratified :
    (Text → List Text → List Text) → List Row → Option (List Text) → Result (Split Row)
unfolding benign_rows same_set expected_of split_scenarios select
split_benign_runs_stratified shuffle rows scenarios = do
  let benign = benign_rows rows
  let observed = distinct (map (λ row. row.scenario) benign)
  let expected = expected_of scenarios observed
  raise_if (not (same_set observed expected)) value_error
  ids ←
      split_scenarios shuffle benign (sort text_le expected)
        (record { train = []; validation = []; test = [] })
  ok (select benign ids)
