-- ===== src/Training/Tests.antt =====
-- Splits of small tables, with the identity for a shuffle.
use teecam.Prelude.{
  ℕ, some, get_elem?, ◌+◌, ◌≡◌, refl, true, false, ◌&&◌, none, List, [], ◌∷◌, ◌++◌, map, length,
  Text, codes, text_eq, text_le, contains, distinct, sort, insert_sorted, filter, any, all, take,
  drop, Result, ok, err,
}
use teecam.Training.Splits.{
  Row, Split, benign_rows, cut, select, rows_in, rows_of_scenario, run_ids_of, same_set,
  split_benign_runs, split_scenario, split_scenarios, split_benign_runs_stratified, train_end,
  validation_end,
}
use teecam.Forest.Walk.{Tree}
use teecam.Training.Spans.{Spans, leaf_at, inner_at, Reaches}
use teecam.Training.Export.{Estimator, exported_tree}
use teecam.Training.Depths.{exported_tree-depth}
use teecam.Training.Parts.{IsShuffle, has_run}
use teecam.Training.Partition.{split_benign_runs-disjoint, split_benign_runs-count}
use teecam.Training.Stratified.{OneScenario, split_benign_runs_stratified-disjoint}

abbrev no_shuffle : List Text → List Text
no_shuffle ids = ids

no_shuffle-IsShuffle : IsShuffle no_shuffle
no_shuffle-IsShuffle = record { size = λ ids. refl; items = λ k ids. refl }

abbrev row : Text → Text → Row
row scenario run_id = record { run_id = run_id; scenario = scenario; is_attack = false }

abbrev five_rows : List Row
five_rows =
    map (row (codes "steady"))
      (codes "a" ∷ codes "b" ∷ codes "c" ∷ codes "d" ∷ codes "e" ∷ codes "a" ∷ [])

abbrev parts_of : Result (Split Row) → Split Row
parts_of (ok s) = s
parts_of (err e) = record { train = []; validation = []; test = [] }

abbrev five_split : Split Row
five_split = parts_of (split_benign_runs no_shuffle five_rows)

five_rows_split : split_benign_runs no_shuffle five_rows ≡ ok five_split
unfolding split_benign_runs benign_rows run_ids_of distinct contains sort text_le text_eq
    insert_sorted filter
five_rows_split = refl

split_benign_runs-disjoint_example :
    ((has_run (codes "a") five_split.train && has_run (codes "a") five_split.validation) ≡ false)
    × ((has_run (codes "a") five_split.train && has_run (codes "a") five_split.test) ≡ false)
    × ((has_run (codes "a") five_split.validation && has_run (codes "a") five_split.test) ≡ false)
split_benign_runs-disjoint_example =
    split_benign_runs-disjoint no_shuffle no_shuffle-IsShuffle five_rows (codes "a") five_rows_split

split_benign_runs-count_example :
    length five_split.train + length five_split.validation + length five_split.test
    ≡ length (benign_rows five_rows)
split_benign_runs-count_example =
    split_benign_runs-count no_shuffle no_shuffle-IsShuffle five_rows five_rows_split

abbrev stratified : Split Row
stratified = parts_of (split_benign_runs_stratified (λ t. no_shuffle) five_rows none)

stratified_split : split_benign_runs_stratified (λ t. no_shuffle) five_rows none ≡ ok stratified
unfolding split_benign_runs_stratified benign_rows same_set all split_scenarios split_scenario
    run_ids_of distinct contains sort text_le text_eq insert_sorted filter
stratified_split = refl

five_rows-OneScenario : OneScenario (λ k. codes "steady") (benign_rows five_rows)
unfolding benign_rows filter
five_rows-OneScenario = (refl, (refl, (refl, (refl, (refl, (refl, tt))))))

split_benign_runs_stratified-disjoint_example :
    ((has_run (codes "a") stratified.train && has_run (codes "a") stratified.validation) ≡ false)
    × ((has_run (codes "a") stratified.train && has_run (codes "a") stratified.test) ≡ false)
    × ((has_run (codes "a") stratified.validation && has_run (codes "a") stratified.test) ≡ false)
split_benign_runs_stratified-disjoint_example =
    split_benign_runs_stratified-disjoint (λ t. no_shuffle) (λ t. no_shuffle-IsShuffle)
      (λ k. codes "steady") five_rows none (codes "a") five_rows-OneScenario stratified_split

-- A run with rows in two scenarios can have rows in two parts: "a" is trained on and tested on.
abbrev leaking_rows : List Row
leaking_rows =
    five_rows
    ++ map (row (codes "bursty")) (codes "V" ∷ codes "W" ∷ codes "X" ∷ codes "Y" ∷ codes "a" ∷ [])

abbrev leaking : Split Row
leaking = parts_of (split_benign_runs_stratified (λ t. no_shuffle) leaking_rows none)

leaking_run : (has_run (codes "a") leaking.train && has_run (codes "a") leaking.test) ≡ true
unfolding split_benign_runs_stratified benign_rows same_set all split_scenarios split_scenario
    run_ids_of rows_of_scenario distinct contains sort text_le text_eq insert_sorted filter any cut
    train_end validation_end take drop select rows_in
leaking_run = refl

-- A root with a leaf on the left and an inner node on the right.
abbrev small_estimator : Estimator ℕ
small_estimator = record {
  children_left = some 1 ∷ none ∷ some 3 ∷ none ∷ none ∷ [];
  children_right = some 2 ∷ none ∷ some 4 ∷ none ∷ none ∷ [];
  feature = 0 ∷ 0 ∷ 0 ∷ 0 ∷ 0 ∷ [];
  threshold = 5 ∷ 0 ∷ 7 ∷ 0 ∷ 0 ∷ [];
  n_node_samples = 8 ∷ 3 ∷ 5 ∷ 2 ∷ 3 ∷ [];
}

small_estimator-Spans : Spans small_estimator.children_left small_estimator.children_right 0 5
small_estimator-Spans =
    inner_at {i = 0} {m = 2} {j = 5} refl refl (leaf_at {i = 1} refl)
      (inner_at {i = 2} {m = 4} {j = 5} refl refl (leaf_at {i = 3} refl) (leaf_at {i = 4} refl))

exported_tree-depth_example :
    (out : Tree ℕ) × (exported_tree small_estimator (0 ∷ []) ≡ ok out)
    × (out.left ≡ small_estimator.children_left)
    × (out.right ≡ small_estimator.children_right)
    × (out.feature ≡ small_estimator.feature)
    × (out.threshold ≡ small_estimator.threshold)
    × (out.samples ≡ small_estimator.n_node_samples)
    × (out.feature_map ≡ 0 ∷ [])
    × ((v k : ℕ)
        → Reaches small_estimator.children_left small_estimator.children_right v k
        → get_elem? out.depth v ≡ some k)
exported_tree-depth_example = exported_tree-depth small_estimator (0 ∷ []) small_estimator-Spans
