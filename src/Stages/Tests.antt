-- ===== src/Stages/Tests.antt =====
-- Two runs of one configuration, and a summary of two components, with whole numbers in place of
-- floating-point ones.
use teecam.Prelude.{
  ℕ, ◌≡◌, ◌<◌, refl, true, false, not, ◌&&◌, ◌==◌, none, some, List, [], ◌∷◌, any, count_if, Text,
  codes, text_eq, contains, ok, err, runtime_error,
}
use teecam.Stages.Performance.{RunResult, null, is_passed, check_results}
use teecam.Stages.Coverage.{check_results_complete}

abbrev run_result : ℕ → RunResult ℕ
run_result repeat = record {
  status = some (codes "PASS");
  configuration = codes "gateway_only";
  repeat = repeat;
  telemetry_enabled = false;
  requests = 10;
  monitor_alerts = none;
  document = null;
}

abbrev two_results : List (RunResult ℕ)
two_results = run_result 1 ∷ run_result 0 ∷ []

two_results-checked : check_results 2 (codes "gateway_only" ∷ []) two_results ≡ ok tt
unfolding check_results text_eq
two_results-checked = refl

twice_the_same :
    check_results 2 (codes "gateway_only" ∷ []) (run_result 1 ∷ run_result 1 ∷ [])
    ≡ err runtime_error
unfolding check_results text_eq
twice_the_same = refl

check_results_complete_example :
    ((configuration : Text) (r : ℕ)
      → contains configuration (codes "gateway_only" ∷ []) ≡ true
      → r < 2
      → count_if (λ item. text_eq item.configuration configuration && item.repeat == r) two_results
        ≡ 1)
    × (any (λ item. not (is_passed item)) two_results ≡ false)
check_results_complete_example =
    check_results_complete 2 two_results (codes "gateway_only" ∷ []) two_results-checked
