-- ===== src/Features/Tests.antt =====
-- Two requests of one run in one window of five seconds, and a file of one row; whole numbers in
-- place of floating-point ones.
use teecam.Prelude.{
  ℕ, ◌≡◌, refl, false, if◌then◌else◌, none, some, List, [], ◌∷◌, any, count_if, insert_sorted,
  text_eq, Text, codes, Dict, Result, ok, err, value_error, lookup, sum, whole_numbers,
}
use teecam.Features.Events.{Event}
use teecam.Features.Rows.{Row, aggregate_events}
use teecam.Features.Described.{counts_for}
use teecam.Features.Counted.{is_row, aggregate_events-rows}
use teecam.Features.Tables.{
  Table, Cell, FeatureRow, text_cell, whole_cell, number_cell, write_csv, read_feature_csv,
}
use teecam.Features.Written.{Holds, read_feature_csv-write_csv}

abbrev request_at : ℕ → Event ℕ
request_at t = record {
  event_type = none;
  ts_unix_ns = some t;
  run_id = some (codes "run");
  scenario = some (codes "steady");
  is_attack = some false;
  operation = some (codes "PUT");
  result = some (codes "OK");
  latency_us = some (ok 3);
  input_bytes = some (ok 64);
  cpu_percent = none;
  rss_kb = none;
  key_fingerprint = none;
  request_fingerprint = none;
}

abbrev two_requests : List (Event ℕ)
two_requests = request_at 10000000007 ∷ request_at 10000090000 ∷ []

abbrev one_row : List (Row ℕ)
one_row =
    record {
      run_id = codes "run";
      scenario = codes "steady";
      is_attack = false;
      window_start_ns = 10000000000;
      request_rate = 0;
      put_ratio = 1;
      get_ratio = 0;
      delete_ratio = 0;
      reject_ratio = 0;
      error_ratio = 0;
      latency_mean_us = 3;
      latency_p95_us = 3;
      input_mean_bytes = 64;
      input_max_bytes = 64;
      cpu_percent_mean = 0;
      rss_kb_mean = 0;
      key_reuse_ratio = 0;
      request_reuse_ratio = 0;
      operation_transition_ratio = 0;
      idle_mean_us = 86;
      idle_p95_us = 86;
      idle_cv = 0;
    }
    ∷ []

two_requests-row : aggregate_events whole_numbers two_requests 5 0 ≡ ok one_row
unfolding aggregate_events text_eq insert_sorted count_if sum
two_requests-row = refl

aggregate_events-rows_example : count_if (is_row (codes "run") 10000000000) one_row ≡ (
    if any (counts_for two_requests 5000000000 0 (codes "run") 10000000000) two_requests
    then 1
    else 0)
aggregate_events-rows_example =
    aggregate_events-rows whole_numbers two_requests 5 0 two_requests-row (codes "run") 10000000000

-- The cells in another order than the columns, with one that is not written.
abbrev cells : Dict (Cell ℕ)
cells =
    (codes "put_ratio", number_cell 3)
    ∷ (codes "scenario", text_cell (codes "steady"))
    ∷ (codes "get_ratio", number_cell 5)
    ∷ (codes "run_id", text_cell (codes "r1"))
    ∷ (codes "window_start_ns", whole_cell 20)
    ∷ (codes "is_attack", whole_cell 1)
    ∷ []

abbrev one_window : FeatureRow ℕ
one_window = record {
  features = (codes "put_ratio", 3) ∷ [];
  run_id = codes "r1";
  scenario = codes "steady";
  is_attack = 1;
  window_start_ns = 20;
}

cells-Holds : Holds (codes "put_ratio" ∷ []) cells one_window
unfolding lookup text_eq
cells-Holds = record {
  run_id = refl;
  scenario = refl;
  is_attack = refl;
  start = refl;
  numbers = (refl, tt);
  names = refl;
}

-- A number stands for the code point of its only character here.
abbrev one_character : ℕ → Text
one_character n = n ∷ []

abbrev first_code : Text → Result ℕ
first_code [] = err value_error
first_code (c ∷ cs) = ok c

read_feature_csv-write_csv_example :
    (table : Table) × (write_csv one_character one_character (cells ∷ []) (codes "put_ratio" ∷ [])
      ≡ ok table)
    × (read_feature_csv first_code first_code table (codes "put_ratio" ∷ []) ≡ ok (one_window ∷ []))
read_feature_csv-write_csv_example =
    read_feature_csv-write_csv one_character one_character first_code first_code
      (codes "put_ratio" ∷ []) (λ x. refl) (λ n. refl) (cells ∷ []) (one_window ∷ [])
      (cells-Holds, tt)
