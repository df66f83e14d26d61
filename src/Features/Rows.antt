-- ===== src/Features/Rows.antt =====
-- `aggregate_events` of cote3mon/features.py, from the buckets to the rows.
use teecam.Prelude.{
  ℕ, ◌+◌, ◌-◌, ◌*◌, Bool, false, not, ◌&&◌, ltb, leb, ◌==◌, if◌then◌else◌, Option, none, some, List,
  [], ◌∷◌, map, length, filter, count_if, sort, distinct, Text, codes, text_eq, text_le, Result, ok,
  value_error, ◌>>=◌, ◌>>◌, raise_if, Floats, maximum,
}
use teecam.Features.Percentile.{percentile}
use teecam.Features.Events.{Event, get_value, is_request, is_resource}
use teecam.Features.Buckets.{Bucket, first_requests, fill_buckets}

pub record Row (Number : Type 0) : Type 0 where
  pub run_id : Text
  pub scenario : Text
  pub is_attack : Bool
  pub window_start_ns : ℕ
  pub request_rate : Number
  pub put_ratio : Number
  pub get_ratio : Number
  pub delete_ratio : Number
  pub reject_ratio : Number
  pub error_ratio : Number
  pub latency_mean_us : Number
  pub latency_p95_us : Number
  pub input_mean_bytes : Number
  pub input_max_bytes : Number
  pub cpu_percent_mean : Number
  pub rss_kb_mean : Number
  pub key_reuse_ratio : Number
  pub request_reuse_ratio : Number
  pub operation_transition_ratio : Number
  pub idle_mean_us : Number
  pub idle_p95_us : Number
  pub idle_cv : Number

-- The local lists of a round, and the two percentiles.
pub record Measured (Number : Type 0) : Type 0 where
  pub latencies : List Number
  pub sizes : List Number
  pub idle : List Number
  pub latency_p95 : Number
  pub cpu : List Number
  pub rss : List Number
  pub idle_p95 : Number

-- `[str(event[key]) for event in requests if event.get(key)]`, over the values of the key
unfoldable pub present : List (Option Text) → List Text
present [] = []
present (none ∷ values) = present values
present (some [] ∷ values) = present values
present (some (c ∷ cs) ∷ values) = (c ∷ cs) ∷ present values

-- `sum(left != right for left, right in zip(operations, operations[1:]))`
unfoldable pub transitions : List Text → ℕ
transitions [] = 0
transitions (left ∷ []) = 0
transitions (left ∷ right ∷ rest) =
    (if text_eq left right then 0 else 1) + transitions (right ∷ rest)

-- `values.count(word)`
unfoldable pub occurrences_of : Text → List Text → ℕ
occurrences_of word = count_if (λ value. text_eq value word)

module _ {Number : Type 0} (floats : Floats Number) where
  open floats use {ratio, sub, mul, div, lt, round, fmean, pstdev, upper}

  -- `requests.sort(key=lambda event: int(event["ts_unix_ns"]))`; every event in a bucket has a time
  unfoldable pub time_of : Event Number → ℕ
  time_of event = get_value 0 event.ts_unix_ns

  -- `float(event.get(key, 0.0))`, over the value of the key
  abbrev pub number_or_zero : Option (Result Number) → Result Number
  number_or_zero = get_value (ok (ratio 0 1))

  -- `[float(event.get(key, 0.0)) for event in events]`
  unfoldable pub numbers_at :
      (Event Number → Option (Result Number)) → List (Event Number) → Result (List Number)
  numbers_at key [] = ok []
  numbers_at key (event ∷ events) = do
    number ← number_or_zero (key event)
    numbers ← numbers_at key events
    ok (number ∷ numbers)

  -- The loop over `zip(requests, requests[1:])`: a gap below zero counts as zero.
  unfoldable pub idle_values : List (Event Number) → Result (List Number)
  unfolding time_of
  idle_values [] = ok []
  idle_values (previous ∷ []) = ok []
  idle_values (previous ∷ current ∷ rest) = do
    latency ← number_or_zero current.latency_us
    (plus, minus) ← round (mul latency (ratio 1000 1))
    values ← idle_values (current ∷ rest)
    ok (ratio (time_of current + minus - plus - time_of previous) 1000 ∷ values)

  -- `1.0 - len(set(values)) / len(values) if values else 0.0`
  unfoldable pub reuse_ratio : List Text → Number
  unfolding distinct
  reuse_ratio [] = ratio 0 1
  reuse_ratio (value ∷ values) =
      sub (ratio 1 1) (ratio (length (distinct (value ∷ values))) (length (value ∷ values)))

  -- `fmean(values) if values else 0.0`
  unfoldable pub mean_or_zero : List Number → Number
  mean_or_zero [] = ratio 0 1
  mean_or_zero (value ∷ values) = fmean (value ∷ values)

  unfoldable pub transition_ratio : List Text → Number
  unfolding transitions
  transition_ratio operations =
      if ltb 1 (length operations)
      then ratio (transitions operations) (length operations - 1)
      else ratio 0 1

  -- "idle_cv"
  unfoldable pub variation : List Number → Number → Number
  variation values mean =
      if ltb 1 (length values) && lt (ratio 0 1) mean then div (pstdev values) mean else ratio 0 1

  -- `max(values)` of a list that is not empty
  abbrev pub maximum_of : List Number → Number
  maximum_of [] = ratio 0 1
  maximum_of (value ∷ values) = maximum floats value values

  -- The lists of numbers of a bucket, in the order in which the code makes them.
  unfoldable pub measured : List (Event Number) → List (Event Number) → Result (Measured Number)
  unfolding numbers_at idle_values percentile
  measured requests resources = do
    latencies ← numbers_at (λ event. event.latency_us) requests
    sizes ← numbers_at (λ event. event.input_bytes) requests
    idle ← idle_values requests
    latency_p95 ← percentile floats latencies (ratio 95 100)
    cpu ← numbers_at (λ event. event.cpu_percent) resources
    rss ← numbers_at (λ event. event.rss_kb) resources
    idle_p95 ← percentile floats idle (ratio 95 100)
    ok (record {
      latencies = latencies;
      sizes = sizes;
      idle = idle;
      latency_p95 = latency_p95;
      cpu = cpu;
      rss = rss;
      idle_p95 = idle_p95;
    })

  -- The row of a bucket with the requests `first ∷ rest` in the order of time.
  unfoldable pub row_with :
      ℕ → Bucket Number → Event Number → List (Event Number) → Measured Number → Row Number
  unfolding present occurrences_of reuse_ratio mean_or_zero transition_ratio variation
  row_with window_seconds bucket first rest m =
      let requests = first ∷ rest in
      let count = length requests in
      let operations =
        map (λ event. upper (get_value (codes "UNKNOWN") event.operation)) requests in
      let statuses =
        map (λ event. upper (get_value (codes "BACKEND_ERROR") event.result)) requests in
      record {
        run_id = bucket.run_id;
        scenario = get_value (codes "unknown") first.scenario;
        is_attack = get_value false first.is_attack;
        window_start_ns = bucket.start;
        request_rate = ratio count window_seconds;
        put_ratio = ratio (occurrences_of (codes "PUT") operations) count;
        get_ratio = ratio (occurrences_of (codes "GET") operations) count;
        delete_ratio = ratio (occurrences_of (codes "DELETE") operations) count;
        reject_ratio = ratio (occurrences_of (codes "REJECT") operations) count;
        error_ratio = ratio (count_if (λ status. not (text_eq status (codes "OK"))) statuses) count;
        latency_mean_us = fmean m.latencies;
        latency_p95_us = m.latency_p95;
        input_mean_bytes = fmean m.sizes;
        input_max_bytes = maximum_of m.sizes;
        cpu_percent_mean = mean_or_zero m.cpu;
        rss_kb_mean = mean_or_zero m.rss;
        key_reuse_ratio = reuse_ratio (present (map (λ event. event.key_fingerprint) requests));
        request_reuse_ratio =
            reuse_ratio (present (map (λ event. event.request_fingerprint) requests));
        operation_transition_ratio = transition_ratio operations;
        idle_mean_us = mean_or_zero m.idle;
        idle_p95_us = m.idle_p95;
        idle_cv = variation m.idle (mean_or_zero m.idle);
      }

  unfoldable pub row_of_requests :
      ℕ
      → Bucket Number
      → List (Event Number)
      → Event Number
      → List (Event Number)
      → Result (Row Number)
  unfolding row_with measured
  row_of_requests window_seconds bucket resources first rest = do
    m ← measured (first ∷ rest) resources
    ok (row_with window_seconds bucket first rest m)

  -- One round of the loop: nothing for a bucket without requests.
  unfoldable pub row_of : ℕ → Bucket Number → Result (Option (Row Number))
  unfolding row_of_requests is_request is_resource sort time_of filter
  row_of window_seconds bucket =
      let resources = filter is_resource bucket.events in
      elim (sort (λ a b. leb (time_of a) (time_of b)) (filter is_request bucket.events)) [
        | [] ↦ ok none
        | first ∷ rest ↦
            row_of_requests window_seconds bucket resources first rest >>= λ row. ok (some row)
      ]

  -- `rows.append(row)`, or `continue`
  abbrev pub appended : Option (Row Number) → List (Row Number) → List (Row Number)
  appended none rows = rows
  appended (some row) rows = row ∷ rows

  -- The loop over the buckets
  unfoldable pub rows_of : ℕ → List (Bucket Number) → Result (List (Row Number))
  unfolding row_of
  rows_of window_seconds [] = ok []
  rows_of window_seconds (bucket ∷ buckets) = do
    row ← row_of window_seconds bucket
    rest ← rows_of window_seconds buckets
    ok (appended row rest)

  -- The order of the keys in `sorted(buckets.items())`; no two keys are equal
  unfoldable pub key_le : Bucket Number → Bucket Number → Bool
  key_le a b = if text_eq a.run_id b.run_id then leb a.start b.start else text_le a.run_id b.run_id

  -- `aggregate_events`; a negative number of seconds, which is refused, is no number here
  unfoldable pub aggregate_events : List (Event Number) → ℕ → ℕ → Result (List (Row Number))
  unfolding first_requests fill_buckets rows_of key_le sort
  aggregate_events events window_seconds warmup_seconds = do
    raise_if (window_seconds == 0) value_error
    first ← first_requests events []
    buckets ←
        fill_buckets first (window_seconds * 1000000000) (warmup_seconds * 1000000000) events []
    rows_of window_seconds (sort key_le buckets)
