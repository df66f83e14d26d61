-- ===== src/Features/Returns.antt =====
-- Where `percentile` and `aggregate_events` raise no exception.
use teecam.Prelude.{
  ℕ, zero, suc, ◌+◌, ◌-◌, ◌*◌, ◌≤◌, ◌<◌, ◌≡◌, refl, inl, inr, arith, false, ◌==◌, leb,
  if◌then◌else◌, Bool-cases, Option, none, some, List, [], ◌∷◌, length, filter, All, All-weaken,
  All-append, All-filter, All-sort, Result, Text, sort, length-sort, min, Dict, lookup, insert, ok,
  List-cases, Floats, of_nat,
}
use teecam.Features.Percentile.{element, interpolate, percentile}
use teecam.Features.Events.{Event, is_request, is_resource, run_of, timestamp, get_value}
use teecam.Features.Buckets.{
  Bucket, has_key, first_requests, fill_buckets, add_event, in_warmup, start_of,
}
use teecam.Features.Rows.{
  Row, row_with, Measured, measured, number_or_zero, numbers_at, idle_values, row_of_requests,
  row_of, rows_of, appended, key_le, time_of, aggregate_events,
}

pub element-lt :
    {A : Type 0} (xs : List A) (i : ℕ) → i < length xs → (a : A) × (element xs i ≡ ok a)
unfolding element
element-lt [] i h = absurd (omega arith)
element-lt (x ∷ xs) zero h = (x, refl)
element-lt (x ∷ xs) (suc i) h = element-lt xs i (omega arith)

module _ {Number : Type 0} (floats : Floats Number) where
  -- The product of a whole number and the probability is rounded to numbers up to the first.
  pub record IsProbability (probability : Number) : Type 0 where
    pub floor_le : (n : ℕ) → floats.floor (floats.mul (of_nat floats n) probability) ≤ n
    pub ceil_le : (n : ℕ) → floats.ceil (floats.mul (of_nat floats n) probability) ≤ n

  interpolate-returns :
      (ordered : List Number) (probability : Number)
      → IsProbability probability
      → 1 ≤ length ordered
      → (v : Number) × (interpolate floats ordered probability ≡ ok v)
  unfolding interpolate
  interpolate-returns ordered probability h n =
      let last = length ordered - 1 in
      let position = floats.mul (of_nat floats last) probability in
      let low = element-lt ordered (floats.floor position) (omega (arith, n, h.floor_le last)) in
      let high = element-lt ordered (floats.ceil position) (omega (arith, n, h.ceil_le last)) in
      let weight = floats.sub position (of_nat floats (floats.floor position)) in
      (
        if floats.floor position == floats.ceil position
            then low.0
            else floats.add (floats.mul low.0 (floats.sub (floats.ratio 1 1) weight))
                (floats.mul high.0 weight),
        rw (interpolate, low.1, high.1) refl,
      )

  pub percentile-returns :
      (values : List Number) (probability : Number)
      → IsProbability probability
      → (v : Number) × (percentile floats values probability ≡ ok v)
  unfolding percentile
  percentile-returns [] probability h = (floats.ratio 0 1, refl)
  percentile-returns (value ∷ []) probability h = (value, refl)
  percentile-returns (value ∷ other ∷ values) probability h =
      interpolate-returns (sort floats.le (value ∷ other ∷ values)) probability h
        (omega (arith, length-sort floats.le (value ∷ other ∷ values)))

  -- An event that is read with no exception: it has a time, and each of its numbers is missing or one
  -- that `float` takes; 1000 times the latency is no NaN and no infinity.
  pub record IsReadable (event : Event Number) : Type 0 where
    pub time : (t : ℕ) × (timestamp event ≡ ok t)
    pub latency :
        (x : Number) × (number_or_zero floats event.latency_us ≡ ok x)
        × ((n : ℕ × ℕ) × (floats.round (floats.mul x (floats.ratio 1000 1)) ≡ ok n))
    pub size : (x : Number) × (number_or_zero floats event.input_bytes ≡ ok x)
    pub cpu : (x : Number) × (number_or_zero floats event.cpu_percent ≡ ok x)
    pub rss : (x : Number) × (number_or_zero floats event.rss_kb ≡ ok x)

  numbers_at-returns :
      (key : Event Number → Option (Result Number)) (events : List (Event Number))
      → All (λ event. (x : Number) × (number_or_zero floats (key event) ≡ ok x)) events
      → (xs : List Number) × (numbers_at floats key events ≡ ok xs)
  unfolding numbers_at
  numbers_at-returns key [] h = ([], refl)
  numbers_at-returns key (event ∷ events) ((x, e), h) =
      let (xs, f) = numbers_at-returns key events h in (x ∷ xs, rw (numbers_at, e, f) refl)

  idle_values-returns :
      (events : List (Event Number))
      → All IsReadable events
      → (xs : List Number) × (idle_values floats events ≡ ok xs)
  unfolding idle_values
  idle_values-returns [] h = ([], refl)
  idle_values-returns (event ∷ []) h = ([], refl)
  idle_values-returns (previous ∷ current ∷ rest) h =
      let (x, e, (n, f)) = h.1.0.latency in
      let (xs, g) = idle_values-returns (current ∷ rest) h.1 in
      (
        floats.ratio (time_of floats current + n.1 - n.0 - time_of floats previous) 1000 ∷ xs,
        rw (idle_values, e, f, g) refl,
      )

  module _ (h : IsProbability (floats.ratio 95 100)) (window_seconds : ℕ) where
    measured-returns :
        (requests resources : List (Event Number))
        → All IsReadable requests
        → All IsReadable resources
        → (m : Measured Number) × (measured floats requests resources ≡ ok m)
    unfolding measured
    measured-returns requests resources asked sampled =
        let (latencies, a) =
          numbers_at-returns (λ event. event.latency_us) requests
            (All-weaken (λ event r. (r.latency.0, r.latency.1)) requests asked) in
        let (sizes, b) =
          numbers_at-returns (λ event. event.input_bytes) requests
            (All-weaken (λ event r. r.size) requests asked) in
        let (idle, c) = idle_values-returns requests asked in
        let (latency_p95, d) = percentile-returns latencies (floats.ratio 95 100) h in
        let (cpu, e) =
          numbers_at-returns (λ event. event.cpu_percent) resources
            (All-weaken (λ event r. r.cpu) resources sampled) in
        let (rss, f) =
          numbers_at-returns (λ event. event.rss_kb) resources
            (All-weaken (λ event r. r.rss) resources sampled) in
        let (idle_p95, g) = percentile-returns idle (floats.ratio 95 100) h in
        (
          record {
            latencies = latencies;
            sizes = sizes;
            idle = idle;
            latency_p95 = latency_p95;
            cpu = cpu;
            rss = rss;
            idle_p95 = idle_p95;
          },
          rw (measured, a, b, c, d, e, f, g) refl,
        )

    row_of_requests-returns :
        (bucket : Bucket Number) (resources : List (Event Number)) (first : Event Number)
        (rest : List (Event Number))
        → All IsReadable (first ∷ rest)
        → All IsReadable resources
        → (row : Row Number) × (row_of_requests floats window_seconds bucket resources first rest
            ≡ ok row)
    unfolding row_of_requests
    row_of_requests-returns bucket resources first rest asked sampled =
        let (m, e) = measured-returns (first ∷ rest) resources asked sampled in
        (row_with floats window_seconds bucket first rest m, rw (row_of_requests, e) refl)

    row_of-returns :
        (bucket : Bucket Number)
        → All IsReadable bucket.events
        → (o : Option (Row Number)) × (row_of floats window_seconds bucket ≡ ok o)
    unfolding row_of
    row_of-returns bucket all =
        let le =
          λ (x : Event Number) (y : Event Number). leb (time_of floats x) (time_of floats y) in
        let resources = filter is_resource bucket.events in
        let asked =
          All-sort le IsReadable (filter is_request bucket.events)
            (All-filter IsReadable is_request bucket.events all) in
        elim (List-cases (sort le (filter is_request bucket.events))) [
          | inl x ↦ (none, rw (row_of, x) refl)
          | inr (first, rest, x) ↦
              let row =
                row_of_requests-returns bucket resources first rest (rw x at asked)
                  (All-filter IsReadable is_resource bucket.events all) in
              (some row.0, rw (row_of, x, row.1) refl)
        ]

    rows_of-returns :
        (buckets : List (Bucket Number))
        → All (λ bucket. All IsReadable bucket.events) buckets
        → (rows : List (Row Number)) × (rows_of floats window_seconds buckets ≡ ok rows)
    unfolding rows_of
    rows_of-returns [] all = ([], refl)
    rows_of-returns (bucket ∷ buckets) all =
        let row = row_of-returns bucket all.0 in
        let rest = rows_of-returns buckets all.1 in
        (appended floats row.0 rest.0, rw (rows_of, row.1, rest.1) refl)

module _ {Number : Type 0} (floats : Floats Number) where
  abbrev pub AllReadable : List (Event Number) → Type 0
  AllReadable = All (IsReadable floats)

  first_requests-returns :
      (events : List (Event Number)) (first : Dict ℕ)
      → AllReadable events
      → (out : Dict ℕ) × (first_requests events first ≡ ok out)
  unfolding first_requests
  first_requests-returns [] first h = (first, refl)
  first_requests-returns (event ∷ events) first h = elim (Bool-cases (is_request event)) [
    | inr n ↦
        let rest = first_requests-returns events first h.1 in
        (rest.0, rw (first_requests, n) (rest.1))
    | inl y ↦
        let (t, e) = h.0.time in
        let rest =
          first_requests-returns events
            (insert (run_of event) (min (get_value t (lookup (run_of event) first)) t) first) h.1 in
        (rest.0, rw (first_requests, y, e) (rest.1))
  ]

  add_event-AllReadable :
      (run : Text) (start : ℕ) (event : Event Number) (buckets : List (Bucket Number))
      → IsReadable floats event
      → All (λ bucket. AllReadable bucket.events) buckets
      → All (λ bucket. AllReadable bucket.events) (add_event run start event buckets)
  unfolding add_event
  add_event-AllReadable run start event [] r h = ((r, tt), tt)
  add_event-AllReadable run start event (bucket ∷ buckets) r h =
      elim (Bool-cases (has_key run start bucket)) [
        | inl y ↦
            rw (add_event, y)
              (All-append (IsReadable floats) bucket.events (event ∷ []) h.0 (r, tt), h.1)
        | inr n ↦ rw (add_event, n) (h.0, add_event-AllReadable run start event buckets r h.1)
      ]

  fill_buckets-returns :
      (first : Dict ℕ) (window_ns warmup_ns : ℕ) (events : List (Event Number))
      (buckets : List (Bucket Number))
      → AllReadable events
      → All (λ bucket. AllReadable bucket.events) buckets
      → (out : List (Bucket Number)) × (fill_buckets first window_ns warmup_ns events buckets
          ≡ ok out)
        × All (λ bucket. AllReadable bucket.events) out
  unfolding fill_buckets
  fill_buckets-returns first window_ns warmup_ns [] buckets h all = (buckets, refl, all)
  fill_buckets-returns first window_ns warmup_ns (event ∷ events) buckets h all =
      let (t, e) = h.0.time in
      let run = run_of event in
      elim (Bool-cases (in_warmup first warmup_ns run t)) [
        | inl y ↦
            let (out, f, rest) =
              fill_buckets-returns first window_ns warmup_ns events buckets h.1 all in
            (out, rw (fill_buckets, e, y) f, rest)
        | inr n ↦
            let start = start_of window_ns t in
            let (out, f, rest) =
              fill_buckets-returns first window_ns warmup_ns events
                (add_event run start event buckets) h.1
                (add_event-AllReadable run start event buckets h.0 all) in
            (out, rw (fill_buckets, e, n) f, rest)
      ]

pub aggregate_events-returns :
    {Number : Type 0} (floats : Floats Number) (events : List (Event Number))
    (window_seconds warmup_seconds : ℕ)
    → 1 ≤ window_seconds
    → AllReadable floats events
    → IsProbability floats (floats.ratio 95 100)
    → (rows : List (Row Number)) × (aggregate_events floats events window_seconds warmup_seconds
        ≡ ok rows)
unfolding aggregate_events
aggregate_events-returns floats events window_seconds warmup_seconds n readable h =
    let some_seconds : (window_seconds == 0) ≡ false = ground arith in
    let (first, e) = first_requests-returns floats events [] readable in
    let (buckets, f, all) =
      fill_buckets-returns floats first (window_seconds * 1000000000) (warmup_seconds * 1000000000)
        events [] readable tt in
    let (rows, g) =
      rows_of-returns floats h window_seconds (sort (key_le floats) buckets)
        (All-sort (key_le floats) (λ bucket. AllReadable floats bucket.events) buckets all) in
    (rows, rw (aggregate_events, some_seconds, e, f) g)
