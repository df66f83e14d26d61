-- ===== src/Features/Counted.antt =====
-- Which rows `aggregate_events` returns.
use teecam.Prelude.{
  ℕ, ◌+◌, ◌*◌, ◌≤◌, ◌≡◌, refl, sym, ap, ◌∙◌, inl, inr, arith, Bool, true, false, ◌&&◌, ◌==◌, leb,
  if◌then◌else◌, Bool-cases, Option, none, some, List, [], ◌∷◌, length, filter, any, count_if, sort,
  count_if-sort, length-sort, Text, text_eq, text_eq_iff, ok, Result-cases, ok-injective,
  List-cases, Floats,
}
use teecam.Features.Events.{Event, is_request, is_resource}
use teecam.Features.Buckets.{Bucket, has_key, first_requests, fill_buckets}
use teecam.Features.Rows.{
  Row, row_with, appended, measured, row_of_requests, row_of, rows_of, key_le, time_of,
  aggregate_events,
}
use teecam.Features.Described.{counts_for, any_request-belongs}
use teecam.Features.Windows.{events_at, Keyed, events_at-fill_buckets, fill_buckets-Keyed}

filter-eq-nil : {A : Type 0} (p : A → Bool) (xs : List A) → any p xs ≡ false → filter p xs ≡ []
unfolding any filter
filter-eq-nil p [] h = refl
filter-eq-nil p (x ∷ xs) h = ground (arith, filter-eq-nil p xs)

length-filter :
    {A : Type 0} (p : A → Bool) (xs : List A) → any p xs ≡ true → 1 ≤ length (filter p xs)
unfolding any filter
length-filter p [] h = absurd (cc h)
length-filter p (x ∷ xs) h = ground (arith, length-filter p xs)

module _ {Number : Type 0} where
  -- A row's run and window.
  unfoldable pub is_row : Text → ℕ → Row Number → Bool
  is_row run start row = text_eq row.run_id run && row.window_start_ns == start

  -- A bucket that makes a row.
  abbrev makes_row : Text → ℕ → Bucket Number → Bool
  makes_row run start bucket = has_key run start bucket && any is_request bucket.events

  none_makes_row :
      (run : Text) (start : ℕ) (bs : List (Bucket Number))
      → count_if (has_key run start) bs ≡ 0
      → count_if (makes_row run start) bs ≡ 0
  unfolding count_if
  none_makes_row run start [] h = refl
  none_makes_row run start (b ∷ bs) h = ground (arith, none_makes_row run start bs)

  same_key :
      (run : Text) (start : ℕ) (b : Bucket Number) (bs : List (Bucket Number))
      → has_key run start b ≡ true
      → count_if (has_key b.run_id b.start) bs ≡ 0
      → count_if (has_key run start) bs ≡ 0
  unfolding has_key
  same_key run start b bs y h =
      let r : b.run_id ≡ run = ground (arith, text_eq_iff b.run_id run) in
      let s : b.start ≡ start = ground arith in rw (r, s) at h

  count_if-makes_row :
      (run : Text) (start : ℕ) (bs : List (Bucket Number))
      → Keyed bs
      → count_if (makes_row run start) bs
        ≡ (if any is_request (events_at run start bs) then 1 else 0)
  unfolding count_if any
  count_if-makes_row run start [] h = refl
  count_if-makes_row run start (b ∷ bs) h = elim (Bool-cases (has_key run start b)) [
    | inr n ↦ rw (count_if, n) (omega (arith, count_if-makes_row run start bs h.2))
    | inl y ↦
        let rest = none_makes_row run start bs (same_key run start b bs y h.0) in
        rw (count_if, y) (ground (arith, rest))
  ]

module _ {Number : Type 0} (floats : Floats Number) (window_seconds : ℕ) where
  row_of_requests-key :
      (b : Bucket Number) (resources : List (Event Number)) (first : Event Number)
      (rest : List (Event Number)) {row : Row Number}
      → row_of_requests floats window_seconds b resources first rest ≡ ok row
      → (row.run_id ≡ b.run_id) × (row.window_start_ns ≡ b.start)
  unfolding row_of_requests row_with
  row_of_requests-key b resources first rest {row} e =
      elim (Result-cases (measured floats (first ∷ rest) resources)) [
        | inr (raised, f) ↦ absurd (let w = rw (row_of_requests, f) at e in cc w)
        | inl (m, f) ↦
            let same : row_with floats window_seconds b first rest m ≡ row =
              ok-injective (rw (row_of_requests, f) at e) in
            (
              sym (ap (λ (r : Row Number). r.run_id) same),
              sym (ap (λ (r : Row Number). r.window_start_ns) same),
            )
      ]

  -- Whether the outcome of a bucket is a row of that run and window.
  abbrev outcome_is : Text → ℕ → Option (Row Number) → Bool
  outcome_is run start none = false
  outcome_is run start (some row) = is_row run start row

  row_of-key :
      (run : Text) (start : ℕ) (b : Bucket Number) {o : Option (Row Number)}
      → row_of floats window_seconds b ≡ ok o
      → outcome_is run start o ≡ makes_row run start b
  unfolding row_of is_row has_key
  row_of-key run start b {o} e =
      let le = λ (x : Event Number) (y : Event Number). leb (time_of floats x) (time_of floats y) in
      let asked = filter is_request b.events in
      let size = length-sort le asked in
      elim (List-cases (sort le asked)) [
        | inl x ↦
            let same : none ≡ o = ok-injective (rw (row_of, x) at e) in
            let empty : any is_request b.events ≡ false =
              (elim (Bool-cases (any is_request b.events)) [
                | inr n ↦ n
                | inl y ↦
                    absurd (omega (arith, size, ap length x, length-filter is_request b.events y))
              ]) in
            rw (← same, empty) (ground arith)
        | inr (first, rest, x) ↦
            let full : any is_request b.events ≡ true =
              (elim (Bool-cases (any is_request b.events)) [
                | inl y ↦ y
                | inr n ↦ absurd (
                    omega
                      (arith, size, ap length x, ap length (filter-eq-nil is_request b.events n)))
              ]) in
            elim (Result-cases
              (row_of_requests floats window_seconds b (filter is_resource b.events) first rest)) [
                | inr (raised, f) ↦ absurd (let w = rw (row_of, x, f) at e in cc w)
                | inl (row, f) ↦
                    let same : some row ≡ o = ok-injective (rw (row_of, x, f) at e) in
                    let key = row_of_requests-key b (filter is_resource b.events) first rest f in
                    rw (← same, full) (ground (arith, ap (λ t. text_eq t run) key.0, key.1))
              ]
      ]

  count_if-appended :
      (run : Text) (start : ℕ) (o : Option (Row Number)) (rest : List (Row Number))
      → count_if (is_row run start) (appended floats o rest)
        ≡ (if outcome_is run start o then 1 else 0) + count_if (is_row run start) rest
  unfolding count_if
  count_if-appended run start none rest = omega arith
  count_if-appended run start (some row) rest = refl

  rows_of-count :
      (run : Text) (start : ℕ) (bs : List (Bucket Number)) {rows : List (Row Number)}
      → rows_of floats window_seconds bs ≡ ok rows
      → count_if (is_row run start) rows ≡ count_if (makes_row run start) bs
  unfolding rows_of count_if
  rows_of-count run start [] {rows} e = let same : [] ≡ rows = ok-injective e in rw (← same) refl
  rows_of-count run start (b ∷ bs) {rows} e = elim (Result-cases (row_of floats window_seconds b)) [
    | inr (raised, f) ↦ absurd (let w = rw (rows_of, f) at e in cc w)
    | inl (o, f) ↦ elim (Result-cases (rows_of floats window_seconds bs)) [
      | inr (raised, g) ↦ absurd (let w = rw (rows_of, f, g) at e in cc w)
      | inl (rest, g) ↦
          let same : appended floats o rest ≡ rows = ok-injective (rw (rows_of, f, g) at e) in
          let here = row_of-key run start b f in
          rw (← same) (
            omega (
              arith,
              count_if-appended run start o rest,
              ap {B = ℕ} (λ (p : Bool). if p then 1 else 0) here,
              rows_of-count run start bs g,
            ))
    ]
  ]

-- If `aggregate_events` returns rows, there is exactly one row for a run and a start if the start is a
-- multiple of the window and the run has a request in the window from there that comes the warm-up or
-- more after some request of the run, and there is none otherwise.
pub aggregate_events-rows :
    {Number : Type 0} (floats : Floats Number) (events : List (Event Number))
    (window_seconds warmup_seconds : ℕ) {rows : List (Row Number)}
    → aggregate_events floats events window_seconds warmup_seconds ≡ ok rows
    → (run : Text) (start : ℕ)
    → count_if (is_row run start) rows ≡ (
        if any
          (counts_for events (window_seconds * 1000000000) (warmup_seconds * 1000000000) run start)
          events
        then 1
        else 0)
unfolding aggregate_events
aggregate_events-rows {Number} floats events window_seconds warmup_seconds {rows} e run start =
    let window_ns = window_seconds * 1000000000 in
    let warmup_ns = warmup_seconds * 1000000000 in
    elim (Bool-cases (window_seconds == 0)) [
      | inl y ↦ absurd (let w = rw (aggregate_events, y) at e in cc w)
      | inr n ↦ elim (Result-cases (first_requests events [])) [
        | inr (raised, f) ↦ absurd (let w = rw (aggregate_events, n, f) at e in cc w)
        | inl (first, f) ↦ elim (Result-cases (fill_buckets first window_ns warmup_ns events [])) [
          | inr (raised, g) ↦ absurd (let w = rw (aggregate_events, n, f, g) at e in cc w)
          | inl (buckets, g) ↦
              let made = rw (aggregate_events, n, f, g) at e in
              rows_of-count floats window_seconds run start (sort (key_le floats) buckets) made
              ∙ count_if-sort (key_le floats) (makes_row run start) buckets
              ∙ count_if-makes_row run start buckets
                  (fill_buckets-Keyed first window_ns warmup_ns events [] g tt)
              ∙ ap {B = ℕ} (λ (es : List (Event Number)). if any is_request es then 1 else 0)
                  (events_at-fill_buckets first window_ns warmup_ns run start events [] g)
              ∙ ap {B = ℕ} (λ (b : Bool). if b then 1 else 0)
                  (any_request-belongs events window_ns warmup_ns (ground arith) f run start)
        ]
      ]
    ]
