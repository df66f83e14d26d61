-- ===== src/Online/Traced.antt =====
-- What the online monitor has aggregated for each window that it has scored.
use mathlib.Core.List.{append_assoc, append-nil}
use teecam.Prelude.{
  ℕ, ◌+◌, ◌-◌, ◌%◌, ◌≤◌, ◌≡◌, refl, sym, ap, ◌∙◌, inl, inr, arith, Bool, ◌==◌, leb, if◌then◌else◌,
  Bool-cases, List, [], ◌∷◌, ◌++◌, map, filter, length, length-append, All, All-append, All-weaken,
  All-filter, All-sort, ok, Result-cases, ok-injective,
}
use teecam.Features.Events.{Event}
use teecam.Features.Rows.{Row, aggregate_events}
use teecam.Online.State.{Online, add_at, events_in, take_event, is_early, seen}
use teecam.Online.Scoring.{Setting, score_window, score_windows, is_ready, ready_of, score_ready}
use teecam.Online.Once.{scorings, score_window-adds}

module _ {Number : Type 0} where
  abbrev pub scorings_of : List (ℕ × List (Row Number)) → ℕ
  scorings_of [] = 0
  scorings_of ((start, rows) ∷ windows) = scorings rows + scorings_of windows

  scorings_of-append :
      (windows others : List (ℕ × List (Row Number)))
      → scorings_of (windows ++ others) ≡ scorings_of windows + scorings_of others
  scorings_of-append [] others = omega arith
  scorings_of-append ((start, rows) ∷ windows) others =
      omega (arith, scorings_of-append windows others)

  map-append :
      (windows others : List (ℕ × List (Row Number)))
      → map (λ window. window.0) (windows ++ others)
        ≡ map (λ window. window.0) windows ++ map (λ window. window.0) others
  map-append [] others = refl
  map-append (window ∷ windows) others =
      ap (λ (starts : List ℕ). window.0 ∷ starts) (map-append windows others)

  -- No bucket is empty.
  abbrev IsFull : List (ℕ × List (Event Number)) → Type 0
  IsFull = All (λ bucket. 1 ≤ length bucket.1)

  add_at-IsFull :
      (start : ℕ) (event : Event Number) (buckets : List (ℕ × List (Event Number)))
      → IsFull buckets
      → IsFull (add_at start event buckets)
  unfolding add_at
  add_at-IsFull start event [] h = (omega arith, tt)
  add_at-IsFull start event ((key, events) ∷ buckets) h = elim (Bool-cases (key == start)) [
    | inl y ↦ rw y (omega (arith, length-append events (event ∷ [])), h.1)
    | inr n ↦ rw n (h.0, add_at-IsFull start event buckets h.1)
  ]

  events_in-add_at :
      (s start : ℕ) (event : Event Number) (buckets : List (ℕ × List (Event Number)))
      → events_in s (add_at start event buckets)
        ≡ (if start == s then events_in s buckets ++ (event ∷ []) else events_in s buckets)
  unfolding add_at events_in
  events_in-add_at s start event [] = refl
  events_in-add_at s start event ((key, events) ∷ buckets) =
      ground (arith, events_in-add_at s start event buckets)

  starts-IsFull :
      (buckets : List (ℕ × List (Event Number)))
      → IsFull buckets
      → All (λ start. 1 ≤ length (events_in start buckets)) (map (λ bucket. bucket.0) buckets)
  unfolding events_in
  starts-IsFull [] h = tt
  starts-IsFull ((key, events) ∷ buckets) h = (
    let same : (key == key) ≡ Bool.true = ground arith in rw same h.0,
    All-weaken
        (λ (start : ℕ) more. elim (Bool-cases (key == start)) [
          | inl y ↦ rw y h.0
          | inr n ↦ rw n more
        ])
        (map (λ (bucket : ℕ × List (Event Number)). bucket.0) buckets) (starts-IsFull buckets h.1),
  )

module _ {Number Store : Type 0} (setting : Setting Number Store) where
  -- The rows of a window are those that `aggregate_events` returns for the first events of its bucket,
  -- one at least; others came later.
  abbrev pub IsAggregated : Online Number Store → ℕ × List (Row Number) → Type 0
  IsAggregated o (start, rows) =
      (events : List (Event Number)) × (late : List (Event Number)) × (events_in start o.buckets
        ≡ events ++ late)
      × (1 ≤ length events)
      × (aggregate_events setting.floats events setting.window_seconds 0 ≡ ok rows)

  -- The windows that were scored are those that were aggregated, each once and from its own events, and
  -- the model was asked once for each that has a row.
  pub record IsTraced (o : Online Number Store) : Type 0 where
    pub full : IsFull o.buckets
    pub windows : map (λ window. window.0) o.aggregated ≡ o.processed
    pub rows : All (IsAggregated o) o.aggregated
    pub asked : length o.inference_latencies ≡ scorings_of o.aggregated

  add_at-IsAggregated :
      (start : ℕ) (event : Event Number) (o : Online Number Store) (window : ℕ × List (Row Number))
      → IsAggregated o window
      → IsAggregated (record o { buckets = add_at start event o.buckets }) window
  add_at-IsAggregated start event o (s, rows) (events, late, e, some_event, made) =
      let more = events_in-add_at s start event o.buckets in
      elim (Bool-cases (start == s)) [
        | inl y ↦ (
          events,
          late ++ (event ∷ []),
          rw y at more
              ∙ ap (λ (es : List (Event Number)). es ++ (event ∷ [])) e
              ∙ append_assoc events late (event ∷ []),
          some_event,
          made,
        )
        | inr n ↦ (events, late, rw n at more ∙ e, some_event, made)
      ]

  pub take_event-IsTraced :
      (window warmup : ℕ) (event : Event Number) (t : ℕ) (o : Online Number Store)
      → IsTraced o
      → IsTraced (take_event window warmup event t o).0
  unfolding take_event
  take_event-IsTraced window warmup event t o h =
      elim (Bool-cases (is_early warmup t (seen event t o.first_request_ns))) [
        | inl y ↦
            rw (take_event, y)
              (record { full = h.full; windows = h.windows; rows = h.rows; asked = h.asked })
        | inr n ↦
            rw (take_event, n)
              (record {
                full = add_at-IsFull (t - t % window) event o.buckets h.full;
                windows = h.windows;
                rows =
                    All-weaken (add_at-IsAggregated (t - t % window) event o) o.aggregated h.rows;
                asked = h.asked;
              })
      ]

  score_window-IsTraced :
      (start : ℕ) (o : Online Number Store) {out : Online Number Store}
      → score_window setting start o ≡ ok out
      → 1 ≤ length (events_in start o.buckets)
      → IsTraced o
      → IsTraced out
  score_window-IsTraced start o {out} e some_event h =
      let (rows, made, buckets, processed, aggregated, asked) =
        score_window-adds setting start o e in
      let here : IsAggregated o (start, rows) = (
        events_in start o.buckets,
        [],
        sym (append-nil (events_in start o.buckets)),
        some_event,
        made,
      ) in
      let all = All-append (IsAggregated o) o.aggregated ((start, rows) ∷ []) h.rows (here, tt) in
      record {
        full = rw buckets h.full;
        windows =
            rw (aggregated, processed)
              (map-append o.aggregated ((start, rows) ∷ [])
                ∙ ap (λ (starts : List ℕ). starts ++ (start ∷ [])) h.windows);
        rows = rw (buckets, aggregated) all;
        asked =
            rw aggregated
              (omega (arith, asked, h.asked, scorings_of-append o.aggregated ((start, rows) ∷ [])));
      }

  score_windows-IsTraced :
      (starts : List ℕ) (o : Online Number Store) {out : Online Number Store}
      → score_windows setting starts o ≡ ok out
      → All (λ start. 1 ≤ length (events_in start o.buckets)) starts
      → IsTraced o
      → IsTraced out
  unfolding score_windows
  score_windows-IsTraced [] o {out} e full h = let same : o ≡ out = ok-injective e in rw (← same) h
  score_windows-IsTraced (start ∷ starts) o {out} e full h =
      elim (Result-cases (score_window setting start o)) [
        | inr (raised, f) ↦ absurd (let w = rw (score_windows, f) at e in cc w)
        | inl (next, f) ↦
            let (_, _, same, _, _, _) = score_window-adds setting start o f in
            score_windows-IsTraced starts next (rw (score_windows, f) at e) (rw same full.1)
              (score_window-IsTraced start o f full.0 h)
      ]

  -- A window with the rows of all the events that its bucket has.
  abbrev pub IsWhole : Online Number Store → ℕ × List (Row Number) → Type 0
  IsWhole o (start, rows) =
      aggregate_events setting.floats (events_in start o.buckets) setting.window_seconds 0 ≡ ok rows

  -- What `score_ready` adds are windows with the rows of all their events.
  pub score_windows-new :
      (starts : List ℕ) (o : Online Number Store) {out : Online Number Store}
      → score_windows setting starts o ≡ ok out
      → (new : List (ℕ × List (Row Number))) × (out.aggregated ≡ o.aggregated ++ new)
        × (out.buckets ≡ o.buckets)
        × (map (λ window. window.0) new ≡ starts)
        × All (IsWhole o) new
  unfolding score_windows
  score_windows-new [] o {out} e =
      let same : o ≡ out = ok-injective e in
      ([], rw (← same) (sym (append-nil o.aggregated)), rw (← same) refl, refl, tt)
  score_windows-new (start ∷ starts) o {out} e =
      elim (Result-cases (score_window setting start o)) [
        | inr (raised, f) ↦ absurd (let w = rw (score_windows, f) at e in cc w)
        | inl (next, f) ↦
            let (rows, made, buckets, _, added, _) = score_window-adds setting start o f in
            let (new, more, same, keys, all) =
              score_windows-new starts next (rw (score_windows, f) at e) in
            (
              (start, rows) ∷ new,
              more
                  ∙ ap (λ (u : List (ℕ × List (Row Number))). u ++ new) added
                  ∙ append_assoc o.aggregated ((start, rows) ∷ []) new,
              same ∙ buckets,
              ap (λ (u : List ℕ). start ∷ u) keys,
              (made, rw buckets at all),
            )
      ]

  pub score_ready-IsTraced :
      (force : Bool) (now : ℕ) (o : Online Number Store) {out : Online Number Store}
      → score_ready setting force now o ≡ ok out
      → IsTraced o
      → IsTraced out
  unfolding score_ready ready_of
  score_ready-IsTraced force now o e h =
      let starts = map (λ (bucket : ℕ × List (Event Number)). bucket.0) o.buckets in
      let ready = is_ready setting force now o.processed in
      let P = λ (start : ℕ). 1 ≤ length (events_in start o.buckets) in
      score_windows-IsTraced (ready_of setting force now o) o e
        (All-sort leb P (filter ready starts)
          (All-filter P ready starts (starts-IsFull o.buckets h.full)))
        h
