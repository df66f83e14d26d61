-- ===== src/Online/Once.antt =====
-- `score_ready` scores no window twice.
use teecam.Prelude.{
  ℕ, ◌+◌, ◌≡◌, refl, ap, ◌∙◌, inl, inr, arith, Bool, true, ◌&&◌, ◌==◌, ==_iff, leb, any-count,
  if◌then◌else◌, Bool-cases, Option-cases, List, [], ◌∷◌, ◌++◌, map, filter, length, count_if,
  length-append, count_if-append, count_if-filter, count_if-map, count_if-sort, ok, Result-cases,
  ok-injective,
}
use teecam.Features.Events.{Event}
use teecam.Features.Rows.{Row, aggregate_events}
use teecam.Monitor.Batch.{Alert, alert_of}
use teecam.Online.State.{Online, events_in}
use teecam.Online.Scoring.{
  Setting, window_row, anchor, score_row, score_rows, score_window, score_windows, is_ready,
  ready_of, score_ready,
}
use teecam.Online.Held.{scored, held, IsOnce}

chosen :
    (ready : ℕ → Bool) (s : ℕ) (starts : List ℕ)
    → count_if (λ start. ready start && start == s) starts
      ≡ (if ready s then count_if (λ start. start == s) starts else 0)
unfolding count_if
chosen ready s [] = ground arith
chosen ready s (start ∷ starts) = elim (Bool-cases (start == s)) [
  | inl y ↦
      let same : start ≡ s = (==_iff start s).0 y in rw same (ground (arith, chosen ready s starts))
  | inr n ↦ rw n (ground (arith, chosen ready s starts))
]

-- A window with a row is given to the model once, and one without a row is not.
abbrev pub scorings : {Number : Type 0} → List (Row Number) → ℕ
scorings [] = 0
scorings (row ∷ rows) = 1

module _ {Number Store : Type 0} (setting : Setting Number Store) where
  -- Only the store, its latencies and the records change.
  abbrev Kept : Online Number Store → Online Number Store → Type 0
  Kept o out =
      (out.buckets ≡ o.buckets)
      × (out.processed ≡ o.processed)
      × (out.aggregated ≡ o.aggregated)
      × (out.inference_latencies ≡ o.inference_latencies)

  anchor-Kept :
      (alert : Alert Number) (o : Online Number Store) {out : Online Number Store}
      → anchor setting alert o ≡ ok out
      → Kept o out
  unfolding anchor
  anchor-Kept alert o {out} e = elim (Option-cases (setting.append)) [
    | inl x ↦ let same = ok-injective (rw (anchor, x) at e) in rw (← same) (refl, refl, refl, refl)
    | inr (append, x) ↦ elim (Result-cases (append alert o.audit)) [
      | inr (raised, f) ↦ absurd (let w = rw (anchor, x, f) at e in cc w)
      | inl ((receipt, store), f) ↦
          let same = ok-injective (rw (anchor, x, f) at e) in rw (← same) (refl, refl, refl, refl)
    ]
  ]

  -- The state after the latency of a window is noted.
  abbrev noted : Online Number Store → Online Number Store
  noted o = record o {
    inference_latencies =
        o.inference_latencies ++ (setting.inference_us (length o.inference_latencies) ∷ []);
  }

  score_row-Kept :
      (row : Row Number) (o : Online Number Store) {out : Online Number Store}
      → score_row setting row o ≡ ok out
      → Kept (noted o) out
  unfolding score_row
  score_row-Kept row o {out} e =
      elim (Result-cases (setting.model.score (window_row setting row))) [
        | inr (raised, d) ↦ absurd (let w = rw (score_row, d) at e in cc w)
        | inl (score, d) ↦ elim (Bool-cases (setting.model.le score setting.model.threshold)) [
          | inl y ↦
              let same : noted o ≡ out = ok-injective (rw (score_row, d, y) at e) in
              rw (← same) (refl, refl, refl, refl)
          | inr n ↦
              elim (Result-cases
                (alert_of setting.model setting.model_hash (window_row setting row) score)) [
                  | inr (raised, f) ↦ absurd (let w = rw (score_row, d, n, f) at e in cc w)
                  | inl (alert, f) ↦ anchor-Kept alert (noted o) (rw (score_row, d, n, f) at e)
                ]
        ]
      ]

  score_rows-Kept :
      (rows : List (Row Number)) (o : Online Number Store) {out : Online Number Store}
      → score_rows setting rows o ≡ ok out
      → (out.buckets ≡ o.buckets)
        × (out.processed ≡ o.processed)
        × (out.aggregated ≡ o.aggregated)
        × (length out.inference_latencies ≡ length o.inference_latencies + scorings rows)
  unfolding score_rows
  score_rows-Kept [] o {out} e =
      let same : o ≡ out = ok-injective e in rw (← same) (refl, refl, refl, omega arith)
  score_rows-Kept (row ∷ rows) o {out} e =
      let (a, b, c, d) = score_row-Kept row o e in
      (
        a,
        b,
        c,
        ap length d
            ∙ length-append o.inference_latencies
                (setting.inference_us (length o.inference_latencies) ∷ []),
      )

  -- What a round adds.
  pub score_window-adds :
      (start : ℕ) (o : Online Number Store) {out : Online Number Store}
      → score_window setting start o ≡ ok out
      → (rows : List (Row Number)) × (aggregate_events setting.floats
            (events_in start o.buckets)
            setting.window_seconds
            0
          ≡ ok rows)
        × (out.buckets ≡ o.buckets)
        × (out.processed ≡ o.processed ++ (start ∷ []))
        × (out.aggregated ≡ o.aggregated ++ ((start, rows) ∷ []))
        × (length out.inference_latencies ≡ length o.inference_latencies + scorings rows)
  unfolding score_window
  score_window-adds start o e =
      elim (Result-cases
        (aggregate_events setting.floats (events_in start o.buckets) setting.window_seconds 0)) [
          | inr (raised, f) ↦ absurd (let w = rw (score_window, f) at e in cc w)
          | inl (rows, f) ↦
              let next : Online Number Store = record o {
                processed = o.processed ++ (start ∷ []);
                aggregated = o.aggregated ++ ((start, rows) ∷ []);
              } in
              let (a, b, c, d) = score_rows-Kept rows next (rw (score_window, f) at e) in
              (rows, f, a, b, c, d)
        ]

  score_windows-adds :
      (starts : List ℕ) (o : Online Number Store) {out : Online Number Store}
      → score_windows setting starts o ≡ ok out
      → (out.buckets ≡ o.buckets)
        × ((s : ℕ) → scored s out ≡ scored s o + count_if (λ start. start == s) starts)
  unfolding score_windows count_if
  score_windows-adds [] o {out} e =
      let same : o ≡ out = ok-injective e in rw (← same) (refl, λ s. omega arith)
  score_windows-adds (start ∷ starts) o {out} e =
      elim (Result-cases (score_window setting start o)) [
        | inr (raised, f) ↦ absurd (let w = rw (score_windows, f) at e in cc w)
        | inl (next, f) ↦
            let (rows, _, held_same, more, _, _) = score_window-adds start o f in
            let (others, counts) = score_windows-adds starts next (rw (score_windows, f) at e) in
            (
              others ∙ held_same,
              λ s.
                  let one = ap {B = ℕ} (count_if (λ other. other == s)) more in
                  omega (
                    arith,
                    counts s,
                    one,
                    count_if-append (λ other. other == s) o.processed (start ∷ []),
                  ),
            )
      ]

  ready_of-count :
      (force : Bool) (now : ℕ) (o : Online Number Store) (s : ℕ)
      → count_if (λ start. start == s) (ready_of setting force now o)
        ≡ (if is_ready setting force now o.processed s then held s o else 0)
  unfolding ready_of
  ready_of-count force now o s =
      let starts = map (λ (bucket : ℕ × List (Event Number)). bucket.0) o.buckets in
      let ready = is_ready setting force now o.processed in
      let p = λ (start : ℕ). start == s in
      count_if-sort leb p (filter ready starts)
      ∙ count_if-filter p ready starts
      ∙ chosen ready s starts
      ∙ ap {B = ℕ} (λ (n : ℕ). if ready s then n else 0)
          (count_if-map p (λ bucket. bucket.0) o.buckets)

  -- The windows after `score_ready`: none has been scored twice, and with `force` each has been scored.
  pub score_ready-IsOnce :
      (force : Bool) (now : ℕ) (o : Online Number Store) {out : Online Number Store}
      → score_ready setting force now o ≡ ok out
      → IsOnce o
      → IsOnce out × (force ≡ true → (s : ℕ) → scored s out ≡ held s out)
  unfolding score_ready is_ready
  score_ready-IsOnce force now o {out} e h =
      let (same, counts) = score_windows-adds (ready_of setting force now o) o e in
      let held_same = λ (s : ℕ).
        ap {B = ℕ} (count_if (λ (bucket : ℕ × List (Event Number)). bucket.0 == s)) same in
      (
        λ s. ground (
          arith,
          h s,
          counts s,
          held_same s,
          ready_of-count force now o s,
          any-count (λ other. other == s) o.processed,
        ),
        λ forced s. ground (
          arith,
          forced,
          h s,
          counts s,
          held_same s,
          ready_of-count force now o s,
          any-count (λ other. other == s) o.processed,
        ),
      )
