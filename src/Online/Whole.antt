-- ===== src/Online/Whole.antt =====
-- The whole run of the online monitor scores every window once.
use teecam.Prelude.{
  ℕ, zero, suc, ◌+◌, ◌*◌, ◌≤◌, ◌≡◌, refl, inl, inr, arith, true, false, ◌&&◌, leb, Bool-cases,
  count_if, List, ◌++◌, map, length, All, ok, Result-cases, ok-injective,
}
use teecam.Features.Events.{Event}
use teecam.Features.Rows.{Row}
use teecam.Online.State.{Online, new_online, take_event, ingest}
use teecam.Online.Scoring.{Setting, window_ns, ready_of, score_ready}
use teecam.Online.Loop.{Turn, turn, quiet_after, after_turn, watch, monitor}
use teecam.Online.Held.{scored, held, IsOnce, take_event-IsOnce, ingest-keeps}
use teecam.Online.Once.{score_ready-IsOnce}
use teecam.Online.Traced.{
  IsTraced, IsAggregated, IsWhole, score_windows-new, scorings_of, take_event-IsTraced,
  score_ready-IsTraced,
}

module _ {Number Store : Type 0} (setting : Setting Number Store) where
  -- No window is scored twice, and what was aggregated is known of each.
  abbrev IsGood : Online Number Store → Type 0
  IsGood o = IsOnce o × IsTraced setting o

  take_event-IsGood :
      (window warmup : ℕ) (event : Event Number) (t : ℕ) (o : Online Number Store)
      → IsGood o
      → IsGood (take_event window warmup event t o).0
  take_event-IsGood window warmup event t o h = (
    take_event-IsOnce window warmup event t o h.0,
    take_event-IsTraced setting window warmup event t o h.1,
  )

  turn-IsGood :
      (world : Turn Number) (o : Online Number Store) {out : Online Number Store × ℕ}
      → turn setting world o ≡ ok out
      → IsGood o
      → IsGood out.0
  unfolding turn
  turn-IsGood world o {out} e h =
      let window = window_ns setting in
      let warmup = setting.warmup_seconds * 1000000000 in
      elim (Result-cases (ingest window warmup world.requests o)) [
        | inr (raised, f) ↦ absurd (let w = rw (turn, f) at e in cc w)
        | inl (asked, f) ↦ elim (Result-cases (ingest window warmup world.resources asked.0)) [
          | inr (raised, g) ↦ absurd (let w = rw (turn, f, g) at e in cc w)
          | inl (sampled, g) ↦ elim (Result-cases (score_ready setting false world.now sampled.0)) [
            | inr (raised, k) ↦ absurd (let w = rw (turn, f, g, k) at e in cc w)
            | inl (next, k) ↦
                let same : (next, asked.1 + sampled.1) ≡ out =
                  ok-injective (rw (turn, f, g, k) at e) in
                let first =
                  ingest-keeps window warmup IsGood (take_event-IsGood window warmup) world.requests
                    o f h in
                let second =
                  ingest-keeps window warmup IsGood (take_event-IsGood window warmup)
                    world.resources asked.0 g first in
                rw (← same) (
                  (score_ready-IsOnce setting false world.now sampled.0 k second.0).0,
                  score_ready-IsTraced setting false world.now sampled.0 k second.1,
                )
          ]
        ]
      ]

  watch-IsGood :
      (world : ℕ → Turn Number) (fuel n quiet : ℕ) (o : Online Number Store)
      {out : Online Number Store}
      → watch setting world fuel n quiet o ≡ ok out
      → IsGood o
      → IsGood out
  unfolding watch after_turn
  watch-IsGood world zero n quiet o e h = absurd (cc e)
  watch-IsGood world (suc fuel) n quiet o {out} e h =
      elim (Result-cases (turn setting (world n) o)) [
        | inr (raised, f) ↦ absurd (let w = rw (watch, f) at e in cc w)
        | inl (next, f) ↦
            let count = quiet_after (world n).done next.1 quiet in
            let good = turn-IsGood (world n) o f h in
            elim (Bool-cases ((world n).done && leb 3 count)) [
              | inr y ↦
                  watch-IsGood world fuel (suc n) count next.0 (rw (watch, f, after_turn, y) at e)
                    good
              | inl y ↦
                  let same : next.0 ≡ out = ok-injective (rw (watch, f, after_turn, y) at e) in
                  rw (← same) good
            ]
      ]

  new_online-IsGood : (store : Store) → IsGood (new_online store)
  unfolding new_online count_if
  new_online-IsGood store = (
    λ start. (omega arith, omega arith),
    record { full = tt; windows = refl; rows = tt; asked = refl },
  )

  -- What the last scoring adds.
  score_ready-new :
      (last_now : ℕ) (o : Online Number Store) {out : Online Number Store}
      → score_ready setting true last_now o ≡ ok out
      → (new : List (ℕ × List (Row Number))) × (out.aggregated ≡ o.aggregated ++ new)
        × (map (λ window. window.0) new ≡ ready_of setting true last_now o)
        × All (IsWhole setting out) new
  unfolding score_ready
  score_ready-new last_now o e =
      let (new, added, same, keys, all) =
        score_windows-new setting (ready_of setting true last_now o) o e in
      (new, added, keys, rw same all)

  -- When the online monitor ends, whatever the turns of the loop found, each window that has a bucket
  -- has been added to the processed windows exactly once, and no other window. For each of them
  -- `aggregate_events`, without a warm-up, returned the noted rows for the first events of its bucket,
  -- one at least; for the windows that the last scoring added, it returned them for all the events of the
  -- bucket. The model was asked once for each window that has a row.
  pub monitor-scored :
      (world : ℕ → Turn Number) (fuel last_now : ℕ) (store : Store) {out : Online Number Store}
      → monitor setting world fuel last_now store ≡ ok out
      → ((s : ℕ) → (scored s out ≡ held s out) × (held s out ≤ 1))
        × (map (λ window. window.0) out.aggregated ≡ out.processed)
        × All (IsAggregated setting out) out.aggregated
        × (length out.inference_latencies ≡ scorings_of out.aggregated)
        × ((o : Online Number Store)
            → watch setting world fuel 0 0 (new_online store) ≡ ok o
            → (new : List (ℕ × List (Row Number))) × (out.aggregated ≡ o.aggregated ++ new)
              × (map (λ window. window.0) new ≡ ready_of setting true last_now o)
              × All (IsWhole setting out) new)
  unfolding monitor
  monitor-scored world fuel last_now store {out} e =
      elim (Result-cases (watch setting world fuel 0 0 (new_online store))) [
        | inr (raised, f) ↦ absurd (let w = rw (monitor, f) at e in cc w)
        | inl (o, f) ↦
            let last = rw (monitor, f) at e in
            let (once, traced) =
              watch-IsGood world fuel 0 0 (new_online store) f (new_online-IsGood store) in
            let (ends, all_scored) = score_ready-IsOnce setting true last_now o last once in
            let trace = score_ready-IsTraced setting true last_now o last traced in
            (
              λ s. (all_scored refl s, (ends s).0),
              trace.windows,
              trace.rows,
              trace.asked,
              λ u g. score_ready-new last_now u (rw (monitor, g) at e),
            )
      ]
