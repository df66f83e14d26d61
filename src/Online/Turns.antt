-- ===== src/Online/Turns.antt =====
-- A turn of the online monitor raises no exception.
use teecam.Prelude.{
  ℕ, ◌+◌, ◌*◌, ◌≤◌, ◌≡◌, refl, sym, ap, ◌∙◌, inl, inr, arith, false, Bool-cases, Option-cases, none,
  some, List, List-cases, [], ◌∷◌, ◌++◌, length, All, Dict, Result, ok, ok-injective,
}
use teecam.Features.Rows.{Row}
use teecam.Features.Returns.{IsProbability, aggregate_events-returns}
use teecam.Features.Columns.{columns_of}
use teecam.Audit.Store.{Receipt}
use teecam.Monitor.Batch.{Alert, pick, alert_of}
use teecam.Online.State.{Online, events_in}
use teecam.Online.Scoring.{
  Setting, window_ns, window_row, anchor, score_row, score_rows, score_window, score_windows,
  ready_of, score_ready,
}
use teecam.Online.Loop.{Turn, turn}
use teecam.Online.Lines.{
  IsFine, IsQuiet, IsReady, events_in-AllReadable, ingest-returns, ingest-quiet,
}

module _ {Number Store : Type 0} (setting : Setting Number Store) where
  -- What the monitor needs of its setting: a window that is not zero, a model that scores
  -- every row and is of columns that the rows have, numbers that round a share of a whole number to no more than it, and an `append` that answers.
  pub record IsWorking : Type 0 where
    pub seconds : 1 ≤ setting.window_seconds
    pub share : IsProbability setting.floats (setting.floats.ratio 95 100)
    pub scores :
        (row : Row Number)
        → (score : Number) × (setting.model.score (window_row setting row) ≡ ok score)
    pub columns_known :
        (row : Row Number)
        → (features : Dict Number) × (pick setting.model.features (columns_of setting.floats row)
            ≡ ok features)
    pub appends :
        (append : Alert Number → Store → Result (Receipt × Store))
        → setting.append ≡ some append
        → (alert : Alert Number) (store : Store)
        → (answer : Receipt × Store) × (append alert store ≡ ok answer)

  module _ (working : IsWorking) where
    anchor-returns :
        (alert : Alert Number) (o : Online Number Store)
        → (out : Online Number Store) × (anchor setting alert o ≡ ok out)
          × (out.buckets ≡ o.buckets)
    unfolding anchor
    anchor-returns alert o = elim (Option-cases (setting.append)) [
      | inl x ↦ (
        record o { records = o.records ++ (record { alert = some alert; receipt = none } ∷ []) },
        rw (anchor, x) refl,
        refl,
      )
      | inr (append, x) ↦
          let ((receipt, store), e) = working.appends append x alert o.audit in
          (
            record o {
              audit = store;
              audit_latencies =
                  o.audit_latencies ++ (setting.audit_us (length o.audit_latencies) ∷ []);
              records = o.records ++ (record { alert = some alert; receipt = some receipt } ∷ []);
            },
            rw (anchor, x, e) refl,
            refl,
          )
    ]

    score_row-returns :
        (row : Row Number) (o : Online Number Store)
        → (out : Online Number Store) × (score_row setting row o ≡ ok out)
          × (out.buckets ≡ o.buckets)
    unfolding score_row alert_of
    score_row-returns row o =
        let measured = record o {
          inference_latencies =
              o.inference_latencies ++ (setting.inference_us (length o.inference_latencies) ∷ []);
        } in
        let (score, d) = working.scores row in
        let (features, f) = working.columns_known row in
        let alert : Alert Number = record {
          run_id = row.run_id;
          scenario = row.scenario;
          window_start_ns = row.window_start_ns;
          score = score;
          threshold = setting.model.threshold;
          model_hash = setting.model_hash;
          features = features;
        } in
        elim (Bool-cases (setting.model.le score setting.model.threshold)) [
          | inl y ↦ (measured, rw (score_row, d, y) refl, refl)
          | inr n ↦
              let (out, e, same) = anchor-returns alert measured in
              (out, rw (score_row, d, n, alert_of, f) e, same)
        ]

    score_window-returns :
        (start : ℕ) (o : Online Number Store)
        → IsReady setting.floats o
        → (out : Online Number Store) × (score_window setting start o ≡ ok out)
          × (out.buckets ≡ o.buckets)
    unfolding score_window score_rows
    score_window-returns start o h =
        let (rows, e) =
          aggregate_events-returns setting.floats (events_in start o.buckets) setting.window_seconds
            0 working.seconds (events_in-AllReadable setting.floats start o.buckets h)
            working.share in
        let next = λ (made : List (Row Number)). record o {
          processed = o.processed ++ (start ∷ []);
          aggregated = o.aggregated ++ ((start, made) ∷ []);
        } in
        elim (List-cases rows) [
          | inl x ↦ (next [], rw (score_window, e, x) refl, refl)
          | inr (row, others, x) ↦
              let (out, f, same) = score_row-returns row (next (row ∷ others)) in
              (out, rw (score_window, e, x) f, same)
        ]

    pub score_windows-returns :
        (starts : List ℕ) (o : Online Number Store)
        → IsReady setting.floats o
        → (out : Online Number Store) × (score_windows setting starts o ≡ ok out)
          × IsReady setting.floats out
    unfolding score_windows
    score_windows-returns [] o h = (o, refl, h)
    score_windows-returns (start ∷ starts) o h =
        let (next, e, same) = score_window-returns start o h in
        let (out, f, times) = score_windows-returns starts next (rw same h) in
        (out, rw (score_windows, e) f, times)

    pub turn-returns :
        (world : Turn Number) (o : Online Number Store)
        → IsReady setting.floats o
        → All (IsFine setting.floats) world.requests
        → All (IsFine setting.floats) world.resources
        → (out : Online Number Store × ℕ) × (turn setting world o ≡ ok out)
          × IsReady setting.floats out.0
          × (All IsQuiet world.requests → All IsQuiet world.resources → out.1 ≡ 0)
    unfolding turn score_ready
    turn-returns world o h asked sampled =
        let window = window_ns setting in
        let warmup = setting.warmup_seconds * 1000000000 in
        let (first, e, times) =
          ingest-returns setting.floats window warmup world.requests o asked h in
        let (second, f, more) =
          ingest-returns setting.floats window warmup world.resources first.0 sampled times in
        let (out, g, all_times) =
          score_windows-returns (ready_of setting false world.now second.0) second.0 more in
        (
          (out, first.1 + second.1),
          rw (turn, e, f, score_ready, g) refl,
          all_times,
          λ quiet still.
              let a =
                ok-injective
                  (sym e ∙ ingest-quiet setting.floats window warmup world.requests o quiet) in
              let b =
                ok-injective (
                  sym f
                  ∙ ingest-quiet setting.floats window warmup world.resources first.0 still) in
              let x : first.1 ≡ 0 = ap {B = ℕ} (λ (u : Online Number Store × ℕ). u.1) a in
              let y : second.1 ≡ 0 = ap {B = ℕ} (λ (u : Online Number Store × ℕ). u.1) b in
              omega (arith, x, y),
        )
