-- ===== src/Online/Scoring.antt =====
-- `score_ready` of scripts/guest-online-monitor.py.
use teecam.Prelude.{
  ℕ, ◌+◌, ◌*◌, Bool, not, ◌&&◌, ◌||◌, ◌==◌, leb, any, if◌then◌else◌, Option, none, some, List, [],
  ◌∷◌, ◌++◌, map, length, filter, sort, Text, Result, ok, ◌>>=◌, Floats,
}
use teecam.Features.Rows.{Row, aggregate_events}
use teecam.Features.Columns.{columns_of}
use teecam.Audit.Store.{Receipt}
use teecam.Monitor.Batch.{Detector, WindowRow, Alert, alert_of}
use teecam.Online.State.{Online, events_in}

-- What does not change while the monitor runs: the window, the model, and the audit client with its
-- `append`, if there is one; and the latencies that the clock gives, by their place.
pub record Setting (Number Store : Type 0) : Type 0 where
  pub floats : Floats Number
  pub window_seconds : ℕ
  pub warmup_seconds : ℕ
  pub model : Detector (WindowRow Number) Number
  pub model_hash : Text
  pub append : Option (Alert Number → Store → Result (Receipt × Store))
  pub inference_us : ℕ → Number
  pub audit_us : ℕ → Number

module _ {Number Store : Type 0} (setting : Setting Number Store) where
  open setting use {floats, window_seconds, model, model_hash}

  abbrev pub window_ns : ℕ
  window_ns = window_seconds * 1000000000

  abbrev pub window_row : Row Number → WindowRow Number
  window_row row = record {
    run_id = row.run_id;
    scenario = row.scenario;
    window_start_ns = row.window_start_ns;
    columns = columns_of floats row;
  }

  -- An alert: `append` if there is an audit client, and the record. A record with no receipt stands
  -- as one whose receipt is `none`.
  unfoldable pub anchor : Alert Number → Online Number Store → Result (Online Number Store)
  anchor alert o = elim setting.append [
    | none ↦
        ok
          (record o { records = o.records ++ (record { alert = some alert; receipt = none } ∷ []) })
    | some append ↦ do
      (receipt, store) ← append alert o.audit
      ok (record o {
        audit = store;
        audit_latencies = o.audit_latencies ++ (setting.audit_us (length o.audit_latencies) ∷ []);
        records = o.records ++ (record { alert = some alert; receipt = some receipt } ∷ []);
      })
  ]

  -- The row of a window: its score, and the alert if it is above the threshold.
  unfoldable pub score_row : Row Number → Online Number Store → Result (Online Number Store)
  unfolding anchor columns_of alert_of
  score_row row o = do
    score ← model.score (window_row row)
    let measured = record o {
      inference_latencies =
          o.inference_latencies ++ (setting.inference_us (length o.inference_latencies) ∷ []);
    }
    let anchored =
        alert_of model model_hash (window_row row) score >>= λ alert. anchor alert measured
    if model.le score model.threshold then ok measured else anchored

  -- The rest of a round, on the rows of the window.
  unfoldable pub score_rows : List (Row Number) → Online Number Store → Result (Online Number Store)
  unfolding score_row
  score_rows [] o = ok o
  score_rows (row ∷ rows) o = score_row row o

  -- One round of the loop over `ready`.
  unfoldable pub score_window : ℕ → Online Number Store → Result (Online Number Store)
  unfolding aggregate_events events_in score_rows
  score_window start o = do
    rows ← aggregate_events floats (events_in start o.buckets) window_seconds 0
    score_rows rows (record o {
      processed = o.processed ++ (start ∷ []);
      aggregated = o.aggregated ++ ((start, rows) ∷ []);
    })

  unfoldable pub score_windows : List ℕ → Online Number Store → Result (Online Number Store)
  unfolding score_window
  score_windows [] o = ok o
  score_windows (start ∷ starts) o = score_window start o >>= λ next. score_windows starts next

  -- `start not in processed and (force or start + window_ns + 250_000_000 <= now)`
  unfoldable pub is_ready : Bool → ℕ → List ℕ → ℕ → Bool
  unfolding any
  is_ready force now processed start =
      not (any (λ other. other == start) processed)
      && (force || leb (start + window_ns + 250000000) now)

  unfoldable pub ready_of : Bool → ℕ → Online Number Store → List ℕ
  unfolding is_ready filter sort
  ready_of force now o =
      sort leb (filter (is_ready force now o.processed) (map (λ bucket. bucket.0) o.buckets))

  unfoldable pub score_ready : Bool → ℕ → Online Number Store → Result (Online Number Store)
  unfolding ready_of score_windows
  score_ready force now o = score_windows (ready_of force now o) o
