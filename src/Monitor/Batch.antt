-- ===== src/Monitor/Batch.antt =====
-- `monitor_batch` of cote3mon/monitor.py over any audit backend, and the backend that it is used
-- with when there is no trusted hardware.
use teecam.Prelude.{
  ℕ, Bool, if◌then◌else◌, none, some, List, [], ◌∷◌, ◌++◌, length, Bytes, Text, Dict, lookup,
  Result, ok, err, key_error, ◌>>=◌,
}
use teecam.Audit.Crypto.{Crypto}
use teecam.Audit.Store.{State, Receipt, Record, register_model, append}

-- `class AuditBackend(Protocol)`, with the state of the backend made explicit: the state that a call
-- leaves, also when it raises an exception.
pub record AuditBackend (Store Alert : Type 0) : Type 0 where
  pub register : Bytes → Store → Result Text × Store
  pub append_alert : Alert → Store → Result Receipt × Store

-- `class Detector(Protocol)`: a score is a floating-point number, of which only `<=` matters here.
pub record Detector (Row Score : Type 0) : Type 0 where
  pub features : List Text
  pub score : Row → Result Score
  pub threshold : Score
  pub le : Score → Score → Bool

-- A row of `aggregate_events`: the columns that are named here, and all of them by name.
pub record WindowRow (Score : Type 0) : Type 0 where
  pub run_id : Text
  pub scenario : Text
  pub window_start_ns : ℕ
  pub columns : Dict Score

-- The alert, less its constant "schema".
pub record Alert (Score : Type 0) : Type 0 where
  pub run_id : Text
  pub scenario : Text
  pub window_start_ns : ℕ
  pub score : Score
  pub threshold : Score
  pub model_hash : Text
  pub features : Dict Score

-- The alerts file and the backend; an exception leaves both as they are at that point.
pub record Batch (Store Alert : Type 0) : Type 0 where
  pub lines : List (Record Alert)
  pub audit : Store

module _ {Score : Type 0} where
  -- `{name: row[name] for name in detector.features}`
  unfoldable pub pick : List Text → Dict Score → Result (Dict Score)
  unfolding lookup
  pick [] columns = ok []
  pick (name ∷ names) columns = elim (lookup name columns) [
    | none ↦ err key_error
    | some value ↦ pick names columns >>= λ rest. ok ((name, value) ∷ rest)
  ]

  unfoldable pub alert_of :
      Detector (WindowRow Score) Score → Text → WindowRow Score → Score → Result (Alert Score)
  unfolding pick
  alert_of detector model_hash row score = do
    features ← pick detector.features row.columns
    ok (record {
      run_id = row.run_id;
      scenario = row.scenario;
      window_start_ns = row.window_start_ns;
      score = score;
      threshold = detector.threshold;
      model_hash = model_hash;
      features = features;
    })

  -- `handle.write` is a parameter: it writes the line, or raises an exception and leaves the file.
  module _ {Store : Type 0} (backend : AuditBackend Store (Alert Score))
      (write : Record (Alert Score) → Result (Unit {0}))
      (detector : Detector (WindowRow Score) Score) where
    -- `append`, and the line of the record
    unfoldable pub anchored :
        Alert Score → Batch Store (Alert Score) → Result (Unit {0}) × Batch Store (Alert Score)
    anchored alert b =
        let answer = backend.append_alert alert b.audit in
        let appended = record b { audit = answer.1 } in
        elim answer.0 [
          | err e ↦ (err e, appended)
          | ok receipt ↦
              let line : Record (Alert Score) = record {
                alert = some alert;
                receipt = some receipt;
              } in
              elim (write line) [
                | err e ↦ (err e, appended)
                | ok done ↦ (ok tt, record appended { lines = b.lines ++ (line ∷ []) })
              ]
        ]

    -- One round of the loop.
    unfoldable pub monitor_row :
        Text
        → WindowRow Score
        → Batch Store (Alert Score)
        → Result (Unit {0}) × Batch Store (Alert Score)
    unfolding alert_of anchored
    monitor_row model_hash row b = elim (detector.score row) [
      | err e ↦ (err e, b)
      | ok score ↦
          if detector.le score detector.threshold
          then (ok tt, b)
          else elim (alert_of detector model_hash row score) [
            | err e ↦ (err e, b)
            | ok alert ↦ anchored alert b
          ]
    ]

    -- The loop over the rows: whether it came to its end, and what it has written.
    unfoldable pub monitor_rows :
        Text
        → List (WindowRow Score)
        → Batch Store (Alert Score)
        → Result (Unit {0}) × Batch Store (Alert Score)
    unfolding monitor_row
    monitor_rows model_hash [] b = (ok tt, b)
    monitor_rows model_hash (row ∷ rows) b =
        let round = monitor_row model_hash row b in
        elim round.0 [ err e ↦ (err e, round.1) | ok done ↦ monitor_rows model_hash rows round.1 ]

    -- `monitor_batch` from the registration on, where `load_detector` has returned the detector and
    -- `aggregate_events` returns these rows; either may raise before the alerts file is opened. The
    -- numbers of windows and alerts and the model hash, or an exception.
    unfoldable pub monitor_batch :
        Bytes → List (WindowRow Score) → Store → Result (ℕ × ℕ × Text) × Batch Store (Alert Score)
    unfolding monitor_rows
    monitor_batch payload rows st =
        let registered = backend.register payload st in
        elim registered.0 [
          | err e ↦ (err e, record { lines = []; audit = registered.1 })
          | ok model_hash ↦
              let result =
                monitor_rows model_hash rows (record { lines = []; audit = registered.1 }) in
              (result.0 >>= λ done. ok (length rows, length result.1.lines, model_hash), result.1)
        ]

-- `class LocalAuditBackend`, over a store whose `_persist` is a parameter: it comes after the state
-- has changed, and may raise an exception.
module _ {Alert : Type 0} (crypto : Crypto) (canonical_json : Alert → Bytes)
    (persist : State → Result (Unit {0})) where
  unfoldable pub persisted :
      {Answer : Type 0} → State → Result (Answer × State) → Result Answer × State
  persisted st (err e) = (err e, st)
  persisted st (ok p) = (persist p.1 >>= λ done. ok p.0, p.1)

  unfoldable pub local_backend : AuditBackend State Alert
  unfolding persisted register_model append
  local_backend = record {
    register = λ payload st. persisted st (register_model crypto payload st);
    append_alert = λ alert st. persisted st (append crypto canonical_json alert st);
  }
