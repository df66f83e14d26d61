-- ===== src/Monitor/Returns.antt =====
-- `monitor_batch` with the local backend returns, and counts the rows above the threshold.
use teecam.Prelude.{
  ℕ, ◌+◌, ◌^◌, ◌<◌, ◌≡◌, ◌≤◌, ◌∙◌, if◌then◌else◌, refl, ap, inl, inr, arith, Bool, not, Bool-cases,
  some, List, [], ◌∷◌, ◌++◌, length, length-append, All, count_if, Bytes, Text, Dict, Result, ok,
  err, false,
}
use teecam.Audit.Crypto.{Crypto, zero_hash}
use teecam.Audit.Hex.{hex}
use teecam.Audit.Store.{State, Record, new_state}
use teecam.Audit.Chain.{
  IsDigest, zero_hash-IsDigest, chain_state, next_head, next_head-IsDigest, receipt_at,
  append-chain_state,
}
use teecam.Monitor.Batch.{
  Detector, WindowRow, Alert, Batch, pick, alert_of, monitor_row, monitor_rows, monitor_batch,
  local_backend,
}
use teecam.Monitor.Steps.{
  anchored_ok, monitor_rows_ok, monitor_batch_ok, local_append_ok, local_register_ok,
}

module _ (crypto : Crypto) {Score : Type 0} (canonical_json : Alert Score → Bytes)
    (persist : State → Result (Unit {0})) (write : Record (Alert Score) → Result (Unit {0}))
    (no_alert : Alert Score) (detector : Detector (WindowRow Score) Score) where
  -- The detector scores the row, and the row has every column that the detector's features name.
  pub record IsScored (row : WindowRow Score) : Type 0 where
    pub scored : (score : Score) × (detector.score row ≡ ok score)
    pub picked : (features : Dict Score) × (pick detector.features row.columns ≡ ok features)

  -- `score > threshold`, as the loop tests it
  abbrev pub is_above : WindowRow Score → Bool
  is_above row = elim (detector.score row) [
    | err raised ↦ false
    | ok score ↦ not (detector.le score detector.threshold)
  ]

  module _ (saves : (st : State) → persist st ≡ ok tt)
      (writes : (line : Record (Alert Score)) → write line ≡ ok tt) (key model : Bytes)
      (m : IsDigest model) (model_hash : Text) where
    -- A round from one link of the chain: it ends at the next one if the row is above the threshold.
    monitor_row-returns :
        (row : WindowRow Score) (n : ℕ) (head : Bytes) (lines : List (Record (Alert Score)))
        → IsScored row
        → IsDigest head
        → n + 1 < 2 ^ 64
        → (b : Batch State (Alert Score)) × (next : ℕ) × (after : Bytes) × (monitor_row
              (local_backend crypto canonical_json persist)
              write
              detector
              model_hash
              row
              (record { lines = lines; audit = chain_state key model n head })
            ≡ (ok tt, b))
          × (b.audit ≡ chain_state key model next after)
          × (next ≤ n + 1)
          × IsDigest after
          × (length b.lines ≡ length lines + (if is_above row then 1 else 0))
    unfolding monitor_row alert_of
    monitor_row-returns row n head lines s h fits =
        let (score, scored) = s.scored in
        let (features, picked) = s.picked in
        elim (Bool-cases (detector.le score detector.threshold)) [
          | inl y ↦ (
            record { lines = lines; audit = chain_state key model n head },
            n,
            head,
            rw (monitor_row, scored, y) refl,
            refl,
            omega arith,
            h,
            rw (is_above, scored, y) (omega arith),
          )
          | inr y ↦
              let alert : Alert Score = record {
                run_id = row.run_id;
                scenario = row.scenario;
                window_start_ns = row.window_start_ns;
                score = score;
                threshold = detector.threshold;
                model_hash = model_hash;
                features = features;
              } in
              let made : alert_of detector model_hash row score ≡ ok alert =
                rw (alert_of, picked) refl in
              let line : Record (Alert Score) = record {
                alert = some alert;
                receipt = some (receipt_at crypto canonical_json no_alert key model n head alert);
              } in
              let after = next_head crypto canonical_json no_alert key model n head alert in
              let step =
                append-chain_state crypto canonical_json no_alert key model m n head h fits alert in
              (
                record {
                  lines = lines ++ (line ∷ []);
                  audit = chain_state key model (n + 1) after;
                },
                n + 1,
                after,
                rw (monitor_row, scored, y, made)
                    (anchored_ok (local_backend crypto canonical_json persist) write detector alert
                      (record { lines = lines; audit = chain_state key model n head })
                      (local_append_ok crypto canonical_json persist saves alert
                        (chain_state key model n head) step)
                      (writes line)),
                refl,
                omega arith,
                next_head-IsDigest crypto canonical_json no_alert key model n head alert,
                rw (is_above, scored, y) (omega (arith, length-append lines (line ∷ []))),
              )
        ]

    monitor_rows-returns :
        (rows : List (WindowRow Score)) (n : ℕ) (head : Bytes) (b : Batch State (Alert Score))
        → b.audit ≡ chain_state key model n head
        → All IsScored rows
        → IsDigest head
        → n + length rows < 2 ^ 64
        → (out : Batch State (Alert Score)) × (monitor_rows
              (local_backend crypto canonical_json persist)
              write
              detector
              model_hash
              rows
              b
            ≡ (ok tt, out))
          × (length out.lines ≡ length b.lines + count_if is_above rows)
    unfolding count_if monitor_rows
    monitor_rows-returns [] n head b at all h fits = (b, refl, omega arith)
    monitor_rows-returns (row ∷ rows) n head b at all h fits =
        let (mid, next, after, e, chain, few, digest, more) =
          monitor_row-returns row n head b.lines all.0 h (omega arith) in
        let first : monitor_row (local_backend crypto canonical_json persist) write detector
              model_hash row b
            ≡ (ok tt, mid) =
          ap
            (λ (st : State).
              monitor_row (local_backend crypto canonical_json persist) write detector model_hash
                row (record { lines = b.lines; audit = st }))
            at
          ∙ e in
        let (out, f, count) =
          monitor_rows-returns rows next after mid chain all.1 digest (omega arith) in
        (
          out,
          monitor_rows_ok (local_backend crypto canonical_json persist) write detector model_hash
                row rows b first
              ∙ f,
          omega (arith, more, count),
        )

  -- If a new store monitors fewer than 2^64 rows, the detector scores each of them, each has the columns
  -- of the detector's features, and no write to the state file or to the alerts file raises an
  -- exception, `monitor_batch` returns the number of rows, the number of rows whose score is above the
  -- threshold, and the digest of the model's file; the alerts file has a line for each such row.
  pub monitor_batch-returns :
      ((st : State) → persist st ≡ ok tt)
      → ((line : Record (Alert Score)) → write line ≡ ok tt)
      → (key payload : Bytes) (rows : List (WindowRow Score)) → All IsScored rows
      → length rows < 2 ^ 64
      → let (r, b) =
          monitor_batch
            (local_backend crypto canonical_json persist)
            write
            detector
            payload
            rows
            (new_state key) in
        (r ≡ ok (length rows, count_if is_above rows, hex (crypto.sha256 payload)))
        × (length b.lines ≡ count_if is_above rows)
  monitor_batch-returns saves writes key payload rows all fits =
      let model = crypto.sha256 payload in
      let m : IsDigest model = record {
        bytes = crypto.sha256-IsBytes payload;
        size = crypto.length-sha256 payload;
      } in
      let st = chain_state key model 0 zero_hash in
      let (b, done, count) =
        monitor_rows-returns saves writes key model m (hex model) rows 0 zero_hash
          (record { lines = []; audit = st }) refl all zero_hash-IsDigest (omega arith) in
      let lines : length b.lines ≡ count_if is_above rows = omega (arith, count) in
      rw
        (
          monitor_batch_ok (local_backend crypto canonical_json persist) write detector payload rows
              (new_state key) (local_register_ok crypto canonical_json persist saves payload key),
          done,
        )
        (ap (λ (k : ℕ). ok (length rows, k, hex model)) lines, lines)
