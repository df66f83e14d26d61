-- ===== src/Monitor/Accepted.antt =====
-- The alerts file of `monitor_batch` with the local backend is a chain that its store accepts.
use teecam.Prelude.{
  ℕ, suc, ◌+◌, ◌^◌, ◌≤◌, ◌<◌, ◌≡◌, refl, sym, ◌∙◌, inl, inr, arith, true, Bool-cases, some, List,
  [], ◌∷◌, ◌++◌, length, length-append, Bytes, Text, Result, ok, Result-cases,
}
use teecam.Audit.Crypto.{Crypto, zero_hash}
use teecam.Audit.Hex.{hex}
use teecam.Audit.Store.{State, Receipt, Record, new_state, append, verify_chain}
use teecam.Audit.Complete.{append_all, run, verify_chain-run}
use teecam.Monitor.Batch.{
  Detector, WindowRow, Alert, Batch, alert_of, anchored, monitor_row, monitor_rows, monitor_batch,
  local_backend,
}
use teecam.Monitor.Steps.{
  anchored_ok, anchored_err, monitor_batch_ok, local_append_ok, local_append_err, local_register_ok,
}

module _ (crypto : Crypto) {A : Type 0} (canonical_json : A → Bytes) where
  -- One alert more at the end of a run.
  append_all-snoc :
      (alerts : List A) (a : A) (st : State) {rs : List (Record A)} {mid : State}
      {receipt : Receipt} {after : State}
      → append_all crypto canonical_json alerts st ≡ ok (rs, mid)
      → append crypto canonical_json a mid ≡ ok (receipt, after)
      → append_all crypto canonical_json (alerts ++ (a ∷ [])) st
        ≡ ok (rs ++ (record { alert = some a; receipt = some receipt } ∷ []), after)
  unfolding append_all
  append_all-snoc [] a st {rs} {mid} e f =
      let front : rs ≡ [] = cc e in
      let back : mid ≡ st = cc e in rw (front, append_all, ← back, f) refl
  append_all-snoc (x ∷ xs) a st {rs} {mid} {receipt} {after} e f =
      elim (Result-cases (append crypto canonical_json x st)) [
        | inr (raised, e1) ↦ absurd (let w = rw (append_all, e1) at e in cc w)
        | inl (p, e1) ↦ elim (Result-cases (append_all crypto canonical_json xs p.1)) [
          | inr (raised, e2) ↦ absurd (let w = rw (append_all, e1, e2) at e in cc w)
          | inl (q, e2) ↦
              let whole = rw (append_all, e1, e2) at e in
              let front : record { alert = some x; receipt = some p.0 } ∷ q.0 ≡ rs = cc whole in
              let back : q.1 ≡ mid = cc whole in
              let rest =
                append_all-snoc xs a p.1 {rs = q.0} {mid = q.1} {receipt = receipt} {after = after}
                  e2 (rw back f) in
              rw (append_all, e1, rest, ← front) refl
        ]
      ]

module _ (crypto : Crypto) {Score : Type 0} (canonical_json : Alert Score → Bytes)
    (persist : State → Result (Unit {0})) (write : Record (Alert Score) → Result (Unit {0}))
    (saves : (st : State) → persist st ≡ ok tt)
    (writes : (line : Record (Alert Score)) → write line ≡ ok tt)
    (detector : Detector (WindowRow Score) Score) where
  -- The lines and the state of the store are those of a run of at most `n` alerts.
  abbrev Wrote : State → ℕ → Batch State (Alert Score) → Type 0
  Wrote st n b =
      (alerts : List (Alert Score)) × (length alerts ≤ n)
      × (append_all crypto canonical_json alerts st ≡ ok (b.lines, b.audit))

  Wrote-le :
      (st : State) {b : Batch State (Alert Score)} (n m : ℕ) → n ≤ m → Wrote st n b → Wrote st m b
  Wrote-le st n m h (alerts, few, w) = (alerts, omega arith, w)

  anchored-Wrote :
      (alert : Alert Score) (st : State) (n : ℕ) (b : Batch State (Alert Score))
      → Wrote st n b
      → Wrote st
          (n + 1)
          (anchored (local_backend crypto canonical_json persist) write detector alert b).1
  anchored-Wrote alert st n b (alerts, few, w) =
      let backend = local_backend crypto canonical_json persist in
      elim (Result-cases (append crypto canonical_json alert b.audit)) [
        | inr (raised, f) ↦
            rw
              (anchored_err backend write detector alert b
                (local_append_err crypto canonical_json persist alert b.audit f))
              (alerts, omega arith, w)
        | inl (p, f) ↦
            rw
              (anchored_ok backend write detector alert b
                (local_append_ok crypto canonical_json persist saves alert b.audit f)
                (writes (record { alert = some alert; receipt = some p.0 })))
              (
                alerts ++ (alert ∷ []),
                omega (arith, length-append alerts (alert ∷ [])),
                append_all-snoc crypto canonical_json alerts alert st {receipt = p.0} {after = p.1}
                    w f,
              )
      ]

  monitor_row-Wrote :
      (model_hash : Text) (row : WindowRow Score) (st : State) (n : ℕ)
      (b : Batch State (Alert Score))
      → Wrote st n b
      → Wrote st
          (n + 1)
          (monitor_row
            (local_backend crypto canonical_json persist)
            write
            detector
            model_hash
            row
            b).1
  unfolding monitor_row
  monitor_row-Wrote model_hash row st n b h = elim (Result-cases (detector.score row)) [
    | inr (raised, d) ↦ rw (monitor_row, d) (Wrote-le st n (n + 1) (omega arith) h)
    | inl (score, d) ↦ elim (Bool-cases (detector.le score detector.threshold)) [
      | inl y ↦ rw (monitor_row, d, y) (Wrote-le st n (n + 1) (omega arith) h)
      | inr y ↦ elim (Result-cases (alert_of detector model_hash row score)) [
        | inr (raised, e) ↦ rw (monitor_row, d, y, e) (Wrote-le st n (n + 1) (omega arith) h)
        | inl (alert, e) ↦ rw (monitor_row, d, y, e) (anchored-Wrote alert st n b h)
      ]
    ]
  ]

  monitor_rows-Wrote :
      (model_hash : Text) (rows : List (WindowRow Score)) (st : State) (n : ℕ)
      (b : Batch State (Alert Score))
      → Wrote st n b
      → Wrote st
          (n + length rows)
          (monitor_rows
            (local_backend crypto canonical_json persist)
            write
            detector
            model_hash
            rows
            b).1
  unfolding monitor_rows
  monitor_rows-Wrote model_hash [] st n b h = Wrote-le st n (n + 0) (omega arith) h
  monitor_rows-Wrote model_hash (row ∷ rows) st n b h =
      let round =
        monitor_row (local_backend crypto canonical_json persist) write detector model_hash row b in
      let first = monitor_row-Wrote model_hash row st n b h in
      elim (Result-cases round.0) [
        | inr (raised, e) ↦
            rw (monitor_rows, e) (Wrote-le st (n + 1) (n + suc (length rows)) (omega arith) first)
        | inl (done, e) ↦
            rw (monitor_rows, e)
              (Wrote-le st (n + 1 + length rows) (n + suc (length rows)) (omega arith)
                (monitor_rows-Wrote model_hash rows st (n + 1) round.1 first))
      ]

  -- If a new store monitors fewer than 2^64 rows, and no write to its state file or to the alerts file
  -- raises an exception, the store accepts the alerts file that is there when `monitor_batch` ends,
  -- whether it returned or the detector or a missing column raised an exception in the middle of the rows.
  pub monitor_batch-accepted :
      (no_alert : Alert Score) (key payload : Bytes) (rows : List (WindowRow Score))
      → length rows < 2 ^ 64
      → let b =
          (monitor_batch
            (local_backend crypto canonical_json persist)
            write
            detector
            payload
            rows
            (new_state key)).1 in
        verify_chain crypto canonical_json no_alert b.audit b.lines true ≡ ok true
  unfolding run
  monitor_batch-accepted no_alert key payload rows h =
      let model_hash = hex (crypto.sha256 payload) in
      let st : State = record {
        key = key;
        model_hash = some model_hash;
        sequence = 0;
        head = hex zero_hash;
      } in
      let start : Batch State (Alert Score) = record { lines = []; audit = st } in
      let wrote = monitor_rows-Wrote model_hash rows st 0 start ([], omega arith, refl) in
      let accepted =
        verify_chain-run crypto canonical_json no_alert key payload wrote.0 (omega (arith, wrote.1))
          true in
      let same = sym accepted.2 ∙ wrote.2 in
      let b =
        (monitor_rows (local_backend crypto canonical_json persist) write detector model_hash rows
          start).1 in
      let lines : accepted.0 ≡ b.lines = cc same in
      let audit : accepted.1 ≡ b.audit = cc same in
      rw
        (monitor_batch_ok (local_backend crypto canonical_json persist) write detector payload rows
          (new_state key) (local_register_ok crypto canonical_json persist saves payload key))
        (rw (← lines, ← audit) accepted.5)
