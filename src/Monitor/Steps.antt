-- ===== src/Monitor/Steps.antt =====
-- The steps of `monitor_batch`, over any backend and with the local one.
use teecam.Prelude.{
  ◌≡◌, refl, ap, some, List, [], ◌∷◌, ◌++◌, length, Bytes, Text, Error, Result, ok, err, ◌>>=◌,
}
use teecam.Audit.Crypto.{Crypto, zero_hash}
use teecam.Audit.Hex.{hex}
use teecam.Audit.Store.{State, new_state, Receipt, Record, register_model, append}
use teecam.Monitor.Batch.{
  AuditBackend, Detector, WindowRow, Alert, Batch, anchored, monitor_row, monitor_rows,
  monitor_batch, persisted, local_backend,
}

module _ {Score Store : Type 0} (backend : AuditBackend Store (Alert Score))
    (write : Record (Alert Score) → Result (Unit {0}))
    (detector : Detector (WindowRow Score) Score) where
  abbrev pub with_line :
      Alert Score → Receipt → Store → Batch Store (Alert Score) → Batch Store (Alert Score)
  with_line alert receipt after b = record {
    lines = b.lines ++ (record { alert = some alert; receipt = some receipt } ∷ []);
    audit = after;
  }

  pub anchored_ok :
      (alert : Alert Score) (b : Batch Store (Alert Score)) {receipt : Receipt} {after : Store}
      → backend.append_alert alert b.audit ≡ (ok receipt, after)
      → write (record { alert = some alert; receipt = some receipt }) ≡ ok tt
      → anchored backend write detector alert b ≡ (ok tt, with_line alert receipt after b)
  unfolding anchored
  anchored_ok alert b {receipt} {after} e w =
      let first : (backend.append_alert alert b.audit).0 ≡ ok receipt =
        ap (λ (u : Result Receipt × Store). u.0) e in
      let second : (backend.append_alert alert b.audit).1 ≡ after =
        ap (λ (u : Result Receipt × Store). u.1) e in
      rw (anchored, first, w, second) refl

  pub anchored_err :
      (alert : Alert Score) (b : Batch Store (Alert Score)) {raised : Error} {after : Store}
      → backend.append_alert alert b.audit ≡ (err raised, after)
      → anchored backend write detector alert b ≡ (err raised, record b { audit = after })
  unfolding anchored
  anchored_err alert b {raised} {after} e =
      let first : (backend.append_alert alert b.audit).0 ≡ err raised =
        ap (λ (u : Result Receipt × Store). u.0) e in
      let second : (backend.append_alert alert b.audit).1 ≡ after =
        ap (λ (u : Result Receipt × Store). u.1) e in
      rw (anchored, first, second) refl

  pub monitor_rows_ok :
      (model_hash : Text) (row : WindowRow Score) (rows : List (WindowRow Score))
      (b : Batch Store (Alert Score)) {mid : Batch Store (Alert Score)}
      → monitor_row backend write detector model_hash row b ≡ (ok tt, mid)
      → monitor_rows backend write detector model_hash (row ∷ rows) b
        ≡ monitor_rows backend write detector model_hash rows mid
  unfolding monitor_rows
  monitor_rows_ok model_hash row rows b {mid} e =
      let first : (monitor_row backend write detector model_hash row b).0 ≡ ok tt =
        ap (λ (u : Result (Unit {0}) × Batch Store (Alert Score)). u.0) e in
      let second : (monitor_row backend write detector model_hash row b).1 ≡ mid =
        ap (λ (u : Result (Unit {0}) × Batch Store (Alert Score)). u.1) e in
      rw (monitor_rows, first, second) refl

  pub monitor_batch_ok :
      (payload : Bytes) (rows : List (WindowRow Score)) (st : Store) {model_hash : Text}
      {after : Store}
      → backend.register payload st ≡ (ok model_hash, after)
      → let result =
          monitor_rows backend write detector model_hash rows
            (record { lines = []; audit = after }) in
        monitor_batch backend write detector payload rows st
        ≡ (result.0 >>= λ done. ok (length rows, length result.1.lines, model_hash), result.1)
  unfolding monitor_batch
  monitor_batch_ok payload rows st {model_hash} {after} e =
      let first : (backend.register payload st).0 ≡ ok model_hash =
        ap (λ (u : Result Text × Store). u.0) e in
      let second : (backend.register payload st).1 ≡ after =
        ap (λ (u : Result Text × Store). u.1) e in
      rw (monitor_batch, first, second) refl

module _ {A : Type 0} (crypto : Crypto) (canonical_json : A → Bytes)
    (persist : State → Result (Unit {0})) where
  persisted-saves :
      ((st : State) → persist st ≡ ok tt)
      → {Answer : Type 0} (st : State) {call : Result (Answer × State)} {answer : Answer}
        {after : State}
      → call ≡ ok (answer, after)
      → persisted crypto canonical_json persist st call ≡ (ok answer, after)
  unfolding persisted
  persisted-saves saves st {call} {answer} {after} e = rw (e, persisted, saves after) refl

  pub local_append_ok :
      ((st : State) → persist st ≡ ok tt)
      → (alert : A) (st : State) {receipt : Receipt} {after : State}
      → append crypto canonical_json alert st ≡ ok (receipt, after)
      → (local_backend crypto canonical_json persist).append_alert alert st ≡ (ok receipt, after)
  unfolding local_backend
  local_append_ok saves alert st e = persisted-saves saves st e

  pub local_append_err :
      (alert : A) (st : State) {raised : Error}
      → append crypto canonical_json alert st ≡ err raised
      → (local_backend crypto canonical_json persist).append_alert alert st ≡ (err raised, st)
  unfolding local_backend persisted
  local_append_err alert st e = rw (local_backend, e) refl

  -- The state of a new store after the registration of a model.
  abbrev pub registered : Bytes → Bytes → State
  registered payload key = record {
    key = key;
    model_hash = some (hex (crypto.sha256 payload));
    sequence = 0;
    head = hex zero_hash;
  }

  new_store :
      (payload key : Bytes)
      → register_model crypto payload (new_state key)
        ≡ ok (hex (crypto.sha256 payload), registered payload key)
  unfolding register_model new_state
  new_store payload key = refl

  pub local_register_ok :
      ((st : State) → persist st ≡ ok tt)
      → (payload key : Bytes)
      → (local_backend crypto canonical_json persist).register payload (new_state key)
        ≡ (ok (hex (crypto.sha256 payload)), registered payload key)
  unfolding local_backend
  local_register_ok saves payload key =
      persisted-saves saves (new_state key) (new_store payload key)
