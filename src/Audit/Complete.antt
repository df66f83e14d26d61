-- ===== src/Audit/Complete.antt =====
-- What a store wrote, it accepts: the records of any run of `append` pass `verify_chain`.
use teecam.Prelude.{
  ℕ, suc, ◌+◌, ◌^◌, ◌<◌, ◌≡◌, refl, ap, arith, Bool, true, false, ◌==◌, some, List, [], ◌∷◌, length,
  map, Bytes, text_eq_refl, Result, ok, ◌>>=◌,
}
use teecam.Audit.Hex.{hex}
use teecam.Audit.Crypto.{Crypto, zero_hash}
use teecam.Audit.Store.{
  State, Record, new_state, register_model, append, check_records, verify_chain, is_current,
  text_of,
}
use teecam.Audit.Chain.{
  IsDigest, zero_hash-IsDigest, chain_state, next_head, next_head-IsDigest, record_at,
  append-chain_state, check_record-record_at,
}

is_current-same :
    (st : State) (current : Bool) → is_current st current (some (st.sequence, st.head)) ≡ true
unfolding is_current
is_current-same st true =
    let same : (st.sequence == st.sequence) ≡ true = ground arith in rw (same, text_eq_refl st.head)
is_current-same st false = refl

module _ (crypto : Crypto) {Alert : Type 0} (canonical_json : Alert → Bytes) where
  open crypto use {sha256, sha256-IsBytes, length-sha256}

  -- The caller's loop: every alert is appended and kept with its receipt.
  unfoldable pub append_all : List Alert → State → Result (List (Record Alert) × State)
  unfolding append
  append_all [] st = ok ([], st)
  append_all (a ∷ alerts) st = do
    (receipt, after) ← append crypto canonical_json a st
    (rest, last) ← append_all alerts after
    ok (record { alert = some a; receipt = some receipt } ∷ rest, last)

  -- A new store registers a model and appends alerts.
  unfoldable pub run : Bytes → Bytes → List Alert → Result (List (Record Alert) × State)
  unfolding append_all register_model new_state
  run key payload alerts = do
    (digest, st) ← register_model crypto payload (new_state key)
    append_all alerts st

  module _ (no_alert : Alert) (key model : Bytes) (m : IsDigest model) where
    next : ℕ → Bytes → Alert → Bytes
    next = next_head crypto canonical_json no_alert key model

    -- The records of alerts that follow a chain of `n` alerts with the last head `head`.
    records_from : ℕ → Bytes → List Alert → List (Record Alert)
    records_from n head [] = []
    records_from n head (a ∷ alerts) =
        record_at crypto canonical_json no_alert key model n head a
        ∷ records_from (n + 1) (next n head a) alerts

    head_after : ℕ → Bytes → List Alert → Bytes
    head_after n head [] = head
    head_after n head (a ∷ alerts) = head_after (n + 1) (next n head a) alerts

    append_all-chain_state :
        (alerts : List Alert) (n : ℕ) (head : Bytes)
        → IsDigest head
        → n + length alerts < 2 ^ 64
        → append_all alerts (chain_state key model n head)
          ≡ ok (
            records_from n head alerts,
            chain_state key model (n + length alerts) (head_after n head alerts),
          )
    unfolding append_all records_from head_after next
    append_all-chain_state [] n head h fits =
        ap (λ k. ok ([], chain_state key model k head)) (omega arith)
    append_all-chain_state (a ∷ alerts) n head h fits =
        let step =
          append-chain_state crypto canonical_json no_alert key model m n head h (omega arith) a in
        let rest =
          append_all-chain_state alerts (n + 1) (next n head a)
            (next_head-IsDigest crypto canonical_json no_alert key model n head a) (omega arith) in
        let count : n + 1 + length alerts ≡ n + suc (length alerts) = omega arith in
        rw (append_all, step, rest, count)

    check_records-records_from :
        (st : State)
        → st.key ≡ key
        → st.model_hash ≡ some (hex model)
        → (alerts : List Alert) (n : ℕ) (head : Bytes) → IsDigest head
        → n + length alerts < 2 ^ 64
        → check_records crypto canonical_json no_alert st
            (hex head)
            n
            (hex head)
            (records_from n head alerts)
          ≡ ok (some (n + length alerts, hex (head_after n head alerts)))
    unfolding check_records records_from head_after next
    check_records-records_from st k e [] n head h fits =
        ap (λ j. ok (some (j, hex head))) (omega arith)
    check_records-records_from st k e (a ∷ alerts) n head h fits =
        let step =
          check_record-record_at crypto canonical_json no_alert key model m n head h (omega arith) a
            st k e in
        let rest =
          check_records-records_from st k e alerts (n + 1) (next n head a)
            (next_head-IsDigest crypto canonical_json no_alert key model n head a) (omega arith) in
        let count : n + 1 + length alerts ≡ n + suc (length alerts) = omega arith in
        rw (check_records, step, text_of, rest, count)

    map-alert-records_from :
        (alerts : List Alert) (n : ℕ) (head : Bytes)
        → map (λ r. r.alert) (records_from n head alerts) ≡ map some alerts
    unfolding records_from
    map-alert-records_from [] n head = refl
    map-alert-records_from (a ∷ alerts) n head =
        ap (◌∷◌ (some a)) (map-alert-records_from alerts (n + 1) (next n head a))

  -- If a new store registers a model and appends fewer than 2^64 alerts, no call fails, the records
  -- carry the alerts in their order, the store counts them, and `verify_chain` accepts the records
  -- with and without the test of the current head.
  pub verify_chain-run :
      (no_alert : Alert) (key payload : Bytes) (alerts : List Alert)
      → length alerts < 2 ^ 64
      → (require_current_head : Bool)
      → (records : List (Record Alert)) × (st : State) × (run key payload alerts ≡ ok (records, st))
        × (map (λ r. r.alert) records ≡ map some alerts)
        × (st.sequence ≡ length alerts)
        × (verify_chain crypto canonical_json no_alert st records require_current_head ≡ ok true)
  unfolding run verify_chain is_current new_state register_model head_after
  verify_chain-run no_alert key payload alerts fits current =
      let model = sha256 payload in
      let m : IsDigest model = record {
        bytes = sha256-IsBytes payload;
        size = length-sha256 payload;
      } in
      let made =
        append_all-chain_state no_alert key model m alerts 0 zero_hash zero_hash-IsDigest
          (omega arith) in
      let last =
        chain_state key model (0 + length alerts)
          (head_after no_alert key model m 0 zero_hash alerts) in
      let read =
        check_records-records_from no_alert key model m last refl refl alerts 0 zero_hash
          zero_hash-IsDigest (omega arith) in
      (
        records_from no_alert key model m 0 zero_hash alerts,
        last,
        made,
        map-alert-records_from no_alert key model m alerts 0 zero_hash,
        omega arith,
        rw (verify_chain, read) (ap ok (is_current-same last current)),
      )
