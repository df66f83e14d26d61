-- ===== src/Audit/Answers.antt =====
-- Where the verification of the audit store answers, and where it raises an exception.
use teecam.Prelude.{
  ℕ, ◌+◌, ◌^◌, ◌<◌, ◌≤◌, ◌≡◌, refl, ap, inl, inr, arith, Bool, false, none, some, Option,
  Option-cases, Bool-cases, List, [], ◌∷◌, length, Bytes, Text, text_eq, text_eq_refl, ok, err,
  struct_error,
}
use teecam.Protocol.Wire.{pack, packed, pack-Fits}
use teecam.Audit.Hex.{hex}
use teecam.Audit.Crypto.{Crypto, message, zero_hash}
use teecam.Audit.Store.{
  State, Receipt, Record, Parts, authenticate, verify_receipt, check_record, check_records,
  verify_chain, is_current, option_eq, sequence_eq, read_receipt, get_or, no_receipt,
}
use teecam.Audit.Links.{head_text, read_receipt-eq-some, sequence_eq→eq}

pack_wide : (n : ℕ) → 256 ^ 8 ≤ n → pack (8 ∷ []) (n ∷ []) ≡ err struct_error
unfolding pack
pack_wide n h = ground arith

module _ (crypto : Crypto) {Alert : Type 0} (canonical_json : Alert → Bytes) where
  open crypto use {sha256, hmac}

  -- If a receipt's fields can be decoded, its alert hash is that of the alert and its sequence
  -- number is 2^64 or more, `verify_receipt` raises `struct.error` in place of an answer.
  pub verify_receipt-struct_error :
      (st : State) (a : Alert) (r : Receipt) (p : Parts)
      → read_receipt r ≡ some p
      → r.alert_hash ≡ some (hex (sha256 (canonical_json a)))
      → 2 ^ 64 ≤ p.sequence
      → verify_receipt crypto canonical_json st a r ≡ err struct_error
  unfolding verify_receipt authenticate option_eq
  verify_receipt-struct_error st a r p e h wide = rw (
    verify_receipt,
    e,
    authenticate,
    h,
    text_eq_refl (hex (sha256 (canonical_json a))),
    pack_wide p.sequence wide,
  )

  authenticate-answers :
      (st : State) (a : Alert) (r : Receipt) (p : Parts)
      → p.sequence < 2 ^ 64
      → (b : Bool) × (authenticate crypto canonical_json st a r p ≡ ok b)
  unfolding authenticate
  authenticate-answers st a r p h =
      elim (Bool-cases (option_eq (some (hex (sha256 (canonical_json a)))) r.alert_hash)) [
        | inr n ↦ (false, rw (authenticate, n) refl)
        | inl y ↦
            let counter = packed (8 ∷ []) (p.sequence ∷ []) in
            let expected =
              hmac st.key (message counter p.previous (sha256 (canonical_json a)) p.model_hash) in
            (
              text_eq expected p.claimed,
              rw (authenticate, y, pack-Fits (8 ∷ []) (p.sequence ∷ []) (h, tt)) refl,
            )
      ]

  -- If the sequence number of a receipt is missing or fits 64 bits, `verify_receipt` answers,
  -- whatever else the receipt holds.
  pub verify_receipt-answers :
      (st : State) (a : Alert) (r : Receipt)
      → get_or 0 r.sequence < 2 ^ 64
      → (b : Bool) × (verify_receipt crypto canonical_json st a r ≡ ok b)
  unfolding verify_receipt
  verify_receipt-answers st a r h = elim (Option-cases (read_receipt r)) [
    | inl n ↦ (false, rw (verify_receipt, n) refl)
    | inr (p, e) ↦
        let number = (read_receipt-eq-some r p e).0 in
        let small : p.sequence < 2 ^ 64 = rw number at h in
        let answer = authenticate-answers st a r p small in
        (answer.0, rw (verify_receipt, e) answer.1)
  ]

  module _ (no_alert : Alert) where
    check_record-answers :
        (st : State) (previous : Text) (n : ℕ) (r : Record Alert)
        → n < 2 ^ 64
        → (b : Bool) × (check_record crypto canonical_json no_alert st previous n r ≡ ok b)
    unfolding check_record
    check_record-answers st previous n r h =
        let receipt = get_or no_receipt r.receipt in
        elim (Bool-cases (sequence_eq receipt.sequence n)) [
          | inr x ↦ (false, rw (check_record, x) refl)
          | inl x ↦
              let number : get_or 0 receipt.sequence ≡ n =
                ap (get_or 0) (sequence_eq→eq receipt.sequence n x) in
              let answer =
                verify_receipt-answers st (get_or no_alert r.alert) receipt (rw number h) in
              elim (Bool-cases (option_eq receipt.previous_head (some previous))) [
                | inr y ↦ (false, rw (check_record, x, y) refl)
                | inl y ↦ elim (Bool-cases (option_eq receipt.model_hash st.model_hash)) [
                  | inr z ↦ (false, rw (check_record, x, y, z) refl)
                  | inl z ↦ (answer.0, rw (check_record, x, y, z) answer.1)
                ]
              ]
        ]

    check_records-answers :
        (st : State) (previous : Text) (n : ℕ) (last : Text) (rs : List (Record Alert))
        → n + length rs < 2 ^ 64
        → (o : Option (ℕ × Text)) × (check_records crypto canonical_json no_alert st previous n last
              rs
            ≡ ok o)
    unfolding check_records
    check_records-answers st previous n last [] h = (_, refl)
    check_records-answers st previous n last (r ∷ rs) h =
        let rest = check_records-answers st (head_text r) (n + 1) (head_text r) rs (omega arith) in
        let passed = check_record-answers st previous (n + 1) r (omega arith) in
        elim (Bool-cases passed.0) [
          | inl y ↦ (rest.0, rw (check_records, passed.1, y) rest.1)
          | inr y ↦ (none, rw (check_records, passed.1, y) refl)
        ]

    -- `verify_chain` answers, with no exception, on fewer than 2^64 records, in each of which the receipt
    -- is missing or a mapping whose sequence number is missing or a natural number and whose other
    -- fields are missing or any texts.
    pub verify_chain-answers :
        (st : State) (rs : List (Record Alert)) (require_current_head : Bool)
        → length rs < 2 ^ 64
        → (b : Bool) × (verify_chain crypto canonical_json no_alert st rs require_current_head
            ≡ ok b)
    unfolding verify_chain
    verify_chain-answers st rs current h =
        let run = check_records-answers st (hex zero_hash) 0 (hex zero_hash) rs (omega arith) in
        (is_current st current run.0, rw (verify_chain, run.1) refl)
