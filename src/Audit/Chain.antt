-- ===== src/Audit/Chain.antt =====
-- The states of an audit store with a registered model, and what `append` and the verification do
-- at them.
use teecam.Prelude.{
  ℕ, ◌+◌, ◌^◌, ◌<◌, ◌≡◌, refl, arith, true, false, ◌==◌, some, [], ◌∷◌, length, Bytes, IsBytes,
  text_eq_refl, ok,
}
use teecam.Protocol.Wire.{pack, packed, pack-Fits}
use teecam.Audit.Hex.{hex, from_hex-hex}
use teecam.Audit.Crypto.{Crypto, message, zero_hash}
use teecam.Audit.Store.{
  State, Receipt, Record, append, authenticate, verify_receipt, check_record, is_unset, option_eq,
  sequence_eq, text_of, decoded, read_receipt,
}

-- A digest of 32 bytes.
pub record IsDigest (d : Bytes) : Type 0 where
  pub bytes : IsBytes d
  pub size : length d ≡ 32

pub zero_hash-IsDigest : IsDigest zero_hash
unfolding zero_hash
zero_hash-IsDigest = record { bytes = omega arith; size = refl }

is_unset-hex : (m : Bytes) → length m ≡ 32 → is_unset (some (hex m)) ≡ false
unfolding is_unset hex
is_unset-hex [] h = absurd (omega arith)
is_unset-hex (b ∷ bs) h = refl

pub decoded-hex : (d : Bytes) → IsBytes d → decoded (some (hex d)) ≡ some d
unfolding decoded
decoded-hex d h = rw (decoded, from_hex-hex d h)

pack_counter : (n : ℕ) → n < 2 ^ 64 → pack (8 ∷ []) (n ∷ []) ≡ ok (packed (8 ∷ []) (n ∷ []))
pack_counter n h = pack-Fits (8 ∷ []) (n ∷ []) (h, tt)

-- The state after `sequence` alerts, with the digests as bytes.
abbrev pub chain_state : Bytes → Bytes → ℕ → Bytes → State
chain_state key model sequence head = record {
  key = key;
  model_hash = some (hex model);
  sequence = sequence;
  head = hex head;
}

module _ (crypto : Crypto) {Alert : Type 0} (canonical_json : Alert → Bytes)
    (no_alert : Alert) where
  open crypto use {sha256, hmac, sha256-IsBytes, hmac-IsBytes, length-hmac, length-sha256}

  module _ (key model : Bytes) where
    -- The head of the chain after one more alert.
    abbrev pub next_head : ℕ → Bytes → Alert → Bytes
    next_head sequence head a =
        hmac key
          (message (packed (8 ∷ []) ((sequence + 1) ∷ [])) head (sha256 (canonical_json a)) model)

    abbrev pub receipt_at : ℕ → Bytes → Alert → Receipt
    receipt_at sequence head a = record {
      sequence = some (sequence + 1);
      previous_head = some (hex head);
      alert_hash = some (hex (sha256 (canonical_json a)));
      model_hash = some (hex model);
      head = some (hex (next_head sequence head a));
    }

    abbrev pub record_at : ℕ → Bytes → Alert → Record Alert
    record_at sequence head a = record {
      alert = some a;
      receipt = some (receipt_at sequence head a);
    }

    pub next_head-IsDigest : (n : ℕ) (head : Bytes) (a : Alert) → IsDigest (next_head n head a)
    next_head-IsDigest n head a = record { bytes = hmac-IsBytes key _; size = length-hmac key _ }

    module _ (m : IsDigest model) (n : ℕ) (head : Bytes) (h : IsDigest head) (fits : n + 1 < 2 ^ 64)
        (a : Alert) where
      -- `append` makes the receipt of the next link, and moves the head to it.
      pub append-chain_state :
          append crypto canonical_json a (chain_state key model n head)
          ≡ ok (receipt_at n head a, chain_state key model (n + 1) (next_head n head a))
      unfolding append text_of
      append-chain_state = rw (
        is_unset-hex model m.size,
        from_hex-hex head h.bytes,
        from_hex-hex model m.bytes,
        pack_counter (n + 1) fits,
      )

      read_receipt-receipt_at :
          read_receipt (receipt_at n head a)
          ≡ some (record {
            sequence = n + 1;
            previous = head;
            model_hash = model;
            claimed = next_head n head a;
          })
      unfolding read_receipt message
      read_receipt-receipt_at = rw (
        read_receipt,
        decoded-hex head h.bytes,
        decoded-hex model m.bytes,
        decoded-hex (next_head n head a) (hmac-IsBytes key _),
      )

      -- A receipt that `append` made is accepted for its alert by a store with the same key.
      pub verify_receipt-receipt_at :
          (st : State)
          → st.key ≡ key
          → verify_receipt crypto canonical_json st a (receipt_at n head a) ≡ ok true
      unfolding option_eq verify_receipt authenticate
      verify_receipt-receipt_at st same = rw (
        verify_receipt,
        read_receipt-receipt_at,
        authenticate,
        text_eq_refl (hex (sha256 (canonical_json a))),
        pack_counter (n + 1) fits,
        same,
        text_eq_refl (next_head n head a),
      )

      pub check_record-record_at :
          (st : State)
          → st.key ≡ key
          → st.model_hash ≡ some (hex model)
          → check_record crypto canonical_json no_alert st (hex head) (n + 1) (record_at n head a)
            ≡ ok true
      unfolding check_record sequence_eq option_eq
      check_record-record_at st same_key same_model =
          let same : (n + 1 == n + 1) ≡ true = ground arith in
          rw (
            check_record,
            same,
            text_eq_refl (hex head),
            same_model,
            text_eq_refl (hex model),
            verify_receipt-receipt_at st same_key,
          )
