-- ===== src/Audit/Links.antt =====
-- What `verify_chain` has checked when it accepts: every record authenticates its alert and the
-- record before it.
use teecam.Prelude.{
  ℕ, ◌^◌, ◌<◌, ◌≡◌, refl, sym, ap, ◌∙◌, inl, inr, arith, true, ==_iff, none, some, Option,
  Option-cases, Bool-cases, [], ◌∷◌, Bytes, Text, text_eq→eq, ok, >>=-eq-ok,
}
use teecam.Protocol.Wire.{pack, packed, pack-Fits, Fits-of_pack}
use teecam.Audit.Hex.{hex}
use teecam.Audit.Crypto.{Crypto, message}
use teecam.Audit.Store.{
  State, Receipt, Record, Parts, authenticate, verify_receipt, check_record, option_eq, sequence_eq,
  text_of, decoded, read_receipt, get_or, no_receipt,
}

-- The text of a record's own head.
abbrev pub head_text : {Alert : Type 0} → Record Alert → Text
head_text r = text_of (get_or no_receipt r.receipt).head

pub option_eq→eq : (o u : Option Text) → option_eq o u ≡ true → o ≡ u
unfolding option_eq
option_eq→eq none none e = refl
option_eq→eq none (some t) e = cc
option_eq→eq (some s) none e = cc
option_eq→eq (some s) (some t) e = ap some (text_eq→eq s t e)

pub sequence_eq→eq : (o : Option ℕ) (n : ℕ) → sequence_eq o n ≡ true → o ≡ some n
unfolding sequence_eq
sequence_eq→eq none n e = cc
sequence_eq→eq (some m) n e = ap some ((==_iff m n).0 e)

-- The parts that `read_receipt` gives are the decoded fields.
pub read_receipt-eq-some :
    (r : Receipt) (p : Parts)
    → read_receipt r ≡ some p
    → (r.sequence ≡ some p.sequence)
      × (decoded r.previous_head ≡ some p.previous)
      × (decoded r.model_hash ≡ some p.model_hash)
      × (decoded r.head ≡ some p.claimed)
unfolding read_receipt
read_receipt-eq-some r p e = ground arith

pub decoded-text_of :
    (o : Option Text) {bs : Bytes} → decoded o ≡ some bs → decoded (some (text_of o)) ≡ some bs
unfolding decoded text_of
decoded-text_of none e = cc
decoded-text_of (some t) e = e

some-injective : {A : Type 0} {a b : A} → some a ≡ some b → a ≡ b
some-injective e = cc

module _ (crypto : Crypto) {Alert : Type 0} (canonical_json : Alert → Bytes)
    (no_alert : Alert) where
  open crypto use {sha256, hmac}

  -- The bytes that a record's alert hash is of.
  abbrev pub alert_bytes : Record Alert → Bytes
  alert_bytes r = canonical_json (get_or no_alert r.alert)

  -- The record authenticates its alert as number `n`, with the model of the store, after a record
  -- whose head decodes to `previous`.
  pub record Link (st : State) (n : ℕ) (previous_text : Text) (r : Record Alert) : Type 0 where
    pub previous : Bytes
    pub model : Bytes
    pub claimed : Bytes
    pub decodes_previous : decoded (some previous_text) ≡ some previous
    pub decodes_model : decoded st.model_hash ≡ some model
    pub decodes_head : decoded (some (head_text r)) ≡ some claimed
    pub fits : n < 256 ^ 8
    pub authentic :
        hmac st.key (message (packed (8 ∷ []) (n ∷ [])) previous (sha256 (alert_bytes r)) model)
        ≡ claimed

  -- `authenticate` accepts only what is authentic.
  authenticate-eq-true :
      (st : State) (a : Alert) (receipt : Receipt) (p : Parts)
      → authenticate crypto canonical_json st a receipt p ≡ ok true
      → (p.sequence < 256 ^ 8)
        × (hmac st.key (
              message
                (packed (8 ∷ []) (p.sequence ∷ []))
                p.previous
                (sha256 (canonical_json a))
                p.model_hash)
            ≡ p.claimed)
  unfolding authenticate
  authenticate-eq-true st a receipt p e =
      elim (Bool-cases (option_eq (some (hex (sha256 (canonical_json a)))) receipt.alert_hash)) [
        | inr n ↦ absurd (let k = rw (authenticate, n) at e in cc)
        | inl y ↦
            let compared = rw (authenticate, y) at e in
            let packs = >>=-eq-ok (pack (8 ∷ []) (p.sequence ∷ [])) _ compared in
            let fits = Fits-of_pack (8 ∷ []) (p.sequence ∷ []) packs.1 in
            let same = rw (pack-Fits (8 ∷ []) (p.sequence ∷ []) fits) at compared in
            (fits.0, text_eq→eq _ _ (cc same))
      ]

  verify_receipt-eq-true :
      (st : State) (a : Alert) (receipt : Receipt)
      → verify_receipt crypto canonical_json st a receipt ≡ ok true
      → (p : Parts) × (read_receipt receipt ≡ some p)
        × (authenticate crypto canonical_json st a receipt p ≡ ok true)
  unfolding verify_receipt
  verify_receipt-eq-true st a receipt e = elim (Option-cases (read_receipt receipt)) [
    | inl n ↦ absurd (let k = rw (verify_receipt, n) at e in cc)
    | inr (p, h) ↦ (p, h, rw (verify_receipt, h) at e)
  ]

  link :
      (st : State) (previous : Text) (n : ℕ) (r : Record Alert)
      → (get_or no_receipt r.receipt).sequence ≡ some n
      → (get_or no_receipt r.receipt).previous_head ≡ some previous
      → (get_or no_receipt r.receipt).model_hash ≡ st.model_hash
      → verify_receipt crypto canonical_json st
          (get_or no_alert r.alert)
          (get_or no_receipt r.receipt)
        ≡ ok true
      → Link st n previous r
  link st previous n r x y z e =
      let receipt = get_or no_receipt r.receipt in
      let verified = verify_receipt-eq-true st (get_or no_alert r.alert) receipt e in
      let p = verified.0 in
      let parts = read_receipt-eq-some receipt p verified.1 in
      let passed = authenticate-eq-true st (get_or no_alert r.alert) receipt p verified.2 in
      let number : p.sequence ≡ n = some-injective (sym parts.0 ∙ x) in
      record {
        previous = p.previous;
        model = p.model_hash;
        claimed = p.claimed;
        decodes_previous = sym (ap decoded y) ∙ parts.1;
        decodes_model = sym (ap decoded z) ∙ parts.2;
        decodes_head = decoded-text_of receipt.head parts.3;
        fits = rw number at passed.0;
        authentic = rw number at passed.1;
      }

  -- A record that passes the tests of the loop is a link of the chain.
  pub check_record-Link :
      (st : State) (previous : Text) (n : ℕ) (r : Record Alert)
      → check_record crypto canonical_json no_alert st previous n r ≡ ok true
      → Link st n previous r
  unfolding check_record
  check_record-Link st previous n r e =
      let receipt = get_or no_receipt r.receipt in
      elim (Bool-cases (sequence_eq receipt.sequence n)) [
        | inr x ↦ absurd (let k = rw (check_record, x) at e in cc)
        | inl x ↦ elim (Bool-cases (option_eq receipt.previous_head (some previous))) [
          | inr y ↦ absurd (let k = rw (check_record, x, y) at e in cc)
          | inl y ↦ elim (Bool-cases (option_eq receipt.model_hash st.model_hash)) [
            | inr z ↦ absurd (let k = rw (check_record, x, y, z) at e in cc)
            | inl z ↦
                link st previous n r (sequence_eq→eq _ _ x) (option_eq→eq _ _ y)
                  (option_eq→eq _ _ z) (rw (check_record, x, y, z) at e)
          ]
        ]
      ]
