-- ===== src/Audit/Store.antt =====
-- `class AuditStore` of cote3mon/audit_store.py.
use teecam.Prelude.{
  ℕ, ◌+◌, Bool, true, false, not, ◌&&◌, ◌||◌, ◌==◌, if◌then◌else◌, Option, none, some, List, [],
  ◌∷◌, Bytes, Text, text_eq, Result, ok, err, value_error, ◌>>=◌, ◌>>◌, raise_if,
}
use teecam.Protocol.Wire.{pack}
use teecam.Audit.Hex.{hex, from_hex}
use teecam.Audit.Crypto.{Crypto, message, zero_hash}

-- `self.state`, which `_persist` also writes to the state file. The key itself stands where the
-- code keeps its base64 text.
pub record State : Type 0 where
  pub key : Bytes
  pub model_hash : Option Text
  pub sequence : ℕ
  pub head : Text

-- A receipt as it is read from a file: a field may be missing, and is a number or a text otherwise.
-- Null and other values of JSON are no values here.
pub record Receipt : Type 0 where
  pub sequence : Option ℕ
  pub previous_head : Option Text
  pub alert_hash : Option Text
  pub model_hash : Option Text
  pub head : Option Text

-- A line of the records: an alert and its receipt, each missing or a mapping.
pub record Record (Alert : Type 0) : Type 0 where
  pub alert : Option Alert
  pub receipt : Option Receipt

-- `{}`
abbrev pub no_receipt : Receipt
no_receipt = record {
  sequence = none;
  previous_head = none;
  alert_hash = none;
  model_hash = none;
  head = none;
}

-- `left == right` where either side may be `None`
unfoldable pub option_eq : Option Text → Option Text → Bool
option_eq none none = true
option_eq none (some t) = false
option_eq (some s) none = false
option_eq (some s) (some t) = text_eq s t

-- `receipt.get("sequence") == sequence`
unfoldable pub sequence_eq : Option ℕ → ℕ → Bool
sequence_eq none n = false
sequence_eq (some m) n = m == n

-- `not self.state["model_hash"]`: `None` or the empty text
unfoldable pub is_unset : Option Text → Bool
is_unset none = true
is_unset (some []) = true
is_unset (some (c ∷ cs)) = false

-- A missing key is a `KeyError` and a bad text a `ValueError`; `verify_receipt` catches both.
unfoldable pub decoded : Option Text → Option Bytes
decoded none = none
decoded (some t) = elim (from_hex t) [ ok bs ↦ some bs | err e ↦ none ]

-- The text of a value that is there.
unfoldable pub text_of : Option Text → Text
text_of none = []
text_of (some t) = t

-- `mapping.get(key, default)`
abbrev pub get_or : {A : Type 0} → A → Option A → A
get_or d none = d
get_or d (some a) = a

-- What the `try` block of `verify_receipt` reads from a receipt.
pub record Parts : Type 0 where
  pub sequence : ℕ
  pub previous : Bytes
  pub model_hash : Bytes
  pub claimed : Bytes

-- `none` where the block raises an exception that is caught.
unfoldable pub read_receipt : Receipt → Option Parts
unfolding decoded
read_receipt r = elim r.sequence [
  | none ↦ none
  | some n ↦ elim (decoded r.previous_head) [
    | none ↦ none
    | some previous ↦ elim (decoded r.model_hash) [
      | none ↦ none
      | some model ↦ elim (decoded r.head) [
        | none ↦ none
        | some claimed ↦
            some
              (record { sequence = n; previous = previous; model_hash = model; claimed = claimed })
      ]
    ]
  ]
]

-- The state of a new store, with the key that `os.urandom` gave.
unfoldable pub new_state : Bytes → State
unfolding hex zero_hash
new_state key = record { key = key; model_hash = none; sequence = 0; head = hex zero_hash }

-- The end of `verify_chain`
unfoldable pub is_current : State → Bool → Option (ℕ × Text) → Bool
is_current st require_current_head none = false
is_current st require_current_head (some (sequence, last_head)) =
    if require_current_head then (sequence == st.sequence && text_eq last_head st.head) else true

module _ (crypto : Crypto) where
  open crypto use {sha256, hmac}

  -- `register_model`, from the bytes of the model on and up to `_persist`
  unfoldable pub register_model : Bytes → State → Result (Text × State)
  unfolding hex option_eq
  register_model payload st = do
    let digest = hex (sha256 payload)
    raise_if (not (st.sequence == 0) && not (option_eq st.model_hash (some digest))) value_error
    ok (digest, record st { model_hash = some digest })

  -- The alerts are JSON objects, of which only the canonical encoding matters.
  module _ {Alert : Type 0} (canonical_json : Alert → Bytes) where
    -- `append` up to `_persist`: the receipt and the new state
    unfoldable pub append : Alert → State → Result (Receipt × State)
    unfolding is_unset text_of message pack hex from_hex
    append alert st = do
      raise_if (is_unset st.model_hash) value_error
      let sequence = st.sequence + 1
      previous ← from_hex st.head
      let alert_hash = sha256 (canonical_json alert)
      model_hash ← from_hex (text_of st.model_hash)
      counter ← pack (8 ∷ []) (sequence ∷ [])
      let head = hmac st.key (message counter previous alert_hash model_hash)
      ok (
        record {
          sequence = some sequence;
          previous_head = some (hex previous);
          alert_hash = some (hex alert_hash);
          model_hash = some (hex model_hash);
          head = some (hex head);
        },
        record st { sequence = sequence; head = hex head },
      )

    -- `verify_receipt`, after the `try` block: `struct.pack` stands outside it
    unfoldable pub authenticate : State → Alert → Receipt → Parts → Result Bool
    unfolding option_eq message pack hex
    authenticate st alert receipt p =
        let alert_hash = sha256 (canonical_json alert) in
        let compared = pack (8 ∷ []) (p.sequence ∷ []) >>= λ counter.
        ok (text_eq (hmac st.key (message counter p.previous alert_hash p.model_hash)) p.claimed) in
        if not (option_eq (some (hex alert_hash)) receipt.alert_hash) then ok false else compared

    unfoldable pub verify_receipt : State → Alert → Receipt → Result Bool
    unfolding read_receipt authenticate
    verify_receipt st alert receipt = elim (read_receipt receipt) [
      | none ↦ ok false
      | some p ↦ authenticate st alert receipt p
    ]

    module _ (no_alert : Alert) where
      -- The tests that the loop of `verify_chain` makes of one record; `no_alert` is `{}`.
      unfoldable pub check_record : State → Text → ℕ → Record Alert → Result Bool
      unfolding verify_receipt sequence_eq option_eq
      check_record st previous sequence r =
          let receipt = get_or no_receipt r.receipt in
          let verified = verify_receipt st (get_or no_alert r.alert) receipt in
          if not (sequence_eq receipt.sequence sequence)
            || not (option_eq receipt.previous_head (some previous))
          then ok false
          else if not (option_eq receipt.model_hash st.model_hash)
          then ok false
          else verified

      -- The loop of `verify_chain` over its variables: `none` where it returns `False`, else the
      -- last sequence number and head.
      unfoldable pub check_records :
          State → Text → ℕ → Text → List (Record Alert) → Result (Option (ℕ × Text))
      unfolding check_record text_of
      check_records st previous sequence last_head [] = ok (some (sequence, last_head))
      check_records st previous sequence last_head (r ∷ rs) =
          let head = text_of (get_or no_receipt r.receipt).head in
          let rest = check_records st head (sequence + 1) head rs in
          check_record st previous (sequence + 1) r >>= λ passed. if passed then rest else ok none

      unfoldable pub verify_chain : State → List (Record Alert) → Bool → Result Bool
      unfolding check_records is_current hex zero_hash
      verify_chain st records require_current_head =
          let zero = hex zero_hash in
          check_records st zero 0 zero records >>= λ r. ok (is_current st require_current_head r)
