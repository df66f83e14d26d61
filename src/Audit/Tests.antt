-- ===== src/Audit/Tests.antt =====
-- Runs of the audit store on concrete alerts, with toy digests in place of SHA-256 and HMAC.
use teecam.Prelude.{
  ◌-◌, ◌^◌, ◌≡◌, ◌≢◌, ◌⊎◌, refl, arith, Bool, true, false, ◌&&◌, leb, if◌then◌else◌, some, List, [],
  ◌∷◌, map, length, Bytes, Text, codes, text_eq, Result, ok, err, struct_error,
}
use teecam.Protocol.Wire.{be}
use teecam.Audit.Hex.{hex, from_hex}
use teecam.Audit.Crypto.{zero_hash}
use teecam.Audit.Toy.{polynomial, toy_crypto}
use teecam.Audit.Store.{
  State, Receipt, Record, Parts, new_state, register_model, append, verify_receipt, verify_chain,
  check_records, check_record, is_current, read_receipt, text_of, get_or, no_receipt,
}
use teecam.Audit.Complete.{append_all, run, verify_chain-run}
use teecam.Audit.Loop.{verify_chain-length}
use teecam.Audit.Tamper.{Clash, contents, messages, verify_chain-binds}
use teecam.Audit.Answers.{verify_receipt-struct_error, verify_chain-answers}
use teecam.Audit.Locked.{Command, register, record_alert, Extends, obey_all, obey_all-locked}

-- An alert is its own canonical text here.
abbrev same_json : Bytes → Bytes
same_json a = a

abbrev two_alerts : List Bytes
two_alerts = codes "first" ∷ codes "second" ∷ []

abbrev some_key : Bytes
some_key = 1 ∷ 2 ∷ 3 ∷ []

abbrev records_of : Result (List (Record Bytes) × State) → List (Record Bytes)
records_of (ok (records, st)) = records
records_of (err e) = []

abbrev last_state : Result (List (Record Bytes) × State) → State
last_state (ok (records, st)) = st
last_state (err e) = new_state []

abbrev two_records : List (Record Bytes)
two_records = records_of (run toy_crypto same_json some_key (codes "model") two_alerts)

abbrev after_two : State
after_two = last_state (run toy_crypto same_json some_key (codes "model") two_alerts)

two_records_accepted : verify_chain toy_crypto same_json [] after_two two_records true ≡ ok true
unfolding run append_all append register_model verify_chain check_records check_record is_current
    polynomial be text_eq
two_records_accepted = refl

abbrev upper : Text → Text
upper = map (λ c. if leb b'a' c && leb c b'f' then c - 32 else c)

-- The same chain with the link between its two records in capital letters.
abbrev upper_head : Record Bytes → Record Bytes
upper_head r = record {
  alert = r.alert;
  receipt = some (record (get_or no_receipt r.receipt) {
    head = some (upper (text_of (get_or no_receipt r.receipt).head));
  });
}

abbrev upper_previous : Record Bytes → Record Bytes
upper_previous r = record {
  alert = r.alert;
  receipt = some (record (get_or no_receipt r.receipt) {
    previous_head = some (upper (text_of (get_or no_receipt r.receipt).previous_head));
  });
}

abbrev respell : List (Record Bytes) → List (Record Bytes)
respell (r ∷ s ∷ []) = upper_head r ∷ upper_previous s ∷ []
respell rs = rs

respelled_accepted :
    verify_chain toy_crypto same_json [] after_two (respell two_records) true ≡ ok true
unfolding run append_all append register_model verify_chain check_records check_record is_current
    polynomial be text_eq text_of
respelled_accepted = refl

swapped_refused :
    verify_chain toy_crypto same_json [] after_two
      (elim two_records [ r ∷ s ∷ [] ↦ s ∷ r ∷ [] | rs ↦ rs ])
      true
    ≡ ok false
unfolding run append_all append register_model verify_chain check_records check_record is_current
    polynomial be text_eq
swapped_refused = refl

verify_chain-run_example :
    (records : List (Record Bytes)) × (st : State) × (run toy_crypto same_json some_key
        (codes "model")
        two_alerts
      ≡ ok (records, st))
    × (map (λ r. r.alert) records ≡ map some two_alerts)
    × (st.sequence ≡ length two_alerts)
    × (verify_chain toy_crypto same_json [] st records true ≡ ok true)
verify_chain-run_example =
    verify_chain-run toy_crypto same_json [] some_key (codes "model") two_alerts (omega arith) true

verify_chain-length_example : length (respell two_records) ≡ after_two.sequence
verify_chain-length_example =
    verify_chain-length toy_crypto same_json [] after_two (respell two_records) respelled_accepted

verify_chain-binds_example :
    (contents toy_crypto same_json [] two_records
      ≡ contents toy_crypto same_json [] (respell two_records))
    ⊎ (Clash
          (toy_crypto.hmac after_two.key)
          (messages toy_crypto same_json [] after_two (hex zero_hash) 0 two_records)
          (messages toy_crypto same_json [] after_two (hex zero_hash) 0 (respell two_records))
        ⊎ Clash toy_crypto.sha256
            (contents toy_crypto same_json [] two_records)
            (contents toy_crypto same_json [] (respell two_records)))
verify_chain-binds_example =
    verify_chain-binds toy_crypto same_json [] after_two two_records (respell two_records)
      two_records_accepted respelled_accepted

-- A receipt of the first alert with a sequence number of 65 bits.
abbrev wide_receipt : Receipt
wide_receipt = record {
  sequence = some (2 ^ 64);
  previous_head = some (codes "00");
  alert_hash = some (hex (toy_crypto.sha256 (codes "first")));
  model_hash = some (codes "01");
  head = some (codes "02");
}

abbrev wide_parts : Parts
wide_parts = record { sequence = 2 ^ 64; previous = 0 ∷ []; model_hash = 1 ∷ []; claimed = 2 ∷ [] }

wide_receipt_read : read_receipt wide_receipt ≡ some wide_parts
unfolding read_receipt from_hex
wide_receipt_read = refl

verify_receipt-struct_error_example :
    verify_receipt toy_crypto same_json after_two (codes "first") wide_receipt ≡ err struct_error
verify_receipt-struct_error_example =
    verify_receipt-struct_error toy_crypto same_json after_two (codes "first") wide_receipt
      wide_parts wide_receipt_read refl (omega arith)

verify_chain-answers_example :
    (b : Bool) × (verify_chain toy_crypto same_json [] after_two
        (record { alert = some (codes "first"); receipt = some wide_receipt } ∷ [])
        true
      ≡ ok b)
verify_chain-answers_example =
    verify_chain-answers toy_crypto same_json [] after_two
      (record { alert = some (codes "first"); receipt = some wide_receipt } ∷ []) true (omega arith)

abbrev late_commands : List (Command Bytes)
late_commands = register (codes "other") ∷ record_alert (codes "third") ∷ []

after_two-sequence : after_two.sequence ≡ 2
unfolding run append_all append register_model be polynomial
after_two-sequence = refl

after_two_used : after_two.sequence ≢ 0
after_two_used e = omega (arith, e, after_two-sequence)

obey_all-locked_example : Extends after_two (obey_all toy_crypto same_json late_commands after_two)
obey_all-locked_example =
    obey_all-locked toy_crypto same_json late_commands after_two after_two_used
