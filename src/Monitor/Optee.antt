-- ===== src/Monitor/Optee.antt =====
-- `class OpteeAuditBackend` of cote3mon/monitor.py: the client of the trusted application, which is
-- a program that the backend runs.
use teecam.Prelude.{
  ℕ, ◌+◌, Bool, true, false, ◌&&◌, ◌||◌, ◌==◌, leb, all, if◌then◌else◌, Option, none, some, List,
  [], ◌∷◌, length, Bytes, Text, codes, text_eq,
}
use teecam.Audit.Hex.{hex}
use teecam.Audit.Crypto.{Crypto}
use teecam.Audit.Store.{Receipt, Record}

-- `"00" * 32`
abbrev pub zero_text : Text
zero_text = codes "0000000000000000000000000000000000000000000000000000000000000000"

-- A receipt with no field missing, its values as texts.
pub record Fields : Type 0 where
  pub sequence : ℕ
  pub previous_head : Text
  pub alert_hash : Text
  pub model_hash : Text
  pub head : Text

-- What the program prints for "head".
pub record Current : Type 0 where
  pub sequence : ℕ
  pub head : Text
  pub model_hash : Text

-- The program, which is the client under optee/audit_ta/host: whether it prints VALID for "verify" with these arguments, where a failure of the
-- program is no VALID; and what `get_head` returns, nothing where it raises.
pub record Program : Type 0 where
  pub prints_valid : Fields → Bool
  pub get_head : Option Current

-- The subscripts of a receipt; a missing key is a `KeyError`, which is caught.
unfoldable pub fields_of : Receipt → Option Fields
fields_of r = elim r.sequence [
  | none ↦ none
  | some sequence ↦ elim r.previous_head [
    | none ↦ none
    | some previous_head ↦ elim r.alert_hash [
      | none ↦ none
      | some alert_hash ↦ elim r.model_hash [
        | none ↦ none
        | some model_hash ↦ elim r.head [
          | none ↦ none
          | some head ↦ some (record {
            sequence = sequence;
            previous_head = previous_head;
            alert_hash = alert_hash;
            model_hash = model_hash;
            head = head;
          })
        ]
      ]
    ]
  ]
]

-- `verify_receipt`
unfoldable pub accepts_receipt : Program → Receipt → Bool
unfolding fields_of
accepts_receipt program r = elim (fields_of r) [ none ↦ false | some f ↦ program.prints_valid f ]

-- `len(value) != 64` and `character not in "0123456789abcdef"` say that it is not.
unfoldable pub is_digest_text : Text → Bool
is_digest_text value =
    length value == 64 && all (λ c. (leb b'0' c && leb c b'9') || (leb b'a' c && leb c b'f')) value

-- `if model_hash is None: ... elif fields[2] != model_hash: return False`
unfoldable pub keeps_model : Option Text → Text → Bool
keeps_model none seen = true
keeps_model (some model_hash) seen = text_eq seen model_hash

module _ (crypto : Crypto) {Alert : Type 0} (canonical_json : Alert → Bytes)
    (program : Program) where
  -- `hashlib.sha256(canonical_json(record["alert"])).hexdigest()`
  abbrev pub alert_hash_of : Alert → Text
  alert_hash_of alert = hex (crypto.sha256 (canonical_json alert))

  -- The tests of one round of the loop, once all keys were found.
  unfoldable pub passes : Text → ℕ → Option Text → Alert → Receipt → Fields → Bool
  unfolding is_digest_text keeps_model accepts_receipt
  passes previous sequence model_hash alert receipt f =
      is_digest_text f.previous_head
      && is_digest_text f.alert_hash
      && is_digest_text f.model_hash
      && is_digest_text f.head
      && f.sequence == sequence
      && text_eq f.previous_head previous
      && text_eq f.alert_hash (alert_hash_of alert)
      && keeps_model model_hash f.model_hash
      && accepts_receipt program receipt

  -- One round of the loop: the fields of a record that passes, nothing where it returns `False`.
  unfoldable pub check_link : Text → ℕ → Option Text → Record Alert → Option Fields
  unfolding passes fields_of
  check_link previous sequence model_hash r = elim r.receipt [
    | none ↦ none
    | some receipt ↦ elim r.alert [
      | none ↦ none
      | some alert ↦ elim (fields_of receipt) [
        | none ↦ none
        | some f ↦ if passes previous sequence model_hash alert receipt f then some f else none
      ]
    ]
  ]

  -- The loop over its variables `previous`, `sequence` and `model_hash`.
  unfoldable pub check_links :
      Text → ℕ → Option Text → List (Record Alert) → Option (Text × ℕ × Option Text)
  unfolding check_link
  check_links previous sequence model_hash [] = some (previous, sequence, model_hash)
  check_links previous sequence model_hash (r ∷ rs) =
      elim (check_link previous (sequence + 1) model_hash r) [
        | none ↦ none
        | some f ↦ check_links f.head (sequence + 1) (some f.model_hash) rs
      ]

  -- The comparison with `get_head` at the end.
  unfoldable pub matches_head : Option Current → Text → ℕ → Option Text → Bool
  unfolding keeps_model
  matches_head none previous sequence model_hash = false
  matches_head (some current) previous sequence none =
      current.sequence == sequence && text_eq current.head previous && sequence == 0
  matches_head (some current) previous sequence (some model_hash) =
      current.sequence == sequence
      && text_eq current.head previous
      && (sequence == 0 || text_eq current.model_hash model_hash)

  -- `verify_chain`
  unfoldable pub accepts_chain : List (Record Alert) → Bool → Bool
  unfolding check_links matches_head
  accepts_chain records require_current_head = elim (check_links zero_text 0 none records) [
    | none ↦ false
    | some p ↦ if require_current_head then matches_head program.get_head p.0 p.1 p.2 else true
  ]
