-- ===== src/Features/Events.antt =====
-- The telemetry events that `aggregate_events` of cote3mon/features.py reads.
use teecam.Prelude.{
  ℕ, Bool, Option, none, some, [], Text, codes, text_eq, Result, ok, err, key_error,
}

-- A JSON object with the keys that the code asks for; each may be missing.
pub record Event (Number : Type 0) : Type 0 where
  pub event_type : Option Text
  pub ts_unix_ns : Option ℕ
  pub run_id : Option Text
  pub scenario : Option Text
  pub is_attack : Option Bool
  pub operation : Option Text
  pub result : Option Text
  -- what `float` makes of the value: null, for one, raises a `TypeError`
  pub latency_us : Option (Result Number)
  pub input_bytes : Option (Result Number)
  pub cpu_percent : Option (Result Number)
  pub rss_kb : Option (Result Number)
  pub key_fingerprint : Option Text
  pub request_fingerprint : Option Text

-- `event.get(key, default)`
abbrev pub get_value : {A : Type 0} → A → Option A → A
get_value default none = default
get_value default (some a) = a

module _ {Number : Type 0} where
  -- `event.get("event_type", "request") == "request"`
  unfoldable pub is_request : Event Number → Bool
  is_request event = text_eq (get_value (codes "request") event.event_type) (codes "request")

  -- `event.get("event_type") == "resource"`
  unfoldable pub is_resource : Event Number → Bool
  is_resource event = text_eq (get_value [] event.event_type) (codes "resource")

  -- `str(event.get("run_id", "unknown"))`
  unfoldable pub run_of : Event Number → Text
  run_of event = get_value (codes "unknown") event.run_id

  -- `int(event["ts_unix_ns"])`
  unfoldable pub timestamp : Event Number → Result ℕ
  timestamp event = elim event.ts_unix_ns [ none ↦ err key_error | some t ↦ ok t ]
