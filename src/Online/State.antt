-- ===== src/Online/State.antt =====
-- The state of scripts/guest-online-monitor.py and what `ingest` does to it.
use teecam.Prelude.{
  ℕ, ◌+◌, ◌-◌, ◌%◌, Bool, true, ◌==◌, ltb, if◌then◌else◌, Option, none, some, List, [], ◌∷◌, ◌++◌,
  Result, ok, err, value_error, os_error, ◌>>=◌,
}
use teecam.Features.Events.{Event, is_request, timestamp}
use teecam.Features.Rows.{Row}
use teecam.Audit.Store.{Record}
use teecam.Monitor.Batch.{Alert}

-- What `readline` gives, and the line is as JSON; at the end of a list it gives no line.
pub data Line (Number : Type 0) : Type 0 where
  -- a line with nothing on it
  blank : Line Number
  -- a line that is no JSON
  unreadable : Line Number
  -- the `OSError` of a file with no data yet, and any other
  no_data : Line Number
  broken : Line Number
  event_line : Event Number → Line Number

-- The variables of `main`. `processed` is a list here, in the order in which windows were added.
pub record Online (Number Store : Type 0) : Type 0 where
  pub first_request_ns : Option ℕ
  pub buckets : List (ℕ × List (Event Number))
  pub processed : List ℕ
  -- no variable of `main`: what `aggregate_events` has returned for each window that was scored
  pub aggregated : List (ℕ × List (Row Number))
  pub inference_latencies : List Number
  pub audit_latencies : List Number
  pub records : List (Record (Alert Number))
  pub audit : Store

unfoldable pub new_online : {Number Store : Type 0} → Store → Online Number Store
new_online store = record {
  first_request_ns = none;
  buckets = [];
  processed = [];
  aggregated = [];
  inference_latencies = [];
  audit_latencies = [];
  records = [];
  audit = store;
}

-- `first_request_ns is None or timestamp < first_request_ns + warmup_ns`
unfoldable pub is_early : ℕ → ℕ → Option ℕ → Bool
is_early warmup_ns t none = true
is_early warmup_ns t (some first) = ltb t (first + warmup_ns)

module _ {Number : Type 0} where
  -- `buckets[start].append(event)`
  unfoldable pub add_at :
      ℕ → Event Number → List (ℕ × List (Event Number)) → List (ℕ × List (Event Number))
  add_at start event [] = (start, event ∷ []) ∷ []
  add_at start event ((key, events) ∷ buckets) =
      let rest = add_at start event buckets in
      if key == start then (key, events ++ (event ∷ [])) ∷ buckets else (key, events) ∷ rest

  -- `buckets[start]`
  unfoldable pub events_in : ℕ → List (ℕ × List (Event Number)) → List (Event Number)
  events_in start [] = []
  events_in start ((key, events) ∷ buckets) =
      let rest = events_in start buckets in if key == start then events else rest

  -- `first_request_ns` once an event of that time is read
  unfoldable pub seen : Event Number → ℕ → Option ℕ → Option ℕ
  seen event t (some first) = some first
  seen event t none = if is_request event then some t else none

module _ {Number Store : Type 0} (window_ns warmup_ns : ℕ) where
  -- What a line with an event does, and whether it is counted.
  unfoldable pub take_event : Event Number → ℕ → Online Number Store → Online Number Store × ℕ
  unfolding seen is_early add_at
  take_event event t o =
      let first = seen event t o.first_request_ns in
      let noted = record o { first_request_ns = first } in
      if is_early warmup_ns t first
      then (noted, 0)
      else (record noted { buckets = add_at (t - t % window_ns) event o.buckets }, 1)

  -- `ingest`, on what `readline` gives
  unfoldable pub ingest :
      List (Line Number) → Online Number Store → Result (Online Number Store × ℕ)
  unfolding timestamp take_event
  ingest [] o = ok (o, 0)
  ingest (no_data ∷ lines) o = ok (o, 0)
  ingest (broken ∷ lines) o = err os_error
  ingest (blank ∷ lines) o = ingest lines o
  ingest (unreadable ∷ lines) o = err value_error
  ingest (event_line event ∷ lines) o = do
    t ← timestamp event
    let taken = take_event event t o
    rest ← ingest lines taken.0
    ok (rest.0, taken.1 + rest.1)
