-- ===== src/Features/Buckets.antt =====
-- `aggregate_events` of cote3mon/features.py, up to the buckets: the first request of each run, and
-- the events of each window.
use teecam.Prelude.{
  ℕ, ◌+◌, ◌-◌, ◌%◌, min, Bool, false, not, ◌&&◌, ltb, ◌==◌, if◌then◌else◌, none, some, List, [],
  ◌∷◌, ◌++◌, Text, text_eq, Dict, lookup, insert, Result, ok, ◌>>=◌,
}
use teecam.Features.Events.{Event, is_request, run_of, timestamp, get_value}

-- An entry of `buckets`, whose key is the run and the start of the window
pub record Bucket (Number : Type 0) : Type 0 where
  pub run_id : Text
  pub start : ℕ
  pub events : List (Event Number)

-- `run_id in first_request and timestamp < first_request[run_id] + warmup_ns`
unfoldable pub in_warmup : Dict ℕ → ℕ → Text → ℕ → Bool
unfolding lookup
in_warmup first warmup_ns run t = elim (lookup run first) [
  | none ↦ false
  | some begin ↦ ltb t (begin + warmup_ns)
]

-- `timestamp - timestamp % window_ns`
unfoldable pub start_of : ℕ → ℕ → ℕ
start_of window_ns t = t - t % window_ns

module _ {Number : Type 0} where
  -- The first loop: `first_request`
  unfoldable pub first_requests : List (Event Number) → Dict ℕ → Result (Dict ℕ)
  unfolding is_request run_of timestamp lookup insert
  first_requests [] first = ok first
  first_requests (event ∷ events) first =
      let skipped = first_requests events first in
      let counted = timestamp event >>= λ t.
      first_requests events
        (insert (run_of event) (min (get_value t (lookup (run_of event) first)) t) first) in
      if not (is_request event) then skipped else counted

  unfoldable pub has_key : Text → ℕ → Bucket Number → Bool
  has_key run start bucket = text_eq bucket.run_id run && bucket.start == start

  -- `buckets[(run_id, start)].append(event)` on a `defaultdict(list)`
  unfoldable pub add_event : Text → ℕ → Event Number → List (Bucket Number) → List (Bucket Number)
  unfolding has_key
  add_event run start event [] = record { run_id = run; start = start; events = event ∷ [] } ∷ []
  add_event run start event (bucket ∷ buckets) =
      if has_key run start bucket
      then record bucket { events = bucket.events ++ (event ∷ []) } ∷ buckets
      else bucket ∷ add_event run start event buckets

  -- The second loop
  unfoldable pub fill_buckets :
      Dict ℕ → ℕ → ℕ → List (Event Number) → List (Bucket Number) → Result (List (Bucket Number))
  unfolding timestamp run_of in_warmup start_of add_event
  fill_buckets first window_ns warmup_ns [] buckets = ok buckets
  fill_buckets first window_ns warmup_ns (event ∷ events) buckets = timestamp event >>= λ t.
      let run = run_of event in
      let next =
        if in_warmup first warmup_ns run t
        then buckets
        else add_event run (start_of window_ns t) event buckets in
      fill_buckets first window_ns warmup_ns events next
