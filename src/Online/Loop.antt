-- ===== src/Online/Loop.antt =====
-- The loop of scripts/guest-online-monitor.py, and the summary at its end.
use teecam.Prelude.{
  ℕ, zero, suc, ◌+◌, ◌*◌, Bool, true, false, ◌&&◌, ◌==◌, leb, if◌then◌else◌, List, length, Result,
  ok, err, runtime_error, ◌>>=◌, Floats,
}
use teecam.Features.Percentile.{percentile}
use teecam.Features.Rows.{mean_or_zero}
use teecam.Online.State.{Line, Online, new_online, ingest}
use teecam.Online.Scoring.{Setting, window_ns, score_ready}

-- What one turn of the loop finds: the new lines of both files, the time, and whether the file that
-- says that the run is done is there.
pub record Turn (Number : Type 0) : Type 0 where
  pub requests : List (Line Number)
  pub resources : List (Line Number)
  pub now : ℕ
  pub done : Bool

-- `quiet_after_done` after a turn
unfoldable pub quiet_after : Bool → ℕ → ℕ → ℕ
quiet_after done added quiet = if done then (if added == 0 then quiet + 1 else 0) else quiet

-- The end of a turn: `break`, or the turns that are left.
unfoldable pub after_turn : {State : Type 0} → Bool → ℕ → State → Result State → Result State
after_turn done count state rest = if done && leb 3 count then ok state else rest

module _ {Number Store : Type 0} (setting : Setting Number Store) where
  -- A turn up to the test for the file: the state, and how many events were added.
  unfoldable pub turn : Turn Number → Online Number Store → Result (Online Number Store × ℕ)
  unfolding ingest score_ready
  turn world o = do
    asked ← ingest (window_ns setting) (setting.warmup_seconds * 1000000000) world.requests o
    sampled ←
        ingest (window_ns setting) (setting.warmup_seconds * 1000000000) world.resources asked.0
    scored ← score_ready setting false world.now sampled.0
    ok (scored, asked.1 + sampled.1)

  -- The `while` loop from a turn on, on fuel.
  unfoldable pub watch :
      (ℕ → Turn Number) → ℕ → ℕ → ℕ → Online Number Store → Result (Online Number Store)
  unfolding turn quiet_after after_turn
  watch world zero n quiet o = err runtime_error
  watch world (suc fuel) n quiet o = turn (world n) o >>= λ next.
      let count = quiet_after (world n).done next.1 quiet in
      let rest = watch world fuel (suc n) count next.0 in
      after_turn (world n).done count next.0 rest

  -- The loop and the last `score_ready(force=True)`
  unfoldable pub monitor : (ℕ → Turn Number) → ℕ → ℕ → Store → Result (Online Number Store)
  unfolding watch score_ready new_online
  monitor world fuel last_now store = do
    o ← watch world fuel 0 0 (new_online store)
    score_ready setting true last_now o

-- `latency_summary`
pub record LatencySummary (Number : Type 0) : Type 0 where
  pub count : ℕ
  pub mean_us : Number
  pub p50_us : Number
  pub p95_us : Number
  pub p99_us : Number

-- `result`, less what is known before the loop
pub record Summary (Number : Type 0) : Type 0 where
  pub windows : ℕ
  pub alerts : ℕ
  pub inference_latency : LatencySummary Number
  pub audit_append_latency : LatencySummary Number

module _ {Number : Type 0} (floats : Floats Number) where
  unfoldable pub latency_summary : List Number → Result (LatencySummary Number)
  unfolding percentile mean_or_zero
  latency_summary values = do
    p50 ← percentile floats values (floats.ratio 50 100)
    p95 ← percentile floats values (floats.ratio 95 100)
    p99 ← percentile floats values (floats.ratio 99 100)
    ok (record {
      count = length values;
      mean_us = mean_or_zero floats values;
      p50_us = p50;
      p95_us = p95;
      p99_us = p99;
    })

  unfoldable pub summary_of : {Store : Type 0} → Online Number Store → Result (Summary Number)
  unfolding latency_summary
  summary_of o = do
    inference ← latency_summary o.inference_latencies
    audit ← latency_summary o.audit_latencies
    ok (record {
      windows = length o.inference_latencies;
      alerts = length o.records;
      inference_latency = inference;
      audit_append_latency = audit;
    })
