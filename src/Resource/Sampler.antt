-- ===== src/Resource/Sampler.antt =====
-- `ProcessSampler` and `sample_to_jsonl` of cote3mon/resource.py, on what `/proc` and the clocks give.
use teecam.Prelude.{
  ℕ, ◌+◌, ◌-◌, Bool, true, false, not, ◌==◌, if◌then◌else◌, Option, none, some, List, [], ◌∷◌, ◌++◌,
  Text, codes, Result, ok, err, value_error, runtime_error, ◌>>◌, raise_if, Floats,
}
use teecam.Features.Events.{Event}

-- What one reading finds: the two counts of ticks of "stat", the monotonic clock, and the "VmRSS" of
-- "status" if there is such a line. Both only grow between two readings.
pub record Reading : Type 0 where
  pub user_ticks : ℕ
  pub system_ticks : ℕ
  pub monotonic_ns : ℕ
  pub rss : Option ℕ

pub record ProcessSampler : Type 0 where
  pub clock_ticks : ℕ
  pub previous : Option (ℕ × ℕ)

unfoldable pub new_sampler : ℕ → ProcessSampler
new_sampler clock_ticks = record { clock_ticks = clock_ticks; previous = none }

module _ {Number : Type 0} (floats : Floats Number) where
  open floats use {ratio, mul, div}

  -- `cpu_percent`, from the ticks and the time of the reading before
  unfoldable pub cpu_percent_of : ProcessSampler → ℕ → ℕ → Number
  cpu_percent_of sampler ticks now = elim sampler.previous [
    | none ↦ ratio 0 1
    | some (before, then_ns) ↦
        if now - then_ns == 0
        then ratio 0 1
        else div (mul (ratio 100 1) (ratio (ticks - before) sampler.clock_ticks))
            (ratio (now - then_ns) 1000000000)
  ]

  -- `sample`
  unfoldable pub sample : Reading → ProcessSampler → (Number × ℕ) × ProcessSampler
  unfolding cpu_percent_of
  sample reading sampler =
      let ticks = reading.user_ticks + reading.system_ticks in
      let rss_kb = elim reading.rss as (λ _. ℕ) [ none ↦ 0 | some n ↦ n ] in
      (
        (cpu_percent_of sampler ticks reading.monotonic_ns, rss_kb),
        record sampler { previous = some (ticks, reading.monotonic_ns) },
      )

  -- What one round of `sample_to_jsonl` meets: whether there is time left, the reading, or nothing if
  -- the process is gone, and the time that is written.
  pub record Tick : Type 0 where
    pub in_time : Bool
    pub reading : Option Reading
    pub ts_unix_ns : ℕ

  -- `event`, whose numbers are all there
  unfoldable pub resource_event : Text → Text → Bool → ℕ → Number → ℕ → Event Number
  resource_event run_id scenario is_attack now cpu rss = record {
    event_type = some (codes "resource");
    ts_unix_ns = some now;
    run_id = some run_id;
    scenario = some scenario;
    is_attack = some is_attack;
    operation = none;
    result = none;
    latency_us = none;
    input_bytes = none;
    cpu_percent = some (ok cpu);
    rss_kb = some (ok (ratio rss 1));
    key_fingerprint = none;
    request_fingerprint = none;
  }

  module _ (run_id scenario : Text) (is_attack : Bool) where
    -- The `while` loop, over the rounds: the lines of the file and the count
    unfoldable pub sample_rounds :
        List Tick → ProcessSampler → List (Event Number) → ℕ → Result (List (Event Number) × ℕ)
    unfolding sample resource_event
    sample_rounds [] sampler lines count = err runtime_error
    sample_rounds (tick ∷ ticks) sampler lines count = elim tick.in_time [
      | false ↦ ok (lines, count)
      | true ↦ elim tick.reading [
        | none ↦ ok (lines, count)
        | some reading ↦
            let measured = sample reading sampler in
            let event =
              resource_event run_id scenario is_attack tick.ts_unix_ns measured.0.0 measured.0.1 in
            sample_rounds ticks measured.1 (lines ++ (event ∷ [])) (count + 1)
      ]
    ]

    -- `sample_to_jsonl`, whose duration and interval are positive or not
    unfoldable pub sample_to_jsonl :
        Bool → Bool → ℕ → List Tick → List (Event Number) → Result (List (Event Number) × ℕ)
    unfolding sample_rounds new_sampler
    sample_to_jsonl positive_duration positive_interval clock_ticks ticks lines = do
      raise_if (not positive_duration) value_error
      raise_if (not positive_interval) value_error
      sample_rounds ticks (new_sampler clock_ticks) lines 0
