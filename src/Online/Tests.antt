-- ===== src/Online/Tests.antt =====
-- A run with two requests in the first turn, after which nothing comes any more; whole numbers in
-- place of floating-point ones.
use teecam.Prelude.{
  ℕ, zero, suc, ◌+◌, ◌≤◌, ◌≡◌, refl, arith, true, false, none, some, [], ◌∷◌, codes, text_eq,
  lookup, ok, leb, All, List, ◌++◌, map, length, whole_numbers,
}
use teecam.Features.Events.{Event, timestamp}
use teecam.Features.Rows.{Row}
use teecam.Features.Columns.{columns_of}
use teecam.Monitor.Batch.{pick}
use teecam.Online.State.{blank, no_data, event_line, Online, new_online}
use teecam.Online.Scoring.{Setting, ready_of}
use teecam.Online.Loop.{Turn, watch, monitor}
use teecam.Online.Held.{scored, held}
use teecam.Online.Traced.{IsAggregated, IsWhole, scorings_of}
use teecam.Features.Returns.{IsReadable}
use teecam.Online.Whole.{monitor-scored}
use teecam.Online.Lines.{IsFine, IsQuiet}
use teecam.Online.Turns.{IsWorking}
use teecam.Online.Ends.{monitor-ends}

abbrev request_at : ℕ → Event ℕ
request_at t = record {
  event_type = none;
  ts_unix_ns = some t;
  run_id = some (codes "run");
  scenario = some (codes "flood");
  is_attack = some true;
  operation = some (codes "PUT");
  result = some (codes "OK");
  latency_us = some (ok 3);
  input_bytes = some (ok 64);
  cpu_percent = none;
  rss_kb = none;
  key_fingerprint = none;
  request_fingerprint = none;
}

abbrev setting : Setting ℕ (Unit {0})
setting = record {
  floats = whole_numbers;
  window_seconds = 5;
  warmup_seconds = 0;
  model = record {
    features = codes "put_ratio" ∷ [];
    score = λ row. ok 9;
    threshold = 5;
    le = leb;
  };
  model_hash = codes "00";
  append = none;
  inference_us = λ n. n;
  audit_us = λ n. n;
}

setting-IsWorking : IsWorking setting
unfolding pick lookup text_eq columns_of
setting-IsWorking = record {
  seconds = omega arith;
  share = record { floor_le = λ n. omega arith; ceil_le = λ n. omega arith };
  scores = λ row. (9, refl);
  columns_known = λ row. ((codes "put_ratio", row.put_ratio) ∷ [], refl);
  appends = λ append e. absurd (cc e);
}

abbrev world : ℕ → Turn ℕ
world zero = record {
  requests = event_line (request_at 10000000007) ∷ blank ∷ event_line (request_at 16000000000) ∷ [];
  resources = no_data ∷ [];
  now = 20000000000;
  done = false;
}
world (suc n) = record { requests = []; resources = blank ∷ []; now = 20000000000 + n; done = true }

request-IsReadable : (t : ℕ) → IsReadable whole_numbers (request_at t)
unfolding timestamp
request-IsReadable t = record {
  time = (t, refl);
  latency = (3, refl, ((3000, 0), refl));
  size = (64, refl);
  cpu = (0, refl);
  rss = (0, refl);
}

world-IsFine :
    (n : ℕ)
    → All (IsFine whole_numbers) (world n).requests × All (IsFine whole_numbers) (world n).resources
world-IsFine zero =
    ((request-IsReadable 10000000007, (tt, (request-IsReadable 16000000000, tt))), (tt, tt))
world-IsFine (suc n) = (tt, (tt, tt))

world-over :
    (n : ℕ)
    → 1 ≤ n
    → ((world n).done ≡ true) × All IsQuiet (world n).requests × All IsQuiet (world n).resources
world-over zero h = absurd (omega (arith, h))
world-over (suc n) h = (refl, tt, (tt, tt))

abbrev ending :
    (out : Online ℕ (Unit {0})) × (monitor setting world 4 30000000000 tt ≡ ok out)
    × ((s : ℕ) → scored s out ≡ held s out)
ending = monitor-ends setting setting-IsWorking world 1 world-IsFine world-over 30000000000 tt

monitor-scored_example :
    ((s : ℕ) → (scored s ending.0 ≡ held s ending.0) × (held s ending.0 ≤ 1))
    × (map (λ window. window.0) ending.0.aggregated ≡ ending.0.processed)
    × All (IsAggregated setting ending.0) ending.0.aggregated
    × (length ending.0.inference_latencies ≡ scorings_of ending.0.aggregated)
    × ((o : Online ℕ (Unit {0}))
        → watch setting world 4 0 0 (new_online tt) ≡ ok o
        → (new : List (ℕ × List (Row ℕ))) × (ending.0.aggregated ≡ o.aggregated ++ new)
          × (map (λ window. window.0) new ≡ ready_of setting true 30000000000 o)
          × All (IsWhole setting ending.0) new)
monitor-scored_example = monitor-scored setting world 4 30000000000 tt ending.1
