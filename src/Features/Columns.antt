-- ===== src/Features/Columns.antt =====
-- A row of `aggregate_events` as the dict that it is: the columns that hold numbers, by name.
use teecam.Prelude.{if◌then◌else◌, [], ◌∷◌, codes, Dict, Floats, of_nat}
use teecam.Features.Rows.{Row}

module _ {Number : Type 0} (floats : Floats Number) where
  unfoldable pub columns_of : Row Number → Dict Number
  columns_of row =
      (codes "is_attack", of_nat floats (if row.is_attack then 1 else 0))
      ∷ (codes "window_start_ns", of_nat floats row.window_start_ns)
      ∷ (codes "request_rate", row.request_rate)
      ∷ (codes "put_ratio", row.put_ratio)
      ∷ (codes "get_ratio", row.get_ratio)
      ∷ (codes "delete_ratio", row.delete_ratio)
      ∷ (codes "reject_ratio", row.reject_ratio)
      ∷ (codes "error_ratio", row.error_ratio)
      ∷ (codes "latency_mean_us", row.latency_mean_us)
      ∷ (codes "latency_p95_us", row.latency_p95_us)
      ∷ (codes "input_mean_bytes", row.input_mean_bytes)
      ∷ (codes "input_max_bytes", row.input_max_bytes)
      ∷ (codes "cpu_percent_mean", row.cpu_percent_mean)
      ∷ (codes "rss_kb_mean", row.rss_kb_mean)
      ∷ (codes "key_reuse_ratio", row.key_reuse_ratio)
      ∷ (codes "request_reuse_ratio", row.request_reuse_ratio)
      ∷ (codes "operation_transition_ratio", row.operation_transition_ratio)
      ∷ (codes "idle_mean_us", row.idle_mean_us)
      ∷ (codes "idle_p95_us", row.idle_p95_us)
      ∷ (codes "idle_cv", row.idle_cv)
      ∷ []
