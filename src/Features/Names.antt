-- ===== src/Features/Names.antt =====
-- The columns of a table of windows in cote3mon/features.py.
use teecam.Prelude.{List, [], ◌∷◌, ◌++◌, Text, codes}

abbrev pub base_feature_names : List Text
base_feature_names =
    codes "request_rate"
    ∷ codes "put_ratio"
    ∷ codes "get_ratio"
    ∷ codes "delete_ratio"
    ∷ codes "reject_ratio"
    ∷ codes "error_ratio"
    ∷ codes "latency_mean_us"
    ∷ codes "latency_p95_us"
    ∷ codes "input_mean_bytes"
    ∷ codes "input_max_bytes"
    ∷ codes "cpu_percent_mean"
    ∷ codes "rss_kb_mean"
    ∷ []

abbrev pub feature_names : List Text
feature_names = base_feature_names

abbrev pub repetition_feature_names : List Text
repetition_feature_names = codes "key_reuse_ratio" ∷ codes "request_reuse_ratio" ∷ []

abbrev pub temporal_feature_names : List Text
temporal_feature_names =
    codes "operation_transition_ratio"
    ∷ codes "idle_mean_us"
    ∷ codes "idle_p95_us"
    ∷ codes "idle_cv"
    ∷ []

abbrev pub enhanced_feature_names : List Text
enhanced_feature_names = base_feature_names ++ (repetition_feature_names ++ temporal_feature_names)

abbrev pub meta_names : List Text
meta_names = codes "run_id" ∷ codes "scenario" ∷ codes "is_attack" ∷ codes "window_start_ns" ∷ []
