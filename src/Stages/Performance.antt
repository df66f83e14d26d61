-- ===== src/Stages/Performance.antt =====
-- scripts/stage4-analyze-performance.py: means with intervals, the checks of the runs and the overhead.
use teecam.Prelude.{
  ℕ, zero, suc, ◌*◌, Bool, true, false, not, ◌&&◌, ◌||◌, ◌==◌, ltb, if◌then◌else◌, Option, none,
  some, List, [], ◌∷◌, map, length, filter, any, all, Text, codes, text_eq, Dict, Result, ok, err,
  runtime_error, type_error, ◌>>=◌, ◌>>◌, raise_if,
}

-- A JSON document, as far as `nested` tells its values apart
mutual
  pub data Json (Number : Type 0) : Type 0 where
    null : Json Number
    number : Number → Json Number
    text : Text → Json Number
    object : Members Number → Json Number

  pub data Members (Number : Type 0) : Type 0 where
    no_member : Members Number
    member : Text → Json Number → Members Number → Members Number

-- `value[part]`, or nothing if `part` is no key
unfoldable pub member_of : {Number : Type 0} → Text → Members Number → Option (Json Number)
unfolding text_eq
member_of part no_member = none
member_of part (member key value members) =
    let rest = member_of part members in if text_eq key part then some value else rest

-- `nested`, on the parts of the path; `float` of a text may raise
unfoldable pub nested :
    {Number : Type 0} → (Text → Result Number) → Json Number → List Text → Result (Option Number)
unfolding member_of
nested float null [] = ok none
nested float (number n) [] = ok (some n)
nested float (text t) [] = float t >>= λ n. ok (some n)
nested float (object members) [] = err type_error
nested float (object members) (part ∷ path) = elim (member_of part members) [
  | none ↦ ok none
  | some value ↦ nested float value path
]
nested float null (part ∷ path) = ok none
nested float (number n) (part ∷ path) = ok none
nested float (text t) (part ∷ path) = ok none

-- `METRICS`, with the parts of each path
abbrev pub metrics_paths : Dict (List Text)
metrics_paths =
    (codes "throughput_rps", codes "gateway" ∷ codes "throughput_rps" ∷ [])
    ∷ (codes "latency_p50_us", codes "gateway" ∷ codes "latency_p50_us" ∷ [])
    ∷ (codes "latency_p95_us", codes "gateway" ∷ codes "latency_p95_us" ∷ [])
    ∷ (codes "latency_p99_us", codes "gateway" ∷ codes "latency_p99_us" ∷ [])
    ∷ (
      codes "gateway_cpu_percent",
      codes "resources" ∷ codes "gateway" ∷ codes "cpu_percent_mean" ∷ [],
    )
    ∷ (codes "gateway_rss_kb", codes "resources" ∷ codes "gateway" ∷ codes "rss_kb_mean" ∷ [])
    ∷ (
      codes "container_cpu_percent",
      codes "resources" ∷ codes "container" ∷ codes "cpu_percent_mean" ∷ [],
    )
    ∷ (codes "container_rss_kb", codes "resources" ∷ codes "container" ∷ codes "rss_kb_mean" ∷ [])
    ∷ (
      codes "monitor_cpu_percent",
      codes "resources" ∷ codes "monitor" ∷ codes "cpu_percent_mean" ∷ [],
    )
    ∷ (codes "monitor_rss_kb", codes "resources" ∷ codes "monitor" ∷ codes "rss_kb_mean" ∷ [])
    ∷ (
      codes "inference_mean_us",
      codes "monitor" ∷ codes "inference_latency" ∷ codes "mean_us" ∷ [],
    )
    ∷ (codes "inference_p95_us", codes "monitor" ∷ codes "inference_latency" ∷ codes "p95_us" ∷ [])
    ∷ (codes "audit_register_us", codes "monitor" ∷ codes "audit_register_us" ∷ [])
    ∷ (
      codes "audit_append_mean_us",
      codes "monitor" ∷ codes "audit_append_latency" ∷ codes "mean_us" ∷ [],
    )
    ∷ (
      codes "audit_append_p95_us",
      codes "monitor" ∷ codes "audit_append_latency" ∷ codes "p95_us" ∷ [],
    )
    ∷ []

-- A result file: the keys that are read by name, "monitor" with its alerts if there is one, and the
-- whole document.
pub record RunResult (Number : Type 0) : Type 0 where
  pub status : Option Text
  pub configuration : Text
  pub repeat : ℕ
  pub telemetry_enabled : Bool
  pub requests : ℕ
  pub monitor_alerts : Option ℕ
  pub document : Json Number

-- What `mean_ci` returns
pub record MeanInterval (Number : Type 0) : Type 0 where
  pub mean : Option Number
  pub ci95 : Option Number × Option Number
  pub n : ℕ

-- Whether the runs of a configuration are told to be as the configuration says
unfoldable pub is_passed : {Number : Type 0} → RunResult Number → Bool
is_passed item = elim item.status [ none ↦ false | some status ↦ text_eq status (codes "PASS") ]

unfoldable pub has_monitor : {Number : Type 0} → RunResult Number → Bool
has_monitor item = elim item.monitor_alerts [ none ↦ false | some alerts ↦ true ]

-- `int(item["monitor"]["alerts"]) <= 0`
unfoldable pub lacks_alert : {Number : Type 0} → RunResult Number → Bool
lacks_alert item = elim item.monitor_alerts [ none ↦ true | some alerts ↦ alerts == 0 ]

-- `[item for item in results if item["configuration"] == configuration]`
unfoldable pub group_of :
    {Number : Type 0} → Text → List (RunResult Number) → List (RunResult Number)
unfolding filter
group_of configuration = filter (λ item. text_eq item.configuration configuration)

-- `{repeats of the group} == set(range(repeats))`
unfoldable pub covers : ℕ → List ℕ → Bool
unfolding any all
covers zero seen = true
covers (suc repeats) seen = any (λ other. other == repeats) seen && covers repeats seen

abbrev differs : Bool → Bool → Bool
differs true other = not other
differs false other = other

-- The checks of a configuration
unfoldable pub check_configuration :
    {Number : Type 0} → ℕ → List (RunResult Number) → Text → Result (Unit {0})
unfolding group_of covers has_monitor lacks_alert any all text_eq
check_configuration repeats results configuration = do
  let group = group_of configuration results
  let seen = map (λ item. item.repeat) group
  let audited = text_eq configuration (codes "telemetry_iforest_audit_ta")
  raise_if
      (not (length group == repeats) || not (covers repeats seen && all (λ r. ltb r repeats) seen))
      runtime_error
  let expected_telemetry = not (text_eq configuration (codes "gateway_only"))
  raise_if (any (λ item. differs item.telemetry_enabled expected_telemetry) group) runtime_error
  let expected_monitor = text_eq configuration (codes "telemetry_iforest") || audited
  raise_if (any (λ item. differs (has_monitor item) expected_monitor) group) runtime_error
  raise_if (audited && any lacks_alert group) runtime_error

unfoldable pub check_configurations :
    {Number : Type 0} → ℕ → List (RunResult Number) → List Text → Result (Unit {0})
unfolding check_configuration
check_configurations repeats results [] = ok tt
check_configurations repeats results (configuration ∷ configurations) =
    check_configuration repeats results configuration
    >> check_configurations repeats results configurations

-- The checks of `main` before anything is computed
unfoldable pub check_results :
    {Number : Type 0} → ℕ → List Text → List (RunResult Number) → Result (Unit {0})
unfolding is_passed check_configurations any
check_results repeats configurations results = do
  raise_if (not (length results == length configurations * repeats)) runtime_error
  raise_if (any (λ item. not (is_passed item)) results) runtime_error
  check_configurations repeats results configurations
