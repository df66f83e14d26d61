-- ===== src/Monitor/Load.antt =====
-- `load_detector` of cote3mon/monitor.py, and `register_model` and `append` of `OpteeAuditBackend`.
use teecam.Prelude.{
  if◌then◌else◌, Option, none, some, List, [], ◌∷◌, Bytes, Text, codes, text_eq, Dict, Result, ok,
  err, value_error, ◌>>=◌, Floats,
}
use teecam.Audit.Crypto.{Crypto}
use teecam.Audit.Hex.{hex}
use teecam.Audit.Store.{Receipt}
use teecam.Forest.Score.{ForestDocument, Runtime, forest_schema, new_runtime, runtime_score}
use teecam.Threshold.Model.{PercentileDocument, PercentileModel, percentile_schema, load, score}

-- A detector is a forest or a model of percentiles.
pub data LoadedDetector (Number : Type 0) : Type 0 where
  forest : Runtime Number → LoadedDetector Number
  percentiles : PercentileModel Number → LoadedDetector Number

-- What the file holds: the "schema" if there is one, and the document as each of the readers takes it
pub record ModelFile (Number : Type 0) : Type 0 where
  pub schema : Option Text
  pub as_forest : ForestDocument Number
  pub as_percentiles : PercentileDocument Number

unfoldable pub load_detector : {Number : Type 0} → ModelFile Number → Result (LoadedDetector Number)
unfolding new_runtime load text_eq
load_detector model = elim model.schema [
  | none ↦ err value_error
  | some schema ↦
      if text_eq schema forest_schema
      then (new_runtime model.as_forest >>= λ runtime. ok (forest runtime))
      else if text_eq schema percentile_schema
      then (load model.as_percentiles >>= λ percentile_model. ok (percentiles percentile_model))
      else err value_error
]

-- `detector.score(row)`
unfoldable pub detector_score :
    {Number : Type 0} → Floats Number → LoadedDetector Number → Dict Number → Result Number
unfolding runtime_score score
detector_score floats (forest runtime) row = runtime_score floats runtime row
detector_score floats (percentiles model) row = score floats model row

module _ (crypto : Crypto) {Client : Type 0}
    (run : List Text → Client → Result (Text × Client)) where
  -- `register_model`, where `run` is the client program: what it prints, or its failure
  unfoldable pub client_register : Bytes → Client → Result (Text × Client)
  client_register model client = do
    let digest = hex (crypto.sha256 model)
    answer ← run (codes "register" ∷ digest ∷ []) client
    ok (digest, answer.1)

  -- `append`, where `receipt_of` is the reading of the answer as JSON
  unfoldable pub client_append :
      (Text → Result Receipt) → Bytes → Client → Result (Receipt × Client)
  client_append receipt_of alert_json client = do
    answer ← run (codes "append" ∷ hex (crypto.sha256 alert_json) ∷ []) client
    receipt ← receipt_of answer.0
    ok (receipt, answer.1)
