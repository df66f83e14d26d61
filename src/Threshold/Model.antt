-- ===== src/Threshold/Model.antt =====
-- `PercentileModel` of cote3mon/threshold.py.
use teecam.Prelude.{
  Bool, false, not, ◌&&◌, ◌||◌, ◌==◌, if◌then◌else◌, List, [], ◌∷◌, length, none, some, Option,
  Text, codes, text_eq, Dict, Result, ok, err, value_error, zero_division, key_error, ◌>>=◌, ◌>>◌,
  raise_if, Floats, maximum, nonzero,
}
use teecam.Features.Percentile.{percentile}
use teecam.Features.Tables.{field}

pub record PercentileModel (Number : Type 0) : Type 0 where
  pub features : List Text
  pub centres : List Number
  pub scales : List Number
  pub threshold : Number

-- The constant under "schema"
abbrev pub percentile_schema : Text
percentile_schema = codes "cote3-mon-percentile-v1"

-- What `to_dict` returns and `load` reads, where a key that is missing is `none`
pub record PercentileDocument (Number : Type 0) : Type 0 where
  pub schema : Option Text
  pub features : Option (List Text)
  pub centres : Option (List Number)
  pub scales : Option (List Number)
  pub threshold : Option Number

-- `data[key]`
unfoldable pub required : {A : Type 0} → Option A → Result A
required none = err key_error
required (some a) = ok a

-- `[float(row[feature]) for row in rows]`
unfoldable pub column : {Number : Type 0} → Text → List (Dict Number) → Result (List Number)
unfolding field
column feature [] = ok []
column feature (row ∷ rows) = do
  value ← field row feature
  rest ← column feature rows
  ok (value ∷ rest)

module _ {Number : Type 0} (floats : Floats Number) where
  open floats use {ratio, sub, div, lt, absolute}

  -- `a / b`, which raises for a zero
  unfoldable pub quotient : Number → Number → Result Number
  quotient a b = if nonzero floats b then ok (div a b) else err zero_division

  -- `max(centre - low, high - centre, 1e-9)`
  unfoldable pub scale_of : Number → Number → Number → Number
  scale_of centre low high =
      maximum floats (sub centre low) (sub high centre ∷ ratio 1 1000000000 ∷ [])

  -- The loop over the features: the centres and the scales
  unfoldable pub calibrate : List Text → List (Dict Number) → Result (List Number × List Number)
  unfolding column percentile scale_of
  calibrate [] rows = ok ([], [])
  calibrate (feature ∷ features) rows = do
    values ← column feature rows
    centre ← percentile floats values (ratio 1 2)
    low ← percentile floats values (ratio 1 100)
    high ← percentile floats values (ratio 99 100)
    rest ← calibrate features rows
    ok (centre ∷ rest.0, scale_of centre low high ∷ rest.1)

  -- The deviations that `score` takes the maximum of; `zip` stops with the shortest list.
  unfoldable pub deviations :
      Dict Number → List Text → List Number → List Number → Result (List Number)
  unfolding field quotient
  deviations row [] centres scales = ok []
  deviations row (feature ∷ features) [] scales = ok []
  deviations row (feature ∷ features) (centre ∷ centres) [] = ok []
  deviations row (feature ∷ features) (centre ∷ centres) (scale ∷ scales) = do
    value ← field row feature
    deviation ← quotient (absolute (sub value centre)) scale
    rest ← deviations row features centres scales
    ok (deviation ∷ rest)

  -- `max` of a list, which raises for an empty one
  unfoldable pub max_of : List Number → Result Number
  max_of [] = err value_error
  max_of (x ∷ xs) = ok (maximum floats x xs)

  unfoldable pub score : PercentileModel Number → Dict Number → Result Number
  unfolding deviations max_of
  score model row = deviations row model.features model.centres model.scales >>= max_of

  unfoldable pub scores : PercentileModel Number → List (Dict Number) → Result (List Number)
  unfolding score
  scores model [] = ok []
  scores model (row ∷ rows) = do
    first ← score model row
    rest ← scores model rows
    ok (first ∷ rest)

  unfoldable pub is_anomaly : PercentileModel Number → Dict Number → Result Bool
  unfolding score
  is_anomaly model row = score model row >>= λ s. ok (lt model.threshold s)

  -- `not rows`
  abbrev pub no_rows : List (Dict Number) → Bool
  no_rows rows = length rows == 0

  unfoldable pub fit :
      List (Dict Number) → List (Dict Number) → Number → List Text → Result (PercentileModel Number)
  unfolding calibrate scores percentile
  fit training_rows validation_rows false_positive_rate features = do
    raise_if (no_rows training_rows || no_rows validation_rows) value_error
    raise_if (not (lt (ratio 0 1) false_positive_rate && lt false_positive_rate (ratio 1 1)))
        value_error
    (centres, scales) ← calibrate features training_rows
    let provisional : PercentileModel Number = record {
      features = features;
      centres = centres;
      scales = scales;
      threshold = ratio 0 1;
    }
    validation_scores ← scores provisional validation_rows
    threshold ← percentile floats validation_scores (sub (ratio 1 1) false_positive_rate)
    ok (record provisional { threshold = threshold })

-- `to_dict`
unfoldable pub to_dict : {Number : Type 0} → PercentileModel Number → PercentileDocument Number
to_dict model = record {
  schema = some percentile_schema;
  features = some model.features;
  centres = some model.centres;
  scales = some model.scales;
  threshold = some model.threshold;
}

-- `load`, on what `json.loads` gives
unfoldable pub load :
    {Number : Type 0} → PercentileDocument Number → Result (PercentileModel Number)
unfolding required text_eq
load document = do
  raise_if
      (not (elim document.schema [ none ↦ false | some schema ↦ text_eq schema percentile_schema ]))
      value_error
  features ← required document.features
  centres ← required document.centres
  scales ← required document.scales
  threshold ← required document.threshold
  ok (record { features = features; centres = centres; scales = scales; threshold = threshold })
