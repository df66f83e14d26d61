-- ===== src/Threshold/Fitted.antt =====
-- `fit` gives a model that scores and that `load` reads back.
use teecam.Prelude.{
  suc, ◌≤◌, ◌≡◌, refl, ap, inl, inr, arith, true, false, ◌&&◌, ◌||◌, ◌==◌, List, [], ◌∷◌, length,
  List-cases, All, Text, text_eq, Dict, ok, Floats, maximum, nonzero,
}
use teecam.Features.Returns.{IsProbability, percentile-returns}
use teecam.Features.Tables.{field}
use teecam.Threshold.Model.{
  PercentileModel, required, column, quotient, scale_of, calibrate, deviations, max_of, score,
  scores, fit, to_dict, load,
}

load-to_dict : {Number : Type 0} (model : PercentileModel Number) → load (to_dict model) ≡ ok model
unfolding load to_dict required text_eq
load-to_dict model = refl

-- A row has a number for a feature.
abbrev pub HasField : {Number : Type 0} → Text → Dict Number → Type 0
HasField {Number} feature row = (value : Number) × (field row feature ≡ ok value)

column-returns :
    {Number : Type 0} (feature : Text) (rows : List (Dict Number))
    → All (HasField feature) rows
    → (values : List Number) × (column feature rows ≡ ok values)
unfolding column
column-returns feature [] h = ([], refl)
column-returns feature (row ∷ rows) h =
    let (value, e) = h.0 in
    let (rest, f) = column-returns feature rows h.1 in (value ∷ rest, rw (column, e, f) refl)

module _ {Number : Type 0} (floats : Floats Number) where
  -- What `fit` relies on: the probabilities round to positions in the list, and the largest of three
  -- numbers, of which 1e-9 is the last, is not zero.
  pub record IsRounding : Type 0 where
    pub middle : IsProbability floats (floats.ratio 1 2)
    pub low : IsProbability floats (floats.ratio 1 100)
    pub high : IsProbability floats (floats.ratio 99 100)
    pub scale_nonzero :
        (a b : Number)
        → nonzero floats (maximum floats a (b ∷ floats.ratio 1 1000000000 ∷ [])) ≡ true

  calibrate-returns :
      IsRounding
      → (features : List Text) (rows : List (Dict Number))
      → All (λ feature. All (HasField feature) rows) features
      → (out : List Number × List Number) × (calibrate floats features rows ≡ ok out)
        × (length out.0 ≡ length features)
        × (length out.1 ≡ length features)
        × All (λ scale. nonzero floats scale ≡ true) out.1
  unfolding calibrate scale_of
  calibrate-returns h [] rows known = (([], []), refl, refl, refl, tt)
  calibrate-returns h (feature ∷ features) rows known =
      let (values, e) = column-returns feature rows known.0 in
      let (centre, a) = percentile-returns floats values (floats.ratio 1 2) h.middle in
      let (low, b) = percentile-returns floats values (floats.ratio 1 100) h.low in
      let (high, c) = percentile-returns floats values (floats.ratio 99 100) h.high in
      let (rest, f, n, k, good) = calibrate-returns h features rows known.1 in
      (
        (centre ∷ rest.0, scale_of floats centre low high ∷ rest.1),
        rw (calibrate, e, a, b, c, f) refl,
        ap suc n,
        ap suc k,
        (h.scale_nonzero (floats.sub centre low) (floats.sub high centre), good),
      )

  deviations-returns :
      (row : Dict Number) (features : List Text) (centres scales : List Number)
      → All (λ feature. HasField feature row) features
      → length centres ≡ length features
      → length scales ≡ length features
      → All (λ scale. nonzero floats scale ≡ true) scales
      → (out : List Number) × (deviations floats row features centres scales ≡ ok out)
        × (length out ≡ length features)
  unfolding deviations quotient
  deviations-returns row [] centres scales known n k good = ([], refl, refl)
  deviations-returns row (feature ∷ features) [] scales known n k good = absurd (omega (arith, n))
  deviations-returns row (feature ∷ features) (centre ∷ centres) [] known n k good =
      absurd (omega (arith, k))
  deviations-returns row (feature ∷ features) (centre ∷ centres) (scale ∷ scales) known n k good =
      let (value, e) = known.0 in
      let (rest, f, m) =
        deviations-returns row features centres scales known.1 (omega (arith, n)) (omega (arith, k))
          good.1 in
      (
        floats.div (floats.absolute (floats.sub value centre)) scale ∷ rest,
        rw (deviations, e, quotient, good.0, f) refl,
        ap suc m,
      )

  -- A model with a centre and a scale that is not zero for each of its features, one or more.
  pub record IsModel (model : PercentileModel Number) : Type 0 where
    pub some_features : 1 ≤ length model.features
    pub centres_known : length model.centres ≡ length model.features
    pub scales_known : length model.scales ≡ length model.features
    pub scales_nonzero : All (λ scale. nonzero floats scale ≡ true) model.scales

  score-returns :
      (model : PercentileModel Number) (row : Dict Number)
      → IsModel model
      → All (λ feature. HasField feature row) model.features
      → (s : Number) × (score floats model row ≡ ok s)
  unfolding score max_of
  score-returns model row h known =
      let (out, e, n) =
        deviations-returns row model.features model.centres model.scales known h.centres_known
          h.scales_known h.scales_nonzero in
      elim (List-cases out) [
        | inl x ↦ absurd (omega (arith, n, ap length x, h.some_features))
        | inr (first, rest, x) ↦ (maximum floats first rest, rw (score, e, x) refl)
      ]

  scores-returns :
      (model : PercentileModel Number)
      → IsModel model
      → (rows : List (Dict Number))
      → All (λ row. All (λ feature. HasField feature row) model.features) rows
      → (out : List Number) × (scores floats model rows ≡ ok out)
  unfolding scores
  scores-returns model h [] known = ([], refl)
  scores-returns model h (row ∷ rows) known =
      let (first, e) = score-returns model row h known.0 in
      let (rest, f) = scores-returns model h rows known.1 in (first ∷ rest, rw (scores, e, f) refl)

  -- On one row or more for training and for validation, with a number for each feature, of which there
  -- is one or more, and a rate between zero and one, `fit` returns a model that `load` reads back from
  -- `to_dict` and that scores every row with those features: the percentiles and the rate round to
  -- positions in a list, and the largest of three numbers, of which 1e-9 is one, is not zero.
  pub fit-loaded :
      IsRounding
      → (training validation : List (Dict Number)) (rate : Number) (features : List Text)
      → IsProbability floats (floats.sub (floats.ratio 1 1) rate)
      → (floats.lt (floats.ratio 0 1) rate && floats.lt rate (floats.ratio 1 1)) ≡ true
      → 1 ≤ length training
      → 1 ≤ length validation
      → 1 ≤ length features
      → All (λ feature. All (HasField feature) training) features
      → All (λ row. All (λ feature. HasField feature row) features) validation
      → (model : PercentileModel Number) × (fit floats training validation rate features ≡ ok model)
        × (model.features ≡ features)
        × (load (to_dict model) ≡ ok model)
        × ((row : Dict Number)
            → All (λ feature. HasField feature row) features
            → (s : Number) × (score floats model row ≡ ok s))
  unfolding fit
  fit-loaded h training validation rate features share between some_training some_validation
        some_features known all_known =
      let (out, e, n, k, good) = calibrate-returns h features training known in
      let provisional : PercentileModel Number = record {
        features = features;
        centres = out.0;
        scales = out.1;
        threshold = floats.ratio 0 1;
      } in
      let is_model : (threshold : Number) → IsModel (record provisional { threshold = threshold }) =
        λ threshold. record {
          some_features = some_features;
          centres_known = n;
          scales_known = k;
          scales_nonzero = good;
        } in
      let (found, f) =
        scores-returns provisional (is_model (floats.ratio 0 1)) validation all_known in
      let (threshold, g) =
        percentile-returns floats found (floats.sub (floats.ratio 1 1) rate) share in
      let rows_there : (length training == 0 || length validation == 0) ≡ false =
        ground (arith, some_training, some_validation) in
      let model = record provisional { threshold = threshold } in
      (
        model,
        rw (fit, rows_there, between, e, f, g) refl,
        refl,
        load-to_dict model,
        λ row there. score-returns model row (is_model threshold) there,
      )
