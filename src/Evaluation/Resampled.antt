-- ===== src/Evaluation/Resampled.antt =====
-- The bootstrap intervals are computed.
use teecam.Prelude.{
  ℕ, zero, suc, ◌-◌, ◌≤◌, ◌<◌, ◌≡◌, refl, ap, inl, inr, arith, true, false, ◌==◌, Bool-cases,
  Option, none, some, List, [], ◌∷◌, length, All, All-weaken, length-sort, sort, Text, ok,
  Result-cases, ok-injective, Floats, of_nat,
}
use teecam.Features.Percentile.{element}
use teecam.Features.Returns.{element-lt}
use teecam.Evaluation.Counts.{confusion, zip, tally, predictions_of}
use teecam.Evaluation.Metrics.{
  Metrics, classification_metrics, metric_of, metrics_of, average_precision,
}
use teecam.Evaluation.Bootstrap.{elements, drawn, one_class, measured, resample, interval_of}

pub elements-returns :
    {A : Type 0} (items : List A) (indices : List ℕ)
    → All (λ i. i < length items) indices
    → (out : List A) × (elements items indices ≡ ok out) × (length out ≡ length indices)
unfolding elements
elements-returns items [] h = ([], refl, refl)
elements-returns items (index ∷ indices) h =
    let (item, e) = element-lt items index h.0 in
    let (rest, f, n) = elements-returns items indices h.1 in
    (item ∷ rest, rw (elements, e, f) refl, ap suc n)

element-All :
    {A : Type 0} (P : A → Type 0) (items : List A) (i : ℕ) {item : A}
    → element items i ≡ ok item
    → All P items
    → P item
unfolding element
element-All P [] i e h = absurd (cc e)
element-All P (x ∷ items) zero {item} e h = let same : x ≡ item = ok-injective e in rw (← same) h.0
element-All P (x ∷ items) (suc i) e h = element-All P items i e h.1

pub elements-All :
    {A : Type 0} (P : A → Type 0) (items : List A) (indices : List ℕ) {out : List A}
    → elements items indices ≡ ok out
    → All P items
    → All P out
unfolding elements
elements-All P items [] {out} e h = let same : [] ≡ out = ok-injective e in rw (← same) tt
elements-All P items (index ∷ indices) {out} e h = elim (Result-cases (element items index)) [
  | inr (raised, f) ↦ absurd (let w = rw (elements, f) at e in cc w)
  | inl (item, f) ↦ elim (Result-cases (elements items indices)) [
    | inr (raised, g) ↦ absurd (let w = rw (elements, f, g) at e in cc w)
    | inl (rest, g) ↦
        let same : item ∷ rest ≡ out = ok-injective (rw (elements, f, g) at e) in
        rw (← same) (element-All P items index f h, elements-All P items indices g h)
  ]
]

-- What `randrange` promises: a number below the bound.
abbrev pub InRange : (ℕ → ℕ → ℕ) → Type 0
InRange draws = (position bound : ℕ) → 1 ≤ bound → draws position bound < bound

pub drawn-InRange :
    (draws : ℕ → ℕ → ℕ)
    → InRange draws
    → (bound : ℕ) → 1 ≤ bound
    → (position count : ℕ) → All (λ i. i < bound) (drawn draws bound position count)
unfolding drawn
drawn-InRange draws h bound n position zero = tt
drawn-InRange draws h bound n position (suc count) =
    (h position bound n, drawn-InRange draws h bound n (suc position) count)

module _ {Number : Type 0} (floats : Floats Number) where
  -- The product of the share and a whole number is rounded down to at most the number.
  abbrev pub IsShare : Number → Type 0
  IsShare share = (n : ℕ) → floats.floor (floats.mul share (of_nat floats n)) ≤ n

  -- The name of a metric.
  abbrev pub IsMetric : Text → Type 0
  IsMetric metric = (m : Metrics Number) → (v : Number) × (metric_of floats metric m ≡ ok v)

  pub interval_of-returns :
      (values : List Number)
      → IsShare (floats.ratio 25 1000)
      → IsShare (floats.ratio 975 1000)
      → (out : Number × Number) × (interval_of floats values ≡ ok out)
  unfolding interval_of
  interval_of-returns [] a b = ((floats.ratio 0 1, floats.ratio 0 1), refl)
  interval_of-returns (value ∷ values) a b =
      let ordered = sort floats.le (value ∷ values) in
      let n = length ordered - 1 in
      let size = length-sort floats.le (value ∷ values) in
      let low =
        element-lt ordered (floats.floor (floats.mul (floats.ratio 25 1000) (of_nat floats n)))
          (omega (arith, size, a n)) in
      let high =
        element-lt ordered (floats.floor (floats.mul (floats.ratio 975 1000) (of_nat floats n)))
          (omega (arith, size, b n)) in
      ((low.0, high.0), rw (interval_of, low.1, high.1) refl)

  classification_metrics-returns :
      (labels : List ℕ) (scores : List Number) (threshold : Number)
      → length labels ≡ length scores
      → 1 ≤ length labels
      → (m : Metrics Number) × (classification_metrics floats labels scores threshold ≡ ok m)
  unfolding classification_metrics confusion
  classification_metrics-returns labels scores threshold same many =
      let gt = λ (score : Number) (bound : Number). floats.lt bound score in
      let equal : (length labels == length scores) ≡ true = ground (arith, same) in
      let some_label : (length labels == 0) ≡ false = ground (arith, many) in
      (
        metrics_of floats (tally (zip labels (predictions_of gt scores threshold)))
            (average_precision floats labels scores),
        rw (classification_metrics, confusion, equal, some_label) refl,
      )

  module _ (labels : List ℕ) (scores : List Number) (threshold : Number) (metric : Text)
      (same : length labels ≡ length scores) (known : IsMetric metric) where
    pub resample-returns :
        (indices : List ℕ)
        → All (λ i. i < length labels) indices
        → (out : Option Number) × (resample floats labels scores threshold metric indices ≡ ok out)
    unfolding resample measured one_class
    resample-returns [] inside = (none, refl)
    resample-returns (index ∷ others) inside =
        let indices = index ∷ others in
        let (some_labels, e, n) = elements-returns labels indices inside in
        let (some_scores, f, k) =
          elements-returns scores indices
            (All-weaken (λ i h. omega (arith, h, same)) indices inside) in
        let (m, g) =
          classification_metrics-returns some_labels some_scores threshold (omega (arith, n, k))
            (omega (arith, n)) in
        let (value, v) = known m in
        elim (Bool-cases (one_class some_labels)) [
          | inl y ↦ (none, rw (resample, e, y) refl)
          | inr y ↦ (some value, rw (resample, e, y, measured, f, g, v) refl)
        ]
