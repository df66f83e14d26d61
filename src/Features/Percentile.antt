-- ===== src/Features/Percentile.antt =====
-- `percentile` of cote3mon/features.py.
use teecam.Prelude.{
  ℕ, ◌-◌, ◌==◌, if◌then◌else◌, none, some, List, [], ◌∷◌, length, get_elem?, sort, Result, ok, err,
  index_error, ◌>>=◌, Floats, of_nat,
}

-- `values[index]` for an index that is not negative
unfoldable pub element : {A : Type 0} → List A → ℕ → Result A
element xs i = elim (get_elem? xs i) [ none ↦ err index_error | some x ↦ ok x ]

module _ {Number : Type 0} (floats : Floats Number) where
  open floats use {ratio, add, sub, mul, le, floor, ceil}

  -- The end of `percentile`, for a list of two values or more in order.
  unfoldable pub interpolate : List Number → Number → Result Number
  unfolding element
  interpolate ordered probability = do
    let position = mul (of_nat floats (length ordered - 1)) probability
    let lower = floor position
    let upper = ceil position
    low ← element ordered lower
    high ← element ordered upper
    let weight = sub position (of_nat floats lower)
    ok (if lower == upper then low else add (mul low (sub (ratio 1 1) weight)) (mul high weight))

  unfoldable pub percentile : List Number → Number → Result Number
  unfolding sort interpolate
  percentile [] probability = ok (ratio 0 1)
  percentile (value ∷ []) probability = ok value
  percentile (value ∷ other ∷ values) probability =
      interpolate (sort le (value ∷ other ∷ values)) probability
