-- ===== src/Threshold/Tests.antt =====
-- A model of one feature, with whole numbers in place of floating-point ones.
use teecam.Prelude.{
  ℕ, ◌+◌, ◌-◌, ◌*◌, ◌/◌, ◌≡◌, refl, arith, Floats, List, [], ◌∷◌, insert_sorted, codes, text_eq,
  lookup, Dict, ok, All, whole_numbers,
}
use teecam.Features.Tables.{field}
use teecam.Threshold.Model.{PercentileModel, score, fit, to_dict, load}
use teecam.Threshold.Fitted.{HasField, IsRounding, fit-loaded}

-- Numbers in thousandths, quotients rounded up, so that a rate of one half stands between zero and one.
abbrev thousandths : Floats ℕ
thousandths = record whole_numbers {
  ratio = λ a b. (a * 1000 + (b - 1)) / b;
  mul = λ a b. a * b / 1000;
  floor = λ a. a / 1000;
  ceil = λ a. a / 1000;
}

abbrev row_of_value : ℕ → Dict ℕ
row_of_value n = (codes "request_rate", n) ∷ []

abbrev training : List (Dict ℕ)
training = row_of_value 1000 ∷ row_of_value 3000 ∷ row_of_value 2000 ∷ []

has_rate : (n : ℕ) → HasField (codes "request_rate") (row_of_value n)
unfolding field lookup text_eq
has_rate n = (n, refl)

thousandths-IsRounding : IsRounding thousandths
thousandths-IsRounding = record {
  middle = record { floor_le = λ n. omega arith; ceil_le = λ n. omega arith };
  low = record { floor_le = λ n. omega arith; ceil_le = λ n. omega arith };
  high = record { floor_le = λ n. omega arith; ceil_le = λ n. omega arith };
  scale_nonzero = λ a b. ground arith;
}

fit-loaded_example :
    (model : PercentileModel ℕ) × (fit thousandths training
        (row_of_value 1500 ∷ [])
        500
        (codes "request_rate" ∷ [])
      ≡ ok model)
    × (model.features ≡ codes "request_rate" ∷ [])
    × (load (to_dict model) ≡ ok model)
    × ((row : Dict ℕ)
        → All (λ feature. HasField feature row) (codes "request_rate" ∷ [])
        → (s : ℕ) × (score thousandths model row ≡ ok s))
fit-loaded_example =
    fit-loaded thousandths thousandths-IsRounding training (row_of_value 1500 ∷ []) 500
      (codes "request_rate" ∷ [])
      (record { floor_le = λ n. omega arith; ceil_le = λ n. omega arith }) refl (omega arith)
      (omega arith) (omega arith) ((has_rate 1000, (has_rate 3000, (has_rate 2000, tt))), tt)
      ((has_rate 1500, tt), tt)

-- The median is 2 and the scale 1; the validation row is nearer than one scale.
abbrev fitted : PercentileModel ℕ
fitted = record {
  features = codes "request_rate" ∷ [];
  centres = 2000 ∷ [];
  scales = 1000 ∷ [];
  threshold = 0;
}

fitted-model :
    fit thousandths training (row_of_value 1500 ∷ []) 500 (codes "request_rate" ∷ []) ≡ ok fitted
unfolding fit text_eq insert_sorted
fitted-model = refl
