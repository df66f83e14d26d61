-- ===== src/Prelude/Numbers.antt =====
-- Python's floating-point numbers: the operations that the code applies to them, with no law
-- assumed, so that a theorem holds of any rounding.
use Prim.Native.Nat.{ℕ}
use mathlib.Core.Bool.{Bool, not}
use mathlib.Core.List.{List, [], ◌∷◌}
use teecam.Prelude.Exceptions.{Result}
use teecam.Prelude.Texts.{Text}

pub record Floats (Number : Type 0) : Type 0 where
  -- the quotient of two integers, which is also what a literal stands for
  pub ratio : ℕ → ℕ → Number
  pub add : Number → Number → Number
  pub sub : Number → Number → Number
  pub mul : Number → Number → Number
  pub div : Number → Number → Number
  pub lt : Number → Number → Bool
  pub le : Number → Number → Bool
  pub eq : Number → Number → Bool
  pub absolute : Number → Number
  -- `math.floor` and `math.ceil` of a number that is not negative
  pub floor : Number → ℕ
  pub ceil : Number → ℕ
  -- `int(round(x))` as a difference of two natural numbers, or its exception for NaN and infinity
  pub round : Number → Result (ℕ × ℕ)
  pub log : Number → Number
  pub power : Number → Number → Number
  -- `statistics.fmean` and `statistics.pstdev` of a list that is not empty
  pub fmean : List Number → Number
  pub pstdev : List Number → Number
  -- `str.upper`, which follows the tables of Unicode
  pub upper : Text → Text

module _ {Number : Type 0} (floats : Floats Number) where
  open floats use {ratio, lt}

  -- `float(n)`
  abbrev pub of_nat : ℕ → Number
  of_nat n = ratio n 1

  -- `max(a, b)`, which keeps the first of two that are equal
  abbrev pub larger : Number → Number → Number
  larger a b = elim (lt a b) [ Bool.true ↦ b | Bool.false ↦ a ]

  -- `max` of `first` and the numbers after it
  abbrev pub maximum : Number → List Number → Number
  maximum first [] = first
  maximum first (x ∷ xs) = maximum (larger first x) xs

  -- `bool(x)`
  abbrev pub nonzero : Number → Bool
  nonzero x = not (floats.eq x (ratio 0 1))
