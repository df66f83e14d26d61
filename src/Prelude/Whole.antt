-- ===== src/Prelude/Whole.antt =====
-- Whole numbers in place of floating-point ones, for examples.
use Prim.Native.Nat.{ℕ, ◌+◌, ◌-◌, ◌*◌, ◌/◌, ◌^◌}
use mathlib.Core.List.{List, [], ◌∷◌, map}
use teecam.Prelude.Tests.{ltb, leb, ◌==◌}
use teecam.Prelude.Lists.{length}
use mathlib.Core.Bool.{◌&&◌}
use teecam.Prelude.Exceptions.{ok}
use teecam.Prelude.Tests.{if◌then◌else◌}
use teecam.Prelude.Numbers.{Floats}

unfoldable pub sum : List ℕ → ℕ
sum [] = 0
sum (x ∷ xs) = x + sum xs

abbrev pub whole_numbers : Floats ℕ
whole_numbers = record {
  ratio = λ a b. a / b;
  add = λ a b. a + b;
  sub = λ a b. a - b;
  mul = λ a b. a * b;
  div = λ a b. a / b;
  lt = ltb;
  le = leb;
  eq = λ a b. a == b;
  absolute = λ a. a;
  floor = λ a. a;
  ceil = λ a. a;
  round = λ a. ok (a, 0);
  log = λ a. a;
  power = λ a b. a ^ b;
  fmean = λ xs. sum xs / length xs;
  pstdev = λ xs. 0;
  upper = map (λ c. if leb b'a' c && leb c b'z' then c - 32 else c);
}
