-- ===== src/Protocol/Wire/Field.antt =====
-- One unsigned big-endian field.
use native.Mathlib.Nat.{pow-suc, mul-le-mul_right, div-div-eq-div-mul, div-eq_of_lt-le}
use teecam.Prelude.{
  ℕ, zero, suc, ◌+◌, ◌/◌, ◌%◌, ◌*◌, ◌^◌, ◌<◌, ◌≡◌, refl, ap, ◌∙◌, arith, [], ◌∷◌, ◌++◌, Bytes,
  IsBytes, length, length-append, All-append,
}

-- The low `width` bytes of a number, the highest first.
unfoldable pub be : ℕ → ℕ → Bytes
be zero n = []
be (suc width) n = be width (n / 256) ++ (n % 256 ∷ [])

from_be_acc : ℕ → Bytes → ℕ
from_be_acc acc [] = acc
from_be_acc acc (b ∷ bs) = from_be_acc (acc * 256 + b) bs

unfoldable pub from_be : Bytes → ℕ
unfolding from_be_acc
from_be = from_be_acc 0

pub length-be : (w n : ℕ) → length (be w n) ≡ w
unfolding be
length-be zero n = refl
length-be (suc w) n =
    omega (arith, length-append (be w (n / 256)) (n % 256 ∷ []), length-be w (n / 256))

pub be-IsBytes : (w n : ℕ) → IsBytes (be w n)
unfolding be
be-IsBytes zero n = tt
be-IsBytes (suc w) n =
    All-append (λ b. b < 256) (be w (n / 256)) (n % 256 ∷ []) (be-IsBytes w (n / 256))
      (omega arith, tt)

from_be_acc-append :
    (acc : ℕ) (bs : Bytes) (b : ℕ) → from_be_acc acc (bs ++ (b ∷ [])) ≡ from_be_acc acc bs * 256 + b
unfolding from_be_acc
from_be_acc-append acc [] b = refl
from_be_acc-append acc (c ∷ bs) b = from_be_acc-append (acc * 256 + c) bs b

-- A number that fits its field is read back.
pub from_be-be : (w n : ℕ) → n < 256 ^ w → from_be (be w n) ≡ n
unfolding be from_be
from_be-be zero n h = omega arith
from_be-be (suc w) n h =
    let small : n / 256 < 256 ^ w = omega (arith, pow-suc 256 w) in
    omega (arith, from_be_acc-append 0 (be w (n / 256)) (n % 256), from_be-be w (n / 256) small)

shift_step :
    (a b p q x y z : ℕ)
    → q ≡ p * 256
    → x ≡ (a * 256 + b) * p + z
    → y ≡ (0 * 256 + b) * p + z
    → x ≡ a * q + y
shift_step a b p q x y z h hx hy = rw h (omega arith)

-- What is accumulated is shifted by the bytes that follow.
from_be_acc_shift :
    (acc : ℕ) (bs : Bytes) → from_be_acc acc bs ≡ acc * 256 ^ length bs + from_be_acc 0 bs
unfolding from_be_acc
from_be_acc_shift acc [] = omega arith
from_be_acc_shift acc (b ∷ bs) =
    shift_step acc b (256 ^ length bs) (256 ^ suc (length bs)) _ _ _ (pow-suc 256 (length bs))
      (from_be_acc_shift (acc * 256 + b) bs) (from_be_acc_shift (0 * 256 + b) bs)

pub from_be-lt : (bs : Bytes) → IsBytes bs → from_be bs < 256 ^ length bs
unfolding from_be from_be_acc
from_be-lt [] h = omega arith
from_be-lt (b ∷ bs) h = omega (
  arith,
  from_be_acc_shift (0 * 256 + b) bs,
  from_be-lt bs h.1,
  pow-suc 256 (length bs),
  mul-le-mul_right {m = b} {n = 255} (256 ^ length bs) (omega arith),
)

-- The highest of `width + 1` bytes, and the others.
be-suc : (w n : ℕ) → be (suc w) n ≡ (n / 256 ^ w) % 256 ∷ be w n
unfolding be
be-suc zero n = let e : n % 256 ≡ n / 1 % 256 = omega arith in ap (λ d. d ∷ []) e
be-suc (suc w) n =
    let e : n / 256 / 256 ^ w ≡ n / 256 ^ suc w =
      div-div-eq-div-mul n 256 (256 ^ w) ∙ ap (λ d. n / d) (omega (arith, pow-suc 256 w)) in
    rw (be-suc w (n / 256), e)

high_byte : (acc : ℕ) (bs : Bytes) → IsBytes bs → from_be_acc acc bs / 256 ^ length bs ≡ acc
unfolding from_be
high_byte acc bs h =
    div-eq_of_lt-le (256 ^ length bs) (omega (arith, from_be_acc_shift acc bs))
      (omega (arith, from_be_acc_shift acc bs, from_be-lt bs h))

-- A field that is read is written back byte for byte.
be-from_be_acc : (acc : ℕ) (bs : Bytes) → IsBytes bs → be (length bs) (from_be_acc acc bs) ≡ bs
unfolding from_be_acc
be-from_be_acc acc [] h = unfold be in refl
be-from_be_acc acc (b ∷ bs) h =
    rw (be-suc (length bs) (from_be_acc (acc * 256 + b) bs), be-from_be_acc (acc * 256 + b) bs h.1)
      (ap (λ (d : ℕ). d ∷ bs) (omega (arith, high_byte (acc * 256 + b) bs h.1)))

pub be-from_be : (bs : Bytes) → IsBytes bs → be (length bs) (from_be bs) ≡ bs
unfolding from_be
be-from_be = be-from_be_acc 0
