-- ===== src/Audit/Hex.antt =====
-- `bytes.hex` and `bytes.fromhex` of Python, with which cote3mon/audit_store.py writes and reads
-- digests.
use teecam.Prelude.{
  ℕ, ◌+◌, ◌-◌, ◌*◌, ◌/◌, ◌%◌, ◌<◌, ◌≡◌, refl, sym, ap, ◌∙◌, arith, Bool, false, ◌&&◌, ◌||◌, leb,
  ltb, ◌==◌, if◌then◌else◌, Option, none, some, [], ◌∷◌, Bytes, Text, IsBytes, Result, ok, err,
  value_error, ◌>>=◌,
}

-- The lower-case digit of a number below 16.
unfoldable pub digit : ℕ → ℕ
digit n = if ltb n 10 then b'0' + n else b'a' + (n - 10)

-- `data.hex()`
unfoldable pub hex : Bytes → Text
unfolding digit
hex [] = []
hex (b ∷ bs) = digit (b / 16) ∷ digit (b % 16) ∷ hex bs

-- The value of a digit in either case.
unfoldable pub digit_value : ℕ → Option ℕ
digit_value c =
    if leb b'0' c && leb c b'9'
    then some (c - b'0')
    else if leb b'a' c && leb c b'f'
    then some (c - b'a' + 10)
    else if leb b'A' c && leb c b'F'
    then some (c - b'A' + 10)
    else none

-- ASCII white space, which `fromhex` skips between bytes
unfoldable pub is_space : ℕ → Bool
is_space c = c == 32 || (leb 9 c && leb c 13)

-- Two digits and what comes after them.
unfoldable pub byte_of : ℕ → ℕ → Result Bytes → Result Bytes
unfolding digit_value
byte_of c d rest = elim (digit_value c) [
  | none ↦ err value_error
  | some high ↦ elim (digit_value d) [
    | none ↦ err value_error
    | some low ↦ rest >>= λ bs. ok ((high * 16 + low) ∷ bs)
  ]
]

-- `bytes.fromhex(text)`
unfoldable pub from_hex : Text → Result Bytes
unfolding byte_of is_space
from_hex [] = ok []
from_hex (c ∷ []) = if is_space c then ok [] else err value_error
from_hex (c ∷ d ∷ cs) =
    let skipped = from_hex (d ∷ cs) in
    let rest = byte_of c d (from_hex cs) in if is_space c then skipped else rest

digit_value-digit : (n : ℕ) → n < 16 → digit_value (digit n) ≡ some n
unfolding digit digit_value
digit_value-digit n h = ground arith

digit-ne-space : (n : ℕ) → n < 16 → is_space (digit n) ≡ false
unfolding digit is_space
digit-ne-space n h = ground arith

-- What is written as hexadecimal text is read back.
pub from_hex-hex : (bs : Bytes) → IsBytes bs → from_hex (hex bs) ≡ ok bs
unfolding from_hex hex byte_of
from_hex-hex [] h = refl
from_hex-hex (b ∷ bs) h =
    let whole : b / 16 * 16 + b % 16 ≡ b = omega arith in
    rw (
      digit-ne-space (b / 16) (omega arith),
      byte_of,
      digit_value-digit (b / 16) (omega arith),
      digit_value-digit (b % 16) (omega arith),
      from_hex-hex bs h.1,
      whole,
    )

-- Different byte strings have different texts.
pub hex-injective : (as' bs : Bytes) → IsBytes as' → IsBytes bs → hex as' ≡ hex bs → as' ≡ bs
hex-injective as' bs ha hb e = cc (sym (from_hex-hex as' ha) ∙ ap from_hex e ∙ from_hex-hex bs hb)
