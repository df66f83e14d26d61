-- ===== src/Protocol/Wire.antt =====
-- `struct.Struct` of the standard library, for formats of unsigned big-endian fields ("!IHHQII"
-- and "!IHHQI" of cote3mon/protocol.py). A format is the list of its fields' widths in bytes.
mod Field
use teecam.Prelude.{
  ℕ, ◌+◌, ◌^◌, ◌<◌, ◌≤◌, ◌≡◌, refl, ap, arith, List, [], ◌∷◌, ◌++◌, Bytes, IsBytes, Result, ok, err,
  struct_error, ◌>>=◌, ◌>>◌, Result-cases, inl, inr, raise_if, leb, ◌==◌, not, length, take, drop,
  length-append, take-append_of, drop-append_of, All-take, All-drop, length-take, length-drop,
  take-append-drop,
}
unfoldable pub use Field.{be, from_be}
pub use Field.{length-be, from_be-be, be-IsBytes}
use Field.{be-from_be, from_be-lt}

-- `struct.calcsize(format)`
unfoldable pub calcsize : List ℕ → ℕ
calcsize [] = 0
calcsize (w ∷ ws) = w + calcsize ws

-- `struct.pack(format, *values)`: a value that its field cannot hold is a `struct.error`, and so is
-- a wrong number of values.
unfoldable pub pack : List ℕ → List ℕ → Result Bytes
pack [] [] = ok []
pack [] (v ∷ vs) = err struct_error
pack (w ∷ ws) [] = err struct_error
pack (w ∷ ws) (v ∷ vs) = do
  raise_if (leb (256 ^ w) v) struct_error
  rest ← pack ws vs
  ok (be w v ++ rest)

-- The fields of a buffer of the right size.
unfoldable pub fields : List ℕ → Bytes → List ℕ
fields [] raw = []
fields (w ∷ ws) raw = from_be (take w raw) ∷ fields ws (drop w raw)

-- `struct.unpack(format, raw)`
unfoldable pub unpack : List ℕ → Bytes → Result (List ℕ)
unfolding fields
unpack ws raw = do raise_if (not (length raw == calcsize ws)) struct_error; ok (fields ws raw)

pub unpack-fields :
    (ws : List ℕ) (raw : Bytes) → length raw ≡ calcsize ws → unpack ws raw ≡ ok (fields ws raw)
unfolding unpack
unpack-fields ws raw h = ground arith

-- The values fit the format, field by field.
abbrev pub Fits : List ℕ → List ℕ → Type 0
Fits [] [] = Unit
Fits [] (v ∷ vs) = ⊥
Fits (w ∷ ws) [] = ⊥
Fits (w ∷ ws) (v ∷ vs) = (v < 256 ^ w) × Fits ws vs

-- What `pack` writes when it writes.
unfoldable pub packed : List ℕ → List ℕ → Bytes
packed [] vs = []
packed (w ∷ ws) [] = []
packed (w ∷ ws) (v ∷ vs) = be w v ++ packed ws vs

pub pack-Fits : (ws vs : List ℕ) → Fits ws vs → pack ws vs ≡ ok (packed ws vs)
unfolding pack packed
pack-Fits [] [] h = refl
pack-Fits [] (v ∷ vs) h = absurd h
pack-Fits (w ∷ ws) [] h = absurd h
pack-Fits (w ∷ ws) (v ∷ vs) h = ground (arith, pack-Fits ws vs h.1)

pub Fits-of_pack : (ws vs : List ℕ) {bs : Bytes} → pack ws vs ≡ ok bs → Fits ws vs
unfolding pack
Fits-of_pack [] [] h = tt
Fits-of_pack [] (v ∷ vs) h = cc
Fits-of_pack (w ∷ ws) [] h = cc
Fits-of_pack (w ∷ ws) (v ∷ vs) h = elim (Result-cases (pack ws vs)) [
  | inl (r, e) ↦ (ground arith, Fits-of_pack ws vs e)
  | inr (e, p) ↦ absurd (ground arith)
]

pub length-packed : (ws vs : List ℕ) → Fits ws vs → length (packed ws vs) ≡ calcsize ws
unfolding packed calcsize
length-packed [] [] h = refl
length-packed [] (v ∷ vs) h = absurd h
length-packed (w ∷ ws) [] h = absurd h
length-packed (w ∷ ws) (v ∷ vs) h =
    omega (arith, length-append (be w v) (packed ws vs), length-be w v, length-packed ws vs h.1)

pub fields-packed : (ws vs : List ℕ) → Fits ws vs → fields ws (packed ws vs) ≡ vs
unfolding fields packed
fields-packed [] [] h = refl
fields-packed [] (v ∷ vs) h = absurd h
fields-packed (w ∷ ws) [] h = absurd h
fields-packed (w ∷ ws) (v ∷ vs) h = rw (
  take-append_of w (be w v) (packed ws vs) (length-be w v),
  drop-append_of w (be w v) (packed ws vs) (length-be w v),
  from_be-be w v h.0,
  fields-packed ws vs h.1,
)

-- One field that is read from a buffer with enough bytes.
field_of :
    (w : ℕ) (raw : Bytes)
    → IsBytes raw
    → w ≤ length raw
    → (from_be (take w raw) < 256 ^ w) × (be w (from_be (take w raw)) ≡ take w raw)
field_of w raw h n =
    let size : length (take w raw) ≡ w = omega (arith, length-take w raw) in
    let small = from_be-lt (take w raw) (All-take (λ b. b < 256) w raw h) in
    let back = be-from_be (take w raw) (All-take (λ b. b < 256) w raw h) in
    (rw size at small, rw size at back)

-- A buffer of bytes is packed again to itself.
pub packed-fields :
    (ws : List ℕ) (raw : Bytes)
    → IsBytes raw
    → length raw ≡ calcsize ws
    → Fits ws (fields ws raw) × (packed ws (fields ws raw) ≡ raw)
unfolding packed fields calcsize
packed-fields [] [] h n = (tt, refl)
packed-fields [] (b ∷ raw) h n = absurd (omega arith)
packed-fields (w ∷ ws) raw h n =
    let one = field_of w raw h (omega arith) in
    let rest =
      packed-fields ws (drop w raw) (All-drop (λ b. b < 256) w raw h)
        (omega (arith, length-drop w raw)) in
    ((one.0, rest.0), rw (one.1, rest.1, take-append-drop w raw))
