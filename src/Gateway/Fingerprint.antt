-- ===== src/Gateway/Fingerprint.antt =====
-- `MockGateway._fingerprint` of cote3mon/mock_gateway.py.
use teecam.Prelude.{
  ℕ, ◌^◌, ◌<◌, ◌≡◌, refl, sym, ap, ◌∙◌, arith, List, [], ◌∷◌, ◌++◌, length, length-append, ◌≢◌,
  Bytes, Text, All, append-eq-append,
}
use mathlib.Core.Path.{ap₂}
use teecam.Protocol.Wire.{be, length-be, from_be, from_be-be}

-- What the loop hands to `digest.update`: the length of each part in four bytes, and the part.
unfoldable pub framed : List Bytes → Bytes
framed [] = []
framed (part ∷ parts) = be 4 (length part) ++ (part ++ framed parts)

-- The keyed BLAKE2b digest as hexadecimal text is a parameter: key, then data.
unfoldable pub fingerprint : (Bytes → Bytes → Text) → Bytes → List Bytes → Text
unfolding framed
fingerprint blake2b key parts = blake2b key (framed parts)

-- A part is shorter than its length field can say.
abbrev pub IsFramed : Bytes → Type 0
IsFramed part = length part < 2 ^ 32

be-injective : (w m n : ℕ) → m < 256 ^ w → n < 256 ^ w → be w m ≡ be w n → m ≡ n
be-injective w m n hm hn e = sym (from_be-be w m hm) ∙ ap from_be e ∙ from_be-be w n hn

framed_ne : (q : Bytes) (qs : List Bytes) → [] ≢ framed (q ∷ qs)
unfolding framed
framed_ne q qs e =
    omega
      (arith, ap length e, length-append (be 4 (length q)) (q ++ framed qs), length-be 4 (length q))

-- Different lists of parts that are each shorter than 2^32 bytes are hashed as different bytes:
-- where one part ends and the next begins is fixed by the lengths.
pub framed-injective :
    (ps qs : List Bytes) → All IsFramed ps → All IsFramed qs → framed ps ≡ framed qs → ps ≡ qs
unfolding framed
framed-injective [] [] hp hq e = refl
framed-injective [] (q ∷ qs) hp hq e = absurd (framed_ne q qs e)
framed-injective (p ∷ ps) [] hp hq e = absurd (framed_ne p ps (sym e))
framed-injective (p ∷ ps) (q ∷ qs) hp hq e =
    let (head, tail) =
      append-eq-append (be 4 (length p)) (be 4 (length q))
        (length-be 4 (length p) ∙ sym (length-be 4 (length q))) e in
    let (same, rest) =
      append-eq-append p q (be-injective 4 (length p) (length q) hp.0 hq.0 head) tail in
    ap₂ ◌∷◌ same (framed-injective ps qs hp.1 hq.1 rest)
