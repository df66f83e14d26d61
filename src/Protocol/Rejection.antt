-- ===== src/Protocol/Rejection.antt =====
-- What `recv_request` does with headers that it refuses.
use teecam.Prelude.{
  ℕ, ◌<◌, ◌≡◌, ◌⊎◌, arith, true, List, [], ◌∷◌, ◌++◌, length, Bytes, err, value_error, ◌==◌, ◌||◌,
  ltb,
}
use teecam.Protocol.Wire.{packed, Fits, length-packed, calcsize}
use teecam.Protocol.Stream.{Stream, ready, ending, recv_exact, recv_exact-append, recv_exact_short}
use teecam.Protocol.Message.{
  magic, version, max_key_bytes, max_value_bytes, request_struct, Operation, operation_code,
}
use teecam.Protocol.Header.{request_header}
use teecam.Protocol.Reader.{bind-ok, bind-err}
use teecam.Protocol.Receive.{recv_request, after_request_header}
use teecam.Protocol.RoundTrip.{unpack-packed, operation_of-code}

-- The lengths that no request may declare: no key, a key of more than 64 bytes, or a value of more
-- than 4096 bytes.
abbrev pub IsOutside : ℕ → ℕ → Type 0
IsOutside key_len value_len =
    (key_len ≡ 0) ⊎ ((max_key_bytes < key_len) ⊎ (max_value_bytes < value_len))

outside_bounds :
    (k v : ℕ) → IsOutside k v → (k == 0 || ltb max_key_bytes k || ltb max_value_bytes v) ≡ true
outside_bounds k v h = ground arith

module _ (o : Operation) (id key_len value_len : ℕ) where
  abbrev pub declared : List ℕ
  declared = magic ∷ version ∷ operation_code o ∷ id ∷ key_len ∷ value_len ∷ []

  -- If a header with the right magic and version and a known operation declares a length outside
  -- the bounds, it is refused before any byte of the payload is read: all that follows the 24
  -- bytes of the header is still in the stream.
  pub recv_request-outside :
      (s : Stream) (rest : Bytes)
      → Fits request_struct declared
      → IsOutside key_len value_len
      → ready s ≡ packed request_struct declared ++ rest
      → (t : Stream) × (recv_request s ≡ (err value_error, t)) × (ready t ≡ rest)
  unfolding recv_request calcsize request_header
  recv_request-outside s rest fits outside front =
      let (u, head, left, _) =
        recv_exact-append 24 s (packed request_struct declared) rest
          (length-packed request_struct declared fits) front in
      (
        u,
        bind-ok (recv_exact 24) after_request_header s head (
            rw (
              after_request_header,
              unpack-packed request_struct declared fits,
              operation_of-code o,
              outside_bounds key_len value_len outside,
            )),
        left,
      )

-- A stream that stops within the header raises what the stream stops with.
pub recv_request-cut : (s : Stream) → length (ready s) < 24 → (recv_request s).0 ≡ err (ending s)
unfolding recv_request
recv_request-cut s h = bind-err (recv_exact 24) after_request_header s (recv_exact_short 24 s h)
