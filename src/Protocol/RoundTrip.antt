-- ===== src/Protocol/RoundTrip.antt =====
-- Reading back what was encoded.
use mathlib.Core.List.{append_assoc}
use teecam.Prelude.{
  ℕ, ◌+◌, ◌^◌, ◌≤◌, ◌<◌, ◌≡◌, refl, sym, ap, ◌∙◌, arith, List, ◌++◌, length, Bytes, ok,
  length-append, ◌==◌, ◌||◌, ltb, false, take-append, drop-append,
}
use teecam.Protocol.Wire.{packed, unpack, fields-packed, Fits, length-packed, calcsize}
use teecam.Protocol.Stream.{Stream, ready, ending, recv_exact, recv_exact-append}
use teecam.Protocol.Message.{
  Operation, put, get, delete, operation_code, operation_of, Request, encode_request,
  request_struct, max_value_bytes, max_key_bytes,
}
use teecam.Protocol.Reader.{lift, bind-ok}
use teecam.Protocol.Header.{RequestHeader, request_header, request_of}
use teecam.Protocol.Receive.{recv_request, recv_payload, after_request_header}
use teecam.Protocol.Encoding.{
  IsAllowed, validate-IsAllowed, request_fields, request_bytes, request-Fits, IsAllowed-of_encode,
  encode-IsAllowed,
}

pub operation_of-code : (o : Operation) → operation_of (operation_code o) ≡ ok o
unfolding operation_of operation_code
operation_of-code put = refl
operation_of-code get = refl
operation_of-code delete = refl

-- The header of an encoded request.
abbrev header : Request → RequestHeader
header r = record {
  request_id = r.request_id;
  operation = r.operation;
  key_len = length r.key;
  value_len = length r.value;
}

pub unpack-packed : (ws vs : List ℕ) → Fits ws vs → unpack ws (packed ws vs) ≡ ok vs
unfolding unpack
unpack-packed ws vs h = rw (length-packed ws vs h, fields-packed ws vs h) (ground arith)

within_bounds :
    (k v : ℕ)
    → 1 ≤ k
    → k ≤ max_key_bytes
    → v ≤ max_value_bytes
    → (k == 0 || ltb max_key_bytes k || ltb max_value_bytes v) ≡ false
within_bounds k v p q r = ground arith

request_header-packed :
    (r : Request)
    → IsAllowed r.operation r.key r.value
    → r.request_id < 2 ^ 64
    → request_header (packed request_struct (request_fields r)) ≡ ok (header r)
unfolding request_header
request_header-packed r h n = rw (
  unpack-packed request_struct (request_fields r) (request-Fits r h n),
  operation_of-code r.operation,
  within_bounds (length r.key) (length r.value) h.key_pos h.key_le h.value_le,
)

request_of-payload :
    (r : Request)
    → IsAllowed r.operation r.key r.value
    → request_of (header r) (r.key ++ r.value) ≡ ok r
unfolding request_of
request_of-payload r h = rw (
  take-append r.key r.value,
  drop-append r.key r.value,
  validate-IsAllowed r.operation r.key r.value h,
)

-- After its header a request's key and value are read.
recv_payload_lem :
    (r : Request) (s : Stream) (rest : Bytes)
    → IsAllowed r.operation r.key r.value
    → ready s ≡ (r.key ++ r.value) ++ rest
    → (t : Stream) × (recv_payload (header r) s ≡ (ok r, t))
      × (ready t ≡ rest)
      × (ending t ≡ ending s)
unfolding recv_payload
recv_payload_lem r s rest h e =
    let (t, read, left, stop) =
      recv_exact-append (length r.key + length r.value) s (r.key ++ r.value) rest
        (length-append r.key r.value) e in
    (
      t,
      bind-ok (recv_exact (length r.key + length r.value))
          (λ payload. lift (request_of (header r) payload)) s read (rw (request_of-payload r h)),
      left,
      stop,
    )

encode_inv : (r : Request) {bs : Bytes} → encode_request r ≡ ok bs → bs ≡ request_bytes r
encode_inv r e = let (h, n) = IsAllowed-of_encode r e in cc (sym e ∙ encode-IsAllowed r h n)

-- What `encode` writes, `recv_request` reads back, in whatever pieces it arrives, and leaves the
-- bytes that follow in the stream.
pub recv_request-encode :
    (r : Request) (s : Stream) {bs : Bytes} (rest : Bytes)
    → encode_request r ≡ ok bs
    → ready s ≡ bs ++ rest
    → (t : Stream) × (recv_request s ≡ (ok r, t)) × (ready t ≡ rest) × (ending t ≡ ending s)
unfolding recv_request calcsize
recv_request-encode r s {bs} rest e front =
    let (h, n) = IsAllowed-of_encode r e in
    let fits = request-Fits r h n in
    let whole : ready s ≡ packed request_struct (request_fields r) ++ ((r.key ++ r.value) ++ rest) =
      front
      ∙ ap (λ (b : Bytes). b ++ rest) (encode_inv r e)
      ∙ append_assoc (packed request_struct (request_fields r)) (r.key ++ r.value) rest in
    let (u, head, left, stop) =
      recv_exact-append 24 s (packed request_struct (request_fields r)) ((r.key ++ r.value) ++ rest)
        (length-packed request_struct (request_fields r) fits) whole in
    let (t, read, end, stop') = recv_payload_lem r u rest h left in
    (
      t,
      bind-ok (recv_exact 24) after_request_header s head
          (rw (after_request_header, request_header-packed r h n) read),
      end,
      stop' ∙ stop,
    )
