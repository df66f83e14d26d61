-- ===== src/Protocol/Responses.antt =====
-- Reading back an encoded response, and the client's `call`.
use teecam.Prelude.{
  ℕ, ◌^◌, ◌≤◌, ◌<◌, ◌≡◌, refl, sym, ok-injective, ap, ◌∙◌, arith, [], ◌∷◌, ◌++◌, length, Bytes,
  Result, ok, ◌==◌, >>=-eq-ok, ltb, false,
}
use mathlib.Core.List.{append_assoc}
use teecam.Protocol.Wire.{packed, length-packed, calcsize}
use teecam.Protocol.Stream.{Stream, ready, recv_exact, recv_exact-append}
use teecam.Protocol.Message.{
  Status, status_ok, status_code, status_of, Request, Response, response_struct, encode_request,
  encode_response, max_value_bytes,
}
use teecam.Protocol.Header.{ResponseHeader, response_header}
use teecam.Protocol.Reader.{Read, pure, bind-ok}
use teecam.Protocol.Receive.{recv_response, recv_value, after_response_header}
use teecam.Protocol.Call.{call}
use teecam.Protocol.Encoding.{
  response_fields, response_bytes, response-Fits, encode_response-Fits, encode_response_lem,
}
use teecam.Protocol.RoundTrip.{unpack-packed}

status_of-code : (s : Status) → status_of (status_code s) ≡ ok s
unfolding status_of status_code
status_of-code status_ok = refl
status_of-code _ = refl

abbrev header : Response → ResponseHeader
header r = record { request_id = r.request_id; status = r.status; value_len = length r.value }

-- The response that `recv_response` makes of a value.
abbrev with_value : ResponseHeader → Bytes → Read Response
with_value h value = pure (record { request_id = h.request_id; status = h.status; value = value })

within_bounds : (v : ℕ) → v ≤ max_value_bytes → ltb max_value_bytes v ≡ false
within_bounds v h = ground arith

response_header-packed :
    (r : Response)
    → length r.value ≤ max_value_bytes
    → r.request_id < 2 ^ 64
    → response_header (packed response_struct (response_fields r)) ≡ ok (header r)
unfolding response_header
response_header-packed r h n = rw (
  unpack-packed response_struct (response_fields r) (response-Fits r h n),
  within_bounds (length r.value) h,
  status_of-code r.status,
)

-- A response's value is read after its header, and nothing is read for an empty one.
recv_value_lem :
    (r : Response) (s : Stream) (rest : Bytes)
    → ready s ≡ r.value ++ rest
    → (t : Stream) × (recv_value (header r) s ≡ (ok r, t)) × (ready t ≡ rest)
unfolding recv_value
recv_value_lem r s rest e = cases r.value refl
  where
    cases :
        (v : Bytes)
        → r.value ≡ v
        → (t : Stream) × (recv_value (header r) s ≡ (ok r, t)) × (ready t ≡ rest)
    cases [] none = (s, rw none refl, rw none at e)
    cases (b ∷ bs) some =
        let (t, read, left, _) = recv_exact-append (length r.value) s r.value rest refl e in
        let long : (length r.value == 0) ≡ false = ground (arith, ap length some) in
        (
          t,
          rw long (bind-ok (recv_exact (length r.value)) (with_value (header r)) s read refl),
          left,
        )

-- The bytes of a response are read back.
pub recv_response-bytes :
    (r : Response) (s : Stream) (rest : Bytes)
    → length r.value ≤ max_value_bytes
    → r.request_id < 2 ^ 64
    → ready s ≡ response_bytes r ++ rest
    → (t : Stream) × (recv_response s ≡ (ok r, t)) × (ready t ≡ rest)
unfolding recv_response calcsize
recv_response-bytes r s rest h n front =
    let (u, head, left, _) =
      recv_exact-append 20 s (packed response_struct (response_fields r)) (r.value ++ rest)
        (length-packed response_struct (response_fields r) (response-Fits r h n))
        (front ∙ append_assoc (packed response_struct (response_fields r)) r.value rest) in
    let (t, read, end) = recv_value_lem r u rest left in
    (
      t,
      bind-ok (recv_exact 20) after_response_header s head
          (rw (after_response_header, response_header-packed r h n) read),
      end,
    )

-- If `Response.encode` returns bytes, `recv_response` reads the response back from them, in whatever
-- pieces they arrive, and the bytes behind them are left.
pub recv_response-encode :
    (r : Response) {bs : Bytes}
    → encode_response r ≡ ok bs
    → (s : Stream) (rest : Bytes) → ready s ≡ bs ++ rest
    → (t : Stream) × (recv_response s ≡ (ok r, t)) × (ready t ≡ rest)
recv_response-encode r {bs} e s rest front =
    let (h, n) = encode_response-Fits r e in
    let same : bs ≡ response_bytes r = ok-injective (sym e ∙ encode_response_lem r h n) in
    recv_response-bytes r s rest h n (front ∙ ap (λ (b : Bytes). b ++ rest) same)

-- If `call` returns a response, it carries the identifier of the request.
pub call_matches :
    (gateway : Bytes → Result Stream) (q : Request) {r : Response}
    → call gateway q ≡ ok r
    → r.request_id ≡ q.request_id
unfolding call
call_matches gateway q {r} e =
    let (sent, _, answered) = >>=-eq-ok (encode_request q) _ e in
    let (answer, _, read) = >>=-eq-ok (gateway sent) _ answered in
    let (r', _, checked) = >>=-eq-ok (recv_response answer).0 _ read in ground arith
