-- ===== src/Protocol/Canonical.antt =====
-- What `recv_request` accepts, and that only the bytes of the stream matter to it.
use mathlib.Core.Path.{subst, ap₂}
use mathlib.Core.List.{append_assoc}
use teecam.Prelude.{
  ℕ, ◌+◌, ◌<◌, ◌≡◌, sym, ap, ◌∙◌, arith, List, [], ◌∷◌, ◌++◌, length, Bytes, IsBytes, Result, ok,
  >>=-eq-ok, Result-cases, ==_iff, length-take, length-drop, take-append-drop, take, drop, All-left,
  Bool-cases, inl, inr, ◌==◌,
}
use teecam.Protocol.Wire.{unpack, fields, packed, packed-fields, Fits, calcsize}
use teecam.Protocol.Stream.{Stream, ready, recv_exact, recv_exact_inv}
use teecam.Protocol.Message.{
  magic, version, Operation, put, get, delete, operation_code, operation_of, Request,
  encode_request, request_struct, validate_request,
}
use teecam.Protocol.Header.{RequestHeader, check_request, request_header, request_of}
use teecam.Protocol.Reader.{lift, bind_inv}
use teecam.Protocol.Receive.{recv_request, recv_payload, after_request_header}
use teecam.Protocol.Encoding.{
  IsAllowed, IsAllowed-of_validate, request_fields, request_bytes, encode-IsAllowed,
}

code_of_operation_of : (n : ℕ) (o : Operation) → operation_of n ≡ ok o → n ≡ operation_code o
unfolding operation_of operation_code
code_of_operation_of n put h = ground arith
code_of_operation_of n get h = ground arith
code_of_operation_of n delete h = ground arith

-- The fields of a header that passes the checks.
abbrev header_fields : RequestHeader → List ℕ
header_fields h =
    magic ∷ version ∷ operation_code h.operation ∷ h.request_id ∷ h.key_len ∷ h.value_len ∷ []

check_request_inv :
    (vs : List ℕ) (h : RequestHeader) → check_request vs ≡ ok h → (vs ≡ header_fields h)
unfolding check_request
check_request_inv (m ∷ v ∷ o ∷ i ∷ k ∷ l ∷ []) h e = elim (Result-cases (operation_of o)) [
  | inl (op, known) ↦ ground (arith, code_of_operation_of o op known)
  | inr (x, unknown) ↦ absurd (ground arith)
]
check_request_inv [] h e = cc
check_request_inv _ h e = cc

lift_inv :
    {A : Type 0} (r : Result A) (s t : Stream) {a : A}
    → ◌≡◌ {A = Result A × Stream} (r, s) (ok a, t)
    → (r ≡ ok a) × (s ≡ t)
lift_inv {A} r s t e =
    (ap (λ (p : Result A × Stream). p.0) e, ap (λ (p : Result A × Stream). p.1) e)

request_header_inv :
    (raw : Bytes) (h : RequestHeader)
    → IsBytes raw
    → request_header raw ≡ ok h
    → Fits request_struct (header_fields h) × (packed request_struct (header_fields h) ≡ raw)
unfolding request_header unpack
request_header_inv raw h b e = elim (Bool-cases (length raw == calcsize request_struct)) [
  | inl size ↦
      let known = check_request_inv (fields request_struct raw) h (rw size at e) in
      let whole = packed-fields request_struct raw b ((==_iff _ _).0 size) in
      subst (λ (vs : List ℕ). Fits request_struct vs × (packed request_struct vs ≡ raw)) known whole
  | inr size ↦ absurd (cc (rw size at e))
]

-- The request that `recv_request` makes of a payload.
abbrev made_of : RequestHeader → Bytes → Request
made_of h payload = record {
  request_id = h.request_id;
  operation = h.operation;
  key = take h.key_len payload;
  value = drop h.key_len payload;
}

-- The header and the payload are those of an encoded request.
abbrev IsEncoding : RequestHeader → Bytes → Request → Type 0
IsEncoding h payload r =
    IsAllowed r.operation r.key r.value
    × (header_fields h ≡ request_fields r)
    × (r.key ++ r.value ≡ payload)

request_of_inv :
    (h : RequestHeader) (payload : Bytes) (r : Request)
    → length payload ≡ h.key_len + h.value_len
    → request_of h payload ≡ ok r
    → IsEncoding h payload r
unfolding request_of
request_of_inv h payload r n e =
    let (u, valid, made) =
      >>=-eq-ok (validate_request h.operation (take h.key_len payload) (drop h.key_len payload)) _
        e in
    let key_size : length (take h.key_len payload) ≡ h.key_len =
      omega (arith, length-take h.key_len payload) in
    let value_size : length (drop h.key_len payload) ≡ h.value_len =
      omega (arith, length-drop h.key_len payload) in
    let same : made_of h payload ≡ r = cc made in
    subst (IsEncoding h payload) same (
      IsAllowed-of_validate _ _ _ valid,
      rw (key_size, value_size),
      take-append-drop h.key_len payload,
    )

recv_payload_inv :
    (h : RequestHeader) (s : Stream) (r : Request) (t : Stream)
    → recv_payload h s ≡ (ok r, t)
    → (payload : Bytes) × (ready s ≡ payload ++ ready t) × IsEncoding h payload r
unfolding recv_payload
recv_payload_inv h s r t e =
    let (payload, u, read, made) =
      bind_inv (recv_exact (h.key_len + h.value_len)) (λ payload. lift (request_of h payload)) s
        e in
    let (made', same) = lift_inv (request_of h payload) u t made in
    let (size, front, _) = recv_exact_inv (h.key_len + h.value_len) s read in
    (payload, rw (← same) front, request_of_inv h payload r size made')

-- If bytes arrive and `recv_request` returns a request, what it has consumed is what `encode`
-- writes for that request: it accepts nothing but the encodings of requests.
pub encode-recv_request :
    (r : Request) (s t : Stream)
    → IsBytes (ready s)
    → recv_request s ≡ (ok r, t)
    → (bs : Bytes) × (encode_request r ≡ ok bs) × (ready s ≡ bs ++ ready t)
unfolding recv_request after_request_header
encode-recv_request r s t b e =
    let (raw, u, read, after) = bind_inv (recv_exact 24) after_request_header s e in
    let (h, u', known, rest) = bind_inv (lift (request_header raw)) recv_payload u after in
    let (header, same) = lift_inv (request_header raw) u u' known in
    let (payload, behind, (allowed, same_fields, joined)) = recv_payload_inv h u' r t rest in
    let (size, front, _) = recv_exact_inv 24 s read in
    let (fits, packed_header) =
      request_header_inv raw h (All-left (λ x. x < 256) raw (ready u) (rw front at b)) header in
    let small = subst (Fits request_struct) same_fields fits in
    let head : packed request_struct (request_fields r) ≡ raw =
      ap (packed request_struct) (sym same_fields) ∙ packed_header in
    (
      request_bytes r,
      encode-IsAllowed r allowed small.1.1.1.0,
      front
          ∙ ap (◌++◌ raw) (ap ready same ∙ behind)
          ∙ sym (append_assoc raw payload (ready t))
          ∙ ap (λ (x : Bytes). x ++ ready t) (ap₂ ◌++◌ (sym head) (sym joined)),
    )
