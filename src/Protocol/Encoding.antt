-- ===== src/Protocol/Encoding.antt =====
-- When a message can be encoded, and what its bytes are.
use teecam.Prelude.{
  ℕ, ◌^◌, ◌≤◌, ◌<◌, ◌≡◌, refl, ◌≢◌, ◌↔◌, arith, true, List, [], ◌∷◌, ◌++◌, length, Bytes, ok, err,
  value_error, ltb, >>=-eq-ok, inl, inr, Bool-cases, Result-cases,
}
use teecam.Protocol.Wire.{pack, packed, Fits, pack-Fits, Fits-of_pack}
use teecam.Protocol.Message.{
  magic, version, max_key_bytes, max_value_bytes, request_struct, response_struct, Operation, put,
  get, delete, Status, operation_code, status_code, Request, Response, is_empty, takes_no_value,
  validate_request, encode_request, encode_response,
}

-- What the protocol allows in a request.
pub record IsAllowed (operation : Operation) (key value : Bytes) : Type 0 where
  pub key_pos : 1 ≤ length key
  pub key_le : length key ≤ max_key_bytes
  pub value_le : length value ≤ max_value_bytes
  pub value_of_put : operation ≢ put → value ≡ []

pub validate-IsAllowed :
    (o : Operation) (k v : Bytes) → IsAllowed o k v → validate_request o k v ≡ ok tt
unfolding validate_request
validate-IsAllowed o [] v h = absurd (omega arith)
validate-IsAllowed put (k ∷ ks) v h = ground arith
validate-IsAllowed get (k ∷ ks) v h = rw (h.value_of_put (λ e. cc)) (ground arith)
validate-IsAllowed delete (k ∷ ks) v h = rw (h.value_of_put (λ e. cc)) (ground arith)

no_value :
    (o : Operation) (v : Bytes) → (takes_no_value o ≡ true → is_empty v ≡ true) → o ≢ put → v ≡ []
unfolding takes_no_value is_empty
no_value o [] h n = refl
no_value put (b ∷ v) h n = absurd (n refl)
no_value get (b ∷ v) h n = cc (h refl)
no_value delete (b ∷ v) h n = cc (h refl)

pub IsAllowed-of_validate :
    (o : Operation) (k v : Bytes) → validate_request o k v ≡ ok tt → IsAllowed o k v
unfolding validate_request
IsAllowed-of_validate o [] v h = cc
IsAllowed-of_validate o (k ∷ ks) v h = record {
  key_pos = omega arith;
  key_le = ground arith;
  value_le = ground arith;
  value_of_put = no_value o v (ground arith);
}

abbrev pub request_fields : Request → List ℕ
request_fields r =
    magic ∷ version ∷ operation_code r.operation ∷ r.request_id ∷ length r.key ∷ length r.value ∷ []

abbrev pub request_bytes : Request → Bytes
request_bytes r = packed request_struct (request_fields r) ++ (r.key ++ r.value)

operation_code-lt : (o : Operation) → operation_code o < 4
unfolding operation_code
operation_code-lt put = omega arith
operation_code-lt get = omega arith
operation_code-lt delete = omega arith

pub request-Fits :
    (r : Request)
    → IsAllowed r.operation r.key r.value
    → r.request_id < 2 ^ 64
    → Fits request_struct (request_fields r)
request-Fits r h n = omega (arith, operation_code-lt r.operation)

pub encode-IsAllowed :
    (r : Request)
    → IsAllowed r.operation r.key r.value
    → r.request_id < 2 ^ 64
    → encode_request r ≡ ok (request_bytes r)
unfolding encode_request
encode-IsAllowed r h n = rw (
  validate-IsAllowed r.operation r.key r.value h,
  pack-Fits request_struct (request_fields r) (request-Fits r h n),
)

pub IsAllowed-of_encode :
    (r : Request) {bs : Bytes}
    → encode_request r ≡ ok bs
    → IsAllowed r.operation r.key r.value × (r.request_id < 2 ^ 64)
unfolding encode_request
IsAllowed-of_encode r h =
    let (u, valid, packs) = >>=-eq-ok (validate_request r.operation r.key r.value) _ h in
    let (header, e, _) = >>=-eq-ok (pack request_struct (request_fields r)) _ packs in
    (
      IsAllowed-of_validate r.operation r.key r.value valid,
      (Fits-of_pack request_struct (request_fields r) e).1.1.1.0,
    )

-- A request is encoded exactly if it is one that the protocol allows and its identifier fits 64
-- bits: a key of 1 to 64 bytes, a value of at most 4096 bytes, and no value for GET and DELETE.
pub encode_request_iff :
    (r : Request)
    → ((bs : Bytes) × (encode_request r ≡ ok bs))
      ↔ (IsAllowed r.operation r.key r.value × (r.request_id < 2 ^ 64))
encode_request_iff r =
    (λ (bs, e). IsAllowed-of_encode r e, λ (h, n). (request_bytes r, encode-IsAllowed r h n))

abbrev pub response_fields : Response → List ℕ
response_fields r = magic ∷ version ∷ status_code r.status ∷ r.request_id ∷ length r.value ∷ []

abbrev pub response_bytes : Response → Bytes
response_bytes r = packed response_struct (response_fields r) ++ r.value

status_code-lt : (s : Status) → status_code s < 6
unfolding status_code
status_code-lt Status.status_ok = omega arith
status_code-lt _ = omega arith

pub response-Fits :
    (r : Response)
    → length r.value ≤ max_value_bytes
    → r.request_id < 2 ^ 64
    → Fits response_struct (response_fields r)
response-Fits r h n = omega (arith, status_code-lt r.status)

pub encode_response_lem :
    (r : Response)
    → length r.value ≤ max_value_bytes
    → r.request_id < 2 ^ 64
    → encode_response r ≡ ok (response_bytes r)
unfolding encode_response
encode_response_lem r h n =
    rw (pack-Fits response_struct (response_fields r) (response-Fits r h n)) (ground arith)

pub encode_response-Fits :
    (r : Response) {bs : Bytes}
    → encode_response r ≡ ok bs
    → (length r.value ≤ max_value_bytes) × (r.request_id < 2 ^ 64)
unfolding encode_response
encode_response-Fits r {bs} e = elim (Bool-cases (ltb max_value_bytes (length r.value))) [
  | inl y ↦ absurd (let w = rw (encode_response, y) at e in cc w)
  | inr n ↦ elim (Result-cases (pack response_struct (response_fields r))) [
    | inr (raised, f) ↦ absurd (let w = rw (encode_response, n, f) at e in cc w)
    | inl (header, f) ↦ (ground arith, (Fits-of_pack response_struct (response_fields r) f).1.1.1.0)
  ]
]

pub encode_response_long :
    (r : Response) → max_value_bytes < length r.value → encode_response r ≡ err value_error
unfolding encode_response
encode_response_long r h =
    let long : ltb max_value_bytes (length r.value) ≡ true = ground arith in rw long
