-- ===== src/Protocol/Header.antt =====
-- The checks that `recv_request` and `recv_response` of cote3mon/protocol.py make on what they have
-- read.
use teecam.Prelude.{
  ℕ, not, ◌||◌, ltb, ◌==◌, List, [], ◌∷◌, Bytes, Result, ok, err, value_error, struct_error, ◌>>=◌,
  ◌>>◌, raise_if, take, drop,
}
use teecam.Protocol.Wire.{unpack}
use teecam.Protocol.Message.{
  magic, version, max_key_bytes, max_value_bytes, request_struct, response_struct, Operation,
  operation_of, Status, status_of, Request, validate_request,
}

pub record RequestHeader : Type 0 where
  pub request_id : ℕ
  pub operation : Operation
  pub key_len : ℕ
  pub value_len : ℕ

pub record ResponseHeader : Type 0 where
  pub request_id : ℕ
  pub status : Status
  pub value_len : ℕ

unfoldable pub check_request : List ℕ → Result RequestHeader
check_request (magic' ∷ version' ∷ operation_raw ∷ request_id ∷ key_len ∷ value_len ∷ []) = do
  raise_if (not (magic' == magic) || not (version' == version)) value_error
  operation ← operation_of operation_raw
  raise_if (key_len == 0 || ltb max_key_bytes key_len || ltb max_value_bytes value_len) value_error
  ok (record {
    request_id = request_id;
    operation = operation;
    key_len = key_len;
    value_len = value_len;
  })
check_request _ = err struct_error

-- `recv_request`, from the 24 bytes of the header to the checks of its fields
unfoldable pub request_header : Bytes → Result RequestHeader
unfolding check_request
request_header raw = do values ← unpack request_struct raw; check_request values

-- `recv_request`, from the payload on
unfoldable pub request_of : RequestHeader → Bytes → Result Request
request_of h payload = do
  validate_request h.operation (take h.key_len payload) (drop h.key_len payload)
  ok (record {
    request_id = h.request_id;
    operation = h.operation;
    key = take h.key_len payload;
    value = drop h.key_len payload;
  })

unfoldable pub check_response : List ℕ → Result ResponseHeader
check_response (magic' ∷ version' ∷ status_raw ∷ request_id ∷ value_len ∷ []) = do
  raise_if (not (magic' == magic) || not (version' == version)) value_error
  raise_if (ltb max_value_bytes value_len) value_error
  status ← status_of status_raw
  ok (record { request_id = request_id; status = status; value_len = value_len })
check_response _ = err struct_error

-- `recv_response`, from the 20 bytes of the header to the checks of its fields
unfoldable pub response_header : Bytes → Result ResponseHeader
unfolding check_response
response_header raw = do values ← unpack response_struct raw; check_response values
