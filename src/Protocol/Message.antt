-- ===== src/Protocol/Message.antt =====
-- The messages of cote3mon/protocol.py and their encoding.
use teecam.Prelude.{
  ℕ, Bool, true, false, not, ◌&&◌, ◌||◌, ltb, ◌==◌, List, [], ◌∷◌, ◌++◌, length, Bytes, Result, ok,
  err, value_error, ◌>>=◌, ◌>>◌, raise_if, if◌then◌else◌,
}
use teecam.Protocol.Wire.{pack}

abbrev pub magic : ℕ
magic = 0x43334D31

abbrev pub version : ℕ
version = 1

abbrev pub max_key_bytes : ℕ
max_key_bytes = 64

abbrev pub max_value_bytes : ℕ
max_value_bytes = 4096

-- "!IHHQII": magic, version, operation, request id, key length, value length
abbrev pub request_struct : List ℕ
request_struct = 4 ∷ 2 ∷ 2 ∷ 8 ∷ 4 ∷ 4 ∷ []

-- "!IHHQI": magic, version, status, request id, value length
abbrev pub response_struct : List ℕ
response_struct = 4 ∷ 2 ∷ 2 ∷ 8 ∷ 4 ∷ []

pub data Operation : Type 0 where
  put get delete : Operation

pub data Status : Type 0 where
  status_ok invalid not_found backend_error too_large protocol_error : Status

-- `int(operation)`
unfoldable pub operation_code : Operation → ℕ
operation_code put = 1
operation_code get = 2
operation_code delete = 3

-- `Operation(code)`, which raises a `ValueError` on any other code
unfoldable pub operation_of : ℕ → Result Operation
operation_of n =
    if n == 1
    then ok put
    else if n == 2
    then ok get
    else if n == 3
    then ok delete
    else err value_error

-- `int(status)`
unfoldable pub status_code : Status → ℕ
status_code status_ok = 0
status_code invalid = 1
status_code not_found = 2
status_code backend_error = 3
status_code too_large = 4
status_code protocol_error = 5

-- `Status(code)`
unfoldable pub status_of : ℕ → Result Status
status_of n =
    if n == 0
    then ok status_ok
    else if n == 1
    then ok invalid
    else if n == 2
    then ok not_found
    else if n == 3
    then ok backend_error
    else if n == 4
    then ok too_large
    else if n == 5
    then ok protocol_error
    else err value_error

pub record Request : Type 0 where
  pub request_id : ℕ
  pub operation : Operation
  pub key : Bytes
  pub value : Bytes

pub record Response : Type 0 where
  pub request_id : ℕ
  pub status : Status
  pub value : Bytes

-- `not data`
unfoldable pub is_empty : Bytes → Bool
is_empty [] = true
is_empty (b ∷ bs) = false

-- `operation in (Operation.GET, Operation.DELETE)`
unfoldable pub takes_no_value : Operation → Bool
takes_no_value put = false
takes_no_value get = true
takes_no_value delete = true

unfoldable pub validate_request : Operation → Bytes → Bytes → Result (Unit {0})
unfolding is_empty takes_no_value
validate_request operation key value = do
  raise_if (is_empty key || ltb max_key_bytes (length key)) value_error
  raise_if (ltb max_value_bytes (length value)) value_error
  raise_if (takes_no_value operation && not (is_empty value)) value_error

-- `Request.encode`
unfoldable pub encode_request : Request → Result Bytes
unfolding validate_request operation_code pack
encode_request r = do
  validate_request r.operation r.key r.value
  header ← pack request_struct (
      magic
      ∷ version
      ∷ operation_code r.operation
      ∷ r.request_id
      ∷ length r.key
      ∷ length r.value
      ∷ [])
  ok (header ++ (r.key ++ r.value))

-- `Response.encode`
unfoldable pub encode_response : Response → Result Bytes
unfolding status_code pack
encode_response r = do
  raise_if (ltb max_value_bytes (length r.value)) value_error
  header ←
      pack response_struct
        (magic ∷ version ∷ status_code r.status ∷ r.request_id ∷ length r.value ∷ [])
  ok (header ++ r.value)
