-- ===== src/Workload/Requests.antt =====
-- The scenarios of cote3mon/workload.py and what is sent for them.
use teecam.Prelude.{
  ℕ, ◌+◌, ◌/◌, ◌%◌, ◌==◌, if◌then◌else◌, Option, none, some, List, [], ◌∷◌, ◌++◌, replicate, Bytes,
  Text, codes, text_eq, Result, ok, err, value_error, ◌>>=◌,
}
use teecam.Protocol.Wire.{pack}
use teecam.Protocol.Message.{
  Operation, put, get, delete, operation_code, Request, magic, version, request_struct,
  max_value_bytes,
}

abbrev pub benign_scenarios : List Text
benign_scenarios = codes "steady" ∷ codes "bursty" ∷ codes "large_value" ∷ []

abbrev pub attack_scenarios : List Text
attack_scenarios = codes "flood" ∷ codes "malformed" ∷ codes "error_storm" ∷ codes "replay" ∷ []

abbrev pub all_scenarios : List Text
all_scenarios = benign_scenarios ++ attack_scenarios

pub data Scenario : Type 0 where
  steady bursty large_value flood malformed error_storm replay : Scenario

-- The tests of the loop, on a name of `ALL_SCENARIOS`; any other is refused.
unfoldable pub scenario_of : Text → Result Scenario
unfolding text_eq
scenario_of name =
    if text_eq name (codes "steady")
    then ok steady
    else if text_eq name (codes "bursty")
    then ok bursty
    else if text_eq name (codes "large_value")
    then ok large_value
    else if text_eq name (codes "flood")
    then ok flood
    else if text_eq name (codes "malformed")
    then ok malformed
    else if text_eq name (codes "error_storm")
    then ok error_storm
    else if text_eq name (codes "replay")
    then ok replay
    else err value_error

-- `f"key-{n:02d}".encode("ascii")`, for a number of one or two digits
unfoldable pub key_of : ℕ → Bytes
key_of n = codes "key-" ++ ((48 + n / 10) ∷ (48 + n % 10) ∷ [])

-- `(PUT, GET, GET, DELETE)[request_id % 4]`
unfoldable pub operation_at : ℕ → Operation
operation_at request_id =
    if request_id % 4 == 0 then put else if request_id % 4 == 3 then delete else get

-- The value of a steady request: 64 drawn bytes for PUT
unfoldable pub steady_value : Operation → (ℕ → Bytes) → Bytes
steady_value put randbytes = randbytes 64
steady_value get randbytes = []
steady_value delete randbytes = []

-- The request that a round sends, where `randbytes` is what the generator gives for a length; none
-- for a malformed header.
unfoldable pub request_of : Scenario → ℕ → Bytes → (ℕ → Bytes) → Option Request
unfolding operation_at steady_value replicate
request_of steady id key randbytes = some (record {
  request_id = id;
  operation = operation_at id;
  key = key;
  value = steady_value (operation_at id) randbytes;
})
request_of bursty id key randbytes =
    some (record { request_id = id; operation = put; key = key; value = randbytes 96 })
request_of large_value id key randbytes =
    some (record { request_id = id; operation = put; key = key; value = randbytes 3072 })
request_of flood id key randbytes =
    some (record { request_id = id; operation = put; key = key; value = replicate 32 b'F' })
request_of malformed id key randbytes = none
request_of error_storm id key randbytes =
    some (record { request_id = id; operation = get; key = codes "never-created"; value = [] })
request_of replay id key randbytes = some (record {
  request_id = id;
  operation = put;
  key = codes "replayed-key";
  value = replicate 128 b'R';
})

-- What `_malformed` sends.
unfoldable pub malformed_bytes : ℕ → Result Bytes
unfolding pack operation_code
malformed_bytes id = do
  header ←
      pack request_struct
        (magic ∷ version ∷ operation_code put ∷ id ∷ 1 ∷ (max_value_bytes + 1) ∷ [])
  ok (header ++ codes "k")
