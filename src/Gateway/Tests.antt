-- ===== src/Gateway/Tests.antt =====
-- The gateway on concrete connections, with a toy function in place of BLAKE2b.
use teecam.Prelude.{
  ◌+◌, ◌≡◌, refl, arith, true, false, List, [], ◌∷◌, ◌++◌, length, Bytes, Text, codes, IsBytes, ok,
  err, eof_error, IsDict, lookup, take, drop, Dict,
}
use teecam.Protocol.Wire.{packed, be}
use teecam.Protocol.Stream.{Stream, chunk, ready, recv_exact}
use teecam.Protocol.Message.{get, delete, Request, operation_code}
use teecam.Protocol.Encoding.{IsAllowed, request_bytes}
use teecam.Protocol.Receive.{recv_request}
use teecam.Protocol.Call.{call}
use teecam.Gateway.Fingerprint.{framed, framed-injective}
use teecam.Gateway.Handler.{Gateway, Connection, perform, handle, serve}
use teecam.Gateway.Total.{Answered, handle-Answered}
use teecam.Gateway.Storage.{
  IsValid, perform-store, view, status_of_store, value_of_store, store_after,
}
use teecam.Gateway.Serve.{
  answer, answers, rejected, storage_after, handle-storage, handle-rejected, serve-IsValid,
  call-handle,
}

abbrev toy_hash : Bytes → Bytes → Text
toy_hash key message = key ++ message

abbrev stored : Dict Bytes
stored = (codes "k", codes "old") ∷ []

abbrev a_gateway : Gateway
a_gateway = record {
  run_id = codes "run-1";
  scenario = codes "normal_balanced";
  is_attack = false;
  fingerprint_key = 1 ∷ [];
  storage = stored;
  telemetry = [];
}

abbrev get_request : Request
get_request = record { request_id = 3; operation = get; key = codes "k"; value = [] }

abbrev connection_of : Stream → Connection
connection_of s = record { arrivals = s; sends = true; start = 10; finish = 40; now = 99 }

-- A client that hangs up, and one that asks for a key.
abbrev broken : Connection
broken = connection_of (chunk (1 ∷ 2 ∷ []) ∷ [])

abbrev asking : Connection
asking = connection_of (chunk (request_bytes get_request) ∷ [])

stored-IsDict : IsDict stored
unfolding lookup
stored-IsDict = (refl, tt)

stored-IsValid : IsValid stored
stored-IsValid = record { no_key_twice = stored-IsDict; bounded = omega arith }

get_request-IsAllowed : IsAllowed get_request.operation get_request.key get_request.value
get_request-IsAllowed = record {
  key_pos = omega arith;
  key_le = omega arith;
  value_le = omega arith;
  value_of_put = λ h. refl;
}

IsBytes-broken : IsBytes (ready broken.arrivals)
unfolding ready
IsBytes-broken = omega arith

IsBytes-asking : IsBytes (ready asking.arrivals)
unfolding ready be packed operation_code
IsBytes-asking = omega arith

broken-refused : (recv_request broken.arrivals).0 ≡ err eof_error
unfolding recv_request recv_exact take drop
broken-refused = refl

call-handle_example :
    call (answers toy_hash asking a_gateway) get_request
    ≡ ok (answer toy_hash get_request a_gateway)
call-handle_example =
    call-handle toy_hash asking a_gateway get_request get_request-IsAllowed (omega arith)
      stored-IsValid refl

perform-store_example :
    ((perform delete (codes "k") [] stored).status
      ≡ status_of_store delete (codes "k") (view stored))
    × ((perform delete (codes "k") [] stored).response_value
        ≡ value_of_store delete (codes "k") (view stored))
    × ((j : Bytes)
        → view (perform delete (codes "k") [] stored).storage j
          ≡ store_after delete (codes "k") [] (view stored) j)
perform-store_example = perform-store delete (codes "k") [] stored stored-IsDict

handle-Answered_example : Answered a_gateway (handle toy_hash broken a_gateway)
handle-Answered_example = handle-Answered toy_hash broken a_gateway IsBytes-broken

handle-storage_example :
    (handle toy_hash asking a_gateway).1.storage
    ≡ storage_after (recv_request asking.arrivals).0 stored
handle-storage_example = handle-storage toy_hash asking a_gateway

handle-rejected_example :
    handle toy_hash broken a_gateway
    ≡ (ok [], record a_gateway { telemetry = rejected toy_hash broken a_gateway ∷ [] })
handle-rejected_example = handle-rejected toy_hash broken a_gateway broken-refused

serve-IsValid_example :
    let (r, g') = serve toy_hash (broken ∷ asking ∷ []) a_gateway in
    (r ≡ ok tt) × (length g'.telemetry ≡ 0 + 2) × IsValid g'.storage
serve-IsValid_example =
    serve-IsValid toy_hash (broken ∷ asking ∷ []) a_gateway (IsBytes-broken, (IsBytes-asking, tt))
      stored-IsValid

abbrev two_parts : List Bytes
two_parts = (1 ∷ []) ∷ (2 ∷ []) ∷ []

same_frames : framed two_parts ≡ framed ((1 ∷ []) ∷ (2 ∷ []) ∷ [])
same_frames = refl

framed-injective_example : two_parts ≡ (1 ∷ []) ∷ (2 ∷ []) ∷ []
framed-injective_example =
    framed-injective two_parts ((1 ∷ []) ∷ (2 ∷ []) ∷ []) (omega arith) (omega arith) same_frames
