-- ===== src/Workload/Tests.antt =====
-- A steady request, a malformed header and a short run.
use teecam.Prelude.{
  ℕ, ◌+◌, ◌≡◌, refl, arith, true, ltb, some, [], ◌∷◌, ◌++◌, replicate, length-replicate, Bytes,
  Text, codes, text_eq, ok, err, os_error, value_error,
}
use teecam.Protocol.Wire.{pack, be}
use teecam.Protocol.Stream.{Stream, chunk, ready}
use teecam.Protocol.Message.{put, Request, encode_request, operation_code}
use teecam.Protocol.Receive.{recv_request}
use teecam.Gateway.Handler.{Gateway, Connection, handle}
use teecam.Gateway.Serve.{rejected}
use teecam.Workload.Requests.{
  steady, key_of, request_of, operation_at, steady_value, malformed_bytes,
}
use teecam.Workload.Run.{World, run_workload}
use teecam.Workload.Sent.{request_of-received, malformed_bytes-rejected}

abbrev steady_request : Request
steady_request = record {
  request_id = 4;
  operation = put;
  key = codes "key-07";
  value = replicate 64 0;
}

steady-drawn : request_of steady 4 (key_of 7) (λ size. replicate size 0) ≡ some steady_request
unfolding request_of operation_at steady_value key_of
steady-drawn = refl

request_of-received_example :
    (sent : Bytes) × (encode_request steady_request ≡ ok sent)
    × ((s : Stream) → ready s ≡ sent → (recv_request s).0 ≡ ok steady_request)
request_of-received_example =
    request_of-received 4 7 (λ size. replicate size 0) (λ size. length-replicate size 0) steady
      (omega arith) steady-drawn

abbrev toy_hash : Bytes → Bytes → Text
toy_hash key message = key ++ message

abbrev a_gateway : Gateway
a_gateway = record {
  run_id = codes "run";
  scenario = codes "malformed";
  is_attack = true;
  fingerprint_key = codes "key";
  storage = [];
  telemetry = [];
}

abbrev header_in_two : Stream
header_in_two =
    chunk (0x43 ∷ 0x33 ∷ 0x4D ∷ [])
    ∷ chunk (
        0x31 ∷ 0 ∷ 1 ∷ 0 ∷ 1 ∷ 0 ∷ 0 ∷ 0 ∷ 0 ∷ 0 ∷ 0 ∷ 0 ∷ 9 ∷ 0 ∷ 0 ∷ 0 ∷ 1 ∷ 0 ∷ 0 ∷ 16 ∷ 1 ∷ 107
        ∷ [])
    ∷ []

abbrev a_connection : Connection
a_connection = record { arrivals = header_in_two; sends = true; start = 0; finish = 5; now = 7 }

malformed_bytes-rejected_example :
    (sent : Bytes) × (malformed_bytes 9 ≡ ok sent)
    × (ready header_in_two ≡ sent
        → handle toy_hash a_connection a_gateway
          ≡ (ok [], record a_gateway { telemetry = rejected toy_hash a_connection a_gateway ∷ [] }))
malformed_bytes-rejected_example =
    malformed_bytes-rejected toy_hash 9 a_connection a_gateway (omega arith)

header_in_two-malformed : malformed_bytes 9 ≡ ok (ready header_in_two)
unfolding malformed_bytes operation_code pack be ready
header_in_two-malformed = refl

-- A gateway that counts the connections and refuses them.
abbrev refusing : World ℕ
refusing = record {
  answer = λ n bytes. (err os_error, n + 1);
  in_time = λ looks. ltb looks 3;
  randrange = λ n. 31;
  randbytes = λ n size. replicate size 0;
}

refused-run : run_workload refusing 5 (codes "flood") true 0 ≡ err os_error
unfolding run_workload text_eq operation_code pack be
refused-run = refl

unknown-run : run_workload refusing 5 (codes "slow") true 0 ≡ err value_error
unfolding run_workload text_eq
unknown-run = refl
