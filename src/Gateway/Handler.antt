-- ===== src/Gateway/Handler.antt =====
-- `class MockGateway` of cote3mon/mock_gateway.py: the requests and the telemetry of one run.
use teecam.Prelude.{
  ℕ, ◌+◌, ◌-◌, Bool, true, false, if◌then◌else◌, none, some, List, [], ◌∷◌, ◌++◌, length, Bytes,
  Text, codes, Error, value_error, eof_error, os_error, Result, ok, err, ◌>>=◌, Dict, lookup,
  insert, erase,
}
use teecam.Protocol.Wire.{be}
use teecam.Protocol.Stream.{Stream}
use teecam.Protocol.Message.{
  Operation, put, get, delete, operation_code, Status, status_ok, invalid, not_found, backend_error,
  too_large, protocol_error, Request, Response, encode_response,
}
use teecam.Protocol.Receive.{recv_request}
use teecam.Gateway.Fingerprint.{fingerprint}

-- `operation.name`
unfoldable pub operation_name : Operation → Text
operation_name put = codes "PUT"
operation_name get = codes "GET"
operation_name delete = codes "DELETE"

-- `status.name`
unfoldable pub status_name : Status → Text
status_name status_ok = codes "OK"
status_name invalid = codes "INVALID"
status_name not_found = codes "NOT_FOUND"
status_name backend_error = codes "BACKEND_ERROR"
status_name too_large = codes "TOO_LARGE"
status_name protocol_error = codes "PROTOCOL_ERROR"

-- A line of the telemetry file. `latency_ns` is the code's `latency_us` times 1000; "event_type"
-- and "container_id" are the same in every line.
pub record Event : Type 0 where
  pub ts_unix_ns : ℕ
  pub run_id : Text
  pub scenario : Text
  pub is_attack : Bool
  pub request_id : ℕ
  pub operation : Text
  pub input_bytes : ℕ
  pub result : Text
  pub error_origin : Text
  pub latency_ns : ℕ
  pub key_fingerprint : Text
  pub request_fingerprint : Text

pub record Gateway : Type 0 where
  pub run_id : Text
  pub scenario : Text
  pub is_attack : Bool
  pub fingerprint_key : Bytes
  pub storage : Dict Bytes
  -- the lines written to `telemetry_path`
  pub telemetry : List Event

-- A client's connection, and what the clocks say while it is handled: `perf_counter_ns` at the
-- start and at the end, which is not smaller, and `time_ns`. `sends` is whether `sendall` succeeds.
pub record Connection : Type 0 where
  pub arrivals : Stream
  pub sends : Bool
  pub start : ℕ
  pub finish : ℕ
  pub now : ℕ

-- The three branches on the operation: the status, the response's value and the storage.
pub record Outcome : Type 0 where
  pub status : Status
  pub response_value : Bytes
  pub storage : Dict Bytes

unfoldable pub perform : Operation → Bytes → Bytes → Dict Bytes → Outcome
perform put key value d = record {
  status = status_ok;
  response_value = [];
  storage = insert key value d;
}
perform get key value d = elim (lookup key d) [
  | some found ↦ record { status = status_ok; response_value = found; storage = d }
  | none ↦ record { status = not_found; response_value = []; storage = d }
]
perform delete key value d = elim (lookup key d) [
  | some found ↦ record { status = status_ok; response_value = []; storage = erase key d }
  | none ↦ record { status = not_found; response_value = []; storage = d }
]

-- `except (EOFError, ValueError, OSError)`
unfoldable pub is_caught : Error → Bool
is_caught value_error = true
is_caught eof_error = true
is_caught os_error = true
is_caught _ = false

-- `"gateway" if status is not Status.OK else "none"`
unfoldable pub origin : Status → Text
origin status_ok = codes "none"
origin _ = codes "gateway"

-- The local variables of `_handle` that end in the telemetry.
pub record Locals : Type 0 where
  pub request_id : ℕ
  pub operation : Text
  pub input_bytes : ℕ
  pub key_fingerprint : Text
  pub request_fingerprint : Text

abbrev pub no_request : Locals
no_request = record {
  request_id = 0;
  operation = codes "REJECT";
  input_bytes = 0;
  key_fingerprint = [];
  request_fingerprint = [];
}

module _ (blake2b : Bytes → Bytes → Text) where
  unfoldable pub locals_of : Bytes → Request → Locals
  unfolding fingerprint operation_name operation_code be
  locals_of key r = record {
    request_id = r.request_id;
    operation = operation_name r.operation;
    input_bytes = length r.key + length r.value;
    key_fingerprint = fingerprint blake2b key (r.key ∷ []);
    request_fingerprint =
        fingerprint blake2b key (be 2 (operation_code r.operation) ∷ r.key ∷ r.value ∷ []);
  }

-- `_emit`, with the event that `_handle` makes
unfoldable pub emit : Connection → Locals → Status → Gateway → Gateway
unfolding status_name origin
emit c l status g = record g {
  telemetry =
      g.telemetry
      ++ (record {
        ts_unix_ns = c.now;
        run_id = g.run_id;
        scenario = g.scenario;
        is_attack = g.is_attack;
        request_id = l.request_id;
        operation = l.operation;
        input_bytes = l.input_bytes;
        result = status_name status;
        error_origin = origin status;
        latency_ns = c.finish - c.start;
        key_fingerprint = l.key_fingerprint;
        request_fingerprint = l.request_fingerprint;
      }
          ∷ []);
}

-- `connection.sendall(data)`
unfoldable pub sendall : Connection → Bytes → Result Bytes
sendall c sent = if c.sends then ok sent else err os_error

-- The end of `_handle`, after the `try` block was left by `outcome` with that status: an exception
-- that is not caught leaves `_handle` with no telemetry. The result is what the client received.
unfoldable pub finish :
    Connection → Locals → Status → Result Bytes → Gateway → Result Bytes × Gateway
unfolding emit is_caught
finish c l reported (ok sent) g = (ok sent, emit c l reported g)
finish c l reported (err e) g =
    if is_caught e then (ok [], emit c l protocol_error g) else (err e, g)

module _ (blake2b : Bytes → Bytes → Text) where
  -- the `try` block once a request is there
  unfoldable pub respond : Connection → Request → Gateway → Result Bytes × Gateway
  unfolding finish perform locals_of sendall
  respond c r g =
      let o = perform r.operation r.key r.value g.storage in
      let answer : Response = record {
        request_id = r.request_id;
        status = o.status;
        value = o.response_value;
      } in
      finish c (locals_of blake2b g.fingerprint_key r) o.status
        (encode_response answer >>= sendall c) (record g { storage = o.storage })

  -- `_handle`
  unfoldable pub handle : Connection → Gateway → Result Bytes × Gateway
  unfolding respond finish
  handle c g = elim (recv_request c.arrivals).0 [
    | ok r ↦ respond c r g
    | err e ↦ finish c no_request protocol_error (err e) g
  ]

  -- The loop of `_serve`, over the connections that are accepted before `stop`: an exception ends
  -- the thread.
  unfoldable pub serve : List Connection → Gateway → Result (Unit {0}) × Gateway
  unfolding handle
  serve [] g = (ok tt, g)
  serve (c ∷ cs) g =
      let (r, g') = handle c g in
      let rest = serve cs g' in elim r [ ok _ ↦ rest | err e ↦ (err e, g') ]
