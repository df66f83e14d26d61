-- ===== src/Gateway/Serve.antt =====
-- `_handle` and the serving loop as a whole: the storage, the telemetry, and the client's view.
use teecam.Prelude.{
  ◌+◌, ◌-◌, ◌^◌, ◌<◌, ◌≡◌, refl, ap, inl, inr, arith, true, List, [], ◌∷◌, ◌++◌, length,
  length-append, Bytes, Text, codes, IsBytes, All, Error, Result, ok, err, ◌>>=◌, Result-cases,
  ◌==◌, Dict,
}
use teecam.Protocol.Stream.{Stream, chunk, ready, ready-chunk}
use teecam.Protocol.Message.{Status, Request, Response, protocol_error}
use teecam.Protocol.Receive.{recv_request}
use teecam.Protocol.Call.{call}
use teecam.Protocol.Encoding.{
  IsAllowed, IsAllowed-of_encode, encode-IsAllowed, encode_response_lem, response_bytes,
  request_bytes,
}
use teecam.Protocol.RoundTrip.{recv_request-encode}
use teecam.Protocol.Responses.{recv_response-bytes}
use teecam.Protocol.Canonical.{encode-recv_request}
use teecam.Gateway.Handler.{
  Event, Gateway, Connection, perform, finish, emit, respond, handle, serve, no_request, Locals,
  sendall,
}
use teecam.Gateway.Total.{handle-Answered, recv_request-IsCaught}
use teecam.Gateway.Storage.{IsValid, perform-IsValid, perform-bounded}

finish-storage :
    (c : Connection) (l : Locals) (reported : Status) (r : Result Bytes) (g : Gateway)
    → (finish c l reported r g).1.storage ≡ g.storage
unfolding finish emit
finish-storage c l reported (ok sent) g = refl
finish-storage c l reported (err e) g = ground arith

-- The storage after a request was received, or was not.
abbrev pub storage_after : Result Request → Dict Bytes → Dict Bytes
storage_after (ok r) d = (perform r.operation r.key r.value d).storage
storage_after (err e) d = d

module _ (blake2b : Bytes → Bytes → Text) where
  -- The storage changes by the branch of the operation if a request is received, whether or not the
  -- answer can be sent, and does not change otherwise.
  pub handle-storage :
      (c : Connection) (g : Gateway)
      → (handle blake2b c g).1.storage ≡ storage_after (recv_request c.arrivals).0 g.storage
  unfolding handle respond
  handle-storage c g = elim (Result-cases (recv_request c.arrivals).0) [
    | inl (r, e) ↦
        rw (handle, e)
          (finish-storage c _ _ _
            (record g { storage = (perform r.operation r.key r.value g.storage).storage }))
    | inr (x, e) ↦ rw (handle, e) (finish-storage c no_request protocol_error (err x) g)
  ]

  -- If the bounds hold of what is stored, they hold after any connection.
  pub handle-IsValid :
      (c : Connection) (g : Gateway)
      → IsBytes (ready c.arrivals)
      → IsValid g.storage
      → IsValid (handle blake2b c g).1.storage
  handle-IsValid c g b h =
      rw (handle-storage c g) (cases (recv_request c.arrivals).0 (recv_request c.arrivals).1 refl)
    where
      cases :
          (r : Result Request) (t : Stream)
          → recv_request c.arrivals ≡ (r, t)
          → IsValid (storage_after r g.storage)
      cases (ok r) t e =
          let (sent, encoded, _) = encode-recv_request r c.arrivals t b e in
          perform-IsValid r.operation r.key r.value g.storage (IsAllowed-of_encode r encoded).0 h
      cases (err x) t e = h

  -- The telemetry's line for a connection that brings no request.
  abbrev pub rejected : Connection → Gateway → Event
  rejected c g = record {
    ts_unix_ns = c.now;
    run_id = g.run_id;
    scenario = g.scenario;
    is_attack = g.is_attack;
    request_id = 0;
    operation = codes "REJECT";
    input_bytes = 0;
    result = codes "PROTOCOL_ERROR";
    error_origin = codes "gateway";
    latency_ns = c.finish - c.start;
    key_fingerprint = [];
    request_fingerprint = [];
  }

  -- A connection that brings no valid request gets no bytes back, changes nothing in the storage,
  -- and is recorded as a rejected one with no fingerprint.
  pub handle-rejected :
      (c : Connection) (g : Gateway) {x : Error}
      → (recv_request c.arrivals).0 ≡ err x
      → handle blake2b c g ≡ (ok [], record g { telemetry = g.telemetry ++ (rejected c g ∷ []) })
  unfolding handle finish emit
  handle-rejected c g {x} e = rw (handle, e, finish, recv_request-IsCaught c.arrivals x e)

  -- If bytes arrive on every connection and the bounds hold of what is stored, the loop goes on to
  -- the last connection: for each there is one line of telemetry, and the bounds hold of what is
  -- stored at the end.
  pub serve-IsValid :
      (cs : List Connection) (g : Gateway)
      → All (λ c. IsBytes (ready c.arrivals)) cs
      → IsValid g.storage
      → let (r, g') = serve blake2b cs g in
        (r ≡ ok tt) × (length g'.telemetry ≡ length g.telemetry + length cs) × IsValid g'.storage
  unfolding serve
  serve-IsValid [] g b h = (refl, omega arith, h)
  serve-IsValid (c ∷ cs) g b h =
      let (sent, event, e, line, _, _, _) = handle-Answered blake2b c g b.0 in
      let (done, count, valid) =
        serve-IsValid cs (handle blake2b c g).1 b.1 (handle-IsValid c g b.0 h) in
      rw (serve, e)
        (done, omega (arith, ap length line, length-append g.telemetry (event ∷ [])), valid)

  -- What the client of a socket gets from the gateway: the bytes of its answer in one piece.
  abbrev pub answers : Connection → Gateway → Bytes → Result Stream
  answers c g sent =
      (handle blake2b (record c { arrivals = chunk sent ∷ [] }) g).0 >>= λ bs. ok (chunk bs ∷ [])

  -- The answer that the branch of the operation gives.
  abbrev pub answer : Request → Gateway → Response
  answer q g =
      let o = perform q.operation q.key q.value g.storage in
      record { request_id = q.request_id; status = o.status; value = o.response_value }

  handle-answer :
      (c : Connection) (g : Gateway) (q : Request) (s : Stream)
      → (recv_request s).0 ≡ ok q
      → q.request_id < 2 ^ 64
      → IsValid g.storage
      → c.sends ≡ true
      → (handle blake2b (record c { arrivals = s }) g).0 ≡ ok (response_bytes (answer q g))
  unfolding handle respond finish sendall
  handle-answer c g q s read n valid sends =
      let small = perform-bounded q.operation q.key q.value g.storage valid in
      rw (handle, read, respond, encode_response_lem (answer q g) small n, sendall, sends)

  -- From end to end: if the protocol allows a request and its identifier fits 64 bits, the bounds
  -- hold of what is stored and the answer can be sent, then the request is encoded by `call`,
  -- received, performed and answered by the gateway, and `call` returns the status and the value
  -- of that operation.
  pub call-handle :
      (c : Connection) (g : Gateway) (q : Request)
      → IsAllowed q.operation q.key q.value
      → q.request_id < 2 ^ 64
      → IsValid g.storage
      → c.sends ≡ true
      → call (answers c g) q ≡ ok (answer q g)
  unfolding call
  call-handle c g q h n valid sends =
      let encoded = encode-IsAllowed q h n in
      let (t, read, _, _) =
        recv_request-encode q (chunk (request_bytes q) ∷ []) [] encoded
          (ready-chunk (request_bytes q)) in
      let received = ap (λ (p : Result Request × Stream). p.0) read in
      let small = perform-bounded q.operation q.key q.value g.storage valid in
      let (u, back, _) =
        recv_response-bytes (answer q g) (chunk (response_bytes (answer q g)) ∷ []) [] small n
          (ready-chunk (response_bytes (answer q g))) in
      let returned = ap (λ (p : Result Response × Stream). p.0) back in
      let same : (q.request_id == q.request_id) ≡ true = ground arith in
      rw (
        encoded,
        handle-answer c g q (chunk (request_bytes q) ∷ []) received n valid sends,
        returned,
        same,
      )
