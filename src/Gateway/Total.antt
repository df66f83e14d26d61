-- ===== src/Gateway/Total.antt =====
-- Which exceptions `recv_request` raises, and that `_handle` lets none of them out.
use teecam.Prelude.{
  ℕ, ◌+◌, ◌^◌, ◌<◌, ◌≡◌, refl, sym, ap, ◌∙◌, arith, true, [], ◌∷◌, ◌++◌, length, Bytes, IsBytes,
  Error, value_error, Result, ok, err, ◌>>=◌, Text,
}
use native.Mathlib.Decide.{dec_le}
use teecam.Protocol.Wire.{unpack-fields, fields, calcsize}
use teecam.Protocol.Stream.{
  Stream, chunk, failure, ready, ending, recv_exact, recv_exact_full, recv_exact_short,
  recv_exact_inv,
}
use teecam.Protocol.Message.{
  Status, protocol_error, Request, Response, request_struct, validate_request, encode_response,
  max_value_bytes, operation_of,
}
use teecam.Protocol.Header.{RequestHeader, request_header, check_request, request_of}
use teecam.Protocol.Reader.{Read, lift, ◌>>=◌ as then_read}
use teecam.Protocol.Receive.{recv_request, recv_payload, after_request_header}
use teecam.Protocol.Encoding.{IsAllowed-of_encode, encode_response_lem, encode_response_long}
use teecam.Protocol.Canonical.{encode-recv_request}
use teecam.Gateway.Handler.{
  no_request, Event, Gateway, Connection, is_caught, handle, respond, finish, emit, sendall,
  perform, Locals,
}

-- The result is a value, or an exception that `_handle` catches.
abbrev pub IsCaught : {A : Type 0} → Result A → Type 0
IsCaught r = (e : Error) → r ≡ err e → is_caught e ≡ true

then_read-IsCaught :
    {A B : Type 0} (m : Read A) (f : A → Read B) (s : Stream)
    → IsCaught (m s).0
    → ((a : A) (t : Stream) → m s ≡ (ok a, t) → IsCaught (f a t).0)
    → IsCaught ((then_read m f) s).0
then_read-IsCaught {A} {B} m f s hm hf = split (m s).0 (m s).1 refl hm
  where
    split :
        (r : Result A) (t : Stream)
        → m s ≡ (r, t)
        → IsCaught r
        → IsCaught (let p : Result B × Stream = elim r [ ok a ↦ f a t | err e ↦ (err e, t) ] in p).0
    split (ok a) t e h y k = hf a t e y k
    split (err x) t e h y k = h y (cc k)

ending-IsCaught : (s : Stream) → is_caught (ending s) ≡ true
unfolding ending is_caught
ending-IsCaught [] = refl
ending-IsCaught (failure ∷ s) = refl
ending-IsCaught (chunk [] ∷ s) = refl
ending-IsCaught (chunk (b ∷ bs) ∷ s) = ending-IsCaught s

recv_exact-IsCaught : (size : ℕ) (s : Stream) → IsCaught (recv_exact size s).0
recv_exact-IsCaught size s = elim (dec_le size (length (ready s))) [
  | yes h ↦ λ e k.
      let (t, read, _, _) = recv_exact_full size s h in
      absurd (cc (k, ap (λ (p : Result Bytes × Stream). p.0) read))
  | no h ↦ λ e k.
      let stop : ending s ≡ e = cc (recv_exact_short size s (omega arith), k) in
      rw (← stop) (ending-IsCaught s)
]

check_request-IsCaught : (m v o i k l : ℕ) → IsCaught (check_request (m ∷ v ∷ o ∷ i ∷ k ∷ l ∷ []))
unfolding check_request is_caught operation_of
check_request-IsCaught m v o i k l e h = ground arith

fields-IsCaught : (raw : Bytes) → IsCaught (check_request (fields request_struct raw))
unfolding fields
fields-IsCaught raw e k = check_request-IsCaught _ _ _ _ _ _ e k

request_header-IsCaught : (raw : Bytes) → length raw ≡ 24 → IsCaught (request_header raw)
unfolding request_header calcsize
request_header-IsCaught raw h e k =
    fields-IsCaught raw e (rw (unpack-fields request_struct raw h) at k)

request_of-IsCaught : (h : RequestHeader) (payload : Bytes) → IsCaught (request_of h payload)
unfolding request_of validate_request is_caught
request_of-IsCaught h payload e k = ground arith

-- No exception of `recv_request` is a `struct.error`: the handler catches them all.
pub recv_request-IsCaught : (s : Stream) → IsCaught (recv_request s).0
unfolding recv_request after_request_header recv_payload
recv_request-IsCaught s =
    then_read-IsCaught (recv_exact 24) after_request_header s (recv_exact-IsCaught 24 s)
      λ raw t read.
        then_read-IsCaught (lift (request_header raw)) recv_payload t
          (request_header-IsCaught raw (recv_exact_inv 24 s read).0)
          λ h u _.
            then_read-IsCaught (recv_exact (h.key_len + h.value_len))
              (λ payload. lift (request_of h payload)) u
              (recv_exact-IsCaught (h.key_len + h.value_len) u)
              λ payload w _. request_of-IsCaught h payload

-- An answer can be encoded, or the handler catches what `encode` raises.
value_error-IsCaught : is_caught value_error ≡ true
unfolding is_caught
value_error-IsCaught = refl

encode-IsCaught : (r : Response) → r.request_id < 2 ^ 64 → IsCaught (encode_response r)
encode-IsCaught r n e k = elim (dec_le (length r.value) max_value_bytes) [
  | yes h ↦ absurd (cc (sym k ∙ encode_response_lem r h n))
  | no h ↦
      let long : value_error ≡ e = cc (encode_response_long r (omega arith), k) in
      rw (← long) value_error-IsCaught
]

sendall-IsCaught : (c : Connection) (r : Result Bytes) → IsCaught r → IsCaught (r >>= sendall c)
unfolding sendall is_caught
sendall-IsCaught c (ok bs) h e k = ground arith
sendall-IsCaught c (err x) h e k = h e k

-- What `_handle` has done when it returns: something was sent, and one line stands behind the
-- telemetry, which names the run of the gateway.
abbrev pub Answered : Gateway → Result Bytes × Gateway → Type 0
Answered g (r, g') =
    (sent : Bytes) × (event : Event) × (r ≡ ok sent)
    × (g'.telemetry ≡ g.telemetry ++ (event ∷ []))
    × (event.run_id ≡ g.run_id)
    × (event.scenario ≡ g.scenario)
    × (event.is_attack ≡ g.is_attack)

finish-Answered :
    (c : Connection) (l : Locals) (reported : Status) (r : Result Bytes) (g : Gateway)
    → IsCaught r
    → Answered g (finish c l reported r g)
unfolding finish emit
finish-Answered c l reported (ok sent) g h = (sent, _, refl, refl, refl, refl, refl)
finish-Answered c l reported (err e) g h = rw (h e refl) ([], _, refl, refl, refl, refl, refl)

module _ (blake2b : Bytes → Bytes → Text) where
  respond-Answered :
      (c : Connection) (r : Request) (g : Gateway)
      → r.request_id < 2 ^ 64
      → Answered g (respond blake2b c r g)
  unfolding respond
  respond-Answered c r g n =
      let o = perform r.operation r.key r.value g.storage in
      let answer : Response = record {
        request_id = r.request_id;
        status = o.status;
        value = o.response_value;
      } in
      finish-Answered c _ o.status _ (record g { storage = o.storage })
        (sendall-IsCaught c (encode_response answer) (encode-IsCaught answer n))

  -- Whatever bytes a client sends, and whether or not it takes the answer, `_handle` returns: the
  -- serving thread goes on, and the telemetry has exactly one more line, of the gateway's run.
  pub handle-Answered :
      (c : Connection) (g : Gateway) → IsBytes (ready c.arrivals) → Answered g (handle blake2b c g)
  unfolding handle
  handle-Answered c g b =
      cases (recv_request c.arrivals).0 (recv_request c.arrivals).1 refl
        (recv_request-IsCaught c.arrivals)
    where
      cases :
          (r : Result Request) (t : Stream)
          → recv_request c.arrivals ≡ (r, t)
          → IsCaught r
          → Answered g (elim r [
            | ok q ↦ respond blake2b c q g
            | err e ↦ finish c no_request protocol_error (err e) g
          ])
      cases (ok q) t e h =
          let (sent, encoded, _) = encode-recv_request q c.arrivals t b e in
          respond-Answered c q g (IsAllowed-of_encode q encoded).1
      cases (err x) t e h =
          finish-Answered c no_request protocol_error (err x) g (λ y k. h y (cc k))
