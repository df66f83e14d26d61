-- ===== src/Workload/Sent.antt =====
-- What the gateway makes of what the workloads send.
use mathlib.Core.List.{append-nil}
use teecam.Prelude.{
  ℕ, ◌^◌, ◌≤◌, ◌<◌, ◌≡◌, ◌≢◌, refl, sym, ap, ◌∙◌, inr, arith, some, [], ◌∷◌, ◌++◌, length,
  replicate, length-replicate, Bytes, Text, codes, Result, ok, some-injective,
}
use teecam.Protocol.Wire.{Fits, pack-Fits, packed}
use teecam.Protocol.Stream.{Stream, ready}
use teecam.Protocol.Message.{
  Operation, put, get, delete, operation_code, Request, encode_request, request_struct,
}
use teecam.Protocol.Encoding.{IsAllowed, encode-IsAllowed, request_bytes}
use teecam.Protocol.Receive.{recv_request}
use teecam.Protocol.RoundTrip.{recv_request-encode}
use teecam.Protocol.Rejection.{declared, recv_request-outside}
use teecam.Gateway.Handler.{Gateway, Connection, handle}
use teecam.Gateway.Serve.{rejected, handle-rejected}
use teecam.Workload.Requests.{
  Scenario, steady, bursty, large_value, flood, malformed, error_storm, replay, key_of,
  operation_at, steady_value, request_of, malformed_bytes,
}

length-key_of : (n : ℕ) → length (key_of n) ≡ 6
unfolding key_of
length-key_of n = refl

steady_value-sized :
    (o : Operation) (randbytes : ℕ → Bytes)
    → ((size : ℕ) → length (randbytes size) ≡ size)
    → (length (steady_value o randbytes) ≤ 64) × (o ≢ put → steady_value o randbytes ≡ [])
unfolding steady_value
steady_value-sized put randbytes sized = (omega (arith, sized 64), λ h. absurd (h refl))
steady_value-sized get randbytes sized = (omega arith, λ h. refl)
steady_value-sized delete randbytes sized = (omega arith, λ h. refl)

module _ (id n : ℕ) (randbytes : ℕ → Bytes)
    (sized : (size : ℕ) → length (randbytes size) ≡ size) where
  -- A request with a value is a PUT with a drawn key, or one of the constant keys.
  put-IsAllowed : (value : Bytes) → length value ≤ 4096 → IsAllowed put (key_of n) value
  put-IsAllowed value small = record {
    key_pos = omega (arith, length-key_of n);
    key_le = omega (arith, length-key_of n);
    value_le = small;
    value_of_put = λ h. absurd (h refl);
  }

  request_of-IsAllowed :
      (scenario : Scenario) {r : Request}
      → request_of scenario id (key_of n) randbytes ≡ some r
      → IsAllowed r.operation r.key r.value × (r.request_id ≡ id)
  unfolding request_of
  request_of-IsAllowed steady e =
      let same = some-injective e in
      let (small, none_else) = steady_value-sized (operation_at id) randbytes sized in
      rw (← same) (
        record {
          key_pos = omega (arith, length-key_of n);
          key_le = omega (arith, length-key_of n);
          value_le = omega (arith, small);
          value_of_put = none_else;
        },
        refl,
      )
  request_of-IsAllowed bursty e =
      rw (← some-injective e) (put-IsAllowed (randbytes 96) (omega (arith, sized 96)), refl)
  request_of-IsAllowed large_value e =
      rw (← some-injective e) (put-IsAllowed (randbytes 3072) (omega (arith, sized 3072)), refl)
  request_of-IsAllowed flood e =
      rw (← some-injective e)
        (put-IsAllowed (replicate 32 b'F') (omega (arith, length-replicate {A = ℕ} 32 b'F')), refl)
  request_of-IsAllowed malformed e = absurd (cc e)
  request_of-IsAllowed error_storm e = rw (← some-injective e) (
    record {
      key_pos = omega arith;
      key_le = omega arith;
      value_le = omega arith;
      value_of_put = λ h. refl;
    },
    refl,
  )
  request_of-IsAllowed replay e = rw (← some-injective e) (
    record {
      key_pos = omega arith;
      key_le = omega arith;
      value_le = omega (arith, length-replicate {A = ℕ} 128 b'R');
      value_of_put = λ h. absurd (h refl);
    },
    refl,
  )

  -- Whatever request a workload sends, in any scenario, the protocol encodes it, and `recv_request` reads
  -- back just that request from the bytes, in whatever pieces they arrive: the generator gives as many
  -- bytes as it is asked for, and the identifier fits 64 bits.
  pub request_of-received :
      (scenario : Scenario) {r : Request}
      → id < 2 ^ 64
      → request_of scenario id (key_of n) randbytes ≡ some r
      → (sent : Bytes) × (encode_request r ≡ ok sent)
        × ((s : Stream) → ready s ≡ sent → (recv_request s).0 ≡ ok r)
  request_of-received scenario {r} fits e =
      let (allows, same) = request_of-IsAllowed scenario e in
      let encoded = encode-IsAllowed r allows (omega (arith, fits, same)) in
      (
        request_bytes r,
        encoded,
        λ s arrives.
            let (t, got, _, _) =
              recv_request-encode r s [] encoded (arrives ∙ sym (append-nil (request_bytes r))) in
            ap (λ (u : Result Request × Stream). u.0) got,
      )

-- The malformed header is written for any identifier of 64 bits. The gateway that reads it, in whatever
-- pieces it arrives, answers nothing, leaves its storage as it is and records a rejected request.
pub malformed_bytes-rejected :
    (blake2b : Bytes → Bytes → Text) (id : ℕ) (c : Connection) (g : Gateway)
    → id < 2 ^ 64
    → (sent : Bytes) × (malformed_bytes id ≡ ok sent)
      × (ready c.arrivals ≡ sent
          → handle blake2b c g
            ≡ (ok [], record g { telemetry = g.telemetry ++ (rejected blake2b c g ∷ []) }))
unfolding malformed_bytes operation_code
malformed_bytes-rejected blake2b id c g n =
    let fits : Fits request_struct (declared put id 1 4097) = omega (arith, n) in
    (
      packed request_struct (declared put id 1 4097) ++ codes "k",
      rw (malformed_bytes, pack-Fits request_struct (declared put id 1 4097) fits) refl,
      λ arrives.
          let (t, refused, _) =
            recv_request-outside put id 1 4097 c.arrivals (codes "k") fits (inr (inr (omega arith)))
              arrives in
          handle-rejected blake2b c g (ap (λ (u : Result Request × Stream). u.0) refused),
    )
