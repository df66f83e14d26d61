-- ===== src/Protocol/Pieces.antt =====
-- How the bytes of a connection are split into pieces makes no difference to what is received.
use teecam.Prelude.{
  ℕ, ◌+◌, ◌<◌, ◌≡◌, refl, sym, ap, ◌∙◌, arith, length, Error, Result, ok, err, take, drop,
}
use native.Mathlib.Decide.{dec_le}
use teecam.Protocol.Stream.{Stream, ready, ending, recv_exact, recv_exact_full, recv_exact_short}
use teecam.Protocol.Header.{request_header, request_of}
use teecam.Protocol.Reader.{Read, lift, ◌>>=◌}
use teecam.Protocol.Receive.{recv_request, recv_payload, after_request_header}

-- The same bytes, and the same end behind them.
abbrev pub SameInput : Stream → Stream → Type 0
SameInput s t = (ready s ≡ ready t) × (ending s ≡ ending t)

-- What two runs agree in: the exception, or the value and the input that is left.
abbrev pub SameOutput : {A : Type 0} → Result A × Stream → Result A × Stream → Type 0
SameOutput (ok a, s) (ok b, t) = (a ≡ b) × SameInput s t
SameOutput (ok a, s) (err y, t) = ⊥
SameOutput (err x, s) (ok b, t) = ⊥
SameOutput (err x, s) (err y, t) = x ≡ y

abbrev IsUniform : {A : Type 0} → Read A → Type 0
IsUniform m = (s t : Stream) → SameInput s t → SameOutput (m s) (m t)

lift-IsUniform : {A : Type 0} (r : Result A) → IsUniform (lift r)
lift-IsUniform (ok a) s t h = (refl, h)
lift-IsUniform (err x) s t h = refl

-- what follows the first part of a bind
abbrev continue : {A B : Type 0} → (A → Read B) → Result A × Stream → Result B × Stream
continue f p = elim p.0 [ ok a ↦ f a p.1 | err x ↦ (err x, p.1) ]

continue-SameOutput :
    {A B : Type 0} (f : A → Read B) (p q : Result A × Stream)
    → ((a : A) → IsUniform (f a))
    → SameOutput p q
    → SameOutput (continue f p) (continue f q)
continue-SameOutput f (ok a, s) (ok b, t) uf (same, h) = rw same (uf b s t h)
continue-SameOutput f (ok a, s) (err y, t) uf h = absurd h
continue-SameOutput f (err x, s) (ok b, t) uf h = absurd h
continue-SameOutput f (err x, s) (err y, t) uf h = h

bind-IsUniform :
    {A B : Type 0} (m : Read A) (f : A → Read B)
    → IsUniform m
    → ((a : A) → IsUniform (f a))
    → IsUniform (m >>= f)
bind-IsUniform m f um uf s t h = continue-SameOutput f (m s) (m t) uf (um s t h)

both_err :
    {A : Type 0} {x y : Error} (p q : Result A × Stream)
    → p.0 ≡ err x
    → q.0 ≡ err y
    → x ≡ y
    → SameOutput p q
both_err (ok a, s) q e e' h = absurd (cc e)
both_err (err x, s) (ok b, t) e e' h = absurd (cc e')
both_err (err x, s) (err y, t) e e' h = cc

recv_exact-IsUniform : (size : ℕ) → IsUniform (recv_exact size)
recv_exact-IsUniform size s t (bytes, stop) = elim (dec_le size (length (ready s))) [
  | yes h ↦
      let (s', read, left, end) = recv_exact_full size s h in
      let (t', read', left', end') = recv_exact_full size t (rw (← bytes) h) in
      rw (read, read')
        (ap (take size) bytes, (left ∙ ap (drop size) bytes ∙ sym left', end ∙ stop ∙ sym end'))
  | no h ↦
      let short : length (ready t) < size = rw (← bytes) (omega arith) in
      both_err (recv_exact size s) (recv_exact size t) (recv_exact_short size s (omega arith))
        (recv_exact_short size t short) stop
]

-- Two connections that deliver the same bytes and end in the same way, in whatever pieces the
-- bytes arrive, give `recv_request` the same request and leave the same bytes, or the same
-- exception.
pub recv_request-IsUniform :
    (s t : Stream) → SameInput s t → SameOutput (recv_request s) (recv_request t)
unfolding recv_request recv_payload after_request_header
recv_request-IsUniform =
    bind-IsUniform (recv_exact 24) after_request_header (recv_exact-IsUniform 24) λ raw.
      bind-IsUniform (lift (request_header raw)) recv_payload (lift-IsUniform (request_header raw))
        λ h.
          bind-IsUniform (recv_exact (h.key_len + h.value_len))
            (λ payload. lift (request_of h payload))
            (recv_exact-IsUniform (h.key_len + h.value_len))
            λ payload. lift-IsUniform (request_of h payload)
