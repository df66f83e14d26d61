-- ===== src/Protocol/Stream.antt =====
-- The reading end of a socket, and `recv_exact` of cote3mon/protocol.py. The operating system
-- decides in which pieces the peer's bytes arrive.
use native.Mathlib.Nat.{suc-sub-suc}
use native.Mathlib.Decide.{dec_le}
use mathlib.Core.List.{append-nil, append_assoc}
use teecam.Prelude.{
  ℕ, zero, suc, ◌+◌, ◌-◌, ◌<◌, ◌≤◌, ◌≡◌, refl, sym, ap, ◌∙◌, arith, List, [], ◌∷◌, ◌++◌, Bytes,
  Error, eof_error, os_error, runtime_error, Result, ok, err, length, length-append, take, drop,
  length-take, length-drop, take-append-drop, take_again, drop_again, take-append_of,
  drop-append_of,
}

-- One event at the socket: bytes that arrive, or an `OSError` such as the timeout of
-- `settimeout`. The peer has closed the connection at the end of the list.
pub data Arrival : Type 0 where
  chunk : Bytes → Arrival
  failure : Arrival

abbrev pub Stream : Type 0
Stream = List Arrival

-- What was not read of a piece stays in the socket's buffer.
unfoldable pub put_back : Bytes → Stream → Stream
put_back [] s = s
put_back (b ∷ bs) s = chunk (b ∷ bs) ∷ s

-- `stream.recv(size)`: at most `size` bytes of what has arrived; no bytes at the end.
unfoldable pub recv : ℕ → Stream → Result Bytes × Stream
unfolding put_back
recv size [] = (ok [], [])
recv size (failure ∷ s) = (err os_error, s)
recv size (chunk bs ∷ s) = (ok (take size bs), put_back (drop size bs) s)

-- The loop of `recv_exact`: `remaining` bytes are wanted, `chunks` has been read. Each round reads
-- a byte at least, so as much fuel as bytes are wanted is enough.
recv_loop : ℕ → ℕ → Bytes → Stream → Result Bytes × Stream
unfolding recv
recv_loop fuel zero chunks s = (ok chunks, s)
recv_loop zero (suc r) chunks s = (err runtime_error, s)
recv_loop (suc fuel) (suc r) chunks s =
    let (piece, s') = recv (suc r) s in
    elim piece [
      | err e ↦ (err e, s')
      | ok bs ↦ elim bs [
        | [] ↦ (err eof_error, s')
        | b ∷ rest ↦ recv_loop fuel (suc r - suc (length rest)) (chunks ++ (b ∷ rest)) s'
      ]
    ]

-- `recv_exact(stream, size)`
unfoldable pub recv_exact : ℕ → Stream → Result Bytes × Stream
unfolding recv_loop
recv_exact size s = recv_loop size size [] s

-- What can be read before the stream ends or fails, and the exception that is raised there.
unfoldable pub ready : Stream → Bytes
ready [] = []
ready (failure ∷ s) = []
ready (chunk [] ∷ s) = []
ready (chunk (b ∷ bs) ∷ s) = b ∷ bs ++ ready s

unfoldable pub ending : Stream → Error
ending [] = eof_error
ending (failure ∷ s) = os_error
ending (chunk [] ∷ s) = eof_error
ending (chunk (b ∷ bs) ∷ s) = ending s

ready-put_back : (bs : Bytes) (s : Stream) → ready (put_back bs s) ≡ bs ++ ready s
unfolding ready put_back
ready-put_back [] s = refl
ready-put_back (b ∷ bs) s = refl

ending-put_back : (bs : Bytes) (s : Stream) → ending (put_back bs s) ≡ ending s
unfolding ending put_back
ending-put_back [] s = refl
ending-put_back (b ∷ bs) s = refl

-- What a read of `size` bytes does, in terms of the bytes alone.
abbrev pub Reads : ℕ → Bytes → Stream → Result Bytes × Stream → Type 0
Reads size out s (r, t) =
    (size ≤ length (ready s)
      → (r ≡ ok (out ++ take size (ready s)))
        × (ready t ≡ drop size (ready s))
        × (ending t ≡ ending s))
    × (length (ready s) < size → r ≡ err (ending s))

module _ (r : ℕ) (b : ℕ) (bs : Bytes) (s : Stream) where
  left_over : Bytes
  left_over = drop (suc r - suc (length (take r bs))) (ready (put_back (drop r bs) s))

  bytes_again :
      (out : Bytes)
      → (out ++ (b ∷ take r bs))
          ++ take (suc r - suc (length (take r bs))) (ready (put_back (drop r bs) s))
        ≡ out ++ (b ∷ take r (bs ++ ready s))
  bytes_again out = simp (append_assoc, ready-put_back, suc-sub-suc, take_again)

  left_again : left_over ≡ drop r (bs ++ ready s)
  unfolding left_over
  left_again = simp (ready-put_back, suc-sub-suc, drop_again)

Reads-again :
    (r : ℕ) (out : Bytes) (b : ℕ) (bs : Bytes) (s : Stream) (p : Result Bytes × Stream)
    → Reads (suc r - suc (length (take r bs))) (out ++ (b ∷ take r bs)) (put_back (drop r bs) s) p
    → Reads (suc r) out (chunk (b ∷ bs) ∷ s) p
unfolding ready ending take drop left_over
Reads-again r out b bs s (res, t) (full, short) =
    let left : length (ready (put_back (drop r bs) s)) ≡ length bs - r + length (ready s) = omega (
      arith,
      ap length (ready-put_back (drop r bs) s),
      length-append (drop r bs) (ready s),
      length-drop r bs,
    ) in
    let got = length-take r bs in
    let all = length-append bs (ready s) in
    (
      λ k.
          let (value, rest, stop) = full (omega arith) in
          (
            value ∙ ap ok (bytes_again r b bs s out),
            rest ∙ left_again r b bs s,
            stop ∙ ending-put_back (drop r bs) s,
          ),
      λ k. short (omega arith) ∙ ap err (ending-put_back (drop r bs) s),
    )

recv_loop-Reads :
    (fuel size : ℕ) (out : Bytes) (s : Stream)
    → size ≤ fuel
    → Reads size out s (recv_loop fuel size out s)
unfolding recv_loop ready ending take drop
recv_loop-Reads fuel zero out s h =
    (λ _. (ap ok (sym (append-nil out)), refl, refl), λ k. absurd (omega arith))
recv_loop-Reads zero (suc r) out s h = absurd (omega arith)
recv_loop-Reads (suc fuel) (suc r) out [] h = (λ k. absurd (omega arith), λ _. refl)
recv_loop-Reads (suc fuel) (suc r) out (failure ∷ s) h = (λ k. absurd (omega arith), λ _. refl)
recv_loop-Reads (suc fuel) (suc r) out (chunk [] ∷ s) h = (λ k. absurd (omega arith), λ _. refl)
recv_loop-Reads (suc fuel) (suc r) out (chunk (b ∷ bs) ∷ s) h = Reads-again r out b bs s _ (
    recv_loop-Reads fuel (suc r - suc (length (take r bs))) (out ++ (b ∷ take r bs))
      (put_back (drop r bs) s) (omega arith))

-- `recv_exact` returns the next `size` bytes however they were split into pieces, and leaves the
-- bytes after them; if the stream stops before that, it raises what the stream stops with. It
-- never runs out of fuel.
pub recv_exact-Reads : (size : ℕ) (s : Stream) → Reads size [] s (recv_exact size s)
unfolding recv_exact
recv_exact-Reads size s = recv_loop-Reads size size [] s (omega arith)

-- If enough bytes can be read before the stream stops, `recv_exact` returns the next `size` of them
-- in whatever pieces they arrive, and leaves what comes after them and the way the stream stops.
pub recv_exact_full :
    (size : ℕ) (s : Stream)
    → size ≤ length (ready s)
    → (t : Stream) × (recv_exact size s ≡ (ok (take size (ready s)), t))
      × (ready t ≡ drop size (ready s))
      × (ending t ≡ ending s)
recv_exact_full size s h =
    let (value, rest, stop) = (recv_exact-Reads size s).0 h in
    ((recv_exact size s).1, ap (λ r. (r, (recv_exact size s).1)) value, rest, stop)

-- If fewer than `size` bytes can be read before the stream stops, `recv_exact` raises what the
-- stream stops with: `EOFError` at a close, `OSError` at a failure.
pub recv_exact_short :
    (size : ℕ) (s : Stream) → length (ready s) < size → (recv_exact size s).0 ≡ err (ending s)
recv_exact_short size s = (recv_exact-Reads size s).1

-- Bytes that stand at the front of the stream are read whole.
pub recv_exact-append :
    (size : ℕ) (s : Stream) (bs rest : Bytes)
    → length bs ≡ size
    → ready s ≡ bs ++ rest
    → (t : Stream) × (recv_exact size s ≡ (ok bs, t)) × (ready t ≡ rest) × (ending t ≡ ending s)
recv_exact-append size s bs rest n e =
    let enough : size ≤ length (ready s) = omega (arith, ap length e, length-append bs rest) in
    let (t, read, left, stop) = recv_exact_full size s enough in
    (
      t,
      read ∙ ap (λ (b : Bytes). (ok b, t)) (ap (take size) e ∙ take-append_of size bs rest n),
      left ∙ ap (drop size) e ∙ drop-append_of size bs rest n,
      stop,
    )

-- What a read that succeeded has read.
pub recv_exact_inv :
    (size : ℕ) (s : Stream) {bs : Bytes} {t : Stream}
    → recv_exact size s ≡ (ok bs, t)
    → (length bs ≡ size) × (ready s ≡ bs ++ ready t) × (ending t ≡ ending s)
recv_exact_inv size s {bs} {t} e = elim (dec_le size (length (ready s))) [
  | yes h ↦
      let (t', read, left, stop) = recv_exact_full size s h in
      let front : bs ≡ take size (ready s) = cc (sym e ∙ read) in
      let back : t ≡ t' = ap (λ (p : Result Bytes × Stream). p.1) (sym e ∙ read) in
      (
        ap length front ∙ omega (arith, length-take size (ready s)),
        rw (front, back, left) (sym (take-append-drop size (ready s))),
        ap ending back ∙ stop,
      )
  | no h ↦
      let short = recv_exact_short size s (omega arith) in
      absurd (cc (short, ap (λ (p : Result Bytes × Stream). p.0) e))
]

-- Bytes that arrive in one piece.
pub ready-chunk : (bs : Bytes) → ready (chunk bs ∷ []) ≡ bs ++ []
unfolding ready
ready-chunk [] = refl
ready-chunk (b ∷ bs) = refl
