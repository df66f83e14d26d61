-- ===== src/Workload/Run.antt =====
-- `run_workload` of cote3mon/workload.py, with the state of the gateway, of the clock and of the random
-- generator passed on.
use teecam.Prelude.{
  ℕ, zero, suc, ◌+◌, ◌-◌, Bool, not, if◌then◌else◌, none, some, Bytes, Text, Result, ok, err,
  value_error, runtime_error, ◌>>=◌, ◌>>◌, raise_if,
}
use teecam.Protocol.Stream.{Stream}
use teecam.Protocol.Message.{Request, encode_request}
use teecam.Protocol.Call.{call}
use teecam.Workload.Requests.{Scenario, bursty, scenario_of, key_of, request_of, malformed_bytes}

-- The gateway as it stands, how often the clock has been read, the round that the generator is in,
-- and `request_id`
pub record Client (Peer : Type 0) : Type 0 where
  pub peer : Peer
  pub looks : ℕ
  pub round_number : ℕ
  pub request_id : ℕ

-- What the workload meets: the gateway, which answers bytes or refuses the connection and may change;
-- whether `time.monotonic() < deadline` at each reading of the clock; and the draws of each round.
pub record World (Peer : Type 0) : Type 0 where
  pub answer : Peer → Bytes → Result Stream × Peer
  pub in_time : ℕ → Bool
  pub randrange : ℕ → ℕ
  pub randbytes : ℕ → ℕ → Bytes

module _ {Peer : Type 0} (world : World Peer) where
  open world use {answer, in_time, randrange, randbytes}

  -- `_request`
  unfoldable pub send : Request → Client Peer → Result (Client Peer)
  unfolding encode_request call
  send request c = do
    sent ← encode_request request
    response ← call (λ bytes. (answer c.peer bytes).0) request
    ok (record c { peer = (answer c.peer sent).1 })

  -- `_malformed`: what the gateway answers, or a timeout, makes no difference
  unfoldable pub send_malformed : ℕ → Client Peer → Result (Client Peer)
  unfolding malformed_bytes
  send_malformed id c = do
    sent ← malformed_bytes id
    stream ← (answer c.peer sent).0
    ok (record c { peer = (answer c.peer sent).1 })

  -- What a round sends: a request, or the malformed header
  unfoldable pub send_drawn : Scenario → Bytes → Client Peer → Result (Client Peer)
  unfolding send send_malformed request_of
  send_drawn scenario key c =
      elim (request_of scenario c.request_id key (randbytes c.round_number)) [
        | none ↦ send_malformed c.request_id c
        | some request ↦ send request c
      ]

  -- The inner loop of "bursty"
  unfoldable pub burst : ℕ → Bytes → Client Peer → Result (Client Peer)
  unfolding send_drawn
  burst zero key c = ok c
  burst (suc n) key c =
      let looked = record c { looks = c.looks + 1 } in
      let rest = send_drawn bursty key looked >>= λ next.
      burst n key
        (record next { request_id = next.request_id + 1; round_number = next.round_number + 1 }) in
      if in_time c.looks then rest else ok looked

  -- One round of the loop, with the key that was drawn for it.
  unfoldable pub one_round : Scenario → Bytes → Client Peer → Result (Client Peer)
  unfolding burst send_drawn
  one_round bursty key c = burst 8 key c
  one_round scenario key c =
      send_drawn scenario key c >>= λ next. ok (record next { request_id = next.request_id + 1 })

  -- The `while` loop, on fuel.
  unfoldable pub rounds : ℕ → Scenario → Client Peer → Result (Client Peer)
  unfolding key_of one_round
  rounds zero scenario c = err runtime_error
  rounds (suc fuel) scenario c =
      let begun = record c { looks = c.looks + 1; round_number = c.round_number + 1 } in
      let rest = one_round scenario (key_of (randrange c.round_number)) begun >>= λ next.
      rounds fuel scenario next in
      if in_time c.looks then rest else ok (record c { looks = c.looks + 1 })

  -- `run_workload`, whose duration is positive or not, and how many requests it counts
  unfoldable pub run_workload : ℕ → Text → Bool → Peer → Result (ℕ × Client Peer)
  unfolding scenario_of rounds
  run_workload fuel name positive peer = do
    scenario ← scenario_of name
    raise_if (not positive) value_error
    c ← rounds fuel scenario (record { peer = peer; looks = 0; round_number = 0; request_id = 1 })
    ok (c.request_id - 1, c)
