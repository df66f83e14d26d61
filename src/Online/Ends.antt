-- ===== src/Online/Ends.antt =====
-- The online monitor comes to its end.
use teecam.Prelude.{
  ℕ, zero, suc, ◌+◌, ◌≤◌, ◌≡◌, refl, ap, ◌∙◌, inl, inr, arith, leb→le, Bool, true, false, ◌&&◌, leb,
  Bool-cases, All, Result, ok,
}
use teecam.Online.State.{Online, new_online}
use teecam.Online.Scoring.{Setting, ready_of, score_ready}
use teecam.Online.Loop.{Turn, turn, quiet_after, after_turn, watch, monitor}
use teecam.Online.Lines.{IsFine, IsQuiet, IsReady}
use teecam.Online.Held.{scored, held}
use teecam.Online.Whole.{monitor-scored}
use teecam.Online.Turns.{IsWorking, score_windows-returns, turn-returns}

quiet_after-done :
    {done : Bool} {added : ℕ} (quiet : ℕ)
    → done ≡ true
    → added ≡ 0
    → quiet_after done added quiet ≡ quiet + 1
unfolding quiet_after
quiet_after-done quiet d a = rw (d, a) refl

after_turn-stops :
    {State : Type 0} {done : Bool} {count k : ℕ} (state : State) (rest : Result State)
    → done ≡ true
    → count ≡ k
    → leb 3 k ≡ true
    → after_turn done count state rest ≡ ok state
unfolding after_turn
after_turn-stops state rest d c y = rw (d, c, y) refl

after_turn-goes_on :
    {State : Type 0} {done : Bool} {count k : ℕ} (state : State) (rest : Result State)
    → done ≡ true
    → count ≡ k
    → leb 3 k ≡ false
    → after_turn done count state rest ≡ rest
unfolding after_turn
after_turn-goes_on state rest d c y = rw (d, c, y) refl

module _ {Number Store : Type 0} (setting : Setting Number Store) where
  module _ (working : IsWorking setting) where
    watch-step :
        (world : ℕ → Turn Number) (fuel n quiet : ℕ) (o : Online Number Store)
        {next : Online Number Store × ℕ}
        → turn setting (world n) o ≡ ok next
        → let count = quiet_after (world n).done next.1 quiet in
          watch setting world (suc fuel) n quiet o
          ≡ after_turn (world n).done count next.0 (watch setting world fuel (suc n) count next.0)
    unfolding watch
    watch-step world fuel n quiet o e = rw (watch, e) refl

    module _ (world : ℕ → Turn Number) (last : ℕ)
        (fine : (n : ℕ)
          → All (IsFine setting.floats) (world n).requests
            × All (IsFine setting.floats) (world n).resources)
        (over : (n : ℕ)
          → last ≤ n
          → ((world n).done ≡ true)
            × All IsQuiet (world n).requests
            × All IsQuiet (world n).resources) where
      -- From the turn on at which nothing comes any more, three turns at most are left.
      watch-ends :
          (fuel n quiet : ℕ) (o : Online Number Store)
          → IsReady setting.floats o
          → last ≤ n
          → 1 ≤ fuel
          → 3 ≤ fuel + quiet
          → (out : Online Number Store) × (watch setting world fuel n quiet o ≡ ok out)
            × IsReady setting.floats out
      unfolding after_turn
      watch-ends zero n quiet o h late some_fuel enough = absurd (omega (arith, some_fuel))
      watch-ends (suc fuel) n quiet o h late some_fuel enough =
          let (asked, sampled) = fine n in
          let (done, no_request, no_resource) = over n late in
          let (next, e, times, nothing) =
            turn-returns setting working (world n) o h asked sampled in
          let count = quiet_after-done quiet done (nothing no_request no_resource) in
          elim (Bool-cases (leb 3 (quiet + 1))) [
            | inl y ↦ (
              next.0,
              watch-step world fuel n quiet o e ∙ after_turn-stops _ _ done count y,
              times,
            )
            | inr y ↦
                let (out, f, rest) =
                  watch-ends fuel (suc n) (quiet + 1) next.0 times (omega (arith, late))
                    (ground arith) (omega (arith, enough)) in
                (
                  out,
                  watch-step world fuel n quiet o e
                      ∙ after_turn-goes_on _ _ done count y
                      ∙ ap (λ (c : ℕ). watch setting world fuel (suc n) c next.0) count
                      ∙ f,
                  rest,
                )
          ]

      watch-returns :
          (fuel n quiet : ℕ) (o : Online Number Store)
          → IsReady setting.floats o
          → last + 3 ≤ fuel + n
          → 3 ≤ fuel
          → (out : Online Number Store) × (watch setting world fuel n quiet o ≡ ok out)
            × IsReady setting.floats out
      unfolding after_turn
      watch-returns zero n quiet o h enough some_fuel = absurd (omega (arith, some_fuel))
      watch-returns (suc fuel) n quiet o h enough some_fuel = elim (Bool-cases (leb last n)) [
        | inl late ↦
            watch-ends (suc fuel) n quiet o h (leb→le last n late) (omega arith)
              (omega (arith, some_fuel))
        | inr early ↦
            let more : 3 ≤ fuel = ground (arith, early, enough) in
            let (asked, sampled) = fine n in
            let (next, e, times, _) = turn-returns setting working (world n) o h asked sampled in
            let count = quiet_after (world n).done next.1 quiet in
            let (out, f, rest) =
              watch-returns fuel (suc n) count next.0 times (omega (arith, enough)) more in
            elim (Bool-cases ((world n).done && leb 3 count)) [
              | inl y ↦ (next.0, watch-step world fuel n quiet o e ∙ rw (after_turn, y) refl, times)
              | inr y ↦ (out, watch-step world fuel n quiet o e ∙ rw (after_turn, y) f, rest)
            ]
      ]

pub monitor-ends :
    {Number Store : Type 0} (setting : Setting Number Store)
    → IsWorking setting
    → (world : ℕ → Turn Number) (last : ℕ)
    → ((n : ℕ)
        → All (IsFine setting.floats) (world n).requests
          × All (IsFine setting.floats) (world n).resources)
    → ((n : ℕ)
        → last ≤ n
        → ((world n).done ≡ true)
          × All IsQuiet (world n).requests
          × All IsQuiet (world n).resources)
    → (last_now : ℕ) (store : Store)
    → (out : Online Number Store) × (monitor setting world (last + 3) last_now store ≡ ok out)
      × ((s : ℕ) → scored s out ≡ held s out)
unfolding monitor new_online score_ready
monitor-ends setting working world last fine over last_now store =
    let (o, e, times) =
      watch-returns setting working world last fine over (last + 3) 0 0 (new_online store) tt
        (omega arith) (omega arith) in
    let (out, f, _) =
      score_windows-returns setting working (ready_of setting true last_now o) o times in
    let ends : monitor setting world (last + 3) last_now store ≡ ok out =
      rw (monitor, e, score_ready) f in
    (out, ends, λ s. ((monitor-scored setting world (last + 3) last_now store ends).0 s).0)
