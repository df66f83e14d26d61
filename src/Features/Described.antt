-- ===== src/Features/Described.antt =====
-- The rows that `aggregate_events` of cote3mon/features.py should return, said without its tables: by
-- the times of the requests alone.
use native.Mathlib.Nat.{mod-lt, add-mod, mod-eq_of_lt, zero-mod, div-add-mod, mul-add-mod_self_left}
use teecam.Prelude.{
  ℕ, ◌+◌, ◌-◌, ◌*◌, ◌/◌, ◌%◌, ◌≤◌, ◌<◌, ◌≡◌, refl, ap, ◌∙◌, inl, inr, arith, Bool, true, false, not,
  ◌&&◌, ◌||◌, ◌==◌, leb, ltb, if◌then◌else◌, min, Bool-cases, Option, Option-cases, none, some,
  List, [], ◌∷◌, filter, any, Text, text_eq, text_eq_iff, Dict, lookup, insert, lookup-insert, ok,
  err, Result-cases,
}
use teecam.Features.Events.{Event, is_request, run_of, timestamp, get_value}
use teecam.Features.Buckets.{in_warmup, start_of, first_requests}
use teecam.Features.Windows.{belongs}

-- `start` is the start of the window of `t`: a multiple of the window, at most one window before `t`.
abbrev pub is_inside : ℕ → ℕ → ℕ → Bool
is_inside window_ns start t = start % window_ns == 0 && (leb start t && ltb t (start + window_ns))

module _ {Number : Type 0} where
  abbrev pub requests_run : Text → Event Number → Bool
  requests_run run event = is_request event && text_eq (run_of event) run

  -- A request of the run by which its warm-up is over at `t`.
  abbrev pub is_warm : ℕ → Text → ℕ → Event Number → Bool
  is_warm warmup_ns run t event = elim (timestamp event) [
    | err x ↦ false
    | ok begin ↦ requests_run run event && leb (begin + warmup_ns) t
  ]

  -- A request of the run in the window that comes the warm-up or more after some request of the run.
  abbrev pub counts_for : List (Event Number) → ℕ → ℕ → Text → ℕ → Event Number → Bool
  counts_for events window_ns warmup_ns run start event = elim (timestamp event) [
    | err x ↦ false
    | ok t ↦
        requests_run run event
        && (is_inside window_ns start t && any (is_warm warmup_ns run t) events)
  ]

start_of-is_inside : (w start t : ℕ) → 1 ≤ w → (start_of w t == start) ≡ is_inside w start t
unfolding start_of
start_of-is_inside w start t h =
    let small = mod-lt t {m = w} h in
    let whole : t - t % w ≡ w * (t / w) + 0 = omega (arith, div-add-mod t w) in
    let even : (t - t % w) % w ≡ 0 =
      ap (λ (n : ℕ). n % w) whole ∙ mul-add-mod_self_left w (t / w) 0 ∙ zero-mod w in
    elim (Bool-cases (is_inside w start t)) [
      | inl y ↦
          let short : t - start < w = ground arith in
          let parts : t ≡ start + (t - start) = ground arith in
          let zero_left : start % w ≡ 0 = ground arith in
          let inner : start % w + (t - start) % w ≡ t - start =
            omega (arith, zero_left, mod-eq_of_lt short) in
          let left : t % w ≡ t - start =
            ap (λ (n : ℕ). n % w) parts
            ∙ add-mod start (t - start) w
            ∙ ap (λ (n : ℕ). n % w) inner
            ∙ mod-eq_of_lt short in
          ground (arith, y, left, parts)
      | inr n ↦ elim (Bool-cases (t - t % w == start)) [
        | inr other ↦ rw (other, n) refl
        | inl same ↦
            let is : t - t % w ≡ start = ground (arith, same) in
            let low : start % w ≡ 0 = rw is at even in absurd (ground (arith, n, low, is, small))
      ]
    ]

abbrev is_noted : Option ℕ → Bool
is_noted none = false
is_noted (some begin) = true

module _ (warmup_ns t : ℕ) where
  -- Whether the warm-up is over at `t` after the first request that is noted.
  abbrev over : Option ℕ → Bool
  over none = false
  over (some begin) = leb (begin + warmup_ns) t

  over-min :
      (noted : Option ℕ) (u : ℕ)
      → over (some (min (get_value u noted) u)) ≡ (over noted || leb (u + warmup_ns) t)
  over-min none u = ground arith
  over-min (some begin) u = ground arith

module _ {Number : Type 0} (warmup_ns : ℕ) (run : Text) (t : ℕ) where
  -- The table of first requests knows a run if it has a request, and from when it is warm.
  first_requests-over :
      (events : List (Event Number)) (d : Dict ℕ) {first : Dict ℕ}
      → first_requests events d ≡ ok first
      → (over warmup_ns t (lookup run first)
          ≡ (over warmup_ns t (lookup run d) || any (is_warm warmup_ns run t) events))
        × (is_noted (lookup run first) ≡ (is_noted (lookup run d) || any (requests_run run) events))
  unfolding first_requests any
  first_requests-over [] d {first} e =
      let same : d ≡ first = cc e in rw (← same) (ground arith, ground arith)
  first_requests-over (event ∷ events) d {first} e = elim (Bool-cases (is_request event)) [
    | inr n ↦
        let rest = first_requests-over events d (rw (first_requests, n) at e) in
        elim (Result-cases (timestamp event)) [
          | inr (raised, x) ↦ rw (any, is_warm, x, n) rest
          | inl (u, x) ↦ rw (any, is_warm, x, n) rest
        ]
    | inl y ↦ elim (Result-cases (timestamp event)) [
      | inr (raised, x) ↦ absurd (let w = rw (first_requests, y, x) at e in cc w)
      | inl (u, x) ↦
          let key = run_of event in
          let now = min (get_value u (lookup key d)) u in
          let (warm, noted) =
            first_requests-over events (insert key now d) (rw (first_requests, y, x) at e) in
          let put = lookup-insert key run now d in
          elim (Bool-cases (text_eq key run)) [
            | inr k ↦
                let other : lookup run (insert key now d) ≡ lookup run d = rw k at put in
                (rw (any, is_warm, x, y, k) (rw other at warm), rw (any, y, k) (rw other at noted))
            | inl k ↦
                let is : key ≡ run = (text_eq_iff key run).0 k in
                let here : lookup run (insert key now d)
                    ≡ some (min (get_value u (lookup run d)) u) =
                  put
                  ∙ ap (λ (b : Bool). if b then some now else lookup run d) k
                  ∙ ap (λ (r : Text). some (min (get_value u (lookup r d)) u)) is in
                let known = rw here at warm in
                let warm_here : is_warm warmup_ns run t event ≡ leb (u + warmup_ns) t =
                  rw (is_warm, x, y, k) refl in
                (
                  ground (arith, known, over-min warmup_ns t (lookup run d) u, warm_here),
                  rw (any, y, k) (ground (arith, rw here at noted)),
                )
          ]
    ]
  ]

  -- Past the warm-up by the table is past the warm-up of some request.
  in_warmup-any :
      (events : List (Event Number)) {first : Dict ℕ}
      → first_requests events [] ≡ ok first
      → any (requests_run run) events ≡ true
      → not (in_warmup first warmup_ns run t) ≡ any (is_warm warmup_ns run t) events
  unfolding in_warmup
  in_warmup-any events {first} e some_request =
      let (warm, noted) = first_requests-over events [] e in
      elim (Option-cases (lookup run first)) [
        | inl x ↦ absurd (let w = rw (x, some_request) at noted in cc w)
        | inr (begin, x) ↦ let known = rw x at warm in rw (in_warmup, x) (ground (arith, known))
      ]

module _ {Number : Type 0} where
  any-filter :
      (p q r : Event Number → Bool) (events : List (Event Number))
      → ((event : Event Number) → p event ≡ true → (q event && p event) ≡ r event)
      → ((event : Event Number) → p event ≡ false → r event ≡ false)
      → any p (filter q events) ≡ any r events
  unfolding any filter
  any-filter p q r [] h k = refl
  any-filter p q r (event ∷ events) h k = elim (Bool-cases (p event)) [
    | inl y ↦ ground (arith, h event y, any-filter p q r events h k)
    | inr n ↦ ground (arith, k event n, any-filter p q r events h k)
  ]

  any-filter_none :
      (run : Text) (q r : Event Number → Bool) (events : List (Event Number))
      → any (requests_run run) events ≡ false
      → ((event : Event Number)
          → requests_run run event ≡ false
          → ((q event && is_request event) ≡ false) × (r event ≡ false))
      → any is_request (filter q events) ≡ any r events
  unfolding any filter
  any-filter_none run q r [] n h = refl
  any-filter_none run q r (event ∷ events) n h =
      let here : requests_run run event ≡ false = ground arith in
      let others : any (requests_run run) events ≡ false = ground arith in
      let (left, right) = h event here in
      ground (arith, left, right, any-filter_none run q r events others h)

  -- What is left in a bucket has a request exactly if there is one that counts for its row.
  pub any_request-belongs :
      (events : List (Event Number)) (window_ns warmup_ns : ℕ) {first : Dict ℕ}
      → 1 ≤ window_ns
      → first_requests events [] ≡ ok first
      → (run : Text) (start : ℕ)
      → any is_request (filter (belongs first window_ns warmup_ns run start) events)
        ≡ any (counts_for events window_ns warmup_ns run start) events
  unfolding filter any
  any_request-belongs events w warmup {first} h e run start =
      elim (Bool-cases (any (requests_run run) events)) [
        | inl y ↦
            any-filter is_request (belongs first w warmup run start)
              (counts_for events w warmup run start) events
              (λ event asks. elim (Result-cases (timestamp event)) [
                | inr (raised, x) ↦ rw (belongs, counts_for, x) refl
                | inl (t, x) ↦ elim (Bool-cases (text_eq (run_of event) run)) [
                  | inr k ↦ rw (belongs, counts_for, x, k, asks) (ground arith)
                  | inl k ↦
                      let is = (text_eq_iff (run_of event) run).0 k in
                      let warm = in_warmup-any warmup run t events e y in
                      let table : in_warmup first warmup (run_of event) t
                          ≡ in_warmup first warmup run t =
                        ap (λ (r : Text). in_warmup first warmup r t) is in
                      rw (belongs, counts_for, x, k, asks)
                        (ground (arith, table, warm, start_of-is_inside w start t h))
                ]
              ])
              (λ event asks_not. elim (Result-cases (timestamp event)) [
                | inr (raised, x) ↦ rw (counts_for, x) refl
                | inl (t, x) ↦ rw (counts_for, x, asks_not) refl
              ])
        | inr n ↦
            any-filter_none run (belongs first w warmup run start)
              (counts_for events w warmup run start) events n
              (λ event no_request. elim (Result-cases (timestamp event)) [
                | inr (raised, x) ↦ rw (belongs, counts_for, x) (refl, refl)
                | inl (t, x) ↦ rw (belongs, counts_for, x) (ground arith, ground arith)
              ])
      ]
