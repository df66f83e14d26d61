-- ===== src/Features/Windows.antt =====
-- The buckets of `aggregate_events` hold each event in its window, in order.
use mathlib.Core.List.{append_assoc, append-nil}
use teecam.Prelude.{
  ℕ, ◌≤◌, ◌≡◌, refl, sym, inl, inr, arith, Bool, false, not, ◌&&◌, ◌==◌, max, if◌then◌else◌,
  Bool-cases, List, [], ◌∷◌, ◌++◌, length, filter, count_if, length-append, Text, text_eq,
  text_eq_iff, Dict, ok, err, Result-cases,
}
use teecam.Features.Events.{Event, run_of, timestamp}
use teecam.Features.Buckets.{Bucket, has_key, add_event, in_warmup, start_of, fill_buckets}

abbrev key_eq : Text → ℕ → Text → ℕ → Bool
key_eq run start run' start' = text_eq run run' && start == start'

module _ {Number : Type 0} where
  -- Whether an event is past the warm-up and of that run and window.
  abbrev pub belongs : Dict ℕ → ℕ → ℕ → Text → ℕ → Event Number → Bool
  belongs first window_ns warmup_ns run start event = elim (timestamp event) [
    | err x ↦ false
    | ok t ↦
        not (in_warmup first warmup_ns (run_of event) t)
        && (text_eq (run_of event) run && start_of window_ns t == start)
  ]

  -- `buckets[(run, start)]`
  abbrev pub events_at : Text → ℕ → List (Bucket Number) → List (Event Number)
  events_at run start [] = []
  events_at run start (b ∷ bs) = if has_key run start b then b.events else events_at run start bs

  events_at-add_event :
      (r : Text) (s : ℕ) (run : Text) (start : ℕ) (e : Event Number) (bs : List (Bucket Number))
      → events_at r s (add_event run start e bs)
        ≡ (if key_eq run start r s then events_at r s bs ++ (e ∷ []) else events_at r s bs)
  unfolding add_event has_key
  events_at-add_event r s run start e [] = refl
  events_at-add_event r s run start e (b ∷ bs) = ground (
    arith,
    events_at-add_event r s run start e bs,
    text_eq_iff b.run_id run,
    text_eq_iff run r,
    text_eq_iff b.run_id r,
  )

  count_if-add_event :
      (r : Text) (s : ℕ) (run : Text) (start : ℕ) (e : Event Number) (bs : List (Bucket Number))
      → count_if (has_key r s) (add_event run start e bs) ≡ (
          if key_eq run start r s
          then max 1 (count_if (has_key r s) bs)
          else count_if (has_key r s) bs)
  unfolding add_event has_key count_if
  count_if-add_event r s run start e [] = ground arith
  count_if-add_event r s run start e (b ∷ bs) = ground (
    arith,
    count_if-add_event r s run start e bs,
    text_eq_iff b.run_id run,
    text_eq_iff run r,
    text_eq_iff b.run_id r,
  )

  -- No key stands twice, and no bucket is empty.
  abbrev pub Keyed : List (Bucket Number) → Type 0
  Keyed [] = Unit
  Keyed (b ∷ bs) = (count_if (has_key b.run_id b.start) bs ≡ 0) × (1 ≤ length b.events) × Keyed bs

  add_event-Keyed :
      (run : Text) (start : ℕ) (e : Event Number) (bs : List (Bucket Number))
      → Keyed bs
      → Keyed (add_event run start e bs)
  unfolding add_event has_key count_if
  add_event-Keyed run start e [] h = (refl, omega arith, tt)
  add_event-Keyed run start e (b ∷ bs) h = elim (Bool-cases (has_key run start b)) [
    | inl y ↦ rw (add_event, y) (h.0, omega (arith, length-append b.events (e ∷ [])), h.2)
    | inr n ↦
        rw (add_event, n)
          (
            ground (
              arith,
              h.0,
              count_if-add_event b.run_id b.start run start e bs,
              text_eq_iff run b.run_id,
              text_eq_iff b.run_id run,
            ),
            h.1,
            add_event-Keyed run start e bs h.2,
          )
  ]

  module _ (first : Dict ℕ) (window_ns warmup_ns : ℕ) where
    -- What the second loop leaves in a bucket: what was there, and the events that belong there, in
    -- the order in which they came.
    pub events_at-fill_buckets :
        (r : Text) (s : ℕ) (events : List (Event Number)) (bs : List (Bucket Number))
        {out : List (Bucket Number)}
        → fill_buckets first window_ns warmup_ns events bs ≡ ok out
        → events_at r s out
          ≡ events_at r s bs ++ filter (belongs first window_ns warmup_ns r s) events
    unfolding fill_buckets filter
    events_at-fill_buckets r s [] bs {out} e =
        let same : bs ≡ out = cc e in rw (← same) (sym (append-nil (events_at r s bs)))
    events_at-fill_buckets r s (event ∷ events) bs {out} e =
        let run = run_of event in
        elim (Result-cases (timestamp event)) [
          | inr (raised, x) ↦ absurd (let w = rw (fill_buckets, x) at e in cc w)
          | inl (t, x) ↦ elim (Bool-cases (in_warmup first warmup_ns run t)) [
            | inl y ↦
                rw (filter, belongs, x, y)
                  (events_at-fill_buckets r s events bs (rw (fill_buckets, x, y) at e))
            | inr y ↦
                let start = start_of window_ns t in
                let rest =
                  events_at-fill_buckets r s events (add_event run start event bs)
                    (rw (fill_buckets, x, y) at e) in
                let added = events_at-add_event r s run start event bs in
                elim (Bool-cases (key_eq run start r s)) [
                  | inl k ↦
                      rw (filter, belongs, x, y, k, rest, added, k)
                        (append_assoc (events_at r s bs) (event ∷ [])
                          (filter (belongs first window_ns warmup_ns r s) events))
                  | inr k ↦ rw (filter, belongs, x, y, k, rest, added, k) refl
                ]
          ]
        ]

    pub fill_buckets-Keyed :
        (events : List (Event Number)) (bs : List (Bucket Number)) {out : List (Bucket Number)}
        → fill_buckets first window_ns warmup_ns events bs ≡ ok out
        → Keyed bs
        → Keyed out
    unfolding fill_buckets
    fill_buckets-Keyed [] bs {out} e h = let same : bs ≡ out = cc e in rw (← same) h
    fill_buckets-Keyed (event ∷ events) bs e h =
        let run = run_of event in
        elim (Result-cases (timestamp event)) [
          | inr (raised, x) ↦ absurd (let w = rw (fill_buckets, x) at e in cc w)
          | inl (t, x) ↦ elim (Bool-cases (in_warmup first warmup_ns run t)) [
            | inl y ↦ fill_buckets-Keyed events bs (rw (fill_buckets, x, y) at e) h
            | inr y ↦
                fill_buckets-Keyed events (add_event run (start_of window_ns t) event bs)
                  (rw (fill_buckets, x, y) at e)
                  (add_event-Keyed run (start_of window_ns t) event bs h)
          ]
        ]
