-- ===== src/Online/Held.antt =====
-- How often the online monitor has scored a window, and that `ingest` keeps windows apart.
use teecam.Prelude.{
  ℕ, ◌+◌, ◌-◌, ◌%◌, ◌≤◌, ◌≡◌, inl, inr, arith, ◌==◌, max, if◌then◌else◌, Bool-cases, List, [], ◌∷◌,
  count_if, ok, Result-cases, ok-injective,
}
use teecam.Features.Events.{Event, timestamp}
use teecam.Online.State.{
  Line, blank, unreadable, no_data, broken, event_line, Online, add_at, take_event, is_early, seen,
  ingest,
}

module _ {Number : Type 0} where
  held-add_at :
      (s start : ℕ) (event : Event Number) (buckets : List (ℕ × List (Event Number)))
      → count_if (λ bucket. bucket.0 == s) (add_at start event buckets) ≡ (
          if start == s
          then max 1 (count_if (λ bucket. bucket.0 == s) buckets)
          else count_if (λ bucket. bucket.0 == s) buckets)
  unfolding add_at count_if
  held-add_at s start event [] = ground arith
  held-add_at s start event ((key, events) ∷ buckets) =
      ground (arith, held-add_at s start event buckets)

module _ {Number Store : Type 0} where
  -- How often a window has been scored, and whether it has a bucket.
  abbrev pub scored : ℕ → Online Number Store → ℕ
  scored s o = count_if (λ start. start == s) o.processed

  abbrev pub held : ℕ → Online Number Store → ℕ
  held s o = count_if (λ bucket. bucket.0 == s) o.buckets

  -- No window has two buckets, or is scored more often than it has buckets.
  abbrev pub IsOnce : Online Number Store → Type 0
  IsOnce o = (s : ℕ) → (held s o ≤ 1) × (scored s o ≤ held s o)

  pub take_event-IsOnce :
      (window warmup : ℕ) (event : Event Number) (t : ℕ) (o : Online Number Store)
      → IsOnce o
      → IsOnce (take_event window warmup event t o).0
  unfolding take_event
  take_event-IsOnce window warmup event t o h s =
      let more = held-add_at s (t - t % window) event o.buckets in
      elim (Bool-cases (is_early warmup t (seen event t o.first_request_ns))) [
        | inl y ↦ rw (take_event, y) (h s)
        | inr n ↦ rw (take_event, n, more) (ground (arith, h s))
      ]

  -- What no event changes, no line changes.
  pub ingest-keeps :
      (window warmup : ℕ) (P : Online Number Store → Type 0)
      → ((event : Event Number) (t : ℕ) (o : Online Number Store)
          → P o
          → P (take_event window warmup event t o).0)
      → (lines : List (Line Number)) (o : Online Number Store) {out : Online Number Store × ℕ}
      → ingest window warmup lines o ≡ ok out
      → P o
      → P out.0
  unfolding ingest
  ingest-keeps window warmup P step [] o {out} e h =
      let same : (o, 0) ≡ out = ok-injective e in rw (← same) h
  ingest-keeps window warmup P step (no_data ∷ lines) o {out} e h =
      let same : (o, 0) ≡ out = ok-injective e in rw (← same) h
  ingest-keeps window warmup P step (broken ∷ lines) o e h = absurd (cc e)
  ingest-keeps window warmup P step (blank ∷ lines) o e h =
      ingest-keeps window warmup P step lines o e h
  ingest-keeps window warmup P step (unreadable ∷ lines) o e h = absurd (cc e)
  ingest-keeps window warmup P step (event_line event ∷ lines) o {out} e h =
      elim (Result-cases (timestamp event)) [
        | inr (raised, f) ↦ absurd (let w = rw (ingest, f) at e in cc w)
        | inl (t, f) ↦
            let taken = take_event window warmup event t o in
            elim (Result-cases (ingest window warmup lines taken.0)) [
              | inr (raised, g) ↦ absurd (let w = rw (ingest, f, g) at e in cc w)
              | inl (rest, g) ↦
                  let same : (rest.0, taken.1 + rest.1) ≡ out =
                    ok-injective (rw (ingest, f, g) at e) in
                  rw (← same) (ingest-keeps window warmup P step lines taken.0 g (step event t o h))
            ]
      ]
