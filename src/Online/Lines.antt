-- ===== src/Online/Lines.antt =====
-- The lines that `ingest` reads without an exception.
use teecam.Prelude.{
  ℕ, ◌+◌, ◌-◌, ◌%◌, ◌≡◌, refl, inl, inr, ◌==◌, Bool-cases, List, [], ◌∷◌, All, All-append, Floats,
  ok,
}
use teecam.Features.Events.{Event}
use teecam.Features.Returns.{IsReadable, AllReadable}
use teecam.Online.State.{
  Line, blank, unreadable, no_data, broken, event_line, Online, add_at, events_in, take_event,
  is_early, seen, ingest,
}

module _ {Number : Type 0} where
  -- A line with no event.
  abbrev pub IsQuiet : Line Number → Type 0
  IsQuiet blank = Unit
  IsQuiet no_data = Unit
  IsQuiet unreadable = ⊥
  IsQuiet broken = ⊥
  IsQuiet (event_line event) = ⊥

module _ {Number : Type 0} (floats : Floats Number) where
  -- A line that stops nothing: it is blank, the end for now, or an event that is read with no exception.
  abbrev pub IsFine : Line Number → Type 0
  IsFine blank = Unit
  IsFine no_data = Unit
  IsFine unreadable = ⊥
  IsFine broken = ⊥
  IsFine (event_line event) = IsReadable floats event

  add_at-AllReadable :
      (start : ℕ) (event : Event Number)
      → IsReadable floats event
      → (buckets : List (ℕ × List (Event Number)))
      → All (λ bucket. AllReadable floats bucket.1) buckets
      → All (λ bucket. AllReadable floats bucket.1) (add_at start event buckets)
  unfolding add_at
  add_at-AllReadable start event e [] h = ((e, tt), tt)
  add_at-AllReadable start event e ((key, events) ∷ buckets) h = elim (Bool-cases (key == start)) [
    | inl y ↦ rw y (All-append (IsReadable floats) events (event ∷ []) h.0 (e, tt), h.1)
    | inr n ↦ rw n (h.0, add_at-AllReadable start event e buckets h.1)
  ]

  pub events_in-AllReadable :
      (start : ℕ) (buckets : List (ℕ × List (Event Number)))
      → All (λ bucket. AllReadable floats bucket.1) buckets
      → AllReadable floats (events_in start buckets)
  unfolding events_in
  events_in-AllReadable start [] h = tt
  events_in-AllReadable start ((key, events) ∷ buckets) h = elim (Bool-cases (key == start)) [
    | inl y ↦ rw y h.0
    | inr n ↦ rw n (events_in-AllReadable start buckets h.1)
  ]

module _ {Number Store : Type 0} (floats : Floats Number) where
  abbrev pub IsReady : Online Number Store → Type 0
  IsReady o = All (λ bucket. AllReadable floats bucket.1) o.buckets

  module _ (window warmup : ℕ) where
    take_event-IsReady :
        (event : Event Number) (t : ℕ) (o : Online Number Store)
        → IsReadable floats event
        → IsReady o
        → IsReady (take_event window warmup event t o).0
    unfolding take_event
    take_event-IsReady event t o e h =
        elim (Bool-cases (is_early warmup t (seen event t o.first_request_ns))) [
          | inl y ↦ rw (take_event, y) h
          | inr n ↦
              rw (take_event, n) (add_at-AllReadable floats (t - t % window) event e o.buckets h)
        ]

    pub ingest-returns :
        (lines : List (Line Number)) (o : Online Number Store)
        → All (IsFine floats) lines
        → IsReady o
        → (out : Online Number Store × ℕ) × (ingest window warmup lines o ≡ ok out) × IsReady out.0
    unfolding ingest
    ingest-returns [] o fine h = ((o, 0), refl, h)
    ingest-returns (no_data ∷ lines) o fine h = ((o, 0), refl, h)
    ingest-returns (broken ∷ lines) o fine h = absurd (fine.0)
    ingest-returns (unreadable ∷ lines) o fine h = absurd (fine.0)
    ingest-returns (blank ∷ lines) o fine h = ingest-returns lines o fine.1 h
    ingest-returns (event_line event ∷ lines) o fine h =
        let (t, e) = fine.0.time in
        let taken = take_event window warmup event t o in
        let (rest, f, times) =
          ingest-returns lines taken.0 fine.1 (take_event-IsReady event t o fine.0 h) in
        ((rest.0, taken.1 + rest.1), rw (ingest, e, f) refl, times)

    pub ingest-quiet :
        (lines : List (Line Number)) (o : Online Number Store)
        → All IsQuiet lines
        → ingest window warmup lines o ≡ ok (o, 0)
    unfolding ingest
    ingest-quiet [] o quiet = refl
    ingest-quiet (no_data ∷ lines) o quiet = refl
    ingest-quiet (broken ∷ lines) o quiet = absurd (quiet.0)
    ingest-quiet (unreadable ∷ lines) o quiet = absurd (quiet.0)
    ingest-quiet (event_line event ∷ lines) o quiet = absurd (quiet.0)
    ingest-quiet (blank ∷ lines) o quiet = ingest-quiet lines o quiet.1
