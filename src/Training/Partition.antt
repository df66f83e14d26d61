-- ===== src/Training/Partition.antt =====
-- The split of the benign rows: no run in two parts, every row in one, and no part empty.
use teecam.Prelude.{
  ◌+◌, ◌≤◌, ◌≡◌, sym, ◌∙◌, inl, inr, arith, true, false, ◌&&◌, ltb, List, length, map, Text,
  text_le, distinct, sort, Bool-cases, ok,
}
use teecam.Training.Occurrences.{
  occurrences, contains-occurrences, occurrences-distinct, contains-distinct, occurrences-sort,
}
use teecam.Training.Splits.{Row, Split, benign_rows, cut, select, run_ids_of, split_benign_runs}
use teecam.Training.Parts.{
  IsShuffle, has_run, occurrences-parts, apart, length-rows_in, rows_in-nonempty, length-cut,
  contains-map,
}

module _ (shuffle : List Text → List Text) (shuffles : IsShuffle shuffle) where
  abbrev parts : List Row → Split Text
  parts benign = cut (shuffle (run_ids_of benign))

  -- A run is in at most one of the three lists of identifiers, and in one if it has a row.
  occurrences-le : (k : Text) (benign : List Row) → occurrences k (shuffle (run_ids_of benign)) ≤ 1
  unfolding run_ids_of
  occurrences-le k benign =
      let ids = distinct (map (λ row. row.run_id) benign) in
      omega (
        arith,
        shuffles.items k (sort text_le ids),
        occurrences-sort text_le k ids,
        occurrences-distinct k (map (λ row. row.run_id) benign),
      )

  occurrences-ge :
      (k : Text) (benign : List Row)
      → has_run k benign ≡ true
      → 1 ≤ occurrences k (shuffle (run_ids_of benign))
  unfolding run_ids_of
  occurrences-ge k benign h =
      let ids = map (λ row. row.run_id) benign in
      let there =
        (contains-occurrences k (distinct ids)).0
          (contains-distinct k ids ∙ contains-map k benign ∙ h) in
      omega (
        arith,
        shuffles.items k (sort text_le (distinct ids)),
        occurrences-sort text_le k (distinct ids),
        there,
      )

  has_run_of :
      (k : Text) (benign : List Row)
      → 1 ≤ occurrences k (shuffle (run_ids_of benign))
      → has_run k benign ≡ true
  unfolding run_ids_of
  has_run_of k benign h =
      let ids = map (λ row. row.run_id) benign in
      sym (contains-map k benign)
      ∙ sym (contains-distinct k ids)
      ∙ (contains-occurrences k (distinct ids)).1 (
          omega (
            arith,
            shuffles.items k (sort text_le (distinct ids)),
            occurrences-sort text_le k (distinct ids),
            h,
          ))

  split-eq-ok :
      (rows : List Row) {s : Split Row}
      → split_benign_runs shuffle rows ≡ ok s
      → (5 ≤ length (run_ids_of (benign_rows rows)))
        × (s ≡ select (benign_rows rows) (parts (benign_rows rows)))
  unfolding split_benign_runs
  split-eq-ok rows e = elim (Bool-cases (ltb (length (run_ids_of (benign_rows rows))) 5)) [
    | inl y ↦ absurd (let k = rw (split_benign_runs, y) at e in cc)
    | inr n ↦ (ground arith, let k = rw (split_benign_runs, n) at e in cc)
  ]

  -- If the shuffle keeps the items of a list and the split succeeds, no run has rows in two of its
  -- parts.
  pub split_benign_runs-disjoint :
      (rows : List Row) {s : Split Row} (k : Text)
      → split_benign_runs shuffle rows ≡ ok s
      → ((has_run k s.train && has_run k s.validation) ≡ false)
        × ((has_run k s.train && has_run k s.test) ≡ false)
        × ((has_run k s.validation && has_run k s.test) ≡ false)
  unfolding select
  split_benign_runs-disjoint rows {s} k e =
      let benign = benign_rows rows in
      let ids = parts benign in
      let once = occurrences-le k benign in
      let sum = occurrences-parts k (shuffle (run_ids_of benign)) in
      rw ((split-eq-ok rows e).1) (
        apart k ids.train ids.validation benign (omega arith),
        apart k ids.train ids.test benign (omega arith),
        apart k ids.validation ids.test benign (omega arith),
      )

  -- If the shuffle keeps the items of a list and the split succeeds, its parts have as many rows
  -- together as there are benign rows.
  pub split_benign_runs-count :
      (rows : List Row) {s : Split Row}
      → split_benign_runs shuffle rows ≡ ok s
      → length s.train + length s.validation + length s.test ≡ length (benign_rows rows)
  unfolding select
  split_benign_runs-count rows {s} e =
      let benign = benign_rows rows in
      let ids = parts benign in
      rw ((split-eq-ok rows e).1) (
        length-rows_in ids.train ids.validation ids.test benign λ k h. omega (
          arith,
          occurrences-le k benign,
          occurrences-ge k benign h,
          occurrences-parts k (shuffle (run_ids_of benign)),
        ))

  -- If the shuffle keeps the items of a list and the split succeeds, each of its parts has a row.
  pub split_benign_runs-nonempty :
      (rows : List Row) {s : Split Row}
      → split_benign_runs shuffle rows ≡ ok s
      → (1 ≤ length s.train) × (1 ≤ length s.validation) × (1 ≤ length s.test)
  unfolding select
  split_benign_runs-nonempty rows {s} e =
      let benign = benign_rows rows in
      let ids = parts benign in
      let size = (split-eq-ok rows e).0 in
      let sum = λ (k : Text). occurrences-parts k (shuffle (run_ids_of benign)) in
      let long =
        length-cut (shuffle (run_ids_of benign))
          (omega (arith, shuffles.size (run_ids_of benign), size)) in
      rw ((split-eq-ok rows e).1) (
        rows_in-nonempty ids.train benign
            (λ k h.
              has_run_of k benign (omega (arith, sum k, (contains-occurrences k ids.train).0 h)))
            long.0,
        rows_in-nonempty ids.validation benign
            (λ k h.
              has_run_of k benign
                (omega (arith, sum k, (contains-occurrences k ids.validation).0 h)))
            long.1,
        rows_in-nonempty ids.test benign
            (λ k h.
              has_run_of k benign (omega (arith, sum k, (contains-occurrences k ids.test).0 h)))
            long.2,
      )
