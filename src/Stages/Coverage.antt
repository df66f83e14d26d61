-- ===== src/Stages/Coverage.antt =====
-- The checks of scripts/stage4-analyze-performance.py let through complete sets of runs only.
use teecam.Prelude.{
  ℕ, zero, suc, ◌+◌, ◌*◌, ◌≤◌, ◌<◌, ◌≡◌, refl, sym, ◌∙◌, inl, inr, arith, true, false, not, ◌&&◌,
  ◌||◌, ◌==◌, ==_iff, ltb, if◌then◌else◌, Bool-cases, List, [], ◌∷◌, map, length, length-map, any,
  any-count, all, count_if, count_if-map, count_if-filter, Text, text_eq, text_eq→eq, contains, ok,
  Result-cases,
}
use teecam.Stages.Performance.{
  RunResult, is_passed, group_of, covers, check_configuration, check_configurations, check_results,
}

-- How often the numbers below `n` stand in a list.
total : ℕ → List ℕ → ℕ
total zero xs = 0
total (suc n) xs = count_if (λ x. x == n) xs + total n xs

total-nil : (n : ℕ) → total n [] ≡ 0
unfolding total count_if
total-nil zero = refl
total-nil (suc n) = omega (arith, total-nil n)

total-cons : (n x : ℕ) (xs : List ℕ) → total n (x ∷ xs) ≡ (if ltb x n then 1 else 0) + total n xs
unfolding total count_if
total-cons zero x xs = ground arith
total-cons (suc n) x xs = ground (arith, total-cons n x xs)

total-le : (n : ℕ) (xs : List ℕ) → total n xs ≤ length xs
total-le n [] = omega (arith, total-nil n)
total-le n (x ∷ xs) = ground (arith, total-cons n x xs, total-le n xs)

covers-total : (n : ℕ) (xs : List ℕ) → covers n xs ≡ true → n ≤ total n xs
unfolding covers total
covers-total zero xs h = omega arith
covers-total (suc n) xs h = ground (arith, covers-total n xs, any-count (λ x. x == n) xs)

-- A number below `n` that stands twice takes the place of another one.
covers-count :
    (n r : ℕ) (xs : List ℕ)
    → covers n xs ≡ true
    → r < n
    → (1 ≤ count_if (λ x. x == r) xs) × (n + count_if (λ x. x == r) xs ≤ total n xs + 1)
unfolding covers total
covers-count zero r xs h below = absurd (omega (arith, below))
covers-count (suc n) r xs h below = elim (Bool-cases (r == n)) [
  | inl y ↦
      let same : r ≡ n = (==_iff r n).0 y in
      rw same (ground (arith, h, covers-total n xs, any-count (λ x. x == n) xs))
  | inr y ↦
      let rest : covers n xs ≡ true = ground (arith, h) in
      let found = covers-count n r xs rest (ground (arith, below, y)) in
      ground (arith, h, found, any-count (λ x. x == n) xs)
]

covers-once :
    (n r : ℕ) (xs : List ℕ)
    → length xs ≡ n
    → covers n xs ≡ true
    → r < n
    → count_if (λ x. x == r) xs ≡ 1
covers-once n r xs size h below = omega (arith, size, total-le n xs, covers-count n r xs h below)

module _ {Number : Type 0} (repeats : ℕ) (results : List (RunResult Number)) where
  check_configuration-once :
      (configuration : Text) (r : ℕ)
      → check_configuration repeats results configuration ≡ ok tt
      → r < repeats
      → count_if (λ item. text_eq item.configuration configuration && item.repeat == r) results ≡ 1
  unfolding check_configuration group_of
  check_configuration-once configuration r e below =
      let group = group_of configuration results in
      let seen = map (λ (item : RunResult Number). item.repeat) group in
      elim (Bool-cases (
        not (length group == repeats)
        || not (covers repeats seen && all (λ k. ltb k repeats) seen))) [
          | inl y ↦ absurd (let w = rw (check_configuration, y) at e in cc w)
          | inr n ↦
              let size : length group ≡ repeats = ground (arith, n) in
              let full : covers repeats seen ≡ true = ground (arith, n) in
              sym (
                count_if-map (λ k. k == r) (λ (item : RunResult Number). item.repeat) group
                ∙ count_if-filter (λ (item : RunResult Number). item.repeat == r)
                    (λ item. text_eq item.configuration configuration) results)
              ∙ covers-once repeats r seen
                  (length-map (λ (item : RunResult Number). item.repeat) group ∙ size) full below
        ]

  check_configurations-each :
      (configurations : List Text) (configuration : Text)
      → check_configurations repeats results configurations ≡ ok tt
      → contains configuration configurations ≡ true
      → check_configuration repeats results configuration ≡ ok tt
  unfolding check_configurations contains
  check_configurations-each [] configuration e h = absurd (cc h)
  check_configurations-each (first ∷ rest) configuration e h =
      elim (Result-cases (check_configuration repeats results first)) [
        | inr (raised, f) ↦ absurd (let w = rw (check_configurations, f) at e in cc w)
        | inl (done, f) ↦ elim (Bool-cases (text_eq configuration first)) [
          | inl y ↦ let same = text_eq→eq configuration first y in rw same f
          | inr n ↦
              check_configurations-each rest configuration (rw (check_configurations, f) at e)
                (rw n at h)
        ]
      ]

  -- If the checks of the performance runs raise nothing, there is, for each of the configurations and
  -- each repeat below the number of repeats, exactly one result, and every result has passed.
  pub check_results_complete :
      (configurations : List Text)
      → check_results repeats configurations results ≡ ok tt
      → ((configuration : Text) (r : ℕ)
          → contains configuration configurations ≡ true
          → r < repeats
          → count_if (λ item. text_eq item.configuration configuration && item.repeat == r) results
            ≡ 1)
        × (any (λ item. not (is_passed item)) results ≡ false)
  unfolding check_results
  check_results_complete configurations e =
      elim (Bool-cases (not (length results == length configurations * repeats))) [
        | inl y ↦ absurd (let w = rw (check_results, y) at e in cc w)
        | inr n ↦ elim (Bool-cases (any (λ item. not (is_passed item)) results)) [
          | inl y ↦ absurd (let w = rw (check_results, n, y) at e in cc w)
          | inr passed ↦ (
            λ configuration r member below.
                check_configuration-once configuration r
                  (check_configurations-each configurations configuration
                    (rw (check_results, n, passed) at e) member)
                  below,
            passed,
          )
        ]
      ]
