-- ===== src/Training/Parts.antt =====
-- What the three cuts of a list of runs hold, and the rows that they select.
use native.Mathlib.Nat.{suc-sub-suc, sub-zero}
use teecam.Prelude.{
  ℕ, zero, suc, ◌+◌, ◌-◌, ◌≤◌, ◌<◌, ◌≡◌, refl, ap, ◌∙◌, arith, Bool, true, false, ◌&&◌, ◌||◌, List,
  [], ◌∷◌, length, drop, length-take, length-drop, filter, any, map, Text, text_eq, text_eq_iff,
  contains,
}
use teecam.Training.Occurrences.{occurrences, contains-occurrences, occurrences-cut}
use teecam.Training.Splits.{Row, train_end, validation_end, cut, rows_in}

-- What `random.shuffle` promises: the list has the same items, as often as before.
pub record IsShuffle (shuffle : List Text → List Text) : Type 0 where
  pub size : (ids : List Text) → length (shuffle ids) ≡ length ids
  pub items : (k : Text) (ids : List Text) → occurrences k (shuffle ids) ≡ occurrences k ids

-- Whether a run has a row.
abbrev pub has_run : Text → List Row → Bool
has_run k = any (λ row. text_eq k row.run_id)

pub has_run-rows_in :
    (k : Text) (ids : List Text) (rows : List Row)
    → has_run k (rows_in ids rows) ≡ (contains k ids && has_run k rows)
unfolding rows_in filter any
has_run-rows_in k ids [] = ground arith
has_run-rows_in k ids (r ∷ rows) =
    ground
      (arith, has_run-rows_in k ids rows, text_eq_iff k r.run_id, ap (λ (t : Text). contains t ids))

drop-nil : {A : Type 0} (n : ℕ) → drop {A = A} n [] ≡ []
unfolding drop
drop-nil zero = refl
drop-nil (suc n) = refl

pub drop-drop : {A : Type 0} (a b : ℕ) (xs : List A) → a ≤ b → drop (b - a) (drop a xs) ≡ drop b xs
unfolding drop
drop-drop zero b xs h = rw sub-zero refl
drop-drop (suc a) zero xs h = absurd (omega arith)
drop-drop (suc a) (suc b) [] h = drop-nil (suc b - suc a)
drop-drop (suc a) (suc b) (x ∷ xs) h = rw suc-sub-suc (drop-drop a b xs (omega arith))

pub train_end-pos : (n : ℕ) → 1 ≤ train_end n
unfolding train_end
train_end-pos n = omega arith

pub train_end-lt-validation_end : (n : ℕ) → train_end n < validation_end n
unfolding validation_end
train_end-lt-validation_end n = omega arith

-- With five runs or more, the second cut is before the last run.
pub validation_end-lt : (n : ℕ) → 5 ≤ n → validation_end n < n
unfolding validation_end train_end
validation_end-lt n h = omega arith

pub occurrences-parts :
    (k : Text) (ids : List Text)
    → occurrences k (cut ids).train
        + occurrences k (cut ids).validation
        + occurrences k (cut ids).test
      ≡ occurrences k ids
unfolding cut
occurrences-parts k ids =
    let a = train_end (length ids) in
    let b = validation_end (length ids) in
    let tail = drop-drop a b ids (omega (arith, train_end-lt-validation_end (length ids))) in
    omega (
      arith,
      occurrences-cut k a ids,
      occurrences-cut k (b - a) (drop a ids),
      ap (occurrences k) tail,
    )

pub apart :
    (k : Text) (xs ys : List Text) (rows : List Row)
    → occurrences k xs + occurrences k ys ≤ 1
    → (has_run k (rows_in xs rows) && has_run k (rows_in ys rows)) ≡ false
apart k xs ys rows h =
    rw (has_run-rows_in k xs rows, has_run-rows_in k ys rows)
      (ground (arith, contains-occurrences k xs, contains-occurrences k ys))

-- Lists that between them hold each run once split the rows.
pub length-rows_in :
    (xs ys zs : List Text) (rows : List Row)
    → ((k : Text)
        → has_run k rows ≡ true
        → occurrences k xs + occurrences k ys + occurrences k zs ≡ 1)
    → length (rows_in xs rows) + length (rows_in ys rows) + length (rows_in zs rows) ≡ length rows
unfolding rows_in filter any
length-rows_in xs ys zs [] h = omega arith
length-rows_in xs ys zs (r ∷ rows) h =
    let k = r.run_id in
    let here = h k (ground (arith, text_eq_iff k k)) in
    let rest = length-rows_in xs ys zs rows (λ j e. h j (ground (arith, text_eq_iff j k))) in
    ground (
      arith,
      contains-occurrences k xs,
      contains-occurrences k ys,
      contains-occurrences k zs,
      here,
      rest,
    )

pub length-has_run : (k : Text) (rows : List Row) → has_run k rows ≡ true → 1 ≤ length rows
unfolding any
length-has_run k [] h = absurd (cc h)
length-has_run k (r ∷ rows) h = omega arith

pub rows_in-nonempty :
    (xs : List Text) (rows : List Row)
    → ((k : Text) → contains k xs ≡ true → has_run k rows ≡ true)
    → 1 ≤ length xs
    → 1 ≤ length (rows_in xs rows)
unfolding contains
rows_in-nonempty [] rows h n = absurd (omega arith)
rows_in-nonempty (x ∷ xs) rows h n =
    let there : contains x (x ∷ xs) ≡ true = ground (arith, text_eq_iff x x) in
    length-has_run x (rows_in (x ∷ xs) rows)
      (has_run-rows_in x (x ∷ xs) rows ∙ rw (there, h x there) refl)

pub length-cut :
    (ids : List Text)
    → 5 ≤ length ids
    → (1 ≤ length (cut ids).train) × (1 ≤ length (cut ids).validation) × (1 ≤ length (cut ids).test)
unfolding cut
length-cut ids n =
    let a = train_end (length ids) in
    let b = validation_end (length ids) in
    let first : 1 ≤ a = train_end-pos (length ids) in
    let second = train_end-lt-validation_end (length ids) in
    let third = validation_end-lt (length ids) n in
    (
      omega (arith, length-take a ids),
      omega (arith, length-take (b - a) (drop a ids), length-drop a ids),
      omega (arith, length-drop b ids),
    )

pub contains-map :
    (k : Text) (rows : List Row) → contains k (map (λ row. row.run_id) rows) ≡ has_run k rows
unfolding contains any
contains-map k [] = refl
contains-map k (r ∷ rows) = ap (◌||◌ (text_eq k r.run_id)) (contains-map k rows)
