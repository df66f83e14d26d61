-- ===== src/Training/Occurrences.antt =====
-- How often a text stands in a list, which sorting, shuffling and cutting do not change.
use teecam.Prelude.{
  ℕ, ◌+◌, ◌≤◌, ◌≡◌, ◌↔◌, refl, sym, ap, ◌∙◌, arith, Bool, true, List, [], ◌∷◌, take, drop, Text,
  text_eq, text_eq_iff, contains, distinct, insert_sorted, sort, count_if, count_if-append,
  take-append-drop,
}

abbrev pub occurrences : Text → List Text → ℕ
occurrences k = count_if (text_eq k)

pub contains-occurrences :
    (k : Text) (xs : List Text) → (contains k xs ≡ true) ↔ (1 ≤ occurrences k xs)
unfolding contains count_if
contains-occurrences k [] = ground arith
contains-occurrences k (x ∷ xs) = ground (arith, contains-occurrences k xs)

pub occurrences-distinct : (k : Text) (xs : List Text) → occurrences k (distinct xs) ≤ 1
unfolding distinct count_if
occurrences-distinct k [] = omega arith
occurrences-distinct k (x ∷ xs) = ground (
  arith,
  occurrences-distinct k xs,
  contains-occurrences x (distinct xs),
  contains-occurrences k (distinct xs),
  text_eq_iff k x,
)

pub contains-distinct : (k : Text) (xs : List Text) → contains k (distinct xs) ≡ contains k xs
unfolding distinct contains
contains-distinct k [] = refl
contains-distinct k (x ∷ xs) = ground (arith, contains-distinct k xs, text_eq_iff k x)

occurrences-insert_sorted :
    (le : Text → Text → Bool) (k x : Text) (xs : List Text)
    → occurrences k (insert_sorted le x xs) ≡ occurrences k (x ∷ xs)
unfolding insert_sorted count_if
occurrences-insert_sorted le k x [] = refl
occurrences-insert_sorted le k x (y ∷ ys) = ground (arith, occurrences-insert_sorted le k x ys)

pub occurrences-sort :
    (le : Text → Text → Bool) (k : Text) (xs : List Text)
    → occurrences k (sort le xs) ≡ occurrences k xs
unfolding sort count_if
occurrences-sort le k [] = refl
occurrences-sort le k (x ∷ xs) =
    omega (arith, occurrences-insert_sorted le k x (sort le xs), occurrences-sort le k xs)

-- A cut leaves each occurrence on one side.
pub occurrences-cut :
    (k : Text) (n : ℕ) (xs : List Text)
    → occurrences k (take n xs) + occurrences k (drop n xs) ≡ occurrences k xs
occurrences-cut k n xs =
    sym (count_if-append (text_eq k) (take n xs) (drop n xs))
    ∙ ap (occurrences k) (take-append-drop n xs)
