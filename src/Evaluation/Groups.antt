-- ===== src/Evaluation/Groups.antt =====
-- The groups that `attack_detection_delays` makes: the attack windows of each run.
use mathlib.Core.List.{append_assoc, append-nil}
use teecam.Prelude.{
  ℕ, ◌≤◌, ◌≡◌, refl, sym, ap, ◌∙◌, inl, inr, arith, Bool, not, ◌&&◌, ◌==◌, Bool-cases,
  if◌then◌else◌, none, some, List, [], ◌∷◌, ◌++◌, map, filter, length, length-append, any, sort,
  insert_sorted, Text, text_eq, text_eq_iff, Dict, lookup, insert, lookup-insert, insert-IsDict,
  IsDict, some-injective,
}
use teecam.Features.Tables.{FeatureRow}
use teecam.Evaluation.Delays.{group_attacks}

module _ {V : Type 0} (le : Text × V → Text × V → Bool) where
  lookup-insert_sorted :
      (k : Text) (e : Text × V) (d : Dict V)
      → lookup e.0 d ≡ none
      → lookup k (insert_sorted le e d) ≡ (if text_eq e.0 k then some e.1 else lookup k d)
  unfolding insert_sorted lookup
  lookup-insert_sorted k e [] h = refl
  lookup-insert_sorted k e ((j, w) ∷ d) h = elim (Bool-cases (le e (j, w))) [
    | inl y ↦ rw y refl
    | inr n ↦ rw n (
        ground (
          arith,
          h,
          lookup-insert_sorted k e d,
          text_eq_iff j k,
          text_eq_iff e.0 k,
          text_eq_iff j e.0,
        ))
  ]

  pub lookup-sort : (d : Dict V) → IsDict d → (k : Text) → lookup k (sort le d) ≡ lookup k d
  unfolding sort lookup
  lookup-sort [] h k = refl
  lookup-sort ((j, w) ∷ d) h k =
      let rest = lookup-sort d h.1 in
      lookup-insert_sorted k (j, w) (sort le d) (rest j ∙ h.0)
      ∙ ap (λ o. if text_eq j k then some w else o) (rest k)

pub lookup-map :
    {V W : Type 0} (f : V → W) (k : Text) (d : Dict V)
    → lookup k (map (λ e. (e.0, f e.1)) d) ≡ elim (lookup k d) [ none ↦ none | some v ↦ some (f v) ]
unfolding lookup
lookup-map f k [] = refl
lookup-map f k ((j, w) ∷ d) = elim (Bool-cases (text_eq j k)) [
  | inl y ↦ rw y refl
  | inr n ↦ rw n (lookup-map f k d)
]

module _ {Number : Type 0} where
  -- An attack window of a run.
  abbrev pub is_of : Text → FeatureRow Number × Number → Bool
  is_of run pair = not (pair.0.is_attack == 0) && text_eq pair.0.run_id run

  abbrev pub values_in : Text → List (FeatureRow Number × Number) → List (ℕ × Number)
  values_in run pairs = map (λ pair. (pair.0.window_start_ns, pair.1)) (filter (is_of run) pairs)

  -- What `grouped` has under a run, with nothing for a run that is not there.
  abbrev pub content : Text → Dict (List (ℕ × Number)) → List (ℕ × Number)
  content run d = elim (lookup run d) [ none ↦ [] | some values ↦ values ]

  -- No group is empty, and no run has two.
  pub record IsGrouped (d : Dict (List (ℕ × Number))) : Type 0 where
    pub unique : IsDict d
    pub nonempty :
        (run : Text) (values : List (ℕ × Number)) → lookup run d ≡ some values → 1 ≤ length values

  pub empty-IsGrouped : IsGrouped []
  unfolding lookup
  empty-IsGrouped = record { unique = tt; nonempty = λ run values e. absurd (cc e) }

  pub content-insert :
      (run k : Text) (values : List (ℕ × Number)) (d : Dict (List (ℕ × Number)))
      → content run (insert k values d) ≡ (if text_eq k run then values else content run d)
  content-insert run k values d = elim (Bool-cases (text_eq k run)) [
    | inl y ↦ rw (content, lookup-insert k run values d, y) refl
    | inr n ↦ rw (content, lookup-insert k run values d, n) refl
  ]

  pub group_attacks-content :
      (pairs : List (FeatureRow Number × Number)) (d : Dict (List (ℕ × Number)))
      → IsGrouped d
      → IsGrouped (group_attacks pairs d)
        × ((run : Text)
            → content run (group_attacks pairs d) ≡ content run d ++ values_in run pairs)
  unfolding group_attacks filter
  group_attacks-content [] d h = (h, λ run. sym (append-nil (content run d)))
  group_attacks-content ((row, score) ∷ pairs) d h = elim (Bool-cases (row.is_attack == 0)) [
    | inl y ↦ let rest = group_attacks-content pairs d h in rw (group_attacks, y) rest
    | inr n ↦
        let here = content row.run_id d ++ ((row.window_start_ns, score) ∷ []) in
        let next = insert row.run_id here d in
        let grouped : IsGrouped next = record {
          unique = insert-IsDict row.run_id here d h.unique;
          nonempty = λ run values e. elim (Bool-cases (text_eq row.run_id run)) [
            | inl y ↦
                let same : here ≡ values =
                  some-injective (sym (lookup-insert row.run_id run here d ∙ rw y refl) ∙ e) in
                omega (
                  arith,
                  ap length same,
                  length-append (content row.run_id d) ((row.window_start_ns, score) ∷ []),
                )
            | inr x ↦
                h.nonempty run values (sym (lookup-insert row.run_id run here d ∙ rw x refl) ∙ e)
          ];
        } in
        let rest = group_attacks-content pairs next grouped in
        rw (group_attacks, n)
          (
            rest.0,
            λ run. elim (Bool-cases (text_eq row.run_id run)) [
              | inl y ↦
                  let same : row.run_id ≡ run = (text_eq_iff row.run_id run).0 y in
                  let begun : content run next
                      ≡ content run d ++ ((row.window_start_ns, score) ∷ []) =
                    content-insert run row.run_id here d ∙ rw y (rw same refl) in
                  rw y (
                    rest.1 run
                    ∙ ap (λ values. values ++ values_in run pairs) begun
                    ∙ append_assoc (content run d) ((row.window_start_ns, score) ∷ [])
                        (values_in run pairs))
              | inr x ↦ rw x (
                  rest.1 run
                  ∙ ap (λ values. values ++ values_in run pairs)
                      (content-insert run row.run_id here d ∙ rw x refl))
            ],
          )
  ]

  pub is_of-any :
      (run : Text) (pairs : List (FeatureRow Number × Number))
      → any (is_of run) pairs ≡ not (length (values_in run pairs) == 0)
  unfolding any filter
  is_of-any run [] = refl
  is_of-any run (pair ∷ pairs) = elim (Bool-cases (is_of run pair)) [
    | inl y ↦ rw y (ground arith)
    | inr n ↦ rw n (is_of-any run pairs)
  ]
